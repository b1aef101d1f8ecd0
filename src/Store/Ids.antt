-- ===== src/Store/Ids.antt =====
-- wf-engine/internal/store/json_store.go: `safeID` and `validateID`.
use fishyume.Base.{String, Bool}
use fishyume.Base.Text.{name_matches}

unfoldable pub valid_id : String → Bool
unfolding name_matches
valid_id = name_matches 127
