-- ===== src/Run/Intent/Progress.antt =====
-- wf-engine/internal/run/service.go, `applyActionIntent`: what its loop keeps at every point where the
-- process may stop. Each node of the intent is as it was before its mutation or as it is after, and
-- the marker on the disk counts only nodes that are as after.
use fishyume.Base.{ℕ, suc, ◌≤◌, ◌≡◌, String, List, [], ◌∷◌, some, map, ◌⊎◌}
use fishyume.Base.Assoc.{lookup}
use fishyume.Run.State.{NodeSnapshot}
use fishyume.Run.Disk.{Disk, NodeMutation}

abbrev pub Nodes : Type 0
Nodes = List (String × NodeSnapshot)

-- The node of the mutation at `index`, when `applied` mutations are marked.
abbrev pub IsAt : Nodes → (applied index : ℕ) → NodeMutation → Type 0
IsAt nodes applied index m =
    (m.before.id ≡ m.after.id)
    × ((lookup m.after.id nodes ≡ some m.after)
        ⊎ ((lookup m.after.id nodes ≡ some m.before) × (applied ≤ index)))

abbrev pub AllAt : Nodes → (applied index : ℕ) → List NodeMutation → Type 0
AllAt nodes applied index [] = Unit
AllAt nodes applied index (m ∷ ms) = IsAt nodes applied index m × AllAt nodes applied (suc index) ms

-- Every node is as after its mutation.
abbrev pub AllDone : Nodes → List NodeMutation → Type 0
AllDone nodes [] = Unit
AllDone nodes (m ∷ ms) = (lookup m.after.id nodes ≡ some m.after) × AllDone nodes ms

abbrev pub ids_of : List NodeMutation → List String
ids_of ms = map (λ m. m.after.id) ms

-- The disks differ in the nodes and in the intents only.
abbrev pub SameRun : Disk → Disk → Type 0
SameRun d e = (e.snapshot ≡ d.snapshot) × (e.events ≡ d.events) × (e.workflow ≡ d.workflow)
