-- ===== src/Run/Receipts.antt =====
-- wf-engine/internal/run/service.go: `recordActionReceipt`, which keeps the newest receipts.
pub mod Bounded
pub mod Valid
use fishyume.Base.{
  ℕ, zero, suc, ◌+◌, String, Bool, true, false, ◌&&◌, ◌||◌, List, [], ◌∷◌, length, str_lt, ltb,
  ◌==◌, if◌then◌else◌,
}
use fishyume.Base.Text.{is_empty}
use fishyume.Base.Assoc.{put, remove}
use fishyume.Base.Uint.{next_uint64}
use fishyume.Run.State.{ActionReceipt, WorkflowSnapshot}

abbrev pub max_action_receipts : ℕ
max_action_receipts = 256

abbrev pub is_older : (oldest : String) → (version : ℕ) → String → ActionReceipt → Bool
is_older oldest version id receipt =
    is_empty oldest
    || ltb receipt.state_version version
    || (receipt.state_version == version && str_lt id oldest)

-- The inner loop: `oldestID`, from the best of the receipts before.
unfoldable pub oldest_of :
    (oldest : String) → (version : ℕ) → List (String × ActionReceipt) → String
oldest_of oldest version [] = oldest
oldest_of oldest version ((id, receipt) ∷ receipts) =
    let older = is_older oldest version id receipt in
    oldest_of (if older then id else oldest) (if older then receipt.state_version else version)
      receipts

-- The outer loop. Each round drops a receipt, so as many rounds as receipts are enough.
unfoldable pub drop_oldest :
    (fuel : ℕ) → List (String × ActionReceipt) → List (String × ActionReceipt)
unfolding oldest_of
drop_oldest zero receipts = receipts
drop_oldest (suc fuel) receipts =
    let rest = drop_oldest fuel (remove (oldest_of "" 0 receipts) receipts) in
    if ltb max_action_receipts (length receipts) then rest else receipts

abbrev pub new_receipt : WorkflowSnapshot → (action_id request_hash : String) → ActionReceipt
new_receipt run action_id request_hash = record {
  action_id = action_id;
  request_hash = request_hash;
  state_version = next_uint64 run.state_version;
  phase = run.phase;
  conclusion = run.conclusion;
}

unfoldable pub record_action_receipt :
    WorkflowSnapshot → (action_id request_hash : String) → WorkflowSnapshot
unfolding drop_oldest
record_action_receipt run action_id request_hash =
    let receipts = put action_id (new_receipt run action_id request_hash) run.action_receipts in
    if is_empty action_id
    then run
    else record run { action_receipts = drop_oldest (length receipts) receipts }
