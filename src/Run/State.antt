-- ===== src/Run/State.antt =====
-- wf-engine/internal/run/lifecycle.go: snapshots of runs and nodes, and their validation. The times
-- of a run, the time at which a node was created and the protocol versions are left out: nothing that
-- is modelled reads or changes them.
use fishyume.Base.{
  ℕ, String, Bool, true, false, not, ◌&&◌, ◌||◌, List, [], ◌∷◌, Option, none, some, Outcome, ok,
  ◌>>◌, reject_if, str_eq, ltb, ◌==◌,
}
use fishyume.Base.Int.{ℤ, pos, ltz}
use fishyume.Base.Text.{is_empty}
use fishyume.Routing.Contract.{Target, valid_target}
use fishyume.Workflow.Model.{Result}

-- The string types: the declared constants, the empty text (`unset`), and any other text.
pub data Phase : Type 0 where
  created running waiting paused cancelling completed unset : Phase
  unknown : String → Phase

pub data NodePhase : Type 0 where
  pending ready running waiting completed skipped unset : NodePhase
  unknown : String → NodePhase

pub data Conclusion : Type 0 where
  succeeded failed cancelled rejected indeterminate unset : Conclusion
  unknown : String → Conclusion

pub data Reason : Type 0 where
  approval_required agent_waiting_input completion_missing invalid_result cancel_failed : Reason
  condition_false upstream_failed failure_policy workflow_cancelled controller_detach : Reason
  user_requested unset : Reason
  unknown : String → Reason

pub record ActionReceipt : Type 0 where
  pub action_id : String
  pub request_hash : String
  pub state_version : ℕ
  pub phase : Phase
  pub conclusion : Conclusion

pub record NodeSummary : Type 0 where
  pub id : String
  pub type : String
  pub phase : NodePhase
  pub conclusion : Conclusion
  pub reason : Reason
  pub diagnostic : String
  pub current_attempt : ℤ

pub record WorkflowSnapshot : Type 0 where
  pub id : String
  pub state_schema_version : ℤ
  pub state_version : ℕ
  pub phase : Phase
  pub conclusion : Conclusion
  pub reason : Reason
  pub summary : String
  pub active_node_id : String
  pub cancel_requested : Bool
  pub action_receipts : List (String × ActionReceipt)
  pub topological_order : List String
  pub nodes : List (String × NodeSummary)

pub record NodeSnapshot : Type 0 where
  pub state_schema_version : ℤ
  pub id : String
  pub type : String
  pub phase : NodePhase
  pub conclusion : Conclusion
  pub reason : Reason
  pub diagnostic : String
  pub result : Option Result
  pub pending_input_answer : Option String
  pub pending_routing_target : Option Target
  pub current_attempt : ℤ
  pub updated_at : ℕ

-- The zero value, which `byID[id]` gives for a node that is not there.
abbrev pub zero_snapshot : NodeSnapshot
zero_snapshot = record {
  state_schema_version = pos 0;
  id = "";
  type = "";
  phase = NodePhase.unset;
  conclusion = Conclusion.unset;
  reason = Reason.unset;
  diagnostic = "";
  result = none;
  pending_input_answer = none;
  pending_routing_target = none;
  current_attempt = pos 0;
  updated_at = 0;
}

abbrev pub valid_phase : Phase → Bool
valid_phase Phase.unset = false
valid_phase (Phase.unknown s) = false
valid_phase _ = true

abbrev pub valid_node_phase : NodePhase → Bool
valid_node_phase NodePhase.unset = false
valid_node_phase (NodePhase.unknown s) = false
valid_node_phase _ = true

abbrev pub valid_conclusion : Conclusion → Bool
valid_conclusion Conclusion.unset = false
valid_conclusion (Conclusion.unknown s) = false
valid_conclusion _ = true

abbrev pub valid_reason : Reason → Bool
valid_reason Reason.unset = false
valid_reason (Reason.unknown s) = false
valid_reason _ = true

abbrev pub has_conclusion : Conclusion → Bool
has_conclusion Conclusion.unset = false
has_conclusion _ = true

abbrev pub has_reason : Reason → Bool
has_reason Reason.unset = false
has_reason _ = true

abbrev pub is_completed : Phase → Bool
is_completed Phase.completed = true
is_completed _ = false

-- Waiting, paused or cancelling: the active phases that may have a reason.
abbrev pub may_have_reason : Phase → Bool
may_have_reason Phase.waiting = true
may_have_reason Phase.paused = true
may_have_reason Phase.cancelling = true
may_have_reason _ = false

abbrev pub is_node_completed : NodePhase → Bool
is_node_completed NodePhase.completed = true
is_node_completed _ = false

abbrev pub is_skipped : NodePhase → Bool
is_skipped NodePhase.skipped = true
is_skipped _ = false

abbrev pub is_ready : NodePhase → Bool
is_ready NodePhase.ready = true
is_ready _ = false

pub data SnapshotError : Type 0 where
  newer_schema unknown_phase unknown_conclusion unknown_reason inconsistent_conclusion :
      SnapshotError
  active_reason invalid_receipt invalid_receipt_conclusion : SnapshotError
  completed_without_conclusion active_conclusion skipped_without_reason : SnapshotError
  invalid_pending_target unexpected_pending_target : SnapshotError

abbrev pub Accepted : Type 0
Accepted = Outcome SnapshotError (Unit {0})

abbrev pub state_schema_version : ℤ
state_schema_version = pos 3

unfoldable pub validate_state_schema_version : ℤ → Accepted
validate_state_schema_version version =
    reject_if (ltz version (pos 0) || ltz state_schema_version version) newer_schema

abbrev pub same_bool : Bool → Bool → Bool
same_bool true b = b
same_bool false b = not b

unfoldable pub validate_receipts : (state_version : ℕ) → List (String × ActionReceipt) → Accepted
validate_receipts version [] = ok tt
validate_receipts version ((action_id, receipt) ∷ rest) = do
  reject_if
      (is_empty action_id
        || not (str_eq receipt.action_id action_id)
        || is_empty receipt.request_hash
        || receipt.state_version == 0
        || ltb version receipt.state_version
        || not (valid_phase receipt.phase))
      invalid_receipt
  reject_if
      (not (same_bool (is_completed receipt.phase) (has_conclusion receipt.conclusion))
        || (has_conclusion receipt.conclusion && not (valid_conclusion receipt.conclusion)))
      invalid_receipt_conclusion
  validate_receipts version rest

unfoldable pub validate_workflow_snapshot : WorkflowSnapshot → Accepted
unfolding validate_state_schema_version validate_receipts
validate_workflow_snapshot s = do
  validate_state_schema_version s.state_schema_version
  reject_if (not (valid_phase s.phase)) unknown_phase
  reject_if (has_conclusion s.conclusion && not (valid_conclusion s.conclusion)) unknown_conclusion
  reject_if (has_reason s.reason && not (valid_reason s.reason)) unknown_reason
  reject_if (not (same_bool (is_completed s.phase) (has_conclusion s.conclusion)))
      inconsistent_conclusion
  reject_if (not (may_have_reason s.phase) && has_reason s.reason && not (is_completed s.phase))
      active_reason
  validate_receipts s.state_version s.action_receipts

abbrev pub pending_target_checked : NodeSnapshot → Option Target → Accepted
pending_target_checked s none = ok tt
pending_target_checked s (some target) = do
  reject_if (not (valid_target target)) invalid_pending_target
  reject_if (not (is_ready s.phase) || not (str_eq s.type "agent") || ltz s.current_attempt (pos 1))
      unexpected_pending_target

unfoldable pub validate_node_snapshot : NodeSnapshot → Accepted
unfolding validate_state_schema_version
validate_node_snapshot s = do
  validate_state_schema_version s.state_schema_version
  reject_if (not (valid_node_phase s.phase)) unknown_phase
  reject_if (has_conclusion s.conclusion && not (valid_conclusion s.conclusion)) unknown_conclusion
  reject_if (has_reason s.reason && not (valid_reason s.reason)) unknown_reason
  reject_if (is_node_completed s.phase && not (has_conclusion s.conclusion))
      completed_without_conclusion
  reject_if (not (is_node_completed s.phase) && has_conclusion s.conclusion) active_conclusion
  reject_if (is_skipped s.phase && not (has_reason s.reason)) skipped_without_reason
  pending_target_checked s s.pending_routing_target
