-- ===== src/Run/Reset.antt =====
-- wf-engine/internal/run/service.go: `planDownstreamReset`, the nodes behind a target that a retry opens
-- again, and `skipUnstarted`, the nodes that a failing or cancelled run does not start. `now` stands
-- for the clock.
pub mod Downstream
use fishyume.Base.{
  ℕ, String, Bool, true, false, not, ◌&&◌, ◌||◌, List, [], ◌∷◌, ◌++◌, Option, none, some, Outcome,
  ok, err, ltb, ◌==◌, str_eq, contains, is_nil, if◌then◌else◌,
}
use fishyume.Base.Int.{ℤ, pos, ltz, eqz}
use fishyume.Base.Sort.{sort_strings}
use fishyume.Base.Text.{is_empty}
use fishyume.Base.Assoc.{lookup}
use fishyume.Routing.Contract.{Target}
use fishyume.Workflow.Model.{Document, Result, InputQuestion, Scalar, Usage, node_of}
use fishyume.Run.State.{
  Phase, Conclusion, Reason, NodePhase, NodeSnapshot, WorkflowSnapshot, ActionReceipt, is_completed,
  is_skipped,
}
use fishyume.Run.Facts.{is_waiting, is_open}
use fishyume.Run.Action.{ResumeAction, validate_and_encode_answers, validate_resume_action}
use fishyume.Run.Equality.{ResumeAction-discrete, is_same}
use fishyume.Run.Disk.{
  Disk, Act, pure, fail, fail_if, lift, ◌>>=◌, ◌>>◌, NodeMutation, ActionIntent, missing_node_id,
  unknown_type, conflicting_decision, not_waiting_approval, not_retryable, unacknowledged_risk,
  not_waiting_input, attempt_conflict, refused_answer, refused_request, refused_route,
  different_request, version_conflict, read_node, write_node, write_action_intent,
  remove_action_intent,
}
use fishyume.Run.Intent.{
  action_intent_version, action_intent_planned, action_intent_applying, with_summary, persist_run,
  finalize_action, prepare_action_intent, apply_action_intent, resume_action_intent,
}

-- The loop over the dependencies of one node, when some nodes are known to be descendants.
abbrev pub depends_on_any : (found : List String) → List String → Bool
depends_on_any found [] = false
depends_on_any found (d ∷ ds) = contains found d || depends_on_any found ds

-- `descendants`, as the list of its keys: one pass along the topological order.
unfoldable pub mark_descendants :
    Document → (order : List String) → (found : List String) → List String
mark_descendants doc [] found = found
mark_descendants doc (id ∷ order) found = mark_descendants doc order (
    if depends_on_any found (node_of doc id).depends_on && not (contains found id)
    then id ∷ found
    else found)

unfoldable pub without : (target : String) → List String → List String
without target [] = []
without target (id ∷ ids) =
    let rest = without target ids in if not (str_eq id target) then id ∷ rest else rest

-- The IDs that the source goes through.
unfoldable pub downstream_ids : Document → (order : List String) → (target : String) → List String
unfolding mark_descendants without
downstream_ids doc order target =
    sort_strings (without target (mark_descendants doc order (target ∷ [])))

abbrev pub reset_node : (now : ℕ) → NodeSnapshot → NodeSnapshot
reset_node now node = record node {
  phase = NodePhase.pending;
  reason = Reason.unset;
  conclusion = Conclusion.unset;
  result = none;
  updated_at = now;
}

unfoldable pub reset_each : (now : ℕ) → List String → Act (List NodeMutation)
unfolding read_node
reset_each now [] = pure []
reset_each now (id ∷ ids) = do
  node ← read_node id
  rest ← reset_each now ids
  pure (
      if is_skipped node.phase
      then record { before = node; after = reset_node now node } ∷ rest
      else rest)

unfoldable pub plan_downstream_reset : (now : ℕ) → (target : String) → Act (List NodeMutation)
unfolding downstream_ids reset_each
plan_downstream_reset now target d =
    reset_each now (downstream_ids d.workflow.document d.workflow.topological_order target) d

abbrev is_unstarted : NodeSnapshot → Bool
is_unstarted node = is_open node.phase || (is_waiting node.phase && str_eq node.type "approval")

abbrev skipped_node : (now : ℕ) → Reason → NodeSnapshot → NodeSnapshot
skipped_node now reason node = record node {
  phase = NodePhase.skipped;
  reason = reason;
  updated_at = now;
}

-- The loop of `skipUnstarted` over the topological order.
unfoldable pub skip_each :
    (now : ℕ) → Reason → List String → WorkflowSnapshot → Act WorkflowSnapshot
unfolding read_node write_node
skip_each now reason [] run = pure run
skip_each now reason (id ∷ ids) run = read_node id >>= λ node.
    let skipped = skipped_node now reason node in
    (if is_unstarted node
      then (write_node id skipped >> pure (with_summary id skipped run))
      else pure run)
    >>= skip_each now reason ids

unfoldable pub skip_unstarted : (now : ℕ) → Reason → WorkflowSnapshot → Act WorkflowSnapshot
unfolding skip_each
skip_unstarted now reason run = skip_each now reason run.topological_order run
