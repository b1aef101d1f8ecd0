-- ===== src/Run/Intent.antt =====
-- wf-engine/internal/run/service.go: the intent of an action, which a crash leaves behind and a replay
-- carries out, and `persistRun`. Not here: the sinks that an event is also sent to, and the lock.
pub mod Plain
pub mod Progress
pub mod Ways
pub mod Round
pub mod Loop
pub mod Finalize
pub mod Finish
pub mod Pending
pub mod Replay
pub mod Complete
pub mod Conflict
pub mod Log
use fishyume.Base.{
  ℕ, suc, String, Bool, true, false, not, ◌&&◌, ◌||◌, List, [], ◌∷◌, Option, none, some, Outcome,
  ok, err, ltb, ◌==◌, str_eq, is_nil, if◌then◌else◌,
}
use fishyume.Base.Int.{ℤ, pos, eqz}
use fishyume.Base.Sort.{sort_strings}
use fishyume.Base.Text.{is_empty}
use fishyume.Base.Assoc.{lookup, put, keys}
use fishyume.Base.Uint.{next_uint64}
use fishyume.Run.State.{
  Phase, Conclusion, Reason, NodePhase, NodeSnapshot, NodeSummary, WorkflowSnapshot,
  validate_workflow_snapshot,
}
use fishyume.Run.Action.{ResumeAction}
use fishyume.Run.Equality.{NodeSnapshot-discrete, is_same}
use fishyume.Run.Event.{WorkflowEvent, reset_event_sequence}
use fishyume.Run.Receipts.{record_action_receipt}
use fishyume.Run.Disk.{
  Disk, Act, pure, fail, fail_if, lift, ◌>>=◌, ◌>>◌, or_not_found, NodeMutation, ActionIntent,
  missing_action_id, pending_intent, no_target, no_evidence, unrelated_mutation, different_request,
  refused_snapshot, refused_events, read_node, write_node, write_action_intent,
  remove_action_intent, write_snapshot, append_event,
}

abbrev pub action_intent_version : ℤ
action_intent_version = pos 2

abbrev pub action_intent_planned : String
action_intent_planned = "planned"

abbrev pub action_intent_applying : String
action_intent_applying = "applying"

abbrev pub summarize_node : NodeSnapshot → NodeSummary
summarize_node n = record {
  id = n.id;
  type = n.type;
  phase = n.phase;
  conclusion = n.conclusion;
  reason = n.reason;
  diagnostic = n.diagnostic;
  current_attempt = n.current_attempt;
}

-- `run.Nodes[id] = summarizeNode(node)`
abbrev pub with_summary : (id : String) → NodeSnapshot → WorkflowSnapshot → WorkflowSnapshot
with_summary id node run = record run { nodes = put id (summarize_node node) run.nodes }

abbrev event_node : Option NodeSnapshot → String × NodePhase
event_node none = ("", NodePhase.unset)
event_node (some node) = (node.id, node.phase)

abbrev pub new_event :
    WorkflowSnapshot
    → Option NodeSnapshot
    → (sequence : ℕ) → (event_type message : String) → WorkflowEvent
new_event run node sequence event_type message = record {
  run_id = run.id;
  sequence = next_uint64 sequence;
  type = event_type;
  phase = run.phase;
  conclusion = run.conclusion;
  reason = run.reason;
  node_id = (event_node node).0;
  node_phase = (event_node node).1;
  message = message;
}

-- `run.StateVersion++`
abbrev pub next_version : WorkflowSnapshot → WorkflowSnapshot
next_version run = record run { state_version = next_uint64 run.state_version }

read_events : Act ℕ
read_events d = lift refused_events (reset_event_sequence d.events) d

unfoldable pub persist_run :
    WorkflowSnapshot → Option NodeSnapshot → (event_type message : String) → Act WorkflowSnapshot
unfolding read_events write_snapshot append_event
persist_run run node event_type message = do
  let next = next_version run
  lift refused_snapshot (validate_workflow_snapshot next)
  write_snapshot next
  sequence ← read_events
  append_event (new_event next node sequence event_type message)
  pure next

-- Running again, with the new summary.
abbrev pub finalized :
    WorkflowSnapshot → NodeSnapshot → ResumeAction → (summary : String) → WorkflowSnapshot
finalized run node action summary =
    record_action_receipt
      (record (with_summary node.id node run) {
        phase = Phase.running;
        conclusion = Conclusion.unset;
        reason = Reason.unset;
        active_node_id = "";
        summary = summary;
        cancel_requested = false;
      })
      action.action_id action.action_request_hash

unfoldable pub finalize_action :
    WorkflowSnapshot
    → NodeSnapshot
    → ResumeAction
    → (event_type summary : String) → Act WorkflowSnapshot
unfolding persist_run remove_action_intent
finalize_action run node action event_type summary = do
  next ← persist_run (finalized run node action summary) (some node) event_type summary
  if is_empty action.action_id
      then pure next
      else (remove_action_intent action.action_id >> pure next)

-- Whether another action is pending: the first of the sorted IDs that is not this one.
unfoldable pub other_intent : (action_id : String) → List String → Option String
other_intent action_id [] = none
other_intent action_id (id ∷ ids) =
    let rest = other_intent action_id ids in if not (str_eq id action_id) then some id else rest

abbrev pub refuse_other : Option String → Act (Unit {0})
refuse_other none = pure tt
refuse_other (some id) = fail (pending_intent id)

unfoldable pub prepare_action_intent : ActionIntent → Act (Unit {0})
unfolding other_intent write_action_intent
prepare_action_intent intent d =
    (refuse_other (other_intent intent.action_id (sort_strings (keys d.intents)))
        >> write_action_intent intent.action_id intent)
      d

-- The node of a mutation, brought to its state after the mutation.
unfoldable pub settle : NodeSnapshot → NodeMutation → Act (Unit {0})
unfolding write_node is_same NodeSnapshot-discrete
settle current m =
    if is_same NodeSnapshot-discrete current m.after
    then pure tt
    else if is_same NodeSnapshot-discrete current m.before
    then write_node current.id m.after
    else fail unrelated_mutation

-- `intent.Applied = index + 1`, on the disk too.
unfoldable pub mark_applied : (action_id : String) → (index : ℕ) → ActionIntent → Act ActionIntent
unfolding write_action_intent
mark_applied action_id index intent =
    let marked = record intent { applied = suc index } in
    if not (is_empty action_id) && ltb intent.applied (suc index)
    then (write_action_intent action_id marked >> pure marked)
    else pure intent

-- The body of the loop over the mutations.
unfoldable pub apply_one :
    (action_id : String)
    → (index : ℕ) → NodeMutation
    → ActionIntent
    → WorkflowSnapshot
    → Act (ActionIntent × WorkflowSnapshot)
unfolding read_node settle mark_applied
apply_one action_id index m intent run = read_node m.after.id >>= λ current.
    if ltb index intent.applied
    then pure (intent, with_summary current.id current run)
    else (settle current m >> mark_applied action_id index intent >>= λ marked.
        pure (marked, with_summary m.after.id m.after run))

unfoldable pub apply_mutations :
    (action_id : String)
    → (index : ℕ) → List NodeMutation
    → ActionIntent
    → WorkflowSnapshot
    → Act WorkflowSnapshot
unfolding apply_one
apply_mutations action_id index [] intent run = pure run
apply_mutations action_id index (m ∷ ms) intent run =
    apply_one action_id index m intent run >>= λ next.
    apply_mutations action_id (suc index) ms next.0 next.1

abbrev pub target_of : List NodeMutation → Act NodeSnapshot
target_of [] = fail no_target
target_of (m ∷ ms) = pure m.after

unfoldable pub apply_action_intent :
    WorkflowSnapshot → ResumeAction → ActionIntent → Act WorkflowSnapshot
unfolding apply_mutations finalize_action
apply_action_intent run action intent = do
  applied ← apply_mutations action.action_id 0 intent.mutations intent run
  target ← target_of intent.mutations
  finalize_action applied target action intent.event_type intent.summary

abbrev pub has_evidence : ActionIntent → Bool
has_evidence intent =
    eqz intent.version action_intent_version
    && (str_eq intent.phase action_intent_planned || str_eq intent.phase action_intent_applying)
    && not (is_nil intent.mutations)

-- The intent, marked on the disk as one that is being applied.
unfoldable pub begin_applying : (action_id : String) → ActionIntent → Act ActionIntent
unfolding write_action_intent
begin_applying action_id intent =
    let applying = record intent { phase = action_intent_applying } in
    if str_eq intent.phase action_intent_planned
    then (write_action_intent action_id applying >> pure applying)
    else pure intent

unfoldable pub resume_action_intent :
    WorkflowSnapshot → ResumeAction → ActionIntent → Act WorkflowSnapshot
unfolding begin_applying apply_action_intent
resume_action_intent run action intent = do
  fail_if (not (has_evidence intent)) no_evidence
  begun ← begin_applying action.action_id intent
  apply_action_intent run action begun

-- What `AbortActionIntent` does with the intent that it finds.
abbrev pub may_abort : ActionIntent → Bool
may_abort intent =
    eqz intent.version action_intent_version
    && str_eq intent.phase action_intent_planned
    && intent.applied == 0

abbrev pub abort_found : (action_id request_hash : String) → Option ActionIntent → Act (Unit {0})
abort_found action_id request_hash none = pure tt
abort_found action_id request_hash (some intent) = do
  fail_if (not (str_eq intent.request_hash request_hash)) different_request
  if may_abort intent then remove_action_intent action_id else pure tt

unfoldable pub abort_action_intent : (action_id request_hash : String) → Act (Unit {0})
unfolding remove_action_intent
abort_action_intent action_id request_hash d =
    (fail_if (is_empty action_id) missing_action_id
        >> abort_found action_id request_hash (lookup action_id d.intents))
      d
