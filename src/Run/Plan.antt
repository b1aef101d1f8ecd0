-- ===== src/Run/Plan.antt =====
-- wf-engine/internal/run/service.go: what `applyAction` decides to do with the request of a user, up to
-- the intent. `encode` stands for the JSON encoding of answers, `route` for `pendingRoutingTarget`,
-- which reads the attempt of the node and the catalogs, and `now` for the clock.
pub mod Downstream
pub mod Planned
use Prim.Native.String.{◌++◌ as append_text}
use fishyume.Base.{
  ℕ, String, Bool, true, false, not, ◌&&◌, ◌||◌, List, [], ◌∷◌, Option, none, some, Outcome, str_eq,
  is_nil, if◌then◌else◌,
}
use fishyume.Base.Int.{ℤ, pos, ltz, eqz}
use fishyume.Base.Text.{is_empty}
use fishyume.Routing.Contract.{Target}
use fishyume.Workflow.Model.{Result, InputQuestion, Scalar}
use fishyume.Run.State.{
  Conclusion, Reason, NodePhase, NodeSnapshot, WorkflowSnapshot, is_completed, is_node_completed,
}
use fishyume.Run.Facts.{is_waiting}
use fishyume.Run.Action.{ResumeAction, validate_and_encode_answers}
use fishyume.Run.Disk.{
  Act, pure, fail, fail_if, lift, ◌>>=◌, ◌>>◌, NodeMutation, unknown_type, conflicting_decision,
  not_waiting_approval, not_retryable, unacknowledged_risk, not_waiting_input, attempt_conflict,
  refused_answer, refused_route,
}
use fishyume.Run.Reset.{plan_downstream_reset}

-- What `applyAction` decides to do.
pub data Plan : Type 0 where
  nothing : Plan
  finalize : NodeSnapshot → (event_type summary : String) → Plan
  mutate : List NodeMutation → (event_type summary : String) → Plan

abbrev pub decision_of : ResumeAction → String
decision_of action = if str_eq action.type "approve" then "approved" else "rejected"

abbrev pub decided_message : ResumeAction → String
decided_message action = append_text "approval " (decision_of action)

abbrev pub recorded : Option Result → Option Result
recorded none = none
recorded (some r) = if is_empty r.decision then none else some r

abbrev pub decision_result : ResumeAction → Result
decision_result action = record {
  summary = "";
  artifacts = [];
  warnings = [];
  checks = [];
  questions = [];
  usage = record { input_tokens_estimated = pos 0; output_tokens_estimated = pos 0 };
  decision = decision_of action;
  reason = action.reason;
}

abbrev pub decided_node : (now : ℕ) → NodeSnapshot → ResumeAction → NodeSnapshot
decided_node now node action = record node {
  phase = NodePhase.completed;
  result = some (decision_result action);
  reason = Reason.unset;
  updated_at = now;
  conclusion =
      if str_eq (decision_of action) "approved" then Conclusion.succeeded else Conclusion.rejected;
}

abbrev is_approval_required : Reason → Bool
is_approval_required Reason.approval_required = true
is_approval_required _ = false

-- A node that has a decision.
abbrev plan_decided : WorkflowSnapshot → NodeSnapshot → ResumeAction → Result → Act Plan
plan_decided run node action result =
    if str_eq result.decision (decision_of action) && str_eq result.reason action.reason
    then (if is_completed run.phase
        then pure nothing
        else pure (finalize node "node.approval_decided" (decided_message action)))
    else fail conflicting_decision

abbrev plan_undecided : (now : ℕ) → NodeSnapshot → ResumeAction → Act Plan
plan_undecided now node action = do
  fail_if
      (not (str_eq node.type "approval")
        || not (is_waiting node.phase)
        || not (is_approval_required node.reason))
      not_waiting_approval
  pure (
      mutate (record { before = node; after = decided_node now node action } ∷ [])
        "node.approval_decided" (decided_message action))

abbrev plan_approval_from :
    (now : ℕ) → WorkflowSnapshot → NodeSnapshot → ResumeAction → Option Result → Act Plan
plan_approval_from now run node action none = plan_undecided now node action
plan_approval_from now run node action (some result) = plan_decided run node action result

unfoldable pub plan_approval : (now : ℕ) → WorkflowSnapshot → NodeSnapshot → ResumeAction → Act Plan
plan_approval now run node action = plan_approval_from now run node action (recorded node.result)

abbrev is_failed : Conclusion → Bool
is_failed Conclusion.failed = true
is_failed _ = false

abbrev is_indeterminate : Conclusion → Bool
is_indeterminate Conclusion.indeterminate = true
is_indeterminate _ = false

abbrev is_waiting_input : Reason → Bool
is_waiting_input Reason.agent_waiting_input = true
is_waiting_input _ = false

-- The reasons of a waiting node that can be tried again.
abbrev awaits_retry : Reason → Bool
awaits_retry Reason.agent_waiting_input = true
awaits_retry Reason.completion_missing = true
awaits_retry Reason.invalid_result = true
awaits_retry _ = false

abbrev pub is_retryable : NodeSnapshot → Bool
is_retryable node =
    (is_waiting node.phase && awaits_retry node.reason)
    || (is_node_completed node.phase
        && (is_failed node.conclusion || is_indeterminate node.conclusion))

-- `pendingRoutingTarget`, with or without the fallback to another model.
abbrev pub Route : Type 0
Route = (node : NodeSnapshot) → (allow_fallback : Bool) → Outcome String (Option Target)

abbrev pub retried_node : (now : ℕ) → NodeSnapshot → Option Target → NodeSnapshot
retried_node now node target = record node {
  phase = NodePhase.ready;
  conclusion = Conclusion.unset;
  reason = Reason.unset;
  result = none;
  pending_routing_target = target;
  updated_at = now;
}

-- The mutation of the target, and behind it those of the nodes downstream.
abbrev with_downstream :
    (now : ℕ) → NodeSnapshot → NodeSnapshot → (event_type summary : String) → Act Plan
with_downstream now before after event_type summary = do
  downstream ← plan_downstream_reset now after.id
  pure (mutate (record { before = before; after = after } ∷ downstream) event_type summary)

unfoldable pub plan_retry : Route → (now : ℕ) → NodeSnapshot → ResumeAction → Act Plan
unfolding plan_downstream_reset
plan_retry route now node action = do
  fail_if (not (is_retryable node) || ltz node.current_attempt (pos 1)) not_retryable
  fail_if (is_indeterminate node.conclusion && not action.acknowledge_duplicate_risk)
      unacknowledged_risk
  target ← lift refused_route (route node true)
  with_downstream now node (retried_node now node target) "node.retry_requested"
      "explicit retry requested"

abbrev questions_of : Option Result → List InputQuestion
questions_of none = []
questions_of (some result) = result.questions

abbrev is_current : (current : ℤ) → Option ℤ → Bool
is_current current none = false
is_current current (some expected) = eqz expected current

abbrev pub answered_node :
    (now : ℕ) → NodeSnapshot → (answer : String) → Option Target → NodeSnapshot
answered_node now node answer target = record node {
  phase = NodePhase.ready;
  conclusion = Conclusion.unset;
  reason = Reason.unset;
  diagnostic = "";
  pending_input_answer = some answer;
  pending_routing_target = target;
  result = none;
  updated_at = now;
}

abbrev pub Encode : Type 0
Encode = (attempt : ℤ) → List InputQuestion → List (String × Scalar) → String

unfoldable pub plan_answer : Encode → Route → (now : ℕ) → NodeSnapshot → ResumeAction → Act Plan
unfolding plan_downstream_reset validate_and_encode_answers
plan_answer encode route now node action = do
  let questions = questions_of node.result
  fail_if
      (not (str_eq node.type "agent")
        || not (is_waiting node.phase)
        || not (is_waiting_input node.reason)
        || is_nil questions)
      not_waiting_input
  fail_if (not (is_current node.current_attempt action.expected_attempt)) attempt_conflict
  answer ←
      lift refused_answer
        (validate_and_encode_answers encode node.current_attempt questions action.answers)
  target ← lift refused_route (route node false)
  with_downstream now node (answered_node now node answer target) "node.answer_submitted"
      "input answer submitted"

-- The `switch` on the type of the action.
unfoldable pub plan_action :
    Encode → Route → (now : ℕ) → WorkflowSnapshot → NodeSnapshot → ResumeAction → Act Plan
unfolding plan_approval plan_retry plan_answer
plan_action encode route now run node action =
    if str_eq action.type "approve" || str_eq action.type "reject"
    then plan_approval now run node action
    else if str_eq action.type "retry"
    then plan_retry route now node action
    else if str_eq action.type "answer"
    then plan_answer encode route now node action
    else fail unknown_type
