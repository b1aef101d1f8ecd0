-- ===== src/Run/Apply.antt =====
-- wf-engine/internal/run/service.go: `applyAction` from its decision on, and `Resume` of an action from
-- the run on the disk to the start of the controller. Not here: the lease and the controller.
use fishyume.Base.{
  ℕ, String, Bool, true, not, ◌&&◌, List, Option, none, some, ok, ◌==◌, str_eq, if◌then◌else◌,
}
use fishyume.Base.Text.{is_empty}
use fishyume.Base.Assoc.{lookup}
use fishyume.Run.State.{WorkflowSnapshot, ActionReceipt}
use fishyume.Run.Action.{ResumeAction, validate_resume_action}
use fishyume.Run.Equality.{ResumeAction-discrete, is_same}
use fishyume.Run.Disk.{
  Act, pure, fail_if, lift, ◌>>=◌, ◌>>◌, NodeMutation, ActionIntent, missing_node_id,
  refused_request, different_request, version_conflict, read_node, write_action_intent,
  remove_action_intent,
}
use fishyume.Run.Intent.{
  action_intent_version, action_intent_planned, action_intent_applying, finalize_action,
  prepare_action_intent, apply_action_intent, resume_action_intent,
}
use fishyume.Run.Plan.{Plan, nothing, finalize, mutate, Route, Encode, plan_action}

abbrev pub new_intent :
    ResumeAction
    → (phase : String) → List NodeMutation
    → (event_type summary : String) → ActionIntent
new_intent action phase mutations event_type summary = record {
  version = action_intent_version;
  action_id = action.action_id;
  request_hash = action.action_request_hash;
  type = action.type;
  node_id = action.node_id;
  phase = phase;
  applied = 0;
  event_type = event_type;
  summary = summary;
  action = action;
  mutations = mutations;
}

-- An action without an ID leaves no intent behind.
unfoldable pub start_intent :
    WorkflowSnapshot
    → ResumeAction
    → List NodeMutation
    → (event_type summary : String) → Act WorkflowSnapshot
unfolding prepare_action_intent apply_action_intent write_action_intent
start_intent run action mutations event_type summary =
    let planned = new_intent action action_intent_planned mutations event_type summary in
    let applying = new_intent action action_intent_applying mutations event_type summary in
    if is_empty action.action_id
    then apply_action_intent run action applying
    else (prepare_action_intent planned
        >> write_action_intent action.action_id applying
        >> apply_action_intent run action applying)

abbrev carry_out : WorkflowSnapshot → ResumeAction → Plan → Act WorkflowSnapshot
carry_out run action nothing = pure run
carry_out run action (finalize node event_type summary) =
    finalize_action run node action event_type summary
carry_out run action (mutate mutations event_type summary) =
    start_intent run action mutations event_type summary

unfoldable pub apply_action :
    Encode → Route → (now : ℕ) → WorkflowSnapshot → ResumeAction → Act WorkflowSnapshot
unfolding plan_action start_intent finalize_action read_node
apply_action encode route now run action = do
  fail_if (is_empty action.node_id) missing_node_id
  node ← read_node action.node_id
  plan ← plan_action encode route now run node action
  carry_out run action plan

abbrev is_same_request : ActionIntent → ResumeAction → Bool
is_same_request intent action =
    str_eq intent.request_hash action.action_request_hash
    && str_eq intent.type action.type
    && str_eq intent.node_id action.node_id
    && is_same ResumeAction-discrete intent.action action

-- `_ = s.store.RemoveActionIntent(...)`: an error is passed over.
abbrev ignoring : {A : Type 0} → A → Act (Unit {0}) → Act A
ignoring a m d = (ok a, (m d).1)

abbrev is_expected : (version : ℕ) → Option ℕ → Bool
is_expected version none = true
is_expected version (some expected) = version == expected

-- An action that has neither a receipt nor an intent.
unfoldable pub begin_action :
    Encode
    → Route
    → (now : ℕ) → (expected : Option ℕ) → WorkflowSnapshot
    → ResumeAction
    → Act WorkflowSnapshot
unfolding apply_action validate_resume_action
begin_action encode route now expected run action = do
  fail_if (not (is_expected run.state_version expected)) version_conflict
  lift refused_request (validate_resume_action action)
  apply_action encode route now run action

abbrev with_intent :
    WorkflowSnapshot
    → ResumeAction
    → Act WorkflowSnapshot
    → Option ActionIntent
    → Act WorkflowSnapshot
with_intent run action begin none = begin
with_intent run action begin (some intent) = do
  fail_if (not (is_same_request intent action)) different_request
  resume_action_intent run action intent

abbrev with_receipt :
    WorkflowSnapshot
    → ResumeAction
    → Act WorkflowSnapshot
    → Option ActionReceipt
    → Act WorkflowSnapshot
with_receipt run action otherwise none = otherwise
with_receipt run action otherwise (some receipt) = do
  fail_if (not (str_eq receipt.request_hash action.action_request_hash)) different_request
  ignoring run (remove_action_intent action.action_id)

-- `Resume` of an action, from the run on the disk on.
unfoldable pub resume_action :
    Encode → Route → (now : ℕ) → (expected : Option ℕ) → ResumeAction → Act WorkflowSnapshot
unfolding begin_action resume_action_intent remove_action_intent is_same ResumeAction-discrete
resume_action encode route now expected action d =
    let run = d.snapshot in
    let begin = begin_action encode route now expected run action in
    if is_empty action.action_id
    then begin d
    else with_receipt run action (with_intent run action begin (lookup action.action_id d.intents))
        (lookup action.action_id run.action_receipts) d
