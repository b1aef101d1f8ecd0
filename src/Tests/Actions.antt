-- ===== src/Tests/Actions.antt =====
-- The approval of a node, and what its replay leaves after a stop at any of its writes.
use fishyume.Base.Assoc.{put}
use fishyume.Run.State.{validate_receipts}
use fishyume.Base.{
  ℕ, ◌≤◌, ◌≡◌, refl, String, false, [], ◌∷◌, none, some, ok, arith, length, contains, ◌⊎◌, inr,
  IsDistinct,
}
use fishyume.Base.Assoc.{lookup, keys}
use fishyume.Run.State.{
  NodePhase, Reason, NodeSnapshot, zero_snapshot, validate_workflow_snapshot, state_schema_version,
}
use fishyume.Run.Action.{ResumeAction}
use fishyume.Run.Event.{reset_event_sequence}
use fishyume.Run.Receipts.{max_action_receipts, new_receipt, record_action_receipt}
use fishyume.Run.Receipts.Bounded.{record_action_receipt_bounded}
use fishyume.Run.Receipts.Valid.{finalized_valid}
use fishyume.Run.Disk.{Disk, NodeMutation, ActionIntent}
use fishyume.Run.Intent.{
  action_intent_planned, next_version, finalized, persist_run, resume_action_intent,
}
use fishyume.Run.Intent.Progress.{AllDone, ids_of}
use fishyume.Run.Intent.Finish.{IsWritable}
use fishyume.Run.Intent.Pending.{IsPending, IsFinished}
use fishyume.Run.Intent.Replay.{resume_action_intent_recovers}
use fishyume.Run.Intent.Complete.{resume_action_intent_finishes}
use Prim.Native.String.{◌++◌ as append_text}
use fishyume.Base.{zero, suc, err, ap, sym, str_eq}
use mathlib.Core.Bool.{false≢true}
use fishyume.Base.Int.{pos}
use fishyume.Run.Disk.{unrelated_mutation, stored_intent}
use fishyume.Run.Intent.{action_intent_applying}
use fishyume.Run.Intent.Conflict.{resume_action_intent_conflicts}
use fishyume.Run.Plan.{answered_node, Route, Encode, decided_node, decided_message}
use fishyume.Run.Apply.{new_intent}
use fishyume.Tests.Runs.{started_run, normalized}

abbrev approve : ResumeAction
approve = record {
  action_id = "approve-1";
  action_request_hash = "hash-1";
  type = "approve";
  node_id = "release";
  expected_attempt = none;
  reason = "";
  answers = [];
  acknowledge_duplicate_risk = false;
}

abbrev waiting_release : NodeSnapshot
waiting_release = record zero_snapshot {
  state_schema_version = state_schema_version;
  id = "release";
  type = "approval";
  phase = NodePhase.waiting;
  reason = Reason.approval_required;
}

abbrev approval : NodeMutation
approval = record { before = waiting_release; after = decided_node 9 waiting_release approve }

abbrev plan : ActionIntent
plan =
    new_intent approve action_intent_planned (approval ∷ []) "node.approval_decided"
      (decided_message approve)

-- A line of a text, with two blanks for each level.
abbrev spaced : (depth : ℕ) → String → String
spaced zero text = text
spaced (suc depth) text = append_text "  " (spaced depth text)

-- The disk when the plan is written.
abbrev disk_with : (writes_left : ℕ) → Disk
disk_with writes_left = record {
  snapshot = started_run;
  workflow = normalized;
  nodes = ("release", waiting_release) ∷ [];
  intents = ("approve-1", plan) ∷ [];
  events = [];
  writes_left = writes_left;
  indented = spaced;
}

pending : (writes_left : ℕ) → IsPending "approve-1" plan (disk_with writes_left)
unfolding lookup
pending writes_left = record {
  current = plan;
  stored = refl;
  same = refl;
  evidence = refl;
  at = ((refl, inr (refl, omega arith)), tt);
}

-- The process stops behind its second write.
abbrev stopped_disk : Disk
stopped_disk = (resume_action_intent started_run approve plan (disk_with 2)).1

resume_action_intent_recovers_example :
    ((IsPending "approve-1" plan stopped_disk × (stopped_disk.snapshot ≡ started_run))
      ⊎ IsFinished approve plan stopped_disk)
    × ((id : String)
        → contains (ids_of plan.mutations) id ≡ false
        → lookup id stopped_disk.nodes ≡ lookup id (disk_with 2).nodes)
unfolding contains pending
resume_action_intent_recovers_example =
    resume_action_intent_recovers approve plan started_run (disk_with 2) refl (refl, tt)
      ((refl, refl), tt) (pending 2)

writable : IsWritable started_run approve plan.summary (disk_with 6)
unfolding validate_workflow_snapshot reset_event_sequence
writable = record {
  valid = λ nodes target.
      finalized_valid (record started_run { nodes = nodes }) target approve plan.summary refl refl
        refl (omega arith);
  sequence = 0;
  logged = refl;
}

resume_action_intent_finishes_example :
    let (r, e) = resume_action_intent started_run approve plan (disk_with 6) in
    (r ≡ ok e.snapshot) × AllDone e.nodes plan.mutations × (lookup "approve-1" e.intents ≡ none)
unfolding contains pending
resume_action_intent_finishes_example =
    resume_action_intent_finishes approve plan started_run (disk_with 6) refl (refl, tt)
      ((refl, refl), tt) (pending 6) writable (omega arith)

abbrev answer : ResumeAction
answer = record approve {
  action_id = "answer-1";
  type = "answer";
  node_id = "build";
  expected_attempt = some (pos 1);
}

abbrev waiting_build : NodeSnapshot
waiting_build = record waiting_release {
  id = "build";
  type = "agent";
  reason = Reason.agent_waiting_input;
  current_attempt = pos 1;
}

abbrev answering : NodeMutation
answering = record {
  before = waiting_build;
  after = answered_node 9 waiting_build "{\"q1\":\"yes\"}" none;
}

abbrev answer_plan : ActionIntent
answer_plan =
    new_intent answer action_intent_applying (answering ∷ []) "node.answer_submitted"
      "input answer submitted"

-- The process stops behind its first write, of the node.
abbrev half_answered : Disk
half_answered =
    (resume_action_intent started_run answer answer_plan (record (disk_with 1) {
      nodes = ("build", waiting_build) ∷ [];
      intents = ("answer-1", answer_plan) ∷ [];
    })).1

layouts-differ : ¬ (spaced 1 "{\"q1\":\"yes\"}" ≡ spaced 4 "{\"q1\":\"yes\"}")
layouts-differ e = false≢true (ap (λ s. str_eq (spaced 1 "{\"q1\":\"yes\"}") s) (sym e))

resume_action_intent_conflicts_example :
    resume_action_intent started_run answer (stored_intent spaced answer_plan) half_answered
    ≡ (err unrelated_mutation, half_answered)
unfolding resume_action_intent lookup native.Mathlib.Decide.ℕ_discrete put
resume_action_intent_conflicts_example =
    resume_action_intent_conflicts answer answer_plan answering [] "{\"q1\":\"yes\"}" started_run
      half_answered refl refl refl refl refl refl layouts-differ refl

finalized_valid_example :
    validate_workflow_snapshot
      (next_version (finalized started_run waiting_release approve "approval approved"))
    ≡ ok tt
unfolding validate_workflow_snapshot
finalized_valid_example =
    finalized_valid started_run waiting_release approve "approval approved" refl refl refl
      (omega arith)

record_action_receipt_bounded_example :
    let after = (record_action_receipt started_run "approve-1" "hash-1").action_receipts in
    (length after ≤ max_action_receipts)
    × IsDistinct (keys after)
    × (lookup "approve-1" after ≡ some (new_receipt started_run "approve-1" "hash-1"))
unfolding validate_receipts contains
record_action_receipt_bounded_example =
    record_action_receipt_bounded started_run "approve-1" "hash-1" tt refl refl refl (omega arith)

abbrev logged_disk : Disk
logged_disk = (persist_run started_run none "run.resumed" "" (disk_with 6)).1

-- No attempt has a route, and answers are not read here.
abbrev no_route : Route
no_route node allow_fallback = ok none

abbrev no_encoding : Encode
no_encoding attempt questions answers = ""
