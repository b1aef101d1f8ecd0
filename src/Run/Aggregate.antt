-- ===== src/Run/Aggregate.antt =====
-- wf-engine/internal/run/aggregation.go: `aggregateRunState`, which derives the state of a run from
-- its nodes, with `aggregateConclusion` (parallel_launch.go) and `hasEligibleRejectedBranch`
-- (service.go). `print` stands for `fmt.Sprint` of the value that a comparison wants.
pub mod Valid
pub mod Conclusions
use fishyume.Base.{
  ℕ, suc, ◌+◌, String, Bool, true, false, not, ◌&&◌, ◌||◌, List, [], ◌∷◌, ◌++◌, Option, none, some,
  str_eq, ltb, ◌==◌, if◌then◌else◌,
}
use fishyume.Base.Text.{is_empty}
use fishyume.Workflow.Model.{
  Scalar, Condition, Group, Conditions, Negation, condition, absent, group, end, also, unset,
  negate, Document, Node,
}
use fishyume.Run.State.{
  Phase, NodePhase, Conclusion, Reason, WorkflowSnapshot, NodeSnapshot, is_node_completed,
}
use fishyume.Run.Facts.{is_failure, is_open, is_waiting, snapshot_of, any_failure}

abbrev pub is_running : NodePhase → Bool
is_running NodePhase.running = true
is_running _ = false

abbrev pub is_agent : NodeSnapshot → Bool
is_agent n = str_eq n.type "agent"

-- The counters and lists that the loop over the nodes fills.
pub record Tally : Type 0 where
  pub active_running : ℕ
  pub waiting_agents : List NodeSnapshot
  pub waiting_approvals : List NodeSnapshot
  pub pending : ℕ
  pub failure : Bool
  pub active_ids : List String

abbrev pub empty_tally : Tally
empty_tally = record {
  active_running = 0;
  waiting_agents = [];
  waiting_approvals = [];
  pending = 0;
  failure = false;
  active_ids = [];
}

-- The `switch` on the phase of a node.
abbrev pub tally_phase : NodeSnapshot → NodePhase → Tally → Tally
tally_phase n NodePhase.running t =
    if is_agent n
    then record t { active_running = t.active_running + 1; active_ids = t.active_ids ++ n.id ∷ [] }
    else t
tally_phase n NodePhase.waiting t =
    if is_agent n
    then record t {
      active_ids = t.active_ids ++ n.id ∷ [];
      waiting_agents = t.waiting_agents ++ n ∷ [];
    }
    else record t {
      active_ids = t.active_ids ++ n.id ∷ [];
      waiting_approvals = t.waiting_approvals ++ n ∷ [];
    }
tally_phase n NodePhase.pending t = record t { pending = t.pending + 1 }
tally_phase n NodePhase.ready t = record t { pending = t.pending + 1 }
tally_phase n _ t = t

abbrev pub tally_failure : NodeSnapshot → Tally → Tally
tally_failure n t =
    if is_node_completed n.phase && is_failure n.conclusion then record t { failure = true } else t

unfoldable pub tally_all : List NodeSnapshot → Tally → Tally
tally_all [] t = t
tally_all (n ∷ ns) t = tally_all ns (tally_failure n (tally_phase n n.phase t))

-- `compatActive`: the only active node.
abbrev pub only : List String → String
only [] = ""
only (id ∷ []) = id
only (id ∷ j ∷ ids) = ""

abbrev pub is_failed : Conclusion → Bool
is_failed Conclusion.failed = true
is_failed _ = false

abbrev pub is_indeterminate : Conclusion → Bool
is_indeterminate Conclusion.indeterminate = true
is_indeterminate _ = false

abbrev pub is_rejected : Conclusion → Bool
is_rejected Conclusion.rejected = true
is_rejected _ = false

abbrev pub is_succeeded : Conclusion → Bool
is_succeeded Conclusion.succeeded = true
is_succeeded _ = false

abbrev pub is_condition_false : Reason → Bool
is_condition_false Reason.condition_false = true
is_condition_false _ = false

-- One node's effect on the conclusion, where it is not failed.
abbrev pub next_conclusion : (node before : Conclusion) → Conclusion
next_conclusion node before =
    if is_indeterminate node
    then Conclusion.indeterminate
    else if is_rejected node && is_succeeded before
    then Conclusion.rejected
    else before

-- The loop of `aggregateConclusion`: `none` when a node failed.
unfoldable pub conclude : List NodeSnapshot → Conclusion → Option Conclusion
conclude [] before = some before
conclude (n ∷ ns) before =
    let rest = conclude ns (next_conclusion n.conclusion before) in
    if is_failed n.conclusion then none else rest

-- `summary == ""` with its default.
abbrev pub or_default : String → String → String
or_default summary default = if is_empty summary then default else summary

abbrev pub running_run : Tally → WorkflowSnapshot → WorkflowSnapshot
running_run t run = record run {
  phase = Phase.running;
  conclusion = Conclusion.unset;
  reason = Reason.unset;
  active_node_id = only t.active_ids;
}

abbrev pub waiting_run : Tally → Reason → String → WorkflowSnapshot → WorkflowSnapshot
waiting_run t reason summary run = record run {
  phase = Phase.waiting;
  conclusion = Conclusion.unset;
  reason = reason;
  active_node_id = only t.active_ids;
  summary = summary;
}

abbrev pub draining : Tally → WorkflowSnapshot → WorkflowSnapshot
draining t run =
    if t.failure
    then record run { summary = "workflow failure detected; draining active sibling executions" }
    else run

module _ (print : Scalar → String) where
  unfoldable mutual
    pub mentions_rejected : Condition → Bool
    mentions_rejected (condition node field wanted all any negated) =
        (not (is_empty node) && str_eq field "result.decision" && str_eq (print wanted) "rejected")
        || group_mentions_rejected all
        || group_mentions_rejected any
        || negation_mentions_rejected negated

    pub group_mentions_rejected : Group → Bool
    group_mentions_rejected absent = false
    group_mentions_rejected (group cs) = some_mention_rejected cs

    pub some_mention_rejected : Conditions → Bool
    some_mention_rejected end = false
    some_mention_rejected (also c cs) = mentions_rejected c || some_mention_rejected cs

    pub negation_mentions_rejected : Negation → Bool
    negation_mentions_rejected unset = false
    negation_mentions_rejected (negate c) = mentions_rejected c

  abbrev pub has_rejected_branch : Option Condition → Bool
  has_rejected_branch none = false
  has_rejected_branch (some branch) = mentions_rejected branch

  -- The loop over the nodes of the document.
  unfoldable pub has_eligible_rejected_branch : List (String × Node) → List NodeSnapshot → Bool
  has_eligible_rejected_branch [] nodes = false
  has_eligible_rejected_branch ((id, definition) ∷ rest) nodes =
      (has_rejected_branch definition.when
        && not (is_condition_false (snapshot_of nodes id).reason))
      || has_eligible_rejected_branch rest nodes

  abbrev pub conclusion_after :
      Document → List NodeSnapshot → Option Conclusion → Conclusion × Reason
  conclusion_after doc nodes none = (Conclusion.failed, Reason.upstream_failed)
  conclusion_after doc nodes (some conclusion) =
      if is_rejected conclusion && has_eligible_rejected_branch doc.nodes nodes
      then (Conclusion.succeeded, Reason.unset)
      else (conclusion, Reason.unset)

  unfoldable pub aggregate_conclusion : List NodeSnapshot → Document → Conclusion × Reason
  unfolding conclude has_eligible_rejected_branch
  aggregate_conclusion nodes doc = conclusion_after doc nodes (conclude nodes Conclusion.succeeded)

  abbrev pub completed_run : List NodeSnapshot → Document → WorkflowSnapshot → WorkflowSnapshot
  completed_run nodes doc run =
      let (conclusion, reason) = aggregate_conclusion nodes doc in
      record run {
        phase = Phase.completed;
        conclusion = conclusion;
        reason = reason;
        active_node_id = "";
        summary = "workflow completed";
      }

  -- After the loop: the run, the type of the event, and whether the controller stops.
  unfoldable pub settle :
      Tally
      → WorkflowSnapshot
      → List NodeSnapshot
      → Document
      → (waiting_agents waiting_approvals : List NodeSnapshot) → WorkflowSnapshot × String × Bool
  settle t run nodes doc [] [] =
      if ltb 0 t.active_running
      then (draining t (running_run t run), "run.running", false)
      else if ltb 0 t.pending
      then (running_run t run, "run.running", false)
      else (completed_run nodes doc run, "run.completed", true)
  settle t run nodes doc [] (n ∷ approvals) =
      if ltb 0 t.active_running then (draining t (running_run t run), "run.running", false) else (
        waiting_run t Reason.approval_required (or_default n.diagnostic "approval required") run,
        "run.waiting",
        true,
      )
  settle t run nodes doc (n ∷ agents) approvals =
      if ltb 0 t.active_running then (draining t (running_run t run), "run.running", false) else (
        waiting_run t n.reason (or_default n.diagnostic "Agent execution is waiting") run,
        "run.waiting",
        true,
      )

  unfoldable pub aggregate_run_state :
      WorkflowSnapshot → List NodeSnapshot → Document → WorkflowSnapshot × String × Bool
  unfolding tally_all settle
  aggregate_run_state run nodes doc =
      let t = tally_all nodes empty_tally in
      settle t run nodes doc t.waiting_agents t.waiting_approvals
