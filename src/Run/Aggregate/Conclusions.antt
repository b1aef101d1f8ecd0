-- ===== src/Run/Aggregate/Conclusions.antt =====
-- When a run completes, and with which conclusion.
use fishyume.Base.{
  ◌≡◌, refl, ◌∙◌, String, Bool, true, false, not, ◌&&◌, ◌||◌, List, [], ◌∷◌, ◌++◌, Option, none,
  some, ltb, arith, if◌then◌else◌, is_nil, ok,
}
use fishyume.Base.Int.{ℤ}
use fishyume.Workflow.Model.{Scalar, Document, Normalized}
use fishyume.Workflow.Reference.{Value}
use fishyume.Run.State.{NodePhase, Conclusion, Reason, WorkflowSnapshot, NodeSnapshot, is_completed}
use fishyume.Run.Facts.{is_open, is_waiting, all_settled}
use fishyume.Run.Schedule.{SchedulingDecision, plan_schedule}
use fishyume.Run.Schedule.Limits.{plan_schedule-loop}
use fishyume.Run.Aggregate.{
  Tally, empty_tally, tally_phase, tally_failure, tally_all, settle, aggregate_run_state,
  is_running, is_agent, is_succeeded,
}

unfoldable pub any_concludes : (Conclusion → Bool) → List NodeSnapshot → Bool
any_concludes p [] = false
any_concludes p (n ∷ ns) = p n.conclusion || any_concludes p ns

-- The conclusion by precedence: failed, indeterminate, rejected, succeeded.
abbrev pub by_precedence : (failed indeterminate rejected handled : Bool) → Conclusion × Reason
by_precedence failed indeterminate rejected handled =
    if failed
    then (Conclusion.failed, Reason.upstream_failed)
    else if indeterminate
    then (Conclusion.indeterminate, Reason.unset)
    else if rejected && not handled
    then (Conclusion.rejected, Reason.unset)
    else (Conclusion.succeeded, Reason.unset)

abbrev concluded : (failed indeterminate rejected : Bool) → Conclusion → Option Conclusion
concluded failed indeterminate rejected before =
    if failed
    then none
    else if indeterminate
    then some Conclusion.indeterminate
    else if rejected && is_succeeded before
    then some Conclusion.rejected
    else some before

-- A node that keeps a run from completing.
abbrev pub keeps_open : NodeSnapshot → Bool
keeps_open n = is_open n.phase || is_waiting n.phase || (is_running n.phase && is_agent n)

unfoldable pub any_keeps_open : List NodeSnapshot → Bool
any_keeps_open [] = false
any_keeps_open (n ∷ ns) = keeps_open n || any_keeps_open ns

abbrev is_busy : Tally → Bool
is_busy t =
    ltb 0 t.active_running
    || not (is_nil t.waiting_agents)
    || not (is_nil t.waiting_approvals)
    || ltb 0 t.pending

is_nil-snoc : (xs : List NodeSnapshot) (x : NodeSnapshot) → is_nil (xs ++ x ∷ []) ≡ false
is_nil-snoc [] x = refl
is_nil-snoc (y ∷ ys) x = refl

abbrev phase_keeps_open : NodeSnapshot → NodePhase → Bool
phase_keeps_open n phase = is_open phase || is_waiting phase || (is_running phase && is_agent n)

tally_phase-busy :
    (n : NodeSnapshot) (phase : NodePhase) (t : Tally)
    → is_busy (tally_failure n (tally_phase n phase t)) ≡ (is_busy t || phase_keeps_open n phase)
tally_phase-busy n NodePhase.waiting t =
    ground (arith, is_nil-snoc t.waiting_agents n, is_nil-snoc t.waiting_approvals n)
tally_phase-busy n NodePhase.running t = ground arith
tally_phase-busy n NodePhase.pending t = ground arith
tally_phase-busy n NodePhase.ready t = ground arith
tally_phase-busy n _ t = ground arith

tally_all-busy :
    (ns : List NodeSnapshot) (t : Tally)
    → is_busy (tally_all ns t) ≡ (is_busy t || any_keeps_open ns)
unfolding tally_all any_keeps_open
tally_all-busy [] t = ground arith
tally_all-busy (n ∷ ns) t = ground (
  arith,
  tally_all-busy ns (tally_failure n (tally_phase n n.phase t)),
  tally_phase-busy n n.phase t,
)

settle-completes :
    (print : Scalar → String) (t : Tally) (run : WorkflowSnapshot) (nodes : List NodeSnapshot)
    (doc : Document) (agents approvals : List NodeSnapshot)
    → is_completed (settle print t run nodes doc agents approvals).0.phase
      ≡ not (
          ltb 0 t.active_running
          || not (is_nil agents)
          || not (is_nil approvals)
          || ltb 0 t.pending)
unfolding settle
settle-completes print t run nodes doc [] [] = ground arith
settle-completes print t run nodes doc [] (n ∷ approvals) = ground arith
settle-completes print t run nodes doc (n ∷ agents) approvals = ground arith

-- Aggregation completes a run exactly when no node is pending, ready or waiting and no Agent node is
-- running.
pub aggregate_run_state-completes :
    (print : Scalar → String) (run : WorkflowSnapshot) (nodes : List NodeSnapshot) (doc : Document)
    → is_completed (aggregate_run_state print run nodes doc).0.phase ≡ not (any_keeps_open nodes)
unfolding aggregate_run_state
aggregate_run_state-completes print run nodes doc =
    let t = tally_all nodes empty_tally in
    settle-completes print t run nodes doc t.waiting_agents t.waiting_approvals
    ∙ ground (arith, tally_all-busy nodes empty_tally)

all_settled-keeps_open :
    (nodes : List NodeSnapshot) → all_settled nodes ≡ true → any_keeps_open nodes ≡ false
unfolding all_settled any_keeps_open
all_settled-keeps_open [] h = refl
all_settled-keeps_open (n ∷ ns) h = ground (arith, all_settled-keeps_open ns)

-- When the plan for some nodes says that it is complete, aggregation over the same nodes completes
-- the run.
pub aggregate_run_state-after_plan :
    (marshal : Value → String) (print : Scalar → String) (normalized : Normalized)
    (run : WorkflowSnapshot) (nodes : List NodeSnapshot) (backend_limit : ℤ)
    (d : SchedulingDecision)
    → plan_schedule marshal normalized run nodes backend_limit ≡ ok d
    → d.complete ≡ true
    → is_completed (aggregate_run_state print run nodes normalized.document).0.phase ≡ true
aggregate_run_state-after_plan marshal print normalized run nodes backend_limit d h c =
    let (limit, e, l, steps, last) =
      plan_schedule-loop marshal normalized run nodes backend_limit d h in
    ground (
      arith,
      aggregate_run_state-completes print run nodes normalized.document,
      all_settled-keeps_open nodes,
    )
