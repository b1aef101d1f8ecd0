-- ===== src/Run/Schedule/Exclusive.antt =====
-- No plan does two things with one node.
use fishyume.Base.{
  ℕ, ◌+◌, ◌≤◌, ◌≡◌, String, Bool, false, List, [], ◌∷◌, ok, count, one_if, str_eq, arith,
}
use fishyume.Base.Int.{ℤ}
use fishyume.Base.Counts.{count-append}
use fishyume.Workflow.Model.{Document, Normalized}
use fishyume.Workflow.Reference.{Value}
use fishyume.Run.State.{WorkflowSnapshot, NodeSnapshot}
use fishyume.Run.Schedule.{SchedulingDecision, start_node, plan_schedule, initial_decision}
use fishyume.Run.Schedule.Steps.{
  Step, absent, closed, withdrawn, placed, Steps, done, step, Placement, unstable, skipped_upstream,
  skipped_condition, started, branched,
}
use fishyume.Run.Schedule.Limits.{plan_schedule-loop}

-- How often a plan names a node, over all of its lists.
abbrev pub mentions : String → SchedulingDecision → ℕ
mentions x d =
    count x d.ready_agents
    + count x d.ready_approvals
    + count x d.skip_upstream
    + count x d.skip_conditions
    + count x d.skip_failure_policy

count-one : (x id : String) → count x (id ∷ []) ≡ one_if (str_eq id x)
unfolding count
count-one x id = omega arith

start_node-mentions :
    (x : String) (doc : Document) (id : String) (eligible : Bool) (d : SchedulingDecision)
    → mentions x (start_node doc id eligible d) ≤ mentions x d + one_if (str_eq id x)
unfolding start_node
start_node-mentions x doc id eligible d = ground (
  arith,
  count-append x d.ready_agents (id ∷ []),
  count-append x d.ready_approvals (id ∷ []),
  count-append x d.skip_failure_policy (id ∷ []),
  count-one x id,
)

module _ (marshal : Value → String) (doc : Document) (nodes : List NodeSnapshot) (x : String) where
  Placement-mentions :
      (id : String) (d e : SchedulingDecision)
      → Placement marshal doc nodes id d e
      → mentions x e ≤ mentions x d + one_if (str_eq id x)
  Placement-mentions id d e (unstable u h) = ground arith
  Placement-mentions id d e (skipped_upstream u h) =
      ground (arith, count-append x d.skip_upstream (id ∷ []), count-one x id)
  Placement-mentions id d e (skipped_condition b f u w v h) =
      ground (arith, count-append x d.skip_conditions (id ∷ []), count-one x id)
  Placement-mentions id d e (started u w h) = ground (arith, start_node-mentions x doc id false d)
  Placement-mentions id d e (branched b f u w v h) =
      ground (arith, start_node-mentions x doc id f d)

  Step-mentions :
      (id : String) (d e : SchedulingDecision)
      → Step marshal doc nodes id d e
      → mentions x e ≤ mentions x d + one_if (str_eq id x)
  Step-mentions id d e (absent b h) = ground arith
  Step-mentions id d e (closed n b o h) = ground arith
  Step-mentions id d e (withdrawn n b w s h) =
      ground (arith, count-append x d.skip_failure_policy (id ∷ []), count-one x id)
  Step-mentions id d e (placed n b o p) = Placement-mentions id d e p

  Steps-mentions :
      (ids : List String) (d e : SchedulingDecision)
      → Steps marshal doc nodes ids d e
      → mentions x e ≤ mentions x d + count x ids
  unfolding count
  Steps-mentions [] d e done = omega arith
  Steps-mentions (id ∷ ids) c e (step {d = d} first rest) =
      omega (arith, Step-mentions id c d first, Steps-mentions ids d e rest)

-- A plan names a node, over all of its lists together, at most as often as the topological order
-- does: with an order that names it once, no node is started twice, started and skipped, or skipped
-- for two reasons.
pub plan_schedule-exclusive :
    (marshal : Value → String) (normalized : Normalized) (run : WorkflowSnapshot)
    (nodes : List NodeSnapshot) (backend_limit : ℤ) (d : SchedulingDecision) (x : String)
    → plan_schedule marshal normalized run nodes backend_limit ≡ ok d
    → mentions x d ≤ count x normalized.topological_order
unfolding initial_decision count
plan_schedule-exclusive marshal normalized run nodes backend_limit d x h =
    let (limit, e, l, steps, last) =
      plan_schedule-loop marshal normalized run nodes backend_limit d h in
    let most =
      Steps-mentions marshal normalized.document nodes x normalized.topological_order _ e steps in
    ground (arith, most)
