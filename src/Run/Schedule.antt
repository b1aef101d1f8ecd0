-- ===== src/Run/Schedule.antt =====
-- wf-engine/internal/run/scheduler.go: `PlanSchedule` and `EffectiveConcurrency`.
-- `marshal` stands for the JSON encoding that a comparison of a condition uses.
pub mod Steps
pub mod Limits
pub mod Ready
pub mod Exclusive
pub mod Progress
pub mod Blocked
use fishyume.Base.{
  ℕ, ◌+◌, ◌-◌, String, Bool, true, false, not, ◌&&◌, ◌||◌, List, [], ◌∷◌, ◌++◌, Option, none, some,
  Outcome, ok, err, ◌>>=◌, ◌>>◌, reject_if, str_eq, ltb, one_if, if◌then◌else◌,
}
use fishyume.Base.Int.{ℤ, pos, negsuc, ltz}
use fishyume.Workflow.Model.{Condition, Document, Normalized, Result, node_of}
use fishyume.Workflow.Reference.{Value, Results}
use fishyume.Workflow.Condition.{Evaluated, EvaluationError, evaluate, result_missing}
use fishyume.Run.Facts.{
  is_failure, is_active, is_waiting, is_open, is_settled, is_upstream_failed, by_id,
  or_zero_snapshot, snapshot_of, result_entry, results_of, counts_as_active, count_active,
  any_failure, all_settled,
}
use fishyume.Run.State.{
  NodePhase, Conclusion, Reason, WorkflowSnapshot, NodeSnapshot, zero_snapshot, is_node_completed,
}

abbrev pub safety_concurrency_ceiling : ℕ
safety_concurrency_ceiling = 8

pub data ScheduleError : Type 0 where
  not_positive_concurrency negative_backend_limit : ScheduleError
  condition_failed : String → EvaluationError → ScheduleError

pub record SchedulingDecision : Type 0 where
  pub ready_agents : List String
  pub ready_approvals : List String
  pub skip_upstream : List String
  pub skip_conditions : List String
  pub skip_failure_policy : List String
  pub effective_limit : ℕ
  pub active_agents : ℕ
  pub available_agents : ℕ
  pub stop_scheduling : Bool
  pub complete : Bool

-- An `int` that the guards have shown not to be negative.
abbrev pub magnitude : ℤ → ℕ
magnitude (pos n) = n
magnitude (negsuc n) = 0

-- `if bound < limit { limit = bound }`
abbrev pub lower_to : (bound limit : ℕ) → ℕ
lower_to bound limit = if ltb bound limit then bound else limit

abbrev pub lower_to_backend : (backend limit : ℕ) → ℕ
lower_to_backend backend limit = if ltb 0 backend && ltb backend limit then backend else limit

unfoldable pub effective_concurrency : (workflow_limit backend_limit : ℤ) → Outcome ScheduleError ℕ
effective_concurrency workflow_limit backend_limit = do
  reject_if (ltz workflow_limit (pos 1)) not_positive_concurrency
  reject_if (ltz backend_limit (pos 0)) negative_backend_limit
  ok (
      lower_to_backend (magnitude backend_limit)
        (lower_to (magnitude workflow_limit) safety_concurrency_ceiling))

-- The loop over the dependencies: `none` when one is not settled, else `upstreamFailed`.
unfoldable pub upstream : List NodeSnapshot → (failed : Bool) → List String → Option Bool
upstream nodes failed [] = some failed
upstream nodes failed (d ∷ ds) =
    let dependency = snapshot_of nodes d in
    let rest =
      upstream nodes
        (failed || is_failure dependency.conclusion || is_upstream_failed dependency.reason) ds in
    if not (is_settled dependency.phase) then none else rest

-- The lists that the loop appends to.
abbrev pub add_skip_upstream : String → SchedulingDecision → SchedulingDecision
add_skip_upstream id d = record d { skip_upstream = d.skip_upstream ++ id ∷ [] }

abbrev pub add_skip_condition : String → SchedulingDecision → SchedulingDecision
add_skip_condition id d = record d { skip_conditions = d.skip_conditions ++ id ∷ [] }

abbrev pub add_skip_failure_policy : String → SchedulingDecision → SchedulingDecision
add_skip_failure_policy id d = record d { skip_failure_policy = d.skip_failure_policy ++ id ∷ [] }

abbrev pub add_ready_approval : String → SchedulingDecision → SchedulingDecision
add_ready_approval id d = record d { ready_approvals = d.ready_approvals ++ id ∷ [] }

abbrev pub add_ready_agent : String → SchedulingDecision → SchedulingDecision
add_ready_agent id d =
    if ltb 0 d.available_agents
    then record d {
      ready_agents = d.ready_agents ++ id ∷ [];
      available_agents = d.available_agents - 1;
    }
    else d

abbrev pub Scheduled : Type 0
Scheduled = Outcome ScheduleError SchedulingDecision

-- From the test of `StopScheduling` to the end of the loop's body.
unfoldable pub start_node :
    Document → (id : String) → (eligible : Bool) → SchedulingDecision → SchedulingDecision
start_node doc id eligible d =
    if d.stop_scheduling && not eligible
    then add_skip_failure_policy id d
    else if str_eq (node_of doc id).type "approval"
    then add_ready_approval id d
    else add_ready_agent id d

-- What follows the evaluation of `When`; `missing` is `conditionResultMissing`.
unfoldable pub take_branch :
    Document → (id : String) → (failed missing : Bool) → Evaluated → SchedulingDecision → Scheduled
unfolding start_node
take_branch doc id failed missing (err e) d =
    if failed && missing then ok (add_skip_upstream id d) else err (condition_failed id e)
take_branch doc id failed missing (ok matches) d =
    ok (if not matches then add_skip_condition id d else start_node doc id failed d)

module _ (marshal : Value → String) (doc : Document) (nodes : List NodeSnapshot) where
  -- A node whose dependencies are all settled.
  unfoldable pub schedule_stable :
      (id : String) → (failed : Bool) → Option Condition → SchedulingDecision → Scheduled
  unfolding start_node take_branch
  schedule_stable id failed none d =
      ok (if failed then add_skip_upstream id d else start_node doc id false d)
  schedule_stable id failed (some branch) d =
      take_branch doc id failed (result_missing branch (results_of nodes))
        (evaluate marshal branch (results_of nodes)) d

  unfoldable pub schedule_open : (id : String) → Option Bool → SchedulingDecision → Scheduled
  unfolding schedule_stable
  schedule_open id none d = ok d
  schedule_open id (some failed) d = schedule_stable id failed (node_of doc id).when d

  -- The loop's body on the snapshot of a node of the order.
  unfoldable pub schedule_found : (id : String) → NodeSnapshot → SchedulingDecision → Scheduled
  unfolding schedule_open upstream
  schedule_found id n d =
      if d.stop_scheduling && str_eq n.type "approval" && is_waiting n.phase
      then ok (add_skip_failure_policy id d)
      else if not (is_open n.phase)
      then ok d
      else schedule_open id (upstream nodes false (node_of doc id).depends_on) d

  unfoldable pub schedule_node :
      (id : String) → Option NodeSnapshot → SchedulingDecision → Scheduled
  unfolding schedule_found
  schedule_node id none d = ok d
  schedule_node id (some n) d = schedule_found id n d

  unfoldable pub schedule_all : List String → SchedulingDecision → Scheduled
  unfolding schedule_node
  schedule_all [] d = ok d
  schedule_all (id ∷ ids) d = schedule_node id (by_id nodes id) d >>= schedule_all ids

unfoldable pub initial_decision :
    WorkflowSnapshot → List NodeSnapshot → (limit : ℕ) → SchedulingDecision
unfolding count_active any_failure
initial_decision run nodes limit = record {
  ready_agents = [];
  ready_approvals = [];
  skip_upstream = [];
  skip_conditions = [];
  skip_failure_policy = [];
  effective_limit = limit;
  active_agents = count_active nodes;
  available_agents = limit - count_active nodes;
  stop_scheduling = is_failure run.conclusion || any_failure nodes;
  complete = false;
}

-- `PlanSchedule`; its own computation of the limit is the one of `EffectiveConcurrency`.
unfoldable pub plan_schedule :
    (Value → String)
    → Normalized
    → WorkflowSnapshot
    → List NodeSnapshot
    → (backend_limit : ℤ) → Scheduled
unfolding effective_concurrency schedule_all initial_decision all_settled
plan_schedule marshal normalized run nodes backend_limit = do
  let max_concurrency = normalized.document.max_concurrency
  limit ← effective_concurrency max_concurrency backend_limit
  reject_if (ltb limit 1) not_positive_concurrency
  d ←
      schedule_all marshal normalized.document nodes normalized.topological_order
        (initial_decision run nodes limit)
  ok (record d { complete = all_settled nodes })
