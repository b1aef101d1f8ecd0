-- ===== src/Run/Schedule/Limits.antt =====
-- The limits that `PlanSchedule` keeps.
use fishyume.Base.{
  ℕ, zero, suc, ◌+◌, ◌-◌, ◌≤◌, ◌<◌, ◌≡◌, String, Bool, false, List, [], ◌∷◌, ok, reject_if, length,
  length-append, ltb, arith, >>=-eq-ok, >>-eq-ok,
}
use fishyume.Base.Int.{ℤ, pos, negsuc}
use fishyume.Workflow.Model.{Document, Normalized}
use fishyume.Workflow.Reference.{Value}
use fishyume.Run.State.{WorkflowSnapshot, NodeSnapshot}
use fishyume.Run.Facts.{count_active, all_settled}
use fishyume.Run.Schedule.{
  SchedulingDecision, ScheduleError, effective_concurrency, magnitude, start_node, schedule_all,
  plan_schedule, initial_decision, safety_concurrency_ceiling,
}
use fishyume.Run.Schedule.Steps.{
  Step, absent, closed, withdrawn, placed, Steps, done, step, Placement, unstable, skipped_upstream,
  skipped_condition, started, branched, schedule_all-Steps,
}

-- What every step keeps: the limit, the active Agents, the policy and the number of places.
pub record KeepsPlaces (before after : SchedulingDecision) : Type 0 where
  pub limit : after.effective_limit ≡ before.effective_limit
  pub active : after.active_agents ≡ before.active_agents
  pub policy : after.stop_scheduling ≡ before.stop_scheduling
  pub places :
      after.available_agents + length after.ready_agents
      ≡ before.available_agents + length before.ready_agents

keeps :
    (d e : SchedulingDecision)
    → (e.effective_limit ≡ d.effective_limit)
      × (e.active_agents ≡ d.active_agents)
      × (e.stop_scheduling ≡ d.stop_scheduling)
      × (e.available_agents + length e.ready_agents ≡ d.available_agents + length d.ready_agents)
    → KeepsPlaces d e
keeps d e h = record { limit = h.0; active = h.1; policy = h.2; places = h.3 }

start_node-KeepsPlaces :
    (doc : Document) (id : String) (eligible : Bool) (d e : SchedulingDecision)
    → e ≡ start_node doc id eligible d
    → KeepsPlaces d e
unfolding start_node
start_node-KeepsPlaces doc id eligible d e h =
    keeps d e (ground (arith, length-append d.ready_agents (id ∷ [])))

module _ (marshal : Value → String) (doc : Document) (nodes : List NodeSnapshot) where
  Placement-KeepsPlaces :
      (id : String) (d e : SchedulingDecision)
      → Placement marshal doc nodes id d e
      → KeepsPlaces d e
  Placement-KeepsPlaces id d e (unstable u h) = keeps d e (ground arith)
  Placement-KeepsPlaces id d e (skipped_upstream u h) = keeps d e (ground arith)
  Placement-KeepsPlaces id d e (skipped_condition b f u w v h) = keeps d e (ground arith)
  Placement-KeepsPlaces id d e (started u w h) = start_node-KeepsPlaces doc id false d e h
  Placement-KeepsPlaces id d e (branched b f u w v h) = start_node-KeepsPlaces doc id f d e h

  pub Step-KeepsPlaces :
      (id : String) (d e : SchedulingDecision) → Step marshal doc nodes id d e → KeepsPlaces d e
  Step-KeepsPlaces id d e (absent b h) = keeps d e (ground arith)
  Step-KeepsPlaces id d e (closed n b o h) = keeps d e (ground arith)
  Step-KeepsPlaces id d e (withdrawn n b w s h) = keeps d e (ground arith)
  Step-KeepsPlaces id d e (placed n b o p) = Placement-KeepsPlaces id d e p

  pub Steps-KeepsPlaces :
      (ids : List String) (d e : SchedulingDecision)
      → Steps marshal doc nodes ids d e
      → KeepsPlaces d e
  Steps-KeepsPlaces [] d e done = keeps d d (ground arith)
  Steps-KeepsPlaces (id ∷ ids) c e (step {d = d} first rest) =
      let a = Step-KeepsPlaces id c d first in
      let b = Steps-KeepsPlaces ids d e rest in
      keeps c e (
        ground
          (arith, a.limit, a.active, a.policy, a.places, b.limit, b.active, b.policy, b.places))

pub effective_concurrency-bounds :
    (workflow_limit backend_limit : ℤ) (limit : ℕ)
    → effective_concurrency workflow_limit backend_limit ≡ ok limit
    → (0 < limit)
      × (limit ≤ safety_concurrency_ceiling)
      × (limit ≤ magnitude workflow_limit)
      × (0 < magnitude backend_limit → limit ≤ magnitude backend_limit)
unfolding effective_concurrency
effective_concurrency-bounds (pos zero) b limit h = absurd (ground arith)
effective_concurrency-bounds (pos (suc w)) (pos b) limit h = ground arith
effective_concurrency-bounds (pos (suc w)) (negsuc b) limit h = absurd (ground arith)
effective_concurrency-bounds (negsuc w) b limit h = absurd (ground arith)

-- A plan came from the loop over the topological order.
pub plan_schedule-loop :
    (marshal : Value → String) (normalized : Normalized) (run : WorkflowSnapshot)
    (nodes : List NodeSnapshot) (backend_limit : ℤ) (d : SchedulingDecision)
    → plan_schedule marshal normalized run nodes backend_limit ≡ ok d
    → (limit : ℕ) × (e : SchedulingDecision) × (effective_concurrency
          normalized.document.max_concurrency backend_limit
        ≡ ok limit)
      × Steps marshal normalized.document nodes normalized.topological_order
          (initial_decision run nodes limit)
          e
      × (d ≡ record e { complete = all_settled nodes })
unfolding plan_schedule
plan_schedule-loop marshal normalized run nodes backend_limit d h =
    let (limit, l, h1) =
      >>=-eq-ok (effective_concurrency normalized.document.max_concurrency backend_limit) _ h in
    let (g, h2) = >>-eq-ok (reject_if (ltb limit 1) ScheduleError.not_positive_concurrency) _ h1 in
    let (e, s, h3) =
      >>=-eq-ok
        (schedule_all marshal normalized.document nodes normalized.topological_order
          (initial_decision run nodes limit))
        _ h2 in
    (
      limit,
      e,
      l,
      schedule_all-Steps marshal normalized.document nodes normalized.topological_order _ e s,
      ground arith,
    )

-- A plan starts at most as many Agents as there are places left: those that count as active and
-- those that it starts are together within the effective limit, unless more were active before. The
-- limit is positive, at most 8, at most the workflow's limit, and at most the backend's when the
-- backend declares one; and the plan reports how many places are left.
pub plan_schedule-limits :
    (marshal : Value → String) (normalized : Normalized) (run : WorkflowSnapshot)
    (nodes : List NodeSnapshot) (backend_limit : ℤ) (d : SchedulingDecision)
    → plan_schedule marshal normalized run nodes backend_limit ≡ ok d
    → (d.active_agents ≡ count_active nodes)
      × (d.available_agents + length d.ready_agents ≡ d.effective_limit - count_active nodes)
      × (0 < d.effective_limit)
      × (d.effective_limit ≤ safety_concurrency_ceiling)
      × (d.effective_limit ≤ magnitude normalized.document.max_concurrency)
      × (0 < magnitude backend_limit → d.effective_limit ≤ magnitude backend_limit)
unfolding initial_decision
plan_schedule-limits marshal normalized run nodes backend_limit d h =
    let (limit, e, l, steps, done_) =
      plan_schedule-loop marshal normalized run nodes backend_limit d h in
    let k =
      Steps-KeepsPlaces marshal normalized.document nodes normalized.topological_order _ e steps in
    let b =
      effective_concurrency-bounds normalized.document.max_concurrency backend_limit limit l in
    ground (arith, k.limit, k.active, k.places, b)
