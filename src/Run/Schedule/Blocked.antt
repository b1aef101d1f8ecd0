-- ===== src/Run/Schedule/Blocked.antt =====
-- Conditions that do not evaluate: when one of them stops the whole of `PlanSchedule`.
use text.Mathlib.TextEquality.{eq_iff}
use mathlib.Core.Bool.{false≢true}
use fishyume.Base.{
  String, true, false, List, [], ◌∷◌, none, some, ok, err, refl, ◌≡◌, subst, arith, contains,
  str_eq, Bool-cases, Outcome-cases, inl, inr, >>=-eq-ok, >>-eq-ok, reject_if, ltb,
}
use fishyume.Base.Int.{ℤ}
use fishyume.Workflow.Model.{Document, Normalized, node_of, Condition}
use fishyume.Workflow.Reference.{Value}
use fishyume.Workflow.Condition.Total.{IsDotless}
use fishyume.Base.Assoc.{lookup}
use fishyume.Workflow.Reference.{missing_result, reference_value, Results}
use fishyume.Workflow.Model.{Scalar, condition, absent, unset}
use fishyume.Workflow.Condition.{evaluate_compare, EvaluationError, evaluate}
use fishyume.Run.State.{WorkflowSnapshot, NodeSnapshot}
use fishyume.Run.Facts.{by_id, results_of, is_open}
use fishyume.Run.Schedule.{
  ScheduleError, SchedulingDecision, not_positive_concurrency, effective_concurrency,
  initial_decision, schedule_all, upstream, plan_schedule,
}
use fishyume.Run.Schedule.Steps.{
  dependencies, Placement, unstable, skipped_upstream, skipped_condition, started, branched, Step,
  absent, closed, withdrawn, placed, Steps, done, step, schedule_all-Steps,
}

module _ (marshal : Value → String) (doc : Document) (nodes : List NodeSnapshot) where
  -- The way through the loop's body of one node of the order.
  Steps-at :
      (ids : List String) (id : String) (c e : SchedulingDecision)
      → Steps marshal doc nodes ids c e
      → contains ids id ≡ true
      → (d f : SchedulingDecision) × Step marshal doc nodes id d f
  unfolding contains
  Steps-at [] id c e done h = absurd (false≢true h)
  Steps-at (x ∷ xs) id c e (step {d = d} first rest) h = elim (Bool-cases (str_eq x id)) [
    | inl same ↦ (c, d, subst (λ y. Step marshal doc nodes y c d) ((eq_iff x id).0 same) first)
    | inr other ↦ Steps-at xs id d e rest (ground arith)
  ]

  module _ (id : String) (n : NodeSnapshot) (branch : Condition) (x : EvaluationError)
      (found : by_id nodes id ≡ some n) (waits : is_open n.phase ≡ true)
      (sound : upstream nodes false (dependencies doc id) ≡ some false)
      (guarded : (node_of doc id).when ≡ some branch)
      (fails : evaluate marshal branch (results_of nodes) ≡ err x) where
    no-Placement : (d e : SchedulingDecision) → ¬ (Placement marshal doc nodes id d e)
    no-Placement d e (unstable u same) = cc
    no-Placement d e (skipped_upstream u same) = cc
    no-Placement d e (skipped_condition b f u w v same) = cc
    no-Placement d e (started u w same) = cc
    no-Placement d e (branched b f u w v same) = cc

    no-Step : (d e : SchedulingDecision) → ¬ (Step marshal doc nodes id d e)
    no-Step d e (absent b same) = cc
    no-Step d e (closed m b shut same) = ground arith
    no-Step d e (withdrawn m b w stop same) = ground arith
    no-Step d e (placed m b o p) = no-Placement d e p

    no-schedule :
        (ids : List String) (d e : SchedulingDecision)
        → contains ids id ≡ true
        → ¬ (schedule_all marshal doc nodes ids d ≡ ok e)
    no-schedule ids d e listed h =
        let (c, f, through) =
          Steps-at ids id d e (schedule_all-Steps marshal doc nodes ids d e h) listed in
        no-Step c f through

-- A comparison with the result of a node that has none.
no_result-evaluate :
    (marshal : Value → String) (compared field : String) (wanted : Scalar) (results : Results)
    → IsDotless compared
    → lookup compared results ≡ none
    → evaluate marshal (condition compared field wanted absent absent unset) results
      ≡ err (EvaluationError.reference missing_result)
unfolding evaluate evaluate_compare reference_value
no_result-evaluate marshal compared field wanted results dotless gone = rw (dotless, gone) refl

-- When the condition of one node of the order compares the result of a node that has none, and no
-- dependency of that node has failed, `PlanSchedule` returns an error: no node of the run is scheduled
-- or skipped. The node with the condition has not started, its dependencies have settled, and the ID of
-- the compared node has no dots, like every valid ID.
pub plan_schedule_refuses :
    (marshal : Value → String) (normalized : Normalized) (run : WorkflowSnapshot)
    (nodes : List NodeSnapshot) (backend_limit : ℤ) (id compared field : String) (n : NodeSnapshot)
    (wanted : Scalar)
    → contains normalized.topological_order id ≡ true
    → by_id nodes id ≡ some n
    → is_open n.phase ≡ true
    → upstream nodes false (dependencies normalized.document id) ≡ some false
    → (node_of normalized.document id).when
      ≡ some (condition compared field wanted absent absent unset)
    → IsDotless compared
    → lookup compared (results_of nodes) ≡ none
    → (e : ScheduleError) × (plan_schedule marshal normalized run nodes backend_limit ≡ err e)
unfolding plan_schedule
plan_schedule_refuses marshal normalized run nodes backend_limit id compared field n wanted listed
      found waits sound guarded dotless gone =
    let no =
      no-schedule marshal normalized.document nodes id n
        (condition compared field wanted absent absent unset)
        (EvaluationError.reference missing_result) found waits sound guarded
        (no_result-evaluate marshal compared field wanted (results_of nodes) dotless gone)
        normalized.topological_order in
    elim (Outcome-cases (plan_schedule marshal normalized run nodes backend_limit)) [
      | inr refused ↦ refused
      | inl (d, planned) ↦
          let (limit, h0, h1) =
            >>=-eq-ok (effective_concurrency normalized.document.max_concurrency backend_limit) _
              planned in
          let (h2, h3) = >>-eq-ok (reject_if (ltb limit 1) not_positive_concurrency) _ h1 in
          let (c, scheduled, h4) =
            >>=-eq-ok
              (schedule_all marshal normalized.document nodes normalized.topological_order
                (initial_decision run nodes limit))
              _ h3 in
          absurd (no (initial_decision run nodes limit) c listed scheduled)
    ]
