-- ===== src/Run/Schedule/Progress.antt =====
-- A run that waits for nothing has something to do.
use fishyume.Base.{
  ℕ, ◌+◌, ◌≤◌, ◌<◌, ◌≡◌, String, Bool, true, false, List, [], ◌∷◌, ◌++◌, some, none, ok, length,
  length-append, arith, ◌||◌, ◌⊎◌, inl, inr, All, All-append, All-map, All-contains, contains,
  subst, sym,
}
use fishyume.Base.Int.{ℤ}
use fishyume.Workflow.Model.{Document, Normalized}
use fishyume.Workflow.Reference.{Value}
use fishyume.Workflow.Graph.Order.{IsOrdered}
use fishyume.Run.State.{WorkflowSnapshot, NodeSnapshot}
use fishyume.Run.Facts.{by_id, is_open, is_settled, count_active}
use fishyume.Run.Schedule.{
  SchedulingDecision, start_node, plan_schedule, initial_decision, upstream,
}
use fishyume.Run.Schedule.Steps.{
  Step, absent, closed, withdrawn, placed, Steps, done, step, unstable, skipped_upstream,
  skipped_condition, started, branched, dependencies,
}
use fishyume.Run.Schedule.Limits.{plan_schedule-loop, effective_concurrency-bounds}
use fishyume.Run.Schedule.Ready.{IsSettledIn, failed_dependency}

-- How many nodes a plan starts or skips.
abbrev pub planned : SchedulingDecision → ℕ
planned d =
    length d.ready_agents
    + length d.ready_approvals
    + length d.skip_upstream
    + length d.skip_conditions
    + length d.skip_failure_policy

-- Something is planned, or there is a place for an Agent.
abbrev HasRoom : SchedulingDecision → Type 0
HasRoom d = 0 < planned d + d.available_agents

-- No node of the order is active or of an unknown phase.
abbrev pub IsIdle : List NodeSnapshot → String → Type 0
IsIdle nodes id =
    (n : NodeSnapshot) × (by_id nodes id ≡ some n)
    × ((is_open n.phase || is_settled n.phase) ≡ true)

upstream-settled :
    (nodes : List NodeSnapshot) (before : Bool) (ds : List String)
    → All (IsSettledIn nodes) ds
    → upstream nodes before ds ≡ none
    → ⊥
unfolding upstream
upstream-settled nodes before [] s h = ground arith
upstream-settled nodes before (d ∷ ds) s h =
    upstream-settled nodes (before || failed_dependency nodes d) ds s.1 (ground arith)

start_node-planned :
    (doc : Document) (id : String) (eligible : Bool) (d : SchedulingDecision)
    → HasRoom d
    → 0 < planned (start_node doc id eligible d)
unfolding start_node
start_node-planned doc id eligible d r = ground (
  arith,
  length-append d.ready_agents (id ∷ []),
  length-append d.ready_approvals (id ∷ []),
  length-append d.skip_failure_policy (id ∷ []),
)

start_node-grows :
    (doc : Document) (id : String) (eligible : Bool) (d : SchedulingDecision)
    → planned d ≤ planned (start_node doc id eligible d)
unfolding start_node
start_node-grows doc id eligible d = ground (
  arith,
  length-append d.ready_agents (id ∷ []),
  length-append d.ready_approvals (id ∷ []),
  length-append d.skip_failure_policy (id ∷ []),
)

module _ (marshal : Value → String) (doc : Document) (nodes : List NodeSnapshot) where
  Step-grows :
      (id : String) (d e : SchedulingDecision)
      → Step marshal doc nodes id d e
      → planned d ≤ planned e
  Step-grows id d e (absent b h) = ground arith
  Step-grows id d e (closed n b o h) = ground arith
  Step-grows id d e (withdrawn n b w s h) =
      ground (arith, length-append d.skip_failure_policy (id ∷ []))
  Step-grows id d e (placed n b o (unstable u h)) = ground arith
  Step-grows id d e (placed n b o (skipped_upstream u h)) =
      ground (arith, length-append d.skip_upstream (id ∷ []))
  Step-grows id d e (placed n b o (skipped_condition c f u w v h)) =
      ground (arith, length-append d.skip_conditions (id ∷ []))
  Step-grows id d e (placed n b o (started u w h)) = ground (arith, start_node-grows doc id false d)
  Step-grows id d e (placed n b o (branched c f u w v h)) =
      ground (arith, start_node-grows doc id f d)

  Steps-grows :
      (ids : List String) (d e : SchedulingDecision)
      → Steps marshal doc nodes ids d e
      → planned d ≤ planned e
  Steps-grows [] d e done = omega arith
  Steps-grows (id ∷ ids) c e (step {d = d} first rest) =
      omega (arith, Step-grows id c d first, Steps-grows ids d e rest)

  -- The body on a node whose dependencies are settled: the node is settled, or something is planned.
  Step-planned :
      (id : String) (d e : SchedulingDecision)
      → Step marshal doc nodes id d e
      → IsIdle nodes id
      → All (IsSettledIn nodes) (dependencies doc id)
      → HasRoom d
      → IsSettledIn nodes id × (e ≡ d) ⊎ (0 < planned e)
  Step-planned id d e (absent b h) (m, k, p) s r = absurd (ground arith)
  Step-planned id d e (closed n b o h) (m, k, p) s r = inl (ground arith)
  Step-planned id d e (withdrawn n b w t h) (m, k, p) s r =
      inr (ground (arith, length-append d.skip_failure_policy (id ∷ [])))
  Step-planned id d e (placed n b o (unstable u h)) i s r =
      absurd (upstream-settled nodes false (dependencies doc id) s u)
  Step-planned id d e (placed n b o (skipped_upstream u h)) i s r =
      inr (ground (arith, length-append d.skip_upstream (id ∷ [])))
  Step-planned id d e (placed n b o (skipped_condition c f u w v h)) i s r =
      inr (ground (arith, length-append d.skip_conditions (id ∷ [])))
  Step-planned id d e (placed n b o (started u w h)) i s r =
      inr (ground (arith, start_node-planned doc id false d))
  Step-planned id d e (placed n b o (branched c f u w v h)) i s r =
      inr (ground (arith, start_node-planned doc id f d))

  Steps-planned :
      (seen ids : List String) (d e : SchedulingDecision)
      → Steps marshal doc nodes ids d e
      → IsOrdered doc seen ids
      → All (IsSettledIn nodes) seen
      → All (IsIdle nodes) ids
      → HasRoom d
      → All (IsSettledIn nodes) ids ⊎ (0 < planned e)
  Steps-planned seen [] d e done o s i r = inl tt
  Steps-planned seen (id ∷ ids) c e (step {d = d} first rest) o s i r =
      let below =
        All-map (λ x. contains seen x ≡ true) (IsSettledIn nodes) (dependencies doc id)
          (λ x found. All-contains (IsSettledIn nodes) seen x s found) o.0 in
      elim (Step-planned id c d first i.0 below r) [
        | inr some_planned ↦ inr (omega (arith, Steps-grows ids d e rest))
        | inl (settled, same) ↦
            elim (Steps-planned (seen ++ id ∷ []) ids d e rest o.1
              (All-append (IsSettledIn nodes) seen (id ∷ []) s (settled, tt)) i.1
              (subst HasRoom (sym same) r)) [
                | inl others ↦ inl (settled, others)
                | inr some_planned ↦ inr some_planned
              ]
      ]

-- When no Agent is active, and every node of the order is pending, ready, completed or skipped, a
-- plan over an order that puts each node behind its dependencies starts or skips at least one node,
-- unless all nodes of the order are completed or skipped already.
pub plan_schedule-progress :
    (marshal : Value → String) (normalized : Normalized) (run : WorkflowSnapshot)
    (nodes : List NodeSnapshot) (backend_limit : ℤ) (d : SchedulingDecision)
    → plan_schedule marshal normalized run nodes backend_limit ≡ ok d
    → IsOrdered normalized.document [] normalized.topological_order
    → All (IsIdle nodes) normalized.topological_order
    → count_active nodes ≡ 0
    → All (IsSettledIn nodes) normalized.topological_order ⊎ (0 < planned d)
unfolding initial_decision
plan_schedule-progress marshal normalized run nodes backend_limit d h o i none_active =
    let (limit, e, l, steps, last) =
      plan_schedule-loop marshal normalized run nodes backend_limit d h in
    let bounds =
      effective_concurrency-bounds normalized.document.max_concurrency backend_limit limit l in
    elim (Steps-planned marshal normalized.document nodes [] normalized.topological_order _ e steps
      o tt i (ground (arith, bounds))) [
        | inl all_settled_ ↦ inl all_settled_
        | inr some_planned ↦ inr (ground arith)
      ]
