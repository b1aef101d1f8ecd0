-- ===== src/Run/Schedule/Ready.antt =====
-- What `PlanSchedule` guarantees of the nodes that it starts and of those that it skips.
use fishyume.Base.{
  ◌≡◌, subst, sym, String, Bool, true, false, ◌||◌, List, [], ◌∷◌, ◌++◌, none, some, ok, All,
  All-append, arith, str_eq, ltb, Bool-cases, inl, inr, ◌⊎◌,
}
use fishyume.Base.Int.{ℤ}
use fishyume.Workflow.Model.{Document, Normalized, node_of, Condition}
use fishyume.Workflow.Reference.{Value}
use fishyume.Workflow.Condition.{evaluate}
use fishyume.Run.State.{WorkflowSnapshot, NodeSnapshot}
use fishyume.Run.Facts.{
  by_id, snapshot_of, results_of, is_open, is_settled, is_failure, is_upstream_failed, any_failure,
}
use fishyume.Run.Schedule.{
  SchedulingDecision, start_node, plan_schedule, initial_decision, upstream,
}
use fishyume.Run.Schedule.Steps.{
  Step, absent, closed, withdrawn, placed, Steps, done, step, Placement, unstable, skipped_upstream,
  skipped_condition, started, branched, dependencies,
}
use fishyume.Run.Schedule.Limits.{Step-KeepsPlaces, plan_schedule-loop}

-- A dependency that failed, or that was skipped since one of its own did.
abbrev pub failed_dependency : List NodeSnapshot → String → Bool
failed_dependency nodes id =
    is_failure (snapshot_of nodes id).conclusion || is_upstream_failed (snapshot_of nodes id).reason

unfoldable pub any_failed_dependency : List NodeSnapshot → List String → Bool
any_failed_dependency nodes [] = false
any_failed_dependency nodes (d ∷ ds) = failed_dependency nodes d || any_failed_dependency nodes ds

-- `not stop_scheduling || eligible`
abbrev implies : Bool → Bool → Bool
implies true b = b
implies false b = true

abbrev pub IsSettledIn : List NodeSnapshot → String → Type 0
IsSettledIn nodes id = is_settled (snapshot_of nodes id).phase ≡ true

upstream_sound :
    (nodes : List NodeSnapshot) (before failed : Bool) (ds : List String)
    → upstream nodes before ds ≡ some failed
    → All (IsSettledIn nodes) ds × (failed ≡ (before || any_failed_dependency nodes ds))
unfolding upstream any_failed_dependency
upstream_sound nodes before failed [] h = ground arith
upstream_sound nodes before failed (d ∷ ds) h =
    ground (arith, upstream_sound nodes (before || failed_dependency nodes d) failed ds)

module _ (marshal : Value → String) (doc : Document) (nodes : List NodeSnapshot) where
  -- What the code has seen of a node that it starts.
  pub record MayStart (stop : Bool) (id : String) : Type 0 where
    pub open_phase : (n : NodeSnapshot) × (by_id nodes id ≡ some n) × (is_open n.phase ≡ true)
    pub settled : All (IsSettledIn nodes) (dependencies doc id)
    pub allowed :
        ((node_of doc id).when ≡ none)
          × (any_failed_dependency nodes (dependencies doc id) ≡ false)
          × (stop ≡ false)
        ⊎ ((branch : Condition) × ((node_of doc id).when ≡ some branch)
            × (evaluate marshal branch (results_of nodes) ≡ ok true)
            × (stop ≡ true → any_failed_dependency nodes (dependencies doc id) ≡ true))

  pub record Started (stop : Bool) (d : SchedulingDecision) : Type 0 where
    pub agents : All (MayStart stop) d.ready_agents
    pub approvals : All (MayStart stop) d.ready_approvals

  same-Started :
      (stop : Bool) (d e : SchedulingDecision)
      → e.ready_agents ≡ d.ready_agents
      → e.ready_approvals ≡ d.ready_approvals
      → Started stop d
      → Started stop e
  same-Started stop d e a p s = record {
    agents = subst (All (MayStart stop)) (sym a) s.agents;
    approvals = subst (All (MayStart stop)) (sym p) s.approvals;
  }

  added-Started :
      (stop : Bool) (id : String) (d e : SchedulingDecision)
      → (e.ready_agents ≡ d.ready_agents ++ id ∷ []) × (e.ready_approvals ≡ d.ready_approvals)
        ⊎ (e.ready_agents ≡ d.ready_agents) × (e.ready_approvals ≡ d.ready_approvals ++ id ∷ [])
      → MayStart stop id
      → Started stop d
      → Started stop e
  added-Started stop id d e (inl (a, p)) m s = record {
    agents =
        subst (All (MayStart stop)) (sym a)
          (All-append (MayStart stop) d.ready_agents (id ∷ []) s.agents (m, tt));
    approvals = subst (All (MayStart stop)) (sym p) s.approvals;
  }
  added-Started stop id d e (inr (a, p)) m s = record {
    agents = subst (All (MayStart stop)) (sym a) s.agents;
    approvals =
        subst (All (MayStart stop)) (sym p)
          (All-append (MayStart stop) d.ready_approvals (id ∷ []) s.approvals (m, tt));
  }

  start_node-Started :
      (id : String) (eligible : Bool) (d e : SchedulingDecision)
      → e ≡ start_node doc id eligible d
      → (implies d.stop_scheduling eligible ≡ true → MayStart d.stop_scheduling id)
      → Started d.stop_scheduling d
      → Started d.stop_scheduling e
  unfolding start_node
  start_node-Started id eligible d e h m s =
      elim (Bool-cases (implies d.stop_scheduling eligible)) [
        | inr refused ↦ same-Started d.stop_scheduling d e (ground arith) (ground arith) s
        | inl may ↦ elim (Bool-cases (str_eq (node_of doc id).type "approval")) [
          | inl approval ↦
              added-Started d.stop_scheduling id d e (inr (ground arith, ground arith)) (m may) s
          | inr agent ↦ elim (Bool-cases (ltb 0 d.available_agents)) [
            | inl place ↦
                added-Started d.stop_scheduling id d e (inl (ground arith, ground arith)) (m may) s
            | inr full ↦ same-Started d.stop_scheduling d e (ground arith) (ground arith) s
          ]
        ]
      ]

  Placement-Started :
      (id : String) (n : NodeSnapshot) (d e : SchedulingDecision)
      → by_id nodes id ≡ some n
      → is_open n.phase ≡ true
      → Placement marshal doc nodes id d e
      → Started d.stop_scheduling d
      → Started d.stop_scheduling e
  Placement-Started id n d e b o (unstable u h) s =
      same-Started d.stop_scheduling d e (ground arith) (ground arith) s
  Placement-Started id n d e b o (skipped_upstream u h) s =
      same-Started d.stop_scheduling d e (ground arith) (ground arith) s
  Placement-Started id n d e b o (skipped_condition c f u w v h) s =
      same-Started d.stop_scheduling d e (ground arith) (ground arith) s
  Placement-Started id n d e b o (started u w h) s =
      let below = upstream_sound nodes false false (dependencies doc id) u in
      start_node-Started id false d e h
        (λ may. record {
          open_phase = (n, b, o);
          settled = below.0;
          allowed = inl (w, sym below.1, ground arith);
        })
        s
  Placement-Started id n d e b o (branched c f u w v h) s =
      let below = upstream_sound nodes false f (dependencies doc id) u in
      start_node-Started id f d e h
        (λ may. record {
          open_phase = (n, b, o);
          settled = below.0;
          allowed = inr (c, w, v, λ stop. ground (arith, below.1));
        })
        s

  Step-Started :
      (id : String) (d e : SchedulingDecision)
      → Step marshal doc nodes id d e
      → Started d.stop_scheduling d
      → Started d.stop_scheduling e
  Step-Started id d e (absent b h) s =
      same-Started d.stop_scheduling d e (ground arith) (ground arith) s
  Step-Started id d e (closed n b o h) s =
      same-Started d.stop_scheduling d e (ground arith) (ground arith) s
  Step-Started id d e (withdrawn n b w t h) s =
      same-Started d.stop_scheduling d e (ground arith) (ground arith) s
  Step-Started id d e (placed n b o p) s = Placement-Started id n d e b o p s

  Steps-Started :
      (ids : List String) (d e : SchedulingDecision)
      → Steps marshal doc nodes ids d e
      → Started d.stop_scheduling d
      → Started d.stop_scheduling e
  Steps-Started [] d e done s = s
  Steps-Started (id ∷ ids) c e (step {d = d} first rest) s =
      let keeps = Step-KeepsPlaces marshal doc nodes id c d first in
      subst (λ stop. Started stop e) keeps.policy
        (Steps-Started ids d e rest
          (subst (λ stop. Started stop d) (sym keeps.policy) (Step-Started id c d first s)))

-- Every Agent node and every approval that a plan starts is pending or ready, and all of its
-- dependencies are completed or skipped. Without a condition, none of them failed and the run is not
-- stopping; with one, the condition evaluates to true on the results, and when the run is stopping
-- some dependency failed.
pub plan_schedule-Started :
    (marshal : Value → String) (normalized : Normalized) (run : WorkflowSnapshot)
    (nodes : List NodeSnapshot) (backend_limit : ℤ) (d : SchedulingDecision)
    → plan_schedule marshal normalized run nodes backend_limit ≡ ok d
    → Started marshal normalized.document nodes (is_failure run.conclusion || any_failure nodes) d
unfolding initial_decision
plan_schedule-Started marshal normalized run nodes backend_limit d h =
    let (limit, e, l, steps, last) =
      plan_schedule-loop marshal normalized run nodes backend_limit d h in
    let s =
      Steps-Started marshal normalized.document nodes normalized.topological_order _ e steps
        (record { agents = tt; approvals = tt }) in
    same-Started marshal normalized.document nodes _ e d (ground arith) (ground arith) s
