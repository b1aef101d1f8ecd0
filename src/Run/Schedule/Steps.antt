-- ===== src/Run/Schedule/Steps.antt =====
-- The body of `PlanSchedule`'s loop as a relation: one constructor for each way through it.
use fishyume.Base.{
  String, Bool, true, false, List, [], ◌∷◌, Option, none, some, ok, err, ◌≡◌, refl, subst, str_eq,
  arith, >>=-eq-ok, Bool-cases, inl, inr, ◌&&◌,
}
use fishyume.Workflow.Model.{Document, node_of, Condition}
use fishyume.Workflow.Reference.{Value}
use fishyume.Workflow.Condition.{Evaluated, evaluate, result_missing}
use fishyume.Run.State.{NodeSnapshot}
use fishyume.Run.Facts.{by_id, results_of, is_open, is_waiting}
use fishyume.Run.Schedule.{
  SchedulingDecision, start_node, take_branch, schedule_stable, schedule_open, schedule_found,
  schedule_node, schedule_all, upstream, add_skip_upstream, add_skip_condition,
  add_skip_failure_policy,
}

abbrev pub dependencies : Document → String → List String
dependencies doc id = (node_of doc id).depends_on

module _ (marshal : Value → String) (doc : Document) (nodes : List NodeSnapshot) where
  -- What the source knows of an open node that it does not leave alone.
  pub data Placement (id : String) (d e : SchedulingDecision) : Type 0 where
    unstable : upstream nodes false (dependencies doc id) ≡ none → e ≡ d → Placement id d e
    skipped_upstream :
        upstream nodes false (dependencies doc id) ≡ some true
        → e ≡ add_skip_upstream id d
        → Placement id d e
    skipped_condition :
        (branch : Condition) (failed : Bool)
        → upstream nodes false (dependencies doc id) ≡ some failed
        → (node_of doc id).when ≡ some branch
        → evaluate marshal branch (results_of nodes) ≡ ok false
        → e ≡ add_skip_condition id d
        → Placement id d e
    started :
        upstream nodes false (dependencies doc id) ≡ some false
        → (node_of doc id).when ≡ none
        → e ≡ start_node doc id false d
        → Placement id d e
    branched :
        (branch : Condition) (failed : Bool)
        → upstream nodes false (dependencies doc id) ≡ some failed
        → (node_of doc id).when ≡ some branch
        → evaluate marshal branch (results_of nodes) ≡ ok true
        → e ≡ start_node doc id failed d
        → Placement id d e

  pub data Step (id : String) (d e : SchedulingDecision) : Type 0 where
    absent : by_id nodes id ≡ none → e ≡ d → Step id d e
    closed :
        (n : NodeSnapshot) → by_id nodes id ≡ some n → is_open n.phase ≡ false → e ≡ d → Step id d e
    withdrawn :
        (n : NodeSnapshot)
        → by_id nodes id ≡ some n
        → is_waiting n.phase ≡ true
        → d.stop_scheduling ≡ true
        → e ≡ add_skip_failure_policy id d
        → Step id d e
    placed :
        (n : NodeSnapshot)
        → by_id nodes id ≡ some n
        → is_open n.phase ≡ true
        → Placement id d e
        → Step id d e

  pub data Steps : List String → (d e : SchedulingDecision) → Type 0 where
    done : {d : SchedulingDecision} → Steps [] d d
    step :
        {id : String} {ids : List String} {c d e : SchedulingDecision}
        → Step id c d
        → Steps ids d e
        → Steps (id ∷ ids) c e

  take_branch-Placement :
      (id : String) (failed missing : Bool) (branch : Condition) (value : Evaluated)
      (d e : SchedulingDecision)
      → take_branch doc id failed missing value d ≡ ok e
      → upstream nodes false (dependencies doc id) ≡ some failed
      → (node_of doc id).when ≡ some branch
      → evaluate marshal branch (results_of nodes) ≡ value
      → Placement id d e
  unfolding take_branch
  take_branch-Placement id true true branch (err x) d e h u w v = skipped_upstream u (ground arith)
  take_branch-Placement id true false branch (err x) d e h u w v = absurd (ground arith)
  take_branch-Placement id false missing branch (err x) d e h u w v = absurd (ground arith)
  take_branch-Placement id failed missing branch (ok true) d e h u w v =
      branched branch failed u w v (ground arith)
  take_branch-Placement id failed missing branch (ok false) d e h u w v =
      skipped_condition branch failed u w v (ground arith)

  schedule_stable-Placement :
      (id : String) (failed : Bool) (branch : Option Condition) (d e : SchedulingDecision)
      → schedule_stable marshal doc nodes id failed branch d ≡ ok e
      → upstream nodes false (dependencies doc id) ≡ some failed
      → (node_of doc id).when ≡ branch
      → Placement id d e
  unfolding schedule_stable
  schedule_stable-Placement id true none d e h u w = skipped_upstream u (ground arith)
  schedule_stable-Placement id false none d e h u w = started u w (ground arith)
  schedule_stable-Placement id failed (some branch) d e h u w =
      take_branch-Placement id failed (result_missing branch (results_of nodes)) branch
        (evaluate marshal branch (results_of nodes)) d e h u w refl

  schedule_open-Placement :
      (id : String) (stable : Option Bool) (d e : SchedulingDecision)
      → schedule_open marshal doc nodes id stable d ≡ ok e
      → upstream nodes false (dependencies doc id) ≡ stable
      → Placement id d e
  unfolding schedule_open
  schedule_open-Placement id none d e h u = unstable u (ground arith)
  schedule_open-Placement id (some failed) d e h u =
      schedule_stable-Placement id failed (node_of doc id).when d e h u refl

  schedule_node-Step :
      (id : String) (n : Option NodeSnapshot) (d e : SchedulingDecision)
      → schedule_node marshal doc nodes id n d ≡ ok e
      → by_id nodes id ≡ n
      → Step id d e
  unfolding schedule_node schedule_found
  schedule_node-Step id none d e h b = absent b (ground arith)
  schedule_node-Step id (some n) d e h b =
      elim (Bool-cases (d.stop_scheduling && str_eq n.type "approval" && is_waiting n.phase)) [
        | inl skip ↦ withdrawn n b (ground arith) (ground arith) (ground arith)
        | inr go ↦ elim (Bool-cases (is_open n.phase)) [
          | inl waits ↦ placed n b waits (
              schedule_open-Placement id (upstream nodes false (dependencies doc id)) d e
                (ground arith) refl)
          | inr shut ↦ closed n b shut (ground arith)
        ]
      ]

  pub schedule_all-Steps :
      (ids : List String) (d e : SchedulingDecision)
      → schedule_all marshal doc nodes ids d ≡ ok e
      → Steps ids d e
  unfolding schedule_all
  schedule_all-Steps [] d e h = subst (Steps [] d) (ground arith) done
  schedule_all-Steps (id ∷ ids) d e h =
      let (c, first, rest) =
        >>=-eq-ok (schedule_node marshal doc nodes id (by_id nodes id) d) _ h in
      step (schedule_node-Step id (by_id nodes id) d c first refl) (schedule_all-Steps ids c e rest)
