-- ===== src/Run/Intent/Pending.antt =====
-- wf-engine/internal/run/service.go: an action that is pending or finished, and what `applyActionIntent`
-- leaves of one wherever the process stops in it.
use fishyume.Base.{
  ◌≡◌, refl, sym, subst, ap, ◌∙◌, String, true, false, some, Outcome, arith, contains, IsDistinct,
  inl, inr, ◌⊎◌,
}
use fishyume.Base.Text.{is_empty}
use fishyume.Base.Assoc.{lookup}
use fishyume.Run.State.{NodeSnapshot, WorkflowSnapshot}
use fishyume.Run.Action.{ResumeAction}
use fishyume.Run.Disk.{Disk, ActionError, ActionIntent, >>=-ok, >>=-err}
use fishyume.Run.Intent.{
  next_version, finalized, finalize_action, apply_mutations, target_of, apply_action_intent,
  has_evidence,
}
use fishyume.Run.Intent.Plain.{AllPlain}
use fishyume.Run.Intent.Progress.{AllAt, AllDone, ids_of}
use fishyume.Run.Intent.Loop.{IsCounted, Whole, apply_mutations-Whole}
use fishyume.Run.Intent.Finish.{target_of-ok}
use fishyume.Run.Intent.Finalize.{IsBefore, finalize_action-IsEither}

-- The plan, but for its phase and its count of applied mutations.
abbrev pub IsSamePlan : (plan current : ActionIntent) → Type 0
IsSamePlan plan current = current ≡ record plan { phase = current.phase; applied = current.applied }

-- An action that can be carried out or carried on: its intent is on the disk, with the evidence that a
-- replay asks for, and its nodes are as the plan has them.
pub record IsPending (action_id : String) (plan : ActionIntent) (d : Disk) : Type 0 where
  pub current : ActionIntent
  pub stored : lookup action_id d.intents ≡ some current
  pub same : IsSamePlan plan current
  pub evidence : has_evidence current ≡ true
  pub at : AllAt d.nodes current.applied 0 plan.mutations

-- An action that is done: its nodes are as after, and the run is written.
pub record IsFinished (action : ResumeAction) (plan : ActionIntent) (e : Disk) : Type 0 where
  pub settled : AllDone e.nodes plan.mutations
  pub run : WorkflowSnapshot
  pub target : NodeSnapshot
  pub written : e.snapshot ≡ next_version (finalized run target action plan.summary)

module _ (action : ResumeAction) (named : is_empty action.action_id ≡ false) where
  -- What a replay leaves.
  abbrev pub Leaves : ActionIntent → Disk → Disk → Type 0
  Leaves plan d e =
      ((IsPending action.action_id plan e × (e.snapshot ≡ d.snapshot)) ⊎ IsFinished action plan e)
      × ((id : String)
          → contains (ids_of plan.mutations) id ≡ false
          → lookup id e.nodes ≡ lookup id d.nodes)

  pending-kept :
      (plan : ActionIntent) (d e : Disk)
      → IsBefore d e
      → IsPending action.action_id plan d
      → IsPending action.action_id plan e
  pending-kept plan d e h pending = record {
    current = pending.current;
    stored = ap (lookup action.action_id) h.1 ∙ pending.stored;
    same = pending.same;
    evidence = pending.evidence;
    at = subst (λ nodes. AllAt nodes pending.current.applied 0 plan.mutations) (sym h.0) pending.at;
  }

  module _ (intent : ActionIntent) (evidence : has_evidence intent ≡ true)
      (distinct : IsDistinct (ids_of intent.mutations)) (plain : AllPlain intent.mutations) where
    pub counted-IsPending :
        (marked : ActionIntent) (e : Disk)
        → IsCounted intent marked
        → lookup action.action_id e.intents ≡ some marked
        → AllAt e.nodes marked.applied 0 intent.mutations
        → IsPending action.action_id intent e
    counted-IsPending marked e counted stored at = record {
      current = marked;
      stored = stored;
      same =
          counted
          ∙ (let count : ActionIntent → ActionIntent =
                λ i. record intent { phase = i.phase; applied = marked.applied } in
              ap count (sym counted));
      evidence = subst (λ i. has_evidence i ≡ true) (sym counted) evidence;
      at = at;
    }

    -- The mutations are over, and the run is written or not.
    finalize-Leaves :
        (run : WorkflowSnapshot) (target : NodeSnapshot) (d c : Disk)
        → IsPending action.action_id intent c
        → c.snapshot ≡ d.snapshot
        → ((id : String)
            → contains (ids_of intent.mutations) id ≡ false
            → lookup id c.nodes ≡ lookup id d.nodes)
        → AllDone c.nodes intent.mutations
        → Leaves intent d (finalize_action run target action intent.event_type intent.summary c).1
    finalize-Leaves run target d c pending same others done =
        elim (finalize_action-IsEither run target action intent.event_type intent.summary c) [
          | inl before ↦ (
            inl (pending-kept intent c _ before pending, before.2 ∙ same),
            λ id h. ap (lookup id) before.0 ∙ others id h,
          )
          | inr written ↦ (
            inr (record {
              settled = subst (λ nodes. AllDone nodes intent.mutations) (sym written.0) done;
              run = run;
              target = target;
              written = written.1;
            }),
            λ id h. ap (lookup id) written.0 ∙ others id h,
          )
        ]

    loop-Leaves :
        (run : WorkflowSnapshot) (d c : Disk) (r : Outcome ActionError WorkflowSnapshot)
        → apply_mutations action.action_id 0 intent.mutations intent run d ≡ (r, c)
        → Whole action.action_id 0 intent.mutations intent d r c
        → Leaves intent d (apply_action_intent run action intent d).1
    unfolding apply_action_intent
    loop-Leaves run d c r ran whole =
        let loop = apply_mutations action.action_id 0 intent.mutations intent run in
        let pending = counted-IsPending whole.marked c whole.counted whole.durable whole.at in
        let (target, found) = target_of-ok intent.mutations (ground arith) in
        elim whole.result [
          | inl (halts, few) ↦
              subst (λ p. Leaves intent d p.1)
                (sym (>>=-err loop _ d (ran ∙ ap (λ x. (x, c)) halts)))
                (inl (pending, whole.same.0), whole.others)
          | inr (after, goes, done) ↦
              subst (λ p. Leaves intent d p.1)
                (sym (
                  >>=-ok loop _ d (ran ∙ ap (λ x. (x, c)) goes)
                  ∙ >>=-ok (target_of intent.mutations) _ c (found c)))
                (finalize-Leaves after target d c pending whole.same.0 whole.others done)
        ]

    pub apply-Leaves :
        (run : WorkflowSnapshot) (d : Disk)
        → lookup action.action_id d.intents ≡ some intent
        → AllAt d.nodes intent.applied 0 intent.mutations
        → Leaves intent d (apply_action_intent run action intent d).1
    apply-Leaves run d stored at = loop-Leaves run d _ _ refl (
        apply_mutations-Whole action.action_id named 0 intent.mutations intent run d stored at
          distinct plain plain)
