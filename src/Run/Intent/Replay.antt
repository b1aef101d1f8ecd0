-- ===== src/Run/Intent/Replay.antt =====
-- wf-engine/internal/run/service.go: what `resumeActionIntent` leaves behind, wherever the process stops
-- in it, and what it reaches when it does not stop.
use fishyume.Base.{
  ℕ, ◌≡◌, refl, sym, subst, ap, ◌∙◌, String, true, false, some, arith, str_eq, contains, IsDistinct,
  Bool-cases, inl, inr, ◌⊎◌,
}
use fishyume.Base.Text.{is_empty}
use fishyume.Base.Assoc.{lookup, put, lookup-put}
use fishyume.Run.State.{WorkflowSnapshot}
use fishyume.Run.Action.{ResumeAction}
use fishyume.Run.Disk.{
  Disk, ActionIntent, write-always, write-eq-ok, >>=-always, >>=-pure, ◌>>=◌, write_action_intent,
  write_action_intent-write, write,
}
use fishyume.Run.Intent.{
  next_version, finalized, apply_action_intent, has_evidence, begin_applying, resume_action_intent,
  action_intent_applying, action_intent_planned,
}
use fishyume.Run.Intent.Plain.{AllPlain, stored_mutations-kept}
use fishyume.Run.Intent.Progress.{AllAt, AllDone, ids_of}
use fishyume.Run.Intent.Pending.{IsSamePlan, IsPending, IsFinished, Leaves, apply-Leaves}

module _ (action : ResumeAction) (named : is_empty action.action_id ≡ false) where
  -- What a replay leaves of a plan, when it has left it of the intent that it read.
  Leaves-plan :
      (plan intent : ActionIntent) (d e : Disk)
      → IsSamePlan plan intent
      → Leaves action named intent d e
      → Leaves action named plan d e
  Leaves-plan plan intent d e same (left, others) =
      let mutations : intent.mutations ≡ plan.mutations = ap (λ i. i.mutations) same in
      let summary : intent.summary ≡ plan.summary = ap (λ i. i.summary) same in
      (
        elim left [
          | inl (pending, unwritten) ↦ inl (
            record {
              current = pending.current;
              stored = pending.stored;
              same =
                  pending.same
                  ∙ (let rephase : ActionIntent → ActionIntent = λ i. record i {
                    phase = pending.current.phase;
                    applied = pending.current.applied;
                  } in
                      ap rephase same);
              evidence = pending.evidence;
              at = subst (AllAt e.nodes pending.current.applied 0) mutations pending.at;
            },
            unwritten,
          )
          | inr finished ↦ inr (record {
            settled = subst (AllDone e.nodes) mutations finished.settled;
            run = finished.run;
            target = finished.target;
            written =
                subst
                  (λ s. e.snapshot ≡ next_version (finalized finished.run finished.target action s))
                  summary finished.written;
          })
        ],
        λ id h. others id (subst (λ ms. contains (ids_of ms) id ≡ false) (sym mutations) h),
      )

  -- Carried on under another disk that differs in the intents and in the writes left only.
  Leaves-from :
      (plan : ActionIntent) (d c e : Disk)
      → c.nodes ≡ d.nodes
      → c.snapshot ≡ d.snapshot
      → Leaves action named plan c e
      → Leaves action named plan d e
  Leaves-from plan d c e nodes snapshot (left, others) = (
    elim left [
      | inl (pending, unwritten) ↦ inl (pending, unwritten ∙ snapshot)
      | inr finished ↦ inr finished
    ],
    λ id h. others id h ∙ ap (lookup id) nodes,
  )

  module _ (intent : ActionIntent) (evidence : has_evidence intent ≡ true)
      (distinct : IsDistinct (ids_of intent.mutations)) (plain : AllPlain intent.mutations)
      (run : WorkflowSnapshot) (d : Disk) (stored : lookup action.action_id d.intents ≡ some intent)
      (at : AllAt d.nodes intent.applied 0 intent.mutations) where
    abbrev applying : ActionIntent
    applying = record intent { phase = action_intent_applying }

    nothing-Leaves : Leaves action named intent d d
    nothing-Leaves = (
      inl (
        record { current = intent; stored = stored; same = refl; evidence = evidence; at = at },
        refl,
      ),
      λ id h. refl,
    )

    applying-evidence : has_evidence applying ≡ true
    applying-evidence = ground arith

    begun-Leaves :
        (left : ℕ)
        → let c : Disk = record d {
          intents = put action.action_id applying d.intents;
          writes_left = left;
        } in
          Leaves action named intent d c
          × Leaves action named intent d (apply_action_intent run action applying c).1
    begun-Leaves left =
        let c : Disk = record d {
          intents = put action.action_id applying d.intents;
          writes_left = left;
        } in
        let found = lookup-put action.action_id applying d.intents in
        (
          (
            inl (
              record {
                current = applying;
                stored = found;
                same = refl;
                evidence = applying-evidence;
                at = at;
              },
              refl,
            ),
            λ id h. refl,
          ),
          Leaves-plan intent applying d (apply_action_intent run action applying c).1 refl (
              Leaves-from applying d c _ refl refl (
                apply-Leaves action named applying applying-evidence distinct plain run c found
                  at)),
        )

    write-Leaves :
        Leaves action named intent d
          ((write_action_intent action.action_id applying >>= λ u.
              apply_action_intent run action applying)
            d).1
    write-Leaves =
        let change : Disk → Disk =
          λ c. record c { intents = put action.action_id applying c.intents } in
        let kept = stored_mutations-kept d.indented intent.mutations plain in
        rw (write_action_intent-write action.action_id applying d kept named) (
          >>=-always (Leaves action named intent d) (write change)
            (λ u. apply_action_intent run action applying) d
            (write-always (Leaves action named intent d) change d nothing-Leaves
              (λ left. (begun-Leaves left).0))
            (λ u ran.
              let (left, wrote) = write-eq-ok change d ran in
              subst
                (λ c. Leaves action named intent d (apply_action_intent run action applying c).1)
                (sym wrote) (begun-Leaves left).1))

    resume-Leaves : Leaves action named intent d (resume_action_intent run action intent d).1
    unfolding resume_action_intent begin_applying
    resume-Leaves = elim (Bool-cases (str_eq intent.phase action_intent_planned)) [
      | inl planned ↦
          rw (evidence, planned)
            (subst (λ p. Leaves action named intent d p.1)
              (sym (
                >>=-pure (write_action_intent action.action_id applying) applying
                  (λ begun. apply_action_intent run action begun) d))
              write-Leaves)
      | inr begun ↦
          rw (evidence, begun)
            (apply-Leaves action named intent evidence distinct plain run d stored at)
    ]

-- Wherever the process stops in a replay of a pending action none of whose nodes has an answer, before
-- or after its mutation, the action is pending still, with the run as it was, or it is finished: each
-- of its nodes is as after its mutation, and the run is written with the receipt. In both cases no
-- other node of the run has changed.
pub resume_action_intent_recovers :
    (action : ResumeAction) (plan : ActionIntent) (run : WorkflowSnapshot) (d : Disk)
    → is_empty action.action_id ≡ false
    → IsDistinct (ids_of plan.mutations)
    → AllPlain plan.mutations
    → (pending : IsPending action.action_id plan d)
    → let e = (resume_action_intent run action pending.current d).1 in
      ((IsPending action.action_id plan e × (e.snapshot ≡ d.snapshot)) ⊎ IsFinished action plan e)
      × ((id : String)
          → contains (ids_of plan.mutations) id ≡ false
          → lookup id e.nodes ≡ lookup id d.nodes)
resume_action_intent_recovers action plan run d named distinct plain pending =
    let mutations : pending.current.mutations ≡ plan.mutations =
      ap (λ i. i.mutations) pending.same in
    Leaves-plan action named plan pending.current d _ pending.same (
      resume-Leaves action named pending.current pending.evidence
        (subst (λ ms. IsDistinct (ids_of ms)) (sym mutations) distinct)
        (subst AllPlain (sym mutations) plain) run d pending.stored
        (subst (AllAt d.nodes pending.current.applied 0) (sym mutations) pending.at))
