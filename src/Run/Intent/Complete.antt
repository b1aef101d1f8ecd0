-- ===== src/Run/Intent/Complete.antt =====
-- wf-engine/internal/run/service.go: `resumeActionIntent` reaches its end when enough writes are left.
use fishyume.Base.{
  ℕ, zero, suc, ◌+◌, ◌*◌, ◌<◌, ◌≡◌, refl, sym, subst, ap, ◌∙◌, true, false, none, some, ok, arith,
  length, str_eq, IsDistinct, Bool-cases, inl, inr, ◌⊎◌,
}
use fishyume.Base.Text.{is_empty}
use fishyume.Base.Assoc.{lookup, put, lookup-put}
use fishyume.Run.State.{WorkflowSnapshot}
use fishyume.Run.Action.{ResumeAction}
use fishyume.Run.Disk.{
  Disk, ActionIntent, >>=-ok, >>=-pure, write_action_intent, write_action_intent-write, write-done,
}
use fishyume.Run.Intent.{
  apply_action_intent, has_evidence, begin_applying, resume_action_intent, action_intent_applying,
  action_intent_planned,
}
use fishyume.Run.Intent.Plain.{AllPlain, stored_mutations-kept}
use fishyume.Run.Intent.Progress.{AllAt, AllDone, ids_of}
use fishyume.Run.Intent.Loop.{apply_mutations-Whole}
use mathlib.Core.Option.{none-ne-some}
use fishyume.Run.Intent.Finish.{IsWritable, IsDone, apply-IsDone}
use fishyume.Run.Intent.Pending.{IsPending}
use fishyume.Run.Intent.Replay.{resume_action_intent_recovers}

few-left : (n : ℕ) → (n ≡ 0) ⊎ ((left : ℕ) × (n ≡ suc left))
few-left zero = inl refl
few-left (suc left) = inr (left, refl)

module _ (action : ResumeAction) (named : is_empty action.action_id ≡ false) (intent : ActionIntent)
    (evidence : has_evidence intent ≡ true) (distinct : IsDistinct (ids_of intent.mutations))
    (plain : AllPlain intent.mutations) (run : WorkflowSnapshot) (d : Disk)
    (stored : lookup action.action_id d.intents ≡ some intent)
    (at : AllAt d.nodes intent.applied 0 intent.mutations)
    (writable : IsWritable run action intent.summary d)
    (room : 2 * length intent.mutations + 3 < d.writes_left) where
  begun-IsDone :
      (left : ℕ)
      → d.writes_left ≡ suc left
      → let c : Disk = record d {
        intents = put action.action_id (record intent { phase = action_intent_applying }) d.intents;
        writes_left = left;
      } in
        IsDone action.action_id
          (apply_action_intent run action (record intent { phase = action_intent_applying }) c)
  begun-IsDone left more =
      let applying : ActionIntent = record intent { phase = action_intent_applying } in
      let c : Disk = record d {
        intents = put action.action_id applying d.intents;
        writes_left = left;
      } in
      apply-IsDone action named run applying c _ _ (ground arith)
        (record { valid = writable.valid; sequence = writable.sequence; logged = writable.logged })
        (omega (arith, more, room)) refl
        (apply_mutations-Whole action.action_id named 0 intent.mutations applying run c
          (lookup-put action.action_id applying d.intents) at distinct plain plain)

  some-left : (left : ℕ) × (d.writes_left ≡ suc left)
  some-left = elim (few-left d.writes_left) [
    | inl none_left ↦ absurd (omega (arith, room))
    | inr more ↦ more
  ]

  resume-IsDone : IsDone action.action_id (resume_action_intent run action intent d)
  unfolding resume_action_intent begin_applying
  resume-IsDone = elim (Bool-cases (str_eq intent.phase action_intent_planned)) [
    | inr begun ↦
        rw (evidence, begun)
          (apply-IsDone action named run intent d _ _ (ground arith) writable (omega (arith, room))
            refl
            (apply_mutations-Whole action.action_id named 0 intent.mutations intent run d stored at
              distinct plain plain))
    | inl planned ↦
        let applying : ActionIntent = record intent { phase = action_intent_applying } in
        let change : Disk → Disk =
          λ c. record c { intents = put action.action_id applying c.intents } in
        let (left, more) = some-left in
        rw (evidence, planned)
          (subst (IsDone action.action_id)
            (sym (
              >>=-pure (write_action_intent action.action_id applying) applying
                (λ begun. apply_action_intent run action begun) d
              ∙ >>=-ok (write_action_intent action.action_id applying)
                  (λ u. apply_action_intent run action applying) d
                  (write_action_intent-write action.action_id applying d
                      (stored_mutations-kept d.indented intent.mutations plain) named
                    ∙ write-done change d more)))
            (begun-IsDone left more))
  ]

-- A replay of a pending action none of whose nodes has an answer, before or after its mutation, is
-- finished when enough writes are left (two for each mutation and four more), when the run that it
-- writes is valid and the event log is in order: the call succeeds with the run that it has written,
-- each node is as after its mutation, and the intent is gone.
pub resume_action_intent_finishes :
    (action : ResumeAction) (plan : ActionIntent) (run : WorkflowSnapshot) (d : Disk)
    → is_empty action.action_id ≡ false
    → IsDistinct (ids_of plan.mutations)
    → AllPlain plan.mutations
    → (pending : IsPending action.action_id plan d) → IsWritable run action plan.summary d
    → 2 * length plan.mutations + 3 < d.writes_left
    → let (r, e) = resume_action_intent run action pending.current d in
      (r ≡ ok e.snapshot)
      × AllDone e.nodes plan.mutations
      × (lookup action.action_id e.intents ≡ none)
resume_action_intent_finishes action plan run d named distinct plain pending writable room =
    let mutations : pending.current.mutations ≡ plan.mutations =
      ap (λ i. i.mutations) pending.same in
    let summary : pending.current.summary ≡ plan.summary = ap (λ i. i.summary) pending.same in
    let ((after, succeeds, wrote), gone) =
      resume-IsDone action named pending.current pending.evidence
        (subst (λ ms. IsDistinct (ids_of ms)) (sym mutations) distinct)
        (subst AllPlain (sym mutations) plain) run d pending.stored
        (subst (AllAt d.nodes pending.current.applied 0) (sym mutations) pending.at)
        (subst (λ s. IsWritable run action s d) (sym summary) writable)
        (subst (λ ms. 2 * length ms + 3 < d.writes_left) (sym mutations) room) in
    (
      succeeds ∙ ap ok (sym wrote),
      elim (resume_action_intent_recovers action plan run d named distinct plain pending).0 [
        | inr finished ↦ finished.settled
        | inl (still, unwritten) ↦ absurd (none-ne-some _ (sym gone ∙ still.stored))
      ],
      gone,
    )
