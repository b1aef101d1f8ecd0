-- ===== src/Run/Intent/Finalize.antt =====
-- wf-engine/internal/run/service.go: `finalizeAction` and `persistRun`, wherever the process stops in
-- them, and when it does not stop.
use fishyume.Base.{
  ◌≡◌, refl, sym, subst, ap, ◌∙◌, String, [], ◌∷◌, ◌++◌, Option, some, ok, Bool-cases, inl, inr,
  ◌⊎◌,
}
use fishyume.Base.Text.{is_empty}
use fishyume.Base.Assoc.{remove}
use fishyume.Run.State.{NodeSnapshot, WorkflowSnapshot, validate_workflow_snapshot}
use fishyume.Run.Action.{ResumeAction}
use fishyume.Run.Event.{WorkflowEvent, reset_event_sequence}
use fishyume.Run.Disk.{
  Disk, lift, refused_snapshot, >>=-always, write_snapshot, append_event, remove_action_intent,
  write-always, lift-disk, lift-eq-ok, write-eq-ok, >>=-eq-ok, refused_events,
}
use fishyume.Run.Intent.{
  new_event, read_events, next_version, finalized, persist_run, finalize_action,
}

-- The disk as an action leaves it before it writes the run, and as it leaves it after.
abbrev pub IsBefore : Disk → Disk → Type 0
IsBefore d e = (e.nodes ≡ d.nodes) × (e.intents ≡ d.intents) × (e.snapshot ≡ d.snapshot)

abbrev pub IsWritten : WorkflowSnapshot → Disk → Disk → Type 0
IsWritten next d e = (e.nodes ≡ d.nodes) × (e.snapshot ≡ next)

module _ (next : WorkflowSnapshot) (d : Disk) where
  abbrev pub IsEither : Disk → Type 0
  IsEither e = IsBefore d e ⊎ IsWritten next d e

  write_snapshot-IsEither : (e : Disk) → IsBefore d e → IsEither (write_snapshot next e).1
  unfolding write_snapshot
  write_snapshot-IsEither e h =
      write-always IsEither (λ c. record c { snapshot = next }) e (inl h) (λ left. inr (h.0, refl))

  append_event-IsEither :
      (event : WorkflowEvent) (e : Disk) → IsEither e → IsEither (append_event event e).1
  unfolding append_event
  append_event-IsEither event e h =
      write-always IsEither (λ c. record c { events = c.events ++ event ∷ [] }) e h (λ left. h)

  remove_action_intent-IsWritten :
      (action_id : String) (e : Disk)
      → IsWritten next d e
      → IsWritten next d (remove_action_intent action_id e).1
  unfolding remove_action_intent
  remove_action_intent-IsWritten action_id e h = elim (Bool-cases (is_empty action_id)) [
    | inl empty ↦ rw empty h
    | inr named ↦ rw named (
        write-always (IsWritten next d) (λ c. record c { intents = remove action_id c.intents }) e h
          (λ left. h))
  ]

persist_run-IsEither :
    (run : WorkflowSnapshot) (node : Option NodeSnapshot) (event_type message : String) (d : Disk)
    → IsEither (next_version run) d (persist_run run node event_type message d).1
unfolding persist_run read_events
persist_run-IsEither run node event_type message d =
    let next = next_version run in
    let either = IsEither next d in
    let check = lift refused_snapshot (validate_workflow_snapshot next) in
    let checked = lift-disk refused_snapshot (validate_workflow_snapshot next) d in
    >>=-always either check _ d (subst either (sym checked) (inl (refl, refl, refl))) (λ u ok_check.
      let wrote =
        write_snapshot-IsEither next d (check d).1
          (subst (IsBefore d) (sym checked) (refl, refl, refl)) in
      >>=-always either (write_snapshot next) _ (check d).1 wrote (λ v ok_write.
        let c = (write_snapshot next (check d).1).1 in
        let read =
          subst either (sym (lift-disk refused_events (reset_event_sequence c.events) c)) wrote in
        >>=-always either read_events _ c read (λ sequence ok_read.
          let event = new_event next node sequence event_type message in
          let after = append_event-IsEither next d event (read_events c).1 read in
          >>=-always either (append_event event) _ (read_events c).1 after (λ w ok_append. after))))

-- When `persistRun` succeeds, the run is written.
persist_run-IsWritten :
    (run : WorkflowSnapshot) (node : Option NodeSnapshot) (event_type message : String) (d e : Disk)
    (after : WorkflowSnapshot)
    → persist_run run node event_type message d ≡ (ok after, e)
    → IsWritten (next_version run) d e
unfolding persist_run write_snapshot append_event read_events
persist_run-IsWritten run node event_type message d e after h =
    let next = next_version run in
    let (u0, d0, ran0, h0) =
      >>=-eq-ok (lift refused_snapshot (validate_workflow_snapshot next)) _ d h in
    let (valid, same0) = lift-eq-ok refused_snapshot (validate_workflow_snapshot next) d ran0 in
    let (u1, d1, ran1, h1) = >>=-eq-ok (write_snapshot next) _ d0 h0 in
    let (left1, wrote1) = write-eq-ok (λ c. record c { snapshot = next }) d0 ran1 in
    let (sequence, d2, ran2, h2) = >>=-eq-ok read_events _ d1 h1 in
    let (read, same2) = lift-eq-ok refused_events (reset_event_sequence d1.events) d1 ran2 in
    let (u3, d3, ran3, h3) =
      >>=-eq-ok (append_event (new_event next node sequence event_type message)) _ d2 h2 in
    let (left3, wrote3) =
      write-eq-ok
        (λ c. record c {
          events = c.events ++ new_event next node sequence event_type message ∷ [];
        })
        d2 ran3 in
    let last : e ≡ d3 = sym (ap (λ p. p.1) h3) in
    let nodes1 : d1.nodes ≡ d0.nodes = ap (λ c. c.nodes) wrote1 in
    let nodes3 : d3.nodes ≡ d2.nodes = ap (λ c. c.nodes) wrote3 in
    let snapshot1 : d1.snapshot ≡ next = ap (λ c. c.snapshot) wrote1 in
    let snapshot3 : d3.snapshot ≡ d2.snapshot = ap (λ c. c.snapshot) wrote3 in
    (
      ap (λ c. c.nodes) last ∙ nodes3 ∙ ap (λ c. c.nodes) same2 ∙ nodes1 ∙ ap (λ c. c.nodes) same0,
      ap (λ c. c.snapshot) last ∙ snapshot3 ∙ ap (λ c. c.snapshot) same2 ∙ snapshot1,
    )

-- Wherever the process stops in `finalizeAction`, the run is as before and so is the rest, or the run is
-- written and the nodes are as before.
pub finalize_action-IsEither :
    (run : WorkflowSnapshot) (node : NodeSnapshot) (action : ResumeAction)
    (event_type summary : String) (d : Disk)
    → IsEither
        (next_version (finalized run node action summary))
        d
        (finalize_action run node action event_type summary d).1
unfolding finalize_action
finalize_action-IsEither run node action event_type summary d =
    let last = finalized run node action summary in
    let next = next_version last in
    let either = IsEither next d in
    let persist = persist_run last (some node) event_type summary in
    let persisted = persist_run-IsEither last (some node) event_type summary d in
    >>=-always either persist _ d persisted (λ after ran.
      let written =
        persist_run-IsWritten last (some node) event_type summary d (persist d).1 after ran in
      elim (Bool-cases (is_empty action.action_id)) [
        | inl empty ↦ rw empty persisted
        | inr named ↦
            let removed =
              remove_action_intent-IsWritten next d action.action_id (persist d).1 written in
            rw named (
              >>=-always either (remove_action_intent action.action_id) _ (persist d).1
                (inr removed) (λ u gone. inr removed))
      ])
