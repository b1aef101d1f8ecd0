-- ===== src/Run/Intent/Finish.antt =====
-- wf-engine/internal/run/service.go: `resumeActionIntent` when enough writes are left.
use fishyume.Base.{
  ℕ, zero, suc, ◌+◌, ◌*◌, ◌<◌, ◌≡◌, refl, sym, subst, ap, ◌∙◌, String, Bool, true, false, List, [],
  ◌∷◌, ◌++◌, none, some, Outcome, ok, arith, length, is_nil, ltb, inl, inr, if◌then◌else◌,
}
use fishyume.Base.Text.{is_empty}
use fishyume.Base.Assoc.{lookup, remove, lookup-remove}
use fishyume.Run.State.{NodeSnapshot, NodeSummary, WorkflowSnapshot, validate_workflow_snapshot}
use fishyume.Run.Action.{ResumeAction}
use fishyume.Run.Event.{reset_event_sequence}
use fishyume.Run.Disk.{
  Disk, ActionError, NodeMutation, ActionIntent, >>=-eq-ok, >>=-ok, read_node, write_snapshot,
  append_event, remove_action_intent, Act, pure, ◌>>=◌, ◌>>◌,
}
use fishyume.Run.Intent.{
  next_version, finalized, persist_run, read_events, new_event, finalize_action, apply_one,
  apply_mutations, settle, mark_applied, with_summary, target_of, apply_action_intent,
}
use fishyume.Run.Intent.Loop.{Whole}

-- The loop changes the summaries of the nodes and nothing else of the run.
abbrev pub IsSummarized : (run after : WorkflowSnapshot) → Type 0
IsSummarized run after = after ≡ record run { nodes = after.nodes }

tested-IsSummarized :
    (behind : Bool) (current : NodeSnapshot) (m : NodeMutation) (intent : ActionIntent)
    (run : WorkflowSnapshot) (mark : Act ActionIntent) (c e : Disk) (marked : ActionIntent)
    (after : WorkflowSnapshot)
    → (if behind
          then pure {A = ActionIntent × WorkflowSnapshot}
              (intent, with_summary current.id current run)
          else (mark >>= λ i.
              pure {A = ActionIntent × WorkflowSnapshot} (i, with_summary m.after.id m.after run)))
        c
      ≡ (ok (marked, after), e)
    → IsSummarized run after
tested-IsSummarized true current m intent run mark c e marked after h =
    let same : with_summary current.id current run ≡ after = ground (arith, h) in
    subst (IsSummarized run) same refl
tested-IsSummarized false current m intent run mark c e marked after h =
    let (i, c1, ran, h1) = >>=-eq-ok mark _ c h in
    let same : with_summary m.after.id m.after run ≡ after = ground (arith, h1) in
    subst (IsSummarized run) same refl

apply_one-IsSummarized :
    (action_id : String) (index : ℕ) (m : NodeMutation) (intent : ActionIntent)
    (run : WorkflowSnapshot) (d e : Disk) (marked : ActionIntent) (after : WorkflowSnapshot)
    → apply_one action_id index m intent run d ≡ (ok (marked, after), e)
    → IsSummarized run after
unfolding apply_one
apply_one-IsSummarized action_id index m intent run d e marked after h =
    let (current, c, read, h1) = >>=-eq-ok (read_node m.after.id) _ d h in
    tested-IsSummarized (ltb index intent.applied) current m intent run
      (settle current m >> mark_applied action_id index intent) c e marked after h1

IsSummarized-trans :
    (a b c : WorkflowSnapshot) → IsSummarized a b → IsSummarized b c → IsSummarized a c
IsSummarized-trans a b c h k =
    let renew : WorkflowSnapshot → WorkflowSnapshot = λ r. record r { nodes = c.nodes } in
    k ∙ ap renew h

apply_mutations-IsSummarized :
    (action_id : String) (index : ℕ) (ms : List NodeMutation) (intent : ActionIntent)
    (run : WorkflowSnapshot) (d e : Disk) (after : WorkflowSnapshot)
    → apply_mutations action_id index ms intent run d ≡ (ok after, e)
    → IsSummarized run after
unfolding apply_mutations
apply_mutations-IsSummarized action_id index [] intent run d e after h =
    let same : run ≡ after = ground (arith, h) in subst (IsSummarized run) same refl
apply_mutations-IsSummarized action_id index (m ∷ ms) intent run d e after h =
    let ((marked, next), c, ran, rest) = >>=-eq-ok (apply_one action_id index m intent run) _ d h in
    IsSummarized-trans run next after
      (apply_one-IsSummarized action_id index m intent run d c marked next ran)
      (apply_mutations-IsSummarized action_id (suc index) ms marked next c e after rest)

-- With three writes left, a valid run and an event log in order, the action is written and its intent
-- is gone.
finalize_action-completes :
    (run : WorkflowSnapshot) (node : NodeSnapshot) (action : ResumeAction)
    (event_type summary : String) (d : Disk) (left sequence : ℕ)
    → is_empty action.action_id ≡ false
    → validate_workflow_snapshot (next_version (finalized run node action summary)) ≡ ok tt
    → reset_event_sequence d.events ≡ ok sequence
    → d.writes_left ≡ suc (suc (suc left))
    → let next = next_version (finalized run node action summary) in
      finalize_action run node action event_type summary d ≡ (
        ok next,
        record d {
          snapshot = next;
          events = d.events ++ new_event next (some node) sequence event_type summary ∷ [];
          intents = remove action.action_id d.intents;
          writes_left = left;
        },
      )
unfolding finalize_action persist_run read_events write_snapshot append_event remove_action_intent
finalize_action-completes run node action event_type summary d left sequence named valid events
      room =
    rw (valid, room, events, named, named) refl

three-left : (n : ℕ) → 2 < n → (left : ℕ) × (n ≡ suc (suc (suc left)))
three-left zero h = absurd (omega arith)
three-left (suc zero) h = absurd (omega arith)
three-left (suc (suc zero)) h = absurd (omega arith)
three-left (suc (suc (suc left))) h = (left, refl)

-- The list is not empty, so the first mutation has a target.
pub target_of-ok :
    (ms : List NodeMutation)
    → is_nil ms ≡ false
    → (target : NodeSnapshot) × ((d : Disk) → target_of ms d ≡ (ok target, d))
target_of-ok [] h = absurd (cc)
target_of-ok (m ∷ ms) h = (m.after, λ d. refl)

-- What a replay needs of the run and of the disk, so that nothing refuses the run that it writes.
pub record IsWritable (run : WorkflowSnapshot) (action : ResumeAction) (summary : String) (d : Disk)
    : Type 0 where
  pub valid :
      (nodes : List (String × NodeSummary)) (target : NodeSnapshot)
      → validate_workflow_snapshot
          (next_version (finalized (record run { nodes = nodes }) target action summary))
        ≡ ok tt
  pub sequence : ℕ
  pub logged : reset_event_sequence d.events ≡ ok sequence

-- A call that ends well, with the intent gone.
abbrev pub IsDone : (action_id : String) → Outcome ActionError WorkflowSnapshot × Disk → Type 0
IsDone action_id (r, e) =
    ((after : WorkflowSnapshot) × (r ≡ ok after) × (e.snapshot ≡ after))
    × (lookup action_id e.intents ≡ none)

module _ (action : ResumeAction) (named : is_empty action.action_id ≡ false)
    (run : WorkflowSnapshot) where
  finalize-IsDone :
      (after : WorkflowSnapshot) (target : NodeSnapshot) (event_type summary : String) (d c : Disk)
      → IsWritable run action summary d
      → IsSummarized run after
      → c.events ≡ d.events
      → 2 < c.writes_left
      → IsDone action.action_id (finalize_action after target action event_type summary c)
  finalize-IsDone after target event_type summary d c writable summarized events room =
      let next = next_version (finalized after target action summary) in
      let valid : validate_workflow_snapshot next ≡ ok tt =
        subst
          (λ r.
            validate_workflow_snapshot (next_version (finalized r target action summary)) ≡ ok tt)
          (sym summarized) (writable.valid after.nodes target) in
      let (left, enough) = three-left c.writes_left room in
      subst (IsDone action.action_id)
        (sym (
          finalize_action-completes after target action event_type summary c left writable.sequence
            named valid (ap reset_event_sequence events ∙ writable.logged) enough))
        ((next, refl, refl), lookup-remove action.action_id c.intents)

  pub apply-IsDone :
      (intent : ActionIntent) (d c : Disk) (r : Outcome ActionError WorkflowSnapshot)
      → is_nil intent.mutations ≡ false
      → IsWritable run action intent.summary d
      → 2 * length intent.mutations + 2 < d.writes_left
      → apply_mutations action.action_id 0 intent.mutations intent run d ≡ (r, c)
      → Whole action.action_id 0 intent.mutations intent d r c
      → IsDone action.action_id (apply_action_intent run action intent d)
  unfolding apply_action_intent
  apply-IsDone intent d c r filled writable room ran whole =
      let loop = apply_mutations action.action_id 0 intent.mutations intent run in
      let (target, found) = target_of-ok intent.mutations filled in
      elim whole.result [
        | inl (halts, few) ↦ absurd (omega arith)
        | inr (after, goes, done) ↦
            let went : loop d ≡ (ok after, c) = ran ∙ ap (λ x. (x, c)) goes in
            subst (IsDone action.action_id)
              (sym (>>=-ok loop _ d went ∙ >>=-ok (target_of intent.mutations) _ c (found c)))
              (finalize-IsDone after target intent.event_type intent.summary d c writable
                (apply_mutations-IsSummarized action.action_id 0 intent.mutations intent run d c
                  after went)
                whole.same.1 (omega (arith, whole.spent)))
      ]
