-- ===== src/Store/Journal/Monotone.antt =====
-- What a journal keeps for good.
use fishyume.Base.{
  ℕ, ◌≤◌, ◌<◌, ◌≡◌, refl, sym, subst, ap, ◌∙◌, String, not, ◌||◌, some, none, ok, err, Bool-cases,
  inl, inr, ◌>>=◌, arith,
}
use fishyume.Base.Text.{is_empty}
use fishyume.Store.Lease.{Io}
use fishyume.Store.Journal.{
  Json, JournalRecord, laid_out, indented_response, JournalState, intent, mutated, committed, Slot,
  stored, begin_application_journal, begin_guarded, existing_journal, write_record, write_change,
  update_application_journal, update_guarded, commit_application_journal, commit_record,
  mark_record, mark_application_journal_mutated, Change,
}

-- How far a journal has come.
abbrev pub rank : JournalState → ℕ
rank mutated = 1
rank committed = 2
rank _ = 0

-- A later record of the same journal.
abbrev pub IsLater : (before after : JournalRecord) → Type 0
IsLater before after =
    (after.kind ≡ before.kind)
    × (after.id ≡ before.id)
    × (after.request_hash ≡ before.request_hash)
    × (after.request ≡ before.request)
    × (after.planned_run_id ≡ before.planned_run_id)
    × (rank before.state ≤ rank after.state)
    × (0 < rank before.state → after.response ≡ before.response)

abbrev pub IsLaterIn : JournalRecord → Slot → Type 0
IsLaterIn r slot = (s : JournalRecord) × (slot ≡ stored s) × IsLater r s

-- A record that its file gives back as it is.
abbrev pub IsLaidOut : Json → JournalRecord → Type 0
IsLaidOut json r = laid_out json r ≡ r

-- Indenting a text again changes nothing.
abbrev pub IsStable : Json → Type 0
IsStable json = (text : String) → json.indented (json.indented text) ≡ json.indented text

-- A later record that its file gives back.
abbrev IsKeptIn : Json → JournalRecord → Slot → Type 0
IsKeptIn json r slot = (s : JournalRecord) × (slot ≡ stored s) × IsLater r s × IsLaidOut json s

IsLater-refl : (r : JournalRecord) → IsLater r r
IsLater-refl r = ground arith

IsLater-trans : (a b c : JournalRecord) → IsLater a b → IsLater b c → IsLater a c
IsLater-trans a b c h k = ground arith

module _ (json : Json) where
  laid_out-IsLater :
      (r s : JournalRecord) → IsLaidOut json r → IsLater r s → IsLater r (laid_out json s)
  laid_out-IsLater r s laid h =
      let request : json.indented r.request ≡ r.request = ap (λ x. x.request) laid in
      let response : indented_response json r.response ≡ r.response = ap (λ x. x.response) laid in
      (
        h.0,
        h.1,
        h.2,
        ap json.indented h.3 ∙ request,
        h.4,
        h.5,
        λ answered. ap (indented_response json) (h.6 answered) ∙ response,
      )

  module _ (stable : IsStable json) where
    response-stable :
        (text : String)
        → indented_response json (indented_response json text) ≡ indented_response json text
    response-stable text = elim (Bool-cases (is_empty text)) [
      | inl empty ↦ ground arith
      | inr filled ↦ elim (Bool-cases (is_empty (json.indented text))) [
        | inl lost ↦ ground (arith, stable text)
        | inr kept ↦ ground (arith, stable text)
      ]
    ]

    laid_out-IsLaidOut : (s : JournalRecord) → IsLaidOut json (laid_out json s)
    laid_out-IsLaidOut s =
        ap
          (λ x. record s {
            request = x;
            response = indented_response json (indented_response json s.response);
          })
          (stable s.request)
        ∙ ap (λ x. record s { request = json.indented s.request; response = x })
            (response-stable s.response)

  changed-by :
      (kind id request_hash : String) (update : JournalRecord → Change) (r s : JournalRecord)
      → (existing_journal json kind id request_hash r >>= update) ≡ ok (some s)
      → update r ≡ ok (some s)
  unfolding existing_journal
  changed-by kind id request_hash update r s h = ground arith

  module _ (stable : IsStable json) (r : JournalRecord) (laid : IsLaidOut json r) where
    write_change-kept :
        (io : Io) (change : Change)
        → ((s : JournalRecord) → change ≡ ok (some s) → IsLater r s)
        → IsKeptIn json r (write_change json io r change).1
    unfolding write_change write_record
    write_change-kept io (err e) h = (r, refl, IsLater-refl r, laid)
    write_change-kept io (ok none) h = (r, refl, IsLater-refl r, laid)
    write_change-kept io (ok (some s)) h = elim (Bool-cases (io.fault_injected || io.write_fails)) [
      | inl failed ↦ (r, ground arith, IsLater-refl r, laid)
      | inr written ↦ (
        laid_out json s,
        ground arith,
        laid_out-IsLater r s laid (h s refl),
        laid_out-IsLaidOut stable s,
      )
    ]

    guarded-kept :
        (io : Io) (kind id request_hash : String) (update : JournalRecord → Change)
        → ((s : JournalRecord) → update r ≡ ok (some s) → IsLater r s)
        → IsKeptIn json r (update_guarded json io kind id request_hash update (stored r)).1
    unfolding update_guarded
    guarded-kept io kind id request_hash update h = elim (Bool-cases (json.fits r)) [
      | inl read ↦ rw read (
          write_change-kept io (existing_journal json kind id request_hash r >>= update)
            (λ s e. h s (changed-by kind id request_hash update r s e)))
      | inr large ↦ (r, ground arith, IsLater-refl r, laid)
    ]

    update-kept :
        (io : Io) (kind id request_hash : String) (update : JournalRecord → Change)
        → ((s : JournalRecord) → update r ≡ ok (some s) → IsLater r s)
        → IsKeptIn json r
            (update_application_journal json io kind id request_hash update (stored r)).1
    unfolding update_application_journal
    update-kept io kind id request_hash update h =
        elim (Bool-cases (io.directory_fails || io.guard_fails)) [
          | inl failed ↦ (r, ground arith, IsLater-refl r, laid)
          | inr went ↦ rw went (guarded-kept io kind id request_hash update h)
        ]

  commit_record-IsLater :
      (now : ℕ) (state : JournalState) (r s : JournalRecord)
      → r.state ≡ state
      → commit_record now state r ≡ ok (some s)
      → IsLater r s
  commit_record-IsLater now committed r s e h = ground arith
  commit_record-IsLater now mutated r s e h = ground arith
  commit_record-IsLater now intent r s e h = ground arith
  commit_record-IsLater now (JournalState.unknown x) r s e h = ground arith

  mark_record-IsLater :
      (response : String) (now : ℕ) (state : JournalState) (r s : JournalRecord)
      → r.state ≡ state
      → mark_record json response now state r ≡ ok (some s)
      → IsLater r s
  mark_record-IsLater response now committed r s e h = ground arith
  mark_record-IsLater response now mutated r s e h = ground arith
  mark_record-IsLater response now intent r s e h = ground arith
  mark_record-IsLater response now (JournalState.unknown x) r s e h = ground arith

-- One operation on a journal.
pub data JournalStep (json : Json) : (before after : Slot) → Type 0 where
  begin :
      (io : Io) (kind id request_hash request planned_run_id : String) (now : ℕ) (slot : Slot)
      → JournalStep json slot
          (begin_application_journal json io kind id request_hash request planned_run_id now slot).1
  mark :
      (io : Io) (kind id request_hash response : String) (now : ℕ) (slot : Slot)
      → JournalStep json slot
          (mark_application_journal_mutated json io kind id request_hash response now slot).1
  commit :
      (io : Io) (kind id request_hash : String) (now : ℕ) (slot : Slot)
      → JournalStep json slot (commit_application_journal json io kind id request_hash now slot).1

pub data JournalSteps (json : Json) : (before after : Slot) → Type 0 where
  finished : {slot : Slot} → JournalSteps json slot slot
  continued :
      {before between after : Slot}
      → JournalStep json before between
      → JournalSteps json between after
      → JournalSteps json before after

module _ (json : Json) where
  begin-unchanged :
      (io : Io) (kind id request_hash request planned_run_id : String) (now : ℕ) (r : JournalRecord)
      → (begin_application_journal json io kind id request_hash request planned_run_id now
          (stored r)).1
        ≡ stored r
  unfolding begin_application_journal begin_guarded
  begin-unchanged io kind id request_hash request planned_run_id now r = ground arith

  module _ (stable : IsStable json) (r : JournalRecord) (laid : IsLaidOut json r) where
    mark-kept :
        (io : Io) (kind id request_hash response : String) (now : ℕ)
        → IsKeptIn json r
            (mark_application_journal_mutated json io kind id request_hash response now
              (stored r)).1
    unfolding mark_application_journal_mutated
    mark-kept io kind id request_hash response now =
        elim (Bool-cases (is_empty response || not (json.valid response))) [
          | inl refused ↦ (r, ground arith, IsLater-refl r, laid)
          | inr accepted ↦ rw accepted (
              update-kept json stable r laid io kind id request_hash
                (λ s. mark_record json response now s.state s)
                (λ s e. mark_record-IsLater json response now r.state r s refl e))
        ]

    commit-kept :
        (io : Io) (kind id request_hash : String) (now : ℕ)
        → IsKeptIn json r (commit_application_journal json io kind id request_hash now (stored r)).1
    unfolding commit_application_journal
    commit-kept io kind id request_hash now =
        update-kept json stable r laid io kind id request_hash (λ s. commit_record now s.state s)
          (λ s e. commit_record-IsLater json now r.state r s refl e)

    JournalStep-kept :
        (before after : Slot)
        → JournalStep json before after
        → before ≡ stored r
        → IsKeptIn json r after
    JournalStep-kept before after (begin io kind id request_hash request planned_run_id now slot)
          h =
        (
          r,
          ap
                (λ s.
                  (begin_application_journal json io kind id request_hash request planned_run_id now
                    s).1)
                h
              ∙ begin-unchanged io kind id request_hash request planned_run_id now r,
          IsLater-refl r,
          laid,
        )
    JournalStep-kept before after (mark io kind id request_hash response now slot) h =
        subst
          (λ s.
            IsKeptIn json r
              (mark_application_journal_mutated json io kind id request_hash response now s).1)
          (sym h) (mark-kept io kind id request_hash response now)
    JournalStep-kept before after (commit io kind id request_hash now slot) h =
        subst
          (λ s. IsKeptIn json r (commit_application_journal json io kind id request_hash now s).1)
          (sym h) (commit-kept io kind id request_hash now)

-- No sequence of operations, whatever fails in them, takes a stored journal back, if its texts are laid
-- out as the files lay them out: its identity, its request and its planned run stay, its state never
-- goes back, and once it has a response for a mutation, that response stays.
pub journal-monotone :
    (json : Json) (r : JournalRecord) (before after : Slot)
    → IsStable json
    → IsLaidOut json r
    → JournalSteps json before after
    → before ≡ stored r
    → IsLaterIn r after
journal-monotone json r before after stable laid finished h = (r, h, IsLater-refl r)
journal-monotone json r before after stable laid (continued {between = between} first rest) h =
    let (s, made, later, kept) = JournalStep-kept json stable r laid before between first h in
    let (t, ended, later_still) = journal-monotone json s between after stable kept rest made in
    (t, ended, IsLater-trans r s t later later_still)
