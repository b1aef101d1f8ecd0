-- ===== src/Store/Journal/Lifecycle.antt =====
-- The way of one journal from its intent to its commit, and a request that comes again.
use fishyume.Base.{
  ℕ, ◌<◌, ◌≡◌, ap, ◌∙◌, String, true, false, not, ◌||◌, ok, err, Bool-cases, inl, inr, str_eq,
  arith, if◌then◌else◌,
}
use fishyume.Base.Text.{is_empty}
use text.Mathlib.TextEquality.{eq_iff}
use text.Mathlib.TextPositions.{eq_refl}
use fishyume.Store.Lease.{Io}
use fishyume.Store.Journal.Monotone.{IsStable}
use fishyume.Store.Journal.{
  Json, JournalRecord, mutated, committed, conflict, garbled, Slot, vacant, stored,
  begin_application_journal, begin_guarded, existing_journal, write_record, write_change,
  update_application_journal, update_guarded, commit_application_journal,
  mark_application_journal_mutated, validate_journal_identity, validate_journal_record, new_journal,
}

-- The calls of the operating system all succeed.
abbrev pub IsSound : Io → Type 0
IsSound io = (io.directory_fails || io.guard_fails || io.fault_injected || io.write_fails) ≡ false

abbrev pub completed_journal :
    (kind id request_hash request planned_run_id response : String)
    → (begun ended : ℕ) → JournalRecord
completed_journal kind id request_hash request planned_run_id response begun ended = record {
  version = 1;
  kind = kind;
  id = id;
  request_hash = request_hash;
  request = request;
  planned_run_id = planned_run_id;
  state = committed;
  response = response;
  created_at = begun;
  updated_at = ended;
}

-- What the texts that `MarshalIndent` writes are: valid and not empty when the text was valid, and
-- written again as they are.
pub record IsEncoding (json : Json) : Type 0 where
  pub stable : IsStable json
  pub kept : (text : String) → json.valid text ≡ true → json.valid (json.indented text) ≡ true
  pub filled : (text : String) → json.valid text ≡ true → is_empty (json.indented text) ≡ false

module _ (json : Json) (encoding : IsEncoding json) (io : Io) (sound : IsSound io)
    (kind id request_hash request planned_run_id response : String) (begun marked : ℕ)
    (accepted : validate_journal_identity json kind id request_hash request planned_run_id ≡ ok tt)
    (answer : (is_empty response || not (json.valid response)) ≡ false) where
  abbrev begun_journal : JournalRecord
  begun_journal = new_journal kind id request_hash (json.indented request) planned_run_id begun

  abbrev marked_journal : JournalRecord
  marked_journal = record begun_journal {
    state = mutated;
    response = json.indented response;
    updated_at = marked;
  }

  begun-step :
      (begin_application_journal json io kind id request_hash request planned_run_id begun vacant).1
      ≡ stored begun_journal
  unfolding begin_application_journal begin_guarded write_record
  begun-step = ground arith

  kind-named : is_empty kind ≡ false
  unfolding validate_journal_identity
  kind-named = elim (Bool-cases (str_eq kind "start")) [
    | inl start ↦ ap is_empty ((eq_iff kind "start").0 start)
    | inr other ↦ ap is_empty ((eq_iff kind "action").0 (ground arith))
  ]

  request-valid : json.valid request ≡ true
  unfolding validate_journal_identity
  request-valid = ground arith

  response-valid : json.valid response ≡ true
  response-valid = ground arith

  begun-existing :
      0 < begun → existing_journal json kind id request_hash begun_journal ≡ ok begun_journal
  unfolding existing_journal validate_journal_record validate_journal_identity
  begun-existing t = ground (
    arith,
    eq_refl kind,
    eq_refl id,
    eq_refl request_hash,
    kind-named,
    encoding.kept request request-valid,
    encoding.filled request request-valid,
    encoding.kept response response-valid,
    encoding.filled response response-valid,
  )

  marked-existing :
      0 < begun
      → 0 < marked
      → existing_journal json kind id request_hash marked_journal ≡ ok marked_journal
  unfolding existing_journal validate_journal_record validate_journal_identity
  marked-existing t u = ground (
    arith,
    eq_refl kind,
    eq_refl id,
    eq_refl request_hash,
    kind-named,
    encoding.kept request request-valid,
    encoding.filled request request-valid,
    encoding.kept response response-valid,
    encoding.filled response response-valid,
  )

  marked-step :
      0 < begun
      → json.fits begun_journal ≡ true
      → (mark_application_journal_mutated json io kind id request_hash response marked
          (stored begun_journal)).1
        ≡ stored marked_journal
  unfolding mark_application_journal_mutated update_application_journal update_guarded write_change
      write_record
  marked-step t small = ground (arith, small, begun-existing t, encoding.stable request)

  committed-step :
      0 < begun
      → 0 < marked
      → json.fits marked_journal ≡ true
      → (ended : ℕ)
      → (commit_application_journal json io kind id request_hash ended (stored marked_journal)).1
        ≡ stored (
            completed_journal kind id request_hash
              (json.indented request)
              planned_run_id
              (json.indented response)
              begun
              ended)
  unfolding commit_application_journal update_application_journal update_guarded write_change
      write_record
  committed-step t u small ended = ground (
    arith,
    small,
    marked-existing t u,
    encoding.stable request,
    encoding.stable response,
    encoding.filled response response-valid,
  )

-- A journal that nothing disturbs: begun with an accepted identity where there was none, marked with
-- a valid response and committed, at times other than the zero time, with no failure of the system and
-- in files that are short enough to be read again, it is stored as committed with that request and
-- that response, as the file lays them out. Such a text is valid and not empty when it was valid
-- before, and laying it out again changes nothing.
pub journal-lifecycle :
    (json : Json) (io : Io) (kind id request_hash request planned_run_id response : String)
    (begun marked ended : ℕ)
    → IsEncoding json
    → IsSound io
    → validate_journal_identity json kind id request_hash request planned_run_id ≡ ok tt
    → (is_empty response || not (json.valid response)) ≡ false
    → 0 < begun
    → 0 < marked
    → let first = new_journal kind id request_hash (json.indented request) planned_run_id begun in
      (json.fits first ≡ true)
      → (json.fits (record first {
        state = mutated;
        response = json.indented response;
        updated_at = marked;
      })
          ≡ true)
      → (commit_application_journal json io kind id request_hash ended
          (mark_application_journal_mutated json io kind id request_hash response marked
            (begin_application_journal json io kind id request_hash request planned_run_id begun
              vacant).1).1).1
        ≡ stored (
            completed_journal kind id request_hash
              (json.indented request)
              planned_run_id
              (json.indented response)
              begun
              ended)
journal-lifecycle json io kind id request_hash request planned_run_id response begun marked ended
      encoding sound accepted answer t u small small_marked =
    let mark_on : Slot → Slot =
      λ s. (mark_application_journal_mutated json io kind id request_hash response marked s).1 in
    let commit_on : Slot → Slot =
      λ s. (commit_application_journal json io kind id request_hash ended s).1 in
    let first =
      begun-step json encoding io sound kind id request_hash request planned_run_id response begun
        marked accepted answer in
    let second =
      marked-step json encoding io sound kind id request_hash request planned_run_id response begun
        marked accepted answer t small in
    let third =
      committed-step json encoding io sound kind id request_hash request planned_run_id response
        begun marked accepted answer t u small_marked ended in
    ap (λ s. commit_on (mark_on s)) first ∙ ap commit_on second ∙ third

-- Beginning a request again is idempotent: when a journal was begun with some identity, beginning it
-- again, with any request and plan that are accepted, returns the record that is stored and changes
-- nothing; with another request hash it is a conflict, and when the file is too long to be read it is
-- an error, and both change nothing.
pub journal-begin_again :
    (json : Json) (io : Io) (kind id request_hash request planned_run_id : String) (now : ℕ)
    (r : JournalRecord)
    → IsSound io
    → validate_journal_identity json kind id request_hash request planned_run_id ≡ ok tt
    → validate_journal_record json r ≡ ok tt
    → str_eq r.kind kind ≡ true
    → str_eq r.id id ≡ true
    → begin_application_journal json io kind id request_hash request planned_run_id now (stored r)
      ≡ (
        if json.fits r
            then (if str_eq r.request_hash request_hash then ok r else err conflict)
            else err garbled,
        stored r,
      )
unfolding begin_application_journal begin_guarded existing_journal
journal-begin_again json io kind id request_hash request planned_run_id now r sound accepted valid k
      i =
    ground arith
