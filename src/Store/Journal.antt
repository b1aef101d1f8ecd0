-- ===== src/Store/Journal.antt =====
-- wf-engine/internal/store/application_journal.go: the record of one application request, from its
-- intent to its committed response. `Json` stands for `encoding/json`, and `Io` for the calls that may
-- fail.
pub mod Monotone
pub mod Lifecycle
use fishyume.Base.{
  ℕ, String, Bool, true, false, not, ◌&&◌, ◌||◌, Option, none, some, Outcome, ok, err, ◌>>=◌, ◌>>◌,
  reject_if, str_eq, ◌==◌, if◌then◌else◌,
}
use fishyume.Base.Text.{is_empty}
use fishyume.Store.Lease.{Io}

pub data JournalState : Type 0 where
  intent mutated committed : JournalState
  unknown : String → JournalState

-- An empty `response` is the one left out.
pub record JournalRecord : Type 0 where
  pub version : ℕ
  pub kind : String
  pub id : String
  pub request_hash : String
  pub request : String
  pub planned_run_id : String
  pub state : JournalState
  pub response : String
  pub created_at : ℕ
  pub updated_at : ℕ

-- `valid` stands for `json.Valid`, `equal` for the comparison of two decoded JSON texts, `indented` for
-- what `MarshalIndent` makes of the text of a member, and `fits` tells the records whose files are
-- within the 4 MiB that `readJSON` reads.
pub record Json : Type 0 where
  pub valid : String → Bool
  pub equal : (left right : String) → Bool
  pub indented : String → String
  pub fits : JournalRecord → Bool

-- An empty response is left out.
abbrev pub indented_response : Json → (response : String) → String
indented_response json response = if is_empty response then "" else json.indented response

-- What the file of a record gives back.
abbrev pub laid_out : Json → JournalRecord → JournalRecord
laid_out json r = record r {
  request = json.indented r.request;
  response = indented_response json r.response;
}

pub data JournalError : Type 0 where
  invalid_kind incomplete_identity incomplete_record invalid_state response_missing : JournalError
  conflict invalid_response different_response commit_before_mutation : JournalError
  missing garbled io_failure : JournalError

pub data Slot : Type 0 where
  vacant unreadable : Slot
  stored : JournalRecord → Slot

abbrev pub is_known : JournalState → Bool
is_known (JournalState.unknown s) = false
is_known _ = true

abbrev pub is_answered : JournalState → Bool
is_answered mutated = true
is_answered committed = true
is_answered _ = false

abbrev pub Updated : Type 0
Updated = Outcome JournalError JournalRecord × Slot

abbrev pub is_same_request : JournalRecord → (kind id request_hash : String) → Bool
is_same_request r kind id request_hash =
    str_eq r.kind kind && str_eq r.id id && str_eq r.request_hash request_hash

-- `writeJSON`, behind the injected fault.
unfoldable pub write_record : Json → Io → JournalRecord → Slot → Updated
write_record json io r slot =
    if io.fault_injected || io.write_fails
    then (err io_failure, slot)
    else (ok r, stored (laid_out json r))

abbrev pub new_journal :
    (kind id request_hash request planned_run_id : String) → (now : ℕ) → JournalRecord
new_journal kind id request_hash request planned_run_id now = record {
  version = 1;
  kind = kind;
  id = id;
  request_hash = request_hash;
  request = request;
  planned_run_id = planned_run_id;
  state = intent;
  response = "";
  created_at = now;
  updated_at = now;
}

abbrev pub if_accepted : Outcome JournalError (Unit {0}) → Updated → Slot → Updated
if_accepted (ok u) result slot = result
if_accepted (err e) result slot = (err e, slot)

-- What an update makes of a record: `none` leaves it, which the source sees by comparing the
-- encodings before and after.
abbrev pub Change : Type 0
Change = Outcome JournalError (Option JournalRecord)

-- The update of `CommitApplicationJournal`.
abbrev pub commit_record : (now : ℕ) → JournalState → JournalRecord → Change
commit_record now committed r = ok none
commit_record now mutated r =
    if is_empty r.response
    then err commit_before_mutation
    else ok (some (record r { state = committed; updated_at = now }))
commit_record now _ r = err commit_before_mutation

-- The update of `MarkApplicationJournalMutated`.
abbrev pub mark_record :
    Json → (response : String) → (now : ℕ) → JournalState → JournalRecord → Change
mark_record json response now committed r =
    if json.equal r.response response then ok none else err different_response
mark_record json response now mutated r =
    if json.equal r.response response then ok none else err different_response
mark_record json response now _ r =
    ok (some (record r { state = mutated; response = response; updated_at = now }))

unfoldable pub write_change : Json → Io → JournalRecord → Change → Updated
unfolding write_record
write_change json io r (err e) = (err e, stored r)
write_change json io r (ok none) = (ok r, stored r)
write_change json io r (ok (some changed)) = write_record json io changed (stored r)

module _ (json : Json) where
  unfoldable pub validate_journal_identity :
      (kind id request_hash request planned_run_id : String) → Outcome JournalError (Unit {0})
  validate_journal_identity kind id request_hash request planned_run_id = do
    reject_if (not (str_eq kind "start") && not (str_eq kind "action")) invalid_kind
    reject_if
        (is_empty id
          || is_empty request_hash
          || is_empty planned_run_id
          || is_empty request
          || not (json.valid request))
        incomplete_identity

  unfoldable pub validate_journal_record : JournalRecord → Outcome JournalError (Unit {0})
  validate_journal_record r = do
    reject_if
        (not (r.version == 1)
          || is_empty r.kind
          || is_empty r.id
          || is_empty r.request_hash
          || is_empty r.planned_run_id
          || is_empty r.request
          || not (json.valid r.request)
          || r.created_at == 0
          || r.updated_at == 0)
        incomplete_record
    reject_if (not (is_known r.state)) invalid_state
    reject_if (is_answered r.state && (is_empty r.response || not (json.valid r.response)))
        response_missing

  -- An existing record answers a request that it is bound to.
  unfoldable pub existing_journal :
      (kind id request_hash : String) → JournalRecord → Outcome JournalError JournalRecord
  existing_journal kind id request_hash existing = do
    validate_journal_record existing
    reject_if (not (is_same_request existing kind id request_hash)) conflict
    ok existing

  unfoldable pub begin_guarded :
      Io → (kind id request_hash request planned_run_id : String) → (now : ℕ) → Slot → Updated
  unfolding existing_journal write_record
  begin_guarded io kind id request_hash request planned_run_id now vacant =
      write_record json io (new_journal kind id request_hash request planned_run_id now) vacant
  begin_guarded io kind id request_hash request planned_run_id now unreadable =
      (err garbled, unreadable)
  begin_guarded io kind id request_hash request planned_run_id now (stored existing) = (
    if json.fits existing then existing_journal kind id request_hash existing else err garbled,
    stored existing,
  )

  unfoldable pub begin_application_journal :
      Io → (kind id request_hash request planned_run_id : String) → (now : ℕ) → Slot → Updated
  unfolding begin_guarded validate_journal_identity
  begin_application_journal io kind id request_hash request planned_run_id now slot =
      if_accepted (validate_journal_identity kind id request_hash request planned_run_id)
        (if io.directory_fails || io.guard_fails
          then (err io_failure, slot)
          else begin_guarded io kind id request_hash request planned_run_id now slot)
        slot

  unfoldable pub update_guarded :
      Io → (kind id request_hash : String) → (JournalRecord → Change) → Slot → Updated
  unfolding write_change existing_journal
  update_guarded io kind id request_hash update vacant = (err missing, vacant)
  update_guarded io kind id request_hash update unreadable = (err garbled, unreadable)
  update_guarded io kind id request_hash update (stored r) =
      if json.fits r
      then write_change json io r (existing_journal kind id request_hash r >>= update)
      else (err garbled, stored r)

  unfoldable pub update_application_journal :
      Io → (kind id request_hash : String) → (JournalRecord → Change) → Slot → Updated
  unfolding update_guarded
  update_application_journal io kind id request_hash update slot =
      if io.directory_fails || io.guard_fails
      then (err io_failure, slot)
      else update_guarded io kind id request_hash update slot

  unfoldable pub commit_application_journal :
      Io → (kind id request_hash : String) → (now : ℕ) → Slot → Updated
  unfolding update_application_journal
  commit_application_journal io kind id request_hash now =
      update_application_journal io kind id request_hash (λ r. commit_record now r.state r)

  unfoldable pub mark_application_journal_mutated :
      Io → (kind id request_hash response : String) → (now : ℕ) → Slot → Updated
  unfolding update_application_journal
  mark_application_journal_mutated io kind id request_hash response now slot =
      if is_empty response || not (json.valid response)
      then (err invalid_response, slot)
      else update_application_journal io kind id request_hash
          (λ r. mark_record json response now r.state r) slot
