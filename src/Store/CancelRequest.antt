-- ===== src/Store/CancelRequest.antt =====
-- wf-engine/internal/store/cancel_request.go: the request to cancel a run and its response, two
-- files under one guard. Times are numbers, and 0 is the zero time; a missing
-- `expectedStateVersion` is `none`.
pub mod Durable
use fishyume.Base.{
  ℕ, String, Bool, true, false, not, ◌&&◌, ◌||◌, Option, none, some, Outcome, ok, err, ◌>>◌,
  reject_if, str_eq, ◌==◌, if◌then◌else◌,
}
use fishyume.Base.Text.{is_empty}
use fishyume.Store.Ids.{valid_id}
use fishyume.Store.Lease.{Io}

pub record CancelRequest : Type 0 where
  pub id : String
  pub requested_at : ℕ
  pub expected_state_version : Option ℕ
  pub action_id : String
  pub action_request_hash : String

pub record CancelResponse : Type 0 where
  pub request_id : String
  pub status : String
  pub message : String
  pub updated_at : ℕ

pub data CancelError : Type 0 where
  invalid_run_id incomplete_request incomplete_action different_action invalid_response :
      CancelError
  request_changed other_request missing unreadable io_failure : CancelError

-- A file that is not there, that does not decode, or that holds a record.
pub data File (A : Type 0) : Type 0 where
  nothing garbled : File A
  holding : A → File A

pub record Files : Type 0 where
  pub request : File CancelRequest
  pub response : File CancelResponse

unfoldable pub validate_cancel_request : CancelRequest → Outcome CancelError (Unit {0})
validate_cancel_request r = do
  reject_if (is_empty r.id || r.requested_at == 0) incomplete_request
  reject_if
      ((is_empty r.action_id && not (is_empty r.action_request_hash))
        || (not (is_empty r.action_id) && is_empty r.action_request_hash))
      incomplete_action

abbrev pub Requested : Type 0
Requested = Outcome CancelError CancelRequest × Files

-- `expectedStateVersion != nil`
abbrev pub is_conditional : Option ℕ → Bool
is_conditional none = false
is_conditional (some n) = true

-- A request that is there already is the answer, unless it belongs to another action.
unfoldable pub pending_request :
    (wanted pending : CancelRequest) → Outcome CancelError CancelRequest
pending_request wanted pending = do
  validate_cancel_request pending
  reject_if
      (is_conditional wanted.expected_state_version
        && (not (str_eq pending.action_id wanted.action_id)
            || not (str_eq pending.action_request_hash wanted.action_request_hash)))
      different_action
  ok pending

-- The guarded section; `wanted` is the new request, where an ID could be made.
unfoldable pub request_guarded :
    Io
    → (id_made : Bool) → (wanted : CancelRequest) → (request : File CancelRequest) → Files
    → Requested
request_guarded io id_made wanted (holding pending) files = (pending_request wanted pending, files)
request_guarded io id_made wanted garbled files = (err unreadable, files)
request_guarded io id_made wanted nothing files =
    if not id_made
    then (err io_failure, files)
    else if io.remove_fails
    then (err io_failure, files)
    else if io.write_fails
    then (err io_failure, record files { response = nothing })
    else (ok wanted, record { request = holding wanted; response = nothing })

unfoldable pub request_cancellation :
    Io → (run_id : String) → (id_made : Bool) → (wanted : CancelRequest) → Files → Requested
unfolding request_guarded pending_request
request_cancellation io run_id id_made wanted files =
    if not (valid_id run_id)
    then (err invalid_run_id, files)
    else if io.guard_fails
    then (err io_failure, files)
    else request_guarded io id_made wanted files.request files

abbrev pub read_file : File CancelRequest → Outcome CancelError CancelRequest
read_file nothing = err missing
read_file garbled = err unreadable
read_file (holding r) = validate_cancel_request r >> ok r

unfoldable pub read_cancellation_request :
    (run_id : String) → Files → Outcome CancelError CancelRequest
read_cancellation_request run_id files =
    if not (valid_id run_id) then err invalid_run_id else read_file files.request

abbrev pub Resolved : Type 0
Resolved = Outcome CancelError (Unit {0}) × Files

-- Behind the write of the response: the check of the request and its removal.
unfoldable pub remove_request :
    Io → CancelResponse → (request : File CancelRequest) → Files → Resolved
remove_request io response nothing files = (ok tt, files)
remove_request io response garbled files = (err unreadable, files)
remove_request io response (holding r) files =
    if not (str_eq r.id response.request_id)
    then (err request_changed, files)
    else if io.remove_fails
    then (err io_failure, files)
    else (ok tt, record files { request = nothing })

abbrev pub is_invalid_response : CancelResponse → Bool
is_invalid_response r =
    is_empty r.request_id
    || (not (str_eq r.status "completed") && not (str_eq r.status "failed"))
    || r.updated_at == 0

unfoldable pub resolve_cancellation : Io → (run_id : String) → CancelResponse → Files → Resolved
unfolding remove_request
resolve_cancellation io run_id response files =
    if not (valid_id run_id)
    then (err invalid_run_id, files)
    else if is_invalid_response response
    then (err invalid_response, files)
    else if io.guard_fails
    then (err io_failure, files)
    else if io.write_fails
    then (err io_failure, files)
    else remove_request io response files.request (record files { response = holding response })

abbrev pub response_for :
    (request_id : String) → File CancelResponse → Outcome CancelError CancelResponse
response_for request_id nothing = err missing
response_for request_id garbled = err unreadable
response_for request_id (holding r) =
    if not (str_eq r.request_id request_id) then err other_request else ok r

unfoldable pub read_cancellation_response :
    Io → (run_id request_id : String) → Files → Outcome CancelError CancelResponse
read_cancellation_response io run_id request_id files =
    if not (valid_id run_id)
    then err invalid_run_id
    else if io.guard_fails
    then err io_failure
    else response_for request_id files.response
