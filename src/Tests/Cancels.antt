-- ===== src/Tests/Cancels.antt =====
-- A request to cancel a run, and its answer.
use fishyume.Base.{◌≡◌, refl, true, false, none, ok, String}
use fishyume.Store.Ids.{valid_id}
use fishyume.Store.Lease.{Io}
use fishyume.Store.CancelRequest.{
  CancelRequest, CancelResponse, nothing, holding, Files, request_cancellation,
  resolve_cancellation, read_cancellation_response,
}
use fishyume.Store.CancelRequest.Durable.{
  OtherSteps, resolving, followed, none_left, cancel_request-kept, cancel_request-round_trip,
}

abbrev quiet_io : Io
quiet_io = record {
  directory_fails = false;
  guard_fails = false;
  remove_fails = false;
  fault_injected = false;
  write_fails = false;
}

abbrev cancel_first : CancelRequest
cancel_first = record {
  id = "cancel-1";
  requested_at = 10;
  expected_state_version = none;
  action_id = "";
  action_request_hash = "";
}

abbrev answer_to : String → CancelResponse
answer_to id = record { request_id = id; status = "completed"; message = ""; updated_at = 12 }

abbrev no_files : Files
no_files = record { request = nothing; response = nothing }

abbrev pending_files : Files
pending_files = record { request = holding cancel_first; response = nothing }

abbrev stale_answer : Files
stale_answer = record { request = holding cancel_first; response = holding (answer_to "cancel-0") }

late_answer : OtherSteps "cancel-1" pending_files stale_answer
unfolding resolve_cancellation valid_id
late_answer =
    followed (resolving quiet_io "run-1" (answer_to "cancel-0") pending_files refl) none_left

cancel_request-kept_example : stale_answer.request ≡ holding cancel_first
cancel_request-kept_example =
    cancel_request-kept cancel_first pending_files stale_answer late_answer refl

cancel_request-round_trip_example :
    (read_cancellation_response quiet_io "run-1" "cancel-1"
        (resolve_cancellation quiet_io "run-1"
          (answer_to "cancel-1")
          (request_cancellation quiet_io "run-1" true cancel_first no_files).1).1
      ≡ ok (answer_to "cancel-1"))
    × ((resolve_cancellation quiet_io "run-1"
          (answer_to "cancel-1")
          (request_cancellation quiet_io "run-1" true cancel_first no_files).1).1.request
        ≡ nothing)
unfolding valid_id
cancel_request-round_trip_example =
    cancel_request-round_trip quiet_io "run-1" cancel_first (answer_to "cancel-1") no_files refl
      refl refl refl refl
