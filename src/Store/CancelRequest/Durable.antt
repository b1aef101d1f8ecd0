-- ===== src/Store/CancelRequest/Durable.antt =====
-- A request to cancel stays until it is answered, and its answer can be read.
use text.Mathlib.TextPositions.{eq_refl}
use fishyume.Base.{◌≡◌, String, Bool, true, false, ◌||◌, ok, str_eq, arith}
use fishyume.Store.Ids.{valid_id}
use fishyume.Store.Lease.{Io}
use fishyume.Store.CancelRequest.{
  CancelRequest, CancelResponse, nothing, holding, Files, request_cancellation, request_guarded,
  resolve_cancellation, remove_request, read_cancellation_response, is_invalid_response,
}

-- One operation that does not answer the request `id`.
pub data OtherStep (id : String) : (before after : Files) → Type 0 where
  requesting :
      (io : Io) (run_id : String) (id_made : Bool) (wanted : CancelRequest) (files : Files)
      → OtherStep id files (request_cancellation io run_id id_made wanted files).1
  resolving :
      (io : Io) (run_id : String) (response : CancelResponse) (files : Files)
      → str_eq id response.request_id ≡ false
      → OtherStep id files (resolve_cancellation io run_id response files).1

pub data OtherSteps (id : String) : (before after : Files) → Type 0 where
  none_left : {files : Files} → OtherSteps id files files
  followed :
      {before between after : Files}
      → OtherStep id before between
      → OtherSteps id between after
      → OtherSteps id before after

requesting-keeps :
    (io : Io) (run_id : String) (id_made : Bool) (wanted r : CancelRequest) (files : Files)
    → files.request ≡ holding r
    → (request_cancellation io run_id id_made wanted files).1.request ≡ holding r
unfolding request_cancellation request_guarded
requesting-keeps io run_id id_made wanted r files h = ground arith

resolving-keeps :
    (io : Io) (run_id : String) (response : CancelResponse) (r : CancelRequest) (files : Files)
    → str_eq r.id response.request_id ≡ false
    → files.request ≡ holding r
    → (resolve_cancellation io run_id response files).1.request ≡ holding r
unfolding resolve_cancellation remove_request
resolving-keeps io run_id response r files o h = ground arith

-- A stored request to cancel survives every sequence of further requests and of responses to other
-- requests, whatever fails in them.
pub cancel_request-kept :
    (r : CancelRequest) (before after : Files)
    → OtherSteps r.id before after
    → before.request ≡ holding r
    → after.request ≡ holding r
cancel_request-kept r before after none_left h = h
cancel_request-kept r before after
      (followed {between = between} (requesting io run_id id_made wanted files) rest) h =
    cancel_request-kept r between after rest (requesting-keeps io run_id id_made wanted r before h)
cancel_request-kept r before after
      (followed {between = between} (resolving io run_id response files o) rest) h =
    cancel_request-kept r between after rest (resolving-keeps io run_id response r before o h)

-- The calls of the operating system all succeed.
abbrev pub IsSound : Io → Type 0
IsSound io = (io.guard_fails || io.remove_fails || io.write_fails) ≡ false

-- Requesting, answering and reading: with a valid run ID, a valid response to the new request and no
-- failure of the system, a request where none is pending is answered by its response, the response
-- can be read under the request's ID, and the request is gone.
pub cancel_request-round_trip :
    (io : Io) (run_id : String) (wanted : CancelRequest) (response : CancelResponse) (files : Files)
    → IsSound io
    → valid_id run_id ≡ true
    → is_invalid_response response ≡ false
    → str_eq wanted.id response.request_id ≡ true
    → files.request ≡ nothing
    → (read_cancellation_response io run_id response.request_id
          (resolve_cancellation io run_id response
            (request_cancellation io run_id true wanted files).1).1
        ≡ ok response)
      × ((resolve_cancellation io run_id response
            (request_cancellation io run_id true wanted files).1).1.request
          ≡ nothing)
unfolding read_cancellation_response resolve_cancellation remove_request request_cancellation
    request_guarded
cancel_request-round_trip io run_id wanted response files sound v accepted same h =
    ground (arith, eq_refl response.request_id)
