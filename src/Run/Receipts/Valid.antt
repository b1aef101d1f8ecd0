-- ===== src/Run/Receipts/Valid.antt =====
-- wf-engine/internal/run/service.go: the run that `finalizeAction` writes is valid when the run before
-- is, so that `persistRun` does not refuse it.
use text.Mathlib.TextPositions.{eq_refl}
use fishyume.Base.{
  ℕ, zero, suc, ◌+◌, ◌≤◌, ◌<◌, ◌≡◌, refl, String, Bool, false, not, ◌&&◌, ◌||◌, List, [], ◌∷◌,
  arith, length, str_eq, ltb, ◌==◌, All, All-map, Bool-cases, inl, inr, ok, reject_if,
  reject_if-eq-ok, >>-eq-ok,
}
use fishyume.Base.Text.{is_empty}
use fishyume.Base.Uint.{next_uint64, uint64_modulus, next_uint64-lt}
use fishyume.Base.Assoc.{put, remove, put-All, remove-All}
use fishyume.Run.State.{
  Phase, Conclusion, NodeSnapshot, ActionReceipt, WorkflowSnapshot, validate_receipts,
  validate_workflow_snapshot, valid_phase, invalid_receipt, invalid_receipt_conclusion,
  unknown_phase, unknown_conclusion, unknown_reason, inconsistent_conclusion, active_reason,
  validate_state_schema_version, same_bool, is_completed, has_conclusion, valid_conclusion,
}
use fishyume.Run.Action.{ResumeAction}
use fishyume.Run.Receipts.{max_action_receipts, oldest_of, drop_oldest, record_action_receipt}
use fishyume.Run.Intent.{next_version, finalized}

-- The two tests of a receipt.
abbrev is_wrong : (version : ℕ) → String × ActionReceipt → Bool
is_wrong version (id, r) =
    is_empty id
    || not (str_eq r.action_id id)
    || is_empty r.request_hash
    || r.state_version == 0
    || ltb version r.state_version
    || not (valid_phase r.phase)

abbrev is_inconsistent : String × ActionReceipt → Bool
is_inconsistent (id, r) =
    not (same_bool (is_completed r.phase) (has_conclusion r.conclusion))
    || (has_conclusion r.conclusion && not (valid_conclusion r.conclusion))

abbrev IsValidReceipt : (version : ℕ) → String × ActionReceipt → Type 0
IsValidReceipt version e = (is_wrong version e ≡ false) × (is_inconsistent e ≡ false)

receipts-All :
    (version : ℕ) (rs : List (String × ActionReceipt))
    → validate_receipts version rs ≡ ok tt
    → All (IsValidReceipt version) rs
unfolding validate_receipts
receipts-All version [] h = tt
receipts-All version ((id, r) ∷ rs) h =
    let (held, h1) = >>-eq-ok (reject_if (is_wrong version (id, r)) invalid_receipt) _ h in
    let (concluded, h2) =
      >>-eq-ok (reject_if (is_inconsistent (id, r)) invalid_receipt_conclusion) _ h1 in
    (
      (
        reject_if-eq-ok (is_wrong version (id, r)) invalid_receipt held,
        reject_if-eq-ok (is_inconsistent (id, r)) invalid_receipt_conclusion concluded,
      ),
      receipts-All version rs h2,
    )

All-receipts :
    (version : ℕ) (rs : List (String × ActionReceipt))
    → All (IsValidReceipt version) rs
    → validate_receipts version rs ≡ ok tt
unfolding validate_receipts
All-receipts version [] h = refl
All-receipts version ((id, r) ∷ rs) h = rw (h.0.0, h.0.1) (All-receipts version rs h.1)

-- A receipt stays valid when the version of the run goes up.
raise-version :
    (low high : ℕ) (e : String × ActionReceipt)
    → low ≤ high
    → IsValidReceipt low e
    → IsValidReceipt high e
raise-version low high (id, r) h (right, consistent) = (ground (arith, right, h), consistent)

drop_oldest-All :
    (P : String × ActionReceipt → Type 0) (fuel : ℕ) (rs : List (String × ActionReceipt))
    → All P rs
    → All P (drop_oldest fuel rs)
unfolding drop_oldest
drop_oldest-All P zero rs h = h
drop_oldest-All P (suc fuel) rs h =
    let rest = remove (oldest_of "" 0 rs) rs in
    elim (Bool-cases (ltb max_action_receipts (length rs))) [
      | inr room ↦ rw room h
      | inl full ↦ rw full (drop_oldest-All P fuel rest (remove-All P (oldest_of "" 0 rs) rs h))
    ]

-- What a valid run gives: a schema that is not newer, and valid receipts.
run-valid :
    (run : WorkflowSnapshot)
    → validate_workflow_snapshot run ≡ ok tt
    → (validate_state_schema_version run.state_schema_version ≡ ok tt)
      × All (IsValidReceipt run.state_version) run.action_receipts
unfolding validate_workflow_snapshot
run-valid run h =
    let (schema, h1) = >>-eq-ok (validate_state_schema_version run.state_schema_version) _ h in
    let (phase, h2) = >>-eq-ok (reject_if _ unknown_phase) _ h1 in
    let (conclusion, h3) = >>-eq-ok (reject_if _ unknown_conclusion) _ h2 in
    let (reason, h4) = >>-eq-ok (reject_if _ unknown_reason) _ h3 in
    let (consistent, h5) = >>-eq-ok (reject_if _ inconsistent_conclusion) _ h4 in
    let (active, h6) = >>-eq-ok (reject_if _ active_reason) _ h5 in
    (schema, receipts-All run.state_version run.action_receipts h6)

-- `finalizeAction` writes a valid run when the run before is valid, the action has an ID and a request
-- hash, and the state version is not the last `uint64`.
pub finalized_valid :
    (run : WorkflowSnapshot) (node : NodeSnapshot) (action : ResumeAction) (summary : String)
    → validate_workflow_snapshot run ≡ ok tt
    → is_empty action.action_id ≡ false
    → is_empty action.action_request_hash ≡ false
    → run.state_version + 1 < uint64_modulus
    → validate_workflow_snapshot (next_version (finalized run node action summary)) ≡ ok tt
unfolding validate_workflow_snapshot record_action_receipt
finalized_valid run node action summary valid named hashed low =
    let (schema, receipts) = run-valid run valid in
    let next = next_uint64 run.state_version in
    let version = next_uint64-lt run.state_version low in
    let raised =
      All-map (IsValidReceipt run.state_version) (IsValidReceipt next) run.action_receipts
        (λ e. raise-version run.state_version next e (omega (arith, version))) receipts in
    let receipt : ActionReceipt = record {
      action_id = action.action_id;
      request_hash = action.action_request_hash;
      state_version = next;
      phase = Phase.running;
      conclusion = Conclusion.unset;
    } in
    let new : IsValidReceipt next (action.action_id, receipt) =
      (ground (arith, version, named, hashed, eq_refl action.action_id), refl) in
    let all = put action.action_id receipt run.action_receipts in
    rw (named, schema)
      (All-receipts next (drop_oldest (length all) all) (
        drop_oldest-All (IsValidReceipt next) (length all) all
          (put-All (IsValidReceipt next) action.action_id receipt run.action_receipts new raised)))
