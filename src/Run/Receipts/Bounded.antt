-- ===== src/Run/Receipts/Bounded.antt =====
-- What `recordActionReceipt` keeps: few receipts, and the new one among them.
use text.Mathlib.TextEquality.{eq_iff}
use text.Mathlib.TextPositions.{eq_refl}
use mathlib.Core.Bool.{false≢true}
use fishyume.Base.{
  ℕ, zero, suc, ◌+◌, ◌≤◌, ◌<◌, ◌≡◌, refl, ◌∙◌, String, Bool, true, false, not, ◌||◌, List, [], ◌∷◌,
  some, arith, length, contains, str_eq, ltb, All, IsDistinct, Bool-cases, inl, inr, ok, reject_if,
  reject_if-eq-ok, >>-eq-ok,
}
use fishyume.Base.Text.{is_empty}
use fishyume.Base.Uint.{uint64_modulus, next_uint64-lt}
use fishyume.Base.Assoc.{
  keys, lookup, put, remove, lookup-put, lookup-remove-other, length-remove-lt, remove-IsDistinct,
  put-IsDistinct, remove-All, put-All,
}
use fishyume.Run.State.{
  ActionReceipt, WorkflowSnapshot, validate_receipts, invalid_receipt, invalid_receipt_conclusion,
}
use fishyume.Run.Receipts.{
  max_action_receipts, is_older, oldest_of, drop_oldest, new_receipt, record_action_receipt,
}

abbrev Receipts : Type 0
Receipts = List (String × ActionReceipt)

-- The scan ends at the ID that it started from or at one of the list.
oldest_of-contains :
    (o : String) (v : ℕ) (rs : Receipts)
    → (contains (keys rs) (oldest_of o v rs) || str_eq o (oldest_of o v rs)) ≡ true
unfolding oldest_of contains
oldest_of-contains o v [] = eq_refl o
oldest_of-contains o v ((id, r) ∷ rs) = elim (Bool-cases (is_older o v id r)) [
  | inl older ↦ rw older (ground (arith, oldest_of-contains id r.state_version rs))
  | inr newer ↦ rw newer (ground (arith, oldest_of-contains o v rs))
]

oldest_of-member :
    (e : String × ActionReceipt) (rs : Receipts)
    → contains (keys (e ∷ rs)) (oldest_of "" 0 (e ∷ rs)) ≡ true
unfolding oldest_of contains
oldest_of-member (id, r) rs = ground (arith, oldest_of-contains id r.state_version rs)

drop_oldest-le :
    (fuel : ℕ) (rs : Receipts)
    → length rs ≤ fuel + max_action_receipts
    → length (drop_oldest fuel rs) ≤ max_action_receipts
unfolding drop_oldest
drop_oldest-le zero rs h = h
drop_oldest-le (suc fuel) [] h = omega arith
drop_oldest-le (suc fuel) (e ∷ rs) h = ground (
  arith,
  drop_oldest-le fuel (remove (oldest_of "" 0 (e ∷ rs)) (e ∷ rs)),
  length-remove-lt (oldest_of "" 0 (e ∷ rs)) (e ∷ rs) (oldest_of-member e rs),
)

-- One receipt has the version `newest`, and every other one a lower version and an ID.
module _ (key : String) (newest : ℕ) (named : is_empty key ≡ false) where
  abbrev IsBelow : String × ActionReceipt → Type 0
  IsBelow (id, r) =
      (is_empty id ≡ false)
      × (str_eq id key ≡ false → r.state_version < newest)
      × (str_eq id key ≡ true → r.state_version ≡ newest)

  oldest_of-other :
      (o : String) (v : ℕ) (rs : Receipts)
      → str_eq o key ≡ false
      → is_empty o ≡ false
      → v < newest
      → All IsBelow rs
      → str_eq (oldest_of o v rs) key ≡ false
  unfolding oldest_of
  oldest_of-other o v [] other filled low h = other
  oldest_of-other o v ((id, r) ∷ rs) other filled low h = elim (Bool-cases (is_older o v id r)) [
    | inl older ↦
        let differs : str_eq id key ≡ false = ground (arith, h.0.2) in
        rw older (oldest_of-other id r.state_version rs differs h.0.0 (h.0.1 differs) h.1)
    | inr newer ↦ rw newer (oldest_of-other o v rs other filled low h.1)
  ]

  -- Whether there is another receipt.
  has_other : List String → Bool
  has_other [] = false
  has_other (id ∷ ids) = not (str_eq id key) || has_other ids

  oldest_of-newest :
      (o : String) (rs : Receipts)
      → is_empty o ≡ false
      → has_other (keys rs) ≡ true
      → All IsBelow rs
      → str_eq (oldest_of o newest rs) key ≡ false
  unfolding oldest_of has_other
  oldest_of-newest o [] filled some_other h = absurd (false≢true some_other)
  oldest_of-newest o ((id, r) ∷ rs) filled some_other h = elim (Bool-cases (str_eq id key)) [
    | inr differs ↦
        let older : is_older o newest id r ≡ true = ground (arith, h.0.1 differs) in
        rw older (oldest_of-other id r.state_version rs differs h.0.0 (h.0.1 differs) h.1)
    | inl same ↦
        let rest : has_other (keys rs) ≡ true = ground arith in
        let level = h.0.2 same in
        elim (Bool-cases (is_older o newest id r)) [
          | inl older ↦ rw (older, level) (oldest_of-newest id rs h.0.0 rest h.1)
          | inr newer ↦ rw newer (oldest_of-newest o rs filled rest h.1)
        ]
  ]

  -- Of two receipts at least, the newest is not the oldest.
  oldest_of-differs :
      (rs : Receipts)
      → has_other (keys rs) ≡ true
      → All IsBelow rs
      → str_eq (oldest_of "" 0 rs) key ≡ false
  unfolding oldest_of has_other
  oldest_of-differs [] some_other h = absurd (false≢true some_other)
  oldest_of-differs ((id, r) ∷ rs) some_other h = elim (Bool-cases (str_eq id key)) [
    | inr differs ↦ oldest_of-other id r.state_version rs differs h.0.0 (h.0.1 differs) h.1
    | inl same ↦ rw (h.0.2 same) (oldest_of-newest id rs h.0.0 (ground arith) h.1)
  ]

  two-has_other :
      (a b : String × ActionReceipt) (rs : Receipts)
      → IsDistinct (keys (a ∷ b ∷ rs))
      → has_other (keys (a ∷ b ∷ rs)) ≡ true
  unfolding has_other contains
  two-has_other (a, r) (b, q) rs h = ground (arith, eq_iff a key, eq_iff b key, eq_iff b a, h.0)

  drop_oldest-keeps :
      (fuel : ℕ) (rs : Receipts)
      → IsDistinct (keys rs)
      → All IsBelow rs
      → (lookup key (drop_oldest fuel rs) ≡ lookup key rs) × IsDistinct (keys (drop_oldest fuel rs))
  unfolding drop_oldest
  drop_oldest-keeps zero rs distinct h = (refl, distinct)
  drop_oldest-keeps (suc fuel) [] distinct h = (refl, distinct)
  drop_oldest-keeps (suc fuel) (e ∷ []) distinct h = (refl, distinct)
  drop_oldest-keeps (suc fuel) (a ∷ b ∷ rs) distinct h =
      let oldest = oldest_of "" 0 (a ∷ b ∷ rs) in
      let (kept, still) =
        drop_oldest-keeps fuel (remove oldest (a ∷ b ∷ rs))
          (remove-IsDistinct oldest (a ∷ b ∷ rs) distinct)
          (remove-All IsBelow oldest (a ∷ b ∷ rs) h) in
      let differs = oldest_of-differs (a ∷ b ∷ rs) (two-has_other a b rs distinct) h in
      elim (Bool-cases (ltb max_action_receipts (length (a ∷ b ∷ rs)))) [
        | inl full ↦ rw full (kept ∙ lookup-remove-other oldest key (a ∷ b ∷ rs) differs, still)
        | inr room ↦ rw room (refl, distinct)
      ]

-- The receipts of a valid snapshot have an ID and a version that the run has reached.
valid-IsBelow :
    (key : String) (version newest : ℕ) (named : is_empty key ≡ false) (rs : Receipts)
    → version < newest
    → validate_receipts version rs ≡ ok tt
    → contains (keys rs) key ≡ false
    → All (IsBelow key newest named) rs
unfolding validate_receipts contains
valid-IsBelow key version newest named [] low h new = tt
valid-IsBelow key version newest named ((id, r) ∷ rs) low h new =
    let (held, h1) = >>-eq-ok (reject_if _ invalid_receipt) _ h in
    let (concluded, h2) = >>-eq-ok (reject_if _ invalid_receipt_conclusion) _ h1 in
    let fine = reject_if-eq-ok _ invalid_receipt held in
    (
      (ground arith, λ other. ground arith, λ same. absurd (ground (arith, eq_iff id key))),
      valid-IsBelow key version newest named rs low h2 (ground arith),
    )

-- After `recordActionReceipt` in a valid run, with an action ID that has no receipt, there are at most
-- 256 receipts of distinct actions, and the new one, with the next state version, is among them: what
-- is dropped is always another one. The state version is not the last `uint64`.
pub record_action_receipt_bounded :
    (run : WorkflowSnapshot) (action_id request_hash : String)
    → IsDistinct (keys run.action_receipts)
    → validate_receipts run.state_version run.action_receipts ≡ ok tt
    → contains (keys run.action_receipts) action_id ≡ false
    → is_empty action_id ≡ false
    → run.state_version + 1 < uint64_modulus
    → let after = (record_action_receipt run action_id request_hash).action_receipts in
      (length after ≤ max_action_receipts)
      × IsDistinct (keys after)
      × (lookup action_id after ≡ some (new_receipt run action_id request_hash))
unfolding record_action_receipt
record_action_receipt_bounded run action_id request_hash distinct valid new named low =
    let receipt = new_receipt run action_id request_hash in
    let newest = next_uint64-lt run.state_version low in
    let all = put action_id receipt run.action_receipts in
    let below =
      put-All (IsBelow action_id (run.state_version + 1) named) action_id receipt
        run.action_receipts
        (named, λ other. absurd (ground (arith, eq_refl action_id)), λ same. newest)
        (valid-IsBelow action_id run.state_version (run.state_version + 1) named run.action_receipts
          (omega arith) valid new) in
    let (kept, still) =
      drop_oldest-keeps action_id (run.state_version + 1) named (length all) all
        (put-IsDistinct action_id receipt run.action_receipts distinct) below in
    rw named (
      drop_oldest-le (length all) all (omega arith),
      still,
      kept ∙ lookup-put action_id receipt run.action_receipts,
    )
