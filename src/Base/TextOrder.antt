-- ===== src/Base/TextOrder.antt =====
-- The byte order of texts is a strict weak order, so sorting by it is well defined.
use Prim.Native.Nat.{ℕ, Ordering, compare as compare_ℕ}
use Prim.Native.Char.{code}
use Prim.Native.String.{String, [], ◌∷◌, then, compare}
use Prim.Native.String.compare
use mathlib.Core.Path.{◌≡◌, refl}
use mathlib.Core.Bool.{Bool, true, false}
use native.Mathlib.Omega.{arith}
use text.Mathlib.TextPositions.{compare_refl}
use fishyume.Base.Tests.{str_lt}

abbrev flip : Ordering → Ordering
flip Ordering.lt = Ordering.gt
flip Ordering.eq = Ordering.eq
flip Ordering.gt = Ordering.lt

true≢false : true ≡ false → ⊥
true≢false h = cc

compare_ℕ-flip : (m n : ℕ) → compare_ℕ n m ≡ flip (compare_ℕ m n)
compare_ℕ-flip m n = ground arith

then-flip : (o p : Ordering) → then (flip o) (flip p) ≡ flip (then o p)
then-flip Ordering.lt p = refl
then-flip Ordering.eq p = refl
then-flip Ordering.gt p = refl

compare-flip : (s t : String) → compare t s ≡ flip (compare s t)
compare-flip [] [] = rw compare.nil-nil
compare-flip [] (d ∷ t) = rw (compare.nil-cons, compare.cons-nil)
compare-flip (c ∷ s) [] = rw (compare.nil-cons, compare.cons-nil)
compare-flip (c ∷ s) (d ∷ t) =
    rw (compare.cons-cons d c t s, compare.cons-cons c d s t)
      (rw (compare_ℕ-flip (code c) (code d), compare-flip s t) (then-flip _ _))

abbrev is_less : Ordering → Bool
is_less Ordering.lt = true
is_less _ = false

-- One step of the comparison of three texts.
then_trans :
    (a b c : ℕ) (ba cb ca : Ordering)
    → (is_less ba ≡ false → is_less cb ≡ false → is_less ca ≡ false)
    → is_less (then (compare_ℕ b a) ba) ≡ false
    → is_less (then (compare_ℕ c b) cb) ≡ false
    → is_less (then (compare_ℕ c a) ca) ≡ false
then_trans a b c ba cb ca ih h k = ground arith

is_less_trans :
    (r s t : String)
    → is_less (compare s r) ≡ false
    → is_less (compare t s) ≡ false
    → is_less (compare t r) ≡ false
is_less_trans [] s [] h k = refl
is_less_trans [] s (e ∷ t) h k = rw compare.cons-nil
is_less_trans (c ∷ r) [] t h k = absurd (true≢false (rw compare.nil-cons at h))
is_less_trans (c ∷ r) (d ∷ s) [] h k = absurd (true≢false (rw compare.nil-cons at k))
is_less_trans (c ∷ r) (d ∷ s) (e ∷ t) h k = rw (compare.cons-cons e c t r) (
    then_trans (code c) (code d) (code e) (compare s r) (compare t s) (compare t r)
      (is_less_trans r s t) (rw (compare.cons-cons d c s r) at h)
      (rw (compare.cons-cons e d t s) at k))

pub str_lt_asymmetric : (s t : String) → str_lt s t ≡ true → str_lt t s ≡ false
str_lt_asymmetric s t h = ground (arith, compare-flip s t)

pub str_lt_irreflexive : (s : String) → str_lt s s ≡ false
str_lt_irreflexive s = ground (arith, compare_refl s)

pub str_lt_negatively_transitive :
    (r s t : String) → str_lt s r ≡ false → str_lt t s ≡ false → str_lt t r ≡ false
str_lt_negatively_transitive r s t h k =
    ground (arith, is_less_trans r s t (ground arith) (ground arith))
