-- ===== src/Base/Counts.antt =====
-- Lists of texts compared by how often each text occurs.
use Prim.Native.Nat.{suc, ◌+◌, ◌≤◌, ◌<◌}
use Prim.Native.String.{String}
use mathlib.Core.Path.{◌≡◌, refl}
use mathlib.Core.Bool.{Bool, true}
use mathlib.Core.List.{List, [], ◌∷◌, ◌++◌}
use mathlib.Core.Logic.{inl, inr}
use native.Mathlib.Omega.{arith}
use text.Mathlib.TextEquality.{eq_iff}
use text.Mathlib.TextPositions.{eq_refl}
use fishyume.Base.Tests.{ltb, str_eq, if◌then◌else◌, Bool-cases}
use fishyume.Base.Lists.{length, contains, count, one_if}
use fishyume.Base.Sort.{insert_sorted, sort}

pub count-append : (s : String) (xs ys : List String) → count s (xs ++ ys) ≡ count s xs + count s ys
unfolding count
count-append s [] ys = omega arith
count-append s (x ∷ xs) ys = omega (arith, count-append s xs ys)

count-insert_sorted :
    (less : String → String → Bool) (s a : String) (xs : List String)
    → count s (insert_sorted less a xs) ≡ one_if (str_eq a s) + count s xs
unfolding count insert_sorted
count-insert_sorted less s a [] = refl
count-insert_sorted less s a (x ∷ xs) = ground (arith, count-insert_sorted less s a xs)

pub count-sort :
    (less : String → String → Bool) (s : String) (xs : List String)
    → count s (sort less xs) ≡ count s xs
unfolding count sort
count-sort less s [] = refl
count-sort less s (x ∷ xs) =
    ground (arith, count-insert_sorted less s x (sort less xs), count-sort less s xs)

pub contains→count : (s : String) (xs : List String) → contains xs s ≡ true → 0 < count s xs
unfolding contains count
contains→count s [] h = absurd (cc)
contains→count s (x ∷ xs) h = ground (arith, contains→count s xs)

pub count→contains : (s : String) (xs : List String) → 0 < count s xs → contains xs s ≡ true
unfolding contains count
count→contains s [] h = absurd (omega arith)
count→contains s (x ∷ xs) h = ground (arith, count→contains s xs)

-- One occurrence taken out.
remove : String → List String → List String
remove s [] = []
remove s (x ∷ xs) = if str_eq x s then xs else x ∷ remove s xs

length-remove :
    (s : String) (xs : List String) → 0 < count s xs → suc (length (remove s xs)) ≡ length xs
unfolding count remove
length-remove s [] h = absurd (omega arith)
length-remove s (x ∷ xs) h = ground (arith, length-remove s xs)

count-remove :
    (s t : String) (xs : List String)
    → 0 < count s xs
    → count t (remove s xs) + one_if (str_eq s t) ≡ count t xs
unfolding count remove
count-remove s t [] h = absurd (omega arith)
count-remove s t (x ∷ xs) h =
    ground (arith, count-remove s t xs, eq_iff x s, eq_iff x t, eq_iff s t)

abbrev pub IsSubBag : List String → List String → Type 0
IsSubBag xs ys = (s : String) → count s xs ≤ count s ys

pub IsSubBag-length : (xs ys : List String) → IsSubBag xs ys → length xs ≤ length ys
unfolding count
IsSubBag-length [] ys h = omega arith
IsSubBag-length (x ∷ xs) ys h =
    let found : 0 < count x ys = ground (arith, h x, eq_refl x) in
    let rest : IsSubBag xs (remove x ys) = λ s. ground (arith, h s, count-remove x s ys found) in
    omega (arith, IsSubBag-length xs (remove x ys) rest, length-remove x ys found)

-- A bag inside another one of its size is the whole of it.
pub IsSubBag-whole :
    (xs ys : List String)
    → IsSubBag xs ys
    → length xs ≡ length ys
    → (s : String) → count s xs ≡ count s ys
unfolding count
IsSubBag-whole xs ys h e s = elim (Bool-cases (ltb (count s xs) (count s ys))) [
  | inr same ↦ ground (arith, h s)
  | inl fewer ↦
      let larger : IsSubBag (s ∷ xs) ys = λ t. ground (arith, h t, h s, eq_iff s t) in
      absurd (omega (arith, IsSubBag-length (s ∷ xs) ys larger))
]
