-- ===== src/Base/Assoc.antt =====
-- Go's maps with string keys, as association lists. The order of the list stands for the order of
-- an iteration, which Go leaves open: statements over all lists cover every order.
use Prim.Native.String.{String}
use mathlib.Core.Option.{Option, none, some}
use mathlib.Core.List.{List, [], ◌∷◌, map}
use native.Mathlib.Omega.{arith}
use mathlib.Core.Path.{◌≡◌, refl, sym, subst}
use text.Mathlib.TextEquality.{eq_iff}
use text.Mathlib.TextPositions.{eq_refl}
use mathlib.Core.Logic.{inl, inr}
use mathlib.Core.Bool.{true, false, ◌||◌, false≢true}
use Prim.Native.Nat.{◌≤◌, ◌<◌}
use fishyume.Base.Lists.{contains, length, All, IsDistinct}
use fishyume.Base.Tests.{str_eq, Bool-cases, if◌then◌else◌}

module _ {ℓ} {V : Type ℓ} where
  -- `value, ok := m[k]`
  unfoldable pub lookup : (key : String) → List (String × V) → Option V
  lookup key [] = none
  lookup key ((other, value) ∷ entries) =
      if str_eq other key then some value else lookup key entries

  abbrev pub keys : List (String × V) → List String
  keys m = map (λ e. e.0) m

  pub lookup-absent :
      (key : String) (entries : List (String × V))
      → contains (keys entries) key ≡ false
      → lookup key entries ≡ none
  unfolding lookup contains
  lookup-absent key [] h = refl
  lookup-absent key ((other, value) ∷ entries) h = ground (arith, lookup-absent key entries)

  -- `m[k] = value`
  unfoldable pub put : (key : String) → V → List (String × V) → List (String × V)
  put key value [] = (key, value) ∷ []
  put key value ((other, old) ∷ entries) =
      let rest = put key value entries in
      if str_eq other key then (other, value) ∷ entries else (other, old) ∷ rest

  -- `delete(m, k)`
  unfoldable pub remove : (key : String) → List (String × V) → List (String × V)
  remove key [] = []
  remove key ((other, value) ∷ entries) =
      let rest = remove key entries in if str_eq other key then rest else (other, value) ∷ rest

  pub lookup-put :
      (key : String) (value : V) (entries : List (String × V))
      → lookup key (put key value entries) ≡ some value
  unfolding lookup put
  lookup-put key value [] = ground (arith, eq_refl key)
  lookup-put key value ((other, old) ∷ entries) = ground (arith, lookup-put key value entries)

  pub lookup-put-other :
      (key other : String) (value : V) (entries : List (String × V))
      → str_eq key other ≡ false
      → lookup other (put key value entries) ≡ lookup other entries
  unfolding lookup put
  lookup-put-other key other value [] h = ground arith
  lookup-put-other key other value ((first, old) ∷ entries) h =
      ground
        (arith, lookup-put-other key other value entries h, eq_iff first key, eq_iff first other)

  pub lookup-remove :
      (key : String) (entries : List (String × V)) → lookup key (remove key entries) ≡ none
  unfolding lookup remove
  lookup-remove key [] = refl
  lookup-remove key ((other, value) ∷ entries) = ground (arith, lookup-remove key entries)

  pub lookup-remove-other :
      (key other : String) (entries : List (String × V))
      → str_eq key other ≡ false
      → lookup other (remove key entries) ≡ lookup other entries
  unfolding lookup remove
  lookup-remove-other key other [] h = refl
  lookup-remove-other key other ((first, value) ∷ entries) h =
      ground (arith, lookup-remove-other key other entries h, eq_iff first key, eq_iff first other)

  pub contains-remove :
      (key x : String) (entries : List (String × V))
      → contains (keys entries) x ≡ false
      → contains (keys (remove key entries)) x ≡ false
  unfolding remove contains
  contains-remove key x [] h = refl
  contains-remove key x ((other, value) ∷ entries) h = ground (arith, contains-remove key x entries)

  pub remove-IsDistinct :
      (key : String) (entries : List (String × V))
      → IsDistinct (keys entries)
      → IsDistinct (keys (remove key entries))
  unfolding remove
  remove-IsDistinct key [] h = tt
  remove-IsDistinct key ((other, value) ∷ entries) h = elim (Bool-cases (str_eq other key)) [
    | inl same ↦ rw same (remove-IsDistinct key entries h.1)
    | inr differ ↦
        rw differ (contains-remove key other entries h.0, remove-IsDistinct key entries h.1)
  ]

  contains-put :
      (key x : String) (value : V) (entries : List (String × V))
      → contains (keys (put key value entries)) x ≡ (str_eq key x || contains (keys entries) x)
  unfolding put contains
  contains-put key x value [] = ground arith
  contains-put key x value ((other, old) ∷ entries) =
      ground (arith, contains-put key x value entries, eq_iff other key)

  pub put-IsDistinct :
      (key : String) (value : V) (entries : List (String × V))
      → IsDistinct (keys entries)
      → IsDistinct (keys (put key value entries))
  unfolding put contains
  put-IsDistinct key value [] h = (refl, tt)
  put-IsDistinct key value ((other, old) ∷ entries) h = elim (Bool-cases (str_eq other key)) [
    | inl same ↦ rw same h
    | inr differ ↦ rw differ (
      ground (arith, contains-put key other value entries, eq_iff key other, eq_iff other key, h.0),
      put-IsDistinct key value entries h.1,
    )
  ]

  length-remove-le :
      (key : String) (entries : List (String × V)) → length (remove key entries) ≤ length entries
  unfolding remove
  length-remove-le key [] = omega arith
  length-remove-le key (e ∷ entries) = ground (arith, length-remove-le key entries)

  pub length-remove-lt :
      (key : String) (entries : List (String × V))
      → contains (keys entries) key ≡ true
      → length (remove key entries) < length entries
  unfolding remove contains
  length-remove-lt key [] h = absurd (false≢true h)
  length-remove-lt key ((other, value) ∷ entries) h =
      ground (arith, length-remove-lt key entries, length-remove-le key entries)

  -- What holds of every entry holds of those that are left, and of those of a map with a new one.
  pub remove-All {κ} :
      (P : String × V → Type κ) (key : String) (entries : List (String × V))
      → All P entries
      → All P (remove key entries)
  unfolding remove
  remove-All P key [] h = tt
  remove-All P key ((other, value) ∷ entries) h = elim (Bool-cases (str_eq other key)) [
    | inl same ↦ rw same (remove-All P key entries h.1)
    | inr differ ↦ rw differ (h.0, remove-All P key entries h.1)
  ]

  pub put-All {κ} :
      (P : String × V → Type κ) (key : String) (value : V) (entries : List (String × V))
      → P (key, value)
      → All P entries
      → All P (put key value entries)
  unfolding put
  put-All P key value [] new h = (new, tt)
  put-All P key value ((other, old) ∷ entries) new h = elim (Bool-cases (str_eq other key)) [
    | inl same ↦ rw same (subst (λ k. P (k, value)) (sym ((eq_iff other key).0 same)) new, h.1)
    | inr differ ↦ rw differ (h.0, put-All P key value entries new h.1)
  ]
