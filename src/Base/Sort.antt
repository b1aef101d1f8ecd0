-- ===== src/Base/Sort.antt =====
-- `sort.Strings` and `sort.SliceStable`: a stable insertion sort. Go fixes the result of a stable
-- sort, and of a sort by a total order, whatever the algorithm.
use Prim.Native.String.{String}
use mathlib.Core.Path.{◌≡◌}
use mathlib.Core.Bool.{Bool, true, false}
use mathlib.Core.List.{List, [], ◌∷◌, Perm}
use mathlib.Core.List.Perm
use mathlib.Core.Logic.{inl, inr}
use fishyume.Base.Tests.{str_lt, if◌then◌else◌, Bool-cases}
use fishyume.Base.Lists.{All, All-map}

module _ {ℓ} {A : Type ℓ} (less : A → A → Bool) where
  -- An element goes before the first one that it precedes strictly.
  unfoldable pub insert_sorted : A → List A → List A
  insert_sorted a [] = a ∷ []
  insert_sorted a (x ∷ xs) = if less x a then x ∷ insert_sorted a xs else a ∷ x ∷ xs

  -- The last element goes in first, so an element lands before its equals: the order is stable.
  unfoldable pub sort : List A → List A
  sort [] = []
  sort (x ∷ xs) = insert_sorted x (sort xs)

  pub insert_sorted-perm : (a : A) (xs : List A) → Perm (insert_sorted a xs) (a ∷ xs)
  unfolding insert_sorted
  insert_sorted-perm a [] = Perm.refl _
  insert_sorted-perm a (x ∷ xs) = elim (Bool-cases (less x a)) [
    | inl lower ↦ rw lower (Perm.trans (Perm.cons x (insert_sorted-perm a xs)) (Perm.swap a x xs))
    | inr upper ↦ rw upper (Perm.refl _)
  ]

  pub sort-perm : (xs : List A) → Perm (sort xs) xs
  unfolding sort
  sort-perm [] = Perm.refl []
  sort-perm (x ∷ xs) = Perm.trans (insert_sorted-perm x (sort xs)) (Perm.cons x (sort-perm xs))

  pub insert_sorted-All {κ} :
      (P : A → Type κ) (a : A) (xs : List A) → P a → All P xs → All P (insert_sorted a xs)
  unfolding insert_sorted
  insert_sorted-All P a [] pa h = (pa, tt)
  insert_sorted-All P a (x ∷ xs) pa h = elim (Bool-cases (less x a)) [
    | inl lower ↦ rw lower (h.0, insert_sorted-All P a xs pa h.1)
    | inr upper ↦ rw upper (pa, h)
  ]

  -- What holds of every element holds of every element of the sorted list.
  pub sort-All {κ} : (P : A → Type κ) (xs : List A) → All P xs → All P (sort xs)
  unfolding sort
  sort-All P [] h = tt
  sort-All P (x ∷ xs) h = insert_sorted-All P x (sort xs) h.0 (sort-All P xs h.1)

  insert_sorted-All_inv {κ} :
      (P : A → Type κ) (a : A) (xs : List A) → All P (insert_sorted a xs) → P a × All P xs
  unfolding insert_sorted
  insert_sorted-All_inv P a [] h = h
  insert_sorted-All_inv P a (x ∷ xs) h = elim (Bool-cases (less x a)) [
    | inl lower ↦
        let h' : P x × All P (insert_sorted a xs) = rw lower at h in
        let (pa, rest) = insert_sorted-All_inv P a xs h'.1 in (pa, (h'.0, rest))
    | inr upper ↦ rw upper at h
  ]

  -- What holds of every element of the sorted list holds of every element of the list.
  pub sort-All_inv {κ} : (P : A → Type κ) (xs : List A) → All P (sort xs) → All P xs
  unfolding sort
  sort-All_inv P [] h = tt
  sort-All_inv P (x ∷ xs) h =
      let (px, rest) = insert_sorted-All_inv P x (sort xs) h in (px, sort-All_inv P xs rest)

  -- No element stands behind one that it precedes.
  abbrev pub IsSorted : List A → Type 0
  IsSorted [] = Unit
  IsSorted (x ∷ xs) = All (λ y. less y x ≡ false) xs × IsSorted xs

  -- What a comparison owes a sort: `less` is asymmetric, and being no less is transitive.
  pub record IsWeakOrder : Type ℓ where
    pub asymmetric : (a b : A) → less a b ≡ true → less b a ≡ false
    pub negatively_transitive : (a b c : A) → less b a ≡ false → less c b ≡ false → less c a ≡ false

  module _ (order : IsWeakOrder) where
    insert_sorted-IsSorted : (a : A) (xs : List A) → IsSorted xs → IsSorted (insert_sorted a xs)
    unfolding insert_sorted
    insert_sorted-IsSorted a [] h = (tt, tt)
    insert_sorted-IsSorted a (x ∷ xs) h = elim (Bool-cases (less x a)) [
      | inl lower ↦ rw lower (
        insert_sorted-All (λ y. less y x ≡ false) a xs (order.asymmetric x a lower) h.0,
        insert_sorted-IsSorted a xs h.1,
      )
      | inr upper ↦ rw upper (
        (
          upper,
          All-map (λ y. less y x ≡ false) (λ y. less y a ≡ false) xs
              (λ y. order.negatively_transitive a x y upper) h.0,
        ),
        h,
      )
    ]

    pub sort-IsSorted : (xs : List A) → IsSorted (sort xs)
    unfolding sort
    sort-IsSorted [] = tt
    sort-IsSorted (x ∷ xs) = insert_sorted-IsSorted x (sort xs) (sort-IsSorted xs)

abbrev pub sort_strings : List String → List String
sort_strings = sort str_lt
