-- ===== src/Workflow/Ancestors/Reachable.antt =====
-- `ancestors` finds exactly the nodes that a chain of dependencies reaches.
use text.Mathlib.TextEquality.{eq_iff}
use text.Mathlib.TextPositions.{eq_refl}
use fishyume.Base.{
  ℕ, zero, suc, ◌+◌, ◌≤◌, ◌<◌, ◌≡◌, refl, sym, subst, ap, String, true, false, not, List, [], ◌∷◌,
  arith, length, contains, str_eq, one_if, if◌then◌else◌, Bool-cases, inl, inr, ◌⊎◌, All,
  All-contains, ◌↔◌,
}
use mathlib.Core.Bool.{false≢true}
use fishyume.Base.Assoc.{lookup-absent}
use fishyume.Workflow.Model.{Document, node_of, or_zero}
use fishyume.Workflow.Graph.Order.{ids, dependencies_of, length-keys}
use fishyume.Workflow.Ancestors.{visit_each, visit, ancestors}

-- A chain of dependencies from a node.
pub data Reaches (doc : Document) : (id ancestor : String) → Type 0 where
  direct :
      {id ancestor : String}
      → contains (dependencies_of doc id) ancestor ≡ true
      → Reaches doc id ancestor
  through :
      {id between ancestor : String}
      → contains (dependencies_of doc id) between ≡ true
      → Reaches doc between ancestor
      → Reaches doc id ancestor

-- How many of the nodes the search has not seen.
unfoldable pub unseen : (result : List String) → List String → ℕ
unseen result [] = 0
unseen result (x ∷ xs) = one_if (not (contains result x)) + unseen result xs

unseen-cons-le : (d : String) (result xs : List String) → unseen (d ∷ result) xs ≤ unseen result xs
unfolding unseen contains
unseen-cons-le d result [] = omega arith
unseen-cons-le d result (x ∷ xs) = ground (arith, unseen-cons-le d result xs)

unseen-cons-lt :
    (d : String) (result xs : List String)
    → contains xs d ≡ true
    → contains result d ≡ false
    → unseen (d ∷ result) xs < unseen result xs
unfolding unseen contains
unseen-cons-lt d result [] h n = absurd (cc)
unseen-cons-lt d result (x ∷ xs) h n =
    ground (arith, unseen-cons-lt d result xs, unseen-cons-le d result xs, eq_iff x d, eq_refl d)

unseen-le : (result xs : List String) → unseen result xs ≤ length xs
unfolding unseen
unseen-le result [] = omega arith
unseen-le result (x ∷ xs) = ground (arith, unseen-le result xs)

-- Every text of one list is in another one.
abbrev pub IsIncluded : List String → List String → Type 0
IsIncluded xs ys = (x : String) → contains xs x ≡ true → contains ys x ≡ true

unseen_mono : (a b xs : List String) → IsIncluded a b → unseen b xs ≤ unseen a xs
unfolding unseen
unseen_mono a b [] h = omega arith
unseen_mono a b (x ∷ xs) h = ground (arith, unseen_mono a b xs h, h x)

pub contains-All :
    (P : String → Type 0) (xs : List String)
    → ((x : String) → contains xs x ≡ true → P x)
    → All P xs
unfolding contains
contains-All P [] h = tt
contains-All P (x ∷ xs) h =
    (h x (ground (arith, eq_refl x)), contains-All P xs (λ y found. h y (ground arith)))

module _ (doc : Document) where
  Reaches-snoc :
      (id between ancestor : String)
      → Reaches doc id between
      → contains (dependencies_of doc between) ancestor ≡ true
      → Reaches doc id ancestor
  Reaches-snoc id between ancestor (direct h) k = through h (direct k)
  Reaches-snoc id between ancestor (through {between = middle} h rest) k =
      through h (Reaches-snoc middle between ancestor rest k)

  module _ (P : String → Type 0)
      (step : (x d : String) → P x → contains (dependencies_of doc x) d ≡ true → P d) where
    visit_each-All :
        (go : String → List String → List String)
        → ((d : String) (r : List String) → P d → All P r → All P (go d r))
        → (ds result : List String) → All P ds
        → All P result
        → All P (visit_each go ds result)
    unfolding visit_each
    visit_each-All go spec [] result hs h = h
    visit_each-All go spec (d ∷ ds) result hs h =
        visit_each-All go spec ds (if contains result d then result else go d (d ∷ result)) hs.1
          (elim (Bool-cases (contains result d)) [
            | inl seen ↦ rw seen h
            | inr new ↦ rw new (spec d (d ∷ result) hs.0 (hs.0, h))
          ])

    visit-All :
        (fuel : ℕ) (id : String) (result : List String)
        → ((d : String) → contains (dependencies_of doc id) d ≡ true → P d)
        → All P result
        → All P (visit fuel doc id result)
    unfolding visit
    visit-All zero id result hs h = h
    visit-All (suc fuel) id result hs h =
        visit_each-All (visit fuel doc)
          (λ d r p q. visit-All fuel d r (λ e found. step d e p found) q) (dependencies_of doc id)
          result (contains-All P (dependencies_of doc id) hs) h

  -- What a search adds is closed under dependencies.
  record Extends (result out : List String) : Type 0 where
    grows : IsIncluded result out
    closed :
        (x : String)
        → contains out x ≡ true
        → (contains result x ≡ true) ⊎ IsIncluded (dependencies_of doc x) out

  Extends-refl : (result : List String) → Extends result result
  Extends-refl result = record { grows = λ x h. h; closed = λ x h. inl h }

  Extends-trans : (a b c : List String) → Extends a b → Extends b c → Extends a c
  Extends-trans a b c h k = record {
    grows = λ x m. k.grows x (h.grows x m);
    closed = λ x m. elim (k.closed x m) [
      | inr below ↦ inr below
      | inl old ↦ elim (h.closed x old) [
        | inl older ↦ inl older
        | inr below ↦ inr (λ d n. k.grows d (below d n))
      ]
    ];
  }

  Extends-cons :
      (d : String) (result out : List String)
      → Extends (d ∷ result) out
      → IsIncluded (dependencies_of doc d) out
      → Extends result out × (contains out d ≡ true)
  unfolding contains
  Extends-cons d result out h k = (
    record {
      grows = λ x m. h.grows x (ground arith);
      closed = λ x m. elim (h.closed x m) [
        | inr below ↦ inr below
        | inl old ↦ elim (Bool-cases (str_eq d x)) [
          | inl same ↦
              inr (subst (λ y. IsIncluded (dependencies_of doc y) out) ((eq_iff d x).0 same) k)
          | inr other ↦ inl (ground arith)
        ]
      ];
    },
    h.grows d (ground (arith, eq_refl d)),
  )

  -- A recursive call on a new node.
  abbrev Visits : ℕ → (String → List String → List String) → Type 0
  Visits n go =
      (d : String) (r : List String)
      → unseen r (ids doc) ≤ n
      → contains r d ≡ false
      → Extends (d ∷ r) (go d (d ∷ r)) × IsIncluded (dependencies_of doc d) (go d (d ∷ r))

  abbrev after : (String → List String → List String) → String → List String → List String
  after go d result = if contains result d then result else go d (d ∷ result)

  after-Extends :
      (n : ℕ) (go : String → List String → List String)
      → Visits n go
      → (d : String) (result : List String) → unseen result (ids doc) ≤ n
      → Extends result (after go d result) × (contains (after go d result) d ≡ true)
  after-Extends n go spec d result u = elim (Bool-cases (contains result d)) [
    | inl seen ↦ rw seen (Extends-refl result, seen)
    | inr new ↦
        let (extends, below) = spec d result u new in
        rw new (Extends-cons d result (go d (d ∷ result)) extends below)
  ]

  visit_each-Extends :
      (n : ℕ) (go : String → List String → List String)
      → Visits n go
      → (ds result : List String) → unseen result (ids doc) ≤ n
      → Extends result (visit_each go ds result) × IsIncluded ds (visit_each go ds result)
  unfolding visit_each contains
  visit_each-Extends n go spec [] result u = (Extends-refl result, λ x h. cc)
  visit_each-Extends n go spec (d ∷ ds) result u =
      let (first, found) = after-Extends n go spec d result u in
      let (rest, others) =
        visit_each-Extends n go spec ds (after go d result)
          (omega (arith, u, unseen_mono result (after go d result) (ids doc) first.grows)) in
      (
        Extends-trans result (after go d result) (visit_each go ds (after go d result)) first rest,
        λ x h. elim (Bool-cases (str_eq d x)) [
          | inl same ↦
              subst (λ y. contains (visit_each go ds (after go d result)) y ≡ true)
                ((eq_iff d x).0 same) (rest.grows d found)
          | inr other ↦ others x (ground arith)
        ],
      )

  -- A node that is not in the document has no dependencies.
  pub no_dependencies : (d : String) → contains (ids doc) d ≡ false → dependencies_of doc d ≡ []
  unfolding node_of
  no_dependencies d h = ap (λ o. (or_zero o).depends_on) (lookup-absent d doc.nodes h)

  visit-nothing :
      (fuel : ℕ) (d : String) (result : List String)
      → dependencies_of doc d ≡ []
      → visit fuel doc d result ≡ result
  unfolding visit visit_each
  visit-nothing zero d result h = refl
  visit-nothing (suc fuel) d result h = rw h refl

  visit-Visits :
      (fuel : ℕ)
      → ((id : String) (result : List String)
          → unseen result (ids doc) < fuel
          → Extends result (visit fuel doc id result)
            × IsIncluded (dependencies_of doc id) (visit fuel doc id result))
      → Visits fuel (visit fuel doc)
  unfolding contains
  visit-Visits fuel spec d r u new = elim (Bool-cases (contains (ids doc) d)) [
    | inl known ↦ spec d (d ∷ r) (omega (arith, u, unseen-cons-lt d r (ids doc) known new))
    | inr unknown ↦
        let nothing = no_dependencies d unknown in
        (
          subst (Extends (d ∷ r)) (sym (visit-nothing fuel d (d ∷ r) nothing))
              (Extends-refl (d ∷ r)),
          λ x h. absurd (false≢true (subst (λ xs. contains xs x ≡ true) nothing h)),
        )
  ]

  visit-Extends :
      (fuel : ℕ) (id : String) (result : List String)
      → unseen result (ids doc) < fuel
      → Extends result (visit fuel doc id result)
        × IsIncluded (dependencies_of doc id) (visit fuel doc id result)
  unfolding visit
  visit-Extends zero id result u = absurd (omega arith)
  visit-Extends (suc fuel) id result u =
      visit_each-Extends fuel (visit fuel doc) (visit-Visits fuel (visit-Extends fuel))
        (dependencies_of doc id) result (omega (arith, u))

  -- From a closed set that holds the dependencies of a node, no chain leads out.
  pub Reaches-closed :
      (out : List String)
      → ((x : String) → contains out x ≡ true → IsIncluded (dependencies_of doc x) out)
      → (id ancestor : String) → IsIncluded (dependencies_of doc id) out
      → Reaches doc id ancestor
      → contains out ancestor ≡ true
  Reaches-closed out closed id ancestor h (direct k) = h ancestor k
  Reaches-closed out closed id ancestor h (through {between = between} k rest) =
      Reaches-closed out closed between ancestor (closed between (h between k)) rest

-- `ancestors` holds exactly the nodes that some chain of dependencies reaches, in any document, with
-- cycles or missing nodes too: its fuel is enough.
pub ancestors-Reaches :
    (doc : Document) (id ancestor : String)
    → (contains (ancestors doc id) ancestor ≡ true) ↔ Reaches doc id ancestor
unfolding ancestors contains
ancestors-Reaches doc id ancestor =
    let (extends, below) =
      visit-Extends doc (suc (suc (length doc.nodes))) id []
        (omega (arith, unseen-le [] (ids doc), length-keys doc.nodes)) in
    (
      λ h.
          All-contains (Reaches doc id) (ancestors doc id) ancestor
            (visit-All doc (Reaches doc id) (Reaches-snoc doc id) (suc (suc (length doc.nodes))) id
              [] (λ d found. direct found) tt)
            h,
      λ h.
          Reaches-closed doc (ancestors doc id)
            (λ x found. elim (extends.closed x found) [
              | inl old ↦ absurd (false≢true old)
              | inr b ↦ b
            ])
            id ancestor below h,
    )
