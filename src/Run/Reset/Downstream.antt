-- ===== src/Run/Reset/Downstream.antt =====
-- wf-engine/internal/run/service.go, `planDownstreamReset`: the nodes that it goes through are exactly
-- those that depend on the target, directly or through others.
use text.Mathlib.TextEquality.{eq_iff}
use text.Mathlib.TextPositions.{eq_refl}
use mathlib.Core.Bool.{false≢true}
use fishyume.Base.{
  ◌≡◌, refl, sym, subst, ◌∙◌, String, true, false, not, ◌&&◌, List, [], ◌∷◌, ◌++◌, arith, contains,
  contains-append, str_eq, str_lt, All, All-contains, Bool-cases, inl, inr, ◌⊎◌, ◌↔◌, if◌then◌else◌,
}
use mathlib.Core.List.{append-nil, append_assoc}
use fishyume.Base.Sort.{sort_strings}
use fishyume.Base.Counts.{count-sort, contains→count, count→contains}
use fishyume.Workflow.Model.{Document, node_of}
use fishyume.Workflow.Graph.Order.{ids, dependencies_of, IsOrdered}
use fishyume.Workflow.Ancestors.Reachable.{Reaches, direct, through, no_dependencies}
use fishyume.Workflow.Validate.Sound.{IsValidDocument}
use fishyume.Run.Reset.{depends_on_any, mark_descendants, without, downstream_ids}

module _ (doc : Document) (target : String) where
  -- The target, or a node that depends on it.
  abbrev IsBehind : String → Type 0
  IsBehind x = (x ≡ target) ⊎ Reaches doc x target

  depends-Reaches :
      (x : String) (found ds : List String)
      → All IsBehind found
      → ((d : String) → contains ds d ≡ true → contains (dependencies_of doc x) d ≡ true)
      → depends_on_any found ds ≡ true
      → Reaches doc x target
  unfolding contains
  depends-Reaches x found [] behind inside h = absurd (false≢true h)
  depends-Reaches x found (d ∷ ds) behind inside h = elim (Bool-cases (contains found d)) [
    | inr other ↦ depends-Reaches x found ds behind (λ e m. inside e (ground arith)) (ground arith)
    | inl known ↦
        let depends = inside d (ground (arith, eq_refl d)) in
        elim (All-contains IsBehind found d behind known) [
          | inl same ↦ direct (subst (λ y. contains (dependencies_of doc x) y ≡ true) same depends)
          | inr chain ↦ through depends chain
        ]
  ]

  mark-IsBehind :
      (order found : List String)
      → All IsBehind found
      → All IsBehind (mark_descendants doc order found)
  unfolding mark_descendants
  mark-IsBehind [] found h = h
  mark-IsBehind (id ∷ order) found h =
      elim (Bool-cases
        (depends_on_any found (node_of doc id).depends_on && not (contains found id))) [
          | inr no_more ↦ rw no_more (mark-IsBehind order found h)
          | inl more ↦ rw more (
              mark-IsBehind order (id ∷ found) (
                inr (depends-Reaches id found (dependencies_of doc id) h (λ d m. m) (ground arith)),
                h,
              ))
        ]

  depends-any :
      (found ds : List String) (d : String)
      → contains ds d ≡ true
      → contains found d ≡ true
      → depends_on_any found ds ≡ true
  unfolding contains
  depends-any found [] d h k = absurd (false≢true h)
  depends-any found (e ∷ ds) d h k = ground (arith, depends-any found ds d, eq_iff e d)

  -- Every node behind the target of those that the pass has gone through is found.
  abbrev HasFound : (seen found : List String) → Type 0
  HasFound seen found =
      (contains found target ≡ true)
      × ((x : String) → contains seen x ≡ true → Reaches doc x target → contains found x ≡ true)

  chain-depends :
      (id : String) (seen found : List String)
      → HasFound seen found
      → All (λ d. contains seen d ≡ true) (dependencies_of doc id)
      → Reaches doc id target
      → depends_on_any found (dependencies_of doc id) ≡ true
  chain-depends id seen found has below (direct h) =
      depends-any found (dependencies_of doc id) target h has.0
  chain-depends id seen found has below (through {between = between} h rest) =
      depends-any found (dependencies_of doc id) between h (
        has.1 between
          (All-contains (λ d. contains seen d ≡ true) (dependencies_of doc id) between below h)
          rest)

  mark-HasFound :
      (seen order found : List String)
      → HasFound seen found
      → IsOrdered doc seen order
      → HasFound (seen ++ order) (mark_descendants doc order found)
  unfolding mark_descendants contains
  mark-HasFound seen [] found has ordered = rw append-nil has
  mark-HasFound seen (id ∷ order) found has ordered =
      let marked =
        if depends_on_any found (node_of doc id).depends_on && not (contains found id)
        then id ∷ found
        else found in
      let next : HasFound (seen ++ id ∷ []) marked = (
        ground (arith, has.0),
        λ x h chain. elim (Bool-cases (contains seen x)) [
          | inl old ↦ ground (arith, has.1 x old chain)
          | inr new ↦
              let same : id ≡ x =
                (eq_iff id x).0 (ground (arith, contains-append seen (id ∷ []) x)) in
              let depends =
                chain-depends id seen found has ordered.0
                  (subst (λ y. Reaches doc y target) (sym same) chain) in
              subst (λ y. contains marked y ≡ true) same (ground (arith, eq_refl id))
        ],
      ) in
      subst (λ xs. HasFound xs (mark_descendants doc order marked))
        (append_assoc seen (id ∷ []) order)
        (mark-HasFound (seen ++ id ∷ []) order marked next ordered.1)

pub contains-without :
    (target x : String) (xs : List String)
    → contains (without target xs) x ≡ (contains xs x && not (str_eq x target))
unfolding without contains
contains-without target x [] = refl
contains-without target x (y ∷ ys) = ground (arith, contains-without target x ys, eq_iff y x)

pub contains-sort : (x : String) (xs : List String) → contains (sort_strings xs) x ≡ contains xs x
contains-sort x xs = ground (
  arith,
  count-sort str_lt x xs,
  contains→count x xs,
  count→contains x xs,
  contains→count x (sort_strings xs),
  count→contains x (sort_strings xs),
)

-- Only a node of the document has dependencies.
dependent-known :
    (doc : Document) (x d : String)
    → contains (dependencies_of doc x) d ≡ true
    → contains (ids doc) x ≡ true
unfolding contains
dependent-known doc x d h = elim (Bool-cases (contains (ids doc) x)) [
  | inl known ↦ known
  | inr unknown ↦
      absurd (false≢true (subst (λ ds. contains ds d ≡ true) (no_dependencies doc x unknown) h))
]

source-known : (doc : Document) (x y : String) → Reaches doc x y → contains (ids doc) x ≡ true
source-known doc x y (direct h) = dependent-known doc x y h
source-known doc x y (through {between = between} h rest) = dependent-known doc x between h

-- In a valid document with its order, the nodes that `planDownstreamReset` goes through are exactly
-- those from which a chain of dependencies leads to the target.
pub downstream_ids-Reaches :
    (doc : Document) (order : List String) (target x : String)
    → IsValidDocument doc order
    → (contains (downstream_ids doc order target) x ≡ true) ↔ Reaches doc x target
unfolding downstream_ids contains
downstream_ids-Reaches doc order target x valid =
    let found = mark_descendants doc order (target ∷ []) in
    let same : contains (downstream_ids doc order target) x
        ≡ (contains found x && not (str_eq x target)) =
      contains-sort x (without target found) ∙ contains-without target x found in
    let behind = mark-IsBehind doc target order (target ∷ []) (inl refl, tt) in
    let has : HasFound doc target order found =
      mark-HasFound doc target [] order (target ∷ [])
        (ground (arith, eq_refl target), λ y h chain. absurd (false≢true h)) valid.ordered in
    (
      λ h.
          let marked : contains found x ≡ true = ground (arith, same) in
          let other : str_eq x target ≡ false = ground (arith, same) in
          elim (All-contains (IsBehind doc target) found x behind marked) [
            | inr chain ↦ chain
            | inl itself ↦ absurd (false≢true (sym other ∙ (eq_iff x target).1 itself))
          ],
      λ chain.
          let known = source-known doc x target chain in
          let placed =
            count→contains x order (ground (arith, valid.complete x, contains→count x (ids doc))) in
          let marked = has.1 x placed chain in
          elim (Bool-cases (str_eq x target)) [
            | inl itself ↦ absurd (
                valid.acyclic target
                  (subst (λ y. Reaches doc y target) ((eq_iff x target).0 itself) chain))
            | inr other ↦ ground (arith, same, marked, other)
          ],
    )
