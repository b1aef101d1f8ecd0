-- ===== src/Run/Plan/Downstream.antt =====
-- wf-engine/internal/run/service.go, `planDownstreamReset`: what the mutations of a reset are.
use text.Mathlib.TextPositions.{eq_refl}
use fishyume.Base.{
  ℕ, suc, ◌≤◌, ◌≡◌, refl, sym, subst, ap, ◌∙◌, String, Bool, true, false, not, ◌&&◌, List, [], ◌∷◌,
  some, Outcome, ok, arith, contains, count, is_nil, str_eq, str_lt, IsDistinct, Bool-cases, inl,
  inr, ◌⊎◌, if◌then◌else◌,
}
use fishyume.Base.Sort.{sort_strings}
use fishyume.Base.Counts.{count-sort, contains→count}
use fishyume.Base.Assoc.{lookup}
use fishyume.Workflow.Model.{Document, node_of}
use fishyume.Workflow.Graph.Order.{count-distinct}
use fishyume.Run.State.{NodeSnapshot, is_skipped}
use fishyume.Run.Disk.{Disk, Act, ActionError, NodeMutation, read_node, read_node-eq-ok, >>=-eq-ok}
use fishyume.Run.Intent.Progress.{AllAt, ids_of}
use fishyume.Run.Reset.{
  depends_on_any, mark_descendants, without, downstream_ids, reset_node, reset_each,
}
use fishyume.Run.Reset.Downstream.{contains-without, contains-sort}

-- Every node is stored under its ID.
abbrev pub IsKeyed : Disk → Type 0
IsKeyed d = (id : String) (node : NodeSnapshot) → lookup id d.nodes ≡ some node → node.id ≡ id

count-IsDistinct : (xs : List String) → ((x : String) → count x xs ≤ 1) → IsDistinct xs
unfolding count
count-IsDistinct [] h = tt
count-IsDistinct (x ∷ xs) h = (
  ground (arith, h x, eq_refl x, contains→count x xs),
  count-IsDistinct xs (λ y. ground (arith, h y)),
)

sort-IsDistinct : (xs : List String) → IsDistinct xs → IsDistinct (sort_strings xs)
sort-IsDistinct xs h =
    count-IsDistinct (sort_strings xs)
      (λ x. ground (arith, count-sort str_lt x xs, count-distinct x xs h))

without-IsDistinct :
    (target : String) (xs : List String) → IsDistinct xs → IsDistinct (without target xs)
unfolding without
without-IsDistinct target [] h = tt
without-IsDistinct target (x ∷ xs) h = elim (Bool-cases (str_eq x target)) [
  | inl same ↦ rw same (without-IsDistinct target xs h.1)
  | inr other ↦
      rw other (ground (arith, contains-without target x xs, h.0), without-IsDistinct target xs h.1)
]

mark-IsDistinct :
    (doc : Document) (order found : List String)
    → IsDistinct found
    → IsDistinct (mark_descendants doc order found)
unfolding mark_descendants
mark-IsDistinct doc [] found h = h
mark-IsDistinct doc (id ∷ order) found h =
    elim (Bool-cases
      (depends_on_any found (node_of doc id).depends_on && not (contains found id))) [
        | inl more ↦ rw more (mark-IsDistinct doc order (id ∷ found) (ground arith, h))
        | inr no_more ↦ rw no_more (mark-IsDistinct doc order found h)
      ]

pub downstream-IsDistinct :
    (doc : Document) (order : List String) (target : String)
    → IsDistinct (downstream_ids doc order target)
unfolding downstream_ids contains
downstream-IsDistinct doc order target =
    sort-IsDistinct (without target (mark_descendants doc order (target ∷ []))) (
      without-IsDistinct target (mark_descendants doc order (target ∷ []))
        (mark-IsDistinct doc order (target ∷ []) (refl, tt)))

pub downstream-target :
    (doc : Document) (order : List String) (target : String)
    → contains (downstream_ids doc order target) target ≡ false
unfolding downstream_ids
downstream-target doc order target =
    let marked = mark_descendants doc order (target ∷ []) in
    ground (
      arith,
      contains-sort target (without target marked),
      contains-without target target marked,
      eq_refl target,
    )

-- What the loop over the nodes downstream returns.
pub record IsReset (d e : Disk) (ids : List String) (ms : List NodeMutation) : Type 0 where
  pub same : e ≡ d
  pub at : (index : ℕ) → AllAt d.nodes 0 index ms
  pub inside : (x : String) → contains ids x ≡ false → contains (ids_of ms) x ≡ false
  pub distinct : IsDistinct ids → IsDistinct (ids_of ms)

pub reset_each-IsReset :
    (now : ℕ) (ids : List String) (d e : Disk) (ms : List NodeMutation)
    → IsKeyed d
    → reset_each now ids d ≡ (ok ms, e)
    → IsReset d e ids ms
unfolding reset_each contains
reset_each-IsReset now [] d e ms keyed h =
    let none_left : [] ≡ ms = ground (arith, h) in
    let same : d ≡ e = ap (λ p. p.1) h in
    subst (IsReset d e []) none_left
      (record { same = sym same; at = λ index. tt; inside = λ x k. refl; distinct = λ k. tt })
reset_each-IsReset now (id ∷ ids) d e ms keyed h =
    let (node, c, read, h1) = >>=-eq-ok (read_node id) _ d h in
    let (found, unread) = read_node-eq-ok id d read in
    let (rest, c1, ran, h2) = >>=-eq-ok (reset_each now ids) _ c h1 in
    let others =
      reset_each-IsReset now ids d c1 rest keyed
        (ap (λ b. reset_each now ids b) (sym unread) ∙ ran) in
    let own = keyed id node found in
    let same : e ≡ d = sym (ap (λ p. p.1) h2) ∙ others.same in
    let m : NodeMutation = record { before = node; after = reset_node now node } in
    elim (Bool-cases (is_skipped node.phase)) [
      | inr kept ↦
          let all : rest ≡ ms = ground (arith, h2, kept) in
          subst (IsReset d e (id ∷ ids)) all (record {
            same = same;
            at = others.at;
            inside = λ x k. others.inside x (ground arith);
            distinct = λ k. others.distinct k.1;
          })
      | inl skipped ↦
          let all : m ∷ rest ≡ ms = ground (arith, h2, skipped) in
          subst (IsReset d e (id ∷ ids)) all (record {
            same = same;
            at = λ index. (
              (refl, inr (ap (λ i. lookup i d.nodes) own ∙ found, omega arith)),
              others.at (suc index),
            );
            inside = λ x k. ground (arith, others.inside x, own);
            distinct = λ k. (
              subst (λ i. contains (ids_of rest) i ≡ false) (sym own) (others.inside id k.0),
              others.distinct k.1,
            );
          })
    ]

-- The mutations of a plan: there are some, of distinct nodes, which are as before.
pub record IsPlanned (d e : Disk) (ms : List NodeMutation) : Type 0 where
  pub untouched : e ≡ d
  pub filled : is_nil ms ≡ false
  pub at : AllAt d.nodes 0 0 ms
  pub distinct : IsDistinct (ids_of ms)

pub either-branch :
    {A : Type 0} (b : Bool) (m n : Act A) (d : Disk) {p : Outcome ActionError A × Disk}
    → (if b then m else n) d ≡ p
    → (m d ≡ p) ⊎ (n d ≡ p)
either-branch true m n d h = inl h
either-branch false m n d h = inr h
