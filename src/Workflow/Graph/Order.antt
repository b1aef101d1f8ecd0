-- ===== src/Workflow/Graph/Order.antt =====
-- The outer loop of `TopologicalOrder`: its invariant, its end, and what the order guarantees.
use text.Mathlib.TextEquality.{eq_iff}
use text.Mathlib.TextPositions.{eq_refl}
use fishyume.Base.{
  IsDistinct, ℕ, zero, suc, ◌+◌, ◌≤◌, ◌≡◌, refl, sym, subst, ◌∙◌, if◌then◌else◌, String, Bool, true,
  false, ◌&&◌, List, [], ◌∷◌, ◌++◌, arith, length, length-append, contains, count, one_if, str_lt,
  ◌==◌, ok, All,
}
use mathlib.Core.List.{append-nil, append_assoc}
use fishyume.Base.Assoc.{keys, lookup-absent}
use fishyume.Base.Sort.{sort_strings}
use fishyume.Base.Counts.{
  count-append, count-sort, contains→count, IsSubBag, IsSubBag-length, IsSubBag-whole,
}
use fishyume.Workflow.Model.{Node, Document, node_of}
use fishyume.Workflow.Graph.{
  Indegree, children_of, initial_indegree, initial_ready, release, drain, expect_length,
  topological_order,
}
use fishyume.Workflow.Graph.Release.{
  outstanding, outstanding-nil, outstanding-snoc, count-children_of, release-spends,
}

-- The node IDs of a document, which as the keys of a map are distinct.
abbrev pub ids : Document → List String
ids doc = keys doc.nodes

abbrev pub dependencies_of : Document → String → List String
dependencies_of doc id = (node_of doc id).depends_on

-- Whether a node is known and has no outstanding dependency.
abbrev pub is_settled : Document → List String → String → Bool
is_settled doc order x = contains (ids doc) x && (outstanding order (dependencies_of doc x) == 0)

-- Each ID stands behind all of its dependencies.
abbrev pub IsOrdered : Document → (seen : List String) → List String → Type 0
IsOrdered doc seen [] = Unit
IsOrdered doc seen (x ∷ xs) =
    All (λ d. contains seen d ≡ true) (dependencies_of doc x) × IsOrdered doc (seen ++ x ∷ []) xs

-- What holds between two rounds.
record Inv (doc : Document) (indegree : Indegree) (ready order : List String) : Type 0 where
  exact : (x : String) → indegree x ≡ outstanding order (dependencies_of doc x)
  queued : (x : String) → count x ready + count x order ≡ one_if (is_settled doc order x)
  ordered : IsOrdered doc [] order

-- What the order is when the queue is empty.
pub record IsFinal (doc : Document) (order : List String) : Type 0 where
  pub settled : (x : String) → count x order ≡ one_if (is_settled doc order x)
  pub ordered : IsOrdered doc [] order

outstanding-zero :
    (order ds : List String) → outstanding order ds ≡ 0 → All (λ d. contains order d ≡ true) ds
unfolding outstanding
outstanding-zero order [] h = tt
outstanding-zero order (d ∷ ds) h = (ground arith, outstanding-zero order ds (ground arith))

IsOrdered-snoc :
    (doc : Document) (seen xs : List String) (y : String)
    → IsOrdered doc seen xs
    → All (λ d. contains (seen ++ xs) d ≡ true) (dependencies_of doc y)
    → IsOrdered doc seen (xs ++ y ∷ [])
IsOrdered-snoc doc seen [] y h k = (rw append-nil at k, tt)
IsOrdered-snoc doc seen (x ∷ xs) y h k =
    (h.0, IsOrdered-snoc doc (seen ++ x ∷ []) xs y h.1 (rw (← append_assoc seen (x ∷ []) xs) at k))

pub settled-le_count :
    (doc : Document) (order : List String) (x : String)
    → one_if (is_settled doc order x) ≤ count x (ids doc)
settled-le_count doc order x = ground (arith, contains→count x (ids doc))

pub length-keys : (nodes : List (String × Node)) → length (keys nodes) ≡ length nodes
length-keys [] = refl
length-keys (e ∷ nodes) = omega (arith, length-keys nodes)

-- The queue and the order hold no more IDs than the document.
Inv-length :
    (doc : Document) (indegree : Indegree) (ready order : List String)
    → Inv doc indegree ready order
    → length ready + length order ≤ length doc.nodes
Inv-length doc indegree ready order inv =
    let inside : IsSubBag (ready ++ order) (ids doc) =
      λ x. omega (arith, count-append x ready order, inv.queued x, settled-le_count doc order x) in
    omega (
      arith,
      IsSubBag-length (ready ++ order) (ids doc) inside,
      length-append ready order,
      length-keys doc.nodes,
    )

-- The head of the queue is a settled node that is not in the order yet.
Inv-head :
    (doc : Document) (indegree : Indegree) (id : String) (ready order : List String)
    → Inv doc indegree (id ∷ ready) order
    → (is_settled doc order id ≡ true) × (contains order id ≡ false)
unfolding count
Inv-head doc indegree id ready order inv =
    ground (arith, inv.queued id, eq_refl id, contains→count id order)

module _ (doc : Document) (distinct : IsDistinct (ids doc)) where
  -- Appending a node to the order settles its children by as much as they name it.
  outstanding-children :
      (id : String) (order : List String) (x : String)
      → contains order id ≡ false
      → outstanding order (dependencies_of doc x)
        ≡ outstanding (order ++ id ∷ []) (dependencies_of doc x)
          + count x (children_of doc.nodes id)
  unfolding node_of
  outstanding-children id order x h = omega (
    arith,
    outstanding-snoc id order (dependencies_of doc x) h,
    count-children_of x id doc.nodes distinct,
  )

  count-unknown :
      (id x : String) → contains (ids doc) x ≡ false → count x (children_of doc.nodes id) ≡ 0
  unfolding count
  count-unknown id x h =
      ground (arith, count-children_of x id doc.nodes distinct, lookup-absent x doc.nodes)

  -- One round keeps the invariant.
  Inv-round :
      (indegree : Indegree) (id : String) (ready order : List String)
      → Inv doc indegree (id ∷ ready) order
      → let (next, more) = release (children_of doc.nodes id) indegree ready in
        Inv doc next more (order ++ id ∷ [])
  unfolding count
  Inv-round indegree id ready order inv =
      let (settled, fresh) = Inv-head doc indegree id ready order inv in
      let left : String → ℕ = λ x. outstanding (order ++ id ∷ []) (dependencies_of doc x) in
      let spends =
        release-spends left (children_of doc.nodes id) indegree ready
          (λ x. omega (arith, inv.exact x, outstanding-children id order x fresh)) in
      record {
        exact = λ x. (spends x).0;
        queued = λ x. ground (
          arith,
          (spends x).1,
          inv.queued x,
          outstanding-children id order x fresh,
          count-append x order (id ∷ []),
          count-unknown id x,
        );
        ordered =
            IsOrdered-snoc doc [] order id inv.ordered
              (outstanding-zero order (dependencies_of doc id) (ground arith));
      }

  drain-IsFinal :
      (fuel : ℕ) (indegree : Indegree) (ready order : List String)
      → Inv doc indegree ready order
      → length doc.nodes ≤ fuel + length order
      → (final : List String) × (drain fuel doc indegree ready order ≡ ok final) × IsFinal doc final
  unfolding drain count
  drain-IsFinal fuel indegree [] order inv h =
      (order, refl, record { settled = λ x. omega (arith, inv.queued x); ordered = inv.ordered })
  drain-IsFinal zero indegree (id ∷ ready) order inv h =
      absurd (omega (arith, Inv-length doc indegree (id ∷ ready) order inv))
  drain-IsFinal (suc fuel) indegree (id ∷ ready) order inv h =
      let (next, more) = release (children_of doc.nodes id) indegree ready in
      drain-IsFinal fuel next more (order ++ id ∷ []) (Inv-round indegree id ready order inv)
        (omega (arith, length-append order (id ∷ [])))

count-initial_ready :
    (x : String) (indegree : Indegree) (xs : List String)
    → count x (initial_ready indegree xs) ≡ (if indegree x == 0 then count x xs else 0)
unfolding count initial_ready
count-initial_ready x indegree [] = ground arith
count-initial_ready x indegree (id ∷ xs) =
    ground (arith, count-initial_ready x indegree xs, eq_iff id x)

pub count-distinct :
    (x : String) (xs : List String) → IsDistinct xs → count x xs ≡ one_if (contains xs x)
unfolding count contains
count-distinct x [] h = refl
count-distinct x (y ∷ ys) h = ground (arith, count-distinct x ys h.1, eq_iff y x)

start-Inv :
    (doc : Document)
    → IsDistinct (ids doc)
    → Inv doc
        (initial_indegree doc)
        (sort_strings (initial_ready (initial_indegree doc) (ids doc)))
        []
unfolding initial_indegree count
start-Inv doc distinct = record {
  exact = λ x. sym (outstanding-nil (dependencies_of doc x));
  queued = λ x. ground (
    arith,
    count-sort str_lt x (initial_ready (initial_indegree doc) (ids doc)),
    count-initial_ready x (initial_indegree doc) (ids doc),
    count-distinct x (ids doc) distinct,
    outstanding-nil (dependencies_of doc x),
  );
  ordered = tt;
}

-- For a document with distinct node IDs, the loop ends within its fuel: the result is an order that
-- holds each node whose dependencies it holds, each behind them, and only its length is left to judge.
pub topological_order-ends :
    (doc : Document)
    → IsDistinct (ids doc)
    → (final : List String) × (topological_order doc ≡ expect_length (length doc.nodes) final)
      × IsFinal doc final
unfolding topological_order
topological_order-ends doc distinct =
    let (final, drained, whole) =
      drain-IsFinal doc distinct (length doc.nodes) (initial_indegree doc) _ []
        (start-Inv doc distinct) (omega arith) in
    (final, rw drained, whole)

expect_length-eq-ok :
    (n : ℕ) (final : List String) {order : List String}
    → expect_length n final ≡ ok order
    → (final ≡ order) × (length final ≡ n)
expect_length-eq-ok n final e = ground arith

-- For a document with distinct node IDs, the order that `TopologicalOrder` returns holds each node of
-- the document exactly as often as the document does, and each node behind all the nodes that it
-- depends on.
pub topological_order_sound :
    (doc : Document) (order : List String)
    → IsDistinct (ids doc)
    → topological_order doc ≡ ok order
    → ((x : String) → count x order ≡ count x (ids doc)) × IsOrdered doc [] order
topological_order_sound doc order distinct e =
    let (final, ends, whole) = topological_order-ends doc distinct in
    let (same, full) = expect_length-eq-ok (length doc.nodes) final (sym ends ∙ e) in
    subst (λ o. ((x : String) → count x o ≡ count x (ids doc)) × IsOrdered doc [] o) same
      (
        IsSubBag-whole final (ids doc)
            (λ x. omega (arith, whole.settled x, settled-le_count doc final x))
            (omega (arith, full, length-keys doc.nodes)),
        whole.ordered,
      )
