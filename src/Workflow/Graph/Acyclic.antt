-- ===== src/Workflow/Graph/Acyclic.antt =====
-- `TopologicalOrder` accepts every document without dependency cycles.
use fishyume.Base.{
  IsDistinct, ℕ, zero, suc, ◌<◌, ◌≡◌, refl, ◌∙◌, String, true, List, [], ◌∷◌, arith, length,
  contains, ok, All, All-map,
}
use fishyume.Base.Counts.{contains→count, count→contains, IsSubBag, IsSubBag-length}
use fishyume.Workflow.Model.{Document}
use fishyume.Workflow.Graph.{topological_order}
use fishyume.Workflow.Graph.Release.{outstanding}
use fishyume.Workflow.Graph.Order.{
  ids, dependencies_of, IsFinal, topological_order-ends, count-distinct, length-keys,
  settled-le_count,
}

-- A rank that falls along every dependency, and dependencies that are nodes: no cycles.
pub record IsAcyclic (doc : Document) (rank : String → ℕ) : Type 0 where
  pub known :
      (x : String)
      → contains (ids doc) x ≡ true
      → All (λ d. (contains (ids doc) d ≡ true) × (rank d < rank x)) (dependencies_of doc x)

outstanding-All :
    (order ds : List String) → All (λ d. contains order d ≡ true) ds → outstanding order ds ≡ 0
unfolding outstanding
outstanding-All order [] h = refl
outstanding-All order (d ∷ ds) h = ground (arith, outstanding-All order ds h.1)

-- By induction on a bound for the rank: every node is in the final order.
final-contains :
    (doc : Document) (rank : String → ℕ) (final : List String)
    → IsAcyclic doc rank
    → IsFinal doc final
    → (bound : ℕ) (x : String) → rank x < bound
    → contains (ids doc) x ≡ true
    → contains final x ≡ true
final-contains doc rank final acyclic whole zero x h k = absurd (omega arith)
final-contains doc rank final acyclic whole (suc bound) x h k =
    let before : All (λ d. contains final d ≡ true) (dependencies_of doc x) =
      All-map (λ d. (contains (ids doc) d ≡ true) × (rank d < rank x))
        (λ d. contains final d ≡ true) (dependencies_of doc x)
        (λ d lower. final-contains doc rank final acyclic whole bound d (omega arith) lower.0)
        (acyclic.known x k) in
    count→contains x final
      (ground (arith, whole.settled x, outstanding-All final (dependencies_of doc x) before))

final-length :
    (doc : Document) (rank : String → ℕ) (final : List String)
    → IsDistinct (ids doc)
    → IsAcyclic doc rank
    → IsFinal doc final
    → length final ≡ length doc.nodes
final-length doc rank final distinct acyclic whole =
    let inside : IsSubBag final (ids doc) =
      λ x. omega (arith, whole.settled x, settled-le_count doc final x) in
    let covers : IsSubBag (ids doc) final = λ x. ground (
      arith,
      count-distinct x (ids doc) distinct,
      final-contains doc rank final acyclic whole (suc (rank x)) x (omega arith),
      contains→count x final,
    ) in
    omega (
      arith,
      IsSubBag-length final (ids doc) inside,
      IsSubBag-length (ids doc) final covers,
      length-keys doc.nodes,
    )

-- A document with distinct node IDs gets an order when each dependency is a node and has a lower rank
-- than the node that names it, for some ranking of the nodes: when it has no cycle.
pub topological_order_complete :
    (doc : Document) (rank : String → ℕ)
    → IsDistinct (ids doc)
    → IsAcyclic doc rank
    → (order : List String) × (topological_order doc ≡ ok order)
topological_order_complete doc rank distinct acyclic =
    let (final, ends, whole) = topological_order-ends doc distinct in
    (final, ends ∙ ground (arith, final-length doc rank final distinct acyclic whole))
