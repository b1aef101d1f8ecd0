-- ===== src/Workflow/Graph/Release.antt =====
-- The inner loop of `TopologicalOrder`: what releasing the children of one node does.
use text.Mathlib.TextEquality.{eq_iff}
use text.Mathlib.TextPositions.{eq_refl}
use fishyume.Base.{
  IsDistinct, ℕ, ◌+◌, ◌≡◌, refl, String, false, not, ◌&&◌, List, [], ◌∷◌, ◌++◌, arith, length,
  contains, contains-append, count, one_if, str_eq, str_lt, ◌==◌, if◌then◌else◌,
}
use fishyume.Base.Assoc.{lookup, keys, lookup-absent}
use fishyume.Base.Sort.{sort_strings}
use fishyume.Base.Counts.{count-append, count-sort}
use fishyume.Workflow.Model.{Node, or_zero}
use fishyume.Workflow.Graph.{repeat_for, children_of, Indegree, decrement, release}

-- How many of the dependencies are not in `order`, each as often as it is named.
unfoldable pub outstanding : (order : List String) → List String → ℕ
outstanding order [] = 0
outstanding order (d ∷ ds) = one_if (not (contains order d)) + outstanding order ds

pub outstanding-nil : (ds : List String) → outstanding [] ds ≡ length ds
unfolding outstanding contains
outstanding-nil [] = refl
outstanding-nil (d ∷ ds) = omega (arith, outstanding-nil ds)

pub outstanding-snoc :
    (id : String) (order ds : List String)
    → contains order id ≡ false
    → outstanding (order ++ id ∷ []) ds + count id ds ≡ outstanding order ds
unfolding outstanding count contains
outstanding-snoc id order [] h = refl
outstanding-snoc id order (d ∷ ds) h = ground (
  arith,
  outstanding-snoc id order ds h,
  contains-append order (id ∷ []) d,
  eq_iff id d,
  eq_iff d id,
)

count-repeat_for :
    (x dependency id : String) (ds : List String)
    → count x (repeat_for dependency id ds) ≡ (if str_eq id x then count dependency ds else 0)
unfolding repeat_for count
count-repeat_for x dependency id [] = ground arith
count-repeat_for x dependency id (d ∷ ds) = ground (arith, count-repeat_for x dependency id ds)

-- A node is a child of a dependency as often as it names it.
pub count-children_of :
    (x dependency : String) (nodes : List (String × Node))
    → IsDistinct (keys nodes)
    → count x (children_of nodes dependency)
      ≡ count dependency (or_zero (lookup x nodes)).depends_on
unfolding children_of lookup count
count-children_of x dependency [] h = refl
count-children_of x dependency ((id, node) ∷ nodes) h = ground (
  arith,
  count-append x (repeat_for dependency id node.depends_on) (children_of nodes dependency),
  count-repeat_for x dependency id node.depends_on,
  count-children_of x dependency nodes h.1,
  lookup-absent x nodes,
  eq_iff id x,
)

-- The loop spends each child's occurrences exactly: with `left x` still to go and one for each
-- occurrence, every indegree ends at what is left, and a child joins the queue once, when none is.
pub release-spends :
    (left : String → ℕ) (children : List String) (indegree : Indegree) (ready : List String)
    → ((x : String) → indegree x ≡ left x + count x children)
    → (x : String)
    → ((release children indegree ready).0 x ≡ left x)
      × (count x (release children indegree ready).1
          ≡ count x ready + one_if (not (count x children == 0) && (left x == 0)))
unfolding release count
release-spends left [] indegree ready h x = (ground (arith, h x), ground arith)
release-spends left (child ∷ children) indegree ready h x =
    let next = decrement child indegree in
    let more = if next child == 0 then sort_strings (ready ++ child ∷ []) else ready in
    let spent : (y : String) → next y ≡ left y + count y children =
      λ y. ground (arith, h y, eq_iff child y, eq_refl child) in
    ground (
      arith,
      release-spends left children next more spent x,
      count-sort str_lt x (ready ++ child ∷ []),
      count-append x ready (child ∷ []),
      spent child,
      eq_iff child x,
      eq_refl child,
    )
