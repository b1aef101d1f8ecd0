-- ===== src/Workflow/Graph.antt =====
-- wf-engine/internal/workflow/model.go: `TopologicalOrder`, by Kahn's algorithm with a sorted queue.
pub mod Release
pub mod Order
pub mod Acyclic
use fishyume.Base.{
  ℕ, zero, suc, ◌+◌, ◌-◌, String, Bool, true, false, List, [], ◌∷◌, ◌++◌, Outcome, ok, err, length,
  count, str_eq, ◌==◌, if◌then◌else◌,
}
use fishyume.Base.Assoc.{keys}
use fishyume.Base.Sort.{sort_strings}
use fishyume.Workflow.Model.{Node, Document, node_of}

pub data GraphError : Type 0 where
  dependency_cycle out_of_fuel : GraphError

-- `id`, as often as a node names `dependency`.
unfoldable pub repeat_for : (dependency id : String) → List String → List String
repeat_for dependency id [] = []
repeat_for dependency id (d ∷ ds) =
    let rest = repeat_for dependency id ds in if str_eq d dependency then id ∷ rest else rest

-- `children[dependency]`, once the first loop has filled it.
unfoldable pub children_of : List (String × Node) → (dependency : String) → List String
children_of [] dependency = []
children_of ((id, node) ∷ nodes) dependency =
    repeat_for dependency id node.depends_on ++ children_of nodes dependency

-- The map `indegree`, as a function.
abbrev pub Indegree : Type 0
Indegree = String → ℕ

unfoldable pub initial_indegree : Document → Indegree
initial_indegree doc id = length (node_of doc id).depends_on

-- The IDs of indegree 0, in the order of the iteration.
unfoldable pub initial_ready : Indegree → List String → List String
initial_ready indegree [] = []
initial_ready indegree (id ∷ ids) =
    let rest = initial_ready indegree ids in if indegree id == 0 then id ∷ rest else rest

-- `indegree[child]--`. It is never 0 here: `release-spends` proves the loop exact.
abbrev pub decrement : String → Indegree → Indegree
decrement child indegree id = if str_eq child id then indegree id - 1 else indegree id

-- The inner loop over `children[id]`.
unfoldable pub release : List String → Indegree → List String → Indegree × List String
release [] indegree ready = (indegree, ready)
release (child ∷ children) indegree ready =
    let next = decrement child indegree in
    release children next (if next child == 0 then sort_strings (ready ++ child ∷ []) else ready)

-- The outer loop: one round takes the first ready ID.
unfoldable pub drain :
    ℕ → Document → Indegree → (ready order : List String) → Outcome GraphError (List String)
drain fuel doc indegree [] order = ok order
drain zero doc indegree (id ∷ ready) order = err out_of_fuel
drain (suc fuel) doc indegree (id ∷ ready) order =
    let (next, more) = release (children_of doc.nodes id) indegree ready in
    drain fuel doc next more (order ++ id ∷ [])

abbrev pub expect_length : ℕ → List String → Outcome GraphError (List String)
expect_length n order = if length order == n then ok order else err dependency_cycle

abbrev pub then_expect : ℕ → Outcome GraphError (List String) → Outcome GraphError (List String)
then_expect n (ok order) = expect_length n order
then_expect n (err e) = err e

unfoldable pub topological_order : Document → Outcome GraphError (List String)
unfolding drain release initial_ready initial_indegree children_of repeat_for
topological_order doc = then_expect (length doc.nodes) (
    drain (length doc.nodes) doc (initial_indegree doc)
      (sort_strings (initial_ready (initial_indegree doc) (keys doc.nodes))) [])
