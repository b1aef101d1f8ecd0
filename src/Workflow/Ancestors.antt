-- ===== src/Workflow/Ancestors.antt =====
-- wf-engine/internal/workflow/model.go: `ancestors`, a depth-first search along the dependencies.
pub mod Reachable
use fishyume.Base.{
  ℕ, zero, suc, String, Bool, true, false, List, [], ◌∷◌, length, contains, if◌then◌else◌,
}
use fishyume.Workflow.Model.{Document, Node, node_of}

-- The loop over the dependencies of a node; `visit` is the recursive call.
unfoldable pub visit_each :
    (visit : String → List String → List String)
    → List String
    → (result : List String) → List String
visit_each visit [] result = result
visit_each visit (d ∷ ds) result =
    visit_each visit ds (if contains result d then result else visit d (d ∷ result))

-- The fuel bounds the depth of the recursion.
unfoldable pub visit : ℕ → Document → String → (result : List String) → List String
unfolding visit_each
visit zero doc id result = result
visit (suc fuel) doc id result = visit_each (visit fuel doc) (node_of doc id).depends_on result

unfoldable pub ancestors : Document → String → List String
unfolding visit
ancestors doc id = visit (suc (suc (length doc.nodes))) doc id []
