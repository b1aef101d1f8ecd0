-- ===== src/Workflow/Validate.antt =====
-- wf-engine/internal/workflow/validate.go: `Validate` of a whole document and
-- `ValidateContextBindings`. The functions of `path/filepath` are parameters: `is_absolute`, `clean`
-- and `to_slash`.
pub mod Sound
pub mod Conditions
use fishyume.Base.{
  ℕ, String, Bool, true, false, not, ◌&&◌, ◌||◌, List, [], ◌∷◌, Option, none, some, Outcome, ok,
  err, ◌>>=◌, ◌>>◌, reject_if, map_err, str_eq, contains, length, is_nil, ltb, if◌then◌else◌,
}
use fishyume.Base.Assoc.{lookup, keys}
use fishyume.Base.Int.{ℤ, pos, ltz}
use fishyume.Base.Text.{
  is_blank, is_empty, trim_space, byte_length, has_prefix, contains_text, name_matches,
}
use fishyume.Routing.Contract.{ContractError, RoutingRequirement}
use fishyume.Routing.Validation.{validate_requirement}
use fishyume.Workflow.Model.{Document, Node, zero_node, ContextPolicy, Condition}
use fishyume.Workflow.Agent.{AgentError, resolve_agent, effective_context_policy}
use fishyume.Workflow.Ancestors.{ancestors}
use fishyume.Workflow.Condition.{ConditionError, validate_condition}
use fishyume.Workflow.Graph.{GraphError, topological_order}
use fishyume.Workflow.Template.{TemplateError, parse_template}

pub data ValidationError : Type 0 where
  unsupported_version missing_name context_needs_version bad_concurrency no_nodes : ValidationError
  agent : AgentError → ValidationError
  routing : ContractError → ValidationError
  node_context_needs_version invalid_node_id : (id : String) → ValidationError
  missing_dependency self_dependency repeated_dependency :
      (id dependency : String) → ValidationError
  unsafe_path repeated_path : (id path : String) → ValidationError
  not_an_ancestor repeated_context : (id dependency : String) → ValidationError
  missing_task stray_prompt missing_prompt agent_only_fields unknown_type :
      (id : String) → ValidationError
  empty_skill : (id : String) → ValidationError
  graph : GraphError → ValidationError
  bad_condition : (id : String) → ConditionError → ValidationError
  bad_template : (id : String) → TemplateError → ValidationError
  bindings_need_version : ValidationError
  binding_without_node too_many_bindings : (id : String) → ValidationError
  invalid_memory_id repeated_memory_id invalid_reason : (id memory : String) → ValidationError

abbrev pub Validated : Type 0
Validated = Outcome ValidationError (Unit {0})

abbrev pub context_version : String
context_version = "fishyume/v2"

abbrev pub is_present {ℓ} : {A : Type ℓ} → Option A → Bool
is_present none = false
is_present (some a) = true

-- The loop over `node.DependsOn`.
unfoldable pub validate_dependencies :
    Document → (id : String) → (seen : List String) → List String → Validated
validate_dependencies doc id seen [] = ok tt
validate_dependencies doc id seen (d ∷ ds) = do
  reject_if (not (contains (keys doc.nodes) d)) (missing_dependency id d)
  reject_if (str_eq d id) (self_dependency id d)
  reject_if (contains seen d) (repeated_dependency id d)
  validate_dependencies doc id (d ∷ seen) ds

unfoldable pub validate_context_dependencies :
    (ancestors_of : List String) → (id : String) → (seen : List String) → List String → Validated
validate_context_dependencies ancestors_of id seen [] = ok tt
validate_context_dependencies ancestors_of id seen (d ∷ ds) = do
  reject_if (not (contains ancestors_of d)) (not_an_ancestor id d)
  reject_if (contains seen d) (repeated_context id d)
  validate_context_dependencies ancestors_of id (d ∷ seen) ds

unfoldable pub validate_skills : (id : String) → List String → Validated
validate_skills id [] = ok tt
validate_skills id (skill ∷ skills) = do
  reject_if (is_blank skill) (empty_skill id)
  validate_skills id skills

unfoldable pub validate_routing : Option RoutingRequirement → Validated
validate_routing none = ok tt
validate_routing (some r) = map_err routing (validate_requirement r)

unfoldable pub validate_agent_node : Document → (id : String) → Node → Validated
unfolding validate_routing
validate_agent_node doc id node = do
  reject_if (is_blank node.task) (missing_task id)
  reject_if (not (is_empty node.prompt)) (stray_prompt id)
  map_err agent (resolve_agent doc.defaults node) >>= λ selection.
      validate_routing node.agent.routing

unfoldable pub validate_approval_node : (id : String) → Node → Validated
validate_approval_node id node = do
  reject_if (is_blank node.prompt) (missing_prompt id)
  reject_if
      (not (is_empty node.task)
        || not (is_empty node.agent.driver)
        || not (is_empty node.agent.target)
        || is_present node.agent.routing
        || not (is_empty node.tool)
        || not (is_empty node.runtime)
        || not (is_nil node.required_skills))
      (agent_only_fields id)

-- The `switch` on the type of a node.
unfoldable pub validate_type : Document → (id : String) → Node → Validated
unfolding validate_agent_node validate_approval_node
validate_type doc id node =
    if str_eq node.type "agent"
    then validate_agent_node doc id node
    else if str_eq node.type "approval"
    then validate_approval_node id node
    else err (unknown_type id)

module _ (is_absolute : String → Bool) (clean to_slash : String → String) where
  abbrev pub is_unsafe_path : String → Bool
  is_unsafe_path path =
      is_blank path
      || is_absolute path
      || not (str_eq (clean path) path)
      || str_eq path "."
      || has_prefix (to_slash path) "../"
      || contains_text (to_slash path) "/../"

  unfoldable pub validate_paths : (id : String) → (seen : List String) → List String → Validated
  validate_paths id seen [] = ok tt
  validate_paths id seen (path ∷ paths) = do
    reject_if (is_unsafe_path path) (unsafe_path id path)
    reject_if (contains seen path) (repeated_path id path)
    validate_paths id (path ∷ seen) paths

  unfoldable pub validate_context_policy : Document → (id : String) → ContextPolicy → Validated
  unfolding validate_paths validate_context_dependencies
  validate_context_policy doc id policy = do
    validate_paths id [] policy.project_instructions
    validate_context_dependencies (ancestors doc id) id [] policy.dependencies

  -- The body of the first loop over the nodes.
  unfoldable pub validate_node : Document → (id : String) → Node → Validated
  unfolding validate_dependencies validate_context_policy validate_type validate_skills
  validate_node doc id node = do
    reject_if (not (str_eq doc.api_version context_version) && is_present node.context)
        (node_context_needs_version id)
    reject_if (not (name_matches 63 id)) (invalid_node_id id)
    validate_dependencies doc id [] node.depends_on
    validate_context_policy doc id (effective_context_policy doc node)
    validate_type doc id node
    validate_skills id node.required_skills

unfoldable pub validate_when : Document → (id : String) → Option Condition → Validated
validate_when doc id none = ok tt
validate_when doc id (some branch) =
    map_err (bad_condition id) (validate_condition branch (ancestors doc id))

abbrev pub template_of : Node → String
template_of node = if str_eq node.type "approval" then node.prompt else node.task

-- The body of the second loop over the nodes.
unfoldable pub validate_references_of : Document → (id : String) → Node → Validated
unfolding validate_when
validate_references_of doc id node = do
  validate_when doc id node.when
  map_err (bad_template id) (parse_template (template_of node) doc.inputs (ancestors doc id))
      >>= λ pieces. ok tt

-- `for id, node := range doc.Nodes`
unfoldable pub each_node :
    (check : (id : String) → Node → Validated) → List (String × Node) → Validated
each_node check [] = ok tt
each_node check ((id, node) ∷ nodes) = do check id node; each_node check nodes

unfoldable pub validate_header : Document → Validated
unfolding validate_routing
validate_header doc = do
  reject_if
      (not (str_eq doc.api_version "fishyume/v1")
        && not (str_eq doc.api_version context_version)
        && not (str_eq doc.api_version "wf/v1"))
      unsupported_version
  reject_if (is_blank doc.name) missing_name
  reject_if (not (str_eq doc.api_version context_version) && is_present doc.context)
      context_needs_version
  reject_if (ltz doc.max_concurrency (pos 1) || ltz (pos 32) doc.max_concurrency) bad_concurrency
  reject_if (is_nil doc.nodes) no_nodes
  map_err agent (resolve_agent doc.defaults zero_node) >>= λ selection.
      validate_routing doc.defaults.agent.routing

module _ (is_absolute : String → Bool) (clean to_slash : String → String) where
  unfoldable pub validate : Document → Outcome ValidationError (List String)
  unfolding validate_header each_node validate_node validate_references_of
  validate doc = do
    validate_header doc
    each_node (validate_node is_absolute clean to_slash doc) doc.nodes
    order ← map_err graph (topological_order doc)
    each_node (validate_references_of doc) doc.nodes
    ok order

pub record MemoryBinding : Type 0 where
  pub id : String
  pub reason : String

abbrev pub is_untrimmed : String → Bool
is_untrimmed s = is_blank s || not (str_eq s (trim_space s))

unfoldable pub validate_selections :
    (node : String) → (seen : List String) → List MemoryBinding → Validated
validate_selections node seen [] = ok tt
validate_selections node seen (b ∷ bs) = do
  reject_if (is_untrimmed b.id || ltb 128 (byte_length b.id)) (invalid_memory_id node b.id)
  reject_if (contains seen b.id) (repeated_memory_id node b.id)
  reject_if (is_untrimmed b.reason || ltb 1024 (byte_length b.reason)) (invalid_reason node b.id)
  validate_selections node (b.id ∷ seen) bs

unfoldable pub validate_each_binding : Document → List (String × List MemoryBinding) → Validated
unfolding validate_selections
validate_each_binding doc [] = ok tt
validate_each_binding doc ((node, selections) ∷ rest) = do
  reject_if (not (contains (keys doc.nodes) node)) (binding_without_node node)
  reject_if (ltb 32 (length selections)) (too_many_bindings node)
  validate_selections node [] selections
  validate_each_binding doc rest

unfoldable pub validate_context_bindings : Document → List (String × List MemoryBinding) → Validated
unfolding validate_each_binding
validate_context_bindings doc bindings = do
  reject_if (not (is_nil bindings) && not (str_eq doc.api_version context_version))
      bindings_need_version
  validate_each_binding doc bindings
