-- ===== src/Workflow/Agent.antt =====
-- wf-engine/internal/workflow/model.go: what a node takes from the defaults of its document, with
-- `DefaultRequirementV1` of wf-engine/internal/routing/defaults.go.
pub mod Selection
use fishyume.Base.{
  String, Bool, true, false, not, ◌&&◌, ◌||◌, List, [], ◌∷◌, Option, none, some, Outcome, ok, err,
  ◌>>=◌, ◌>>◌, reject_if, str_eq, if◌then◌else◌,
}
use fishyume.Base.Int.{pos}
use fishyume.Base.Text.{trim_space, is_empty}
use fishyume.Routing.Contract.{RoutingRequirement, Complexity, QualityClass, LatencyClass}
use fishyume.Workflow.Model.{Node, Defaults, Document, ContextPolicy}

pub data AgentError : Type 0 where
  unsupported_tool driver_conflict unsupported_runtime target_conflict : AgentError

-- `first := strings.TrimSpace(a); if first == "" { first = strings.TrimSpace(b) }`
abbrev pub first_trimmed : (a b : String) → String
first_trimmed a b = if is_empty (trim_space a) then trim_space b else trim_space a

abbrev pub is_supported_tool : String → Bool
is_supported_tool tool =
    is_empty tool || str_eq tool "codex" || str_eq tool "claude" || str_eq tool "opencode"

abbrev pub is_supported_runtime : String → Bool
is_supported_runtime runtime =
    is_empty runtime || str_eq runtime "local" || str_eq runtime "wsl" || str_eq runtime "ssh"

-- The driver that the deprecated fields select.
abbrev pub legacy_driver : (backend tool : String) → String
legacy_driver backend tool =
    if str_eq backend "direct" then "codex" else if is_empty backend then tool else backend

-- A new selection and a deprecated one that stands in for it, and may not contradict it.
unfoldable pub reconcile : AgentError → (wanted legacy : String) → Outcome AgentError String
reconcile conflict wanted legacy =
    if is_empty wanted
    then ok legacy
    else if not (is_empty legacy) && not (str_eq wanted legacy)
    then err conflict
    else ok wanted

abbrev pub or_local : String → String
or_local target = if is_empty target then "local" else target

unfoldable pub resolve_agent : Defaults → Node → Outcome AgentError (String × String)
unfolding reconcile
resolve_agent defaults node = do
  let legacy_tool = first_trimmed node.tool defaults.tool
  let legacy_target = first_trimmed node.runtime defaults.runtime
  reject_if (not (is_supported_tool legacy_tool)) unsupported_tool
  driver ←
      reconcile driver_conflict (first_trimmed node.agent.driver defaults.agent.driver)
        (legacy_driver (trim_space defaults.backend) legacy_tool)
  reject_if (not (is_supported_runtime legacy_target)) unsupported_runtime
  target ←
      reconcile target_conflict (first_trimmed node.agent.target defaults.agent.target)
        legacy_target
  ok (driver, or_local target)

abbrev pub no_policy : ContextPolicy
no_policy = record { project_instructions = []; dependencies = [] }

-- The node's policy, else the document's, else none.
abbrev pub choose {ℓ} : {A : Type ℓ} → A → Option A → Option A → A
choose default general none = elim general [ none ↦ default | some a ↦ a ]
choose default general (some own) = own

unfoldable pub effective_context_policy : Document → Node → ContextPolicy
effective_context_policy doc node = choose no_policy doc.context node.context

unfoldable pub default_requirement : RoutingRequirement
default_requirement = record {
  schema_version = "fishyume.routing-requirement/v1";
  capabilities = "repo_edit" ∷ "repo_read" ∷ "structured_output" ∷ "tool_use" ∷ [];
  complexity = Complexity.standard;
  quality = QualityClass.balanced;
  latency = LatencyClass.balanced;
  max_cost_units = pos 20;
  max_context_bytes = pos 131_072;
  max_output_bytes = pos 32_768;
  candidates = [];
  prompt_profile = "";
  allow_model_fallback = false;
}

unfoldable pub effective_routing_requirement : Document → Node → RoutingRequirement
effective_routing_requirement doc node =
    choose default_requirement doc.defaults.agent.routing node.agent.routing
