-- ===== src/Routing/Validation.antt =====
-- wf-engine/internal/routing/contract.go: the validation of catalogs, requirements, budgets and
-- decisions. A loop over a slice carries the set of what it has seen as a list.
use fishyume.Base.{
  ◌+◌, String, Bool, true, false, not, ◌&&◌, ◌||◌, List, [], ◌∷◌, ok, ◌>>◌, reject_if, length,
  is_nil, contains, str_eq, str_lt, ltb,
}
use fishyume.Base.Int.{ℤ, pos, ltz, eqz}
use fishyume.Base.Text.{is_empty}
use fishyume.Routing.Contract.{
  invalid_contract, unsupported_version, duplicate_identity, invalid_target, invalid_capability,
  invalid_budget, invalid_fallback, invalid_prompt_profile, contract_error, Checked, FallbackMode,
  no_fallback, eligible, Target, ModelCapability, CapabilityCatalog, RoutingRequirement,
  BudgetGrant, FallbackPolicy, RoutingDecision, max_catalog_models, max_candidates, max_fallbacks,
  max_reason_codes, max_routing_budget_bytes, max_cost_units, stable_capabilities, valid_identity,
  valid_reason_code, valid_target, valid_hash, valid_complexity, valid_quality, valid_cost,
  valid_latency,
}

contains_capability : String → Bool
unfolding contains
contains_capability value = contains stable_capabilities value

unfoldable pub validate_capabilities_from :
    (seen : List String) (last : String) → List String → Checked
unfolding contains_capability
validate_capabilities_from seen last [] = ok tt
validate_capabilities_from seen last (value ∷ values) = do
  reject_if (not (contains_capability value) || contains seen value)
      (contract_error invalid_capability value)
  reject_if (not (is_empty last) && not (str_lt last value))
      (contract_error invalid_capability value)
  validate_capabilities_from (value ∷ seen) value values

unfoldable pub validate_capabilities : List String → Checked
unfolding validate_capabilities_from
validate_capabilities = validate_capabilities_from [] ""

unfoldable pub validate_model_capability : ModelCapability → Checked
validate_model_capability model = do
  reject_if (not (valid_identity model.id) || not (valid_target model.target))
      (contract_error invalid_target model.id)
  reject_if
      (ltz model.context_limit_bytes (pos 1)
        || ltz max_routing_budget_bytes model.context_limit_bytes
        || ltz model.max_output_bytes (pos 1)
        || ltz model.context_limit_bytes model.max_output_bytes)
      (contract_error invalid_budget model.id)
  reject_if
      (not (valid_quality model.quality)
        || not (valid_cost model.cost)
        || not (valid_latency model.latency))
      (contract_error invalid_capability model.id)
  reject_if (is_nil model.capabilities) (contract_error invalid_capability model.id)
  validate_capabilities model.capabilities

unfoldable pub validate_models :
    (seen : List String) (last : String) → List ModelCapability → Checked
validate_models seen last [] = ok tt
validate_models seen last (model ∷ models) = do
  validate_model_capability model
  reject_if (contains seen model.id) (contract_error duplicate_identity model.id)
  reject_if (not (is_empty last) && not (str_lt last model.id))
      (contract_error invalid_contract model.id)
  validate_models (model.id ∷ seen) model.id models

unfoldable pub validate_catalog : CapabilityCatalog → Checked
validate_catalog catalog = do
  reject_if
      (not (str_eq catalog.schema_version "fishyume.capability-catalog/v1")
        || not (str_eq catalog.policy_version "fishyume.routing-policy/v1"))
      (contract_error unsupported_version "")
  reject_if (is_nil catalog.models || ltb max_catalog_models (length catalog.models))
      (contract_error invalid_contract "")
  validate_models [] "" catalog.models

unfoldable pub validate_candidates : (seen : List String) → List String → Checked
validate_candidates seen [] = ok tt
validate_candidates seen (candidate ∷ candidates) = do
  reject_if (not (valid_identity candidate)) (contract_error invalid_target candidate)
  reject_if (contains seen candidate) (contract_error duplicate_identity candidate)
  validate_candidates (candidate ∷ seen) candidates

-- The guard of a budget of cost units, context bytes and output bytes.
abbrev pub budget_out_of_bounds : (cost context output : ℤ) → Bool
budget_out_of_bounds cost context output =
    ltz cost (pos 1)
    || ltz max_cost_units cost
    || ltz context (pos 1)
    || ltz max_routing_budget_bytes context
    || ltz output (pos 1)
    || ltz context output

unfoldable pub validate_requirement : RoutingRequirement → Checked
validate_requirement r = do
  reject_if (not (str_eq r.schema_version "fishyume.routing-requirement/v1"))
      (contract_error unsupported_version "")
  reject_if (is_nil r.capabilities) (contract_error invalid_capability "")
  validate_capabilities r.capabilities
  reject_if
      (not (valid_complexity r.complexity)
        || not (valid_quality r.quality)
        || not (valid_latency r.latency))
      (contract_error invalid_contract "")
  reject_if (budget_out_of_bounds r.max_cost_units r.max_context_bytes r.max_output_bytes)
      (contract_error invalid_budget "")
  reject_if (ltb max_candidates (length r.candidates)) (contract_error invalid_target "")
  validate_candidates [] r.candidates
  reject_if (not (is_empty r.prompt_profile) && not (valid_identity r.prompt_profile))
      (contract_error invalid_prompt_profile r.prompt_profile)

unfoldable pub validate_budget_grant : BudgetGrant → Checked
validate_budget_grant b =
    reject_if (budget_out_of_bounds b.max_cost_units b.context_bytes b.output_bytes)
      (contract_error invalid_budget "")

abbrev pub unsupported_mode : FallbackMode → Bool
unsupported_mode (FallbackMode.other s) = true
unsupported_mode _ = false

abbrev pub is_no_fallback : FallbackMode → Bool
is_no_fallback no_fallback = true
is_no_fallback _ = false

abbrev pub is_eligible : FallbackMode → Bool
is_eligible eligible = true
is_eligible _ = false

unfoldable pub validate_fallback_policy : FallbackPolicy → Checked
validate_fallback_policy p = do
  reject_if (unsupported_mode p.mode) (contract_error invalid_fallback "")
  reject_if (ltz p.max_attempts (pos 1) || ltz (pos (max_fallbacks + 1)) p.max_attempts)
      (contract_error invalid_fallback "")
  reject_if (is_no_fallback p.mode && not (eqz p.max_attempts (pos 1)))
      (contract_error invalid_fallback "")
  reject_if (is_eligible p.mode && not p.require_no_side_effect)
      (contract_error invalid_fallback "")

unfoldable pub validate_reasons : (seen : List String) → List String → Checked
validate_reasons seen [] = ok tt
validate_reasons seen (reason ∷ reasons) = do
  reject_if (not (valid_reason_code reason) || contains seen reason)
      (contract_error invalid_contract reason)
  validate_reasons (reason ∷ seen) reasons

abbrev pub target_eq : Target → Target → Bool
target_eq a b = str_eq a.driver b.driver && str_eq a.provider b.provider && str_eq a.model b.model

unfoldable pub validate_fallbacks : (selected : Target) → List Target → Checked
validate_fallbacks selected [] = ok tt
validate_fallbacks selected (target ∷ targets) = do
  reject_if (not (valid_target target) || target_eq target selected)
      (contract_error invalid_fallback "")
  validate_fallbacks selected targets

unfoldable pub validate_decision : RoutingDecision → Checked
validate_decision d = do
  reject_if
      (not (str_eq d.schema_version "fishyume.routing-decision/v1")
        || not (valid_hash d.catalog_hash)
        || not (valid_target d.selected))
      (contract_error invalid_contract "")
  validate_requirement d.requirement
  validate_budget_grant d.budget
  validate_fallback_policy d.fallback_policy
  reject_if (is_nil d.reason_codes || ltb max_reason_codes (length d.reason_codes))
      (contract_error invalid_contract "")
  validate_reasons [] d.reason_codes
  reject_if
      (ltb max_fallbacks (length d.fallback)
        || (is_no_fallback d.fallback_policy.mode && not (is_nil d.fallback)))
      (contract_error invalid_fallback "")
  validate_fallbacks d.selected d.fallback
  reject_if (not (is_empty d.prompt_profile) && not (valid_identity d.prompt_profile))
      (contract_error invalid_prompt_profile d.prompt_profile)
