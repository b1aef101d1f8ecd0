-- ===== src/Routing/Resolve.antt =====
-- wf-engine/internal/routing/resolver.go: `ResolveV1`, which validates its request, ranks the
-- eligible models and builds a validated decision.
mod Order
pub mod Eligible
pub mod Choice
pub mod Budget
mod Valid
pub mod Complete
use fishyume.Base.{
  ℕ, ◌+◌, String, Bool, true, false, not, ◌&&◌, List, [], ◌∷◌, ◌++◌, Outcome, ok, err, ◌>>=◌, ◌>>◌,
  reject_if, length, str_eq, if◌then◌else◌,
}
use fishyume.Base.Text.{is_empty}
use fishyume.Base.Sort.{sort}
use fishyume.Base.Int.{pos}
use fishyume.Routing.Contract.{
  invalid_target, catalog_hash_mismatch, contract_error, ContractError, no_fallback, eligible,
  ModelCapability, CapabilityCatalog, RoutingRequirement, BudgetGrant, FallbackPolicy,
  RoutingDecision, max_fallbacks,
}
use fishyume.Routing.Validation.{
  validate_catalog, validate_requirement, validate_budget_grant, validate_decision,
}
use fishyume.Routing.Resolver.{
  ResolveRequest, EligibleModel, less, restrict_budget, eligible_models, reason_codes,
  fallback_targets,
}

abbrev pub requirement_budget : RoutingRequirement → BudgetGrant
requirement_budget r = record {
  max_cost_units = r.max_cost_units;
  context_bytes = r.max_context_bytes;
  output_bytes = r.max_output_bytes;
}

abbrev pub score_less : EligibleModel → EligibleModel → Bool
score_less a b = less a.score b.score

-- The candidates in the order in which the resolver prefers them.
unfoldable pub ranked_candidates : ResolveRequest → List EligibleModel
ranked_candidates request = sort score_less (
    eligible_models request.catalog.models request.requirement
      (restrict_budget (requirement_budget request.requirement) request.budget))

-- The decision for a first candidate and those behind it.
unfoldable pub decision_for :
    ResolveRequest → (catalog_hash : String) → EligibleModel → List EligibleModel → RoutingDecision
decision_for request catalog_hash first others = record {
  schema_version = "fishyume.routing-decision/v1";
  catalog_hash = catalog_hash;
  requirement = requirement;
  selected = first.model.target;
  reason_codes =
      reason_codes requirement.complexity requirement.candidates first.model first.score
      ++ (if requirement.allow_model_fallback
          then "fallback_declared" ∷ []
          else "fallback_disabled" ∷ []);
  budget = restrict_budget (requirement_budget requirement) request.budget;
  fallback = if requirement.allow_model_fallback then fallback_targets max_fallbacks others else [];
  fallback_policy =
      if requirement.allow_model_fallback
      then record {
        mode = eligible;
        max_attempts = pos (1 + length (fallback_targets max_fallbacks others));
        require_no_side_effect = true;
        require_approval = true;
      }
      else record {
        mode = no_fallback;
        max_attempts = pos 1;
        require_no_side_effect = false;
        require_approval = false;
      };
  prompt_profile = requirement.prompt_profile;
}
  where
    open request use {requirement}

-- `candidates[0]`, or the error of an empty list, and the last validation.
unfoldable pub decide :
    ResolveRequest
    → (catalog_hash : String) → List EligibleModel
    → Outcome ContractError RoutingDecision
decide request catalog_hash [] = err (contract_error invalid_target "")
decide request catalog_hash (first ∷ others) = do
  let decision = decision_for request catalog_hash first others
  validate_decision decision
  ok decision

-- A hash in the request has to be the catalog's.
abbrev pub expect_hash : ResolveRequest → String → Outcome ContractError (Unit {0})
expect_hash request hash =
    reject_if (not (is_empty request.catalog_hash) && not (str_eq request.catalog_hash hash))
      (contract_error catalog_hash_mismatch "")

module _ (digest : CapabilityCatalog → String) where
  -- `CatalogHash`: only a valid catalog has a hash.
  unfoldable pub catalog_hash : CapabilityCatalog → Outcome ContractError String
  catalog_hash catalog = do validate_catalog catalog; ok (digest catalog)

  unfoldable pub resolve : ResolveRequest → Outcome ContractError RoutingDecision
  resolve request = do
    validate_requirement request.requirement
    validate_budget_grant request.budget
    validate_catalog request.catalog
    hash ← catalog_hash request.catalog
    expect_hash request hash
    decide request hash (ranked_candidates request)
