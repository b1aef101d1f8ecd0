-- ===== src/Tests/Routes.antt =====
-- A request for a model, over a catalog of two models.
use fishyume.Base.{◌≡◌, ◌≢◌, refl, String, Bool, true, false, [], ◌∷◌, ok, inl, arith, contains}
use fishyume.Base.Int.{pos}
use mathlib.Core.List.{Memᴰ}
use fishyume.Routing.Contract.{
  Target, ModelCapability, CapabilityCatalog, RoutingRequirement, BudgetGrant, RoutingDecision,
  Complexity, QualityClass, CostClass, LatencyClass, valid_identity, valid_target, valid_hash,
  valid_reason_code,
}
use fishyume.Routing.Resolver.{
  ResolveRequest, scored, restrict_budget, eligible_models, candidate_rank, is_excluded,
  contains_all, less, reason_codes, fallback_targets,
}
use fishyume.Base.Sort.{sort, insert_sorted}
use fishyume.Routing.Validation.{
  validate_catalog, validate_requirement, validate_capabilities, validate_candidates,
  validate_budget_grant, validate_models, validate_model_capability, validate_decision,
  validate_fallbacks, validate_reasons, validate_fallback_policy,
}
use fishyume.Routing.Resolve.Eligible.{Fits}
use fishyume.Routing.Resolve.{
  requirement_budget, ranked_candidates, decision_for, decide, catalog_hash, resolve,
}
use fishyume.Routing.Resolve.Choice.{IsBest, resolve-IsBest, granted}
use fishyume.Routing.Resolve.Budget.{
  IsWithin, FallbackContract, resolve-IsWithin, resolve-FallbackContract,
  resolve-refuses_shared_target,
}
use fishyume.Routing.Resolve.Complete.{IsServable, resolve_complete}

abbrev target_of : String → Target
target_of model = record { driver = "codex"; provider = "openai"; model = model }

abbrev model_of : String → String → CostClass → ModelCapability
model_of id model cost = record {
  id = id;
  target = target_of model;
  capabilities = "repo_edit" ∷ "repo_read" ∷ [];
  context_limit_bytes = pos 100000;
  max_output_bytes = pos 10000;
  quality = QualityClass.balanced;
  cost = cost;
  latency = LatencyClass.balanced;
  supports_cancellation = true;
}

abbrev catalog : CapabilityCatalog
catalog = record {
  schema_version = "fishyume.capability-catalog/v1";
  policy_version = "fishyume.routing-policy/v1";
  models = model_of "large" "max" CostClass.medium ∷ model_of "small" "mini" CostClass.low ∷ [];
}

abbrev requirement : Bool → RoutingRequirement
requirement allowed = record {
  schema_version = "fishyume.routing-requirement/v1";
  capabilities = "repo_edit" ∷ [];
  complexity = Complexity.standard;
  quality = QualityClass.balanced;
  latency = LatencyClass.balanced;
  max_cost_units = pos 50;
  max_context_bytes = pos 50000;
  max_output_bytes = pos 5000;
  candidates = [];
  prompt_profile = "fishyume.prompt-profile/v1";
  allow_model_fallback = allowed;
}

abbrev budget : BudgetGrant
budget = record { max_cost_units = pos 40; context_bytes = pos 60000; output_bytes = pos 5000 }

-- A text of 64 hexadecimal digits for every catalog.
abbrev digest : CapabilityCatalog → String
digest c = "0123456789abcdef0123456789abcdef0123456789abcdef0123456789abcdef"

abbrev request : Bool → ResolveRequest
request allowed = record {
  catalog = catalog;
  catalog_hash = "";
  requirement = requirement allowed;
  budget = budget;
}

abbrev decision : Bool → RoutingDecision
decision allowed =
    decision_for (request allowed) (digest catalog)
      (record {
        model = model_of "small" "mini" CostClass.low;
        score = (scored (requirement allowed) 1 (model_of "small" "mini" CostClass.low)).score;
      })
      (scored (requirement allowed) 1 (model_of "large" "max" CostClass.medium) ∷ [])

resolved : resolve digest (request true) ≡ ok (decision true)
unfolding resolve validate_requirement validate_capabilities validate_candidates valid_identity
    validate_budget_grant validate_catalog validate_models validate_model_capability valid_target
    contains catalog_hash decide decision_for validate_decision validate_fallbacks validate_reasons
    validate_fallback_policy valid_hash ranked_candidates sort eligible_models candidate_rank
    is_excluded contains_all restrict_budget insert_sorted less reason_codes fallback_targets
    valid_reason_code
resolved = refl

resolve-IsBest_example :
    (m : ModelCapability) × IsBest (request true) m × ((decision true).selected ≡ m.target)
resolve-IsBest_example = resolve-IsBest digest (request true) (decision true) resolved

resolve-IsWithin_example :
    IsWithin (decision true).budget (requirement_budget (requirement true))
    × IsWithin (decision true).budget budget
resolve-IsWithin_example = resolve-IsWithin digest (request true) (decision true) resolved

resolve-FallbackContract_example : FallbackContract true (decision true)
resolve-FallbackContract_example =
    resolve-FallbackContract digest (request true) (decision true) resolved

-- Two models of one catalog that share their target.
abbrev shared_catalog : CapabilityCatalog
shared_catalog = record catalog {
  models = model_of "small" "mini" CostClass.low ∷ model_of "small-2" "mini" CostClass.low ∷ [];
}

abbrev shared_request : ResolveRequest
shared_request = record (request true) { catalog = shared_catalog }

shared_ranking :
    ranked_candidates shared_request
    ≡ scored (requirement true) 1 (model_of "small" "mini" CostClass.low)
      ∷ scored (requirement true) 1 (model_of "small-2" "mini" CostClass.low)
      ∷ []
unfolding ranked_candidates sort eligible_models candidate_rank is_excluded contains_all contains
    restrict_budget insert_sorted less
shared_ranking = refl

shared_catalog_valid : validate_catalog shared_catalog ≡ ok tt
unfolding valid_hash validate_requirement validate_capabilities validate_candidates valid_identity
    validate_budget_grant validate_catalog validate_models validate_model_capability valid_target
    contains
shared_catalog_valid = refl

resolve-refuses_shared_target_example : resolve digest shared_request ≢ ok (decision true)
resolve-refuses_shared_target_example =
    resolve-refuses_shared_target digest shared_request (decision true)
      (scored (requirement true) 1 (model_of "small" "mini" CostClass.low))
      (scored (requirement true) 1 (model_of "small-2" "mini" CostClass.low)) [] refl shared_ranking
      refl

plain-IsServable : IsServable digest (request false)
unfolding valid_hash validate_requirement validate_capabilities validate_candidates valid_identity
    validate_budget_grant validate_catalog validate_models validate_model_capability valid_target
    contains
plain-IsServable = record {
  plain = refl;
  requirement = refl;
  budget = refl;
  catalog = refl;
  hashed = refl;
  expected = refl;
}

small-Fits :
    Fits (requirement false) (granted (request false)) (model_of "small" "mini" CostClass.low)
unfolding contains restrict_budget
small-Fits = record {
  capable = (refl, tt);
  good_enough = omega arith;
  affordable = refl;
  roomy = refl;
  verbose = refl;
  allowed = inl refl;
}

resolve_complete_example : (d : RoutingDecision) × (resolve digest (request false) ≡ ok d)
resolve_complete_example =
    resolve_complete digest (request false) (model_of "small" "mini" CostClass.low) plain-IsServable
      (Memᴰ.tail (Memᴰ.head refl)) small-Fits
