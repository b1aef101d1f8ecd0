-- ===== src/Routing/Resolve/Valid.antt =====
-- A decision built from validated inputs passes `ValidateDecision`.
use Prim.Native.String.{◌++◌ as append_text}
use fishyume.Base.{
  ◌≡◌, refl, String, Bool, true, false, not, ◌&&◌, List, [], ◌∷◌, ◌++◌, arith, All, ok, length,
  contains, leb, ltb, is_nil, if◌then◌else◌,
}
use fishyume.Base.Text.{is_empty}
use fishyume.Routing.Contract.{
  valid_identity, max_reason_codes, Complexity, simple, QualityClass, economy, CostClass, low,
  LatencyClass, fast, ModelCapability, CapabilityCatalog, BudgetGrant, RoutingRequirement,
  valid_target, valid_hash, valid_reason_code, valid_complexity, valid_quality, valid_cost,
  valid_latency,
}
use fishyume.Routing.Validation.{
  validate_catalog, validate_requirement, validate_budget_grant, validate_decision,
  validate_reasons, validate_models, validate_model_capability, validate_fallback_policy,
  validate_fallbacks,
}
use fishyume.Routing.Resolver.{
  ResolveRequest, ModelScore, EligibleModel, reason_codes, restrict_budget, complexity_text,
  quality_text, cost_text, latency_text,
}
use fishyume.Routing.Resolve.{requirement_budget, decision_for}

-- The reason codes, by the classes that they name.
abbrev codes : Complexity → QualityClass → CostClass → LatencyClass → Bool → List String
codes c q k l preferred =
    ("capability_match"
      ∷ append_text "complexity_" (complexity_text c)
      ∷ append_text "quality_preference_" (quality_text q)
      ∷ append_text "latency_preference_" (latency_text l)
      ∷ append_text "cost_preference_" (cost_text k)
      ∷ "budget_context"
      ∷ "budget_output"
      ∷ (if preferred then "candidate_preference" ∷ [] else []))
    ++ "fallback_disabled" ∷ []

codes_valid :
    (c : Complexity) (q : QualityClass) (k : CostClass) (l : LatencyClass) (preferred : Bool)
    → valid_complexity c ≡ true
    → valid_quality q ≡ true
    → valid_cost k ≡ true
    → valid_latency l ≡ true
    → validate_reasons [] (codes c q k l preferred) ≡ ok tt
unfolding validate_reasons valid_reason_code contains
codes_valid (Complexity.other s) q k l p vc vq vk vl = absurd (cc)
codes_valid c (QualityClass.other s) k l p vc vq vk vl = absurd (cc)
codes_valid c q (CostClass.other s) l p vc vq vk vl = absurd (cc)
codes_valid c q k (LatencyClass.other s) p vc vq vk vl = absurd (cc)
codes_valid simple economy low fast true vc vq vk vl = refl
codes_valid _ _ _ _ true vc vq vk vl = refl
codes_valid _ _ _ _ false vc vq vk vl = refl

-- What a valid requirement gives.
requirement_facts :
    (r : RoutingRequirement)
    → validate_requirement r ≡ ok tt
    → (validate_budget_grant (requirement_budget r) ≡ ok tt)
      × ((not (is_empty r.prompt_profile) && not (valid_identity r.prompt_profile)) ≡ false)
unfolding validate_requirement validate_budget_grant
requirement_facts r h = ground arith

requirement_complexity :
    (r : RoutingRequirement) → validate_requirement r ≡ ok tt → valid_complexity r.complexity ≡ true
unfolding validate_requirement
requirement_complexity r h = ground arith

restrict_budget_valid :
    (r g : BudgetGrant)
    → validate_budget_grant r ≡ ok tt
    → validate_budget_grant g ≡ ok tt
    → validate_budget_grant (restrict_budget r g) ≡ ok tt
unfolding validate_budget_grant restrict_budget
restrict_budget_valid r g hr hg = ground arith

-- What the decision reads of a model of a valid catalog.
pub record IsSound (m : ModelCapability) : Type 0 where
  pub target : valid_target m.target ≡ true
  pub quality : valid_quality m.quality ≡ true
  pub cost : valid_cost m.cost ≡ true
  pub latency : valid_latency m.latency ≡ true

validate_model-IsSound : (m : ModelCapability) → validate_model_capability m ≡ ok tt → IsSound m
unfolding validate_model_capability
validate_model-IsSound m h = ground arith

validate_models-IsSound :
    (seen : List String) (last : String) (models : List ModelCapability)
    → validate_models seen last models ≡ ok tt
    → All IsSound models
unfolding validate_models
validate_models-IsSound seen last [] h = tt
validate_models-IsSound seen last (m ∷ models) h = (
  validate_model-IsSound m (ground arith),
  validate_models-IsSound (m.id ∷ seen) m.id models (ground arith),
)

pub validate_catalog-IsSound :
    (catalog : CapabilityCatalog) → validate_catalog catalog ≡ ok tt → All IsSound catalog.models
unfolding validate_catalog
validate_catalog-IsSound catalog h = validate_models-IsSound [] "" catalog.models (ground arith)

reason_codes_valid :
    (c : Complexity) (candidates : List String) (m : ModelCapability) (s : ModelScore)
    → valid_complexity c ≡ true
    → IsSound m
    → validate_reasons [] (reason_codes c candidates m s ++ "fallback_disabled" ∷ []) ≡ ok tt
unfolding reason_codes
reason_codes_valid c candidates m s vc sound =
    codes_valid c m.quality m.cost m.latency
      (not (is_nil candidates) && leb s.candidate_rank (length candidates)) vc sound.quality
      sound.cost sound.latency

reason_codes_count :
    (c : Complexity) (candidates : List String) (m : ModelCapability) (s : ModelScore)
    → ltb max_reason_codes (length (reason_codes c candidates m s ++ "fallback_disabled" ∷ []))
      ≡ false
unfolding reason_codes
reason_codes_count c candidates m s = ground arith

reason_codes_present :
    (c : Complexity) (candidates : List String) (m : ModelCapability) (s : ModelScore)
    → is_nil (reason_codes c candidates m s ++ "fallback_disabled" ∷ []) ≡ false
unfolding reason_codes
reason_codes_present c candidates m s = refl

pub decision_for_valid :
    (request : ResolveRequest) (hash : String) (first : EligibleModel) (others : List EligibleModel)
    → request.requirement.allow_model_fallback ≡ false
    → valid_hash hash ≡ true
    → validate_requirement request.requirement ≡ ok tt
    → validate_budget_grant request.budget ≡ ok tt
    → IsSound first.model
    → validate_decision (decision_for request hash first others) ≡ ok tt
unfolding validate_decision decision_for validate_fallback_policy validate_fallbacks
decision_for_valid request hash first others plain hashed required granted sound =
    let r = request.requirement in
    simp (
      plain,
      hashed,
      sound.target,
      required,
      reason_codes_valid r.complexity r.candidates first.model first.score
          (requirement_complexity r required) sound,
      reason_codes_count,
      reason_codes_present,
      restrict_budget_valid (requirement_budget r) request.budget (requirement_facts r required).0
          granted,
      (requirement_facts r required).1,
    )
