-- ===== src/Routing/Resolve/Budget.antt =====
-- The budget and the fallbacks of a decision.
use fishyume.Base.{
  ℕ, zero, suc, ◌+◌, ◌≤◌, ◌≡◌, ◌≢◌, refl, sym, ap, subst, String, Bool, true, false, List, [], ◌∷◌,
  arith, ok, length,
}
use fishyume.Base.Int.{pos, ◌≤ℤ◌}
use fishyume.Routing.Contract.{
  CapabilityCatalog, BudgetGrant, RoutingDecision, no_fallback, eligible, max_fallbacks,
}
use text.Mathlib.TextPositions.{eq_refl}
use fishyume.Routing.Validation.{validate_decision, validate_fallbacks}
use fishyume.Routing.Resolver.{ResolveRequest, EligibleModel, restrict_budget, fallback_targets}
use fishyume.Routing.Resolve.{requirement_budget, ranked_candidates, decision_for, resolve}
use fishyume.Routing.Resolve.Choice.{resolve-Resolved}

-- A budget that another one covers in every component.
pub record IsWithin (b limit : BudgetGrant) : Type 0 where
  pub cost : b.max_cost_units ≤ℤ limit.max_cost_units
  pub context : b.context_bytes ≤ℤ limit.context_bytes
  pub output : b.output_bytes ≤ℤ limit.output_bytes

restrict_budget-IsWithin :
    (r g : BudgetGrant) → IsWithin (restrict_budget r g) r × IsWithin (restrict_budget r g) g
unfolding restrict_budget
restrict_budget-IsWithin r g = ground arith

-- A decision's budget never exceeds what the requirement asks for, nor what the upper layer
-- granted.
pub resolve-IsWithin :
    (digest : CapabilityCatalog → String) (request : ResolveRequest) (d : RoutingDecision)
    → resolve digest request ≡ ok d
    → IsWithin d.budget (requirement_budget request.requirement) × IsWithin d.budget request.budget
unfolding decision_for
resolve-IsWithin digest request d e =
    let r = resolve-Resolved digest request d e in
    subst (λ x. IsWithin x (requirement_budget request.requirement) × IsWithin x request.budget)
      (sym (ap (λ (x : RoutingDecision). x.budget) r.decision))
      (restrict_budget-IsWithin (requirement_budget request.requirement) request.budget)

length-fallback_targets-le :
    (n : ℕ) (models : List EligibleModel) → length (fallback_targets n models) ≤ n
unfolding fallback_targets
length-fallback_targets-le zero models = omega arith
length-fallback_targets-le (suc n) [] = omega arith
length-fallback_targets-le (suc n) (m ∷ models) = omega (arith, length-fallback_targets-le n models)

-- What a decision says of its fallbacks when the requirement allows them, or does not.
abbrev pub FallbackContract : (allowed : Bool) → RoutingDecision → Type 0
FallbackContract true d =
    (d.fallback_policy.mode ≡ eligible)
    × (length d.fallback ≤ max_fallbacks)
    × (d.fallback_policy.max_attempts ≡ pos (1 + length d.fallback))
    × (d.fallback_policy.require_no_side_effect ≡ true)
    × (d.fallback_policy.require_approval ≡ true)
FallbackContract false d =
    (d.fallback_policy.mode ≡ no_fallback)
    × (d.fallback ≡ [])
    × (d.fallback_policy.max_attempts ≡ pos 1)

decision_for-FallbackContract :
    (request : ResolveRequest) (hash : String) (first : EligibleModel) (others : List EligibleModel)
    (allowed : Bool)
    → request.requirement.allow_model_fallback ≡ allowed
    → FallbackContract allowed (decision_for request hash first others)
unfolding decision_for
decision_for-FallbackContract request hash first others true e =
    ground (arith, length-fallback_targets-le max_fallbacks others)
decision_for-FallbackContract request hash first others false e = ground arith

-- A decision declares fallbacks, eight at most and one attempt for each route, only where the
-- requirement allows them, and then only without side effects and with approval.
pub resolve-FallbackContract :
    (digest : CapabilityCatalog → String) (request : ResolveRequest) (d : RoutingDecision)
    → resolve digest request ≡ ok d
    → FallbackContract request.requirement.allow_model_fallback d
resolve-FallbackContract digest request d e =
    let r = resolve-Resolved digest request d e in
    subst (FallbackContract request.requirement.allow_model_fallback) (sym r.decision) (
      decision_for-FallbackContract request (digest request.catalog) r.first r.others
        request.requirement.allow_model_fallback refl)

validate_decision-fallbacks :
    (d : RoutingDecision)
    → validate_decision d ≡ ok tt
    → validate_fallbacks d.selected d.fallback ≡ ok tt
unfolding validate_decision
validate_decision-fallbacks d h = ground arith

-- Where fallback is allowed and the two best candidates share their target, the resolver returns no
-- decision at all.
pub resolve-refuses_shared_target :
    (digest : CapabilityCatalog → String) (request : ResolveRequest) (d : RoutingDecision)
    (first second : EligibleModel) (others : List EligibleModel)
    → request.requirement.allow_model_fallback ≡ true
    → ranked_candidates request ≡ first ∷ second ∷ others
    → second.model.target ≡ first.model.target
    → resolve digest request ≢ ok d
unfolding decision_for fallback_targets validate_fallbacks
resolve-refuses_shared_target digest request d first second others allowed ranking same e =
    let r = resolve-Resolved digest request d e in
    ground (
      arith,
      validate_decision-fallbacks d r.decision_ok,
      r.decision,
      r.ranking,
      eq_refl first.model.target.driver,
      eq_refl first.model.target.provider,
      eq_refl first.model.target.model,
    )
