-- ===== src/Routing/Resolve/Complete.antt =====
-- `ResolveV1` returns a decision whenever a model of the catalog fits.
use fishyume.Base.{◌≡◌, refl, sym, subst, String, true, false, List, [], ◌∷◌, All, All-map, ◌≢◌, ok}
use mathlib.Core.List.{Memᴰ}
use fishyume.Routing.Contract.{ModelCapability, CapabilityCatalog, RoutingDecision, valid_hash}
use fishyume.Routing.Validation.{validate_catalog, validate_requirement, validate_budget_grant}
use fishyume.Routing.Resolver.{ResolveRequest, EligibleModel, eligible_models, scored}
use fishyume.Base.Sort.{sort-All, sort-All_inv}
use fishyume.Routing.Resolve.{
  score_less, ranked_candidates, decision_for, decide, catalog_hash, expect_hash, resolve,
}
use fishyume.Routing.Resolve.Eligible.{
  Fits, IsEntry, eligible_models-IsEntry, Fits-eligible_models, Fits-candidate_rank,
}
use fishyume.Routing.Resolve.Choice.{granted, All-Memᴰ}
use fishyume.Routing.Resolve.Valid.{IsSound, validate_catalog-IsSound, decision_for_valid}

ranked_candidates-nonempty :
    (request : ResolveRequest) (m : ModelCapability)
    → Memᴰ m request.catalog.models
    → Fits request.requirement (granted request) m
    → ranked_candidates request ≢ []
unfolding ranked_candidates
ranked_candidates-nonempty request m listed fits e =
    let r = request.requirement in
    let b = granted request in
    let models = request.catalog.models in
    let (rank, ranked) = Fits-candidate_rank r b m fits in
    All-Memᴰ (λ _. ⊥) (scored r rank m) (eligible_models models r b)
      (sort-All_inv score_less (λ _. ⊥) (eligible_models models r b)
        (subst (All (λ _. ⊥)) (sym e) tt))
      (Fits-eligible_models r b m models rank fits ranked listed)

ranked_candidates-IsSound :
    (request : ResolveRequest)
    → validate_catalog request.catalog ≡ ok tt
    → All (λ (e : EligibleModel). IsSound e.model) (ranked_candidates request)
unfolding ranked_candidates
ranked_candidates-IsSound request valid =
    let r = request.requirement in
    let b = granted request in
    let models = request.catalog.models in
    let entries = eligible_models models r b in
    sort-All score_less (λ e. IsSound e.model) entries
      (All-map (IsEntry r b models) (λ e. IsSound e.model) entries
        (λ e entry.
          All-Memᴰ IsSound e.model models (validate_catalog-IsSound request.catalog valid)
            entry.listed)
        (eligible_models-IsEntry r b models))

-- What a caller of `resolve` has to supply: validated inputs, the catalog's own hash or none, and a
-- digest that is a hash.
pub record IsServable (digest : CapabilityCatalog → String) (request : ResolveRequest)
    : Type 0 where
  pub hashed : valid_hash (digest request.catalog) ≡ true
  pub requirement : validate_requirement request.requirement ≡ ok tt
  pub budget : validate_budget_grant request.budget ≡ ok tt
  pub catalog : validate_catalog request.catalog ≡ ok tt
  pub expected : expect_hash request (digest request.catalog) ≡ ok tt
  pub plain : request.requirement.allow_model_fallback ≡ false

decide_complete :
    (digest : CapabilityCatalog → String) (request : ResolveRequest) (ranking : List EligibleModel)
    → IsServable digest request
    → ranking ≢ []
    → All (λ (e : EligibleModel). IsSound e.model) ranking
    → (d : RoutingDecision) × (decide request (digest request.catalog) ranking ≡ ok d)
unfolding decide
decide_complete digest request [] s some_ranked sound = absurd (some_ranked refl)
decide_complete digest request (first ∷ others) s some_ranked sound = (
  decision_for request (digest request.catalog) first others,
  rw (
      decision_for_valid request (digest request.catalog) first others s.plain s.hashed
        s.requirement s.budget sound.0),
)

-- A request gets a decision as soon as some model of its catalog fits its requirement under the
-- granted budget, when its requirement, its grant and its catalog are valid, it allows no fallback, it
-- names the catalog's hash or none, and that hash is a SHA-256 text.
pub resolve_complete :
    (digest : CapabilityCatalog → String) (request : ResolveRequest) (m : ModelCapability)
    → IsServable digest request
    → Memᴰ m request.catalog.models
    → Fits request.requirement (granted request) m
    → (d : RoutingDecision) × (resolve digest request ≡ ok d)
unfolding resolve catalog_hash
resolve_complete digest request m s listed fits =
    let (d, decided) =
      decide_complete digest request (ranked_candidates request) s
        (ranked_candidates-nonempty request m listed fits)
        (ranked_candidates-IsSound request s.catalog) in
    (d, rw (s.requirement, s.budget, s.catalog, s.expected, decided))
