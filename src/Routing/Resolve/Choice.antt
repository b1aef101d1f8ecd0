-- ===== src/Routing/Resolve/Choice.antt =====
-- What `ResolveV1` chooses: a model that fits the request, and the least by score among those that
-- fit.
use fishyume.Base.{
  ℕ, ◌≡◌, refl, sym, ap, subst, String, false, List, [], ◌∷◌, some, All, ok, >>=-eq-ok, >>-eq-ok,
  ◌>>◌,
}
use mathlib.Core.List.{Memᴰ}
use fishyume.Base.Sort.{sort, sort-All, sort-All_inv, sort-IsSorted, IsSorted}
use fishyume.Routing.Contract.{
  ModelCapability, CapabilityCatalog, RoutingRequirement, BudgetGrant, RoutingDecision,
}
use fishyume.Routing.Validation.{
  validate_catalog, validate_requirement, validate_budget_grant, validate_decision,
}
use fishyume.Routing.Resolver.{
  ResolveRequest, EligibleModel, less, candidate_rank, scored, eligible_models, restrict_budget,
}
use fishyume.Routing.Resolve.{
  requirement_budget, score_less, ranked_candidates, decision_for, decide, catalog_hash,
  expect_hash, resolve,
}
use fishyume.Routing.Resolve.Order.{score_less-IsWeakOrder, score_less_irreflexive}
use fishyume.Routing.Resolve.Eligible.{Fits, IsEntry, eligible_models-IsEntry, Fits-eligible_models}

pub All-Memᴰ {ℓ κ} :
    {A : Type ℓ} (P : A → Type κ) (a : A) (xs : List A) → All P xs → Memᴰ a xs → P a
All-Memᴰ P a [] h m = elim m [ ]
All-Memᴰ P a (x ∷ xs) h (Memᴰ.head e) = subst P (sym e) h.0
All-Memᴰ P a (x ∷ xs) h (Memᴰ.tail m) = All-Memᴰ P a xs h.1 m

abbrev pub granted : ResolveRequest → BudgetGrant
granted request = restrict_budget (requirement_budget request.requirement) request.budget

-- The model of a catalog that the resolver owes a request.
pub record IsBest (request : ResolveRequest) (m : ModelCapability) : Type 0 where
  pub listed : Memᴰ m request.catalog.models
  pub fits : Fits request.requirement (granted request) m
  pub rank : ℕ
  pub ranked : candidate_rank request.requirement m ≡ some rank
  pub least :
      (n : ModelCapability) (other : ℕ)
      → Memᴰ n request.catalog.models
      → Fits request.requirement (granted request) n
      → candidate_rank request.requirement n ≡ some other
      → less (scored request.requirement other n).score (scored request.requirement rank m).score
        ≡ false

-- The head of the sorted list is an entry, and no entry precedes it.
sort-head :
    (r : RoutingRequirement) (b : BudgetGrant) (models : List ModelCapability)
    (first : EligibleModel) (others : List EligibleModel)
    → sort score_less (eligible_models models r b) ≡ first ∷ others
    → IsEntry r b models first × All (λ e. score_less e first ≡ false) (eligible_models models r b)
sort-head r b models first others e =
    let entries = eligible_models models r b in
    let sorted : IsSorted score_less (first ∷ others) =
      subst (IsSorted score_less) e (sort-IsSorted score_less score_less-IsWeakOrder entries) in
    (
      (subst (All (IsEntry r b models)) e (
          sort-All score_less (IsEntry r b models) entries (eligible_models-IsEntry r b models))).0,
      sort-All_inv score_less (λ x. score_less x first ≡ false) entries
          (subst (All (λ x. score_less x first ≡ false)) (sym e)
            (score_less_irreflexive first, sorted.0)),
    )

ranked_candidates-IsBest :
    (request : ResolveRequest) (first : EligibleModel) (others : List EligibleModel)
    → ranked_candidates request ≡ first ∷ others
    → IsBest request first.model
unfolding ranked_candidates
ranked_candidates-IsBest request first others e =
    let r = request.requirement in
    let b = granted request in
    let models = request.catalog.models in
    let (entry, least) = sort-head r b models first others e in
    record {
      listed = entry.listed;
      fits = entry.fits;
      rank = entry.rank;
      ranked = entry.ranked;
      least = λ n other listed fits ranked.
          subst (λ x. less (scored r other n).score x.score ≡ false) entry.scored_so
            (All-Memᴰ (λ x. score_less x first ≡ false) (scored r other n)
              (eligible_models models r b) least
              (Fits-eligible_models r b n models other fits ranked listed));
    }

-- What `resolve` went through when it returns a decision.
pub record Resolved (digest : CapabilityCatalog → String) (request : ResolveRequest)
    (d : RoutingDecision) : Type 0 where
  pub first : EligibleModel
  pub others : List EligibleModel
  pub ranking : ranked_candidates request ≡ first ∷ others
  pub decision : d ≡ decision_for request (digest request.catalog) first others
  pub requirement_ok : validate_requirement request.requirement ≡ ok tt
  pub budget_ok : validate_budget_grant request.budget ≡ ok tt
  pub decision_ok : validate_decision d ≡ ok tt

decide-Resolved :
    (request : ResolveRequest) (hash : String) (ranking : List EligibleModel) {d : RoutingDecision}
    → decide request hash ranking ≡ ok d
    → (first : EligibleModel) × (others : List EligibleModel) × (ranking ≡ first ∷ others)
      × (d ≡ decision_for request hash first others)
      × (validate_decision d ≡ ok tt)
unfolding decide
decide-Resolved request hash [] e = absurd (cc)
decide-Resolved request hash (first ∷ others) {d} e =
    let (valid, same) = >>-eq-ok (validate_decision (decision_for request hash first others)) _ e in
    let chosen : decision_for request hash first others ≡ d = cc in
    (first, others, refl, sym chosen, subst (λ x. validate_decision x ≡ ok tt) chosen valid)

catalog_hash-eq :
    (digest : CapabilityCatalog → String) (catalog : CapabilityCatalog) {hash : String}
    → catalog_hash digest catalog ≡ ok hash
    → hash ≡ digest catalog
unfolding catalog_hash
catalog_hash-eq digest catalog e = let (valid, same) = >>-eq-ok (validate_catalog catalog) _ e in cc

pub resolve-Resolved :
    (digest : CapabilityCatalog → String) (request : ResolveRequest) (d : RoutingDecision)
    → resolve digest request ≡ ok d
    → Resolved digest request d
unfolding resolve
resolve-Resolved digest request d e =
    let (requirement_ok, e₁) = >>-eq-ok (validate_requirement request.requirement) _ e in
    let (budget_ok, e₂) = >>-eq-ok (validate_budget_grant request.budget) _ e₁ in
    let (catalog_ok, e₃) = >>-eq-ok (validate_catalog request.catalog) _ e₂ in
    let (hash, hashed, e₄) =
      >>=-eq-ok (catalog_hash digest request.catalog)
        (λ h. expect_hash request h >> decide request h (ranked_candidates request)) e₃ in
    let (matched, e₅) = >>-eq-ok (expect_hash request hash) _ e₄ in
    let (first, others, ranking, decision, decision_ok) =
      decide-Resolved request hash (ranked_candidates request) e₅ in
    record {
      first = first;
      others = others;
      ranking = ranking;
      decision = cc (decision, catalog_hash-eq digest request.catalog hashed);
      requirement_ok = requirement_ok;
      budget_ok = budget_ok;
      decision_ok = decision_ok;
    }

-- What `resolve` returns selects the target of the best model: one of the catalog that fits the
-- requirement under the granted budget, and that no other fitting model of the catalog precedes.
pub resolve-IsBest :
    (digest : CapabilityCatalog → String) (request : ResolveRequest) (d : RoutingDecision)
    → resolve digest request ≡ ok d
    → (m : ModelCapability) × IsBest request m × (d.selected ≡ m.target)
unfolding decision_for
resolve-IsBest digest request d e =
    let r = resolve-Resolved digest request d e in
    (
      r.first.model,
      ranked_candidates-IsBest request r.first r.others r.ranking,
      ap (λ (x : RoutingDecision). x.selected) r.decision,
    )
