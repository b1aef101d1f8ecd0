-- ===== src/Routing/Resolver.antt =====
-- wf-engine/internal/routing/resolver.go: the choice of a model for a requirement. The catalog's
-- hash (SHA-256 of its canonical JSON) is the parameter `digest`.
use Prim.Native.String.{◌++◌ as append_text}
use fishyume.Base.{
  ℕ, ◌+◌, ◌-◌, String, Bool, true, not, ◌&&◌, ◌||◌, List, [], ◌∷◌, Option, none, some, length,
  is_nil, contains, str_eq, str_lt, leb, ltb, ◌==◌, if◌then◌else◌,
}
use fishyume.Base.Int.{ℤ, pos, ltz}
use fishyume.Routing.Contract.{
  Complexity, simple, standard, complex, QualityClass, economy, premium, CostClass, low, medium,
  high, LatencyClass, fast, slow, Target, ModelCapability, CapabilityCatalog, RoutingRequirement,
  BudgetGrant,
}

pub record ResolveRequest : Type 0 where
  pub catalog : CapabilityCatalog
  pub catalog_hash : String
  pub requirement : RoutingRequirement
  pub budget : BudgetGrant

pub record ModelScore : Type 0 where
  pub candidate_rank : ℕ
  pub quality_delta : ℕ
  pub latency_delta : ℕ
  pub cost_units : ℤ
  pub id : String

pub record EligibleModel : Type 0 where
  pub model : ModelCapability
  pub score : ModelScore

unfoldable pub less : ModelScore → ModelScore → Bool
less s other =
    if not (s.candidate_rank == other.candidate_rank)
    then ltb s.candidate_rank other.candidate_rank
    else if not (s.quality_delta == other.quality_delta)
    then ltb s.quality_delta other.quality_delta
    else if not (s.latency_delta == other.latency_delta)
    then ltb s.latency_delta other.latency_delta
    else if ltz s.cost_units other.cost_units || ltz other.cost_units s.cost_units
    then ltz s.cost_units other.cost_units
    else str_lt s.id other.id

abbrev pub min_quality_for_complexity : Complexity → QualityClass
min_quality_for_complexity complex = premium
min_quality_for_complexity standard = QualityClass.balanced
min_quality_for_complexity _ = economy

abbrev pub quality_rank : QualityClass → ℕ
quality_rank premium = 2
quality_rank QualityClass.balanced = 1
quality_rank _ = 0

abbrev pub latency_rank : LatencyClass → ℕ
latency_rank slow = 2
latency_rank LatencyClass.balanced = 1
latency_rank _ = 0

abbrev pub cost_units : CostClass → ℤ
cost_units high = pos 100
cost_units medium = pos 10
cost_units _ = pos 1

-- `abs(a - b)` of two ranks.
abbrev pub rank_delta : ℕ → ℕ → ℕ
rank_delta a b = (a - b) + (b - a)

unfoldable pub restrict_budget : BudgetGrant → BudgetGrant → BudgetGrant
restrict_budget requirement grant = record {
  max_cost_units =
      if ltz grant.max_cost_units requirement.max_cost_units
      then grant.max_cost_units
      else requirement.max_cost_units;
  context_bytes =
      if ltz grant.context_bytes requirement.context_bytes
      then grant.context_bytes
      else requirement.context_bytes;
  output_bytes =
      if ltz grant.output_bytes requirement.output_bytes
      then grant.output_bytes
      else requirement.output_bytes;
}

-- `containsAll`: the required capabilities are among those that a model has.
unfoldable pub contains_all : (have required : List String) → Bool
contains_all have [] = true
contains_all have (c ∷ required) = contains have c && contains_all have required

-- `allowed[id]`, the last index at which an ID stands; IDs of a valid requirement are distinct.
unfoldable pub rank_from : ℕ → List String → String → Option ℕ
rank_from index [] id = none
rank_from index (candidate ∷ candidates) id = elim (rank_from (index + 1) candidates id) [
  | some later ↦ some later
  | none ↦ if str_eq candidate id then some index else none
]

-- The rank of a model among the candidates: `none` where a candidate list leaves it out.
unfoldable pub candidate_rank : RoutingRequirement → ModelCapability → Option ℕ
candidate_rank requirement model =
    if is_nil requirement.candidates
    then some (length requirement.candidates + 1)
    else rank_from 0 requirement.candidates model.id

-- The guard of the loop of `eligibleModels`.
unfoldable pub is_excluded : RoutingRequirement → BudgetGrant → ModelCapability → Bool
is_excluded requirement budget model =
    not (contains_all model.capabilities requirement.capabilities)
    || ltb (quality_rank model.quality)
        (quality_rank (min_quality_for_complexity requirement.complexity))
    || ltz budget.max_cost_units (cost_units model.cost)
    || ltz model.context_limit_bytes budget.context_bytes
    || ltz model.max_output_bytes budget.output_bytes

abbrev pub scored : RoutingRequirement → ℕ → ModelCapability → EligibleModel
scored requirement rank model = record {
  model = model;
  score = record {
    candidate_rank = rank;
    quality_delta = rank_delta (quality_rank model.quality) (quality_rank requirement.quality);
    latency_delta = rank_delta (latency_rank model.latency) (latency_rank requirement.latency);
    cost_units = cost_units model.cost;
    id = model.id;
  };
}

unfoldable pub eligible_models :
    List ModelCapability → RoutingRequirement → BudgetGrant → List EligibleModel
eligible_models [] requirement budget = []
eligible_models (model ∷ models) requirement budget =
    let rest = eligible_models models requirement budget in
    elim (candidate_rank requirement model) [
      | none ↦ rest
      | some rank ↦
          if is_excluded requirement budget model
          then rest
          else scored requirement rank model ∷ rest
    ]

abbrev pub complexity_text : Complexity → String
complexity_text simple = "simple"
complexity_text standard = "standard"
complexity_text complex = "complex"
complexity_text (Complexity.other s) = s

abbrev pub quality_text : QualityClass → String
quality_text economy = "economy"
quality_text QualityClass.balanced = "balanced"
quality_text premium = "premium"
quality_text (QualityClass.other s) = s

abbrev pub cost_text : CostClass → String
cost_text low = "low"
cost_text medium = "medium"
cost_text high = "high"
cost_text (CostClass.other s) = s

abbrev pub latency_text : LatencyClass → String
latency_text fast = "fast"
latency_text LatencyClass.balanced = "balanced"
latency_text slow = "slow"
latency_text (LatencyClass.other s) = s

unfoldable pub reason_codes :
    Complexity → (candidates : List String) → ModelCapability → ModelScore → List String
reason_codes complexity candidates selected score =
    "capability_match"
    ∷ append_text "complexity_" (complexity_text complexity)
    ∷ append_text "quality_preference_" (quality_text selected.quality)
    ∷ append_text "latency_preference_" (latency_text selected.latency)
    ∷ append_text "cost_preference_" (cost_text selected.cost)
    ∷ "budget_context"
    ∷ "budget_output"
    ∷ (if not (is_nil candidates) && leb score.candidate_rank (length candidates)
        then "candidate_preference" ∷ []
        else [])

-- `candidates[1 : fallbackCount + 1]`: at most `max_fallbacks` targets behind the first.
unfoldable pub fallback_targets : ℕ → List EligibleModel → List Target
fallback_targets ℕ.zero models = []
fallback_targets (ℕ.suc n) [] = []
fallback_targets (ℕ.suc n) (candidate ∷ models) = candidate.model.target ∷ fallback_targets n models
