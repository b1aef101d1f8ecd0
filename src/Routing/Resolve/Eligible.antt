-- ===== src/Routing/Resolve/Eligible.antt =====
-- `eligibleModels` keeps exactly the models that fit the requirement and the budget.
use fishyume.Base.{
  ℕ, ◌+◌, ◌≤◌, ◌≡◌, refl, subst, String, true, false, List, [], ◌∷◌, none, some, arith, All,
  All-map, ◌⊎◌, inl, inr, Bool-cases, Option-cases, contains, is_nil, length, str_eq,
}
use mathlib.Core.List.{Memᴰ}
use fishyume.Base.Int.{◌≤ℤ◌}
use fishyume.Routing.Contract.{ModelCapability, RoutingRequirement, BudgetGrant}
use fishyume.Routing.Resolver.{
  EligibleModel, quality_rank, min_quality_for_complexity, cost_units, contains_all, rank_from,
  candidate_rank, is_excluded, scored, eligible_models,
}

-- What the requirement and the budget ask of a model, apart from how the resolver tests it.
pub record Fits (r : RoutingRequirement) (b : BudgetGrant) (m : ModelCapability) : Type 0 where
  pub capable : All (λ c. contains m.capabilities c ≡ true) r.capabilities
  pub good_enough : quality_rank (min_quality_for_complexity r.complexity) ≤ quality_rank m.quality
  pub affordable : cost_units m.cost ≤ℤ b.max_cost_units
  pub roomy : b.context_bytes ≤ℤ m.context_limit_bytes
  pub verbose : b.output_bytes ≤ℤ m.max_output_bytes
  pub allowed : (r.candidates ≡ []) ⊎ (contains r.candidates m.id ≡ true)

contains_all-All :
    (have required : List String)
    → contains_all have required ≡ true
    → All (λ c. contains have c ≡ true) required
unfolding contains_all
contains_all-All have [] h = tt
contains_all-All have (c ∷ required) h =
    (ground arith, contains_all-All have required (ground arith))

All-contains_all :
    (have required : List String)
    → All (λ c. contains have c ≡ true) required
    → contains_all have required ≡ true
unfolding contains_all
All-contains_all have [] h = refl
All-contains_all have (c ∷ required) h = ground (arith, All-contains_all have required h.1)

rank_from-contains :
    (i : ℕ) (candidates : List String) (id : String)
    → (rank_from i candidates id ≡ none) ⊎ (contains candidates id ≡ true)
unfolding rank_from contains
rank_from-contains i [] id = inl refl
rank_from-contains i (c ∷ candidates) id = ground (arith, rank_from-contains (i + 1) candidates id)

contains-rank_from :
    (i : ℕ) (candidates : List String) (id : String)
    → contains candidates id ≡ true
    → (rank : ℕ) × (rank_from i candidates id ≡ some rank)
unfolding rank_from contains
contains-rank_from i [] id h = absurd (cc)
contains-rank_from i (c ∷ candidates) id h = elim (Option-cases (rank_from (i + 1) candidates id)) [
  | inr (rank, found) ↦ (rank, rw found)
  | inl absent ↦ elim (Bool-cases (str_eq c id)) [
    | inl same ↦ (i, rw (absent, same))
    | inr other ↦ absurd (ground (arith, contains-rank_from (i + 1) candidates id (rw other at h)))
  ]
]

candidate_rank-allowed :
    (r : RoutingRequirement) (m : ModelCapability) {rank : ℕ}
    → candidate_rank r m ≡ some rank
    → (r.candidates ≡ []) ⊎ (contains r.candidates m.id ≡ true)
unfolding candidate_rank
candidate_rank-allowed r m h = ground (arith, rank_from-contains 0 r.candidates m.id)

is_excluded-Fits :
    (r : RoutingRequirement) (b : BudgetGrant) (m : ModelCapability) {rank : ℕ}
    → candidate_rank r m ≡ some rank
    → is_excluded r b m ≡ false
    → Fits r b m
unfolding is_excluded
is_excluded-Fits r b m k h = record {
  capable = contains_all-All m.capabilities r.capabilities (ground arith);
  good_enough = ground arith;
  affordable = ground arith;
  roomy = ground arith;
  verbose = ground arith;
  allowed = candidate_rank-allowed r m k;
}

module _ (r : RoutingRequirement) (b : BudgetGrant) where
  -- A model of the list, scored at its rank, that fits.
  pub record IsEntry (models : List ModelCapability) (e : EligibleModel) : Type 0 where
    pub listed : Memᴰ e.model models
    pub fits : Fits r b e.model
    pub rank : ℕ
    pub ranked : candidate_rank r e.model ≡ some rank
    pub scored_so : e ≡ scored r rank e.model

  IsEntry-cons :
      (m : ModelCapability) (models : List ModelCapability) (e : EligibleModel)
      → IsEntry models e
      → IsEntry (m ∷ models) e
  IsEntry-cons m models e h = record {
    listed = Memᴰ.tail h.listed;
    fits = h.fits;
    rank = h.rank;
    ranked = h.ranked;
    scored_so = h.scored_so;
  }

  pub eligible_models-IsEntry :
      (models : List ModelCapability) → All (IsEntry models) (eligible_models models r b)
  unfolding eligible_models
  eligible_models-IsEntry [] = tt
  eligible_models-IsEntry (m ∷ models) =
      let earlier : All (IsEntry (m ∷ models)) (eligible_models models r b) =
        All-map (IsEntry models) (IsEntry (m ∷ models)) (eligible_models models r b)
          (IsEntry-cons m models) (eligible_models-IsEntry models) in
      elim (Option-cases (candidate_rank r m)) [
        | inl absent ↦ rw (absent, eligible_models) earlier
        | inr (rank, ranked) ↦ elim (Bool-cases (is_excluded r b m)) [
          | inl out ↦ rw (ranked, out, eligible_models) earlier
          | inr kept ↦
              rw (ranked, kept, eligible_models)
                (
                  record {
                    listed = Memᴰ.head refl;
                    fits = is_excluded-Fits r b m ranked kept;
                    rank = rank;
                    ranked = ranked;
                    scored_so = refl;
                  },
                  earlier,
                )
        ]
      ]

  Fits-is_excluded : (m : ModelCapability) → Fits r b m → is_excluded r b m ≡ false
  unfolding is_excluded
  Fits-is_excluded m f = ground (arith, All-contains_all m.capabilities r.capabilities f.capable)

  contains-candidate_rank :
      (m : ModelCapability)
      → contains r.candidates m.id ≡ true
      → (rank : ℕ) × (candidate_rank r m ≡ some rank)
  unfolding candidate_rank
  contains-candidate_rank m listed =
      let (rank, found) = contains-rank_from 0 r.candidates m.id listed in
      elim (Bool-cases (is_nil r.candidates)) [
        | inl free ↦ (length r.candidates + 1, rw free)
        | inr some_listed ↦ (rank, rw some_listed found)
      ]

  pub Fits-candidate_rank :
      (m : ModelCapability) → Fits r b m → (rank : ℕ) × (candidate_rank r m ≡ some rank)
  unfolding candidate_rank
  Fits-candidate_rank m f = elim f.allowed [
    | inl free ↦ (1, rw free)
    | inr listed ↦ contains-candidate_rank m listed
  ]

  eligible_models-kept :
      (m : ModelCapability) (models : List ModelCapability) {rank : ℕ}
      → candidate_rank r m ≡ some rank
      → is_excluded r b m ≡ false
      → eligible_models (m ∷ models) r b ≡ scored r rank m ∷ eligible_models models r b
  unfolding eligible_models
  eligible_models-kept m models k h = rw (k, h, eligible_models)

  eligible_models-grows :
      (m : ModelCapability) (models : List ModelCapability) (e : EligibleModel)
      → Memᴰ e (eligible_models models r b)
      → Memᴰ e (eligible_models (m ∷ models) r b)
  unfolding eligible_models
  eligible_models-grows m models e h = elim (Option-cases (candidate_rank r m)) [
    | inl absent ↦ rw (absent, eligible_models) h
    | inr (rank, ranked) ↦ elim (Bool-cases (is_excluded r b m)) [
      | inl out ↦ rw (ranked, out, eligible_models) h
      | inr kept ↦ rw (ranked, kept, eligible_models) (Memᴰ.tail h)
    ]
  ]

  -- Every model that fits is scored.
  pub Fits-eligible_models :
      (m : ModelCapability) (models : List ModelCapability) (rank : ℕ)
      → Fits r b m
      → candidate_rank r m ≡ some rank
      → Memᴰ m models
      → Memᴰ (scored r rank m) (eligible_models models r b)
  Fits-eligible_models m [] rank f k h = elim h [ ]
  Fits-eligible_models m (n ∷ models) rank f k (Memᴰ.head e) =
      subst (λ x. Memᴰ (scored r rank m) (eligible_models (x ∷ models) r b)) e
        (rw (eligible_models-kept m models k (Fits-is_excluded m f)) (Memᴰ.head refl))
  Fits-eligible_models m (n ∷ models) rank f k (Memᴰ.tail h) =
      eligible_models-grows n models (scored r rank m) (Fits-eligible_models m models rank f k h)
