-- ===== src/Routing/Resolve/Order.antt =====
-- The comparison of scores is a strict weak order, so the ranking has a least element.
use fishyume.Base.{
  ℕ, ◌≡◌, Bool, true, false, arith, inl, inr, Bool-cases, ltb, ◌==◌, not, ◌||◌, if◌then◌else◌,
}
use fishyume.Base.Int.{ℤ, ltz}
use fishyume.Base.Sort.{IsWeakOrder}
use fishyume.Base.TextOrder.{str_lt_asymmetric, str_lt_negatively_transitive}
use fishyume.Routing.Resolver.{ModelScore, EligibleModel, less}
use fishyume.Routing.Resolve.{score_less}

less_asymmetric : (a b : ModelScore) → less a b ≡ true → less b a ≡ false
unfolding less
less_asymmetric a b h = ground (arith, str_lt_asymmetric a.id b.id)

-- One level of the comparison, and its rule: the levels below matter only where the keys agree.
abbrev level : ℕ → ℕ → Bool → Bool
level x y below = if not (x == y) then ltb x y else below

level_trans :
    (a b c : ℕ) (ba cb ca : Bool)
    → (ba ≡ false → cb ≡ false → ca ≡ false)
    → level b a ba ≡ false
    → level c b cb ≡ false
    → level c a ca ≡ false
level_trans a b c ba cb ca below h k = ground arith

abbrev level_int : ℤ → ℤ → Bool → Bool
level_int x y below = if ltz x y || ltz y x then ltz x y else below

level_int_trans :
    (a b c : ℤ) (ba cb ca : Bool)
    → (ba ≡ false → cb ≡ false → ca ≡ false)
    → level_int b a ba ≡ false
    → level_int c b cb ≡ false
    → level_int c a ca ≡ false
level_int_trans a b c ba cb ca below h k = ground arith

less_negatively_transitive :
    (a b c : ModelScore) → less b a ≡ false → less c b ≡ false → less c a ≡ false
unfolding less
less_negatively_transitive a b c =
    level_trans a.candidate_rank b.candidate_rank c.candidate_rank _ _ _ (
      level_trans a.quality_delta b.quality_delta c.quality_delta _ _ _ (
        level_trans a.latency_delta b.latency_delta c.latency_delta _ _ _ (
          level_int_trans a.cost_units b.cost_units c.cost_units _ _ _
            (str_lt_negatively_transitive a.id b.id c.id))))

pub score_less-IsWeakOrder : IsWeakOrder score_less
score_less-IsWeakOrder = record {
  asymmetric = λ a b. less_asymmetric a.score b.score;
  negatively_transitive = λ a b c. less_negatively_transitive a.score b.score c.score;
}

pub score_less_irreflexive : (e : EligibleModel) → score_less e e ≡ false
score_less_irreflexive e = elim (Bool-cases (score_less e e)) [
  | inl lower ↦ less_asymmetric e.score e.score lower
  | inr same ↦ same
]
