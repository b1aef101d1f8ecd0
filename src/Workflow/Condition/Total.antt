-- ===== src/Workflow/Condition/Total.antt =====
-- A validated condition evaluates, unless a result that it compares is not there.
use fishyume.Base.{
  String, Bool, true, false, not, ◌&&◌, ◌||◌, List, [], ◌∷◌, ◌++◌, Option, none, some, ok, ◌≡◌,
  refl, sym, ap, ◌∙◌, subst, reject_if, ◌⊎◌, inl, inr, arith, str_eq, contains, All, All-contains,
  if◌then◌else◌, >>-eq-ok,
}
use fishyume.Base.Text.{is_empty}
use fishyume.Base.Assoc.{lookup}
use fishyume.Workflow.Model.{
  Scalar, null, is_null, normalize_scalar, Condition, Group, Conditions, Negation, condition,
  absent, group, end, also, unset, negate, Result,
}
use fishyume.Workflow.Reference.{
  Value, Results, split_dots, join_dots, result_field, reference_value,
}
use fishyume.Workflow.Condition.{
  negated_value, evaluate, evaluate_compare, evaluate_all, evaluate_any, result_missing, missing_in,
  scalar_checked, compare_parts, incomplete_compare, not_an_ancestor, private_field,
  validate_condition, validate_compare, validate_conditions, allowed_result_fields, Evaluated,
  compare_parts, same_encoding,
}

-- A result holds the field: the two texts that the source asks for are not empty.
unfoldable pub provides : Result → (field : String) → Bool
provides r field =
    if str_eq field "result.summary"
    then not (is_empty r.summary)
    else if str_eq field "result.decision"
    then not (is_empty r.decision)
    else true

-- An ID without dots, such as every valid node ID.
abbrev pub IsDotless : String → Type 0
IsDotless id = split_dots id ≡ id ∷ []

abbrev pub IsField : Result → String → Type 0
IsField r field =
    provides r field ≡ true → (v : Value) × (result_field r (join_dots (split_dots field)) ≡ ok v)

pub result-IsField : (r : Result) → All (IsField r) allowed_result_fields
unfolding provides result_field join_dots split_dots
result-IsField r = (
  λ h. (Value.scalar (Scalar.text r.summary), ground arith),
  (
    λ h. (Value.texts r.artifacts, refl),
    (
      λ h. (Value.texts r.warnings, refl),
      (
        λ h. (Value.texts r.checks, refl),
        (
          λ h. (Value.scalar (Scalar.text r.decision), ground arith),
          (
            λ h. (Value.scalar (Scalar.text r.reason), refl),
            (
              λ h. (Value.integer r.usage.input_tokens_estimated, refl),
              (λ h. (Value.integer r.usage.output_tokens_estimated, refl), tt),
            ),
          ),
        ),
      ),
    ),
  ),
)

-- Every result that the condition compares, and that is there, holds the field that it names.
abbrev provided_by : Option Result → (field : String) → Bool
provided_by none field = true
provided_by (some r) field = provides r field

unfoldable mutual
  pub provided : Condition → Results → Bool
  provided (condition node field wanted all any negated) results =
      (is_empty node || provided_by (lookup node results) field)
      && provided_group all results
      && provided_group any results
      && provided_negation negated results

  pub provided_group : Group → Results → Bool
  provided_group absent results = true
  provided_group (group cs) results = provided_all cs results

  pub provided_all : Conditions → Results → Bool
  provided_all end results = true
  provided_all (also c cs) results = provided c results && provided_all cs results

  pub provided_negation : Negation → Results → Bool
  provided_negation unset results = true
  provided_negation (negate c) results = provided c results

module _ (marshal : Value → String) (results : Results) (ancestors : List String)
    (dotless : All IsDotless ancestors) where
  abbrev Evaluates : Evaluated → Type 0
  Evaluates e = (b : Bool) × (e ≡ ok b)

  encoded :
      (wanted : Scalar) (v : Value)
      → scalar_checked (normalize_scalar wanted) ≡ ok tt
      → Evaluates (same_encoding marshal (ok v) wanted)
  unfolding normalize_scalar
  encoded null v h = absurd (cc)
  encoded Scalar.unsupported v h = absurd (cc)
  encoded (Scalar.text t) v h = (str_eq (marshal v) (marshal (Value.scalar (Scalar.text t))), refl)
  encoded (Scalar.boolean b) v h =
      (str_eq (marshal v) (marshal (Value.scalar (Scalar.boolean b))), refl)
  encoded (Scalar.number n) v h =
      (str_eq (marshal v) (marshal (Value.scalar (Scalar.number n))), refl)

  compare_parts-dotless :
      (node field : String)
      → contains ancestors node ≡ true
      → compare_parts node field ≡ "nodes" ∷ node ∷ split_dots field
  compare_parts-dotless node field h =
      ap (λ ps. "nodes" ∷ ps ++ split_dots field) (All-contains IsDotless ancestors node dotless h)

  reference-found :
      (node field : String) (found : Option Result)
      → lookup node results ≡ found
      → contains allowed_result_fields field ≡ true
      → provided_by found field ≡ true
      → ((v : Value) × (reference_value ("nodes" ∷ node ∷ split_dots field) [] results ≡ ok v))
        ⊎ (found ≡ none)
  unfolding reference_value
  reference-found node field none l a p = inr refl
  reference-found node field (some r) l a p =
      let (v, holds) =
        All-contains (IsField r) allowed_result_fields field (result-IsField r) a p in
      inl (v, ground (arith, l, holds))

  compare-Evaluates :
      (node field : String) (wanted : Scalar)
      → validate_compare ancestors node field wanted ≡ ok tt
      → (is_empty node || provided_by (lookup node results) field) ≡ true
      → Evaluates (evaluate_compare marshal node field wanted results)
        ⊎ (lookup node results ≡ none) × (is_empty node ≡ false)
  unfolding validate_compare evaluate_compare
  compare-Evaluates node field wanted v p =
      let (c1, v1) =
        >>-eq-ok (reject_if (is_empty node || is_empty field || is_null wanted) incomplete_compare)
          _ v in
      let (c2, v2) = >>-eq-ok (reject_if (not (contains ancestors node)) not_an_ancestor) _ v1 in
      let (c3, v3) =
        >>-eq-ok (reject_if (not (contains allowed_result_fields field)) private_field) _ v2 in
      elim (reference-found node field (lookup node results) refl (ground arith) (ground arith)) [
        | inr gone ↦ inr (gone, ground arith)
        | inl (x, found) ↦ inl (
            subst (λ o. Evaluates (same_encoding marshal o wanted))
              (sym (
                ap (λ ps. reference_value ps [] results)
                  (compare_parts-dotless node field (ground arith))
                ∙ found))
              (encoded wanted x v3))
      ]

  abbrev ResultOf : Evaluated → (missing : Bool) → Type 0
  ResultOf e missing = Evaluates e ⊎ (missing ≡ true)

  negated :
      (e : Evaluated) (missing : Bool) → ResultOf e missing → ResultOf (negated_value e) missing
  negated e missing (inl (b, h)) = inl (not b, ap negated_value h)
  negated e missing (inr h) = inr h

  -- One child of a group, when the others are done.
  all_children :
      (c : Condition) (cs : Conditions)
      → ResultOf (evaluate marshal c results) (result_missing c results)
      → ResultOf (evaluate_all marshal cs results) (missing_in cs results)
      → ResultOf (evaluate_all marshal (also c cs) results) (missing_in (also c cs) results)
  unfolding evaluate_all missing_in
  all_children c cs (inr h) rest = inr (ground arith)
  all_children c cs (inl (false, h)) rest = inl (false, ground arith)
  all_children c cs (inl (true, h)) (inl (b, k)) = inl (b, ground arith)
  all_children c cs (inl (true, h)) (inr k) = inr (ground arith)

  any_children :
      (c : Condition) (cs : Conditions)
      → ResultOf (evaluate marshal c results) (result_missing c results)
      → ResultOf (evaluate_any marshal cs results) (missing_in cs results)
      → ResultOf (evaluate_any marshal (also c cs) results) (missing_in (also c cs) results)
  unfolding evaluate_any missing_in
  any_children c cs (inr h) rest = inr (ground arith)
  any_children c cs (inl (true, h)) rest = inl (true, ground arith)
  any_children c cs (inl (false, h)) (inl (b, k)) = inl (b, ground arith)
  any_children c cs (inl (false, h)) (inr k) = inr (ground arith)

  mutual
    unfolding evaluate validate_condition provided result_missing

    total :
        (c : Condition)
        → validate_condition c ancestors ≡ ok tt
        → provided c results ≡ true
        → ResultOf (evaluate marshal c results) (result_missing c results)
    total (condition node field wanted absent absent unset) v p =
        elim (compare-Evaluates node field wanted (ground arith) (ground arith)) [
          | inl evaluates ↦ inl evaluates
          | inr gone ↦ inr (ground arith)
        ]
    total (condition node field wanted (group cs) absent unset) v p =
        elim (total_all cs (ground arith) (ground arith)) [
          | inl evaluates ↦ inl evaluates
          | inr gone ↦ inr (ground arith)
        ]
    total (condition node field wanted absent (group cs) unset) v p =
        elim (total_any cs (ground arith) (ground arith)) [
          | inl evaluates ↦ inl evaluates
          | inr gone ↦ inr (ground arith)
        ]
    total (condition node field wanted absent absent (negate c)) v p =
        elim (negated (evaluate marshal c results) (result_missing c results)
          (total c (ground arith) (ground arith))) [
            | inl evaluates ↦ inl evaluates
            | inr gone ↦ inr (ground arith)
          ]
    total (condition node field wanted (group cs) (group ds) n) v p = absurd (ground arith)
    total (condition node field wanted (group cs) absent (negate c)) v p = absurd (ground arith)
    total (condition node field wanted absent (group cs) (negate c)) v p = absurd (ground arith)

    total_all :
        (cs : Conditions)
        → validate_conditions cs ancestors ≡ ok tt
        → provided_all cs results ≡ true
        → ResultOf (evaluate_all marshal cs results) (missing_in cs results)
    total_all end v p = inl (true, refl)
    total_all (also c cs) v p =
        let (v1, v2) =
          >>-eq-ok (validate_condition c ancestors) (validate_conditions cs ancestors) v in
        all_children c cs (total c v1 (ground arith)) (total_all cs v2 (ground arith))

    total_any :
        (cs : Conditions)
        → validate_conditions cs ancestors ≡ ok tt
        → provided_all cs results ≡ true
        → ResultOf (evaluate_any marshal cs results) (missing_in cs results)
    total_any end v p = inl (false, refl)
    total_any (also c cs) v p =
        let (v1, v2) =
          >>-eq-ok (validate_condition c ancestors) (validate_conditions cs ancestors) v in
        any_children c cs (total c v1 (ground arith)) (total_any cs v2 (ground arith))

-- A condition that validation accepts over ancestors whose IDs have no dot evaluates to a Boolean,
-- unless a result that it compares is missing: it has no other error, when each result that is there
-- holds the fields that the condition compares.
pub evaluate-total :
    (marshal : Value → String) (results : Results) (ancestors : List String) (c : Condition)
    → All IsDotless ancestors
    → validate_condition c ancestors ≡ ok tt
    → provided c results ≡ true
    → ((b : Bool) × (evaluate marshal c results ≡ ok b)) ⊎ (result_missing c results ≡ true)
evaluate-total marshal results ancestors c dotless v p =
    total marshal results ancestors dotless c v p
