-- ===== src/Workflow/Condition.antt =====
-- wf-engine/internal/workflow/template.go and validate.go: `Evaluate` and `validateCondition`.
-- `marshal` stands for `encoding/json.Marshal` of the two values that a comparison encodes.
pub mod Total
use fishyume.Base.{
  ℕ, ◌+◌, String, Bool, true, false, not, ◌&&◌, ◌||◌, List, [], ◌∷◌, ◌++◌, Option, none, some,
  Outcome, ok, err, ◌>>=◌, ◌>>◌, reject_if, str_eq, contains, one_if, ◌==◌, if◌then◌else◌,
}
use fishyume.Base.Text.{is_empty}
use fishyume.Base.Assoc.{lookup}
use fishyume.Workflow.Model.{
  Scalar, ScalarError, normalize_scalar, is_null, Condition, Group, Conditions, Negation, condition,
  absent, group, end, also, unset, negate, Result,
}
use fishyume.Workflow.Reference.{Value, ReferenceError, Results, split_dots, reference_value}

pub data EvaluationError : Type 0 where
  reference : ReferenceError → EvaluationError
  equals : ScalarError → EvaluationError

abbrev pub Evaluated : Type 0
Evaluated = Outcome EvaluationError Bool

-- `return !value, err`
abbrev pub negated_value : Evaluated → Evaluated
negated_value (ok b) = ok (not b)
negated_value (err e) = err e

-- The parts of `"nodes." + node + "." + field`: splitting at dots distributes over the joining.
abbrev pub compare_parts : (node field : String) → List String
compare_parts node field = "nodes" ∷ split_dots node ++ split_dots field

module _ (marshal : Value → String) where
  -- `string(left) == string(right)`, behind the two encodings.
  abbrev pub same_encoding : Outcome ReferenceError Value → Scalar → Evaluated
  same_encoding (err e) wanted = err (reference e)
  same_encoding (ok value) wanted = elim (normalize_scalar wanted) [
    | err e ↦ err (equals e)
    | ok want ↦ ok (str_eq (marshal value) (marshal (Value.scalar want)))
  ]

  unfoldable pub evaluate_compare : (node field : String) → Scalar → Results → Evaluated
  evaluate_compare node field wanted results =
      same_encoding (reference_value (compare_parts node field) [] results) wanted

  -- `Not` comes before `All`, `All` before `Any`, and `Any` before a comparison.
  unfoldable mutual
    pub evaluate : Condition → Results → Evaluated
    evaluate (condition node field wanted all any negated) results =
        elim (evaluate_not negated results) [
          | some value ↦ value
          | none ↦ elim (evaluate_all_group all results) [
            | some value ↦ value
            | none ↦ elim (evaluate_any_group any results) [
              | some value ↦ value
              | none ↦ evaluate_compare node field wanted results
            ]
          ]
        ]

    pub evaluate_not : Negation → Results → Option Evaluated
    evaluate_not unset results = none
    evaluate_not (negate c) results = some (negated_value (evaluate c results))

    pub evaluate_all_group : Group → Results → Option Evaluated
    evaluate_all_group absent results = none
    evaluate_all_group (group cs) results = some (evaluate_all cs results)

    pub evaluate_any_group : Group → Results → Option Evaluated
    evaluate_any_group absent results = none
    evaluate_any_group (group cs) results = some (evaluate_any cs results)

    -- The loop over `All`: the first child that is false or fails ends it.
    pub evaluate_all : Conditions → Results → Evaluated
    evaluate_all end results = ok true
    evaluate_all (also c cs) results = elim (evaluate c results) [
      | ok true ↦ evaluate_all cs results
      | other ↦ other
    ]

    -- The loop over `Any`: the first child that is true or fails ends it.
    pub evaluate_any : Conditions → Results → Evaluated
    evaluate_any end results = ok false
    evaluate_any (also c cs) results = elim (evaluate c results) [
      | ok false ↦ evaluate_any cs results
      | other ↦ other
    ]

-- Whether a result that the condition compares is not there: `conditionResultMissing`.
unfoldable mutual
  pub result_missing : Condition → Results → Bool
  result_missing (condition node field wanted all any negated) results =
      if not (is_empty node)
      then elim (lookup node results) [ none ↦ true | some r ↦ false ]
      else (missing_in_group all results
          || missing_in_group any results
          || missing_in_negation negated results)

  pub missing_in_group : Group → Results → Bool
  missing_in_group absent results = false
  missing_in_group (group cs) results = missing_in cs results

  pub missing_in : Conditions → Results → Bool
  missing_in end results = false
  missing_in (also c cs) results = result_missing c results || missing_in cs results

  pub missing_in_negation : Negation → Results → Bool
  missing_in_negation unset results = false
  missing_in_negation (negate c) results = result_missing c results

pub data ConditionError : Type 0 where
  not_exactly_one_form incomplete_compare not_an_ancestor private_field : ConditionError
  bad_equals : ScalarError → ConditionError
  empty_group : ConditionError

abbrev pub allowed_result_fields : List String
allowed_result_fields =
    "result.summary" ∷ "result.artifacts" ∷ "result.warnings" ∷ "result.checks" ∷ "result.decision"
    ∷ "result.reason" ∷ "result.usage.inputTokensEstimated" ∷ "result.usage.outputTokensEstimated"
    ∷ []

abbrev pub is_present : Group → Bool
is_present absent = false
is_present (group cs) = true

abbrev pub is_negated : Negation → Bool
is_negated unset = false
is_negated (negate c) = true

abbrev pub has_compare : (node field : String) → Scalar → Bool
has_compare node field wanted = not (is_empty node) || not (is_empty field) || not (is_null wanted)

abbrev pub scalar_checked : Outcome ScalarError Scalar → Outcome ConditionError (Unit {0})
scalar_checked (ok s) = ok tt
scalar_checked (err e) = err (bad_equals e)

unfoldable pub validate_compare :
    (ancestors : List String) (node field : String) → Scalar → Outcome ConditionError (Unit {0})
validate_compare ancestors node field wanted = do
  reject_if (is_empty node || is_empty field || is_null wanted) incomplete_compare
  reject_if (not (contains ancestors node)) not_an_ancestor
  reject_if (not (contains allowed_result_fields field)) private_field
  scalar_checked (normalize_scalar wanted)

abbrev pub is_end : Conditions → Bool
is_end end = true
is_end (also c cs) = false

-- The tests come in the source's order: the number of forms, a comparison, a group, a negation.
unfoldable mutual
  pub validate_condition : Condition → (ancestors : List String) → Outcome ConditionError (Unit {0})
  validate_condition (condition node field wanted all any negated) ancestors =
      let in_any = validate_group any ancestors in
      let in_all = validate_group all ancestors in
      let in_negation = validate_negation negated ancestors in
      if not (
        one_if (has_compare node field wanted)
          + one_if (is_present all)
          + one_if (is_present any)
          + one_if (is_negated negated)
        == 1)
      then err not_exactly_one_form
      else if has_compare node field wanted
      then validate_compare ancestors node field wanted
      else if is_present any
      then in_any
      else if is_present all
      then in_all
      else in_negation

  pub validate_group : Group → (ancestors : List String) → Outcome ConditionError (Unit {0})
  validate_group absent ancestors = ok tt
  validate_group (group cs) ancestors =
      if is_end cs then err empty_group else validate_conditions cs ancestors

  pub validate_conditions :
      Conditions → (ancestors : List String) → Outcome ConditionError (Unit {0})
  validate_conditions end ancestors = ok tt
  validate_conditions (also c cs) ancestors =
      validate_condition c ancestors >> validate_conditions cs ancestors

  pub validate_negation : Negation → (ancestors : List String) → Outcome ConditionError (Unit {0})
  validate_negation unset ancestors = ok tt
  validate_negation (negate c) ancestors = validate_condition c ancestors
