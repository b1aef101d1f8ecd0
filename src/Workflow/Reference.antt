-- ===== src/Workflow/Reference.antt =====
-- wf-engine/internal/workflow/template.go: the values that a dotted reference names. A panic of the
-- source (an index out of range) is an error of its own.
use Prim.Native.Char.{code}
use Prim.Native.String.{◌++◌ as append_text}
use fishyume.Base.{
  String, List, [], ◌∷◌, Option, none, some, Outcome, ok, err, str_eq, ◌==◌, if◌then◌else◌,
}
use fishyume.Base.Int.{ℤ}
use fishyume.Base.Text.{is_empty}
use fishyume.Base.Assoc.{lookup}
use fishyume.Workflow.Model.{Scalar, Result}

-- What a reference yields: an input, or a field of a result.
pub data Value : Type 0 where
  scalar : Scalar → Value
  texts : List String → Value
  integer : ℤ → Value

pub data ReferenceError : Type 0 where
  missing_input missing_result unsupported_field index_out_of_range : ReferenceError

abbrev cons_head : String → List String → List String
cons_head c [] = c ∷ []
cons_head c (p ∷ ps) = append_text c p ∷ ps

-- `strings.Split(path, ".")`
unfoldable pub split_dots : String → List String
split_dots String.[] = "" ∷ []
split_dots (String.◌∷◌ c s) =
    let rest = split_dots s in
    if code c == b'.' then "" ∷ rest else cons_head (String.◌∷◌ c String.[]) rest

-- `strings.Join(parts, ".")`
unfoldable pub join_dots : List String → String
join_dots [] = ""
join_dots (p ∷ []) = p
join_dots (p ∷ q ∷ ps) = append_text p (append_text "." (join_dots (q ∷ ps)))

abbrev pub present : String → Outcome ReferenceError Value
present s = if is_empty s then err missing_result else ok (Value.scalar (Scalar.text s))

-- The `switch` on the field of a result.
unfoldable pub result_field : Result → (field : String) → Outcome ReferenceError Value
result_field result field =
    if str_eq field "result.summary"
    then present result.summary
    else if str_eq field "result.artifacts"
    then ok (Value.texts result.artifacts)
    else if str_eq field "result.warnings"
    then ok (Value.texts result.warnings)
    else if str_eq field "result.checks"
    then ok (Value.texts result.checks)
    else if str_eq field "result.decision"
    then present result.decision
    else if str_eq field "result.reason"
    then ok (Value.scalar (Scalar.text result.reason))
    else if str_eq field "result.usage.inputTokensEstimated"
    then ok (Value.integer result.usage.input_tokens_estimated)
    else if str_eq field "result.usage.outputTokensEstimated"
    then ok (Value.integer result.usage.output_tokens_estimated)
    else err unsupported_field

abbrev pub Results : Type 0
Results = List (String × Result)

abbrev input_or_missing : Option Scalar → Outcome ReferenceError Value
input_or_missing none = err missing_input
input_or_missing (some v) = ok (Value.scalar v)

abbrev field_or_missing : Option Result → List String → Outcome ReferenceError Value
field_or_missing none parts = err missing_result
field_or_missing (some result) parts = result_field result (join_dots parts)

-- `referenceValue` on the parts of its path.
unfoldable pub reference_value :
    List String → (inputs : List (String × Scalar)) → Results → Outcome ReferenceError Value
reference_value [] inputs results = err index_out_of_range
reference_value (first ∷ []) inputs results = err index_out_of_range
reference_value (first ∷ name ∷ parts) inputs results =
    if str_eq first "inputs"
    then input_or_missing (lookup name inputs)
    else field_or_missing (lookup name results) parts
