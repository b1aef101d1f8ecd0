-- ===== src/Workflow/Template.antt =====
-- wf-engine/internal/workflow/template.go: `ParseTemplate`, `validateReference` and `Render`.
-- `marshal` stands for `encoding/json.Marshal` of a value that is no text, which may fail.
pub mod Rendering
use Prim.Native.Char.{code}
use Prim.Native.String.{◌++◌ as append_text}
use fishyume.Base.{
  ℕ, zero, suc, ◌+◌, ◌-◌, String, Bool, true, false, not, ◌&&◌, ◌||◌, List, [], ◌∷◌, Option, none,
  some, Outcome, ok, err, ◌>>=◌, ◌>>◌, reject_if, str_eq, contains, length, leb, ltb, ◌==◌,
  if◌then◌else◌,
}
use fishyume.Base.Assoc.{lookup, keys}
use fishyume.Base.Text.{byte_length, is_letter, is_name_rest}
use fishyume.Workflow.Model.{Scalar, InputDeclaration}
use fishyume.Workflow.Reference.{
  Value, Results, ReferenceError, split_dots, join_dots, reference_value,
}
use fishyume.Workflow.Condition.{allowed_result_fields}

-- The regular expression's `\s`.
abbrev is_blank_char : ℕ → Bool
is_blank_char c = c == 0x20 || c == 0x9 || c == 0xa || c == 0xc || c == 0xd

-- Where a match of the pattern stands: behind `{{` and blanks, at the first character of a name, in
-- a name (of how many dots before it), behind the path, or behind the first `}`.
pub data Stage : Type 0 where
  opening second blanks : Stage
  name_start : (dots : ℕ) → Stage
  in_name : (dots : ℕ) → Stage
  trailing closing : Stage

-- One match of `templateReferencePattern` at the start of a text: its path and its length. `path` and
-- `taken` are what is read already. The pattern is deterministic: each character has one way on.
unfoldable pub match_from : Stage → (path : String) → (taken : ℕ) → String → Option (String × ℕ)
match_from stage path taken String.[] = none
match_from opening path taken (String.◌∷◌ c s) =
    let rest = match_from second path (taken + 1) s in if code c == b'{' then rest else none
match_from second path taken (String.◌∷◌ c s) =
    let rest = match_from blanks path (taken + 1) s in if code c == b'{' then rest else none
match_from blanks path taken (String.◌∷◌ c s) =
    let more = match_from blanks path (taken + 1) s in
    let name = match_from (in_name 0) (append_text path (String.◌∷◌ c String.[])) (taken + 1) s in
    if is_blank_char (code c) then more else if is_letter (code c) then name else none
match_from (name_start dots) path taken (String.◌∷◌ c s) =
    let name =
      match_from (in_name dots) (append_text path (String.◌∷◌ c String.[])) (taken + 1) s in
    if is_letter (code c) then name else none
match_from (in_name dots) path taken (String.◌∷◌ c s) =
    let more =
      match_from (in_name dots) (append_text path (String.◌∷◌ c String.[])) (taken + 1) s in
    let next =
      match_from (name_start (suc dots)) (append_text path (String.◌∷◌ c String.[])) (taken + 1)
        s in
    let blank = match_from trailing path (taken + 1) s in
    let close = match_from closing path (taken + 1) s in
    if is_name_rest (code c)
    then more
    else if code c == b'.'
    then next
    else if not (ltb 0 dots)
    then none
    else if is_blank_char (code c)
    then blank
    else if code c == b'}'
    then close
    else none
match_from trailing path taken (String.◌∷◌ c s) =
    let blank = match_from trailing path (taken + 1) s in
    let close = match_from closing path (taken + 1) s in
    if is_blank_char (code c) then blank else if code c == b'}' then close else none
match_from closing path taken (String.◌∷◌ c s) =
    if code c == b'}' then some (path, taken + 1) else none

-- A template: its characters outside of the references, and the paths of its references, with the
-- text of each.
pub data Piece : Type 0 where
  literal : (character : String) → Piece
  reference : (path expression : String) → Piece

unfoldable pub take_text : ℕ → String → String
take_text zero s = ""
take_text (suc n) String.[] = ""
take_text (suc n) (String.◌∷◌ c s) = String.◌∷◌ c (take_text n s)

-- `FindAllStringSubmatchIndex`: the leftmost matches that do not overlap. `covered` characters belong
-- to the match before.
unfoldable pub pieces : (covered : ℕ) → String → List Piece
unfolding match_from take_text
pieces covered String.[] = []
pieces (suc covered) (String.◌∷◌ c s) = pieces covered s
pieces zero (String.◌∷◌ c s) = elim (match_from opening "" 0 (String.◌∷◌ c s)) [
  | none ↦ literal (String.◌∷◌ c String.[]) ∷ pieces zero s
  | some (path, n) ↦ reference path (take_text n (String.◌∷◌ c s)) ∷ pieces (n - 1) s
]

pub data TemplateError : Type 0 where
  undeclared_input not_an_ancestor private_field unsupported_reference : TemplateError
  unsupported_expression unmatched_delimiter : TemplateError

abbrev pub check_result_field :
    (ancestors : List String) → (node field : String) → Outcome TemplateError (Unit {0})
check_result_field ancestors node field = do
  reject_if (not (contains ancestors node)) not_an_ancestor
  reject_if (not (contains allowed_result_fields field)) private_field

-- `validateReference` on the parts of its path.
unfoldable pub validate_parts :
    (inputs ancestors : List String) → (parts : List String) → Outcome TemplateError (Unit {0})
validate_parts inputs ancestors (first ∷ name ∷ []) =
    if str_eq first "inputs"
    then reject_if (not (contains inputs name)) undeclared_input
    else err unsupported_reference
validate_parts inputs ancestors (first ∷ node ∷ field ∷ more ∷ rest) =
    if str_eq first "nodes"
    then check_result_field ancestors node (join_dots (field ∷ more ∷ rest))
    else err unsupported_reference
validate_parts inputs ancestors _ = err unsupported_reference

unfoldable pub validate_references :
    (inputs ancestors : List String) → List Piece → Outcome TemplateError (Unit {0})
unfolding validate_parts split_dots join_dots
validate_references inputs ancestors [] = ok tt
validate_references inputs ancestors (literal c ∷ rest) = validate_references inputs ancestors rest
validate_references inputs ancestors (reference path expression ∷ rest) = do
  validate_parts inputs ancestors (split_dots path)
  validate_references inputs ancestors rest

-- The first character of what follows: a reference starts with `{`.
abbrev pub starts_with : (character : String) → List Piece → Bool
starts_with character [] = false
starts_with character (literal c ∷ rest) = str_eq c character
starts_with character (reference path expression ∷ rest) = str_eq "{" character

-- The second loop: no `{{` and no `}}` starts outside of the references.
unfoldable pub check_delimiters : List Piece → Outcome TemplateError (Unit {0})
check_delimiters [] = ok tt
check_delimiters (reference path expression ∷ rest) = check_delimiters rest
check_delimiters (literal c ∷ rest) = do
  reject_if (str_eq c "{" && starts_with "{" rest) unsupported_expression
  reject_if (str_eq c "}" && starts_with "}" rest) unmatched_delimiter
  check_delimiters rest

unfoldable pub parse_template :
    (text : String)
    → (inputs : List (String × InputDeclaration)) → (ancestors : List String)
    → Outcome TemplateError (List Piece)
unfolding pieces validate_references check_delimiters
parse_template text inputs ancestors = do
  let found = pieces zero text
  validate_references (keys inputs) ancestors found
  check_delimiters found
  ok found

pub data RenderError : Type 0 where
  missing_value : ReferenceError → RenderError
  not_encoded prompt_too_long : RenderError

abbrev pub max_prompt_bytes : ℕ
max_prompt_bytes = 131_072

abbrev pub encoded : Option String → Outcome RenderError String
encoded none = err not_encoded
encoded (some text) = ok text

module _ (marshal : Value → Option String) where
  unfoldable pub render_value : Value → Outcome RenderError String
  render_value (Value.scalar (Scalar.text s)) = ok s
  render_value v = encoded (marshal v)

  abbrev pub render_reference : Outcome ReferenceError Value → Outcome RenderError String
  render_reference (ok v) = render_value v
  render_reference (err e) = err (missing_value e)

  unfoldable pub render_pieces :
      List Piece → (inputs : List (String × Scalar)) → Results → Outcome RenderError String
  unfolding split_dots render_value
  render_pieces [] inputs results = ok ""
  render_pieces (literal c ∷ rest) inputs results = do
    others ← render_pieces rest inputs results
    ok (append_text c others)
  render_pieces (reference path expression ∷ rest) inputs results = do
    value ← render_reference (reference_value (split_dots path) inputs results)
    others ← render_pieces rest inputs results
    ok (append_text value others)

  -- `Render` finds the same pieces in the text of the template again.
  unfoldable pub render :
      (text : String) → (inputs : List (String × Scalar)) → Results → Outcome RenderError String
  unfolding pieces render_pieces byte_length
  render text inputs results = do
    rendered ← render_pieces (pieces zero text) inputs results
    reject_if (ltb max_prompt_bytes (byte_length rendered)) prompt_too_long
    ok rendered
