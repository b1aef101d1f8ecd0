-- ===== src/Workflow/Template/Rendering.antt =====
-- A template that parses renders.
use package.Prim.Native.String.{◌++◌ as append_text}
use package.text.Mathlib.TextEquality.{eq_iff}
use fishyume.Base.{
  zero, ◌≡◌, ◌≤◌, ◌⊎◌, inl, inr, Option, Outcome, err, ltb, Bool-cases, refl, ap, subst, String,
  true, false, List, [], ◌∷◌, some, ok, arith, contains, str_eq, All, All-contains, >>-eq-ok,
}
use fishyume.Base.Text.{byte_length}
use fishyume.Base.Assoc.{lookup, keys}
use fishyume.Workflow.Model.{Scalar, InputDeclaration, Result}
use fishyume.Workflow.Reference.{
  Value, Results, split_dots, join_dots, result_field, reference_value,
}
use fishyume.Workflow.Condition.{allowed_result_fields}
use fishyume.Workflow.Condition.Total.{provides, IsField, result-IsField}
use fishyume.Workflow.Template.{
  Piece, literal, reference, pieces, RenderError, prompt_too_long, encoded, max_prompt_bytes,
  render, validate_parts, validate_references, parse_template, render_pieces, render_value,
}

-- What a reference stands for is there: the input has a value, or the node has a result that holds the
-- field.
abbrev pub IsAvailable : List (String × Scalar) → Results → (parts : List String) → Type 0
IsAvailable values results (first ∷ name ∷ []) = (v : Scalar) × (lookup name values ≡ some v)
IsAvailable values results (first ∷ node ∷ field ∷ more ∷ rest) =
    (r : Result) × (lookup node results ≡ some r)
    × (provides r (join_dots (field ∷ more ∷ rest)) ≡ true)
IsAvailable values results _ = Unit

-- What each reference of a template stands for is there.
unfoldable pub IsSupplied : List (String × Scalar) → Results → List Piece → Type 0
IsSupplied values results [] = Unit
IsSupplied values results (literal c ∷ rest) = IsSupplied values results rest
IsSupplied values results (reference path expression ∷ rest) =
    IsAvailable values results (split_dots path) × IsSupplied values results rest

-- A rendered text is within the limit of a prompt.
abbrev pub Rendered : Outcome RenderError String → Type 0
Rendered r =
    ((s : String) × (r ≡ ok s) × (byte_length s ≤ max_prompt_bytes)) ⊎ (r ≡ err prompt_too_long)

allowed-joined : All (λ field. join_dots (split_dots field) ≡ field) allowed_result_fields
unfolding split_dots join_dots
allowed-joined = (refl, (refl, (refl, (refl, (refl, (refl, (refl, (refl, tt))))))))

field-found :
    (r : Result) (field : String)
    → contains allowed_result_fields field ≡ true
    → provides r field ≡ true
    → (v : Value) × (result_field r field ≡ ok v)
field-found r field allowed provided =
    let (v, found) =
      All-contains (IsField r) allowed_result_fields field (result-IsField r) allowed provided in
    let joined =
      All-contains (λ f. join_dots (split_dots f) ≡ f) allowed_result_fields field allowed-joined
        allowed in
    (v, subst (λ f. result_field r f ≡ ok v) joined found)

module _ (inputs ancestors : List String) (values : List (String × Scalar))
    (results : Results) where
  parts-valued :
      (parts : List String)
      → validate_parts inputs ancestors parts ≡ ok tt
      → IsAvailable values results parts
      → (v : Value) × (reference_value parts values results ≡ ok v)
  unfolding validate_parts reference_value
  parts-valued [] h there = absurd (cc)
  parts-valued (first ∷ []) h there = absurd (cc)
  parts-valued (first ∷ name ∷ []) h (v, found) = (Value.scalar v, ground (arith, found))
  parts-valued (first ∷ name ∷ third ∷ []) h there = absurd (cc)
  parts-valued (first ∷ node ∷ field ∷ more ∷ rest) h (r, there, provided) =
      let nodes : str_eq first "nodes" ≡ true = ground arith in
      let allowed : contains allowed_result_fields (join_dots (field ∷ more ∷ rest)) ≡ true =
        ground arith in
      let (v, found) = field-found r (join_dots (field ∷ more ∷ rest)) allowed provided in
      let other : str_eq first "inputs" ≡ false =
        ap (λ x. str_eq x "inputs") ((eq_iff first "nodes").0 nodes) in
      (v, ground (arith, other, there, found))

  module _ (marshal : Value → Option String)
      (encodes : (v : Value) → (s : String) × (marshal v ≡ some s)) where
    value-rendered : (v : Value) → (s : String) × (render_value marshal v ≡ ok s)
    unfolding render_value
    value-rendered (Value.scalar (Scalar.text s)) = (s, refl)
    value-rendered v = let (s, done) = encodes v in (s, ap encoded done)

    pieces-rendered :
        (ps : List Piece)
        → validate_references inputs ancestors ps ≡ ok tt
        → IsSupplied values results ps
        → (s : String) × (render_pieces marshal ps values results ≡ ok s)
    unfolding validate_references render_pieces IsSupplied
    pieces-rendered [] h there = ("", refl)
    pieces-rendered (literal c ∷ rest) h there =
        let (s, rendered) = pieces-rendered rest h there in
        (append_text c s, ground (arith, rendered))
    pieces-rendered (reference path expression ∷ rest) h there =
        let (own, others) = >>-eq-ok (validate_parts inputs ancestors (split_dots path)) _ h in
        let (v, found) = parts-valued (split_dots path) own there.0 in
        let (t, written) = value-rendered v in
        let (s, rendered) = pieces-rendered rest others there.1 in
        (append_text t s, ground (arith, found, written, rendered))

-- A template that parses over the declared inputs and the ancestors of its node renders, or its text is
-- too long, when every value that it refers to is there and can be encoded.
pub parse_template-renders :
    (marshal : Value → Option String) (text : String) (declared : List (String × InputDeclaration))
    (ancestors : List String) (ps : List Piece) (values : List (String × Scalar))
    (results : Results)
    → ((v : Value) → (s : String) × (marshal v ≡ some s))
    → parse_template text declared ancestors ≡ ok ps
    → IsSupplied values results (pieces zero text)
    → Rendered (render marshal text values results)
unfolding parse_template render
parse_template-renders marshal text declared ancestors ps values results encodes h supplied =
    let (checked, rest) =
      >>-eq-ok (validate_references (keys declared) ancestors (pieces zero text)) _ h in
    let (s, rendered) =
      pieces-rendered (keys declared) ancestors values results marshal encodes (pieces zero text)
        checked supplied in
    elim (Bool-cases (ltb max_prompt_bytes (byte_length s))) [
      | inl long ↦ inr (rw (rendered, long) refl)
      | inr short ↦ inl (s, rw (rendered, short) refl, ground arith)
    ]
