-- ===== src/Workflow/Inputs/Declared.antt =====
-- What `ResolveInputs` guarantees of every declared input.
use package.text.Mathlib.TextEquality.{eq_iff}
use fishyume.Base.{
  IsDistinct, ◌≡◌, sym, ap, subst, ◌∙◌, String, true, false, ◌||◌, List, [], ◌∷◌, Option, none,
  some, Outcome, ok, err, str_eq, contains, arith, if◌then◌else◌, >>=-eq-ok, >>-eq-ok, inl, inr,
  Bool-cases,
}
use fishyume.Base.Assoc.{lookup, keys, lookup-absent}
use fishyume.Workflow.Model.{
  Scalar, null, unsupported, text, boolean, number, ScalarError, normalize_scalar, is_null,
  InputDeclaration,
}
use fishyume.Workflow.Inputs.{
  InputError, bad_value, same_kind, scalar_kind, check_provided, value_of, check_kind,
  resolve_input, add_resolved, resolve_each, resolve_inputs, with_error, bad_default,
}

-- What the resolved inputs hold of a declared one: the provided value or the default, of the kind of
-- the default, unless the input is optional and has neither.
abbrev pub IsResolved : InputDeclaration → (given found : Option Scalar) → Type 0
IsResolved declaration none found =
    if is_null declaration.default
    then (declaration.required ≡ false) × (found ≡ none)
    else found ≡ some declaration.default
IsResolved declaration (some value) found =
    (found ≡ some value)
    × ((is_null declaration.default
          || same_kind (scalar_kind declaration.default) (scalar_kind value))
        ≡ true)

normalize-same : (s t : Scalar) → normalize_scalar s ≡ ok t → s ≡ t
unfolding normalize_scalar
normalize-same null t h = absurd (cc)
normalize-same unsupported t h = absurd (cc)
normalize-same (text s) t h = ground arith
normalize-same (boolean b) t h = ground arith
normalize-same (number s) t h = ground arith

with_error-ok :
    (f : ScalarError → InputError) (s t : Scalar) → with_error f (normalize_scalar s) ≡ ok t → s ≡ t
with_error-ok f s t h = normalize-same s t (inner (normalize_scalar s) h)
  where
    inner : (o : Outcome ScalarError Scalar) → with_error f o ≡ ok t → o ≡ ok t
    inner (ok u) k = ground arith
    inner (err e) k = absurd (cc)

check_kind_sound :
    (name : String) (default value : Scalar)
    → check_kind name default value ≡ ok tt
    → (is_null default || same_kind (scalar_kind default) (scalar_kind value)) ≡ true
unfolding check_kind
check_kind_sound name default value h = elim (Bool-cases (is_null default)) [
  | inl absent ↦ ground arith
  | inr present ↦
      let (d, normal, same) =
        >>=-eq-ok (with_error (bad_default name) (normalize_scalar default)) _ (rw present at h) in
      ground (arith, with_error-ok (bad_default name) default d normal)
]

resolve_value_sound :
    (name : String) (declaration : InputDeclaration) (value : Scalar) (found : Option Scalar)
    → resolve_input name declaration (some value) ≡ ok found
    → (found ≡ some value)
      × ((is_null declaration.default
            || same_kind (scalar_kind declaration.default) (scalar_kind value))
          ≡ true)
unfolding resolve_input
resolve_value_sound name declaration value found h =
    let (n, normal, h1) = >>=-eq-ok (with_error (bad_value name) (normalize_scalar value)) _ h in
    let (kind, last) = >>-eq-ok (check_kind name declaration.default n) _ h1 in
    ground (
      arith,
      with_error-ok (bad_value name) value n normal,
      check_kind_sound name declaration.default n kind,
    )

resolve_input-IsResolved :
    (name : String) (declaration : InputDeclaration) (given found : Option Scalar)
    → resolve_input name declaration (value_of declaration given) ≡ ok found
    → IsResolved declaration given found
unfolding resolve_input
resolve_input-IsResolved name declaration (some value) found h =
    resolve_value_sound name declaration value found h
resolve_input-IsResolved name declaration none found h =
    elim (Bool-cases (is_null declaration.default)) [
      | inl absent ↦ ground arith
      | inr present ↦ ground (arith, resolve_value_sound name declaration declaration.default found)
    ]

resolve_each-lookup :
    (declared : List (String × InputDeclaration)) (provided resolved : List (String × Scalar))
    (name : String)
    → resolve_each declared provided ≡ ok resolved
    → lookup name declared ≡ none
    → lookup name resolved ≡ none
unfolding resolve_each lookup
resolve_each-lookup [] provided resolved name h a = ground arith
resolve_each-lookup ((other, declaration) ∷ rest) provided resolved name h a =
    let (v, own, h1) =
      >>=-eq-ok (resolve_input other declaration (value_of declaration (lookup other provided))) _
        h in
    let (others, later, last) = >>=-eq-ok (resolve_each rest provided) _ h1 in
    ground (arith, last, resolve_each-lookup rest provided others name later)

add_resolved-lookup :
    (name other : String) (v : Option Scalar) (others : List (String × Scalar))
    → lookup name (add_resolved other v others) ≡ (
        if str_eq other name
        then elim v [ none ↦ lookup name others | some x ↦ some x ]
        else lookup name others)
unfolding lookup
add_resolved-lookup name other none others = ground arith
add_resolved-lookup name other (some x) others = ground arith

resolve_each-IsResolved :
    (declared : List (String × InputDeclaration)) (provided resolved : List (String × Scalar))
    (name : String) (declaration : InputDeclaration)
    → IsDistinct (keys declared)
    → resolve_each declared provided ≡ ok resolved
    → lookup name declared ≡ some declaration
    → IsResolved declaration (lookup name provided) (lookup name resolved)
unfolding resolve_each lookup
resolve_each-IsResolved [] provided resolved name declaration d h a = absurd (cc)
resolve_each-IsResolved ((other, first) ∷ rest) provided resolved name declaration d h a =
    let (v, own, h1) =
      >>=-eq-ok (resolve_input other first (value_of first (lookup other provided))) _ h in
    let (others, later, last) = >>=-eq-ok (resolve_each rest provided) _ h1 in
    let ended : resolved ≡ add_resolved other v others = ground arith in
    elim (Bool-cases (str_eq other name)) [
      | inl same ↦
          let name_eq = (eq_iff other name).0 same in
          let nothing : lookup name others ≡ none =
            resolve_each-lookup rest provided others name later
              (lookup-absent name rest (subst (λ n. contains (keys rest) n ≡ false) name_eq d.0)) in
          let found : v ≡ lookup name resolved =
            sym
              (ap (lookup name) ended ∙ ground (arith, add_resolved-lookup name other v others)) in
          let first_eq : first ≡ declaration = ground arith in
          subst (λ n. IsResolved declaration (lookup n provided) (lookup name resolved)) name_eq
            (subst (λ f. IsResolved f (lookup other provided) (lookup name resolved)) first_eq
              (subst (IsResolved first (lookup other provided)) found
                (resolve_input-IsResolved other first (lookup other provided) v own)))
      | inr different ↦
          subst (IsResolved declaration (lookup name provided))
            (sym (ap (lookup name) ended ∙ ground (arith, add_resolved-lookup name other v others)))
            (resolve_each-IsResolved rest provided others name declaration d.1 later (ground arith))
    ]

check_provided-declared :
    (declared : List (String × InputDeclaration)) (provided : List (String × Scalar))
    (name : String)
    → check_provided declared provided ≡ ok tt
    → contains (keys provided) name ≡ true
    → contains (keys declared) name ≡ true
unfolding check_provided contains
check_provided-declared declared [] name h k = absurd (cc)
check_provided-declared declared ((other, v) ∷ rest) name h k =
    ground (arith, check_provided-declared declared rest name, eq_iff other name)

-- When the inputs of a run resolve, every provided name is declared, every resolved name is declared,
-- and every declared input has its provided value, else its default, of the kind of its default; only
-- an optional input without a default may be left out. The declared names are distinct, as keys of a
-- map are.
pub resolve_inputs-IsResolved :
    (declared : List (String × InputDeclaration)) (provided resolved : List (String × Scalar))
    → IsDistinct (keys declared)
    → resolve_inputs declared provided ≡ ok resolved
    → (name : String)
    → (contains (keys provided) name ≡ true → contains (keys declared) name ≡ true)
      × (lookup name declared ≡ none → lookup name resolved ≡ none)
      × ((declaration : InputDeclaration)
          → lookup name declared ≡ some declaration
          → IsResolved declaration (lookup name provided) (lookup name resolved))
unfolding resolve_inputs
resolve_inputs-IsResolved declared provided resolved d h name =
    let (checked, later) = >>-eq-ok (check_provided declared provided) _ h in
    (
      check_provided-declared declared provided name checked,
      resolve_each-lookup declared provided resolved name later,
      λ declaration found.
          resolve_each-IsResolved declared provided resolved name declaration d later found,
    )
