-- ===== src/Workflow/Inputs.antt =====
-- wf-engine/internal/workflow/model.go: `ResolveInputs`.
pub mod Declared
use fishyume.Base.{
  String, Bool, true, false, not, List, [], ◌∷◌, Option, none, some, Outcome, ok, err, ◌>>=◌, ◌>>◌,
  reject_if, str_eq, contains, if◌then◌else◌,
}
use fishyume.Base.Assoc.{lookup, keys}
use fishyume.Workflow.Model.{
  Scalar, null, unsupported, text, boolean, number, ScalarError, normalize_scalar, is_null,
  InputDeclaration,
}

pub data InputError : Type 0 where
  undeclared missing : (name : String) → InputError
  bad_value bad_default : (name : String) → ScalarError → InputError
  wrong_kind : (name : String) → InputError

pub data ScalarKind : Type 0 where
  text_kind boolean_kind number_kind unknown_kind : ScalarKind

abbrev pub scalar_kind : Scalar → ScalarKind
scalar_kind (text s) = text_kind
scalar_kind (boolean b) = boolean_kind
scalar_kind (number s) = number_kind
scalar_kind _ = unknown_kind

abbrev pub same_kind : ScalarKind → ScalarKind → Bool
same_kind text_kind text_kind = true
same_kind boolean_kind boolean_kind = true
same_kind number_kind number_kind = true
same_kind unknown_kind unknown_kind = true
same_kind _ _ = false

-- The first loop: every provided name is declared.
unfoldable pub check_provided :
    List (String × InputDeclaration) → List (String × Scalar) → Outcome InputError (Unit {0})
check_provided declared [] = ok tt
check_provided declared ((name, value) ∷ rest) = do
  reject_if (not (contains (keys declared) name)) (undeclared name)
  check_provided declared rest

-- The value of an input: the provided one, else a default that is not nil.
abbrev pub value_of : InputDeclaration → Option Scalar → Option Scalar
value_of declaration (some value) = some value
value_of declaration none = if is_null declaration.default then none else some declaration.default

abbrev pub with_error :
    (ScalarError → InputError) → Outcome ScalarError Scalar → Outcome InputError Scalar
with_error f (ok s) = ok s
with_error f (err e) = err (f e)

-- A default fixes the kind of the value.
unfoldable pub check_kind :
    (name : String) → (default value : Scalar) → Outcome InputError (Unit {0})
check_kind name default value =
    if is_null default
    then ok tt
    else (with_error (bad_default name) (normalize_scalar default) >>= λ d.
        reject_if (not (same_kind (scalar_kind d) (scalar_kind value))) (wrong_kind name))

-- The second loop's body: `none` leaves an optional input out.
unfoldable pub resolve_input :
    (name : String) → InputDeclaration → Option Scalar → Outcome InputError (Option Scalar)
unfolding check_kind
resolve_input name declaration none = if declaration.required then err (missing name) else ok none
resolve_input name declaration (some value) = do
  normalized ← with_error (bad_value name) (normalize_scalar value)
  check_kind name declaration.default normalized
  ok (some normalized)

abbrev pub add_resolved : String → Option Scalar → List (String × Scalar) → List (String × Scalar)
add_resolved name none rest = rest
add_resolved name (some value) rest = (name, value) ∷ rest

unfoldable pub resolve_each :
    List (String × InputDeclaration)
    → (provided : List (String × Scalar)) → Outcome InputError (List (String × Scalar))
unfolding resolve_input
resolve_each [] provided = ok []
resolve_each ((name, declaration) ∷ rest) provided = do
  value ← resolve_input name declaration (value_of declaration (lookup name provided))
  others ← resolve_each rest provided
  ok (add_resolved name value others)

unfoldable pub resolve_inputs :
    (declared : List (String × InputDeclaration))
    → (provided : List (String × Scalar)) → Outcome InputError (List (String × Scalar))
unfolding check_provided resolve_each
resolve_inputs declared provided = do
  check_provided declared provided
  resolve_each declared provided
