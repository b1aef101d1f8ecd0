-- ===== src/Workflow/Validate/Conditions.antt =====
-- What a validated condition and a validated template can rely on when the scheduler uses them: the
-- composition of `Validate` with `EvaluateCondition` and with `RenderTemplate`.
use Prim.Native.Char.{code}
use text.Mathlib.TextLemmas.{nil-append, cons-append}
use mathlib.Core.Bool.{false≢true}
use fishyume.Base.{
  IsDistinct, ℕ, ◌≡◌, refl, subst, ap, ◌∙◌, String, Bool, true, false, List, [], ◌∷◌, some, ok,
  map_err, >>=-eq-ok, >>-eq-ok, arith, contains, str_eq, All, All-contains, Bool-cases, inl, inr,
  ◌⊎◌, ◌==◌,
}
use fishyume.Base.Text.{name_matches, all_name_rest, is_name_rest}
use fishyume.Workflow.Model.{Document, node_of, Condition}
use fishyume.Workflow.Reference.{Value, Results, split_dots}
use fishyume.Workflow.Condition.{evaluate, result_missing, validate_condition}
use fishyume.Workflow.Condition.Total.{IsDotless, provided, evaluate-total}
use fishyume.Workflow.Graph.Order.{ids, dependencies_of}
use fishyume.Workflow.Ancestors.{ancestors}
use fishyume.Workflow.Ancestors.Reachable.{
  Reaches, direct, through, ancestors-Reaches, no_dependencies, contains-All,
}
use fishyume.Workflow.Template.{Piece, parse_template}
use fishyume.Workflow.Validate.{
  bad_condition, bad_template, template_of, validate_when, validate_references_of, validate,
}
use fishyume.Workflow.Validate.Sound.{
  map_err-eq-ok, each_node-lookup, IsValidDocument, validate-passes, validate_sound,
}

-- A character of a name is not the dot.
name_rest-dotless : (c : ℕ) → is_name_rest c ≡ true → (c == b'.') ≡ false
name_rest-dotless c h = ground arith

all_name_rest-IsDotless : (s : String) → all_name_rest s ≡ true → IsDotless s
unfolding all_name_rest split_dots
all_name_rest-IsDotless String.[] h = refl
all_name_rest-IsDotless (String.◌∷◌ c s) h =
    rw (name_rest-dotless (code c) (ground arith), all_name_rest-IsDotless s (ground arith))
      (ap (λ t. t ∷ []) (cons-append c "" s ∙ ap (String.◌∷◌ c) (nil-append s)))

pub name_matches-IsDotless : (most : ℕ) (s : String) → name_matches most s ≡ true → IsDotless s
unfolding name_matches all_name_rest
name_matches-IsDotless most String.[] h = absurd (false≢true h)
name_matches-IsDotless most (String.◌∷◌ c s) h =
    all_name_rest-IsDotless (String.◌∷◌ c s) (ground arith)

-- What a node of a valid document depends on is a node of it.
dependency-known :
    (doc : Document) (order : List String) (id d : String)
    → IsValidDocument doc order
    → contains (dependencies_of doc id) d ≡ true
    → contains (ids doc) d ≡ true
unfolding contains
dependency-known doc order id d valid h = elim (Bool-cases (contains (ids doc) id)) [
  | inl known ↦
      (All-contains (λ e. (contains (ids doc) e ≡ true) × (str_eq e id ≡ false))
        (dependencies_of doc id) d (valid.dependent id known).0 h).0
  | inr unknown ↦
      absurd (false≢true (subst (λ ds. contains ds d ≡ true) (no_dependencies doc id unknown) h))
]

Reaches-known :
    (doc : Document) (order : List String) (id ancestor : String)
    → IsValidDocument doc order
    → Reaches doc id ancestor
    → contains (ids doc) ancestor ≡ true
Reaches-known doc order id ancestor valid (direct h) =
    dependency-known doc order id ancestor valid h
Reaches-known doc order id ancestor valid (through {between = between} h rest) =
    Reaches-known doc order between ancestor valid rest

ancestors-IsDotless :
    (doc : Document) (order : List String) (id : String)
    → IsValidDocument doc order
    → All IsDotless (ancestors doc id)
ancestors-IsDotless doc order id valid = contains-All IsDotless (ancestors doc id) (λ a found.
    name_matches-IsDotless 63 a
      (valid.named a (Reaches-known doc order id a valid ((ancestors-Reaches doc id a).0 found))))

module _ (is_absolute : String → Bool) (clean to_slash : String → String) where
  -- What the second pass of `Validate` checked of a node.
  references-checked :
      (doc : Document) (order : List String) (id : String)
      → validate is_absolute clean to_slash doc ≡ ok order
      → contains (ids doc) id ≡ true
      → (validate_when doc id (node_of doc id).when ≡ ok tt)
        × (ps : List Piece) × (parse_template
              (template_of (node_of doc id))
              doc.inputs
              (ancestors doc id)
            ≡ ok ps)
  unfolding validate_references_of node_of
  references-checked doc order id h known =
      let (nodes, sorted, templates) = validate-passes is_absolute clean to_slash doc order h in
      let checked = each_node-lookup (validate_references_of doc) doc.nodes id templates known in
      let (branch, rest) = >>-eq-ok (validate_when doc id (node_of doc id).when) _ checked in
      let (ps, parsed, last) = >>=-eq-ok (map_err (bad_template id) _) _ rest in
      (branch, ps, map_err-eq-ok (bad_template id) _ parsed)

  -- In a document with distinct node IDs that `Validate` accepts, the condition of every node
  -- evaluates to a Boolean, unless the result of a node that it compares is missing, when each result
  -- that is there holds the fields that the condition compares.
  pub validate-evaluates :
      (doc : Document) (order : List String) (id : String) (branch : Condition)
      (marshal : Value → String) (results : Results)
      → IsDistinct (ids doc)
      → validate is_absolute clean to_slash doc ≡ ok order
      → contains (ids doc) id ≡ true
      → (node_of doc id).when ≡ some branch
      → provided branch results ≡ true
      → ((b : Bool) × (evaluate marshal branch results ≡ ok b))
        ⊎ (result_missing branch results ≡ true)
  unfolding validate_when
  validate-evaluates doc order id branch marshal results distinct h known has held =
      let valid = validate_sound is_absolute clean to_slash doc order distinct h in
      let (checked, ps, parsed) = references-checked doc order id h known in
      evaluate-total marshal results (ancestors doc id) branch
        (ancestors-IsDotless doc order id valid)
        (map_err-eq-ok (bad_condition id) (validate_condition branch (ancestors doc id))
          (subst (λ w. validate_when doc id w ≡ ok tt) has checked))
        held
