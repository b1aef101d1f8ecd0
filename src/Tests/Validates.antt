-- ===== src/Tests/Validates.antt =====
-- A document that validates, with what its order, its conditions and its templates give.
use fishyume.Workflow.Condition.Total.{provides}
use fishyume.Workflow.Condition.Total.{provided}
use fishyume.Workflow.Model.{normalize_scalar}
use fishyume.Workflow.Condition.{validate_compare}
use fishyume.Workflow.Condition.{validate_condition}
use fishyume.Workflow.Template.{parse_template}
use fishyume.Base.Sort.{insert_sorted}
use fishyume.Base.Sort.{sort}
use fishyume.Workflow.Graph.{topological_order}
use fishyume.Workflow.Agent.{effective_context_policy}
use fishyume.Base.Text.{name_matches}
use fishyume.Base.Text.{is_blank}
use fishyume.Base.{
  ◌≡◌, refl, String, Bool, true, false, List, [], ◌∷◌, none, some, ok, contains, ◌⊎◌, ◌↔◌,
}
use fishyume.Base.Assoc.{lookup, keys}
use fishyume.Workflow.Model.{Document, Scalar, InputDeclaration, AgentSelection, node_of}
use fishyume.Workflow.Agent.{resolve_agent}
use fishyume.Workflow.Validate.{validate}
use fishyume.Workflow.Validate.Sound.{IsValidDocument, validate_sound}
use fishyume.Workflow.Validate.Conditions.{validate-evaluates}
use fishyume.Workflow.Condition.{evaluate, result_missing}
use fishyume.Workflow.Reference.{Value}
use fishyume.Base.{Option}
use fishyume.Workflow.Ancestors.{ancestors}
use fishyume.Workflow.Ancestors.Reachable.{Reaches, ancestors-Reaches}
use fishyume.Run.Reset.{downstream_ids}
use fishyume.Run.Reset.Downstream.{downstream_ids-Reaches}
use fishyume.Workflow.Inputs.{resolve_inputs}
use fishyume.Workflow.Inputs.Declared.{IsResolved, resolve_inputs-IsResolved}
use fishyume.Tests.Documents.{
  pipeline, pipeline_order, approved, build_node, review_node, release_node, built, marshal_text,
}

abbrev pub codex : AgentSelection
codex = record { driver = "codex"; target = "local"; routing = none }

abbrev pub greeted : Document
greeted = record pipeline {
  api_version = "fishyume/v1";
  defaults = record { agent = codex; backend = ""; tool = ""; runtime = "" };
  inputs = ("who", record { required = true; default = Scalar.null }) ∷ [];
  nodes =
      ("release", release_node)
      ∷ ("build", record build_node { task = "hi {{inputs.who}}" })
      ∷ ("review", record review_node { task = "read {{ nodes.build.result.summary }}" })
      ∷ [];
}

-- Paths that are clean as they stand.
abbrev pub never : String → Bool
never path = false

abbrev pub unchanged : String → String
unchanged path = path

greeted_validates : validate never unchanged unchanged greeted ≡ ok pipeline_order
unfolding validate is_blank resolve_agent name_matches contains effective_context_policy
    topological_order sort node_of lookup insert_sorted parse_template validate_condition
    validate_compare ancestors normalize_scalar
greeted_validates = refl

validate_sound_example : IsValidDocument greeted pipeline_order
unfolding contains
validate_sound_example =
    validate_sound never unchanged unchanged greeted pipeline_order (refl, (refl, (refl, tt)))
      greeted_validates

validate-evaluates_example :
    ((b : Bool) × (evaluate marshal_text approved (("build", built) ∷ []) ≡ ok b))
    ⊎ (result_missing approved (("build", built) ∷ []) ≡ true)
unfolding contains node_of lookup provided provides
validate-evaluates_example =
    validate-evaluates never unchanged unchanged greeted pipeline_order "review" approved
      marshal_text (("build", built) ∷ []) (refl, (refl, (refl, tt))) greeted_validates refl refl
      refl

abbrev who_is_bob : List (String × Scalar)
who_is_bob = ("who", Scalar.text "bob") ∷ []

abbrev encode_text : Value → Option String
encode_text v = some (marshal_text v)

ancestors-Reaches_example :
    (contains (ancestors greeted "release") "build" ≡ true) ↔ Reaches greeted "release" "build"
ancestors-Reaches_example = ancestors-Reaches greeted "release" "build"

downstream_ids-Reaches_example :
    (contains (downstream_ids greeted pipeline_order "build") "release" ≡ true)
    ↔ Reaches greeted "release" "build"
unfolding contains
downstream_ids-Reaches_example = downstream_ids-Reaches greeted pipeline_order "build" "release" (
    validate_sound never unchanged unchanged greeted pipeline_order (refl, (refl, (refl, tt)))
      greeted_validates)

resolve_inputs-IsResolved_example :
    (contains (keys who_is_bob) "who" ≡ true → contains (keys greeted.inputs) "who" ≡ true)
    × (lookup "who" greeted.inputs ≡ none → lookup "who" who_is_bob ≡ none)
    × ((declaration : InputDeclaration)
        → lookup "who" greeted.inputs ≡ some declaration
        → IsResolved declaration (lookup "who" who_is_bob) (lookup "who" who_is_bob))
unfolding contains resolve_inputs lookup normalize_scalar
resolve_inputs-IsResolved_example =
    resolve_inputs-IsResolved greeted.inputs who_is_bob who_is_bob (refl, tt) refl "who"
