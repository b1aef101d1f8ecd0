-- ===== src/Tests/Documents.antt =====
-- A workflow of two Agents and an approval, its order, and a condition.
use fishyume.Base.{
  ℕ, ◌+◌, ◌≡◌, refl, String, Bool, true, not, ◌&&◌, List, [], ◌∷◌, none, some, ok, length, count,
  one_if, str_eq, ◌==◌, ◌⊎◌, arith, if◌then◌else◌, contains, All, All-contains, ◌<◌,
}
use fishyume.Base.Int.{pos}
use fishyume.Base.Assoc.{lookup}
use fishyume.Base.Sort.{sort, insert_sorted}
use fishyume.Workflow.Model.{
  Document, Node, node_of, normalize_scalar, zero_node, no_selection, Condition, condition, absent,
  unset, Scalar, Result,
}
use fishyume.Workflow.Reference.{Value, split_dots}
use fishyume.Workflow.Condition.{evaluate, result_missing, validate_condition, validate_compare}
use fishyume.Workflow.Condition.Total.{evaluate-total, provided, provides}
use fishyume.Workflow.Graph.{topological_order, expect_length, release}
use fishyume.Workflow.Graph.Release.{release-spends}
use fishyume.Workflow.Graph.Order.{
  ids, IsOrdered, IsFinal, topological_order_sound, topological_order-ends, dependencies_of,
}
use fishyume.Workflow.Graph.Acyclic.{IsAcyclic, topological_order_complete}

abbrev pub build_node : Node
build_node = record zero_node { type = "agent"; task = "build" }

abbrev pub approved : Condition
approved = condition "build" "result.decision" (Scalar.text "approved") absent absent unset

abbrev pub review_node : Node
review_node = record zero_node {
  type = "agent";
  depends_on = "build" ∷ [];
  when = some approved;
  task = "review";
}

abbrev pub release_node : Node
release_node = record zero_node {
  type = "approval";
  depends_on = "review" ∷ "build" ∷ [];
  prompt = "release?";
}

abbrev pub pipeline : Document
pipeline = record {
  api_version = "fishyume.dev/v1";
  name = "pipeline";
  inputs = [];
  defaults = record { agent = no_selection; backend = ""; tool = ""; runtime = "" };
  max_concurrency = pos 3;
  context = none;
  nodes = ("release", release_node) ∷ ("build", build_node) ∷ ("review", review_node) ∷ [];
}

abbrev pub pipeline_order : List String
pipeline_order = "build" ∷ "review" ∷ "release" ∷ []

order_of_pipeline : topological_order pipeline ≡ ok pipeline_order
unfolding topological_order sort insert_sorted node_of lookup
order_of_pipeline = refl

topological_order_sound_example :
    ((x : String) → count x pipeline_order ≡ count x (ids pipeline))
    × IsOrdered pipeline [] pipeline_order
unfolding contains
topological_order_sound_example =
    topological_order_sound pipeline pipeline_order (refl, (refl, (refl, tt))) order_of_pipeline

topological_order-ends_example :
    (final : List String) × (topological_order pipeline
      ≡ expect_length (length pipeline.nodes) final)
    × IsFinal pipeline final
unfolding contains
topological_order-ends_example = topological_order-ends pipeline (refl, (refl, (refl, tt)))

abbrev depth : String → ℕ
depth id = if str_eq id "release" then 2 else if str_eq id "review" then 1 else 0

pipeline-IsAcyclic : IsAcyclic pipeline depth
unfolding contains node_of lookup
pipeline-IsAcyclic = record {
  known = λ x found.
      All-contains
        (λ y.
          All (λ d. (contains (ids pipeline) d ≡ true) × (depth d < depth y))
            (dependencies_of pipeline y))
        (ids pipeline) x
        (((refl, omega arith), ((refl, omega arith), tt)), (tt, (((refl, omega arith), tt), tt)))
        found;
}

topological_order_complete_example : (order : List String) × (topological_order pipeline ≡ ok order)
unfolding contains
topological_order_complete_example =
    topological_order_complete pipeline depth (refl, (refl, (refl, tt))) pipeline-IsAcyclic

nothing_left : String → ℕ
nothing_left x = 0

release-spends_example :
    ((release ("review" ∷ "review" ∷ []) (λ x. count x ("review" ∷ "review" ∷ [])) []).0 "review"
      ≡ nothing_left "review")
    × (count "review"
          (release ("review" ∷ "review" ∷ []) (λ x. count x ("review" ∷ "review" ∷ [])) []).1
        ≡ count "review" []
          + one_if (
              not (count "review" ("review" ∷ "review" ∷ []) == 0) && (nothing_left "review" == 0)))
unfolding nothing_left
release-spends_example =
    release-spends nothing_left ("review" ∷ "review" ∷ []) (λ x. count x ("review" ∷ "review" ∷ []))
      [] (λ x. omega arith) "review"

abbrev pub built : Result
built = record {
  summary = "built";
  artifacts = [];
  warnings = [];
  checks = [];
  questions = [];
  usage = record { input_tokens_estimated = pos 0; output_tokens_estimated = pos 0 };
  decision = "approved";
  reason = "";
}

-- An encoding of scalars that tells texts apart.
abbrev pub marshal_text : Value → String
marshal_text (Value.scalar (Scalar.text t)) = t
marshal_text v = ""

evaluate-total_example :
    ((b : Bool) × (evaluate marshal_text approved (("build", built) ∷ []) ≡ ok b))
    ⊎ (result_missing approved (("build", built) ∷ []) ≡ true)
unfolding split_dots validate_condition validate_compare provided contains lookup normalize_scalar
    provides
evaluate-total_example =
    evaluate-total marshal_text (("build", built) ∷ []) ("build" ∷ []) approved (refl, tt) refl refl
