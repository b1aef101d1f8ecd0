-- ===== src/Tests/Runs.antt =====
-- A run of the pipeline whose first Agent has succeeded.
use fishyume.Run.Schedule.{upstream}
use fishyume.Base.{
  ◌+◌, ◌-◌, ◌≤◌, ◌<◌, ◌≡◌, refl, false, ◌||◌, List, [], ◌∷◌, some, ok, err, length, count, ◌⊎◌, All,
  contains,
}
use fishyume.Base.Int.{pos}
use fishyume.Base.Assoc.{lookup}
use fishyume.Workflow.Model.{Scalar, Normalized, node_of, normalize_scalar}
use fishyume.Workflow.Reference.{reference_value, split_dots, result_field, join_dots}
use fishyume.Workflow.Condition.{evaluate, evaluate_compare}
use fishyume.Run.State.{
  Phase, NodePhase, Conclusion, Reason, WorkflowSnapshot, NodeSnapshot, zero_snapshot,
  state_schema_version,
}
use fishyume.Run.Facts.{count_active, by_id, results_of, is_failure, any_failure}
use fishyume.Run.Schedule.Blocked.{plan_schedule_refuses}
use fishyume.Run.Schedule.{
  ScheduleError, SchedulingDecision, plan_schedule, safety_concurrency_ceiling, magnitude,
}
use fishyume.Run.Schedule.Limits.{plan_schedule-limits}
use fishyume.Run.Schedule.Ready.{Started, IsSettledIn, plan_schedule-Started}
use fishyume.Run.Schedule.Exclusive.{mentions, plan_schedule-exclusive}
use fishyume.Run.Schedule.Progress.{planned, plan_schedule-progress}
use fishyume.Tests.Documents.{pipeline, pipeline_order, built, marshal_text}

abbrev pub started_run : WorkflowSnapshot
started_run = record {
  id = "run-1";
  state_schema_version = state_schema_version;
  state_version = 4;
  phase = Phase.running;
  conclusion = Conclusion.unset;
  reason = Reason.unset;
  summary = "";
  active_node_id = "";
  cancel_requested = false;
  action_receipts = [];
  topological_order = pipeline_order;
  nodes = [];
}

abbrev pub build_done : NodeSnapshot
build_done = record zero_snapshot {
  state_schema_version = state_schema_version;
  id = "build";
  type = "agent";
  phase = NodePhase.completed;
  conclusion = Conclusion.succeeded;
  result = some built;
  current_attempt = pos 1;
}

abbrev review_open : NodeSnapshot
review_open = record zero_snapshot {
  state_schema_version = state_schema_version;
  id = "review";
  type = "agent";
  phase = NodePhase.pending;
}

abbrev release_open : NodeSnapshot
release_open = record zero_snapshot {
  state_schema_version = state_schema_version;
  id = "release";
  type = "approval";
  phase = NodePhase.pending;
}

abbrev pub run_nodes : List NodeSnapshot
run_nodes = build_done ∷ release_open ∷ review_open ∷ []

abbrev pub normalized : Normalized
normalized = record { document = pipeline; topological_order = pipeline_order }

abbrev pub review_starts : SchedulingDecision
review_starts = record {
  ready_agents = "review" ∷ [];
  ready_approvals = [];
  skip_upstream = [];
  skip_conditions = [];
  skip_failure_policy = [];
  effective_limit = 2;
  active_agents = 0;
  available_agents = 1;
  stop_scheduling = false;
  complete = false;
}

pub plan : plan_schedule marshal_text normalized started_run run_nodes (pos 2) ≡ ok review_starts
unfolding plan_schedule by_id node_of lookup evaluate evaluate_compare reference_value split_dots
    results_of result_field join_dots normalize_scalar
plan = refl

plan_schedule-limits_example :
    (review_starts.active_agents ≡ count_active run_nodes)
    × (review_starts.available_agents + length review_starts.ready_agents
        ≡ review_starts.effective_limit - count_active run_nodes)
    × (0 < review_starts.effective_limit)
    × (review_starts.effective_limit ≤ safety_concurrency_ceiling)
    × (review_starts.effective_limit ≤ magnitude pipeline.max_concurrency)
    × (0 < magnitude (pos 2) → review_starts.effective_limit ≤ magnitude (pos 2))
plan_schedule-limits_example =
    plan_schedule-limits marshal_text normalized started_run run_nodes (pos 2) review_starts plan

plan_schedule-Started_example :
    Started marshal_text pipeline run_nodes
      (is_failure started_run.conclusion || any_failure run_nodes)
      review_starts
plan_schedule-Started_example =
    plan_schedule-Started marshal_text normalized started_run run_nodes (pos 2) review_starts plan

plan_schedule-exclusive_example : mentions "review" review_starts ≤ count "review" pipeline_order
plan_schedule-exclusive_example =
    plan_schedule-exclusive marshal_text normalized started_run run_nodes (pos 2) review_starts
      "review" plan

plan_schedule-progress_example :
    All (IsSettledIn run_nodes) pipeline_order ⊎ (0 < planned review_starts)
unfolding node_of by_id lookup contains count_active
plan_schedule-progress_example =
    plan_schedule-progress marshal_text normalized started_run run_nodes (pos 2) review_starts plan
      (tt, ((refl, tt), ((refl, (refl, tt)), tt)))
      ((build_done, refl, refl), ((review_open, refl, refl), ((release_open, refl, refl), tt))) refl

-- The node whose result the condition of `review` compares was skipped by a condition of its own.
abbrev build_skipped : NodeSnapshot
build_skipped = record zero_snapshot {
  state_schema_version = state_schema_version;
  id = "build";
  type = "agent";
  phase = NodePhase.skipped;
  reason = Reason.condition_false;
}

abbrev skipped_nodes : List NodeSnapshot
skipped_nodes = build_skipped ∷ release_open ∷ review_open ∷ []

plan_schedule_refuses_example :
    (e : ScheduleError) × (plan_schedule marshal_text normalized started_run skipped_nodes (pos 0)
      ≡ err e)
unfolding contains by_id upstream node_of lookup evaluate evaluate_compare reference_value
    split_dots results_of
plan_schedule_refuses_example =
    plan_schedule_refuses marshal_text normalized started_run skipped_nodes (pos 0) "review" "build"
      "result.decision" review_open (Scalar.text "approved") refl refl refl refl refl refl refl
