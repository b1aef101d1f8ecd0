-- ===== src/Tests/Aggregates.antt =====
-- Runs as aggregation sees them.
use fishyume.Base.{◌≡◌, refl, String, true, false, not, List, [], ◌∷◌, ok}
use fishyume.Base.Int.{pos}
use fishyume.Workflow.Model.{Scalar}
use fishyume.Workflow.Reference.{Value}
use fishyume.Run.State.{
  NodePhase, Conclusion, Reason, NodeSnapshot, zero_snapshot, is_completed,
  validate_workflow_snapshot, validate_node_snapshot,
}
use fishyume.Run.Facts.{by_id}
use fishyume.Run.Schedule.{SchedulingDecision, plan_schedule}
use fishyume.Run.Aggregate.{aggregate_run_state}
use fishyume.Run.Aggregate.Valid.{aggregate_run_state-valid}
use fishyume.Run.Aggregate.Conclusions.{
  any_keeps_open, aggregate_run_state-completes, aggregate_run_state-after_plan,
}
use fishyume.Tests.Documents.{pipeline, marshal_text}
use fishyume.Tests.Runs.{started_run, run_nodes, normalized, build_done}

abbrev print_text : Scalar → String
print_text s = marshal_text (Value.scalar s)

aggregate_run_state-valid_example :
    validate_workflow_snapshot (aggregate_run_state print_text started_run run_nodes pipeline).0
    ≡ ok tt
unfolding validate_workflow_snapshot validate_node_snapshot
aggregate_run_state-valid_example =
    aggregate_run_state-valid print_text started_run run_nodes pipeline refl
      (refl, (refl, (refl, tt)))

abbrev build_rejected : NodeSnapshot
build_rejected = record build_done { conclusion = Conclusion.rejected }

abbrev rejected_nodes : List NodeSnapshot
rejected_nodes = build_rejected ∷ []

aggregate_run_state-completes_example :
    is_completed (aggregate_run_state print_text started_run run_nodes pipeline).0.phase
    ≡ not (any_keeps_open run_nodes)
aggregate_run_state-completes_example =
    aggregate_run_state-completes print_text started_run run_nodes pipeline

abbrev skip_node : String → String → NodeSnapshot
skip_node id type = record zero_snapshot {
  state_schema_version = pos 3;
  id = id;
  type = type;
  phase = NodePhase.skipped;
  reason = Reason.condition_false;
}

abbrev settled_nodes : List NodeSnapshot
settled_nodes = build_done ∷ skip_node "review" "agent" ∷ skip_node "release" "approval" ∷ []

abbrev nothing_left_to_do : SchedulingDecision
nothing_left_to_do = record {
  ready_agents = [];
  ready_approvals = [];
  skip_upstream = [];
  skip_conditions = [];
  skip_failure_policy = [];
  effective_limit = 2;
  active_agents = 0;
  available_agents = 2;
  stop_scheduling = false;
  complete = true;
}

complete_plan :
    plan_schedule marshal_text normalized started_run settled_nodes (pos 2) ≡ ok nothing_left_to_do
unfolding plan_schedule by_id
complete_plan = refl

aggregate_run_state-after_plan_example :
    is_completed (aggregate_run_state print_text started_run settled_nodes pipeline).0.phase ≡ true
aggregate_run_state-after_plan_example =
    aggregate_run_state-after_plan marshal_text print_text normalized started_run settled_nodes
      (pos 2) nothing_left_to_do complete_plan refl
