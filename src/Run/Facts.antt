-- ===== src/Run/Facts.antt =====
-- wf-engine/internal/run/scheduler.go: what `PlanSchedule` reads off the snapshots of the nodes, in its
-- first loop and in its last.
use fishyume.Base.{
  ℕ, ◌+◌, String, Bool, true, false, ◌&&◌, ◌||◌, List, [], ◌∷◌, ◌++◌, Option, none, some, str_eq,
  one_if, if◌then◌else◌,
}
use fishyume.Base.Int.{pos, ltz}
use fishyume.Workflow.Model.{Result}
use fishyume.Workflow.Reference.{Results}
use fishyume.Run.State.{
  NodePhase, Conclusion, Reason, NodeSnapshot, zero_snapshot, is_node_completed,
}

-- Failed, indeterminate or cancelled.
abbrev pub is_failure : Conclusion → Bool
is_failure Conclusion.failed = true
is_failure Conclusion.indeterminate = true
is_failure Conclusion.cancelled = true
is_failure _ = false

abbrev pub is_active : NodePhase → Bool
is_active NodePhase.running = true
is_active NodePhase.waiting = true
is_active _ = false

abbrev pub is_waiting : NodePhase → Bool
is_waiting NodePhase.waiting = true
is_waiting _ = false

abbrev pub is_open : NodePhase → Bool
is_open NodePhase.pending = true
is_open NodePhase.ready = true
is_open _ = false

abbrev pub is_settled : NodePhase → Bool
is_settled NodePhase.completed = true
is_settled NodePhase.skipped = true
is_settled _ = false

abbrev pub is_upstream_failed : Reason → Bool
is_upstream_failed Reason.upstream_failed = true
is_upstream_failed _ = false

-- `byID`: the last snapshot of an ID.
unfoldable pub by_id : List NodeSnapshot → String → Option NodeSnapshot
by_id [] id = none
by_id (n ∷ ns) id = elim (by_id ns id) [
  | some later ↦ some later
  | none ↦ if str_eq n.id id then some n else none
]

abbrev pub or_zero_snapshot : Option NodeSnapshot → NodeSnapshot
or_zero_snapshot none = zero_snapshot
or_zero_snapshot (some n) = n

-- `byID[id]` without `ok`.
abbrev pub snapshot_of : List NodeSnapshot → String → NodeSnapshot
snapshot_of nodes id = or_zero_snapshot (by_id nodes id)

abbrev pub result_entry : NodeSnapshot → Option Result → Results
result_entry n none = []
result_entry n (some r) = (n.id, r) ∷ []

-- `results`: `lookup` finds the first entry, so the later snapshots come first.
unfoldable pub results_of : List NodeSnapshot → Results
results_of [] = []
results_of (n ∷ ns) = results_of ns ++ result_entry n n.result

abbrev pub counts_as_active : NodeSnapshot → Bool
counts_as_active n = str_eq n.type "agent" && is_active n.phase && ltz (pos 0) n.current_attempt

unfoldable pub count_active : List NodeSnapshot → ℕ
count_active [] = 0
count_active (n ∷ ns) = one_if (counts_as_active n) + count_active ns

unfoldable pub any_failure : List NodeSnapshot → Bool
any_failure [] = false
any_failure (n ∷ ns) = (is_node_completed n.phase && is_failure n.conclusion) || any_failure ns

-- The last loop: every node is completed or skipped.
unfoldable pub all_settled : List NodeSnapshot → Bool
all_settled [] = true
all_settled (n ∷ ns) = is_settled n.phase && all_settled ns
