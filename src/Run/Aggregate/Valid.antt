-- ===== src/Run/Aggregate/Valid.antt =====
-- Aggregation keeps the snapshot of a run valid.
use fishyume.Base.{
  ◌≡◌, ◌↔◌, ◌∙◌, ap, ◌||◌, ◌>>◌, refl, String, Bool, true, false, not, List, [], ◌∷◌, some, ok,
  All-map, Option-cases, All, All-append, arith, reject_if, ◌&&◌, Bool-cases, inl, inr,
}
use fishyume.Workflow.Model.{Scalar, Document}
use fishyume.Run.State.{
  Phase, NodePhase, Conclusion, Reason, WorkflowSnapshot, NodeSnapshot, Accepted, SnapshotError,
  validate_workflow_snapshot, validate_node_snapshot, has_reason, valid_reason, has_conclusion,
  valid_conclusion, validate_receipts, validate_state_schema_version, valid_phase, same_bool,
  may_have_reason, is_completed,
}
use fishyume.Run.Aggregate.{
  Tally, empty_tally, tally_phase, tally_failure, tally_all, conclude, next_conclusion,
  aggregate_conclusion, settle, aggregate_run_state, or_default, draining, running_run, waiting_run,
  completed_run,
}

-- A reason that is known, where there is one.
abbrev HasKnownReason : NodeSnapshot → Type 0
HasKnownReason n = (has_reason n.reason && not (valid_reason n.reason)) ≡ false

abbrev pub IsValidNode : NodeSnapshot → Type 0
IsValidNode n = validate_node_snapshot n ≡ ok tt

IsValidNode-HasKnownReason : (n : NodeSnapshot) → IsValidNode n → HasKnownReason n
unfolding validate_node_snapshot
IsValidNode-HasKnownReason n h = ground arith

conclude-valid :
    (ns : List NodeSnapshot) (before after : Conclusion)
    → valid_conclusion before ≡ true
    → conclude ns before ≡ some after
    → valid_conclusion after ≡ true
unfolding conclude
conclude-valid [] before after v h = ground arith
conclude-valid (n ∷ ns) before after v h =
    conclude-valid ns (next_conclusion n.conclusion before) after (ground arith) (ground arith)

aggregate_conclusion-valid :
    (print : Scalar → String) (nodes : List NodeSnapshot) (doc : Document)
    → (valid_conclusion (aggregate_conclusion print nodes doc).0 ≡ true)
      × ((has_reason (aggregate_conclusion print nodes doc).1
            && not (valid_reason (aggregate_conclusion print nodes doc).1))
          ≡ false)
unfolding aggregate_conclusion
aggregate_conclusion-valid print nodes doc =
    elim (Option-cases (conclude nodes Conclusion.succeeded)) [
      | inl failed ↦ ground (arith, failed)
      | inr (c, ended) ↦
          ground (arith, ended, conclude-valid nodes Conclusion.succeeded c refl ended)
    ]

tally_phase-HasKnownReason :
    (n : NodeSnapshot) (phase : NodePhase) (t : Tally)
    → HasKnownReason n
    → All HasKnownReason t.waiting_agents
    → All HasKnownReason (tally_failure n (tally_phase n phase t)).waiting_agents
tally_phase-HasKnownReason n NodePhase.waiting t h a =
    let more = All-append HasKnownReason t.waiting_agents (n ∷ []) a (h, tt) in ground arith
tally_phase-HasKnownReason n NodePhase.running t h a = ground arith
tally_phase-HasKnownReason n _ t h a = ground arith

tally_all-HasKnownReason :
    (ns : List NodeSnapshot) (t : Tally)
    → All HasKnownReason ns
    → All HasKnownReason t.waiting_agents
    → All HasKnownReason (tally_all ns t).waiting_agents
unfolding tally_all
tally_all-HasKnownReason [] t h a = a
tally_all-HasKnownReason (n ∷ ns) t h a =
    tally_all-HasKnownReason ns (tally_failure n (tally_phase n n.phase t)) h.1
      (tally_phase-HasKnownReason n n.phase t h.0 a)

-- The tests that read what aggregation changes.
abbrev is_consistent : Phase → Conclusion → Reason → Bool
is_consistent phase conclusion reason =
    valid_phase phase
    && not (has_conclusion conclusion && not (valid_conclusion conclusion))
    && not (has_reason reason && not (valid_reason reason))
    && same_bool (is_completed phase) (has_conclusion conclusion)
    && not (not (may_have_reason phase) && has_reason reason && not (is_completed phase))

consistent :
    (phase : Phase) (conclusion : Conclusion) (reason : Reason)
    → is_consistent phase conclusion reason ≡ true
    → (not (valid_phase phase)
        || (has_conclusion conclusion && not (valid_conclusion conclusion))
        || (has_reason reason && not (valid_reason reason))
        || not (same_bool (is_completed phase) (has_conclusion conclusion))
        || (not (may_have_reason phase) && has_reason reason && not (is_completed phase)))
      ≡ false
consistent phase conclusion reason h = ground arith

-- What aggregation leaves alone.
record Untouched (before after : WorkflowSnapshot) : Type 0 where
  schema : after.state_schema_version ≡ before.state_schema_version
  version : after.state_version ≡ before.state_version
  receipts : after.action_receipts ≡ before.action_receipts

-- The chain of tests of a snapshot passes exactly when each test does.
chain : (schema : Accepted) (a b c d e : Bool) (receipts : Accepted) → Accepted
chain schema a b c d e receipts = do
  schema
  reject_if a SnapshotError.unknown_phase
  reject_if b SnapshotError.unknown_conclusion
  reject_if c SnapshotError.unknown_reason
  reject_if d SnapshotError.inconsistent_conclusion
  reject_if e SnapshotError.active_reason
  receipts

chain-ok :
    (schema : Accepted) (a b c d e : Bool) (receipts : Accepted)
    → (chain schema a b c d e receipts ≡ ok tt)
      ↔ ((schema ≡ ok tt) × ((a || b || c || d || e) ≡ false) × (receipts ≡ ok tt))
unfolding chain
chain-ok schema a b c d e receipts = (λ h. ground arith, λ h. ground arith)

revalidated :
    (before after : WorkflowSnapshot)
    → validate_workflow_snapshot before ≡ ok tt
    → Untouched before after
    → is_consistent after.phase after.conclusion after.reason ≡ true
    → validate_workflow_snapshot after ≡ ok tt
unfolding chain validate_workflow_snapshot
revalidated before after v u c =
    let old = (chain-ok _ _ _ _ _ _ _).0 v in
    (chain-ok _ _ _ _ _ _ _).1 (
      ap validate_state_schema_version u.schema ∙ old.0,
      consistent after.phase after.conclusion after.reason c,
      (λ i. validate_receipts (u.version i) (u.receipts i)) ∙ old.2,
    )

draining-valid :
    (t : Tally) (run : WorkflowSnapshot)
    → validate_workflow_snapshot run ≡ ok tt
    → validate_workflow_snapshot (draining t (running_run t run)) ≡ ok tt
draining-valid t run v = elim (Bool-cases t.failure) [
  | inl failed ↦
      revalidated run (draining t (running_run t run)) v
        (record { schema = ground arith; version = ground arith; receipts = ground arith })
        (ground arith)
  | inr sound ↦
      revalidated run (draining t (running_run t run)) v
        (record { schema = ground arith; version = ground arith; receipts = ground arith })
        (ground arith)
]

completed_run-valid :
    (print : Scalar → String) (nodes : List NodeSnapshot) (doc : Document) (run : WorkflowSnapshot)
    → validate_workflow_snapshot run ≡ ok tt
    → validate_workflow_snapshot (completed_run print nodes doc run) ≡ ok tt
completed_run-valid print nodes doc run v =
    revalidated run (completed_run print nodes doc run) v
      (record { schema = refl; version = refl; receipts = refl })
      (ground (arith, aggregate_conclusion-valid print nodes doc))

running_run-valid :
    (t : Tally) (run : WorkflowSnapshot)
    → validate_workflow_snapshot run ≡ ok tt
    → validate_workflow_snapshot (running_run t run) ≡ ok tt
running_run-valid t run v =
    revalidated run (running_run t run) v
      (record { schema = refl; version = refl; receipts = refl }) refl

waiting_run-valid :
    (t : Tally) (reason : Reason) (summary : String) (run : WorkflowSnapshot)
    → validate_workflow_snapshot run ≡ ok tt
    → (has_reason reason && not (valid_reason reason)) ≡ false
    → validate_workflow_snapshot (waiting_run t reason summary run) ≡ ok tt
waiting_run-valid t reason summary run v h =
    revalidated run (waiting_run t reason summary run) v
      (record { schema = refl; version = refl; receipts = refl }) (ground arith)

module _ (print : Scalar → String) (t : Tally) (run : WorkflowSnapshot) (nodes : List NodeSnapshot)
    (doc : Document) (v : validate_workflow_snapshot run ≡ ok tt) where
  settle-valid :
      (agents approvals : List NodeSnapshot)
      → All HasKnownReason agents
      → validate_workflow_snapshot (settle print t run nodes doc agents approvals).0 ≡ ok tt
  unfolding settle
  settle-valid [] [] h = ground (
    arith,
    draining-valid t run v,
    running_run-valid t run v,
    completed_run-valid print nodes doc run v,
  )
  settle-valid [] (n ∷ approvals) h = ground (
    arith,
    draining-valid t run v,
    waiting_run-valid t Reason.approval_required (or_default n.diagnostic "approval required") run v
        refl,
  )
  settle-valid (n ∷ agents) approvals h = ground (
    arith,
    draining-valid t run v,
    waiting_run-valid t n.reason (or_default n.diagnostic "Agent execution is waiting") run v h.0,
  )

-- From a valid snapshot of a run and valid snapshots of its nodes, aggregation makes a valid
-- snapshot: its phase and conclusion fit together, and all its names are known.
pub aggregate_run_state-valid :
    (print : Scalar → String) (run : WorkflowSnapshot) (nodes : List NodeSnapshot) (doc : Document)
    → validate_workflow_snapshot run ≡ ok tt
    → All IsValidNode nodes
    → validate_workflow_snapshot (aggregate_run_state print run nodes doc).0 ≡ ok tt
unfolding aggregate_run_state
aggregate_run_state-valid print run nodes doc v h =
    let t = tally_all nodes empty_tally in
    settle-valid print t run nodes doc v t.waiting_agents t.waiting_approvals (
      tally_all-HasKnownReason nodes empty_tally
        (All-map IsValidNode HasKnownReason nodes IsValidNode-HasKnownReason h) tt)
