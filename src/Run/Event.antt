-- ===== src/Run/Event.antt =====
-- wf-engine/internal/run: the events of a run, and `resetEventSequence`.
use fishyume.Base.{ℕ, String, not, List, [], ◌∷◌, Outcome, ok, ◌>>◌, reject_if, ltb}
use fishyume.Run.State.{Phase, Conclusion, Reason, NodePhase}

pub record WorkflowEvent : Type 0 where
  pub run_id : String
  pub sequence : ℕ
  pub type : String
  pub phase : Phase
  pub conclusion : Conclusion
  pub reason : Reason
  pub node_id : String
  pub node_phase : NodePhase
  pub message : String

pub data EventError : Type 0 where
  not_increasing : EventError

-- The callback of `ReadEvents`, over the log; `sequence` is the last number that it has seen.
unfoldable pub read_sequence : (sequence : ℕ) → List WorkflowEvent → Outcome EventError ℕ
read_sequence sequence [] = ok sequence
read_sequence sequence (event ∷ events) = do
  reject_if (not (ltb sequence event.sequence)) not_increasing
  read_sequence event.sequence events

unfoldable pub reset_event_sequence : List WorkflowEvent → Outcome EventError ℕ
unfolding read_sequence
reset_event_sequence events = read_sequence 0 events
