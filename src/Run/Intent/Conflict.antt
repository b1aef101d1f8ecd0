-- ===== src/Run/Intent/Conflict.antt =====
-- wf-engine/internal/run/service.go, `applyActionIntent`: the comparison of a node with the plan of an
-- answer, when their files lay the answer out in different ways.
use fishyume.Base.{
  ℕ, ◌≡◌, refl, ap, String, true, false, List, [], ◌∷◌, none, some, err, arith, str_eq, Bool-cases,
  inl, inr,
}
use fishyume.Base.Assoc.{lookup}
use fishyume.Run.State.{NodeSnapshot, WorkflowSnapshot}
use fishyume.Run.Action.{ResumeAction}
use fishyume.Run.Equality.{NodeSnapshot-discrete, is_same, is_same-eq}
use fishyume.Run.Disk.{
  Disk, NodeMutation, ActionIntent, unrelated_mutation, stored_node, stored_mutation,
  stored_mutations, stored_intent, read_node,
}
use fishyume.Run.Intent.{
  has_evidence, action_intent_planned, begin_applying, settle, apply_one, apply_mutations,
  apply_action_intent, resume_action_intent,
}

-- Nodes with different answers are different nodes.
answers-differ :
    (a b : NodeSnapshot)
    → ¬ (a.pending_input_answer ≡ b.pending_input_answer)
    → is_same NodeSnapshot-discrete a b ≡ false
answers-differ a b h = elim (Bool-cases (is_same NodeSnapshot-discrete a b)) [
  | inl same ↦
      absurd (h (ap (λ n. n.pending_input_answer) ((is_same-eq NodeSnapshot-discrete a b).0 same)))
  | inr other ↦ other
]

module _ (m : NodeMutation) (text : String) (indented : ℕ → String → String)
    (unanswered : m.before.pending_input_answer ≡ none)
    (answered : m.after.pending_input_answer ≡ some text)
    (layouts : ¬ (indented 1 text ≡ indented 4 text)) where
  after-differs :
      is_same NodeSnapshot-discrete
        (stored_node indented 1 m.after)
        (stored_node indented 4 m.after)
      ≡ false
  unfolding stored_node
  after-differs =
      answers-differ (stored_node indented 1 m.after) (stored_node indented 4 m.after)
        (λ e. layouts (ground (arith, answered, e)))

  before-differs :
      is_same NodeSnapshot-discrete
        (stored_node indented 1 m.after)
        (stored_node indented 4 m.before)
      ≡ false
  unfolding stored_node
  before-differs =
      answers-differ (stored_node indented 1 m.after) (stored_node indented 4 m.before)
        (λ e. ground (arith, answered, unanswered, e))

stored-evidence :
    (indented : ℕ → String → String) (intent : ActionIntent) (ms : List NodeMutation)
    → intent.mutations ≡ ms
    → has_evidence intent ≡ true
    → has_evidence (stored_intent indented intent) ≡ true
unfolding stored_mutations
stored-evidence indented intent [] planned h = ground (arith, planned)
stored-evidence indented intent (m ∷ ms) planned h = rw planned (ground arith)

-- A replay of an answer fails for good once the process has stopped between the write of the answered
-- node and the write of its marker, when the text of the answer is laid out differently in the file
-- of the node and in the file of the intent, where it is nested deeper: the node that is read is
-- neither the one before the mutation nor the one after it, so the replay returns an error, and it
-- leaves the disk, with the intent, as it is.
pub resume_action_intent_conflicts :
    (action : ResumeAction) (intent : ActionIntent) (m : NodeMutation) (ms : List NodeMutation)
    (text : String) (run : WorkflowSnapshot) (d : Disk)
    → has_evidence intent ≡ true
    → str_eq intent.phase action_intent_planned ≡ false
    → intent.mutations ≡ m ∷ ms
    → intent.applied ≡ 0
    → m.before.pending_input_answer ≡ none
    → m.after.pending_input_answer ≡ some text
    → ¬ (d.indented 1 text ≡ d.indented 4 text)
    → lookup m.after.id d.nodes ≡ some (stored_node d.indented 1 m.after)
    → resume_action_intent run action (stored_intent d.indented intent) d
      ≡ (err unrelated_mutation, d)
unfolding resume_action_intent begin_applying apply_action_intent apply_mutations apply_one settle
    read_node stored_mutations stored_mutation stored_node
resume_action_intent_conflicts action intent m ms text run d evidence begun planned fresh unanswered
      answered layouts found =
    rw
      (
        stored-evidence d.indented intent (m ∷ ms) planned evidence,
        begun,
        planned,
        fresh,
        found,
        after-differs m text d.indented unanswered answered layouts,
        before-differs m text d.indented unanswered answered layouts,
      )
      refl
