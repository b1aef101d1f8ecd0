-- ===== src/Run/Intent/Plain.antt =====
-- wf-engine/internal/store/json_store.go: the nodes that every file gives back as they are, since none of
-- them has an answer that waits for its Attempt.
use fishyume.Base.{ℕ, ◌≡◌, refl, ap, ◌∙◌, String, List, [], ◌∷◌, none}
use fishyume.Run.State.{NodeSnapshot}
use fishyume.Run.Disk.{NodeMutation, stored_node, stored_mutation, stored_mutations}

abbrev pub IsPlain : NodeMutation → Type 0
IsPlain m = (m.before.pending_input_answer ≡ none) × (m.after.pending_input_answer ≡ none)

abbrev pub AllPlain : List NodeMutation → Type 0
AllPlain [] = Unit
AllPlain (m ∷ ms) = IsPlain m × AllPlain ms

module _ (indented : ℕ → String → String) where
  pub stored_node-kept :
      (depth : ℕ) (node : NodeSnapshot)
      → node.pending_input_answer ≡ none
      → stored_node indented depth node ≡ node
  unfolding stored_node
  stored_node-kept depth node h = rw h refl

  pub stored_mutations-kept :
      (ms : List NodeMutation) → AllPlain ms → stored_mutations indented ms ≡ ms
  unfolding stored_mutations stored_mutation
  stored_mutations-kept [] h = refl
  stored_mutations-kept (m ∷ ms) h =
      ap
        (λ n.
          record { before = n; after = stored_node indented 4 m.after }
          ∷ stored_mutations indented ms)
        (stored_node-kept 4 m.before h.0.0)
      ∙ ap (λ n. record { before = m.before; after = n } ∷ stored_mutations indented ms)
          (stored_node-kept 4 m.after h.0.1)
      ∙ ap (λ rest. m ∷ rest) (stored_mutations-kept ms h.1)
