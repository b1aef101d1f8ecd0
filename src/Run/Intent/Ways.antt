-- ===== src/Run/Intent/Ways.antt =====
-- wf-engine/internal/run/service.go, `applyActionIntent`: the ways through one round of its loop.
use fishyume.Base.{ℕ, suc, ◌≡◌, refl, String, true, false, some, ok, err, ltb}
use fishyume.Base.Text.{is_empty}
use fishyume.Base.Assoc.{lookup, put}
use fishyume.Run.State.{WorkflowSnapshot}
use fishyume.Run.Equality.{NodeSnapshot-discrete, is_same, is_same_refl}
use fishyume.Run.Disk.{
  Disk, stopped, NodeMutation, ActionIntent, read_node, write_node, write_action_intent,
}
use fishyume.Run.Intent.{with_summary, settle, mark_applied, apply_one}
use fishyume.Run.Intent.Plain.{IsPlain, AllPlain, stored_node-kept, stored_mutations-kept}

module _ (action_id : String) (index : ℕ) (m : NodeMutation) (intent : ActionIntent)
    (run : WorkflowSnapshot) (plain : IsPlain m) (all_plain : AllPlain intent.mutations) where
  abbrev pub marked_at : ActionIntent
  marked_at = record intent { applied = suc index }

  abbrev pub run_at : WorkflowSnapshot
  run_at = with_summary m.after.id m.after run

  -- The disk when the node is written, and when the marker is.
  abbrev pub wrote : ℕ → Disk → Disk
  wrote left d = record d { nodes = put m.after.id m.after d.nodes; writes_left = left }

  abbrev pub marks : ℕ → Disk → Disk
  marks left d = record d { intents = put action_id marked_at d.intents; writes_left = left }

  -- The ways through one round.
  pub passed :
      (d : Disk)
      → lookup m.after.id d.nodes ≡ some m.after
      → ltb index intent.applied ≡ true
      → apply_one action_id index m intent run d ≡ (ok (intent, run_at), d)
  unfolding apply_one read_node
  passed d found h = rw (found, h) refl

  module _ (named : is_empty action_id ≡ false) (late : ltb index intent.applied ≡ false)
      (room : ltb intent.applied (suc index) ≡ true) where
    pub marker_stops :
        (d : Disk)
        → lookup m.after.id d.nodes ≡ some m.after
        → d.writes_left ≡ 0
        → apply_one action_id index m intent run d ≡ (err stopped, d)
    unfolding apply_one read_node settle mark_applied write_action_intent
    marker_stops d found none_left =
        rw (found, late, is_same_refl NodeSnapshot-discrete m.after, named, room, named, none_left)
          refl

    pub marker_written :
        (d : Disk) (left : ℕ)
        → lookup m.after.id d.nodes ≡ some m.after
        → d.writes_left ≡ suc left
        → apply_one action_id index m intent run d ≡ (ok (marked_at, run_at), marks left d)
    unfolding apply_one read_node settle mark_applied write_action_intent
    marker_written d left found some_left =
        rw
          (
            found,
            late,
            is_same_refl NodeSnapshot-discrete m.after,
            named,
            room,
            named,
            some_left,
            stored_mutations-kept d.indented intent.mutations all_plain,
          )
          refl

    module _ (same_id : m.before.id ≡ m.after.id)
        (differs : is_same NodeSnapshot-discrete m.before m.after ≡ false) where
      pub node_stops :
          (d : Disk)
          → lookup m.after.id d.nodes ≡ some m.before
          → d.writes_left ≡ 0
          → apply_one action_id index m intent run d ≡ (err stopped, d)
      unfolding apply_one read_node settle mark_applied write_action_intent write_node
      node_stops d found none_left =
          rw (found, late, differs, is_same_refl NodeSnapshot-discrete m.before, none_left) refl

      pub node_written :
          (d : Disk)
          → lookup m.after.id d.nodes ≡ some m.before
          → d.writes_left ≡ 1
          → apply_one action_id index m intent run d ≡ (err stopped, wrote 0 d)
      unfolding apply_one read_node settle mark_applied write_action_intent write_node
      node_written d found one_left =
          rw
            (
              found,
              late,
              differs,
              is_same_refl NodeSnapshot-discrete m.before,
              one_left,
              named,
              room,
              named,
              same_id,
              stored_node-kept d.indented 1 m.after plain.1,
            )
            refl

      pub both_written :
          (d : Disk) (left : ℕ)
          → lookup m.after.id d.nodes ≡ some m.before
          → d.writes_left ≡ suc (suc left)
          → apply_one action_id index m intent run d
            ≡ (ok (marked_at, run_at), marks left (wrote (suc left) d))
      unfolding apply_one read_node settle mark_applied write_action_intent write_node
      both_written d left found some_left =
          rw
            (
              found,
              late,
              differs,
              is_same_refl NodeSnapshot-discrete m.before,
              some_left,
              named,
              room,
              named,
              same_id,
              stored_node-kept d.indented 1 m.after plain.1,
              stored_mutations-kept d.indented intent.mutations all_plain,
            )
            refl
