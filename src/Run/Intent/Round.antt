-- ===== src/Run/Intent/Round.antt =====
-- wf-engine/internal/run/service.go, `applyActionIntent`: one round of its loop, and every way in which
-- the process may stop in it.
use fishyume.Base.{
  ℕ, zero, suc, ◌+◌, ◌≤◌, ◌<◌, ◌≡◌, refl, sym, subst, ap, ◌∙◌, String, true, false, some, Outcome,
  ok, err, arith, str_eq, ltb, Bool-cases, inl, inr, ◌⊎◌,
}
use fishyume.Base.Text.{is_empty}
use fishyume.Base.Assoc.{lookup, lookup-put, lookup-put-other}
use fishyume.Run.State.{WorkflowSnapshot}
use fishyume.Run.Equality.{NodeSnapshot-discrete, is_same, is_same-eq}
use fishyume.Run.Disk.{Disk, ActionError, stopped, NodeMutation, ActionIntent}
use fishyume.Run.Intent.{apply_one}
use fishyume.Run.Intent.Progress.{IsAt, SameRun}
use fishyume.Run.Intent.Ways.{
  marked_at, run_at, wrote, marks, passed, marker_stops, marker_written, node_stops, node_written,
  both_written,
}
use fishyume.Run.Intent.Plain.{IsPlain, AllPlain}

-- The loop has a marker at `index` or behind it, as before or of its own.
abbrev pub IsMarked : (index : ℕ) → (intent marked : ActionIntent) → Type 0
IsMarked index intent marked =
    (marked ≡ intent)
    ⊎ ((marked ≡ record intent { applied = suc index }) × (intent.applied ≤ index))

-- What one round of the loop leaves, whether the process stops in it or not.
pub record One (action_id : String) (index : ℕ) (m : NodeMutation) (intent : ActionIntent)
    (d : Disk) (r : Outcome ActionError (ActionIntent × WorkflowSnapshot)) (e : Disk) : Type 0 where
  pub marked : ActionIntent
  pub moved : IsMarked index intent marked
  pub durable : lookup action_id e.intents ≡ some marked
  pub at : IsAt e.nodes marked.applied index m
  pub others : (id : String) → str_eq m.after.id id ≡ false → lookup id e.nodes ≡ lookup id d.nodes
  pub same : SameRun d e
  pub spent : d.writes_left ≤ e.writes_left + 2
  pub result :
      ((r ≡ err stopped) × (d.writes_left < 2))
      ⊎ ((run : WorkflowSnapshot) × (r ≡ ok (marked, run))
          × (lookup m.after.id e.nodes ≡ some m.after)
          × (index < marked.applied))

few-cases : (n : ℕ) → (n ≡ 0) ⊎ ((n ≡ 1) ⊎ ((left : ℕ) × (n ≡ suc (suc left))))
few-cases zero = inl refl
few-cases (suc zero) = inr (inl refl)
few-cases (suc (suc left)) = inr (inr (left, refl))

module _ (action_id : String) (index : ℕ) (m : NodeMutation) (intent : ActionIntent)
    (run : WorkflowSnapshot) (named : is_empty action_id ≡ false) (d : Disk)
    (durable : lookup action_id d.intents ≡ some intent) (ids : m.before.id ≡ m.after.id)
    (plain : IsPlain m) (all_plain : AllPlain intent.mutations) where
  abbrev pub Leaves : Outcome ActionError (ActionIntent × WorkflowSnapshot) × Disk → Type 0
  Leaves p = One action_id index m intent d p.0 p.1

  abbrev goes : ActionIntent
  goes = marked_at action_id index m intent run plain all_plain

  abbrev walks : WorkflowSnapshot
  walks = run_at action_id index m intent run plain all_plain

  -- A round that the process stops in before its first write.
  nothing-One :
      (lookup m.after.id d.nodes ≡ some m.after)
        ⊎ ((lookup m.after.id d.nodes ≡ some m.before) × (intent.applied ≤ index))
      → d.writes_left < 2
      → Leaves (err stopped, d)
  nothing-One at few = record {
    marked = intent;
    moved = inl refl;
    durable = durable;
    at = (ids, at);
    others = λ id h. refl;
    same = (refl, refl, refl);
    spent = omega arith;
    result = inl (refl, few);
  }

  passed-One :
      lookup m.after.id d.nodes ≡ some m.after
      → index < intent.applied
      → Leaves (ok (intent, walks), d)
  passed-One found h = record {
    marked = intent;
    moved = inl refl;
    durable = durable;
    at = (ids, inl found);
    others = λ id h. refl;
    same = (refl, refl, refl);
    spent = omega arith;
    result = inr (walks, refl, found, h);
  }

  -- A round with the node as after and the marker on the disk.
  marked-One :
      (e : Disk) (left : ℕ)
      → intent.applied ≤ index
      → lookup m.after.id e.nodes ≡ some m.after
      → ((id : String) → str_eq m.after.id id ≡ false → lookup id e.nodes ≡ lookup id d.nodes)
      → SameRun d e
      → d.writes_left ≤ left + 2
      → Leaves (ok (goes, walks), marks action_id index m intent run plain all_plain left e)
  marked-One e left early found others same spent = record {
    marked = goes;
    moved = inr (refl, early);
    durable = lookup-put action_id goes e.intents;
    at = (ids, inl found);
    others = others;
    same = same;
    spent = spent;
    result = inr (walks, refl, found, omega arith);
  }

  wrote-others :
      (left : ℕ) (id : String)
      → str_eq m.after.id id ≡ false
      → lookup id (wrote action_id index m intent run plain all_plain left d).nodes
        ≡ lookup id d.nodes
  wrote-others left id h = lookup-put-other m.after.id id m.after d.nodes h

  wrote-One :
      d.writes_left ≡ 1
      → Leaves (err stopped, wrote action_id index m intent run plain all_plain 0 d)
  wrote-One one_left = record {
    marked = intent;
    moved = inl refl;
    durable = durable;
    at = (ids, inl (lookup-put m.after.id m.after d.nodes));
    others = wrote-others 0;
    same = (refl, refl, refl);
    spent = omega arith;
    result = inl (refl, omega arith);
  }

  -- The node is as after already.
  settled-One :
      lookup m.after.id d.nodes ≡ some m.after
      → intent.applied ≤ index
      → Leaves (apply_one action_id index m intent run d)
  settled-One found early =
      let late : ltb index intent.applied ≡ false = ground arith in
      let room : ltb intent.applied (suc index) ≡ true = ground arith in
      let go : (left : ℕ)
          → d.writes_left ≡ suc left
          → Leaves (apply_one action_id index m intent run d) =
        λ left some_left.
          subst Leaves
            (sym (
              marker_written action_id index m intent run plain all_plain named late room d left
                found some_left))
            (marked-One d left early found (λ id h. refl) (refl, refl, refl) (omega arith)) in
      elim (few-cases d.writes_left) [
        | inl none_left ↦
            subst Leaves
              (sym (
                marker_stops action_id index m intent run plain all_plain named late room d found
                  none_left))
              (nothing-One (inl found) (omega arith))
        | inr (inl one_left) ↦ go 0 one_left
        | inr (inr (left, many)) ↦ go (suc left) many
      ]

  -- The node is as before, and the mutation changes it.
  unsettled-One :
      lookup m.after.id d.nodes ≡ some m.before
      → is_same NodeSnapshot-discrete m.before m.after ≡ false
      → intent.applied ≤ index
      → Leaves (apply_one action_id index m intent run d)
  unsettled-One found differs early =
      let late : ltb index intent.applied ≡ false = ground arith in
      let room : ltb intent.applied (suc index) ≡ true = ground arith in
      elim (few-cases d.writes_left) [
        | inl none_left ↦
            subst Leaves
              (sym (
                node_stops action_id index m intent run plain all_plain named late room ids differs
                  d found none_left))
              (nothing-One (inr (found, early)) (omega arith))
        | inr (inl one_left) ↦
            subst Leaves
              (sym (
                node_written action_id index m intent run plain all_plain named late room ids
                  differs d found one_left))
              (wrote-One one_left)
        | inr (inr (left, many)) ↦
            subst Leaves
              (sym (
                both_written action_id index m intent run plain all_plain named late room ids
                  differs d left found many))
              (marked-One (wrote action_id index m intent run plain all_plain (suc left) d) left
                early (lookup-put m.after.id m.after d.nodes) (wrote-others (suc left))
                (refl, refl, refl) (omega arith))
      ]

  pub apply_one-One :
      (lookup m.after.id d.nodes ≡ some m.after)
        ⊎ ((lookup m.after.id d.nodes ≡ some m.before) × (intent.applied ≤ index))
      → Leaves (apply_one action_id index m intent run d)
  apply_one-One (inl found) = elim (Bool-cases (ltb index intent.applied)) [
    | inl behind ↦
        subst Leaves (sym (passed action_id index m intent run plain all_plain d found behind))
          (passed-One found (ground arith))
    | inr late ↦ settled-One found (ground arith)
  ]
  apply_one-One (inr (found, early)) =
      elim (Bool-cases (is_same NodeSnapshot-discrete m.before m.after)) [
        | inl same ↦
            settled-One
              (found ∙ ap some ((is_same-eq NodeSnapshot-discrete m.before m.after).0 same)) early
        | inr differs ↦ unsettled-One found differs early
      ]
