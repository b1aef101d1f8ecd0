-- ===== src/Run/Intent/Loop.antt =====
-- wf-engine/internal/run/service.go, `applyActionIntent`: the whole loop over the mutations.
use text.Mathlib.TextEquality.{eq_iff}
use fishyume.Base.{
  ℕ, suc, ◌+◌, ◌*◌, ◌≤◌, ◌<◌, ◌≡◌, refl, sym, subst, ap, ◌∙◌, String, false, List, [], ◌∷◌, some,
  Outcome, ok, err, arith, length, contains, str_eq, IsDistinct, inl, inr, ◌⊎◌,
}
use fishyume.Base.Text.{is_empty}
use fishyume.Base.Assoc.{lookup}
use fishyume.Run.State.{WorkflowSnapshot}
use fishyume.Run.Disk.{Disk, ActionError, stopped, NodeMutation, ActionIntent, >>=-ok, >>=-err}
use fishyume.Run.Intent.{apply_one, apply_mutations}
use fishyume.Run.Intent.Plain.{AllPlain}
use fishyume.Run.Intent.Progress.{Nodes, AllAt, AllDone, ids_of, SameRun}
use fishyume.Run.Intent.Round.{IsMarked, One, apply_one-One}

-- The nodes that a list of mutations is about, on two disks.
abbrev SameFor : List NodeMutation → Nodes → Nodes → Type 0
SameFor [] old new = Unit
SameFor (m ∷ ms) old new = (lookup m.after.id new ≡ lookup m.after.id old) × SameFor ms old new

other-SameFor :
    (id : String) (ms : List NodeMutation) (old new : Nodes)
    → contains (ids_of ms) id ≡ false
    → ((x : String) → str_eq id x ≡ false → lookup x new ≡ lookup x old)
    → SameFor ms old new
unfolding contains
other-SameFor id [] old new h others = tt
other-SameFor id (m ∷ ms) old new h others = (
  others m.after.id (ground (arith, eq_iff id m.after.id, eq_iff m.after.id id)),
  other-SameFor id ms old new (ground arith) others,
)

-- The mutations behind a round are as before it.
AllAt-after :
    (old new : Nodes) (applied marked index : ℕ) (ms : List NodeMutation)
    → SameFor ms old new
    → (marked ≤ applied) ⊎ (marked ≤ index)
    → AllAt old applied index ms
    → AllAt new marked index ms
AllAt-after old new applied marked index [] same h at = tt
AllAt-after old new applied marked index (m ∷ ms) same h at = (
  (
    at.0.0,
    elim at.0.1 [
      | inl done ↦ inl (same.0 ∙ done)
      | inr (before, early) ↦
          inr (same.0 ∙ before, elim h [ inl low ↦ omega arith | inr low ↦ omega arith ])
    ],
  ),
  AllAt-after old new applied marked (suc index) ms same.1
      (elim h [ inl low ↦ inl low | inr low ↦ inr (omega arith) ]) at.1,
)

IsMarked-applied :
    (index : ℕ) (intent marked : ActionIntent)
    → IsMarked index intent marked
    → (marked.applied ≤ intent.applied) ⊎ (marked.applied ≤ suc index)
IsMarked-applied index intent marked (inl same) = rw same (inl (omega arith))
IsMarked-applied index intent marked (inr (same, early)) = rw same (inr (omega arith))

-- Only the count of applied mutations may differ.
abbrev pub IsCounted : (intent marked : ActionIntent) → Type 0
IsCounted intent marked = marked ≡ record intent { applied = marked.applied }

-- What the loop leaves, whether the process stops in it or not.
pub record Whole (action_id : String) (index : ℕ) (ms : List NodeMutation) (intent : ActionIntent)
    (d : Disk) (r : Outcome ActionError WorkflowSnapshot) (e : Disk) : Type 0 where
  pub marked : ActionIntent
  pub counted : IsCounted intent marked
  pub durable : lookup action_id e.intents ≡ some marked
  pub at : AllAt e.nodes marked.applied index ms
  pub others :
      (id : String) → contains (ids_of ms) id ≡ false → lookup id e.nodes ≡ lookup id d.nodes
  pub same : SameRun d e
  pub spent : d.writes_left ≤ e.writes_left + 2 * length ms
  pub result :
      ((r ≡ err stopped) × (d.writes_left < 2 * length ms))
      ⊎ ((run : WorkflowSnapshot) × (r ≡ ok run) × AllDone e.nodes ms)

IsMarked-IsCounted :
    (index : ℕ) (intent marked : ActionIntent)
    → IsMarked index intent marked
    → IsCounted intent marked
IsMarked-IsCounted index intent marked (inl same) =
    same ∙ ap (λ n. record intent { applied = n }) (ap (λ i. i.applied) (sym same))
IsMarked-IsCounted index intent marked (inr (same, early)) =
    same ∙ ap (λ n. record intent { applied = n }) (ap (λ i. i.applied) (sym same))

IsCounted-trans : (a b c : ActionIntent) → IsCounted a b → IsCounted b c → IsCounted a c
IsCounted-trans a b c h k =
    let recount : ActionIntent → ActionIntent = λ i. record i { applied = c.applied } in
    k ∙ ap recount h

module _ (action_id : String) (named : is_empty action_id ≡ false) where
  abbrev Ends :
      (index : ℕ)
      → List NodeMutation
      → ActionIntent
      → Disk
      → Outcome ActionError WorkflowSnapshot × Disk
      → Type 0
  Ends index ms intent d p = Whole action_id index ms intent d p.0 p.1

  -- The process stops in a round.
  stopped-Whole :
      (index : ℕ) (m : NodeMutation) (ms : List NodeMutation) (intent : ActionIntent) (d e : Disk)
      → AllAt d.nodes intent.applied index (m ∷ ms)
      → IsDistinct (ids_of (m ∷ ms))
      → One action_id index m intent d (err stopped) e
      → d.writes_left < 2
      → Whole action_id index (m ∷ ms) intent d (err stopped) e
  unfolding contains
  stopped-Whole index m ms intent d e at distinct one few = record {
    marked = one.marked;
    counted = IsMarked-IsCounted index intent one.marked one.moved;
    durable = one.durable;
    at = (
      one.at,
      AllAt-after d.nodes e.nodes intent.applied one.marked.applied (suc index) ms
          (other-SameFor m.after.id ms d.nodes e.nodes distinct.0 one.others)
          (IsMarked-applied index intent one.marked one.moved) at.1,
    );
    others = λ id h. one.others id (ground arith);
    same = one.same;
    spent = omega (arith, one.spent);
    result = inl (refl, omega arith);
  }

  -- A round is over, and the others follow.
  passed-Whole :
      (index : ℕ) (m : NodeMutation) (ms : List NodeMutation) (intent marked : ActionIntent)
      (r : Outcome ActionError WorkflowSnapshot) (d c e : Disk)
      → IsDistinct (ids_of (m ∷ ms))
      → m.before.id ≡ m.after.id
      → IsCounted intent marked
      → lookup m.after.id c.nodes ≡ some m.after
      → ((id : String) → str_eq m.after.id id ≡ false → lookup id c.nodes ≡ lookup id d.nodes)
      → SameRun d c
      → d.writes_left ≤ c.writes_left + 2
      → Whole action_id (suc index) ms marked c r e
      → Whole action_id index (m ∷ ms) intent d r e
  unfolding contains
  passed-Whole index m ms intent marked r d c e distinct ids counted found others same spent rest =
      let kept = rest.others m.after.id distinct.0 ∙ found in
      record {
        marked = rest.marked;
        counted = IsCounted-trans intent marked rest.marked counted rest.counted;
        durable = rest.durable;
        at = ((ids, inl kept), rest.at);
        others = λ id h. rest.others id (ground arith) ∙ others id (ground arith);
        same = (rest.same.0 ∙ same.0, rest.same.1 ∙ same.1, rest.same.2 ∙ same.2);
        spent = omega (arith, rest.spent);
        result = elim rest.result [
          | inl (halts, few) ↦ inl (halts, omega arith)
          | inr (run, goes, done) ↦ inr (run, goes, (kept, done))
        ];
      }

  pub apply_mutations-Whole :
      (index : ℕ) (ms : List NodeMutation) (intent : ActionIntent) (run : WorkflowSnapshot)
      (d : Disk)
      → lookup action_id d.intents ≡ some intent
      → AllAt d.nodes intent.applied index ms
      → IsDistinct (ids_of ms)
      → AllPlain ms
      → AllPlain intent.mutations
      → Ends index ms intent d (apply_mutations action_id index ms intent run d)
  unfolding apply_mutations contains
  apply_mutations-Whole index [] intent run d durable at distinct plain all_plain = record {
    marked = intent;
    counted = refl;
    durable = durable;
    at = tt;
    others = λ id h. refl;
    same = (refl, refl, refl);
    spent = omega arith;
    result = inr (run, refl, tt);
  }
  apply_mutations-Whole index (m ∷ ms) intent run d durable at distinct plain all_plain =
      let (r, c) = apply_one action_id index m intent run d in
      let one =
        apply_one-One action_id index m intent run named d durable at.0.0 plain.0 all_plain
          at.0.1 in
      let counted = IsMarked-IsCounted index intent one.marked one.moved in
      let kept : one.marked.mutations ≡ intent.mutations = ap (λ i. i.mutations) counted in
      elim one.result [
        | inl (halts, few) ↦
            subst (Ends index (m ∷ ms) intent d)
              (sym (>>=-err (apply_one action_id index m intent run) _ d (ap (λ x. (x, c)) halts)))
              (stopped-Whole index m ms intent d c at distinct
                (subst (λ x. One action_id index m intent d x c) halts one) few)
        | inr (next, goes, found, behind) ↦
            subst (Ends index (m ∷ ms) intent d)
              (sym (>>=-ok (apply_one action_id index m intent run) _ d (ap (λ x. (x, c)) goes)))
              (passed-Whole index m ms intent one.marked _ d c _ distinct at.0.0 counted found
                one.others one.same one.spent
                (apply_mutations-Whole (suc index) ms one.marked next c one.durable
                  (AllAt-after d.nodes c.nodes intent.applied one.marked.applied (suc index) ms
                    (other-SameFor m.after.id ms d.nodes c.nodes distinct.0 one.others)
                    (IsMarked-applied index intent one.marked one.moved) at.1)
                  distinct.1 plain.1 (subst AllPlain (sym kept) all_plain)))
      ]
