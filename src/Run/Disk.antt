-- ===== src/Run/Disk.antt =====
-- wf-engine/internal/store/json_store.go: the records of one run as the actions of a user read and
-- write them, with a monad for the calls that may fail. A write may find that the process has
-- stopped: `writes_left` is how many more of them succeed.
-- `indented` stands for what `MarshalIndent` makes of a raw JSON text that is a member at some depth of
-- its file, which is also what reading the file gives back.
use fishyume.Base.{
  ℕ, zero, suc, String, Bool, true, false, List, [], ◌∷◌, ◌++◌, Option, none, some, Outcome, ok,
  err, ◌≡◌, refl, sym, ap, if◌then◌else◌,
}
use fishyume.Base.Int.{ℤ}
use fishyume.Base.Text.{is_empty}
use fishyume.Base.Assoc.{lookup, put, remove}
use fishyume.Workflow.Model.{Normalized}
use fishyume.Run.State.{NodeSnapshot, WorkflowSnapshot, SnapshotError}
use fishyume.Run.Action.{ResumeAction, RequestError, AnswerError}
use fishyume.Run.Event.{WorkflowEvent, EventError}

pub record NodeMutation : Type 0 where
  pub before : NodeSnapshot
  pub after : NodeSnapshot

-- `applied` counts up from 0.
pub record ActionIntent : Type 0 where
  pub version : ℤ
  pub action_id : String
  pub request_hash : String
  pub type : String
  pub node_id : String
  pub phase : String
  pub applied : ℕ
  pub event_type : String
  pub summary : String
  pub action : ResumeAction
  pub mutations : List NodeMutation

pub data ActionError : Type 0 where
  stopped not_found missing_action_id missing_node_id unknown_type no_target : ActionError
  pending_intent : (action_id : String) → ActionError
  conflicting_decision not_waiting_approval not_retryable unacknowledged_risk : ActionError
  not_waiting_input attempt_conflict no_evidence unrelated_mutation : ActionError
  different_request version_conflict : ActionError
  refused_request : RequestError → ActionError
  refused_answer : AnswerError → ActionError
  refused_route : (message : String) → ActionError
  refused_snapshot : SnapshotError → ActionError
  refused_events : EventError → ActionError

pub record Disk : Type 0 where
  pub snapshot : WorkflowSnapshot
  pub workflow : Normalized
  pub nodes : List (String × NodeSnapshot)
  pub intents : List (String × ActionIntent)
  pub events : List WorkflowEvent
  pub writes_left : ℕ
  pub indented : (depth : ℕ) → String → String

abbrev indented_answer : (String → String) → Option String → Option String
indented_answer layout none = none
indented_answer layout (some text) = some (layout text)

-- A node as a file gives it back whose members at `depth` are those of the node.
unfoldable pub stored_node :
    (indented : ℕ → String → String) → (depth : ℕ) → NodeSnapshot → NodeSnapshot
stored_node indented depth node = record node {
  pending_input_answer = indented_answer (indented depth) node.pending_input_answer;
}

-- The nodes of an intent stand in a list of mutations, three levels below those of their own files.
unfoldable pub stored_mutation : (indented : ℕ → String → String) → NodeMutation → NodeMutation
unfolding stored_node
stored_mutation indented m = record {
  before = stored_node indented 4 m.before;
  after = stored_node indented 4 m.after;
}

unfoldable pub stored_mutations :
    (indented : ℕ → String → String) → List NodeMutation → List NodeMutation
unfolding stored_mutation
stored_mutations indented [] = []
stored_mutations indented (m ∷ ms) = stored_mutation indented m ∷ stored_mutations indented ms

abbrev pub stored_intent : (indented : ℕ → String → String) → ActionIntent → ActionIntent
stored_intent indented intent = record intent {
  mutations = stored_mutations indented intent.mutations;
}

-- What a call returns and leaves on the disk, after an error too.
abbrev pub Act : Type 0 → Type 0
Act A = Disk → Outcome ActionError A × Disk

abbrev pub pure : {A : Type 0} → A → Act A
pure a d = (ok a, d)

abbrev pub fail : {A : Type 0} → ActionError → Act A
fail e d = (err e, d)

abbrev pub then_next :
    {A B : Type 0} → (A → Act B) → Outcome ActionError A × Disk → Outcome ActionError B × Disk
then_next next (ok a, d) = next a d
then_next next (err e, d) = (err e, d)

infixl 5 ◌>>=◌ ◌>>◌
abbrev pub ◌>>=◌ : {A B : Type 0} → Act A → (A → Act B) → Act B
◌>>=◌ m next d = then_next next (m d)

abbrev pub ◌>>◌ : {A B : Type 0} → Act A → Act B → Act B
m >> next = m >>= λ _. next

abbrev pub fail_if : Bool → ActionError → Act (Unit {0})
fail_if b e d = (if b then err e else ok tt, d)

-- The value of a pure computation, or its error.
abbrev pub lift : {E A : Type 0} → (E → ActionError) → Outcome E A → Act A
lift f (ok a) d = (ok a, d)
lift f (err e) d = (err (f e), d)

abbrev pub or_not_found : {A : Type 0} → Option A → Act A
or_not_found none = fail not_found
or_not_found (some a) = pure a

-- The durable change, if the process still runs.
abbrev pub write_with : (writes_left : ℕ) → (Disk → Disk) → Act (Unit {0})
write_with zero change d = (err stopped, d)
write_with (suc left) change d = (ok tt, change (record d { writes_left = left }))

abbrev pub write : (Disk → Disk) → Act (Unit {0})
write change d = write_with d.writes_left change d

unfoldable pub read_node : (id : String) → Act NodeSnapshot
read_node id d = or_not_found (lookup id d.nodes) d

unfoldable pub write_node : (id : String) → NodeSnapshot → Act (Unit {0})
unfolding stored_node
write_node id node =
    write (λ d. record d { nodes = put id (stored_node d.indented 1 node) d.nodes })

unfoldable pub read_action_intent : (action_id : String) → Act ActionIntent
read_action_intent action_id d =
    if is_empty action_id
    then (err missing_action_id, d)
    else or_not_found (lookup action_id d.intents) d

unfoldable pub write_action_intent : (action_id : String) → ActionIntent → Act (Unit {0})
unfolding stored_mutations
write_action_intent action_id intent d =
    if is_empty action_id
    then (err missing_action_id, d)
    else write
        (λ d. record d { intents = put action_id (stored_intent d.indented intent) d.intents }) d

unfoldable pub remove_action_intent : (action_id : String) → Act (Unit {0})
remove_action_intent action_id d =
    if is_empty action_id
    then (err missing_action_id, d)
    else write (λ d. record d { intents = remove action_id d.intents }) d

unfoldable pub write_snapshot : WorkflowSnapshot → Act (Unit {0})
write_snapshot run = write (λ d. record d { snapshot = run })

unfoldable pub append_event : WorkflowEvent → Act (Unit {0})
append_event event = write (λ d. record d { events = d.events ++ event ∷ [] })

-- How a chain goes on, or ends.
pub >>=-ok :
    {A B : Type 0} (m : Act A) (next : A → Act B) (d : Disk) {a : A} {e : Disk}
    → m d ≡ (ok a, e)
    → (m >>= next) d ≡ next a e
>>=-ok m next d h = ap (then_next next) h

pub >>=-err :
    {A B : Type 0} (m : Act A) (next : A → Act B) (d : Disk) {x : ActionError} {e : Disk}
    → m d ≡ (err x, e)
    → (m >>= next) d ≡ (err x, e)
>>=-err m next d h = ap (then_next next) h

pub read_node-found :
    (id : String) (d : Disk) {node : NodeSnapshot}
    → lookup id d.nodes ≡ some node
    → read_node id d ≡ (ok node, d)
unfolding read_node
read_node-found id d h = rw h refl

pub write-stops :
    (change : Disk → Disk) (d : Disk) → d.writes_left ≡ 0 → write change d ≡ (err stopped, d)
write-stops change d h = rw h refl

pub write-done :
    (change : Disk → Disk) (d : Disk) {left : ℕ}
    → d.writes_left ≡ suc left
    → write change d ≡ (ok tt, change (record d { writes_left = left }))
write-done change d h = rw h refl

pub write_action_intent-write :
    (action_id : String) (intent : ActionIntent) (d : Disk)
    → stored_mutations d.indented intent.mutations ≡ intent.mutations
    → is_empty action_id ≡ false
    → write_action_intent action_id intent d
      ≡ write (λ e. record e { intents = put action_id intent e.intents }) d
unfolding write_action_intent
write_action_intent-write action_id intent d kept h =
    let change : List NodeMutation → Disk → Disk =
      λ ms e. record e { intents = put action_id (record intent { mutations = ms }) e.intents } in
    rw h (written d.writes_left change kept)
  where
    written :
        (n : ℕ) (change : List NodeMutation → Disk → Disk)
        → stored_mutations d.indented intent.mutations ≡ intent.mutations
        → write_with n (λ e. change (stored_mutations e.indented intent.mutations) e) d
          ≡ write_with n (change intent.mutations) d
    written zero change kept = refl
    written (suc left) change kept =
        ap (λ ms. (ok tt, change ms (record d { writes_left = left }))) kept

pub remove_action_intent-write :
    (action_id : String) (d : Disk)
    → is_empty action_id ≡ false
    → remove_action_intent action_id d
      ≡ write (λ e. record e { intents = remove action_id e.intents }) d
unfolding remove_action_intent
remove_action_intent-write action_id d h = rw h refl

-- What holds of the disk after a chain, when it does after its first call, and after the rest if that
-- succeeds.
pub >>=-always {ℓ} :
    {A B : Type 0} (P : Disk → Type ℓ) (m : Act A) (next : A → Act B) (d : Disk)
    → P (m d).1
    → ((a : A) → m d ≡ (ok a, (m d).1) → P (next a (m d).1).1)
    → P ((m >>= next) d).1
>>=-always {A = A} {B = B} P m next d first rest = go (m d) first rest
  where
    go :
        (p : Outcome ActionError A × Disk)
        → P p.1
        → ((a : A) → p ≡ (ok a, p.1) → P (next a p.1).1)
        → P (then_next next p).1
    go (ok a, e) first rest = rest a refl
    go (err x, e) first rest = first

pub lift-disk :
    {E A : Type 0} (f : E → ActionError) (m : Outcome E A) (d : Disk) → (lift f m d).1 ≡ d
lift-disk f (ok a) d = refl
lift-disk f (err e) d = refl

-- What holds before a write and after it holds whether the process stops or not.
pub write-always {ℓ} :
    (P : Disk → Type ℓ) (change : Disk → Disk) (d : Disk)
    → P d
    → ((left : ℕ) → P (change (record d { writes_left = left })))
    → P (write change d).1
write-always P change d before after = elim d.writes_left as (λ n. P (write_with n change d).1) [
  | zero ↦ before
  | suc left ↦ after left
]

-- A chain that succeeds, taken apart.
pub >>=-eq-ok :
    {A B : Type 0} (m : Act A) (next : A → Act B) (d : Disk) {b : B} {e : Disk}
    → (m >>= next) d ≡ (ok b, e)
    → (a : A) × (c : Disk) × (m d ≡ (ok a, c)) × (next a c ≡ (ok b, e))
>>=-eq-ok {A = A} {B = B} m next d {b} {e} h = go (m d) refl h
  where
    go :
        (p : Outcome ActionError A × Disk)
        → m d ≡ p
        → then_next next p ≡ (ok b, e)
        → (a : A) × (c : Disk) × (m d ≡ (ok a, c)) × (next a c ≡ (ok b, e))
    go (ok a, c) k h = (a, c, k, h)
    go (err x, c) k h = absurd (cc)

pub write-eq-ok :
    (change : Disk → Disk) (d : Disk) {u : Unit {0}} {e : Disk}
    → write change d ≡ (ok u, e)
    → (left : ℕ) × (e ≡ change (record d { writes_left = left }))
write-eq-ok change d {u} {e} h = go d.writes_left h
  where
    go :
        (n : ℕ)
        → write_with n change d ≡ (ok u, e)
        → (left : ℕ) × (e ≡ change (record d { writes_left = left }))
    go zero h = absurd (cc)
    go (suc left) h = (left, sym (ap (λ p. p.1) h))

pub lift-eq-ok :
    {E A : Type 0} (f : E → ActionError) (m : Outcome E A) (d : Disk) {a : A} {e : Disk}
    → lift f m d ≡ (ok a, e)
    → (m ≡ ok a) × (e ≡ d)
lift-eq-ok f (ok b) d h = (cc, sym (ap (λ p. p.1) h))
lift-eq-ok f (err x) d h = absurd (cc)

then-pure :
    {A B C : Type 0} (a : A) (next : A → Act B) (p : Outcome ActionError C × Disk)
    → then_next next (then_next (λ c. pure a) p) ≡ then_next (λ c. next a) p
then-pure a next (ok c, d) = refl
then-pure a next (err e, d) = refl

-- A call whose value is already known, in a chain.
pub >>=-pure :
    {A B C : Type 0} (m : Act C) (a : A) (next : A → Act B) (d : Disk)
    → ((m >>= λ c. pure a) >>= next) d ≡ (m >>= λ c. next a) d
>>=-pure m a next d = then-pure a next (m d)

pub read_node-eq-ok :
    (id : String) (d : Disk) {node : NodeSnapshot} {e : Disk}
    → read_node id d ≡ (ok node, e)
    → (lookup id d.nodes ≡ some node) × (e ≡ d)
unfolding read_node
read_node-eq-ok id d {node} {e} h = go (lookup id d.nodes) refl h
  where
    go :
        (o : Option NodeSnapshot)
        → lookup id d.nodes ≡ o
        → or_not_found o d ≡ (ok node, e)
        → (lookup id d.nodes ≡ some node) × (e ≡ d)
    go none k h = absurd (cc)
    go (some n) k h = (cc, sym (ap (λ p. p.1) h))

-- A guard that lets the chain through.
pub fail_if-eq-ok :
    {A : Type 0} (b : Bool) (x : ActionError) (next : Act A) (d : Disk) {a : A} {e : Disk}
    → (fail_if b x >> next) d ≡ (ok a, e)
    → next d ≡ (ok a, e)
fail_if-eq-ok true x next d h = absurd (cc)
fail_if-eq-ok false x next d h = h
