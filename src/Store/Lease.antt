-- ===== src/Store/Lease.antt =====
-- wf-engine/internal/store/lease.go: the control lease of a run, one file that names its owner. Times
-- are numbers, and 0 is the zero time. What the operating system answers is an argument: `Io` for
-- the calls that may fail, and `process_alive` for the probe of a process.
pub mod Exclusion
use fishyume.Base.{
  ℕ, ◌+◌, String, Bool, true, false, not, ◌&&◌, ◌||◌, Option, none, some, Outcome, ok, err, str_eq,
  ltb, ◌==◌, if◌then◌else◌,
}
use fishyume.Base.Text.{is_empty}
use fishyume.Store.Ids.{valid_id}

pub record LeaseRecord : Type 0 where
  pub owner_id : String
  pub pid : ℕ
  pub command : String
  pub created_at : ℕ
  pub heartbeat : ℕ
  pub expires_at : ℕ

pub data LeaseError : Type 0 where
  invalid_run_id command_required no_owner_id io_failure missing unreadable : LeaseError
  conflict : (current : LeaseRecord) → LeaseError
  not_owner : LeaseError

-- What `readLease` finds in `control.lock`, before it looks at the record.
pub data Slot : Type 0 where
  vacant garbled : Slot
  stored : LeaseRecord → Slot

pub record Io : Type 0 where
  pub directory_fails : Bool
  pub guard_fails : Bool
  pub remove_fails : Bool
  pub fault_injected : Bool
  pub write_fails : Bool

unfoldable pub read_lease : Slot → Outcome LeaseError LeaseRecord
read_lease vacant = err missing
read_lease garbled = err unreadable
read_lease (stored r) = if is_empty r.owner_id || r.expires_at == 0 then err unreadable else ok r

abbrev pub new_record : (owner_id : String) (pid : ℕ) (command : String) (now ttl : ℕ) → LeaseRecord
new_record owner_id pid command now ttl = record {
  owner_id = owner_id;
  pid = pid;
  command = command;
  created_at = now;
  heartbeat = now;
  expires_at = now + ttl;
}

abbrev pub Acquired : Type 0
Acquired = Outcome LeaseError LeaseRecord × Slot

-- The exclusive creation; a failed one removes what it has written.
unfoldable pub create_lease : Io → LeaseRecord → Acquired
create_lease io r =
    if io.fault_injected
    then (err io_failure, vacant)
    else if io.write_fails
    then (err io_failure, vacant)
    else (ok r, stored r)

unfoldable pub replace_lease : Io → LeaseRecord → Slot → Acquired
unfolding create_lease
replace_lease io r slot = if io.remove_fails then (err io_failure, slot) else create_lease io r

-- Whether the probe confirms that the process is dead.
abbrev pub confirmed_dead : Option Bool → Bool
confirmed_dead (some false) = true
confirmed_dead _ = false

module _ (process_alive : ℕ → Option Bool) where
  -- The guarded section of `acquire`.
  unfoldable pub acquire_guarded :
      Io
      → (recovery : Bool) → (now : ℕ) → LeaseRecord
      → Outcome LeaseError LeaseRecord
      → Slot
      → Acquired
  unfolding create_lease replace_lease
  acquire_guarded io recovery now r (err missing) slot = create_lease io r
  acquire_guarded io recovery now r (err e) slot = (err e, slot)
  acquire_guarded io recovery now r (ok current) slot =
      if ltb now current.expires_at && not (recovery && confirmed_dead (process_alive current.pid))
      then (err (conflict current), slot)
      else replace_lease io r slot

  -- `acquire` behind the check of the run ID; `owner` is what `owner()` gives.
  unfoldable pub acquire_for :
      Io
      → (owner : Option String) → (pid now ttl : ℕ) → (command : String) → (recovery : Bool) → Slot
      → Acquired
  unfolding acquire_guarded read_lease
  acquire_for io none pid now ttl command recovery slot =
      if is_empty command then (err command_required, slot) else (err no_owner_id, slot)
  acquire_for io (some owner_id) pid now ttl command recovery slot =
      if is_empty command
      then (err command_required, slot)
      else if io.directory_fails || io.guard_fails
      then (err io_failure, slot)
      else acquire_guarded io recovery now (new_record owner_id pid command now ttl)
          (read_lease slot) slot

  unfoldable pub acquire :
      Io
      → (run_id : String) → (owner : Option String) → (pid now ttl : ℕ) → (command : String)
      → (recovery : Bool) → Slot
      → Acquired
  unfolding acquire_for valid_id
  acquire io run_id owner pid now ttl command recovery slot =
      if not (valid_id run_id)
      then (err invalid_run_id, slot)
      else acquire_for io owner pid now ttl command recovery slot

abbrev pub holds :
    LeaseRecord → (now : ℕ) → Outcome LeaseError LeaseRecord → Outcome LeaseError Bool
holds lease now (err missing) = ok false
holds lease now (err e) = err e
holds lease now (ok current) =
    ok (str_eq current.owner_id lease.owner_id && ltb now current.expires_at)

unfoldable pub owns : LeaseRecord → (now : ℕ) → Slot → Outcome LeaseError Bool
unfolding read_lease
owns lease now slot = holds lease now (read_lease slot)

abbrev pub names : LeaseRecord → Outcome LeaseError LeaseRecord → Outcome LeaseError Bool
names lease (err missing) = ok false
names lease (err e) = err e
names lease (ok current) = ok (str_eq current.owner_id lease.owner_id)

unfoldable pub bound : LeaseRecord → Slot → Outcome LeaseError Bool
unfolding read_lease
bound lease slot = names lease (read_lease slot)

abbrev pub refreshed : LeaseRecord → (now ttl : ℕ) → LeaseRecord
refreshed lease now ttl = record lease { heartbeat = now; expires_at = now + ttl }

-- The guarded section of `Heartbeat`: it writes the handle's record with new times.
unfoldable pub heartbeat_guarded :
    Io → LeaseRecord → (now ttl : ℕ) → Outcome LeaseError LeaseRecord → Slot → Acquired
heartbeat_guarded io lease now ttl (err e) slot = (err e, slot)
heartbeat_guarded io lease now ttl (ok current) slot =
    if not (str_eq current.owner_id lease.owner_id)
    then (err not_owner, slot)
    else if io.write_fails
    then (err io_failure, slot)
    else (ok (refreshed lease now ttl), stored (refreshed lease now ttl))

-- `Heartbeat`: `first` is the file at the unguarded read, `slot` the file behind the guard.
unfoldable pub heartbeat :
    Io → LeaseRecord → (now ttl : ℕ) → (first : Outcome LeaseError LeaseRecord) → Slot → Acquired
unfolding heartbeat_guarded read_lease
heartbeat io lease now ttl (err e) slot =
    if io.fault_injected then (err io_failure, slot) else (err e, slot)
heartbeat io lease now ttl (ok current) slot =
    if io.fault_injected
    then (err io_failure, slot)
    else if not (str_eq current.owner_id lease.owner_id)
    then (err not_owner, slot)
    else if io.guard_fails
    then (err io_failure, slot)
    else heartbeat_guarded io lease now ttl (read_lease slot) slot

abbrev pub Released : Type 0
Released = Outcome LeaseError (Unit {0}) × Slot

unfoldable pub release_guarded : Io → LeaseRecord → Outcome LeaseError LeaseRecord → Slot → Released
release_guarded io lease (err missing) slot = (ok tt, slot)
release_guarded io lease (err e) slot = (err e, slot)
release_guarded io lease (ok current) slot =
    if not (str_eq current.owner_id lease.owner_id)
    then (err not_owner, slot)
    else if io.remove_fails
    then (err io_failure, slot)
    else (ok tt, vacant)

unfoldable pub release : Io → LeaseRecord → Slot → Released
unfolding release_guarded read_lease
release io lease slot =
    if io.guard_fails
    then (err io_failure, slot)
    else release_guarded io lease (read_lease slot) slot
