-- ===== src/Store/Lease/Exclusion.antt =====
-- Who controls a run: a lease excludes the others until it ends.
use fishyume.Base.{
  ℕ, ◌+◌, ◌≡◌, refl, ap, String, Bool, true, false, ◌&&◌, ◌||◌, Option, some, none, Outcome, ok,
  err, str_eq, ltb, arith, ◌==◌, sym, ◌∙◌, ◌<◌,
}
use fishyume.Base.Text.{is_empty}
use text.Mathlib.TextPositions.{eq_refl}
use fishyume.Store.Lease.{
  LeaseRecord, LeaseError, missing, invalid_run_id, command_required, no_owner_id, io_failure,
  conflict, not_owner, unreadable, Slot, stored, Io, read_lease, confirmed_dead, acquire,
  acquire_for, acquire_guarded, create_lease, replace_lease, owns, bound, heartbeat,
  heartbeat_guarded, release, release_guarded, new_record,
}

-- One operation of another process or handle than the holder's, at a time before the holder's lease
-- expires: an acquisition that does not see the holder's process dead, or a heartbeat or a release
-- under another owner ID.
pub data OtherStep (process_alive : ℕ → Option Bool) (held : LeaseRecord)
    : (before after : Slot) → Type 0 where
  acquiring :
      (io : Io) (run_id : String) (owner : Option String) (pid now ttl : ℕ) (command : String)
      (recovery : Bool) (slot : Slot)
      → ltb now held.expires_at ≡ true
      → (recovery && confirmed_dead (process_alive held.pid)) ≡ false
      → OtherStep process_alive held slot
          (acquire process_alive io run_id owner pid now ttl command recovery slot).1
  beating :
      (io : Io) (lease : LeaseRecord) (now ttl : ℕ) (first : Outcome LeaseError LeaseRecord)
      (slot : Slot)
      → str_eq held.owner_id lease.owner_id ≡ false
      → OtherStep process_alive held slot (heartbeat io lease now ttl first slot).1
  releasing :
      (io : Io) (lease : LeaseRecord) (slot : Slot)
      → str_eq held.owner_id lease.owner_id ≡ false
      → OtherStep process_alive held slot (release io lease slot).1

pub data OtherSteps (process_alive : ℕ → Option Bool) (held : LeaseRecord)
    : (before after : Slot) → Type 0 where
  none_left : {slot : Slot} → OtherSteps process_alive held slot slot
  followed :
      {before between after : Slot}
      → OtherStep process_alive held before between
      → OtherSteps process_alive held between after
      → OtherSteps process_alive held before after

abbrev pub IsComplete : LeaseRecord → Type 0
IsComplete r = (is_empty r.owner_id || r.expires_at == 0) ≡ false

module _ (process_alive : ℕ → Option Bool) (held : LeaseRecord) (complete : IsComplete held) where
  read-held : read_lease (stored held) ≡ ok held
  unfolding read_lease
  read-held = ground arith

  acquire_for-refused :
      (io : Io) (owner : Option String) (pid now ttl : ℕ) (command : String) (recovery : Bool)
      → ltb now held.expires_at ≡ true
      → (recovery && confirmed_dead (process_alive held.pid)) ≡ false
      → (acquire_for process_alive io owner pid now ttl command recovery (stored held)).1
        ≡ stored held
  unfolding acquire_for acquire_guarded
  acquire_for-refused io none pid now ttl command recovery t d = ground arith
  acquire_for-refused io (some owner) pid now ttl command recovery t d = ground (arith, read-held)

  acquire-refused :
      (io : Io) (run_id : String) (owner : Option String) (pid now ttl : ℕ) (command : String)
      (recovery : Bool)
      → ltb now held.expires_at ≡ true
      → (recovery && confirmed_dead (process_alive held.pid)) ≡ false
      → (acquire process_alive io run_id owner pid now ttl command recovery (stored held)).1
        ≡ stored held
  unfolding acquire
  acquire-refused io run_id owner pid now ttl command recovery t d =
      ground (arith, acquire_for-refused io owner pid now ttl command recovery)

  heartbeat-refused :
      (io : Io) (lease : LeaseRecord) (now ttl : ℕ) (first : Outcome LeaseError LeaseRecord)
      → str_eq held.owner_id lease.owner_id ≡ false
      → (heartbeat io lease now ttl first (stored held)).1 ≡ stored held
  unfolding heartbeat heartbeat_guarded
  heartbeat-refused io lease now ttl (err e) o = ground arith
  heartbeat-refused io lease now ttl (ok current) o = ground (arith, read-held)

  release-refused :
      (io : Io) (lease : LeaseRecord)
      → str_eq held.owner_id lease.owner_id ≡ false
      → (release io lease (stored held)).1 ≡ stored held
  unfolding release release_guarded
  release-refused io lease o = ground (arith, read-held)

  OtherStep-keeps :
      (before after : Slot)
      → OtherStep process_alive held before after
      → before ≡ stored held
      → after ≡ stored held
  OtherStep-keeps before after (acquiring io run_id owner pid now ttl command recovery slot t d) h =
      ap (λ s. (acquire process_alive io run_id owner pid now ttl command recovery s).1) h
      ∙ acquire-refused io run_id owner pid now ttl command recovery t d
  OtherStep-keeps before after (beating io lease now ttl first slot o) h =
      ap (λ s. (heartbeat io lease now ttl first s).1) h
      ∙ heartbeat-refused io lease now ttl first o
  OtherStep-keeps before after (releasing io lease slot o) h =
      ap (λ s. (release io lease s).1) h ∙ release-refused io lease o

  OtherSteps-keep :
      (before after : Slot)
      → OtherSteps process_alive held before after
      → before ≡ stored held
      → after ≡ stored held
  OtherSteps-keep before after none_left h = h
  OtherSteps-keep before after (followed {between = between} first rest) h =
      OtherSteps-keep between after rest (OtherStep-keeps before between first h)

-- While a complete lease has not expired, no sequence of operations of others replaces, extends or
-- removes it, whatever fails in them: acquisitions that do not see its process dead in a recovery,
-- and heartbeats and releases under other owner IDs.
pub lease-exclusive :
    (process_alive : ℕ → Option Bool) (held : LeaseRecord) (after : Slot)
    → IsComplete held
    → OtherSteps process_alive held (stored held) after
    → after ≡ stored held
lease-exclusive process_alive held after complete steps =
    OtherSteps-keep process_alive held complete (stored held) after steps refl

create_lease-eq-ok :
    (io : Io) (r lease : LeaseRecord)
    → (create_lease io r).0 ≡ ok lease
    → (r ≡ lease) × ((create_lease io r).1 ≡ stored lease)
unfolding create_lease
create_lease-eq-ok io r lease h = ground arith

acquire_guarded-eq-ok :
    (process_alive : ℕ → Option Bool) (io : Io) (recovery : Bool) (now : ℕ) (r : LeaseRecord)
    (found : Outcome LeaseError LeaseRecord) (slot : Slot) (lease : LeaseRecord)
    → (acquire_guarded process_alive io recovery now r found slot).0 ≡ ok lease
    → (r ≡ lease) × ((acquire_guarded process_alive io recovery now r found slot).1 ≡ stored lease)
unfolding acquire_guarded replace_lease
acquire_guarded-eq-ok process_alive io recovery now r (ok current) slot lease h =
    ground (arith, create_lease-eq-ok io r lease)
acquire_guarded-eq-ok process_alive io recovery now r (err missing) slot lease h =
    create_lease-eq-ok io r lease h
acquire_guarded-eq-ok process_alive io recovery now r (err unreadable) slot lease h = absurd (cc)
acquire_guarded-eq-ok process_alive io recovery now r (err invalid_run_id) slot lease h =
    absurd (cc)
acquire_guarded-eq-ok process_alive io recovery now r (err command_required) slot lease h =
    absurd (cc)
acquire_guarded-eq-ok process_alive io recovery now r (err no_owner_id) slot lease h = absurd (cc)
acquire_guarded-eq-ok process_alive io recovery now r (err io_failure) slot lease h = absurd (cc)
acquire_guarded-eq-ok process_alive io recovery now r (err (conflict c)) slot lease h = absurd (cc)
acquire_guarded-eq-ok process_alive io recovery now r (err not_owner) slot lease h = absurd (cc)

acquire-eq-ok :
    (process_alive : ℕ → Option Bool) (io : Io) (run_id id : String) (pid now ttl : ℕ)
    (command : String) (recovery : Bool) (slot : Slot) (lease : LeaseRecord)
    → (acquire process_alive io run_id (some id) pid now ttl command recovery slot).0 ≡ ok lease
    → (new_record id pid command now ttl ≡ lease)
      × ((acquire process_alive io run_id (some id) pid now ttl command recovery slot).1
          ≡ stored lease)
unfolding acquire acquire_for
acquire-eq-ok process_alive io run_id id pid now ttl command recovery slot lease h = ground (
  arith,
  acquire_guarded-eq-ok process_alive io recovery now (new_record id pid command now ttl)
      (read_lease slot) slot lease,
)

owns-stored :
    (lease : LeaseRecord) (at : ℕ)
    → IsComplete lease
    → ltb at lease.expires_at ≡ true
    → owns lease at (stored lease) ≡ ok true
unfolding owns read_lease
owns-stored lease at c t = ground (arith, eq_refl lease.owner_id)

bound-stored :
    (lease other : LeaseRecord)
    → IsComplete lease
    → str_eq lease.owner_id other.owner_id ≡ false
    → bound other (stored lease) ≡ ok false
unfolding bound read_lease
bound-stored lease other c o = ground arith

-- Whoever acquires a lease, with an owner ID that is not empty and a positive time to live, holds it
-- until that time has passed, and no handle with another owner ID is bound to the file any more.
pub acquire-takes_over :
    (process_alive : ℕ → Option Bool) (io : Io) (run_id id : String) (pid now ttl : ℕ)
    (command : String) (recovery : Bool) (slot : Slot) (lease : LeaseRecord)
    → (acquire process_alive io run_id (some id) pid now ttl command recovery slot).0 ≡ ok lease
    → is_empty id ≡ false
    → 0 < ttl
    → ((at : ℕ)
        → at < now + ttl
        → owns lease at
            (acquire process_alive io run_id (some id) pid now ttl command recovery slot).1
          ≡ ok true)
      × ((other : LeaseRecord)
          → str_eq id other.owner_id ≡ false
          → bound other
              (acquire process_alive io run_id (some id) pid now ttl command recovery slot).1
            ≡ ok false)
acquire-takes_over process_alive io run_id id pid now ttl command recovery slot lease h e p =
    let (made, kept) =
      acquire-eq-ok process_alive io run_id id pid now ttl command recovery slot lease h in
    let owner : lease.owner_id ≡ id = ap (λ r. r.owner_id) (sym made) in
    let expiry : lease.expires_at ≡ now + ttl = ap (λ r. r.expires_at) (sym made) in
    let complete : IsComplete lease = ground arith in
    (
      λ at t. ap (owns lease at) kept ∙ owns-stored lease at complete (ground arith),
      λ other o. ap (bound other) kept ∙ bound-stored lease other complete (ground arith),
    )
