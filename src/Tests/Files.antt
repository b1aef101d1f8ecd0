-- ===== src/Tests/Files.antt =====
-- A lease that two processes want, and a journal.
use fishyume.Base.{
  ℕ, ◌<◌, ◌≡◌, refl, String, Bool, true, false, not, Bool-cases, inl, inr, Option, some, ok, err,
  str_eq, if◌then◌else◌, arith,
}
use fishyume.Base.Text.{is_empty}
use fishyume.Store.Lease.{
  LeaseRecord, vacant, stored, release, Io, acquire, owns, bound, new_record,
}
use fishyume.Store.Lease.Exclusion.{
  OtherSteps, acquiring, releasing, followed, none_left, lease-exclusive, acquire-takes_over,
}
use fishyume.Store.Journal.{
  Json, Slot, JournalRecord, mutated, conflict, garbled, begin_application_journal,
  mark_application_journal_mutated, commit_application_journal, validate_journal_identity,
  validate_journal_record, new_journal,
}
use fishyume.Store.Journal.Monotone.{
  IsStable, IsLaterIn, JournalSteps, continued, finished, mark, journal-monotone,
}
use fishyume.Store.Journal.Lifecycle.{
  IsEncoding, completed_journal, journal-lifecycle, journal-begin_again,
}

abbrev sound_io : Io
sound_io = record {
  directory_fails = false;
  guard_fails = false;
  remove_fails = false;
  fault_injected = false;
  write_fails = false;
}

abbrev held_lease : LeaseRecord
held_lease = new_record "owner-a" 17 "run" 100 15

-- Every process is alive.
abbrev always_alive : ℕ → Option Bool
always_alive pid = some true

-- Another process tries a recovery at 110, and then a release under its own ID.
others_try : OtherSteps always_alive held_lease (stored held_lease) (stored held_lease)
unfolding acquire release
others_try =
    followed
      (acquiring sound_io "run-1" (some "owner-b") 18 110 15 "resume" true (stored held_lease) refl
        refl)
      (followed
        (releasing sound_io (new_record "owner-b" 18 "resume" 110 15) (stored held_lease) refl)
        none_left)

lease-exclusive_example : stored held_lease ≡ stored held_lease
lease-exclusive_example =
    lease-exclusive always_alive held_lease (stored held_lease) refl others_try

acquire-takes_over_example :
    ((at : ℕ)
      → at < 115
      → owns held_lease at
          (acquire always_alive sound_io "run-1" (some "owner-a") 17 100 15 "run" false vacant).1
        ≡ ok true)
    × ((other : LeaseRecord)
        → str_eq "owner-a" other.owner_id ≡ false
        → bound other
            (acquire always_alive sound_io "run-1" (some "owner-a") 17 100 15 "run" false vacant).1
          ≡ ok false)
unfolding acquire
acquire-takes_over_example =
    acquire-takes_over always_alive sound_io "run-1" "owner-a" 17 100 15 "run" false vacant
      held_lease refl refl (omega arith)

-- A concrete encoding: every text but the empty one is valid, equal texts are equal values, one text is
-- laid out anew, and every file is short.
abbrev lay_out : String → String
lay_out t = if str_eq t "{\"a\":1}" then "{\n    \"a\": 1\n  }" else t

abbrev some_json : Json
some_json = record {
  valid = λ t. not (is_empty t);
  equal = str_eq;
  indented = lay_out;
  fits = λ r. true;
}

lay_out-IsStable : IsStable some_json
lay_out-IsStable t = elim (Bool-cases (str_eq t "{\"a\":1}")) [
  | inl same ↦ rw same refl
  | inr other ↦ rw (other, other) refl
]

lay_out-IsEncoding : IsEncoding some_json
lay_out-IsEncoding = record {
  stable = lay_out-IsStable;
  kept = λ t h. elim (Bool-cases (str_eq t "{\"a\":1}")) [
    | inl same ↦ rw same refl
    | inr other ↦ rw other h
  ];
  filled = λ t h. elim (Bool-cases (str_eq t "{\"a\":1}")) [
    | inl same ↦ rw same refl
    | inr other ↦ ground (arith, h, other)
  ];
}

abbrev start_journal : JournalRecord
start_journal = new_journal "start" "req-1" "h1" (lay_out "{\"a\":1}") "run-1" 5

abbrev marked_start : JournalRecord
marked_start = record start_journal {
  state = mutated;
  response = lay_out "{\"a\":1}";
  updated_at = 6;
}

mark_start : JournalSteps some_json (Slot.stored start_journal) (Slot.stored marked_start)
unfolding mark_application_journal_mutated validate_journal_record
mark_start =
    continued (mark sound_io "start" "req-1" "h1" "{\"a\":1}" 6 (Slot.stored start_journal))
      finished

journal-monotone_example : IsLaterIn start_journal (Slot.stored marked_start)
journal-monotone_example =
    journal-monotone some_json start_journal (Slot.stored start_journal) (Slot.stored marked_start)
      lay_out-IsStable refl mark_start refl

journal-lifecycle_example :
    (commit_application_journal some_json sound_io "start" "req-1" "h1" 7
      (mark_application_journal_mutated some_json sound_io "start" "req-1" "h1" "{\"a\":1}" 6
        (begin_application_journal some_json sound_io "start" "req-1" "h1" "{\"a\":1}" "run-1" 5
          Slot.vacant).1).1).1
    ≡ Slot.stored (
        completed_journal "start" "req-1" "h1"
          (lay_out "{\"a\":1}")
          "run-1"
          (lay_out "{\"a\":1}")
          5
          7)
unfolding validate_journal_identity
journal-lifecycle_example =
    journal-lifecycle some_json sound_io "start" "req-1" "h1" "{\"a\":1}" "run-1" "{\"a\":1}" 5 6 7
      lay_out-IsEncoding refl refl refl (omega arith) (omega arith) refl refl

journal-begin_again_example :
    begin_application_journal some_json sound_io "start" "req-1" "h2" "{}" "run-1" 9
      (Slot.stored start_journal)
    ≡ (
      if true then (if str_eq "h1" "h2" then ok start_journal else err conflict) else err garbled,
      Slot.stored start_journal,
    )
unfolding validate_journal_identity validate_journal_record
journal-begin_again_example =
    journal-begin_again some_json sound_io "start" "req-1" "h2" "{}" "run-1" 9 start_journal refl
      refl refl refl refl
