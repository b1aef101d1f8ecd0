-- ===== src/Run.antt =====
-- wf-engine/internal/run: the state of a run, what it schedules next, and how it ends.
pub mod State
pub mod Facts
pub mod Schedule
pub mod Aggregate
pub mod Action
pub mod Equality
pub mod Event
pub mod Receipts
pub mod Disk
pub mod Intent
pub mod Reset
pub mod Plan
pub mod Apply
