-- ===== src/Store.antt =====
-- wf-engine/internal/store: the records on disk that several processes share.
pub mod Ids
pub mod Lease
pub mod Journal
pub mod CancelRequest
