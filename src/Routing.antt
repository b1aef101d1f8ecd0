-- ===== src/Routing.antt =====
-- The routing package: wf-engine/internal/routing.
pub mod Contract
pub mod Validation
pub mod Resolver
pub mod Resolve
