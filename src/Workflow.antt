-- ===== src/Workflow.antt =====
-- The workflow package: wf-engine/internal/workflow.
pub mod Model
pub mod Graph
pub mod Reference
pub mod Condition
pub mod Agent
pub mod Inputs
pub mod Template
pub mod Validate
pub mod Ancestors
