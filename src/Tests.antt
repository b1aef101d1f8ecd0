-- ===== src/Tests.antt =====
-- Concrete runs, requests and files, and what the theorems say of them.
mod Documents
mod Runs
mod Aggregates
mod Routes
mod Files
mod Cancels
mod Validates
mod Actions
