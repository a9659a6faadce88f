-- ===== src/Worker.antt =====
-- runner/internal/worker/worker.go: one job from its lease to its completion.
pub mod Model
pub mod Steps
pub mod Run
pub mod Advance
pub mod Store
pub mod Finish
pub mod Reports
pub mod Outcomes
pub mod QueueStore
pub mod Ends
mod Examples
