-- ===== src/Pipeline.antt =====
-- runner/internal/pipeline/machine.go: the stages of one test as the runner follows them.
pub mod Model
pub mod Machine
pub mod Order
pub mod Runs
pub mod Verdicts
mod Examples
