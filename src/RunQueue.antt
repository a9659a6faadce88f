-- ===== src/RunQueue.antt =====
-- The job queue of the control plane, control-plane/internal/runqueue.
pub mod Model
pub mod Lifecycle
pub mod Transitions
pub mod Progress
pub mod Invariant
pub mod Update
pub mod Platform
pub mod Patterns
pub mod Queue
pub mod Methods
pub mod Prune
pub mod Retention
pub mod QueueInvariant
pub mod TakeJob
pub mod Preservation
pub mod Changes
pub mod EnqueueInvariant
pub mod Runs
pub mod Verdicts
pub mod Leases
pub mod Safety
pub mod Signing
pub mod Stubs
mod Cases
mod Examples
pub mod Idempotency
pub mod History
pub mod Paging
pub mod Pages
