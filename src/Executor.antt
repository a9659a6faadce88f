-- ===== src/Executor.antt =====
-- runner/internal/executor, with the identity, the request, the correlation ID and the audit event
-- that an execution checks and records.
pub mod Identity
pub mod Request
pub mod Audit
pub mod Model
pub mod Handlers
pub mod Run
pub mod Refusals
pub mod Cleanup
pub mod Correlation
mod Examples
