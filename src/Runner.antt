-- ===== src/Runner.antt =====
-- The small parts of the runner: runner/internal/fieldvalidator, splunk/poller.go, policy/limits.go
-- and scenario/catalog.go.
pub mod Fields
pub mod Polling
pub mod Limits
pub mod Catalog
pub mod Sorting
pub mod Evidence
pub mod Attempts
mod Examples
