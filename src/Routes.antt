-- ===== src/Routes.antt =====
-- control-plane/internal/httpapi/runner_routes.go: what the control plane does for a runner.
pub mod Paths
pub mod Model
pub mod Handle
pub mod Access
mod Examples
