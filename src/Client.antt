-- ===== src/Client.antt =====
-- runner/internal/controlplane/client.go: the runner's side of the control plane.
pub mod Model
pub mod Calls
pub mod Rules
mod Examples
