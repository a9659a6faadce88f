-- ===== src/LocalAuth.antt =====
-- control-plane/internal/localauth/service.go: the sessions of the local administrator.
pub mod Sessions
pub mod Runs
pub mod Tokens
mod Examples
