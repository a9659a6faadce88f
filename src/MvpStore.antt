-- ===== src/MvpStore.antt =====
-- control-plane/internal/mvpstore/service.go: the host's plan of tests, and what hands them to the
-- queue when they are due.
pub mod Model
pub mod Store
pub mod Spacing
pub mod Dispatch
pub mod Plans
mod Examples
