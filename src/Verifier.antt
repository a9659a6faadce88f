-- ===== src/Verifier.antt =====
-- runner/internal/controlplane/job.go: the check of a leased job, and the nonces of the jobs that
-- it has accepted.
pub mod Model
pub mod Check
pub mod Replay
pub mod Renewal
pub mod Examples
