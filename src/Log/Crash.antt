-- ===== src/Log/Crash.antt =====
-- A process that is killed at any store of a commit, and the recovery of the next one.
pub mod Cut
pub mod Atomic
pub use Cut.*
