-- ===== src/Processes.antt =====
-- S3_Process: programs that fork one child.
pub mod Family
pub mod Programs
pub mod Invariant
pub mod Outcome
mod Tests
