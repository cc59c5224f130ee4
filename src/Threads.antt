-- ===== src/Threads.antt =====
-- Smaller programs of S4_Thread, each with threads on one shared number.
pub mod RwLock
pub mod Readers
pub mod Race
pub mod Results
pub mod Returns
pub mod Mailbox
pub mod Handover
mod Tests
