-- ===== src/Buffer.antt =====
-- S4_Thread/nConsumer.c: producers and consumers share a ring buffer under a mutex, and wait on
-- two condition variables.
pub mod Ring
pub mod Workers
pub mod Tally
pub mod Invariant
pub mod Turns
pub mod Outcome
mod Tests
