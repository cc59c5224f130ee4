-- ===== src/Signals.antt =====
-- S5_IPC_Signal: programs that wait for signals.
pub mod Counter
pub mod Counting
pub mod Select
pub mod Answers
pub mod Pair
pub mod Work
pub mod ChildSteps
pub mod Ends
mod Tests
