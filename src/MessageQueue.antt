-- ===== src/MessageQueue.antt =====
-- S8_Message_Queue/exercise_message_queue: a dispatcher sends tasks, with priorities, to a worker.
pub mod Tasks
pub mod Order
pub mod Worker
pub mod Steps
pub mod Invariant
pub mod Delivery
mod Tests
