-- ===== src/Restaurant.antt =====
-- S10_IPC_Semafore: chefs and customers share two trays of food in shared memory.
pub mod Shared
pub mod Dishes
pub mod System
pub mod Scan
pub mod Invariant
pub mod Safety
pub mod Progress
pub mod OneShot
pub mod Main
pub mod Cleanup
pub mod Ending
mod Tests
