-- ===== src/Product.antt =====
-- S9_IPC_Shared_Memory: a producer reads a product from its input into shared memory, and a consumer
-- prints it.
pub mod Shared
pub mod Transfer
mod Tests
