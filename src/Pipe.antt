-- ===== src/Pipe.antt =====
-- S7_Pipe_FIFO/ex1_pipe.c: `ls -l | wc -l`.
pub mod Table
pub mod Shell
pub mod Ends
mod Tests
