-- ===== src/Chat.antt =====
-- S6_IPC_Socket/ex2_p2pchat: the peer-to-peer chat, its list of connections and its commands.
pub mod State
pub mod Connection
pub mod Registry
pub mod Nodes
pub mod Removal
pub mod Threads
pub mod Reap
pub mod Receive
pub mod Exchange
pub mod Main
pub mod Startup
pub mod Lines
pub mod Lists
pub mod Arrivals
pub mod Acts
pub mod Listener
pub mod Reaping
pub mod Walk
pub mod Quiet
pub mod Command
pub mod Send
pub mod Terminate
pub mod Exit
pub mod Joins
pub mod Goes
pub mod Rounds
pub mod Loop
pub mod Program
pub mod Connect
pub mod Ids
mod Tests
mod ProgramTests
