-- ===== src/Sockets.antt =====
-- S6_IPC_Socket/ex1_4sockets: a server that answers and its client, over four kinds of socket.
pub mod Handles
pub mod Calls
pub mod Tcp
pub mod Udp
pub mod Stream
pub mod Datagram
mod Tests
