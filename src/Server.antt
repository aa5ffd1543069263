-- ===== src/Server.antt =====
-- server.c: the command server, and the buffers of its sockets.
pub mod Requests
pub mod SockBuf
pub mod Idle
pub mod Sockets
pub mod Commands
pub mod Dispatch
