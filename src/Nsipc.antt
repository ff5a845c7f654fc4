-- ===== src/Nsipc.antt =====
-- lib/nsipc.c, lib/sockets.c: the socket calls, which ask the network server by messages.
pub mod Defs
pub mod Sockets
pub mod Words
pub mod Messages
pub mod Members
pub mod Requests
pub mod Replies
mod Tests
