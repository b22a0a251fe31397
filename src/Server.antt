-- ===== src/Server.antt =====
-- The server in C++ (src): timers, connections, packets with their parser and encoder, the replies to
-- requests, and the pool of threads. Replies and Encoder use Connection and Packet; the others stand alone.
pub mod Bytes
pub mod Packet
pub mod Parser
pub mod Timer
pub mod Connection
pub mod Pool
pub mod Replies
pub mod Encoder
