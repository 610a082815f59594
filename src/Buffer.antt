-- ===== src/Buffer.antt =====
-- pkg/tools/buffer/buffer.go: the socket data buffer of one connection.
pub mod Events
pub mod Elements
pub mod State
pub mod Append
pub mod Read
pub mod Cycle
pub mod Ranges
