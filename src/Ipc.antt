-- ===== src/Ipc.antt =====
-- The kernel's message passing, port/src/ipc.rs: messages, the bounded queue of a channel, and the
-- operations on a channel.
pub mod Message
pub mod BoundedQueue
pub mod Channel
mod Witnesses
