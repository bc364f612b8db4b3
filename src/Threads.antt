-- ===== src/Threads.antt =====
-- src/threads.c: the workers of a group, their command queues, and the part of each stream that a
-- worker gets.
pub mod Protocol
pub mod Queue
pub mod Parts
mod Tests
