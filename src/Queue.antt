-- ===== src/Queue.antt =====
-- The process queues: one table of doubly linked lists (include/queue.h and the functions that
-- work on it).
pub mod Table
pub mod Chain
pub mod Laws
pub mod Frames
pub mod Empty
pub mod Priority
pub mod Wakes
pub mod Delta
mod Tests
