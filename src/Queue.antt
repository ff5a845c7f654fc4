-- ===== src/Queue.antt =====
-- inc/queue.h: the doubly linked lists.
pub mod Links
pub mod Chain
pub mod Insert
pub mod Remove
mod Tests
