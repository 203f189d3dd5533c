-- ===== src/Sync.antt =====
-- pkg/ds/sync: the containers under a lock, with which the lock-free ones are compared. A method
-- holds the lock from its first access to its last, so it is one step, and a function here.
pub mod Queue
pub mod HashMap
pub mod PriorityQueue
mod Tests
