-- ===== src/LockFree.antt =====
-- pkg/ds/lockfree: the lock-free containers.
pub mod Queue
pub mod HashMap
