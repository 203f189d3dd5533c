-- ===== src/Mempool.antt =====
-- pkg/mempool: transactions, and the pool of those that wait.
pub mod Tx
pub mod Pool
pub mod Queries
mod Tests
mod PoolTests
