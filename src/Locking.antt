-- ===== src/Locking.antt =====
-- gateway/locking: the locks that decide which cluster member connects to a target.
pub mod Locker
pub mod Local
pub mod Zookeeper
