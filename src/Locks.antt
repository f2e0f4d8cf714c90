-- ===== src/Locks.antt =====
-- The two locks that the library builds on std::mutex.
pub mod HierarchicalMutex
pub mod RwLock
