-- ===== src/Pools.antt =====
-- The two thread pools.
pub mod ThreadPool
pub mod WorkStealing
