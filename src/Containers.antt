-- ===== src/Containers.antt =====
-- The containers that are shared between threads.
pub mod Queue
pub mod NodeList
pub mod Stack
pub mod LookupTable
pub mod SharedStack
pub mod HazardStack
pub mod DeleteListStack
pub mod CountedStack
