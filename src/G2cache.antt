-- ===== src/G2cache.antt =====
pub mod Tests
-- The memory caches, g2cache/.
pub mod Store
pub mod Backends
pub mod Instance
pub mod Ledis
pub mod Ristretto
