-- ===== src/G2db.antt =====
-- The database layer, g2db/: the memory cache in front of MySQL and Redis, tokens, sessions.
pub mod Cache
pub mod Token
pub mod Mysql
pub mod Session
pub mod Redis
pub mod Query
pub mod Conditions
pub mod Coherence
pub mod Window
pub mod Tests
pub mod RowTests
pub mod TokenTests
pub mod Locker
pub mod WindowTests
pub mod AtomicTests
pub mod SubTests
pub mod CoherenceTests
pub mod LossyTests
pub mod SyncTests
