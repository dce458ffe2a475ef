-- ===== src/G2util.antt =====
pub mod Tests
pub mod DirectoryTests
pub mod ConfigTests
pub mod RuleTests
pub mod TimeTests
-- The utilities, g2util/*.go.
pub mod Level
pub mod Retry
pub mod Small
pub mod FieldTests
pub mod Fields
pub mod Resty
pub mod BackFile
pub mod Graceful
pub mod GoPool
pub mod Maps
pub mod JsonTime
pub mod Validator
pub mod Crypto
pub mod Exec
pub mod Config
pub mod JsonHelp
