-- ===== src/Tests.antt =====
-- Concrete inputs, and the theorems applied to them.
pub mod World
pub mod Files
pub mod Shards
pub mod Managers
pub mod Metas
pub mod Syncs
pub mod Scans
pub mod Servers
pub mod Downloads
pub mod Workers
pub mod Miners
pub mod Stores
pub mod Readers
