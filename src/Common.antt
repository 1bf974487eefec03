-- ===== src/Common.antt =====
-- crates/dtmpfs-common: identifiers, the placement hash, and the error table.
pub mod Id
pub mod Error
pub mod Auth
pub mod Config
pub mod Hash
mod Examples
