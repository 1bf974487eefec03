-- ===== src/Meta.antt =====
-- crates/dtmpfs-meta: the metadata server. Each handler runs under the lock of the state, so a
-- handler is a function of the state, but for `open`, which takes the lock twice.
pub mod State
pub mod Messages
pub mod Namespace
pub mod Rename
pub mod View
pub mod Tree
mod Examples
mod FileExamples
mod OrderExamples
pub mod Attributes
pub mod Utf8
pub mod Listing
pub mod Handles
pub mod Blocks
pub mod Nodes
pub mod Steps
pub mod Start
