-- ===== src/Store/Debug.antt =====
-- crates/dtmpfs-store/src/debug.rs: what the debug endpoint lists.
use dtmpfs.Prelude.{ℕ, List, map, length}
use dtmpfs.Common.Id.{BlockKey, block_key_eq}
use dtmpfs.Store.{Bytes, StoreState}

pub record DebugBlock : Type 0 where
  pub ino : ℕ
  pub idx : ℕ
  pub gen : ℕ
  pub len : ℕ

pub record DebugBlocks : Type 0 where
  pub count : ℕ
  pub ram_used : ℕ
  pub blocks : List DebugBlock

abbrev pub debug_block : BlockKey × Bytes → DebugBlock
debug_block (k, b) = record { ino = k.ino; idx = k.block_idx; gen = k.generation; len = length b }

unfoldable pub debug_blocks : StoreState → DebugBlocks
debug_blocks s = record {
  count = length s.blocks;
  ram_used = s.ram_used;
  blocks = map debug_block s.blocks;
}
