-- ===== src/Common/Id.antt =====
-- crates/dtmpfs-common/src/id.rs. The transparent newtypes over `u64` are numbers, and `NodeId` is
-- the text that it wraps.
use dtmpfs.Prelude.{
  ℕ, ◌+◌, ◌*◌, ◌%◌, ◌^◌, String, ◌≡◌, ◌↔◌, Bool, true, ◌&&◌, List, arith, Eq, ◌==◌, nat_eq,
}

abbrev pub u64_mod : ℕ
u64_mod = 2 ^ 64

abbrev pub u32_mod : ℕ
u32_mod = 2 ^ 32

abbrev pub InodeId : Type 0
InodeId = ℕ

abbrev pub Generation : Type 0
Generation = ℕ

abbrev pub BlockIdx : Type 0
BlockIdx = ℕ

abbrev pub NodeId : Type 0
NodeId = String

abbrev pub root : InodeId
root = 1

-- `self.0 + 1`, with the wrap of a release build.
unfoldable pub bump : Generation → Generation
bump g = (g + 1) % u64_mod

pub record BlockKey : Type 0 where
  pub ino : InodeId
  pub block_idx : BlockIdx
  pub generation : Generation

abbrev pub block_key_beq : BlockKey → BlockKey → Bool
block_key_beq a b = a.ino == b.ino && a.block_idx == b.block_idx && a.generation == b.generation

pub block_key_beq_iff : (a b : BlockKey) → (block_key_beq a b ≡ true) ↔ (a ≡ b)
block_key_beq_iff a b = ground arith

instance abbrev pub block_key_eq : Eq BlockKey
block_key_eq = record { beq = block_key_beq; beq_iff = block_key_beq_iff }

-- `(ino << 64) | block_idx` in a u128: the low half of the shifted number is zero, so the bitwise
-- or with a 64-bit number is a sum.
unfoldable pub placement_key : BlockKey → ℕ
placement_key k = k.ino * 2 ^ 64 + k.block_idx

pub record BlockPlacement : Type 0 where
  pub primary : NodeId
  pub replicas : List NodeId

pub data InodeKind : Type 0 where
  file dir symlink : InodeKind

pub InodeKind-discrete : Discrete InodeKind
InodeKind-discrete = hlevel
