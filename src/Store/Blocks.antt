-- ===== src/Store/Blocks.antt =====
-- The blocks of a storage node as a map that the requests update.
use dtmpfs.Prelude.{
  pair_eq, nat_eq, ◌+◌, ◌%◌, ◌≤◌, ◌≡◌, Option, none, some, length, arith, if◌then◌else◌, ◌==◌,
}
use dtmpfs.Prelude.HashMap.{get, get-remove}
use dtmpfs.Common.Id.{BlockKey, Generation, u32_mod, block_key_eq, block_key_beq_iff}
use dtmpfs.Common.Error.{Result, done, fail, not_found}
use dtmpfs.Store.{
  Bytes, StoreState, ProtoBlockKey, ReadBlockReq, ReadBlockResp, WriteBlockReq, delete_key,
  delete_block, read_block, status, proto_key_to_block_key,
}

abbrev pub read_of : ProtoBlockKey → ReadBlockReq
read_of k = record { key = some k; offset = 0; len = 0 }

abbrev pub write_of : ProtoBlockKey → Bytes → WriteBlockReq
write_of k b = record { key = some k; bytes = b }

-- What a read of a key answers when the node holds this under it.
abbrev pub answer : Option Bytes → Result ReadBlockResp
answer none = fail (status not_found "block not found")
answer (some b) = done (record { bytes = b; len = length b % u32_mod })

abbrev pub block_at : StoreState → ProtoBlockKey → Option Bytes
block_at s k = get (proto_key_to_block_key k) s.blocks

-- The generation is not below the mark, if there is one.
abbrev pub NotBelow : Generation → Option Generation → Type 0
NotBelow g none = Unit {0}
NotBelow g (some hw) = hw ≤ g

-- The node has room for the bytes, and the generation is not stale.
pub record Accepts (s : StoreState) (key : BlockKey) (b : Bytes) : Type 0 where
  pub fresh : NotBelow key.generation (get (key.ino, key.block_idx) s.high_water)
  pub room : s.ram_used + length b ≤ s.ram_budget

pub get-delete_key :
    (s : StoreState) (key j : BlockKey)
    → get j (delete_key s key).blocks ≡ (if key == j then none else get j s.blocks)
unfolding delete_key
get-delete_key s key j = ground (arith, get-remove key j s.blocks, block_key_beq_iff key j)

-- After a deletion a read of the deleted key finds nothing, a read of any other key answers what
-- the node held before, and a second deletion changes no block.
pub delete_block-read_block :
    (s : StoreState) (k j : ProtoBlockKey)
    → let key = proto_key_to_block_key k in
      let s' = (delete_block s (some k)).1 in
      ((read_block s' (read_of j)).0
        ≡ answer (if key == proto_key_to_block_key j then none else block_at s j))
      × (block_at (delete_block s' (some k)).1 j ≡ block_at s' j)
unfolding delete_block read_block
delete_block-read_block s k j =
    let key = proto_key_to_block_key k in
    let i = proto_key_to_block_key j in
    (
      rw (get-delete_key s key i) (ground arith),
      rw (get-delete_key (delete_key s key) key i, get-delete_key s key i) (ground arith),
    )
