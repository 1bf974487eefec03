-- ===== src/Client/Read.antt =====
-- `read` of crates/dtmpfs-client/src/fs.rs. The loop takes one block in a round and runs on fuel,
-- of which the number of bytes is enough.
pub mod Dirty
pub mod Length
pub mod Served
use dtmpfs.Prelude.{
  ℕ, zero, suc, ◌+◌, ◌-◌, ◌*◌, ◌/◌, ◌%◌, min, Bool, true, false, ◌||◌, Option, none, some, List, [],
  ◌∷◌, ◌++◌, length, take, drop, replicate, ltb, if◌then◌else◌, nat_eq,
}
use dtmpfs.Prelude.Ord.{nat_ord}
use dtmpfs.Prelude.HashMap
use dtmpfs.Prelude.BtreeMap
use dtmpfs.Common.Id.{BlockIdx, u64_mod}
use dtmpfs.Common.Error.{missing}
use dtmpfs.Store.{Bytes}
use dtmpfs.Client.{OpenFile, FsResult, returned, failed, Env, Fs, FsReply}
use dtmpfs.Client.Fetch.{fetch_block}
use dtmpfs.Client.Write.{block_of, in_block, chunk_len}

-- The part of a block that a round takes: `want` bytes from `at` on, with zeros behind its end.
abbrev pub piece : ℕ → ℕ → Bytes → Bytes
piece at want block =
    let taken = min want (length block - at) in
    take taken (drop at block) ++ replicate (want - taken) 0

module _ {W : Type 0} (env : Env W) (block_size : ℕ) where
  abbrev pub is_known : OpenFile → BlockIdx → Bool
  is_known o idx = BtreeMap.contains_key idx o.block_map || BtreeMap.contains_key idx o.dirty

  unfoldable pub read_piece : OpenFile → ℕ → ℕ → Fs W → FsReply W Bytes
  unfolding fetch_block
  read_piece o cur end s =
      let idx = block_of block_size cur in
      let want = chunk_len block_size cur end in
      if is_known o idx
      then (let (block, s1) = fetch_block env block_size o idx s in
          elim block [
            | failed e ↦ (failed e, s1)
            | returned b ↦ (returned (piece (in_block block_size cur) want b), s1)
          ])
      else (returned (replicate want 0), s)

  unfoldable pub read_loop : ℕ → OpenFile → Bytes → ℕ → ℕ → Fs W → FsReply W Bytes
  unfolding read_piece
  read_loop zero o buf cur end s = (returned buf, s)
  read_loop (suc fuel) o buf cur end s = elim (ltb cur end) [
    | false ↦ (returned buf, s)
    | true ↦
        let (got, s1) = read_piece o cur end s in
        elim got [
          | failed e ↦ (failed e, s1)
          | returned b ↦ read_loop fuel o (buf ++ b) (cur + chunk_len block_size cur end) end s1
        ]
  ]

  -- The part of `read` behind the handle.
  unfoldable pub read_file : OpenFile → ℕ → ℕ → Fs W → FsReply W Bytes
  unfolding read_loop
  read_file o offset size s = read_loop size o [] offset ((offset + size) % u64_mod) s

  -- `read`; the offset is an i64 that was cast to a u64.
  unfoldable pub read : ℕ → ℕ → ℕ → Fs W → FsReply W Bytes
  unfolding read_file
  read fh offset size s = elim (HashMap.get fh s.open_files) [
    | none ↦ (failed missing, s)
    | some o ↦ read_file o offset size s
  ]
