-- ===== src/Client/Write.antt =====
-- `apply_write` and `write` of crates/dtmpfs-client/src/fs.rs. The loop takes one block in a round
-- and runs on fuel, of which the number of bytes is enough.
pub mod Ready
pub mod Loop
pub mod RoundTrip
use dtmpfs.Prelude.{
  ℕ, zero, suc, ◌+◌, ◌-◌, ◌*◌, ◌/◌, ◌%◌, min, max, Bool, true, false, ◌&&◌, Option, none, some,
  List, [], ◌∷◌, ◌++◌, length, take, drop, replicate, ltb, if◌then◌else◌, nat_eq, ◌==◌,
}
use dtmpfs.Prelude.Ord.{nat_ord}
use dtmpfs.Prelude.HashMap
use dtmpfs.Prelude.BtreeMap
use dtmpfs.Common.Id.{BlockIdx, u64_mod, u32_mod}
use dtmpfs.Common.Error.{missing}
use dtmpfs.Store.{Bytes}
use dtmpfs.Client.{OpenFile, FsResult, returned, failed, Env, Fs, FsReply}
use dtmpfs.Client.Fetch.{fetch_block}

abbrev pub put_dirty : BlockIdx → Bytes → OpenFile → OpenFile
put_dirty idx buf o = record o { dirty = BtreeMap.insert idx buf o.dirty }

-- `buf[at..at + chunk.len()].copy_from_slice(chunk)`
abbrev pub splice : ℕ → Bytes → Bytes → Bytes
splice at chunk buf = take at buf ++ (chunk ++ drop (at + length chunk) buf)

-- `resize` of a buffer that is too short
abbrev pub pad : ℕ → Bytes → Bytes
pad n b = b ++ replicate (n - length b) 0

-- The outcome of a step that changes the handle even where it fails.
abbrev pub WriteReply : Type 0 → Type 0 → Type 0
WriteReply W A = FsResult A × OpenFile × Fs W

module _ (block_size : ℕ) where
  abbrev pub block_of : ℕ → BlockIdx
  block_of cur = cur / block_size

  abbrev pub in_block : ℕ → ℕ
  in_block cur = cur - block_of cur * block_size

  -- The part of the range that lies in the block of `cur`.
  abbrev pub chunk_len : ℕ → ℕ → ℕ
  chunk_len cur end = min ((block_of cur * block_size + block_size) % u64_mod) end - cur

  -- The bytes of the round, copied into a block that is there.
  unfoldable pub copy_chunk : Bytes → ℕ → ℕ → ℕ → OpenFile → OpenFile
  copy_chunk bytes written cur end o =
      let idx = block_of cur in
      let chunk = take (chunk_len cur end) (drop written bytes) in
      elim (BtreeMap.get idx o.dirty) [
        | none ↦ o
        | some buf ↦ put_dirty idx (splice (in_block cur) chunk buf) o
      ]

module _ {W : Type 0} (env : Env W) (block_size : ℕ) where
  -- A block that is written for the first time, with what it held before.
  unfoldable pub init_from : OpenFile → BlockIdx → Fs W → WriteReply W (Unit {0})
  unfolding fetch_block
  init_from o idx s =
      let (block, s1) = fetch_block env block_size o idx s in
      elim block [
        | failed e ↦ (failed e, o, s1)
        | returned b ↦ (returned tt, put_dirty idx (pad block_size b) o, s1)
      ]

  unfoldable pub ensure_dirty : OpenFile → ℕ → ℕ → Fs W → WriteReply W (Unit {0})
  unfolding init_from
  ensure_dirty o cur end s =
      let idx = block_of block_size cur in
      if BtreeMap.contains_key idx o.dirty
      then (returned tt, o, s)
      else if (in_block block_size cur == 0) && (chunk_len block_size cur end == block_size)
      then (returned tt, put_dirty idx (replicate block_size 0) o, s)
      else if BtreeMap.contains_key idx o.block_map
      then init_from o idx s
      else (returned tt, put_dirty idx (replicate block_size 0) o, s)

  unfoldable pub write_loop : ℕ → Bytes → ℕ → ℕ → ℕ → OpenFile → Fs W → WriteReply W ℕ
  unfolding ensure_dirty copy_chunk
  write_loop zero bytes written cur end o s = (returned written, o, s)
  write_loop (suc fuel) bytes written cur end o s = elim (ltb cur end) [
    | false ↦ (returned written, o, s)
    | true ↦
        let (ready, o1, s1) = ensure_dirty o cur end s in
        let n = chunk_len block_size cur end in
        elim ready [
          | failed e ↦ (failed e, o1, s1)
          | returned _ ↦
              write_loop fuel bytes ((written + n) % u32_mod) (cur + n) end
                (copy_chunk block_size bytes written cur end o1) s1
        ]
  ]

  unfoldable pub apply_write : OpenFile → ℕ → Bytes → Fs W → WriteReply W ℕ
  unfolding write_loop
  apply_write o offset bytes s =
      let end = (offset + length bytes) % u64_mod in
      let (answer, o1, s1) = write_loop (length bytes) bytes 0 offset end o s in
      elim answer [
        | failed e ↦ (failed e, o1, s1)
        | returned n ↦ (returned n, record o1 { size_hint = max o1.size_hint end }, s1)
      ]

  -- `write`; the offset is an i64 that was cast to a u64.
  unfoldable pub write : ℕ → ℕ → Bytes → Fs W → FsReply W ℕ
  unfolding apply_write
  write fh offset bytes s = elim (HashMap.get fh s.open_files) [
    | none ↦ (failed missing, s)
    | some o ↦
        let (answer, o1, s1) = apply_write o offset bytes s in
        (answer, record s1 { open_files = HashMap.update fh (λ _. o1) s1.open_files })
  ]
