-- ===== src/Client/Write/Ready.antt =====
-- The step of `apply_write` that brings a block in before it is written.
use dtmpfs.Prelude.{
  ℕ, ◌≤◌, ◌≡◌, sym, subst, ◌&&◌, none, some, length, replicate, nat_eq, ◌==◌, arith, Option-cases,
  Bool-cases, inl, inr, length-replicate,
}
use dtmpfs.Prelude.Ord.{nat_ord}
use dtmpfs.Prelude.BtreeMap
use dtmpfs.Common.Id.{BlockIdx}
use dtmpfs.Store.{Bytes}
use dtmpfs.Client.{OpenFile, FsResult-cases, returned, Env, Fs}
use dtmpfs.Client.Fetch.{fetch_block}
use dtmpfs.Client.Write.{block_of, in_block, chunk_len, pad, put_dirty, init_from, ensure_dirty}
use dtmpfs.Client.Dirty.{byte_at, IsFull, length-pad}

-- A block is there to be written, and no byte that was written has changed.
pub record Ready (bs : ℕ) (o o' : OpenFile) (idx : BlockIdx) : Type 0 where
  pub buf : Bytes
  pub there : BtreeMap.get idx o'.dirty ≡ some buf
  pub full : IsFull bs o'
  pub keeps : (p v : ℕ) → byte_at bs o p ≡ some v → byte_at bs o' p ≡ some v

put_dirty-Ready :
    (bs : ℕ) (o : OpenFile) (idx : BlockIdx) (buf : Bytes)
    → IsFull bs o
    → BtreeMap.get idx o.dirty ≡ none
    → bs ≤ length buf
    → Ready bs o (put_dirty idx buf o) idx
unfolding byte_at
put_dirty-Ready bs o idx buf full new long = record {
  buf = buf;
  there = ground (arith, BtreeMap.get-insert idx idx buf o.dirty);
  full = λ j b h. ground (arith, BtreeMap.get-insert idx j buf o.dirty, full j b);
  keeps = λ p v h. ground (arith, BtreeMap.get-insert idx (block_of bs p) buf o.dirty);
}

module _ {W : Type 0} (env : Env W) (bs : ℕ) where
  init_from-Ready :
      (o : OpenFile) (idx : BlockIdx) (s : Fs W)
      → IsFull bs o
      → BtreeMap.get idx o.dirty ≡ none
      → (init_from env bs o idx s).0 ≡ returned tt
      → Ready bs o (init_from env bs o idx s).1 idx
  unfolding init_from
  init_from-Ready o idx s full new h = elim (FsResult-cases (fetch_block env bs o idx s).0) [
    | inr (e, f) ↦ absurd (ground arith)
    | inl (b, f) ↦
        let same : (init_from env bs o idx s).1 ≡ put_dirty idx (pad bs b) o = ground arith in
        subst (λ x. Ready bs o x idx) (sym same)
          (put_dirty-Ready bs o idx (pad bs b) full new (length-pad bs b))
  ]

  pub ensure_dirty-Ready :
      (o : OpenFile) (cur end : ℕ) (s : Fs W)
      → IsFull bs o
      → (ensure_dirty env bs o cur end s).0 ≡ returned tt
      → Ready bs o (ensure_dirty env bs o cur end s).1 (block_of bs cur)
  unfolding ensure_dirty
  ensure_dirty-Ready o cur end s full h =
      let idx = block_of bs cur in
      let zeros = put_dirty-Ready bs o idx (replicate bs 0) full in
      let long : bs ≤ length (replicate {A = ℕ} bs 0) =
        omega (arith, length-replicate {A = ℕ} bs 0) in
      elim (Option-cases (BtreeMap.get idx o.dirty)) [
        | inr (buf, e) ↦ rw e (record { buf = buf; there = e; full = full; keeps = λ p v k. k })
        | inl e ↦ elim (Bool-cases ((in_block bs cur == 0) && (chunk_len bs cur end == bs))) [
          | inl w ↦ rw (e, w) (zeros e long)
          | inr w ↦ elim (Bool-cases (BtreeMap.contains_key idx o.block_map)) [
            | inl k ↦ rw (e, w, k) (init_from-Ready o idx s full e (ground arith))
            | inr k ↦ rw (e, w, k) (zeros e long)
          ]
        ]
      ]
