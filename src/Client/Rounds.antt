-- ===== src/Client/Rounds.antt =====
-- The loops of `read` and `apply_write` of crates/dtmpfs-client/src/fs.rs end: rounds beyond the
-- length of the range change nothing.
use dtmpfs.Prelude.{
  ℕ, zero, suc, ◌+◌, ◌-◌, ◌%◌, ◌≤◌, ◌<◌, ◌≡◌, refl, [], ◌++◌, ltb, ltb→lt, length, arith,
  Bool-cases, inl, inr,
}
use dtmpfs.Common.Id.{u64_mod, u32_mod}
use dtmpfs.Store.{Bytes}
use dtmpfs.Client.{FsResult-cases, OpenFile, Env, Fs}
use dtmpfs.Client.Write.{chunk_len, write_loop, copy_chunk, ensure_dirty, apply_write}
use dtmpfs.Client.Read.{read_piece, read_loop, read_file}
use dtmpfs.Client.Dirty.{chunk_len-exact, block_end}

module _ {W : Type 0} (env : Env W) (bs : ℕ) (positive : 0 < bs) (end : ℕ)
    (fits : end + bs ≤ u64_mod) where
  -- The next round begins nearer to the end.
  nearer : (cur f : ℕ) → cur < end → end - cur ≤ suc f → end - (cur + chunk_len bs cur end) ≤ f
  nearer cur f less enough =
      omega (arith, chunk_len-exact bs positive cur end less fits, block_end bs positive cur)

  read_loop-fuel :
      (f g : ℕ) (o : OpenFile) (buf : Bytes) (cur : ℕ) (s : Fs W)
      → end - cur ≤ f
      → end - cur ≤ g
      → read_loop env bs f o buf cur end s ≡ read_loop env bs g o buf cur end s
  unfolding read_loop
  read_loop-fuel zero zero o buf cur s h k = refl
  read_loop-fuel zero (suc g) o buf cur s h k = ground arith
  read_loop-fuel (suc f) zero o buf cur s h k = ground arith
  read_loop-fuel (suc f) (suc g) o buf cur s h k = elim (Bool-cases (ltb cur end)) [
    | inr e ↦ ground arith
    | inl e ↦ elim (FsResult-cases (read_piece env bs o cur end s).0) [
      | inr (x, p) ↦ ground arith
      | inl (b, p) ↦
          let less = ltb→lt cur end e in
          ground (
            arith,
            read_loop-fuel f g o (buf ++ b) (cur + chunk_len bs cur end)
                (read_piece env bs o cur end s).1 (nearer cur f less h) (nearer cur g less k),
          )
    ]
  ]

  write_loop-fuel :
      (f g : ℕ) (bytes : Bytes) (written cur : ℕ) (o : OpenFile) (s : Fs W)
      → end - cur ≤ f
      → end - cur ≤ g
      → write_loop env bs f bytes written cur end o s
        ≡ write_loop env bs g bytes written cur end o s
  unfolding write_loop
  write_loop-fuel zero zero bytes written cur o s h k = refl
  write_loop-fuel zero (suc g) bytes written cur o s h k = ground arith
  write_loop-fuel (suc f) zero bytes written cur o s h k = ground arith
  write_loop-fuel (suc f) (suc g) bytes written cur o s h k = elim (Bool-cases (ltb cur end)) [
    | inr e ↦ ground arith
    | inl e ↦ elim (FsResult-cases (ensure_dirty env bs o cur end s).0) [
      | inr (x, p) ↦ ground arith
      | inl (b, p) ↦
          let less = ltb→lt cur end e in
          let n = chunk_len bs cur end in
          ground (
            arith,
            write_loop-fuel f g bytes ((written + n) % u32_mod) (cur + n)
                (copy_chunk bs bytes written cur end (ensure_dirty env bs o cur end s).1)
                (ensure_dirty env bs o cur end s).2 (nearer cur f less h) (nearer cur g less k),
          )
    ]
  ]

-- The loops of read and of apply_write end: rounds beyond the length of the range change nothing
-- of the answer and of the mount. Blocks are not empty, and the range ends a block before 2 ^ 64.
pub loops_end :
    {W : Type 0} (env : Env W) (bs offset size more : ℕ) (bytes : Bytes) (o : OpenFile) (s : Fs W)
    → 0 < bs
    → offset + size + bs ≤ u64_mod
    → length bytes ≡ size
    → (read_loop env bs (size + more) o [] offset (offset + size) s
        ≡ read_file env bs o offset size s)
      × ((write_loop env bs (size + more) bytes 0 offset (offset + size) o s).0
          ≡ (apply_write env bs o offset bytes s).0)
      × ((write_loop env bs (size + more) bytes 0 offset (offset + size) o s).2
          ≡ (apply_write env bs o offset bytes s).2)
unfolding read_file apply_write
loops_end env bs offset size more bytes o s positive fits same =
    let plain : (offset + size) % u64_mod ≡ offset + size = omega (arith, positive) in
    let r =
      read_loop-fuel env bs positive (offset + size) fits (size + more) size o [] offset s
        (omega arith) (omega arith) in
    let w =
      write_loop-fuel env bs positive (offset + size) fits (size + more) size bytes 0 offset o s
        (omega arith) (omega arith) in
    (rw plain r, ground (arith, w), ground (arith, w))
