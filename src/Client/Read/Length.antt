-- ===== src/Client/Read/Length.antt =====
-- The number of bytes that `read` answers.
use dtmpfs.Prelude.{
  ℕ, zero, suc, ◌+◌, ◌-◌, ◌%◌, ◌≤◌, ◌<◌, ◌≡◌, sym, ◌∙◌, ap, [], ◌++◌, length, ltb, ltb→lt, arith,
  length-append, length-replicate, Bool-cases, inl, inr,
}
use dtmpfs.Common.Id.{u64_mod}
use dtmpfs.Store.{Bytes}
use dtmpfs.Client.{FsResult-cases, OpenFile, returned, Env, Fs}
use dtmpfs.Client.Fetch.{fetch_block}
use dtmpfs.Client.Write.{block_of, in_block, chunk_len}
use dtmpfs.Client.Read.{is_known, read_piece, read_loop, read_file}
use dtmpfs.Client.Read.Dirty.{length-piece}
use dtmpfs.Client.Dirty.{chunk_len-exact, block_end}

module _ {W : Type 0} (env : Env W) (bs : ℕ) (o : OpenFile) where
  read_piece-length :
      (cur end : ℕ) (s : Fs W) (r : Bytes)
      → (read_piece env bs o cur end s).0 ≡ returned r
      → length r ≡ chunk_len bs cur end
  unfolding read_piece
  read_piece-length cur end s r h = elim (Bool-cases (is_known env bs o (block_of bs cur))) [
    | inr e ↦ ground (arith, length-replicate {A = ℕ} (chunk_len bs cur end) 0)
    | inl e ↦ elim (FsResult-cases (fetch_block env bs o (block_of bs cur) s).0) [
      | inr (x, f) ↦ absurd (ground arith)
      | inl (b, f) ↦ ground (arith, length-piece (in_block bs cur) (chunk_len bs cur end) b)
    ]
  ]

  module _ (positive : 0 < bs) (end : ℕ) (fits : end + bs ≤ u64_mod) where
    read_loop-length :
        (fuel : ℕ) (buf : Bytes) (cur : ℕ) (s : Fs W) (r : Bytes)
        → end - cur ≤ fuel
        → (read_loop env bs fuel o buf cur end s).0 ≡ returned r
        → length r ≡ length buf + (end - cur)
    unfolding read_loop
    read_loop-length zero buf cur s r enough h = ground arith
    read_loop-length (suc fuel) buf cur s r enough h = elim (Bool-cases (ltb cur end)) [
      | inr e ↦ ground arith
      | inl e ↦ elim (FsResult-cases (read_piece env bs o cur end s).0) [
        | inr (x, f) ↦ absurd (ground arith)
        | inl (b, f) ↦
            let less = ltb→lt cur end e in
            let n = chunk_len bs cur end in
            let exact = chunk_len-exact bs positive cur end less fits in
            let ends = block_end bs positive cur in
            let rest =
              read_loop-length fuel (buf ++ b) (cur + n) (read_piece env bs o cur end s).1 r
                (omega (arith, exact, ends, less)) (ground arith) in
            omega (arith, rest, length-append buf b, read_piece-length cur end s b f, exact, less)
      ]
    ]

  -- A read that succeeds answers as many bytes as were asked for, whatever the size of the file.
  -- Blocks are not empty, and the range ends a block before 2 ^ 64.
  pub length-read_file :
      (offset size : ℕ) (s : Fs W) (r : Bytes)
      → 0 < bs
      → offset + size + bs ≤ u64_mod
      → (read_file env bs o offset size s).0 ≡ returned r
      → length r ≡ size
  unfolding read_file
  length-read_file offset size s r positive fits h =
      let plain : (offset + size) % u64_mod ≡ offset + size = omega (arith, positive) in
      let got =
        read_loop-length positive (offset + size) fits size [] offset s r (omega arith)
          (ap (λ e. (read_loop env bs size o [] offset e s).0) (sym plain) ∙ h) in
      omega (arith, got)
