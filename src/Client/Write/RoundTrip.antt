-- ===== src/Client/Write/RoundTrip.antt =====
-- A read behind a write of the same handle.
use dtmpfs.Prelude.{
  ℕ, ◌+◌, ◌-◌, ◌%◌, max, ◌≤◌, ◌<◌, ◌≡◌, sym, ap, subst, ◌∙◌, true, ltb, leb, ◌||◌, some, [], length,
  arith, get_elem?, get_elem?-within, get_elem?-ext, inl, inr,
}
use dtmpfs.Common.Id.{u64_mod, u32_mod}
use dtmpfs.Store.{Bytes}
use dtmpfs.Client.{FsResult-cases, OpenFile, returned, Env, Fs}
use dtmpfs.Client.Write.{write_loop, apply_write}
use dtmpfs.Client.Write.Loop.{Written, write_loop-Written}
use dtmpfs.Client.Read.{read_loop, read_file}
use dtmpfs.Client.Read.Dirty.{read_loop-Spells, IsWritten}
use dtmpfs.Client.Dirty.{byte_at, IsFull}

module _ {W : Type 0} (env : Env W) (bs : ℕ) (positive : 0 < bs) where
  read_back :
      (o : OpenFile) (offset : ℕ) (bytes : Bytes) (s : Fs W)
      → offset + length bytes + bs ≤ u64_mod
      → IsFull bs o
      → ((p : ℕ)
          → offset ≤ p
          → p < offset + length bytes
          → byte_at bs o p ≡ get_elem? bytes (0 + (p - offset)))
      → read_file env bs o offset (length bytes) s ≡ (returned bytes, s)
  unfolding read_file
  read_back o offset bytes s fits full holds =
      let end = offset + length bytes in
      let plain : end % u64_mod ≡ end = omega (arith, positive) in
      let written : IsWritten bs o offset end = λ p low high.
        let (v, at) = get_elem?-within bytes (0 + (p - offset)) (omega arith) in
        ground (arith, holds p low high, at) in
      let (r, same, x) =
        read_loop-Spells env bs positive o end fits full (length bytes) [] offset s (omega arith)
          written in
      let equal : r ≡ bytes = get_elem?-ext r bytes (omega (arith, x.long)) (λ i h.
        x.spelled i (omega (arith, x.long))
        ∙ holds (offset + i) (omega arith) (omega (arith, x.long))
        ∙ ap (get_elem? bytes) (omega arith)) in
      ap (λ e. read_loop env bs (length bytes) o [] offset e s) plain
      ∙ same
      ∙ ap (λ b. (returned b, s)) equal

  abbrev sized : OpenFile → ℕ → OpenFile
  sized o end = record o { size_hint = max o.size_hint end }

  apply_write-loop :
      (o : OpenFile) (offset end : ℕ) (bytes : Bytes) (s : Fs W) (n : ℕ)
      → (offset + length bytes) % u64_mod ≡ end
      → (apply_write env bs o offset bytes s).0 ≡ returned n
      → ((write_loop env bs (length bytes) bytes 0 offset end o s).0 ≡ returned n)
        × ((apply_write env bs o offset bytes s).1
            ≡ sized (write_loop env bs (length bytes) bytes 0 offset end o s).1 end)
  unfolding apply_write
  apply_write-loop o offset end bytes s n plain h =
      elim (FsResult-cases (write_loop env bs (length bytes) bytes 0 offset end o s).0) [
        | inl (m, e) ↦ (ground arith, ground arith)
        | inr (x, e) ↦ absurd (ground arith)
      ]

  -- What `apply_write` leaves is what its loop leaves, but for the size.
  pub apply_write-Written :
      (o : OpenFile) (offset : ℕ) (bytes : Bytes) (s : Fs W) (n : ℕ)
      → IsFull bs o
      → length bytes < u32_mod
      → offset + length bytes + bs ≤ u64_mod
      → (apply_write env bs o offset bytes s).0 ≡ returned n
      → (n ≡ length bytes)
        × Written bs bytes 0 offset
            (offset + length bytes)
            o
            (apply_write env bs o offset bytes s).1
  unfolding byte_at
  apply_write-Written o offset bytes s n full small fits h =
      let end = offset + length bytes in
      let (wrote, same) = apply_write-loop o offset end bytes s n (omega (arith, positive)) h in
      let (count, w) =
        write_loop-Written env bs positive bytes end fits (length bytes) 0 offset o s n full
          (omega arith) (omega arith) (omega arith) small wrote in
      (
        count,
        subst (λ x. Written bs bytes 0 offset end o x) (sym same)
            (record { full = w.full; holds = w.holds; keeps = w.keeps }),
      )

  -- A write that does not fail answers the number of its bytes. In any state of the world, a read
  -- of the same range of the handle then answers these bytes, and asks nobody for them. Every byte
  -- that was written before, at a place outside the range, is still there. Written blocks have at
  -- least the length of a block, which is positive, the bytes number less than 2 ^ 32, and the
  -- range ends a block before 2 ^ 64.
  pub write-read :
      (o : OpenFile) (offset : ℕ) (bytes : Bytes) (s s' : Fs W) (n : ℕ)
      → IsFull bs o
      → length bytes < u32_mod
      → offset + length bytes + bs ≤ u64_mod
      → (apply_write env bs o offset bytes s).0 ≡ returned n
      → let o' = (apply_write env bs o offset bytes s).1 in
        (n ≡ length bytes)
        × IsFull bs o'
        × (read_file env bs o' offset (length bytes) s' ≡ (returned bytes, s'))
        × ((p v : ℕ)
            → (ltb p offset || leb (offset + length bytes) p) ≡ true
            → byte_at bs o p ≡ some v
            → byte_at bs o' p ≡ some v)
  write-read o offset bytes s s' n full small fits h =
      let (count, w) = apply_write-Written o offset bytes s n full small fits h in
      (
        count,
        w.full,
        read_back (apply_write env bs o offset bytes s).1 offset bytes s' fits w.full w.holds,
        w.keeps,
      )
