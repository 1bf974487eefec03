-- ===== src/Client/Write/Loop.antt =====
-- The rounds of `apply_write` together: what the written blocks hold after them.
use dtmpfs.Prelude.{
  ℕ, zero, suc, ◌+◌, ◌-◌, ◌≤◌, ◌<◌, ◌≡◌, sym, ap, subst, true, false, ◌||◌, some, length, ltb, leb,
  nat_eq, arith, get_elem?, get_elem?-within, ltb→lt, get_elem?-within, Bool-cases, inl, inr,
}
use dtmpfs.Prelude.Ord.{nat_ord}
use dtmpfs.Common.Id.{u64_mod, u32_mod}
use dtmpfs.Common.Error.{DtmpfsError}
use dtmpfs.Store.{Bytes}
use dtmpfs.Client.{OpenFile, FsResult, FsResult-cases, returned, failed, Env, Fs}
use dtmpfs.Client.Write.{block_of, chunk_len, ensure_dirty, copy_chunk, write_loop}
use dtmpfs.Client.Dirty.{
  byte_at, IsFull, copy_chunk-byte_at, chunk_len-exact, block_end, copy_chunk-IsFull,
}
use dtmpfs.Client.Write.Ready.{Ready, ensure_dirty-Ready}

-- What a run of the loop from `cur` to `end` leaves.
pub record Written (bs : ℕ) (bytes : Bytes) (written cur end : ℕ) (o o' : OpenFile) : Type 0 where
  pub full : IsFull bs o'
  pub holds : (p : ℕ) → cur ≤ p → p < end → byte_at bs o' p ≡ get_elem? bytes (written + (p - cur))
  pub keeps :
      (p v : ℕ)
      → (ltb p cur || leb end p) ≡ true
      → byte_at bs o p ≡ some v
      → byte_at bs o' p ≡ some v

module _ {W : Type 0} (env : Env W) (bs : ℕ) (positive : 0 < bs) (bytes : Bytes) (end : ℕ)
    (fits : end + bs ≤ u64_mod) where
  -- A round, and the rounds behind it.
  round-Written :
      (written cur : ℕ) (o o1 o' : OpenFile)
      → cur < end
      → written + (end - cur) ≡ length bytes
      → Ready bs o o1 (block_of bs cur)
      → Written bs bytes
          (written + chunk_len bs cur end)
          (cur + chunk_len bs cur end)
          end
          (copy_chunk bs bytes written cur end o1)
          o'
      → Written bs bytes written cur end o o'
  round-Written written cur o o1 o' less total r w =
      let n = chunk_len bs cur end in
      let exact = chunk_len-exact bs positive cur end less fits in
      let copied =
        copy_chunk-byte_at bs positive bytes written cur end o1 r.buf less fits r.there
          (r.full _ r.buf r.there) (omega (arith, exact, total)) in
      record {
        full = w.full;
        holds = λ p low high. elim (Bool-cases (ltb p (cur + n))) [
          | inl e ↦
              let (v, at) = get_elem?-within bytes (written + (p - cur)) (omega (arith, total)) in
              ground (arith, copied p, w.keeps p v, at)
          | inr e ↦
              let same : written + n + (p - (cur + n)) ≡ written + (p - cur) =
                ground (arith, exact) in
              ground (arith, w.holds p, ap (get_elem? bytes) same)
        ];
        keeps = λ p v out h. ground (arith, copied p, w.keeps p v, r.keeps p v, exact);
      }

  nothing_left : (written : ℕ) (o : OpenFile) → IsFull bs o → Written bs bytes written end end o o
  nothing_left written o full = record {
    full = full;
    holds = λ p low high. absurd (omega arith);
    keeps = λ p v out h. h;
  }

  module _ (fuel written cur : ℕ) (o : OpenFile) (s : Fs W) where
    write_loop-stop :
        ltb cur end ≡ false
        → write_loop env bs (suc fuel) bytes written cur end o s ≡ (returned written, o, s)
    unfolding write_loop
    write_loop-stop e = ground arith

    write_loop-fails :
        (x : DtmpfsError)
        → ltb cur end ≡ true
        → (ensure_dirty env bs o cur end s).0 ≡ failed x
        → (write_loop env bs (suc fuel) bytes written cur end o s).0 ≡ failed x
    unfolding write_loop
    write_loop-fails x e f = ground arith

    write_loop-next :
        ltb cur end ≡ true
        → (ensure_dirty env bs o cur end s).0 ≡ returned tt
        → written + chunk_len bs cur end < u32_mod
        → write_loop env bs (suc fuel) bytes written cur end o s
          ≡ write_loop env bs fuel bytes
              (written + chunk_len bs cur end)
              (cur + chunk_len bs cur end)
              end
              (copy_chunk bs bytes written cur end (ensure_dirty env bs o cur end s).1)
              (ensure_dirty env bs o cur end s).2
    unfolding write_loop
    write_loop-next e f small = ground arith

  -- What is to be shown of a loop that answers `n`.
  abbrev Finishes : ℕ → ℕ → OpenFile → ℕ → FsResult ℕ × OpenFile × Fs W → Type 0
  Finishes written cur o n x =
      x.0 ≡ returned n → (n ≡ length bytes) × Written bs bytes written cur end o x.1

  loop_ended :
      (written cur : ℕ) (o : OpenFile) (s : Fs W) (n : ℕ)
      → IsFull bs o
      → cur ≡ end
      → written + (end - cur) ≡ length bytes
      → Finishes written cur o n (returned written, o, s)
  loop_ended written cur o s n full same total h = (
    ground (arith, total),
    subst (λ x. Written bs bytes written x end o o) (sym same) (nothing_left written o full),
  )

  -- As many rounds as there are bytes are enough: a loop that does not fail has written them all.
  pub write_loop-Written :
      (fuel written cur : ℕ) (o : OpenFile) (s : Fs W) (n : ℕ)
      → IsFull bs o
      → cur ≤ end
      → end - cur ≤ fuel
      → written + (end - cur) ≡ length bytes
      → length bytes < u32_mod
      → Finishes written cur o n (write_loop env bs fuel bytes written cur end o s)
  write_loop-Written zero written cur o s n full le enough total small =
      unfold write_loop in loop_ended written cur o s n full (omega arith) total
  write_loop-Written (suc fuel) written cur o s n full le enough total small =
      elim (Bool-cases (ltb cur end)) [
        | inr e ↦
            subst (Finishes written cur o n) (sym (write_loop-stop fuel written cur o s e))
              (loop_ended written cur o s n full (ground arith) total)
        | inl e ↦ elim (FsResult-cases (ensure_dirty env bs o cur end s).0) [
          | inr (x, f) ↦ λ h. absurd (ground (arith, write_loop-fails fuel written cur o s x e f))
          | inl (x, f) ↦
              let o1 = (ensure_dirty env bs o cur end s).1 in
              let s1 = (ensure_dirty env bs o cur end s).2 in
              let k = chunk_len bs cur end in
              let exact = chunk_len-exact bs positive cur end (ground arith) fits in
              let ends = block_end bs positive cur in
              let r = ensure_dirty-Ready env bs o cur end s full f in
              let o2 = copy_chunk bs bytes written cur end o1 in
              let full2 : IsFull bs o2 =
                copy_chunk-IsFull bs positive bytes written cur end o1 r.buf (ground arith) fits
                  r.there (r.full _ r.buf r.there) (omega (arith, exact, total)) r.full in
              let rest =
                write_loop-Written fuel (written + k) (cur + k) o2 s1 n full2
                  (omega (arith, exact, ltb→lt cur end e))
                  (omega (arith, exact, ends, ltb→lt cur end e))
                  (omega (arith, exact, total, ltb→lt cur end e)) small in
              let next =
                write_loop-next fuel written cur o s e f (omega (arith, exact, total, small)) in
              subst (Finishes written cur o n) (sym next) (λ h. (
                (rest h).0,
                round-Written written cur o o1 _ (ltb→lt cur end e) total r (rest h).1,
              ))
        ]
      ]
