-- ===== src/Client/Read/Served.antt =====
-- A read through a handle whose blocks are served as those of another handle: `read` of
-- crates/dtmpfs-client/src/fs.rs where every block comes from outside and is the one that the other
-- handle has written.
use mathlib.Core.List.{append-nil, append_assoc}
use dtmpfs.Prelude.{
  ℕ, zero, suc, ◌+◌, ◌-◌, ◌≤◌, ◌<◌, ◌≡◌, sym, ◌∙◌, ap, subst, true, some, [], ◌++◌, ltb, ltb→lt,
  nat_eq, arith, Bool-cases, inl, inr,
}
use dtmpfs.Prelude.Ord.{nat_ord}
use dtmpfs.Prelude.BtreeMap
use dtmpfs.Common.Id.{BlockIdx, u64_mod}
use dtmpfs.Store.{Bytes}
use dtmpfs.Client.{OpenFile, returned, Env, Fs, FsReply}
use dtmpfs.Client.Fetch.{fetch_block}
use dtmpfs.Client.Write.{block_of, in_block, chunk_len}
use dtmpfs.Client.Read.{is_known, piece, read_piece, read_loop}
use dtmpfs.Client.Read.Dirty.{IsWritten, Spells, piece-Spells, written_block, append-Spells}
use dtmpfs.Client.Dirty.{IsFull, block_end, chunk_len-exact}

-- What a fetch gives in a state of a mount, and in every state behind it.
pub record Serves {W : Type 0} (env : Env W) (bs : ℕ) (o h : OpenFile) (IsGood : Fs W → Type 0)
    : Type 0 where
  pub known :
      (idx : BlockIdx) (b : Bytes)
      → BtreeMap.get idx o.dirty ≡ some b
      → is_known env bs h idx ≡ true
  pub block :
      (idx : BlockIdx) (b : Bytes) (s : Fs W)
      → IsGood s
      → BtreeMap.get idx o.dirty ≡ some b
      → (fetch_block env bs h idx s).0 ≡ returned b
  pub good :
      (idx : BlockIdx) (b : Bytes) (s : Fs W)
      → IsGood s
      → BtreeMap.get idx o.dirty ≡ some b
      → IsGood (fetch_block env bs h idx s).1

module _ {W : Type 0} (env : Env W) (bs : ℕ) (positive : 0 < bs) (o h : OpenFile) (end : ℕ)
    (fits : end + bs ≤ u64_mod) (full : IsFull bs o) (IsGood : Fs W → Type 0)
    (serves : Serves env bs o h IsGood) where
  read_piece-served :
      (cur : ℕ) (b : Bytes) (s : Fs W)
      → is_known env bs h (block_of bs cur) ≡ true
      → (fetch_block env bs h (block_of bs cur) s).0 ≡ returned b
      → read_piece env bs h cur end s ≡ (
        returned (piece (in_block bs cur) (chunk_len bs cur end) b),
        (fetch_block env bs h (block_of bs cur) s).1,
      )
  unfolding read_piece
  read_piece-served cur b s k e = ground arith

  read_loop-next :
      (fuel : ℕ) (buf r : Bytes) (cur : ℕ) (s s1 : Fs W)
      → ltb cur end ≡ true
      → read_piece env bs h cur end s ≡ (returned r, s1)
      → read_loop env bs (suc fuel) h buf cur end s
        ≡ read_loop env bs fuel h (buf ++ r) (cur + chunk_len bs cur end) end s1
  unfolding read_loop
  read_loop-next fuel buf r cur s s1 e f = ground arith

  read_loop-stop :
      (fuel : ℕ) (buf : Bytes) (cur : ℕ) (s : Fs W)
      → end ≤ cur
      → (read_loop env bs fuel h buf cur end s).0 ≡ returned buf
  unfolding read_loop
  read_loop-stop zero buf cur s e = ground arith
  read_loop-stop (suc fuel) buf cur s e = ground arith

  -- What the loop answers.
  abbrev pub Answers : ℕ → Bytes → FsReply W Bytes → Type 0
  Answers cur buf x = (r : Bytes) × (x.0 ≡ returned (buf ++ r)) × Spells bs o cur (end - cur) r

  nothing_left :
      (fuel cur : ℕ) (buf : Bytes) (s : Fs W)
      → end ≤ cur
      → Answers cur buf (read_loop env bs fuel h buf cur end s)
  nothing_left fuel cur buf s e = (
    [],
    read_loop-stop fuel buf cur s e ∙ ap returned (sym (append-nil buf)),
    record { long = omega arith; spelled = λ i k. absurd (omega arith) },
  )

  -- A round, and the rounds behind it.
  round-Answers :
      (fuel : ℕ) (buf a : Bytes) (cur : ℕ) (s s1 : Fs W)
      → ltb cur end ≡ true
      → read_piece env bs h cur end s ≡ (returned a, s1)
      → Spells bs o cur (chunk_len bs cur end) a
      → Answers
          (cur + chunk_len bs cur end)
          (buf ++ a)
          (read_loop env bs fuel h (buf ++ a) (cur + chunk_len bs cur end) end s1)
      → Answers cur buf (read_loop env bs (suc fuel) h buf cur end s)
  round-Answers fuel buf a cur s s1 e f x (r, same, y) =
      let n = chunk_len bs cur end in
      let exact = chunk_len-exact bs positive cur end (ltb→lt cur end e) fits in
      let count : n + (end - (cur + n)) ≡ end - cur = omega (arith, exact, ltb→lt cur end e) in
      (
        a ++ r,
        ap (λ (q : FsReply W Bytes). q.0) (read_loop-next fuel buf a cur s s1 e f)
            ∙ same
            ∙ ap returned (append_assoc buf a r),
        subst (λ k. Spells bs o cur k (a ++ r)) count
            (append-Spells env bs positive o end fits full cur n (end - (cur + n)) a r x y),
      )

  pub read_loop-Answers :
      (fuel : ℕ) (buf : Bytes) (cur : ℕ) (s : Fs W)
      → end - cur ≤ fuel
      → IsWritten bs o cur end
      → IsGood s
      → Answers cur buf (read_loop env bs fuel h buf cur end s)
  read_loop-Answers zero buf cur s enough w good = nothing_left zero cur buf s (omega arith)
  read_loop-Answers (suc fuel) buf cur s enough w good = elim (Bool-cases (ltb cur end)) [
    | inr e ↦ nothing_left (suc fuel) cur buf s (ground arith)
    | inl e ↦
        let less = ltb→lt cur end e in
        let idx = block_of bs cur in
        let (b, there) =
          written_block env bs positive o end fits full cur (w cur (omega arith) less) in
        let n = chunk_len bs cur end in
        let exact = chunk_len-exact bs positive cur end less fits in
        let ends = block_end bs positive cur in
        round-Answers fuel buf _ cur s _ e
          (read_piece-served cur b s (serves.known idx b there) (serves.block idx b s good there))
          (piece-Spells env bs positive o end fits full cur b less there)
          (read_loop-Answers fuel _ (cur + n) _ (omega (arith, exact, ends, less))
            (λ p low high. w p (omega arith) high) (serves.good idx b s good there))
  ]
