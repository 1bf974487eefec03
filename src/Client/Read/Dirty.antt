-- ===== src/Client/Read/Dirty.antt =====
-- Reading a range that lies in written blocks: the answer is made of their bytes, and nobody is
-- asked.
use mathlib.Core.List.{append-nil, append_assoc}
use dtmpfs.Prelude.{
  ℕ, zero, suc, ◌+◌, ◌-◌, ◌*◌, ◌≤◌, ◌<◌, ◌≡◌, refl, sym, ◌∙◌, ap, subst, true, false, is_some, some,
  [], ◌++◌, length, take, drop, replicate, min, ltb, ltb→lt, nat_eq, arith, get_elem?,
  get_elem?-append, get_elem?-take, get_elem?-drop, length-append, length-take, length-drop,
  length-replicate, Option-cases, Bool-cases, inl, inr,
}
use dtmpfs.Prelude.Ord.{nat_ord}
use dtmpfs.Prelude.BtreeMap
use dtmpfs.Common.Id.{u64_mod}
use dtmpfs.Store.{Bytes}
use dtmpfs.Client.{OpenFile, returned, Env, Fs, FsReply}
use dtmpfs.Client.Fetch.{fetch_block}
use dtmpfs.Client.Write.{block_of, in_block, chunk_len}
use dtmpfs.Client.Read.{piece, read_piece, read_loop}
use dtmpfs.Client.Dirty.{
  byte_at, IsFull, block_start, block_end, chunk_len-exact, same_chunk, byte_at-block,
}

-- Every byte of the range is in a written block.
abbrev pub IsWritten : ℕ → OpenFile → ℕ → ℕ → Type 0
IsWritten bs o cur end = (p : ℕ) → cur ≤ p → p < end → is_some (byte_at bs o p) ≡ true

-- The bytes of a range, one by one.
pub record Spells (bs : ℕ) (o : OpenFile) (cur n : ℕ) (r : Bytes) : Type 0 where
  pub long : length r ≡ n
  pub spelled : (i : ℕ) → i < n → get_elem? r i ≡ byte_at bs o (cur + i)

pub length-piece : (at want : ℕ) (b : Bytes) → length (piece at want b) ≡ want
length-piece at want b = omega (
  arith,
  length-append (take (min want (length b - at)) (drop at b))
      (replicate (want - min want (length b - at)) 0),
  length-take (min want (length b - at)) (drop at b),
  length-drop at b,
  length-replicate {A = ℕ} (want - min want (length b - at)) 0,
)

get_elem?-piece :
    (at want : ℕ) (b : Bytes) (i : ℕ)
    → at + want ≤ length b
    → i < want
    → get_elem? (piece at want b) i ≡ get_elem? b (at + i)
get_elem?-piece at want b i whole h = ground (
  arith,
  get_elem?-append (take (min want (length b - at)) (drop at b))
      (replicate (want - min want (length b - at)) 0) i,
  length-take (min want (length b - at)) (drop at b),
  length-drop at b,
  get_elem?-take (min want (length b - at)) (drop at b) i,
  get_elem?-drop at b i,
)

module _ {W : Type 0} (env : Env W) (bs : ℕ) (positive : 0 < bs) (o : OpenFile) (end : ℕ)
    (fits : end + bs ≤ u64_mod) (full : IsFull bs o) where
  read_piece-dirty :
      (cur : ℕ) (b : Bytes) (s : Fs W)
      → BtreeMap.get (block_of bs cur) o.dirty ≡ some b
      → read_piece env bs o cur end s
        ≡ (returned (piece (in_block bs cur) (chunk_len bs cur end) b), s)
  unfolding read_piece fetch_block
  read_piece-dirty cur b s e = ground arith

  pub piece-Spells :
      (cur : ℕ) (b : Bytes)
      → cur < end
      → BtreeMap.get (block_of bs cur) o.dirty ≡ some b
      → Spells bs o cur (chunk_len bs cur end) (piece (in_block bs cur) (chunk_len bs cur end) b)
  piece-Spells cur b less e =
      let whole = full (block_of bs cur) b e in
      let start = block_start bs positive cur in
      let exact = chunk_len-exact bs positive cur end less fits in
      let ends = block_end bs positive cur in
      record {
        long = length-piece (in_block bs cur) (chunk_len bs cur end) b;
        spelled = λ i h.
            let same = same_chunk bs positive cur end i less fits h in
            let moved : in_block bs (cur + i) ≡ in_block bs cur + i =
              ground (arith, start, ap (λ (q : ℕ). q * bs) same) in
            get_elem?-piece (in_block bs cur) (chunk_len bs cur end) b i
              (ground (arith, whole, start, exact, ends)) h
            ∙ ap (get_elem? b) (sym moved)
            ∙ sym (byte_at-block bs o (cur + i) (block_of bs cur) b same e);
      }

  pub written_block :
      (p : ℕ)
      → is_some (byte_at bs o p) ≡ true
      → (b : Bytes) × (BtreeMap.get (block_of bs p) o.dirty ≡ some b)
  unfolding byte_at
  written_block p h = elim (Option-cases (BtreeMap.get (block_of bs p) o.dirty)) [
    | inl e ↦ absurd (ground arith)
    | inr (b, e) ↦ (b, e)
  ]

  pub append-Spells :
      (cur n m : ℕ) (a r : Bytes)
      → Spells bs o cur n a
      → Spells bs o (cur + n) m r
      → Spells bs o cur (n + m) (a ++ r)
  append-Spells cur n m a r x y = record {
    long = omega (arith, length-append a r, x.long, y.long);
    spelled = λ i h. elim (Bool-cases (ltb i n)) [
      | inl e ↦ ground (arith, get_elem?-append a r i, x.long, x.spelled i)
      | inr e ↦
          let place : cur + n + (i - n) ≡ cur + i = ground arith in
          ground (arith, get_elem?-append a r i, x.long, y.spelled (i - n), ap (byte_at bs o) place)
    ];
  }

  read_loop-next :
      (fuel : ℕ) (buf r : Bytes) (cur : ℕ) (s : Fs W)
      → ltb cur end ≡ true
      → read_piece env bs o cur end s ≡ (returned r, s)
      → read_loop env bs (suc fuel) o buf cur end s
        ≡ read_loop env bs fuel o (buf ++ r) (cur + chunk_len bs cur end) end s
  unfolding read_loop
  read_loop-next fuel buf r cur s e f = ground arith

  read_loop-stop :
      (fuel : ℕ) (buf : Bytes) (cur : ℕ) (s : Fs W)
      → ltb cur end ≡ false
      → read_loop env bs fuel o buf cur end s ≡ (returned buf, s)
  unfolding read_loop
  read_loop-stop zero buf cur s e = refl
  read_loop-stop (suc fuel) buf cur s e = ground arith

  -- What the loop answers, in a state that it does not change.
  abbrev pub Reads : ℕ → Bytes → Fs W → FsReply W Bytes → Type 0
  Reads cur buf s x = (r : Bytes) × (x ≡ (returned (buf ++ r), s)) × Spells bs o cur (end - cur) r

  nothing_left : (cur : ℕ) (buf : Bytes) (s : Fs W) → end ≤ cur → Reads cur buf s (returned buf, s)
  nothing_left cur buf s h = (
    [],
    ap (λ b. (returned b, s)) (sym (append-nil buf)),
    record { long = omega arith; spelled = λ i k. absurd (omega arith) },
  )

  -- A round, and the rounds behind it.
  round-Reads :
      (fuel : ℕ) (buf a : Bytes) (cur : ℕ) (s : Fs W)
      → ltb cur end ≡ true
      → read_piece env bs o cur end s ≡ (returned a, s)
      → Spells bs o cur (chunk_len bs cur end) a
      → Reads
          (cur + chunk_len bs cur end)
          (buf ++ a)
          s
          (read_loop env bs fuel o (buf ++ a) (cur + chunk_len bs cur end) end s)
      → Reads cur buf s (read_loop env bs (suc fuel) o buf cur end s)
  round-Reads fuel buf a cur s e f x (r, same, y) =
      let n = chunk_len bs cur end in
      let exact = chunk_len-exact bs positive cur end (ltb→lt cur end e) fits in
      let count : n + (end - (cur + n)) ≡ end - cur = omega (arith, exact, ltb→lt cur end e) in
      (
        a ++ r,
        read_loop-next fuel buf a cur s e f
            ∙ same
            ∙ ap (λ b. (returned b, s)) (append_assoc buf a r),
        subst (λ k. Spells bs o cur k (a ++ r)) count
            (append-Spells cur n (end - (cur + n)) a r x y),
      )

  pub read_loop-Spells :
      (fuel : ℕ) (buf : Bytes) (cur : ℕ) (s : Fs W)
      → end - cur ≤ fuel
      → IsWritten bs o cur end
      → Reads cur buf s (read_loop env bs fuel o buf cur end s)
  read_loop-Spells zero buf cur s enough w =
      unfold read_loop in nothing_left cur buf s (omega arith)
  read_loop-Spells (suc fuel) buf cur s enough w = elim (Bool-cases (ltb cur end)) [
    | inr e ↦
        subst (Reads cur buf s) (sym (read_loop-stop (suc fuel) buf cur s e))
          (nothing_left cur buf s (ground arith))
    | inl e ↦
        let less = ltb→lt cur end e in
        let (b, there) = written_block cur (w cur (omega arith) less) in
        let n = chunk_len bs cur end in
        let exact = chunk_len-exact bs positive cur end less fits in
        let ends = block_end bs positive cur in
        round-Reads fuel buf _ cur s e (read_piece-dirty cur b s there)
          (piece-Spells cur b less there)
          (read_loop-Spells fuel _ (cur + n) s (omega (arith, exact, ends, less))
            (λ p low high. w p (omega arith) high))
  ]
