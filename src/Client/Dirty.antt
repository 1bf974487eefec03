-- ===== src/Client/Dirty.antt =====
-- The bytes that a handle holds in its written blocks, as a function of the place in the file, and
-- what a round of `apply_write` does to them.
use native.Mathlib.Decide.{ℕ_discrete}
use native.Mathlib.Nat.{div-mul-le_self, lt-div-mul-add, div-eq_of_lt-le}
use dtmpfs.Prelude.{
  ℕ, ◌+◌, ◌-◌, ◌*◌, ◌≤◌, ◌<◌, ◌≡◌, ◌≢◌, ap, min, false, ◌&&◌, Option, none, some, ◌++◌, length,
  take, drop, replicate, ltb, leb, if◌then◌else◌, nat_eq, arith, get_elem?, get_elem?-append,
  get_elem?-take, get_elem?-drop, length-append, length-take, length-drop, length-replicate,
  Bool-cases, inl, inr,
}
use dtmpfs.Prelude.Ord.{nat_ord}
use dtmpfs.Prelude.BtreeMap
use dtmpfs.Common.Id.{BlockIdx, u64_mod}
use dtmpfs.Store.{Bytes}
use dtmpfs.Client.{OpenFile}
use dtmpfs.Client.Write.{block_of, in_block, chunk_len, splice, pad, copy_chunk}

-- A byte of a written block.
unfoldable pub byte_at : ℕ → OpenFile → ℕ → Option ℕ
byte_at bs o p = elim (BtreeMap.get (block_of bs p) o.dirty) [
  | none ↦ none
  | some b ↦ get_elem? b (in_block bs p)
]

-- Written blocks are whole.
abbrev pub IsFull : ℕ → OpenFile → Type 0
IsFull bs o = (idx : BlockIdx) (b : Bytes) → BtreeMap.get idx o.dirty ≡ some b → bs ≤ length b

pub get_elem?-splice :
    (at : ℕ) (chunk buf : Bytes) (i : ℕ)
    → at + length chunk ≤ length buf
    → get_elem? (splice at chunk buf) i ≡ (
        if leb at i && ltb i (at + length chunk) then get_elem? chunk (i - at) else get_elem? buf i)
get_elem?-splice at chunk buf i h = grind (
  arith,
  get_elem?-append (take at buf) (chunk ++ drop (at + length chunk) buf) i,
  get_elem?-append chunk (drop (at + length chunk) buf) (i - at),
  get_elem?-take at buf i,
  get_elem?-drop (at + length chunk) buf (i - at - length chunk),
  length-take at buf,
)

pub length-splice :
    (at : ℕ) (chunk buf : Bytes)
    → at + length chunk ≤ length buf
    → length (splice at chunk buf) ≡ length buf
length-splice at chunk buf h = omega (
  arith,
  length-append (take at buf) (chunk ++ drop (at + length chunk) buf),
  length-append chunk (drop (at + length chunk) buf),
  length-take at buf,
  length-drop (at + length chunk) buf,
)

pub length-pad : (n : ℕ) (b : Bytes) → n ≤ length (pad n b)
length-pad n b =
    omega (
      arith,
      length-append b (replicate (n - length b) 0),
      length-replicate {A = ℕ} (n - length b) 0,
    )

module _ (bs : ℕ) (positive : 0 < bs) where
  pub block_start : (p : ℕ) → block_of bs p * bs ≤ p
  block_start p = div-mul-le_self p bs

  pub block_end : (p : ℕ) → p < block_of bs p * bs + bs
  block_end p = lt-div-mul-add positive

  pub same_block : (p : ℕ) (q : BlockIdx) → q * bs ≤ p → p < q * bs + bs → block_of bs p ≡ q
  same_block p q low high = div-eq_of_lt-le bs low (omega arith)

  -- The part of a range that lies in the block of `cur`, where no sum wraps.
  pub chunk_len-exact :
      (cur end : ℕ)
      → cur < end
      → end + bs ≤ u64_mod
      → chunk_len bs cur end ≡ min (block_of bs cur * bs + bs) end - cur
  chunk_len-exact cur end h fits = ground (arith, block_start cur, block_end cur)

  pub same_chunk :
      (cur end i : ℕ)
      → cur < end
      → end + bs ≤ u64_mod
      → i < chunk_len bs cur end
      → block_of bs (cur + i) ≡ block_of bs cur
  same_chunk cur end i h fits k =
      same_block (cur + i) (block_of bs cur) (omega (arith, block_start cur))
        (omega (arith, chunk_len-exact cur end h fits, block_end cur))

pub byte_at-block :
    (bs : ℕ) (o : OpenFile) (p : ℕ) (idx : BlockIdx) (b : Bytes)
    → block_of bs p ≡ idx
    → BtreeMap.get idx o.dirty ≡ some b
    → byte_at bs o p ≡ get_elem? b (in_block bs p)
unfolding byte_at
byte_at-block bs o p idx b same there = ground arith

-- A round copies its part of the range and leaves every other byte.
module _ (bs : ℕ) (positive : 0 < bs) (bytes : Bytes) (written cur end : ℕ) where
  abbrev pub round : ℕ
  round = chunk_len bs cur end

  module _ (o : OpenFile) (buf : Bytes) (less : cur < end) (fits : end + bs ≤ u64_mod)
      (there : BtreeMap.get (block_of bs cur) o.dirty ≡ some buf) (whole : bs ≤ length buf)
      (inside : written + round ≤ length bytes) where
    abbrev chunk : Bytes
    chunk = take round (drop written bytes)

    length-chunk : length chunk ≡ round
    length-chunk = omega (arith, length-take round (drop written bytes), length-drop written bytes)

    chunk_fits : in_block bs cur + length chunk ≤ length buf
    chunk_fits = ground (
      arith,
      length-chunk,
      chunk_len-exact bs positive cur end less fits,
      block_start bs positive cur,
      block_end bs positive cur,
    )

    get_elem?-chunk : (i : ℕ) → i < round → get_elem? chunk i ≡ get_elem? bytes (written + i)
    get_elem?-chunk i h =
        ground (arith, get_elem?-take round (drop written bytes) i, get_elem?-drop written bytes i)

    -- A place of the block of `cur`, by its number in the block.
    copied_in :
        (p : ℕ)
        → block_of bs p ≡ block_of bs cur
        → get_elem? (splice (in_block bs cur) chunk buf) (in_block bs p) ≡ (
            if leb cur p && ltb p (cur + round)
            then get_elem? bytes (written + (p - cur))
            else get_elem? buf (in_block bs p))
    copied_in p same = grind (
      arith,
      get_elem?-splice (in_block bs cur) chunk buf (in_block bs p) chunk_fits,
      length-chunk,
      get_elem?-chunk (p - cur),
      block_start bs positive cur,
      block_start bs positive p,
      chunk_len-exact bs positive cur end less fits,
      block_end bs positive cur,
      ap (λ (q : ℕ). q * bs) same,
    )

    -- A place in another block lies outside the round.
    outside : (p : ℕ) → block_of bs p ≢ block_of bs cur → (leb cur p && ltb p (cur + round)) ≡ false
    outside p other = elim (Bool-cases (leb cur p && ltb p (cur + round))) [
      | inr e ↦ e
      | inl e ↦ absurd (
          other (
            same_block bs positive p (block_of bs cur) (ground (arith, block_start bs positive cur))
              (ground
                (arith, chunk_len-exact bs positive cur end less fits, block_end bs positive cur))))
    ]

    pub copy_chunk-byte_at :
        (p : ℕ)
        → byte_at bs (copy_chunk bs bytes written cur end o) p ≡ (
            if leb cur p && ltb p (cur + round)
            then get_elem? bytes (written + (p - cur))
            else byte_at bs o p)
    unfolding copy_chunk byte_at
    copy_chunk-byte_at p = elim (ℕ_discrete (block_of bs p) (block_of bs cur)) [
      | yes same ↦ ground (
        arith,
        copied_in p same,
        BtreeMap.get-insert (block_of bs cur) (block_of bs p) (splice (in_block bs cur) chunk buf)
            o.dirty,
      )
      | no other ↦ ground (
        arith,
        BtreeMap.get-insert (block_of bs cur) (block_of bs p) (splice (in_block bs cur) chunk buf)
            o.dirty,
        outside p other,
      )
    ]

    pub copy_chunk-IsFull : IsFull bs o → IsFull bs (copy_chunk bs bytes written cur end o)
    unfolding copy_chunk
    copy_chunk-IsFull full j b h = ground (
      arith,
      BtreeMap.get-insert (block_of bs cur) j (splice (in_block bs cur) chunk buf) o.dirty,
      length-splice (in_block bs cur) chunk buf chunk_fits,
      full j b,
    )
