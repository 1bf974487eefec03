-- ===== src/Store/Marks.antt =====
-- The high-water marks: a block never goes back to an older generation unless it is deleted.
use dtmpfs.Prelude.{
  ℕ, ◌≤◌, ◌<◌, ◌≡◌, ◌≢◌, Option, none, some, List, [], ◌∷◌, arith, sym, subst, Option-cases, inl,
  inr, nat_eq, pair_eq, pair_beq_iff,
}
use dtmpfs.Prelude.HashMap.{get, get-insert, get-remove}
use dtmpfs.Common.Id.{InodeId, BlockIdx, BlockKey, Generation, block_key_eq}
use dtmpfs.Common.Error.{done, fail, failed_precondition}
use dtmpfs.Store.{
  Bytes, StoreState, raise_mark, ProtoBlockKey, Peers, write_key, write_block, delete_key,
  delete_block, read_block, replicate, install_replica, status, Request, reads, writes, deletes,
  replicates, stats, step, run, proto_key_to_block_key,
}
use dtmpfs.Store.Blocks.{write_of}

-- The mark of a logical block has reached the generation.
abbrev pub Reached : Generation → Option Generation → Type 0
Reached g none = ⊥
Reached g (some hw) = g ≤ hw

abbrev pub mark : StoreState → InodeId × BlockIdx → Option Generation
mark s l = get l s.high_water

abbrev pub logical : ProtoBlockKey → InodeId × BlockIdx
logical k = (k.ino, k.block_idx)

-- The request is no deletion of the logical block.
abbrev pub Spares : InodeId × BlockIdx → Request → Type 0
Spares l (deletes (some k)) = logical k ≢ l
Spares l _ = Unit {0}

abbrev pub AllSpare : InodeId × BlockIdx → List Request → Type 0
AllSpare l [] = Unit {0}
AllSpare l (r ∷ rs) = Spares l r × AllSpare l rs

write_key-Reached :
    (s : StoreState) (key : BlockKey) (b : Bytes) (l : InodeId × BlockIdx) (g : Generation)
    → Reached g (mark s l)
    → Reached g (mark (write_key s key b).1 l)
unfolding write_key
write_key-Reached s key b l g h = ground (
  arith,
  get-insert (key.ino, key.block_idx) l
      (raise_mark key.generation (mark s (key.ino, key.block_idx))) s.high_water,
  pair_beq_iff (key.ino, key.block_idx) l,
)

delete_key-Reached :
    (s : StoreState) (key : BlockKey) (l : InodeId × BlockIdx) (g : Generation)
    → ◌≢◌ {A = InodeId × BlockIdx} (key.ino, key.block_idx) l
    → Reached g (mark s l)
    → Reached g (mark (delete_key s key) l)
unfolding delete_key
delete_key-Reached s key l g ne h = ground (
  arith,
  get-remove (key.ino, key.block_idx) l s.high_water,
  pair_beq_iff (key.ino, key.block_idx) l,
)

step-Reached :
    (peers : Peers) (s : StoreState) (r : Request) (l : InodeId × BlockIdx) (g : Generation)
    → Spares l r
    → Reached g (mark s l)
    → Reached g (mark (step peers s r) l)
unfolding step read_block write_block delete_block replicate install_replica proto_key_to_block_key
step-Reached peers s (reads r) l g c h = ground arith
step-Reached peers s (writes r) l g c h = elim (Option-cases r.key) [
  | inl e ↦ rw (e, step, write_block) h
  | inr (k, e) ↦
      rw (e, step, write_block) (write_key-Reached s (proto_key_to_block_key k) r.bytes l g h)
]
step-Reached peers s (deletes none) l g c h = h
step-Reached peers s (deletes (some k)) l g c h =
    delete_key-Reached s (proto_key_to_block_key k) l g c h
step-Reached peers s (replicates r) l g c h = ground arith
step-Reached peers s stats l g c h = h

run-Reached :
    (peers : Peers) (s : StoreState) (rs : List Request) (l : InodeId × BlockIdx) (g : Generation)
    → AllSpare l rs
    → Reached g (mark s l)
    → Reached g (mark (run peers s rs) l)
unfolding run
run-Reached peers s [] l g c h = h
run-Reached peers s (r ∷ rs) l g c h =
    run-Reached peers (step peers s r) rs l g c.1 (step-Reached peers s r l g c.0 h)

write_key_marks :
    (s : StoreState) (key : BlockKey) (b : Bytes) (n : ℕ)
    → (write_key s key b).0 ≡ done n
    → Reached key.generation (mark (write_key s key b).1 (key.ino, key.block_idx))
unfolding write_key
write_key_marks s key b n h = ground (
  arith,
  get-insert (key.ino, key.block_idx) (key.ino, key.block_idx)
      (raise_mark key.generation (mark s (key.ino, key.block_idx))) s.high_water,
  pair_beq_iff (key.ino, key.block_idx) (key.ino, key.block_idx),
)

write_key_stale :
    (s : StoreState) (key : BlockKey) (b : Bytes) (g : Generation)
    → Reached g (mark s (key.ino, key.block_idx))
    → key.generation < g
    → write_key s key b ≡ (fail (status failed_precondition "stale generation"), s)
unfolding write_key
write_key_stale s key b g h lt = ground arith

-- Once a write of a block has been accepted, a write of the same block with an older generation is
-- refused as stale and changes nothing, whatever requests came in between, if none of them deleted
-- the block.
pub stale_write_refused :
    (peers : Peers) (s : StoreState) (k old : ProtoBlockKey) (b b' : Bytes) (n : ℕ)
    (rs : List Request)
    → (write_block s (write_of k b)).0 ≡ done n
    → AllSpare (logical k) rs
    → logical old ≡ logical k
    → old.generation < k.generation
    → let s' = run peers (write_block s (write_of k b)).1 rs in
      write_block s' (write_of old b') ≡ (fail (status failed_precondition "stale generation"), s')
unfolding write_block proto_key_to_block_key
stale_write_refused peers s k old b b' n rs accepted spare same older =
    let s' = run peers (write_block s (write_of k b)).1 rs in
    let reached =
      run-Reached peers (write_block s (write_of k b)).1 rs (logical k) k.generation spare
        (write_key_marks s (proto_key_to_block_key k) b n accepted) in
    write_key_stale s' (proto_key_to_block_key old) b' k.generation
      (subst (λ l. Reached k.generation (mark s' l)) (sym same) reached) older
