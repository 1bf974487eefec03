-- ===== src/Store/Accounting.antt =====
-- The memory counter of a storage node against the blocks that it holds.
use dtmpfs.Prelude.{
  ℕ, ◌+◌, ◌≤◌, ◌<◌, ◌≡◌, none, some, List, [], ◌∷◌, length, arith, nat_eq, Option-cases, inl, inr,
  refl, sym, subst, String,
}
use dtmpfs.Prelude.HashMap.{
  get, IsMap, total, insert-IsMap, remove-IsMap, total-insert, total-remove,
}
use dtmpfs.Common.Id.{BlockKey, u64_mod, block_key_eq}
use dtmpfs.Common.Error.{done}
use dtmpfs.Store.{
  Bytes, StoreState, new, ProtoBlockKey, ReplicateReq, Peers, ReadBlockResp, read_block, write_key,
  write_block, delete_key, delete_block, install_replica, replicate, Request, reads, writes,
  deletes, replicates, stats, step, run, proto_key_to_block_key,
}

-- The bytes of all blocks.
abbrev pub held : StoreState → ℕ
held s = total length s.blocks

-- The counter is the number of bytes held, which is within the budget.
pub record IsAccounted (s : StoreState) : Type 0 where
  pub one_entry : IsMap s.blocks
  pub counted : s.ram_used ≡ held s
  pub within : s.ram_used ≤ s.ram_budget

write_key-IsAccounted :
    (s : StoreState) (key : BlockKey) (bytes : Bytes)
    → length bytes + s.ram_budget < u64_mod
    → IsAccounted s
    → IsAccounted (write_key s key bytes).1
unfolding write_key
write_key-IsAccounted s key bytes small a = ground (
  arith,
  insert-IsMap key bytes s.blocks a.one_entry,
  total-insert length key bytes s.blocks a.one_entry,
)

delete_key-IsAccounted :
    (s : StoreState) (key : BlockKey)
    → s.ram_budget < u64_mod
    → IsAccounted s
    → IsAccounted (delete_key s key)
unfolding delete_key
delete_key-IsAccounted s key small a =
    ground
      (arith, remove-IsMap key s.blocks a.one_entry, total-remove length key s.blocks a.one_entry)

-- The requests for which the counter is kept: a write that with the whole budget stays below
-- 2 ^ 64, and no replication.
abbrev pub Counted : ℕ → Request → Type 0
Counted b (writes r) = length r.bytes + b < u64_mod
Counted b (replicates r) = ⊥
Counted b _ = Unit {0}

abbrev pub AllCounted : ℕ → List Request → Type 0
AllCounted b [] = Unit {0}
AllCounted b (r ∷ rs) = Counted b r × AllCounted b rs

step-IsAccounted :
    (peers : Peers) (s : StoreState) (r : Request)
    → s.ram_budget < u64_mod
    → Counted s.ram_budget r
    → IsAccounted s
    → IsAccounted (step peers s r)
unfolding step read_block write_block delete_block
step-IsAccounted peers s (reads r) small c a = ground arith
step-IsAccounted peers s (writes r) small c a = elim (Option-cases r.key) [
  | inl e ↦ rw (e, step, write_block) a
  | inr (k, e) ↦
      rw (e, step, write_block) (write_key-IsAccounted s (proto_key_to_block_key k) r.bytes c a)
]
step-IsAccounted peers s (deletes none) small c a = a
step-IsAccounted peers s (deletes (some k)) small c a =
    delete_key-IsAccounted s (proto_key_to_block_key k) small a
step-IsAccounted peers s (replicates r) small c a = absurd c
step-IsAccounted peers s stats small c a = a

pub ram_budget-step :
    (peers : Peers) (s : StoreState) (r : Request) → (step peers s r).ram_budget ≡ s.ram_budget
unfolding step read_block write_block delete_block replicate write_key delete_key install_replica
ram_budget-step peers s (reads r) = ground arith
ram_budget-step peers s (writes r) = ground arith
ram_budget-step peers s (deletes k) = ground arith
ram_budget-step peers s (replicates r) = ground arith
ram_budget-step peers s stats = refl

-- A node whose counter is right and within its budget stays so through any requests other than
-- replications, accepted or refused, as long as no write could overflow a u64 with the budget.
pub run-IsAccounted :
    (peers : Peers) (s : StoreState) (rs : List Request)
    → s.ram_budget < u64_mod
    → AllCounted s.ram_budget rs
    → IsAccounted s
    → IsAccounted (run peers s rs)
unfolding run
run-IsAccounted peers s [] small c a = a
run-IsAccounted peers s (r ∷ rs) small c a =
    let same = ram_budget-step peers s r in
    run-IsAccounted peers (step peers s r) rs (rw same small)
      (subst (λ b. AllCounted b rs) (sym same) c.1) (step-IsAccounted peers s r small c.0 a)

pub new-IsAccounted : (n m : String) (budget : ℕ) → IsAccounted (new n m budget)
unfolding new
new-IsAccounted n m budget = record { one_entry = tt; counted = refl; within = omega arith }

-- A replication that replaces a block leaves the counter too high by the length of the old block,
-- on a node whose counter was right and as long as the counter with the fetched bytes is below 2 ^
-- 64.
pub replicate_drift :
    (peers : Peers) (s : StoreState) (r : ReplicateReq) (k : ProtoBlockKey) (old : Bytes)
    (resp : ReadBlockResp)
    → r.key ≡ some k
    → get (proto_key_to_block_key k) s.blocks ≡ some old
    → peers.connect r.source_addr ≡ none
    → peers.read_block r.source_addr (record { key = some k; offset = 0; len = 0 }) ≡ done resp
    → s.ram_used + length resp.bytes < u64_mod
    → IsAccounted s
    → let s' = (replicate peers s r).1 in s'.ram_used ≡ held s' + length old
unfolding replicate install_replica
replicate_drift peers s r k old resp hk hold hc hr small a =
    ground (arith, total-insert length (proto_key_to_block_key k) resp.bytes s.blocks a.one_entry)
