-- ===== src/Store/Examples.antt =====
-- Runs of a storage node, and its theorems at concrete inputs.
use dtmpfs.Prelude.{◌≡◌, ◌+◌, refl, none, some, [], ◌∷◌, arith, pair_eq, nat_eq}
use dtmpfs.Prelude.HashMap.{get, insert, remove}
use dtmpfs.Common.Id.{block_key_eq}
use dtmpfs.Common.Error.{done, fail, failed_precondition, resource_exhausted}
use dtmpfs.Store.{
  StoreState, new, ProtoBlockKey, ReplicateReq, Peers, write_block, read_block, delete_block,
  replicate, writes, deletes, run, status, proto_key_to_block_key,
}
use dtmpfs.Store.Accounting.{IsAccounted, held, run-IsAccounted, new-IsAccounted, replicate_drift}
use dtmpfs.Store.Blocks.{read_of, write_of, answer, block_at, delete_block-read_block}
use dtmpfs.Store.Marks.{stale_write_refused}

abbrev key0 : ProtoBlockKey
key0 = record { ino = 2; block_idx = 0; generation = 0 }

abbrev key1 : ProtoBlockKey
key1 = record { ino = 2; block_idx = 0; generation = 1 }

abbrev empty : StoreState
empty = new "store-0" "meta" 10

abbrev held_one : StoreState
held_one = (write_block empty (write_of key1 (7 ∷ 8 ∷ 9 ∷ []))).1

abbrev peers : Peers
peers = record {
  connect = λ a. none;
  read_block = λ a r. done (record { bytes = 5 ∷ []; len = 1 });
}

abbrev copy_key1 : ReplicateReq
copy_key1 = record { source_node_id = "store-1"; source_addr = "http://store-1"; key = some key1 }

counter_after_write : held_one.ram_used ≡ 3
unfolding write_block new get
counter_after_write = refl

stale_refused :
    (write_block held_one (write_of key0 (0 ∷ 0 ∷ 0 ∷ 0 ∷ 0 ∷ 0 ∷ 0 ∷ 0 ∷ []))).0
    ≡ fail (status failed_precondition "stale generation")
unfolding write_block new get insert
stale_refused = refl

over_budget_refused :
    (write_block empty (write_of key0 (1 ∷ 1 ∷ 1 ∷ 1 ∷ 1 ∷ 1 ∷ 1 ∷ 1 ∷ 1 ∷ 1 ∷ 1 ∷ []))).0
    ≡ fail (status resource_exhausted "ram budget exceeded")
unfolding write_block new get
over_budget_refused = refl

run-IsAccounted_example :
    IsAccounted (run peers empty (writes (write_of key0 (1 ∷ 2 ∷ [])) ∷ deletes (some key0) ∷ []))
unfolding new
run-IsAccounted_example =
    run-IsAccounted peers (unfold new in empty)
      (writes (write_of key0 (1 ∷ 2 ∷ [])) ∷ deletes (some key0) ∷ []) (omega arith) (omega arith)
      (new-IsAccounted "store-0" "meta" 10)

delete_block-read_block_example :
    ((read_block (delete_block held_one (some key1)).1 (read_of key1)).0 ≡ answer none)
    × (block_at (delete_block (delete_block held_one (some key1)).1 (some key1)).1 key1
        ≡ block_at (delete_block held_one (some key1)).1 key1)
unfolding proto_key_to_block_key
delete_block-read_block_example = delete_block-read_block held_one key1 key1

stale_write_refused_example :
    write_block (run peers held_one []) (write_of key0 (4 ∷ []))
    ≡ (fail (status failed_precondition "stale generation"), run peers held_one [])
unfolding new write_block get
stale_write_refused_example =
    stale_write_refused peers empty key1 key0 (7 ∷ 8 ∷ 9 ∷ []) (4 ∷ []) 3 [] refl tt refl
      (omega arith)

held_one-IsAccounted : IsAccounted held_one
unfolding new write_block insert remove get
held_one-IsAccounted = record { one_entry = (refl, tt); counted = refl; within = omega arith }

replicate_drift_example :
    (replicate peers held_one copy_key1).1.ram_used
    ≡ held (replicate peers held_one copy_key1).1 + 3
unfolding new write_block insert remove get
replicate_drift_example =
    replicate_drift peers held_one copy_key1 key1 (7 ∷ 8 ∷ 9 ∷ [])
      (record { bytes = 5 ∷ []; len = 1 }) refl refl refl refl (omega arith) held_one-IsAccounted
