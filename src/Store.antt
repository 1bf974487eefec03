-- ===== src/Store.antt =====
-- crates/dtmpfs-store: the state of a storage node (state.rs) and the handlers of its service
-- (service.rs). Byte strings are lists of numbers, and a handler returns its answer beside the
-- state that it leaves. The handlers run one at a time.
pub mod Accounting
pub mod Blocks
pub mod Marks
pub mod Start
pub mod Debug
mod Examples
use dtmpfs.Prelude.{
  ℕ, ◌+◌, ◌-◌, ◌%◌, String, Option, none, some, List, [], ◌∷◌, Dict, Bool, false, pair_eq, nat_eq,
  length, ltb, if◌then◌else◌,
}
use dtmpfs.Prelude.HashMap.{get, insert, remove}
use dtmpfs.Common.Id.{
  InodeId, BlockIdx, Generation, NodeId, BlockKey, u64_mod, u32_mod, block_key_eq,
}
use dtmpfs.Common.Error.{
  Code, Status, Result, done, fail, invalid_argument, not_found, failed_precondition,
  resource_exhausted, unavailable,
}

abbrev pub Bytes : Type 0
Bytes = List ℕ

pub record StoreState : Type 0 where
  pub blocks : Dict BlockKey Bytes
  pub high_water : Dict (InodeId × BlockIdx) Generation
  pub node_id : NodeId
  pub meta_addr : String
  pub ram_budget : ℕ
  pub ram_used : ℕ

unfoldable pub new : NodeId → String → ℕ → StoreState
new node_id meta_addr ram_budget = record {
  blocks = [];
  high_water = [];
  node_id = node_id;
  meta_addr = meta_addr;
  ram_budget = ram_budget;
  ram_used = 0;
}

-- The messages of proto/store.proto. A field of message type may be absent.
pub record ProtoBlockKey : Type 0 where
  pub ino : ℕ
  pub block_idx : ℕ
  pub generation : ℕ

pub record ReadBlockReq : Type 0 where
  pub key : Option ProtoBlockKey
  pub offset : ℕ
  pub len : ℕ

pub record ReadBlockResp : Type 0 where
  pub bytes : Bytes
  pub len : ℕ

pub record WriteBlockReq : Type 0 where
  pub key : Option ProtoBlockKey
  pub bytes : Bytes

pub record ReplicateReq : Type 0 where
  pub source_node_id : String
  pub source_addr : String
  pub key : Option ProtoBlockKey

pub record StoreStat : Type 0 where
  pub node_id : String
  pub used_bytes : ℕ
  pub capacity_bytes : ℕ
  pub block_count : ℕ
  pub read_bytes_total : ℕ
  pub write_bytes_total : ℕ

abbrev pub status : Code → String → Status
status c m = record { code = c; message = m }

unfoldable pub proto_key_to_block_key : ProtoBlockKey → BlockKey
proto_key_to_block_key k = record {
  ino = k.ino;
  block_idx = k.block_idx;
  generation = k.generation;
}

abbrev pub missing_key : Status
missing_key = status invalid_argument "missing key"

abbrev pub Reply : Type 0 → Type 0
Reply A = Result A × StoreState

unfoldable pub read_entry : Option Bytes → Result ReadBlockResp
read_entry none = fail (status not_found "block not found")
read_entry (some bytes) = done (record { bytes = bytes; len = length bytes % u32_mod })

unfoldable pub read_block : StoreState → ReadBlockReq → Reply ReadBlockResp
unfolding read_entry proto_key_to_block_key
read_block s r = elim r.key [
  | none ↦ (fail missing_key, s)
  | some k ↦ (read_entry (get (proto_key_to_block_key k) s.blocks), s)
]

-- Whether the generation is older than the highest one stored for the logical block.
unfoldable pub is_stale : StoreState → BlockKey → Bool
is_stale s key = elim (get (key.ino, key.block_idx) s.high_water) [
  | none ↦ false
  | some hw ↦ ltb key.generation hw
]

unfoldable pub over_budget : StoreState → ℕ → Bool
over_budget s len = ltb s.ram_budget ((s.ram_used + len) % u64_mod)

abbrev pub len_or_zero : Option Bytes → ℕ
len_or_zero none = 0
len_or_zero (some b) = length b

-- `entry(logical).and_modify(..).or_insert(..)`
abbrev pub raise_mark : Generation → Option Generation → Generation
raise_mark g none = g
raise_mark g (some hw) = if ltb hw g then g else hw

-- The part of `write_block` behind its checks: `fetch_add` and `fetch_sub` wrap.
unfoldable pub store_block : StoreState → BlockKey → Bytes → StoreState
store_block s key bytes =
    let logical : InodeId × BlockIdx = (key.ino, key.block_idx) in
    let prev_len = len_or_zero (get key s.blocks) in
    record s {
      blocks = insert key bytes s.blocks;
      high_water =
          insert logical (raise_mark key.generation (get logical s.high_water)) s.high_water;
      ram_used = ((s.ram_used + length bytes) % u64_mod + u64_mod - prev_len) % u64_mod;
    }

-- `write_block` for a key that is present. The answer is the length as a u32.
unfoldable pub write_key : StoreState → BlockKey → Bytes → Reply ℕ
unfolding is_stale over_budget store_block
write_key s key bytes =
    if is_stale s key
    then (fail (status failed_precondition "stale generation"), s)
    else if over_budget s (length bytes)
    then (fail (status resource_exhausted "ram budget exceeded"), s)
    else (done (length bytes % u32_mod), store_block s key bytes)

unfoldable pub write_block : StoreState → WriteBlockReq → Reply ℕ
unfolding write_key proto_key_to_block_key
write_block s r = elim r.key [
  | none ↦ (fail missing_key, s)
  | some k ↦ write_key s (proto_key_to_block_key k) r.bytes
]

-- `delete_block` for a key that is present.
unfoldable pub delete_key : StoreState → BlockKey → StoreState
delete_key s key = elim (get key s.blocks) [
  | none ↦ record s { high_water = remove (key.ino, key.block_idx) s.high_water }
  | some prev ↦ record s {
    blocks = remove key s.blocks;
    high_water = remove (key.ino, key.block_idx) s.high_water;
    ram_used = (s.ram_used + u64_mod - length prev) % u64_mod;
  }
]

unfoldable pub delete_block : StoreState → Option ProtoBlockKey → Reply (Unit {0})
unfolding delete_key proto_key_to_block_key
delete_block s none = (fail missing_key, s)
delete_block s (some k) = (done tt, delete_key s (proto_key_to_block_key k))

-- Another storage node, reached by its address: the outcome of connecting to it, with the text of
-- a failure, and of its `read_block`.
pub record Peers : Type 0 where
  pub connect : String → Option String
  pub read_block : String → ReadBlockReq → Result ReadBlockResp

unfoldable pub install_replica : StoreState → BlockKey → Result ReadBlockResp → Reply (Unit {0})
install_replica s key (fail e) = (fail e, s)
install_replica s key (done resp) = (
  done tt,
  record s {
    ram_used = (s.ram_used + length resp.bytes) % u64_mod;
    blocks = insert key resp.bytes s.blocks;
  },
)

unfoldable pub replicate : Peers → StoreState → ReplicateReq → Reply (Unit {0})
unfolding install_replica proto_key_to_block_key
replicate peers s r = elim r.key [
  | none ↦ (fail missing_key, s)
  | some k ↦ elim (peers.connect r.source_addr) [
    | some error ↦ (fail (status unavailable error), s)
    | none ↦
        install_replica s (proto_key_to_block_key k)
          (peers.read_block r.source_addr (record { key = some k; offset = 0; len = 0 }))
  ]
]

unfoldable pub stat : StoreState → StoreStat
stat s = record {
  node_id = s.node_id;
  used_bytes = s.ram_used;
  capacity_bytes = s.ram_budget;
  block_count = length s.blocks;
  read_bytes_total = 0;
  write_bytes_total = 0;
}

-- The calls that change the state, in the order in which the node serves them.
pub data Request : Type 0 where
  reads : ReadBlockReq → Request
  writes : WriteBlockReq → Request
  deletes : Option ProtoBlockKey → Request
  replicates : ReplicateReq → Request
  stats : Request

unfoldable pub step : Peers → StoreState → Request → StoreState
step peers s (reads r) = (read_block s r).1
step peers s (writes r) = (write_block s r).1
step peers s (deletes k) = (delete_block s k).1
step peers s (replicates r) = (replicate peers s r).1
step peers s stats = s

unfoldable pub run : Peers → StoreState → List Request → StoreState
run peers s [] = s
run peers s (r ∷ rs) = run peers (step peers s r) rs
