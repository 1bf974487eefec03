-- ===== src/Cluster/Holding.antt =====
-- What the storage nodes of a cluster hold, and how the calls of a mount change it.
use dtmpfs.Prelude.{
  ◌≡◌, ℕ, String, Option, none, some, arith, nat_eq, string_eq, pair_eq, ◌==◌, ◌&&◌, if◌then◌else◌,
  Option-cases, inl, inr,
}
use dtmpfs.Prelude.HashMap
use text.Mathlib.TextEquality.{eq_iff}
use dtmpfs.Common.Id.{InodeId, BlockIdx, BlockKey, block_key_eq}
use dtmpfs.Common.Error.{done, fail, Status}
use dtmpfs.Store.{
  Bytes, StoreState, ReadBlockReq, WriteBlockReq, ReadBlockResp, write_key, store_block, status,
  read_entry,
}
use dtmpfs.Store
use dtmpfs.Store.Blocks.{answer}
use dtmpfs.Client.Publish.{write_request}
use dtmpfs.Cluster.{Cluster, store_read, store_write}

-- The key under which clients write a block.
abbrev pub key_of : InodeId → BlockIdx → BlockKey
key_of ino idx = record { ino = ino; block_idx = idx; generation = 0 }

abbrev pub held_by : InodeId → BlockIdx → Option StoreState → Option Bytes
held_by ino idx none = none
held_by ino idx (some st) = HashMap.get (key_of ino idx) st.blocks

abbrev pub read_request_of : InodeId → BlockIdx → ReadBlockReq
read_request_of ino idx = record {
  key = some (record { ino = ino; block_idx = idx; generation = 0 });
  offset = 0;
  len = 0;
}

-- Writing to one node.
write_to :
    (st : StoreState) (ino : InodeId) (idx : BlockIdx) (b : Bytes) (n : ℕ)
    → (Store.write_block st (write_request ino idx b)).0 ≡ done n
    → (Store.write_block st (write_request ino idx b)).1 ≡ store_block st (key_of ino idx) b
unfolding Store.write_block write_key
write_to st ino idx b n h = ground arith

write_fails :
    (st : StoreState) (r : WriteBlockReq) (e : Status)
    → (Store.write_block st r).0 ≡ fail e
    → (Store.write_block st r).1 ≡ st
unfolding Store.write_block write_key
write_fails st r e h = ground arith

unfoldable pub held : {C : Type 0} → Cluster C → String → InodeId → BlockIdx → Option Bytes
held c url ino idx = held_by ino idx (HashMap.get url c.stores)

module _ {C : Type 0} (c : Cluster C) where
  pub held-write :
      (url : String) (ino : InodeId) (idx : BlockIdx) (b : Bytes) (n : ℕ) (url' : String)
      (jno : InodeId) (jdx : BlockIdx)
      → (store_write url (write_request ino idx b) c).0 ≡ done n
      → held (store_write url (write_request ino idx b) c).1 url' jno jdx
        ≡ (if url == url' && key_of ino idx == key_of jno jdx then some b else held c url' jno jdx)
  unfolding store_write held store_block
  held-write url ino idx b n url' jno jdx h = elim (Option-cases (HashMap.get url c.stores)) [
    | inl e ↦ absurd (ground arith)
    | inr (st, e) ↦ ground (
      arith,
      eq_iff url url',
      write_to st ino idx b n,
      HashMap.get-insert url url' (Store.write_block st (write_request ino idx b)).1 c.stores,
      HashMap.get-insert (key_of ino idx) (key_of jno jdx) b st.blocks,
    )
  ]

  pub store_write-meta : (url : String) (r : WriteBlockReq) → (store_write url r c).1.meta ≡ c.meta
  unfolding store_write
  store_write-meta url r = ground arith

  -- Reading changes nothing that is held.
  pub store_read-held :
      (url : String) (r : ReadBlockReq) (url' : String) (jno : InodeId) (jdx : BlockIdx)
      → held (store_read url r c).1 url' jno jdx ≡ held c url' jno jdx
  unfolding store_read held Store.read_block
  store_read-held url r url' jno jdx = elim (Option-cases (HashMap.get url c.stores)) [
    | inl e ↦ ground arith
    | inr (st, e) ↦
        ground
          (arith, eq_iff url url', HashMap.get-insert url url' (Store.read_block st r).1 c.stores)
  ]

  -- A block that is held is what a read answers.
  pub store_read-answer :
      (url : String) (ino : InodeId) (idx : BlockIdx) (b : Bytes)
      → held c url ino idx ≡ some b
      → (store_read url (read_request_of ino idx) c).0 ≡ answer (some b)
  unfolding store_read held Store.read_block read_entry
  store_read-answer url ino idx b h = ground arith
