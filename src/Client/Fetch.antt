-- ===== src/Client/Fetch.antt =====
-- `fetch_block` of crates/dtmpfs-client/src/fs.rs: a block comes from the written blocks of the
-- handle, from the cache, or from the first node that answers.
use dtmpfs.Prelude.{
  ℕ, Bool, true, false, none, some, List, [], ◌∷◌, replicate, is_empty, if◌then◌else◌,
}
use dtmpfs.Prelude.Ord.{nat_ord}
use dtmpfs.Prelude.BtreeMap
use dtmpfs.Common.Id.{BlockIdx, NodeId}
use dtmpfs.Common.Error.{Code, done, fail, not_found, DtmpfsError, store_unavailable, missing}
use dtmpfs.Store.{Bytes, ReadBlockReq}
use dtmpfs.Client.{
  OpenFile, returned, failed, Env, Fs, FsReply, with_world, refresh_addrs, evict, pool_get,
}

abbrev pub is_not_found : Code → Bool
is_not_found c = elim c [ not_found ↦ true | _ ↦ false ]

abbrev pub read_request : OpenFile → BlockIdx → ReadBlockReq
read_request o idx = record {
  key = some (record { ino = o.ino; block_idx = idx; generation = 0 });
  offset = 0;
  len = 0;
}

module _ {W : Type 0} (env : Env W) (block_size : ℕ) where
  -- A table of addresses that is empty is asked for; an error leaves it so.
  unfoldable pub ensure_addrs : Fs W → Fs W
  ensure_addrs s =
      if is_empty s.addrs
      then (let (nodes, w) = env.list_nodes s.world in
          elim nodes [ done l ↦ refresh_addrs l (with_world s w) | fail e ↦ with_world s w ])
      else s

  -- The loop over the nodes that hold the block.
  unfoldable pub try_nodes :
      OpenFile → BlockIdx → List NodeId → DtmpfsError → Fs W → FsReply W Bytes
  unfolding pool_get evict
  try_nodes o idx [] last_err s = (failed last_err, s)
  try_nodes o idx (n ∷ ns) last_err s =
      let (client, s1) = pool_get env n s in
      elim client [
        | failed e ↦ try_nodes o idx ns e s1
        | returned c ↦
            let (answer, w) = env.read_block c (read_request o idx) s1.world in
            elim answer [
              | done resp ↦ (
                returned resp.bytes,
                with_world s1 (env.cache_insert o.ino o.generation idx resp.bytes w),
              )
              | fail e ↦ elim (is_not_found e.code) [
                | true ↦ (returned (replicate block_size 0), with_world s1 w)
                | false ↦ try_nodes o idx ns (store_unavailable n) (evict n (with_world s1 w))
              ]
            ]
      ]

  unfoldable pub fetch_placed : OpenFile → BlockIdx → Fs W → FsReply W Bytes
  unfolding try_nodes
  fetch_placed o idx s = elim (BtreeMap.get idx o.block_map) [
    | none ↦ (failed missing, s)
    | some p ↦ try_nodes o idx (p.primary ∷ p.replicas) (store_unavailable p.primary) s
  ]

  unfoldable pub fetch_block : OpenFile → BlockIdx → Fs W → FsReply W Bytes
  unfolding fetch_placed ensure_addrs
  fetch_block o idx s = elim (BtreeMap.get idx o.dirty) [
    | some buf ↦ (returned buf, s)
    | none ↦
        let (hit, w) = env.cache_get o.ino o.generation idx s.world in
        elim hit [
          | some b ↦ (returned b, with_world s w)
          | none ↦ fetch_placed o idx (ensure_addrs (with_world s w))
        ]
  ]
