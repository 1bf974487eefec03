-- ===== src/Client/Publish.antt =====
-- `publish` of crates/dtmpfs-client/src/flush.rs, which `flush`, `fsync` and `release` call. The
-- blocks are written one after the other in the order of their numbers, which is one of the orders
-- in which the code may finish them; the first failure ends the call.
pub mod Handles
pub mod Outcomes
use dtmpfs.Prelude.{
  ℕ, ◌/◌, ◌%◌, ◌^◌, ℤ, pos, Bool, true, false, not, Option, none, some, List, [], ◌∷◌, ◌++◌, map,
  Tree, keep_if, is_empty, if◌then◌else◌, nat_eq,
}
use dtmpfs.Prelude.Ord.{nat_ord}
use dtmpfs.Prelude.HashMap
use dtmpfs.Prelude.BtreeMap
use dtmpfs.Common.Id.{InodeId, Generation, BlockIdx, NodeId, BlockPlacement}
use dtmpfs.Common.Error.{Result, done, fail, missing, from_status}
use dtmpfs.Store.{Bytes, WriteBlockReq}
use dtmpfs.Meta.State.{Attr, seconds, nanos}
use dtmpfs.Meta.Messages.{CloseReq}
use dtmpfs.Client.{
  OpenFile, FsResult, returned, failed, Env, Fs, FsReply, Task, with_world, refresh_addrs, pool_get,
  insert_locs,
}
use dtmpfs.Client.Write.{WriteReply}

pub data WaitPolicy : Type 0 where
  primaries_only all_replicas : WaitPolicy

abbrev pub write_request : InodeId → BlockIdx → Bytes → WriteBlockReq
write_request ino idx bytes = record {
  key = some (record { ino = ino; block_idx = idx; generation = 0 });
  bytes = bytes;
}

-- The blocks that are written but have no placement yet.
unfoldable pub new_idxs : OpenFile → List BlockIdx
new_idxs o = keep_if (λ i. not (BtreeMap.contains_key i o.block_map)) (map (λ e. e.0) o.dirty)

abbrev pub generation_or : Option Attr → Generation → Generation
generation_or none g = g
generation_or (some a) g = a.generation

module _ {W : Type 0} (env : Env W) where
  unfoldable pub write_one : InodeId → BlockIdx → Bytes → NodeId → Fs W → FsReply W (Unit {0})
  unfolding pool_get
  write_one ino idx bytes n s =
      let (client, s1) = pool_get env n s in
      elim client [
        | failed e ↦ (failed e, s1)
        | returned c ↦
            let (answer, w) = env.write_block c (write_request ino idx bytes) s1.world in
            elim answer [
              | done _ ↦ (returned tt, with_world s1 w)
              | fail e ↦ (failed (from_status e (some n)), with_world s1 w)
            ]
      ]

  -- The replicas one after the other, up to the first failure.
  unfoldable pub write_all : InodeId → BlockIdx → Bytes → List NodeId → Fs W → FsReply W (Unit {0})
  unfolding write_one
  write_all ino idx bytes [] s = (returned tt, s)
  write_all ino idx bytes (n ∷ ns) s =
      let (answer, s1) = write_one ino idx bytes n s in
      elim answer [ failed e ↦ (failed e, s1) | returned _ ↦ write_all ino idx bytes ns s1 ]

  unfoldable pub write_replicas :
      WaitPolicy → InodeId → BlockIdx → Bytes → List NodeId → Fs W → FsReply W (Unit {0})
  unfolding write_all
  write_replicas all_replicas ino idx bytes ns s = write_all ino idx bytes ns s
  write_replicas primaries_only ino idx bytes ns s =
      let task : NodeId → Task = λ n. record { node = n; request = write_request ino idx bytes } in
      (returned tt, record s { tasks = s.tasks ++ map task ns })

  unfoldable pub write_placed :
      WaitPolicy → InodeId → BlockIdx → Bytes → BlockPlacement → Fs W → FsReply W (Unit {0})
  unfolding write_one write_replicas
  write_placed wait ino idx bytes p s =
      let (answer, s1) = write_one ino idx bytes p.primary s in
      elim answer [
        | failed e ↦ (failed e, s1)
        | returned _ ↦ write_replicas wait ino idx bytes p.replicas s1
      ]

  unfoldable pub write_blocks :
      WaitPolicy
      → InodeId
      → Tree BlockIdx BlockPlacement
      → Tree BlockIdx Bytes
      → Fs W
      → FsReply W (Unit {0})
  unfolding write_placed
  write_blocks wait ino block_map [] s = (returned tt, s)
  write_blocks wait ino block_map ((idx, buf) ∷ dirty) s = elim (BtreeMap.get idx block_map) [
    | none ↦ (failed missing, s)
    | some p ↦
        let (answer, s1) = write_placed wait ino idx buf p s in
        elim answer [
          | failed e ↦ (failed e, s1)
          | returned _ ↦ write_blocks wait ino block_map dirty s1
        ]
  ]

  -- Step 1: placements for the new blocks.
  unfoldable pub allocate : OpenFile → Fs W → WriteReply W (Unit {0})
  unfolding new_idxs insert_locs
  allocate o s =
      if is_empty (new_idxs o)
      then (returned tt, o, s)
      else (let (answer, w) = env.allocate_blocks o.ino (new_idxs o) s.world in
          elim answer [
            | fail e ↦ (failed (from_status e none), o, with_world s w)
            | done locs ↦
                (returned tt, record o { block_map = insert_locs locs o.block_map }, with_world s w)
          ])

  abbrev pub close_request : ℕ → OpenFile → List BlockIdx → W → CloseReq
  close_request fh o written w = record {
    fh = fh;
    ino = o.ino;
    expected_generation = o.generation;
    new_size = o.size_hint;
    written_block_idxs = written;
    mtime_s = seconds (env.now w);
    mtime_ns = nanos (env.now w);
  }

  -- Steps 3 and 4: the close, and the cache that it makes stale.
  unfoldable pub finish : ℕ → OpenFile → List BlockIdx → Fs W → WriteReply W (Unit {0})
  finish fh o written s =
      let (answer, w) = env.close (close_request fh o written s.world) s.world in
      elim answer [
        | fail e ↦ (failed (from_status e none), o, with_world s w)
        | done a ↦
            let g = generation_or a o.generation in
            (returned tt, record o { generation = g }, with_world s (env.cache_prune o.ino g w))
      ]

  -- Step 2 and what follows it: the written blocks leave the handle before any of them is sent.
  unfoldable pub send : WaitPolicy → ℕ → OpenFile → Fs W → WriteReply W (Unit {0})
  unfolding write_blocks finish
  send wait fh o s =
      let o1 : OpenFile = record o { dirty = [] } in
      let (answer, s1) = write_blocks wait o.ino o.block_map o.dirty s in
      elim answer [
        | failed e ↦ (failed e, o1, s1)
        | returned _ ↦ finish fh o1 (map (λ e. e.0) o.dirty) s1
      ]

  -- Step 0: the addresses of the nodes; then the others.
  unfoldable pub publish_file : WaitPolicy → ℕ → OpenFile → Fs W → WriteReply W (Unit {0})
  unfolding allocate send
  publish_file wait fh o s =
      let (nodes, w) = env.list_nodes s.world in
      elim nodes [
        | fail e ↦ (failed (from_status e none), o, with_world s w)
        | done l ↦
            let (answer, o1, s1) = allocate o (refresh_addrs l (with_world s w)) in
            elim answer [ failed e ↦ (failed e, o1, s1) | returned _ ↦ send wait fh o1 s1 ]
      ]

  unfoldable pub publish : WaitPolicy → ℕ → Fs W → FsReply W (Unit {0})
  unfolding publish_file
  publish wait fh s = elim (HashMap.get fh s.open_files) [
    | none ↦ (failed missing, s)
    | some o ↦
        if is_empty o.dirty
        then (returned tt, s)
        else (let (answer, o1, s1) = publish_file wait fh o s in
            (answer, record s1 { open_files = HashMap.update fh (λ _. o1) s1.open_files }))
  ]

  -- `flush` and `fsync`, and `release`, which forgets the handle where it succeeds.
  unfoldable pub flush_path : ℕ → Fs W → FsReply W (Unit {0})
  unfolding publish
  flush_path fh s = publish primaries_only fh s

  unfoldable pub fsync_path : ℕ → Fs W → FsReply W (Unit {0})
  unfolding publish
  fsync_path fh s = publish all_replicas fh s

  unfoldable pub release : ℕ → Fs W → FsReply W (Unit {0})
  unfolding flush_path
  release fh s =
      let (answer, s1) = flush_path fh s in
      elim answer [
        | failed e ↦ (failed e, s1)
        | returned _ ↦ (returned tt, record s1 { open_files = HashMap.remove fh s1.open_files })
      ]

  -- A spawned write, when its turn comes.
  unfoldable pub run_task : Fs W → Fs W
  unfolding write_one
  run_task s = elim s.tasks [
    | [] ↦ s
    | t ∷ ts ↦
        let s1 : Fs W = record s { tasks = ts } in
        elim t.request.key [
          | none ↦ s1
          | some k ↦ (write_one k.ino k.block_idx t.request.bytes t.node s1).1
        ]
  ]
