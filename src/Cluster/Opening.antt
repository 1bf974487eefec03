-- ===== src/Cluster/Opening.antt =====
-- `open` of crates/dtmpfs-client/src/fs.rs against the metadata server: the handle that a mount has
-- then knows the placements, the generation and the size that the server has.
use dtmpfs.Prelude.{◌≡◌, refl, ℕ, String, none, some, arith, nat_eq, List, [], ◌∷◌, map, Tree}
use dtmpfs.Prelude.Ord.{nat_ord}
use dtmpfs.Prelude.HashMap
use dtmpfs.Prelude.BtreeMap
use dtmpfs.Common.Id.{InodeId, BlockIdx, BlockPlacement}
use dtmpfs.Meta.State.{Inode, build_attr, alloc_fh}
use dtmpfs.Meta.Messages.{BlockLoc, placement_to_block_loc}
use dtmpfs.Meta.Handles
use dtmpfs.Meta.Handles.{OpenReq, open_read, open_handle}
use dtmpfs.Meta.Handles.Closing.{inode_at}
use dtmpfs.Client.{OpenFile, Fs, insert_locs, install, build_open_file}
use dtmpfs.Client.Publish.Outcomes.{file_at}
use dtmpfs.Client.Kernel.{answered}
use dtmpfs.Client.Kernel.Opening.{OpenReply, open_file}
use dtmpfs.Client.{Env}
use dtmpfs.Cluster.{Caches, Cluster, cluster_env}

abbrev pub locs_of : Tree BlockIdx BlockPlacement → List BlockLoc
locs_of t = map (λ e. placement_to_block_loc e.0 e.1) t

-- The locations of a sorted map, put into a map, answer what the sorted map does.
insert_locs-get :
    (idx : BlockIdx) (t u : Tree BlockIdx BlockPlacement)
    → BtreeMap.IsSorted t
    → BtreeMap.get idx (insert_locs (locs_of t) u)
      ≡ (elim (BtreeMap.get idx t) [ some p ↦ some p | none ↦ BtreeMap.get idx u ])
unfolding insert_locs placement_to_block_loc BtreeMap.get
insert_locs-get idx [] u sorted = refl
insert_locs-get idx ((j, p) ∷ t) u sorted = ground (
  arith,
  insert_locs-get idx t (BtreeMap.insert j p u) sorted.1,
  BtreeMap.get-insert j idx p u,
  BtreeMap.Before-missing j t sorted.0,
)

-- What the open leaves.
pub record OpensAt {C : Type 0} (ino : InodeId) (t t1 : Fs (Cluster C)) (fh : ℕ) (i : Inode)
    : Type 0 where
  pub handle : OpenFile
  pub found : file_at t1 fh ≡ some handle
  pub ino_same : handle.ino ≡ ino
  pub generation : handle.generation ≡ i.generation
  pub size : handle.size_hint ≡ i.size
  pub clean : handle.dirty ≡ []
  pub block_map : (idx : BlockIdx) → BtreeMap.get idx handle.block_map ≡ BtreeMap.get idx i.blocks
  pub clients : t1.clients ≡ t.clients
  pub addrs : t1.addrs ≡ t.addrs
  pub stores : t1.world.stores ≡ t.world.stores
  pub caches : t1.world.caches ≡ t.world.caches
  pub inodes : t1.world.meta.inodes ≡ t.world.meta.inodes
  pub nodes : t1.world.meta.nodes ≡ t.world.meta.nodes

abbrev pub opened_file : InodeId → Inode → ℕ → OpenFile
opened_file ino i flags = build_open_file ino (build_attr i) (locs_of i.blocks) flags

opened_file-get :
    (ino : InodeId) (flags : ℕ) (i : Inode) (idx : BlockIdx)
    → BtreeMap.IsSorted i.blocks
    → BtreeMap.get idx (opened_file ino i flags).block_map ≡ BtreeMap.get idx i.blocks
unfolding BtreeMap.get build_open_file
opened_file-get ino flags i idx sorted = ground (arith, insert_locs-get idx i.blocks [] sorted)

module _ {C : Type 0} (caches : Caches C) (xxh3 : String → ℕ → ℕ) (token : String) where
  abbrev env : Env (Cluster C)
  env = cluster_env caches xxh3 token

  pub open_file-OpensAt :
      (ino : InodeId) (flags : ℕ) (t : Fs (Cluster C)) (i : Inode) (r : OpenReply)
      → inode_at t.world.meta ino ≡ some i
      → BtreeMap.IsSorted i.blocks
      → (open_file env ino flags t).0 ≡ answered r
      → OpensAt ino t (open_file env ino flags t).1 r.fh i
  unfolding open_file install build_open_file build_attr Handles.open_file open_read open_handle
      alloc_fh
  open_file-OpensAt ino flags t i r there sorted h = record {
    handle = opened_file ino i flags;
    found = ground (
      arith,
      HashMap.get-insert t.world.meta.next_fh r.fh (opened_file ino i flags) t.open_files,
    );
    ino_same = refl;
    generation = refl;
    size = refl;
    clean = refl;
    block_map = λ idx. opened_file-get ino flags i idx sorted;
    clients = ground arith;
    addrs = ground arith;
    stores = ground arith;
    caches = ground arith;
    inodes = ground arith;
    nodes = ground arith;
  }
