-- ===== src/Client.antt =====
-- crates/dtmpfs-client: the state of a mount (fs.rs, open_file.rs, client.rs), and how it opens
-- files. What lies outside is an `Env`: the cache of blocks, the connections, and the two services,
-- which work on a world of any type.
pub mod Attrs
pub mod Fetch
pub mod Write
pub mod Read
pub mod Publish
pub mod Dirty
pub mod Rounds
pub mod Readdir
pub mod Names
pub mod Kernel
pub mod Start
mod Examples
mod KernelExamples
use dtmpfs.Prelude.{
  ℕ, String, Bool, if◌then◌else◌, Option, none, some, List, [], ◌∷◌, Dict, Tree, ◌≡◌, refl, ◌⊎◌,
  inl, inr, nat_eq, string_eq,
}
use dtmpfs.Prelude.Ord.{nat_ord}
use dtmpfs.Prelude.HashMap
use dtmpfs.Prelude.BtreeMap
use dtmpfs.Common.Id.{InodeId, Generation, BlockIdx, NodeId, BlockPlacement}
use dtmpfs.Common.Error.{Result, DtmpfsError, store_unavailable}
use dtmpfs.Store.{Bytes, ReadBlockReq, ReadBlockResp, WriteBlockReq}
use dtmpfs.Meta.State.{SystemTime, Instant, Name, Attr}
use dtmpfs.Meta.Messages.{
  BlockLoc, ReadDirReq, ReadDirResp, ProtoNodeInfo, CreateResp, CloseReq, SetAttrReq, CreateReq,
  RenameReq, url_of,
}
use dtmpfs.Meta.Handles.{OpenReq}
use dtmpfs.Client.Attrs.{CachedAttr}

pub record OpenFile : Type 0 where
  pub ino : InodeId
  pub generation : Generation
  pub block_map : Tree BlockIdx BlockPlacement
  pub dirty : Tree BlockIdx Bytes
  pub size_hint : ℕ
  pub flags : ℕ

-- `Result<T, DtmpfsError>`
pub data FsResult (A : Type 0) : Type 0 where
  returned : A → FsResult A
  failed : DtmpfsError → FsResult A

pub FsResult-cases :
    {A : Type 0} (r : FsResult A)
    → ((a : A) × (r ≡ returned a)) ⊎ ((e : DtmpfsError) × (r ≡ failed e))
FsResult-cases (returned a) = inl (a, refl)
FsResult-cases (failed e) = inr (e, refl)

-- A channel is named by the address that it is connected to.
abbrev pub Channel : Type 0
Channel = String

-- The world outside: each call gives its answer and the world after it.
pub record Env (W : Type 0) : Type 0 where
  pub cache_get : InodeId → Generation → BlockIdx → W → Option Bytes × W
  pub cache_insert : InodeId → Generation → BlockIdx → Bytes → W → W
  -- `invalidate_entries_if` for the entries of an inode with an older generation
  pub cache_prune : InodeId → Generation → W → W
  pub connect : String → W → Bool × W
  pub read_block : Channel → ReadBlockReq → W → Result ReadBlockResp × W
  pub write_block : Channel → WriteBlockReq → W → Result ℕ × W
  pub read_dir : ReadDirReq → W → Result ReadDirResp × W
  pub list_nodes : W → Result (List ProtoNodeInfo) × W
  pub allocate_blocks : InodeId → List BlockIdx → W → Result (List BlockLoc) × W
  pub close : CloseReq → W → Result (Option Attr) × W
  pub now : W → SystemTime
  pub lookup : InodeId → Name → W → Result (Option Attr) × W
  pub get_attr : InodeId → W → Result Attr × W
  pub set_attr : SetAttrReq → W → Result (Option Attr) × W
  pub create : CreateReq → W → Result CreateResp × W
  pub open_inode : OpenReq → W → Result CreateResp × W
  pub mkdir : CreateReq → W → Result Attr × W
  pub unlink : InodeId → Name → W → Result (Unit {0}) × W
  pub rmdir : InodeId → Name → W → Result (Unit {0}) × W
  pub rename : RenameReq → W → Result (Unit {0}) × W
  pub attr_get : InodeId → W → Option CachedAttr × W
  pub attr_insert : InodeId → CachedAttr → W → W
  -- `Instant::now`
  pub instant : W → Instant

-- A write that a task of its own sends, and whose outcome nobody looks at.
pub record Task : Type 0 where
  pub node : NodeId
  pub request : WriteBlockReq

-- `DtmpfsFs` with its `StoreClientPool`, the tasks that it has spawned, and the world as this mount
-- meets it: its two caches, which a library keeps, are a part of that world and no other mount's.
pub record Fs (W : Type 0) : Type 0 where
  pub clients : Dict NodeId Channel
  pub addrs : Dict NodeId String
  pub open_files : Dict ℕ OpenFile
  pub tasks : List Task
  pub world : W

abbrev pub FsReply : Type 0 → Type 0 → Type 0
FsReply W A = FsResult A × Fs W

-- The table of addresses that the answer of `list_nodes` is collected into.
unfoldable pub addr_map : List ProtoNodeInfo → Dict NodeId String → Dict NodeId String
addr_map [] m = m
addr_map (n ∷ ns) m = addr_map ns (HashMap.insert n.node_id (url_of n.addr) m)

-- The placements that an answer lists, put into a map of blocks.
unfoldable pub insert_locs :
    List BlockLoc → Tree BlockIdx BlockPlacement → Tree BlockIdx BlockPlacement
insert_locs [] t = t
insert_locs (l ∷ ls) t =
    let placement : BlockPlacement = record { primary = l.primary; replicas = l.replicas } in
    insert_locs ls (BtreeMap.insert l.block_idx placement t)

unfoldable pub build_open_file : InodeId → Attr → List BlockLoc → ℕ → OpenFile
unfolding insert_locs
build_open_file ino a locs flags = record {
  ino = ino;
  generation = a.generation;
  block_map = insert_locs locs [];
  dirty = [];
  size_hint = a.size;
  flags = flags;
}

module _ {W : Type 0} where
  abbrev pub with_world : Fs W → W → Fs W
  with_world s w = record s { world = w }

  -- `refresh_addrs` and `evict` of the pool
  unfoldable pub refresh_addrs : List ProtoNodeInfo → Fs W → Fs W
  unfolding addr_map
  refresh_addrs nodes s = record s { addrs = addr_map nodes [] }

  unfoldable pub evict : NodeId → Fs W → Fs W
  evict n s = record s { clients = HashMap.remove n s.clients }

  module _ (env : Env W) where
    unfoldable pub connect_to : NodeId → String → Fs W → FsReply W Channel
    connect_to n addr s =
        let (connected, w) = env.connect addr s.world in
        if connected
        then (returned addr, record s { clients = HashMap.insert n addr s.clients; world = w })
        else (failed (store_unavailable n), with_world s w)

    -- `StoreClientPool::get`
    unfoldable pub pool_get : NodeId → Fs W → FsReply W Channel
    unfolding connect_to
    pool_get n s = elim (HashMap.get n s.clients) [
      | some c ↦ (returned c, s)
      | none ↦ elim (HashMap.get n s.addrs) [
        | none ↦ (failed (store_unavailable n), s)
        | some addr ↦ connect_to n addr s
      ]
    ]

    -- `open` and `create` once the metadata server has answered.
    unfoldable pub install : InodeId → ℕ → ℕ → Attr → List BlockLoc → Fs W → Fs W
    unfolding build_open_file
    install ino fh flags a locs s = record s {
      open_files = HashMap.insert fh (build_open_file ino a locs flags) s.open_files;
    }
