-- ===== src/Meta/Messages.antt =====
-- proto/meta.proto: the messages of the metadata service, and the helpers of
-- crates/dtmpfs-meta/src/service.rs that build them.
use Prim.Native.String.{◌++◌ as ◌+s◌}
use mathlib.Core.List.{◌++◌}
use dtmpfs.Prelude.{ℕ, String, ℤ, Bool, Option, none, some, List, [], ◌∷◌, Dict, string_eq}
use dtmpfs.Prelude.HashMap
use dtmpfs.Prelude.HashMap.{values}
use dtmpfs.Common.Id.{InodeId, BlockIdx, NodeId, BlockPlacement, InodeKind, file, dir, symlink}
use dtmpfs.Common.Error.{Status, Result, not_found}
use dtmpfs.Store.{ProtoBlockKey, status}
use dtmpfs.Meta.State.{MetaState, Attr, Name, NodeInfo, up, down}

pub record BlockLoc : Type 0 where
  pub block_idx : ℕ
  pub primary : String
  pub replicas : List String

pub record DirEntry : Type 0 where
  pub name : Name
  pub ino : ℕ
  pub kind : ℕ

-- The status of a node is the number of its enumerator.
pub record ProtoNodeInfo : Type 0 where
  pub node_id : String
  pub addr : String
  pub status : ℕ
  pub used_bytes : ℕ
  pub capacity_bytes : ℕ
  pub last_heartbeat_s : ℕ

pub record SetAttrReq : Type 0 where
  pub ino : ℕ
  pub size : Option ℕ
  pub mode : Option ℕ
  pub uid : Option ℕ
  pub gid : Option ℕ
  pub atime_s : Option ℤ
  pub atime_ns : Option ℕ
  pub mtime_s : Option ℤ
  pub mtime_ns : Option ℕ

-- `CreateReq` and `MkdirReq`.
pub record CreateReq : Type 0 where
  pub parent_ino : ℕ
  pub name : Name
  pub mode : ℕ
  pub uid : ℕ
  pub gid : ℕ

pub record CreateResp : Type 0 where
  pub attr : Option Attr
  pub fh : ℕ
  pub block_map : List BlockLoc

pub record RenameReq : Type 0 where
  pub src_parent_ino : ℕ
  pub src_name : Name
  pub dst_parent_ino : ℕ
  pub dst_name : Name

pub record ReadDirReq : Type 0 where
  pub ino : ℕ
  pub cookie : List ℕ
  pub max_entries : ℕ

pub record ReadDirResp : Type 0 where
  pub entries : List DirEntry
  pub next_cookie : List ℕ
  pub eof : Bool

pub record CloseReq : Type 0 where
  pub fh : ℕ
  pub ino : ℕ
  pub expected_generation : ℕ
  pub new_size : ℕ
  pub written_block_idxs : List ℕ
  pub mtime_s : ℤ
  pub mtime_ns : ℕ

pub record HeartbeatReq : Type 0 where
  pub node_id : String
  pub addr : String
  pub used_bytes : ℕ
  pub capacity_bytes : ℕ
  pub epoch_s : ℕ

-- What a handler answers, beside the state that it leaves.
abbrev pub Reply : Type 0 → Type 0
Reply A = Result A × MetaState

abbrev pub inode_not_found : Status
inode_not_found = status not_found "inode not found"

unfoldable pub placement_to_block_loc : BlockIdx → BlockPlacement → BlockLoc
placement_to_block_loc idx p = record {
  block_idx = idx;
  primary = p.primary;
  replicas = p.replicas;
}

unfoldable pub kind_u32 : InodeKind → ℕ
kind_u32 file = 1
kind_u32 dir = 2
kind_u32 symlink = 3

unfoldable pub node_info_to_proto : NodeInfo → ProtoNodeInfo
node_info_to_proto n = record {
  node_id = n.node_id;
  addr = n.addr;
  status = elim n.status [ up ↦ 1 | down ↦ 2 ];
  used_bytes = n.ram_used;
  capacity_bytes = n.ram_total;
  last_heartbeat_s = 0;
}

-- A `DeleteBlock` call that a task of its own sends to a storage node.
pub record DeleteCall : Type 0 where
  pub addr : String
  pub key : ProtoBlockKey
  pub token : String

abbrev pub url_of : String → String
url_of addr = ◌+s◌ "http://" addr

collect_addrs : List NodeInfo → Dict NodeId String → Dict NodeId String
collect_addrs [] m = m
collect_addrs (n ∷ ns) m = collect_addrs ns (HashMap.insert n.node_id (url_of n.addr) m)

unfoldable pub node_addrs : MetaState → Dict NodeId String
unfolding collect_addrs
node_addrs s = collect_addrs (values s.nodes) []

-- The calls for one block, over the nodes that hold it and have an address.
unfoldable pub delete_calls :
    Dict NodeId String → InodeId → String → BlockIdx → List NodeId → List DeleteCall
delete_calls addrs ino token idx [] = []
delete_calls addrs ino token idx (n ∷ ns) =
    let rest = delete_calls addrs ino token idx ns in
    elim (HashMap.get n addrs) [
      | none ↦ rest
      | some addr ↦
          record {
            addr = addr;
            key = record { ino = ino; block_idx = idx; generation = 0 };
            token = token;
          }
          ∷ rest
    ]

unfoldable pub fire_delete_blocks :
    List (BlockIdx × BlockPlacement) → Dict NodeId String → InodeId → String → List DeleteCall
unfolding delete_calls
fire_delete_blocks [] addrs ino token = []
fire_delete_blocks ((idx, p) ∷ blocks) addrs ino token =
    delete_calls addrs ino token idx (p.primary ∷ p.replicas)
    ++ fire_delete_blocks blocks addrs ino token
