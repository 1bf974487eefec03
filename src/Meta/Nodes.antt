-- ===== src/Meta/Nodes.antt =====
-- `heartbeat_node` and `list_nodes` of crates/dtmpfs-meta/src/service.rs.
pub mod Ordering
pub mod Watching
pub mod Placing
use dtmpfs.Prelude.{List, map, keep_if, string_eq}
use dtmpfs.Prelude.HashMap
use dtmpfs.Prelude.HashMap.{values}
use dtmpfs.Meta.State.{Instant, MetaState, NodeInfo, up, is_up}
use dtmpfs.Meta.Messages.{HeartbeatReq, ProtoNodeInfo, node_info_to_proto}

abbrev pub reported : HeartbeatReq → NodeInfo
reported r = record {
  node_id = r.node_id;
  addr = r.addr;
  ram_used = r.used_bytes;
  ram_total = r.capacity_bytes;
  status = up;
}

-- The answer lists every node, the ones that are down too.
unfoldable pub heartbeat_node : Instant → MetaState → HeartbeatReq → List ProtoNodeInfo × MetaState
unfolding node_info_to_proto
heartbeat_node now s r =
    let nodes = HashMap.insert r.node_id (reported r) s.nodes in
    (
      map node_info_to_proto (values nodes),
      record s { nodes = nodes; last_heartbeat = HashMap.insert r.node_id now s.last_heartbeat },
    )

unfoldable pub list_nodes : MetaState → List ProtoNodeInfo
unfolding node_info_to_proto
list_nodes s = map node_info_to_proto (keep_if is_up (values s.nodes))
