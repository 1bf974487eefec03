-- ===== src/Cluster/Heartbeats.antt =====
-- From the heartbeat of a storage node (crates/dtmpfs-store/src/heartbeat.rs) to the address that a
-- mount connects to.
use dtmpfs.Prelude.{
  ℕ, ◌≡◌, refl, String, Option, none, some, List, [], ◌∷◌, Dict, map, keep_if, string_eq, arith,
  ◌==◌, if◌then◌else◌, Bool-cases, inl, inr, ◌∙◌,
}
use text.Mathlib.TextEquality.{eq_iff}
use dtmpfs.Prelude.HashMap
use dtmpfs.Prelude.HashMap.{values, IsMap}
use dtmpfs.Common.Id.{NodeId}
use dtmpfs.Store.{StoreState}
use dtmpfs.Store.Start.{heartbeat_request}
use dtmpfs.Meta.State.{Instant, SystemTime, NodeInfo, MetaState, new, is_up}
use dtmpfs.Meta.Messages.{HeartbeatReq, node_info_to_proto, url_of}
use dtmpfs.Meta.Nodes.{heartbeat_node, list_nodes, reported}
use dtmpfs.Meta.Nodes.Placing.{AreKeyed}
use dtmpfs.Meta.Steps.{Request, run}
use dtmpfs.Meta.Steps.Placements.{AreFiled, run-AreFiled, new-AreFiled, heartbeat_node-AreFiled}
use dtmpfs.Client.{addr_map}

-- The address of a node that is held for up.
abbrev pub addr_in : Option NodeInfo → Option String
addr_in none = none
addr_in (some i) = if is_up i then some (url_of i.addr) else none

abbrev pub first_of : Option String → Option String → Option String
first_of (some a) old = some a
first_of none old = old

addr_map-get :
    (n : NodeId) (d : Dict NodeId NodeInfo) (m : Dict NodeId String)
    → IsMap d
    → AreKeyed d
    → HashMap.get n (addr_map (map node_info_to_proto (keep_if is_up (values d))) m)
      ≡ first_of (addr_in (HashMap.get n d)) (HashMap.get n m)
unfolding addr_map HashMap.get node_info_to_proto
addr_map-get n [] m one keyed = refl
addr_map-get n ((k, i) ∷ d) m one keyed = elim (Bool-cases (is_up i)) [
  | inl h ↦ ground (
    arith,
    addr_map-get n d (HashMap.insert i.node_id (url_of i.addr) m) one.1 keyed.1,
    HashMap.get-insert i.node_id n (url_of i.addr) m,
    eq_iff k n,
    eq_iff i.node_id n,
    one.0,
    keyed.0,
  )
  | inr h ↦ ground (arith, addr_map-get n d m one.1 keyed.1, eq_iff k n, one.0)
]

-- The table of addresses that a mount makes of the answer of `list_nodes`.
abbrev pub table : MetaState → NodeId → Option String
table m n = HashMap.get n (addr_map (list_nodes m) [])

table-addr_in :
    (m : MetaState) (n : NodeId) → AreFiled m → table m n ≡ addr_in (HashMap.get n m.nodes)
unfolding list_nodes HashMap.get
table-addr_in m n f =
    addr_map-get n m.nodes [] f.one_entry f.keyed ∙ first_of_none (addr_in (HashMap.get n m.nodes))
  where
    first_of_none : (o : Option String) → first_of o none ≡ o
    first_of_none none = refl
    first_of_none (some a) = refl

heartbeat-nodes :
    (now : Instant) (m : MetaState) (r : HeartbeatReq) (n : NodeId)
    → HashMap.get n (heartbeat_node now m r).1.nodes
      ≡ (if r.node_id == n then some (reported r) else HashMap.get n m.nodes)
unfolding heartbeat_node
heartbeat-nodes now m r n = HashMap.get-insert r.node_id n (reported r) m.nodes

-- Whatever requests the server has served since its start, after a heartbeat of a storage node the
-- table of addresses that a mount makes of list_nodes has the advertised address for this node,
-- and for every other node what it had before.
pub heartbeat-table :
    (xxh3 : String → ℕ → ℕ) (token : String) (replication_factor : ℕ) (start : SystemTime)
    (rs : List Request) (now : Instant) (st : StoreState) (advertise_addr : String) (epoch_s : ℕ)
    (n : NodeId)
    → let m = run xxh3 token (new replication_factor start) rs in
      let m' = (heartbeat_node now m (heartbeat_request st advertise_addr epoch_s)).1 in
      table m' n ≡ (if st.node_id == n then some (url_of advertise_addr) else table m n)
unfolding heartbeat_request
heartbeat-table xxh3 token replication_factor start rs now st advertise_addr epoch_s n =
    let m = run xxh3 token (new replication_factor start) rs in
    let r = heartbeat_request st advertise_addr epoch_s in
    let f =
      run-AreFiled xxh3 token (new replication_factor start) rs
        (new-AreFiled replication_factor start) in
    let m' = (heartbeat_node now m r).1 in
    let nodes : HashMap.get n m'.nodes
        ≡ (if st.node_id == n then some (reported r) else HashMap.get n m.nodes) =
      heartbeat-nodes now m r n in
    ground
      (arith, table-addr_in m n f, table-addr_in m' n (heartbeat_node-AreFiled now m r f), nodes)
