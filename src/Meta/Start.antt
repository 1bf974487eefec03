-- ===== src/Meta/Start.antt =====
-- crates/dtmpfs-meta/src/main.rs and crates/dtmpfs-meta/src/debug.rs: the state that a server starts
-- with, and what it tells of its state.
use dtmpfs.Prelude.{ℕ, ◌*◌, ◌^◌, Option, none, some, List, String, length}
use dtmpfs.Prelude.HashMap.{keys}
use dtmpfs.Common.Id.{NodeId}
use dtmpfs.Common.Config.{Config, MetaConfig, meta, store, client}
use dtmpfs.Meta.State.{SystemTime, MetaState, new}

unfoldable pub expect_meta : Config → Option MetaConfig
expect_meta (meta c) = some c
expect_meta (store c) = none
expect_meta (client c) = none

-- What `main` starts: the state, the limit of the watcher in nanoseconds, and the address of the
-- debug endpoint.
pub record MetaServer : Type 0 where
  pub state : MetaState
  pub dead_after : ℕ
  pub debug : Option String
  pub token : String
  pub listen : String

unfoldable pub start : MetaConfig → SystemTime → MetaServer
unfolding new
start c now = record {
  state = new c.replication_factor now;
  dead_after = c.heartbeat_timeout_ms * 10 ^ 6;
  debug = c.debug_http_listen;
  token = c.cluster_token;
  listen = c.listen;
}

pub record DebugState : Type 0 where
  pub inodes : ℕ
  pub open_handles : ℕ
  pub nodes : List NodeId

unfoldable pub debug_state : MetaState → DebugState
debug_state s = record {
  inodes = length s.inodes;
  open_handles = length s.open_handles;
  nodes = keys s.nodes;
}
