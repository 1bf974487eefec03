-- ===== src/Store/Start.antt =====
-- crates/dtmpfs-store/src/main.rs and crates/dtmpfs-store/src/heartbeat.rs: the state that a storage
-- node starts with, and the heartbeat that it sends once a second.
use dtmpfs.Prelude.{ℕ, String, Option, none, some}
use dtmpfs.Common.Config.{Config, StoreConfig, meta, store, client}
use dtmpfs.Store.{StoreState, new}
use dtmpfs.Meta.Messages.{HeartbeatReq}

unfoldable pub expect_store : Config → Option StoreConfig
expect_store (store c) = some c
expect_store (meta c) = none
expect_store (client c) = none

-- What `main` starts.
pub record StoreServer : Type 0 where
  pub state : StoreState
  pub advertise_addr : String
  pub debug : Option String
  pub token : String
  pub listen : String

unfoldable pub start : StoreConfig → StoreServer
unfolding new
start c = record {
  state = new c.node_id c.meta_addr c.ram_budget_bytes;
  advertise_addr = c.advertise_addr;
  debug = c.debug_http_listen;
  token = c.cluster_token;
  listen = c.listen;
}

-- The heartbeat; `epoch_s` is the second in which the sender began.
unfoldable pub heartbeat_request : StoreState → String → ℕ → HeartbeatReq
heartbeat_request s advertise_addr epoch_s = record {
  node_id = s.node_id;
  addr = advertise_addr;
  used_bytes = s.ram_used;
  capacity_bytes = s.ram_budget;
  epoch_s = epoch_s;
}
