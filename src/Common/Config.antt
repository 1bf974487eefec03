-- ===== src/Common/Config.antt =====
-- crates/dtmpfs-common/src/config.rs: the three configurations and their defaults. A table that toml
-- has read has each field that may be absent as an option.
use dtmpfs.Prelude.{ℕ, ◌^◌, String, Bool, true, false, Option, none, some, unwrap_or}
use dtmpfs.Common.Id.{NodeId}

pub record MetaConfig : Type 0 where
  pub node_id : NodeId
  pub listen : String
  pub cluster_token : String
  pub replication_factor : ℕ
  pub block_size : ℕ
  pub heartbeat_timeout_ms : ℕ
  pub max_open_handles : ℕ
  pub gc_interval_ms : Option ℕ
  pub debug_http_listen : Option String

pub record StoreConfig : Type 0 where
  pub node_id : NodeId
  pub listen : String
  pub advertise_addr : String
  pub meta_addr : String
  pub cluster_token : String
  pub ram_budget_bytes : ℕ
  pub debug_http_listen : Option String

pub record ClientMountOptions : Type 0 where
  pub allow_other : Bool
  pub default_permissions : Bool
  pub auto_unmount : Bool
  pub no_atime : Bool

pub record ClientConfig : Type 0 where
  pub node_id : NodeId
  pub mount_point : String
  pub meta_addr : String
  pub cluster_token : String
  pub block_size : ℕ
  pub replication_factor : ℕ
  pub attr_cache_ttl_ms : ℕ
  pub block_cache_capacity_mb : ℕ
  pub fuse_threads : ℕ
  pub tokio_worker_threads : Option ℕ
  pub keepalive_interval_secs : ℕ
  pub rpc_timeout_ms : ℕ
  pub write_rpc_timeout_ms : ℕ
  pub mount_options : ClientMountOptions

pub data Config : Type 0 where
  meta : MetaConfig → Config
  store : StoreConfig → Config
  client : ClientConfig → Config

abbrev pub d_replication : ℕ
d_replication = 1

abbrev pub d_block_size : ℕ
d_block_size = 2 ^ 20

abbrev pub d_heartbeat_timeout_ms : ℕ
d_heartbeat_timeout_ms = 5000

abbrev pub d_attr_ttl_ms : ℕ
d_attr_ttl_ms = 1000

abbrev pub d_block_cache_mb : ℕ
d_block_cache_mb = 1024

abbrev pub d_fuse_threads : ℕ
d_fuse_threads = 4

abbrev pub d_max_open_handles : ℕ
d_max_open_handles = 100_000

abbrev pub d_keepalive_secs : ℕ
d_keepalive_secs = 30

abbrev pub d_rpc_timeout_ms : ℕ
d_rpc_timeout_ms = 5000

abbrev pub d_write_rpc_timeout_ms : ℕ
d_write_rpc_timeout_ms = 30_000

abbrev pub d_true : Bool
d_true = true

-- The table `mount_options`.
pub record MountOptionsTable : Type 0 where
  pub allow_other : Option Bool
  pub default_permissions : Option Bool
  pub auto_unmount : Option Bool
  pub no_atime : Option Bool

unfoldable pub mount_options_of : MountOptionsTable → ClientMountOptions
mount_options_of t = record {
  allow_other = unwrap_or t.allow_other d_true;
  default_permissions = unwrap_or t.default_permissions d_true;
  auto_unmount = unwrap_or t.auto_unmount d_true;
  no_atime = unwrap_or t.no_atime d_true;
}

-- The derived `Default`, which takes `bool::default` for each field.
abbrev pub default_mount_options : ClientMountOptions
default_mount_options = record {
  allow_other = false;
  default_permissions = false;
  auto_unmount = false;
  no_atime = false;
}

pub record MetaTable : Type 0 where
  pub node_id : NodeId
  pub listen : String
  pub cluster_token : String
  pub replication_factor : Option ℕ
  pub block_size : Option ℕ
  pub heartbeat_timeout_ms : Option ℕ
  pub max_open_handles : Option ℕ
  pub gc_interval_ms : Option ℕ
  pub debug_http_listen : Option String

unfoldable pub meta_config : MetaTable → MetaConfig
meta_config t = record {
  node_id = t.node_id;
  listen = t.listen;
  cluster_token = t.cluster_token;
  replication_factor = unwrap_or t.replication_factor d_replication;
  block_size = unwrap_or t.block_size d_block_size;
  heartbeat_timeout_ms = unwrap_or t.heartbeat_timeout_ms d_heartbeat_timeout_ms;
  max_open_handles = unwrap_or t.max_open_handles d_max_open_handles;
  gc_interval_ms = t.gc_interval_ms;
  debug_http_listen = t.debug_http_listen;
}

pub record ClientTable : Type 0 where
  pub node_id : NodeId
  pub mount_point : String
  pub meta_addr : String
  pub cluster_token : String
  pub block_size : Option ℕ
  pub replication_factor : Option ℕ
  pub attr_cache_ttl_ms : Option ℕ
  pub block_cache_capacity_mb : Option ℕ
  pub fuse_threads : Option ℕ
  pub tokio_worker_threads : Option ℕ
  pub keepalive_interval_secs : Option ℕ
  pub rpc_timeout_ms : Option ℕ
  pub write_rpc_timeout_ms : Option ℕ
  pub mount_options : Option MountOptionsTable

abbrev pub mount_options_or_default : Option MountOptionsTable → ClientMountOptions
mount_options_or_default none = default_mount_options
mount_options_or_default (some t) = mount_options_of t

unfoldable pub client_config : ClientTable → ClientConfig
unfolding mount_options_of
client_config t = record {
  node_id = t.node_id;
  mount_point = t.mount_point;
  meta_addr = t.meta_addr;
  cluster_token = t.cluster_token;
  block_size = unwrap_or t.block_size d_block_size;
  replication_factor = unwrap_or t.replication_factor d_replication;
  attr_cache_ttl_ms = unwrap_or t.attr_cache_ttl_ms d_attr_ttl_ms;
  block_cache_capacity_mb = unwrap_or t.block_cache_capacity_mb d_block_cache_mb;
  fuse_threads = unwrap_or t.fuse_threads d_fuse_threads;
  tokio_worker_threads = t.tokio_worker_threads;
  keepalive_interval_secs = unwrap_or t.keepalive_interval_secs d_keepalive_secs;
  rpc_timeout_ms = unwrap_or t.rpc_timeout_ms d_rpc_timeout_ms;
  write_rpc_timeout_ms = unwrap_or t.write_rpc_timeout_ms d_write_rpc_timeout_ms;
  mount_options = mount_options_or_default t.mount_options;
}
