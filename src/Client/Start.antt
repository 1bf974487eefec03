-- ===== src/Client/Start.antt =====
-- crates/dtmpfs-client/src/main.rs and the builders of crates/dtmpfs-client/src/cache.rs: what a
-- configuration makes of a mount. The runtime, the connection and fuser are outside.
use dtmpfs.Prelude.{
  ℕ, ◌*◌, ◌%◌, String, Bool, Option, none, some, List, [], ◌∷◌, ◌++◌, ltb, length, if◌then◌else◌,
}
use dtmpfs.Common.Id.{u64_mod, u32_mod}
use dtmpfs.Common.Config.{Config, meta, store, client, ClientConfig, ClientMountOptions}
use dtmpfs.Store.{Bytes}
use dtmpfs.Client.{Fs}

pub data MountOption : Type 0 where
  fs_name subtype : String → MountOption
  default_permissions allow_other auto_unmount no_atime : MountOption

abbrev pub option_if : Bool → MountOption → List MountOption
option_if b o = if b then o ∷ [] else []

unfoldable pub mount_opts : ClientMountOptions → List MountOption
mount_opts m =
    (fs_name "dtmpfs" ∷ subtype "dtmpfs" ∷ [])
    ++ (option_if m.default_permissions default_permissions
        ++ (option_if m.allow_other allow_other
            ++ (option_if m.auto_unmount auto_unmount ++ option_if m.no_atime no_atime)))

-- `let Config::Client(client_cfg) = cfg else { bail }`
unfoldable pub expect_client : Config → Option ClientConfig
expect_client (client c) = some c
expect_client (meta c) = none
expect_client (store c) = none

-- The number of worker threads that is set, if one is.
unfoldable pub worker_threads : ClientConfig → Option ℕ
worker_threads c = elim c.tokio_worker_threads [
  | none ↦ none
  | some n ↦ if ltb 0 n then some n else none
]

-- What a cache of moka is built with.
pub record CacheSpec : Type 0 where
  pub max_capacity : ℕ
  pub time_to_live_ms : Option ℕ
  pub weigher : Bytes → ℕ

unfoldable pub build_attr_cache : ℕ → CacheSpec
build_attr_cache ttl_ms = record {
  max_capacity = 100_000;
  time_to_live_ms = some ttl_ms;
  weigher = λ b. 1;
}

-- The product wraps as a release build does; a block weighs its length.
unfoldable pub build_block_cache : ℕ → CacheSpec
build_block_cache capacity_mb = record {
  max_capacity = capacity_mb * 1024 * 1024 % u64_mod;
  time_to_live_ms = none;
  weigher = λ b. length b % u32_mod;
}

-- `DtmpfsFs` with the settings that the handlers take.
pub record Mount (W : Type 0) : Type 0 where
  pub fs : Fs W
  pub attr_cache : CacheSpec
  pub block_cache : CacheSpec
  pub block_size : ℕ
  pub replication_factor : ℕ
  pub token : String

-- Once the metadata server is connected to.
unfoldable pub build_fs : {W : Type 0} → ClientConfig → W → Mount W
unfolding build_attr_cache build_block_cache
build_fs c w = record {
  fs = record { clients = []; addrs = []; open_files = []; tasks = []; world = w };
  attr_cache = build_attr_cache c.attr_cache_ttl_ms;
  block_cache = build_block_cache c.block_cache_capacity_mb;
  block_size = c.block_size;
  replication_factor = c.replication_factor;
  token = c.cluster_token;
}

abbrev pub names_only : List MountOption
names_only = fs_name "dtmpfs" ∷ subtype "dtmpfs" ∷ []
