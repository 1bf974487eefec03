-- ===== src/Client/KernelExamples.antt =====
-- The handlers that answer the kernel about names, space and start-up, at concrete inputs.
use dtmpfs.Prelude.{
  ◌+◌, ◌≡◌, refl, Bool, none, [], ◌∷◌, List, map, ltb, length, arith, nat_eq, string_eq, list_eq,
}
use dtmpfs.Prelude.Ord.{nat_ord, list_ord}
use dtmpfs.Prelude.HashMap
use dtmpfs.Prelude.BtreeMap
use dtmpfs.Common.Config.{ClientTable, client_config}
use dtmpfs.Meta.State.{Attr, new, build_attr, alloc_ino, alloc_fh}
use dtmpfs.Meta.Namespace.{lookup, find_in, create, make_file, mkdir, make_dir, new_file}
use dtmpfs.Meta.Listing.{dir_entry}
use dtmpfs.Meta.Utf8.{is_utf8}
use dtmpfs.Meta.Steps.{step, run}
use dtmpfs.Client.Attrs.{proto_attr_to_fuse, proto_kind_to_fuse}
use dtmpfs.Client.Attrs.Kinds.{lookup-dir_entry}
use dtmpfs.Client.Kernel.Filling.{Added}
use dtmpfs.Client.Kernel.Filling.Resuming.{kernel_reads, all_added}
use dtmpfs.Client.Kernel.Filling.Runs.{kernel_reads-run}
use dtmpfs.Client.Start.{mount_opts, names_only}
use dtmpfs.Client.Rounds.{loops_end}
use dtmpfs.Client.Read.{read_loop, read_file}
use dtmpfs.Client.Write.{write_loop, apply_write}
use dtmpfs.Client.Examples.{
  outside, mount, opened, hash, history, served, two_entries, root_entries, with_listing, three,
}

-- Each buffer has room for one entry.
abbrev one_entry : List Added → Added → Bool
one_entry held a = ltb 0 (length held)

kernel_reads-run_example :
    kernel_reads one_entry with_listing 3 1 3 0 mount
    ≡ all_added 0 (map (dir_entry served) two_entries)
unfolding is_utf8
kernel_reads-run_example =
    kernel_reads-run with_listing hash "token" 1 0 history 1 two_entries 3 3 mount one_entry
      ((refl, refl), ((refl, refl), tt)) (λ r w. refl) root_entries (omega arith) (omega arith)
      (λ a. refl)

abbrev small_file : Attr
small_file =
    build_attr
      (new_file 5 2 (record { parent_ino = 1; name = b'b' ∷ []; mode = 0o644; uid = 0; gid = 0 }))

lookup-dir_entry_example :
    (proto_attr_to_fuse small_file).kind ≡ proto_kind_to_fuse (dir_entry served (b'b' ∷ [], 2)).kind
unfolding run step new create make_file mkdir make_dir alloc_ino alloc_fh HashMap.get HashMap.insert
    HashMap.update HashMap.remove BtreeMap.get BtreeMap.insert find_in lookup build_attr
lookup-dir_entry_example =
    lookup-dir_entry hash "token" 1 0 history 1 (b'b' ∷ []) 2 small_file (tt, (tt, tt)) refl refl

loops_end_example :
    (read_loop outside 4 (3 + 2) opened [] 3 (3 + 3) mount ≡ read_file outside 4 opened 3 3 mount)
    × ((write_loop outside 4 (3 + 2) three 0 3 (3 + 3) opened mount).0
        ≡ (apply_write outside 4 opened 3 three mount).0)
    × ((write_loop outside 4 (3 + 2) three 0 3 (3 + 3) opened mount).2
        ≡ (apply_write outside 4 opened 3 three mount).2)
loops_end_example = loops_end outside 4 3 3 2 three opened mount (omega arith) (omega arith) refl

abbrev bare : ClientTable
bare = record {
  node_id = "c";
  mount_point = "/mnt";
  meta_addr = "m";
  cluster_token = "t";
  block_size = none;
  replication_factor = none;
  attr_cache_ttl_ms = none;
  block_cache_capacity_mb = none;
  fuse_threads = none;
  tokio_worker_threads = none;
  keepalive_interval_secs = none;
  rpc_timeout_ms = none;
  write_rpc_timeout_ms = none;
  mount_options = none;
}

-- Without the table of mount options a mount has none of the four.
no_options : mount_opts (client_config bare).mount_options ≡ names_only
unfolding mount_opts client_config
no_options = refl
