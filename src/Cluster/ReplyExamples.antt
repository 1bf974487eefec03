-- ===== src/Cluster/ReplyExamples.antt =====
-- What a mount of the small cluster answers the kernel, and the addresses that it knows.
use dtmpfs.Prelude.{
  ◌≡◌, refl, none, some, [], ◌∷◌, arith, nat_eq, string_eq, list_eq, if◌then◌else◌, ◌==◌, pos,
}
use dtmpfs.Prelude.Ord.{nat_ord, list_ord}
use dtmpfs.Prelude.HashMap
use dtmpfs.Prelude.BtreeMap
use dtmpfs.Store.{StoreState}
use dtmpfs.Store
use dtmpfs.Store.Start.{heartbeat_request}
use dtmpfs.Meta.State.{MetaState, Inode, new}
use dtmpfs.Meta.Messages.{url_of}
use dtmpfs.Meta.Namespace
use dtmpfs.Meta.Namespace.{new_file}
use dtmpfs.Meta.Nodes.{heartbeat_node}
use dtmpfs.Meta.Steps.{creates, run}
use dtmpfs.Meta.Steps.Trees.{run-IsTree, new-IsTree}
use dtmpfs.Client.{Fs}
use dtmpfs.Client.Kernel.{lookup, rename}
use dtmpfs.Client.Kernel.Opening.{create}
use dtmpfs.Client.Kernel.Changing.{Changes, specific_time, now}
use dtmpfs.Cluster.{Cluster}
use dtmpfs.Cluster.Creating.{CreateReply, create-CreateReply}
use dtmpfs.Cluster.Replies.{RenameReply, rename-RenameReply, LookupReply, lookup-LookupReply}
use dtmpfs.Cluster.Heartbeats.{table, heartbeat-table}
use dtmpfs.Cluster.Examples.{no_caches, hash, env, cluster, writer, meta, request}

create-CreateReply_example :
    CreateReply 1
      (b'g' ∷ [])
      0o600
      7
      8
      writer
      (create env 1 (b'g' ∷ []) 0o600 7 8 0 writer).0
      (create env 1 (b'g' ∷ []) 0o600 7 8 0 writer).1
create-CreateReply_example =
    create-CreateReply no_caches hash "token" 1 (b'g' ∷ []) 0o600 7 8 writer 0

lookup-LookupReply_example : LookupReply meta 1 (b'f' ∷ []) (lookup env 1 (b'f' ∷ []) writer).0
lookup-LookupReply_example = lookup-LookupReply no_caches hash "token" 1 (b'f' ∷ []) writer

abbrev touched : Changes
touched = record {
  mode = none;
  uid = none;
  gid = none;
  size = some 9;
  atime = some (specific_time (pos 12));
  mtime = some now;
}

abbrev the_file : Inode
the_file = new_file 5 2 request

start-counter : (new 1 0).next_ino ≡ 2
unfolding new
start-counter = refl

abbrev one_file : MetaState
one_file = run hash "token" (new 1 0) (creates 5 request ∷ [])

abbrev renamer : Fs (Cluster (Unit {0}))
renamer = record writer { world = record cluster { meta = one_file } }

rename-RenameReply_example :
    RenameReply one_file 1
      (b'f' ∷ [])
      1
      (b'g' ∷ [])
      (rename env 1 (b'f' ∷ []) 1 (b'g' ∷ []) renamer).1.world.meta
      (rename env 1 (b'f' ∷ []) 1 (b'g' ∷ []) renamer).0
rename-RenameReply_example =
    rename-RenameReply no_caches hash "token" 1 (b'f' ∷ []) 1 (b'g' ∷ []) renamer
      (run-IsTree hash "token" (new 1 0) _ (new-IsTree 1 0) (omega (arith, start-counter)) (tt, tt))
      refl

abbrev started : StoreState
started = Store.new "b" "m" 100

heartbeat-table_example :
    table (heartbeat_node 3 one_file (heartbeat_request started "b" 0)).1 "b"
    ≡ (if started.node_id == "b" then some (url_of "b") else table one_file "b")
heartbeat-table_example =
    heartbeat-table hash "token" 1 0 (creates 5 request ∷ []) 3 started "b" 0 "b"
