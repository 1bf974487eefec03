-- ===== src/Lib.antt =====
-- dtmpfs, a distributed file system in memory: its metadata server, its storage nodes, its client,
-- and what the crates share.
--
-- The program. One metadata server keeps the tree of names, the attributes of the inodes, the open
-- handles, and for each block of a file the storage nodes that hold it. Storage nodes keep blocks of
-- bytes under a key of inode and block number, with a mark for the newest generation they have
-- seen, within a budget of memory. A client asks the metadata server for names and placements, and
-- the storage nodes for bytes; on closing a file it names the generation it expects, and the server
-- raises it. Blocks are placed by rendezvous hashing over the nodes that sent a heartbeat lately.
--
-- The files, with the code that each models:
--   Prelude          numbers, tests, lists, and the two kinds of maps: HashMap (HashMap, DashMap;
--                    a list of entries, of which an operation touches one key) and BtreeMap (a
--                    list in the order of the keys)
--   Common.Id        crates/dtmpfs-common/src/id.rs
--   Common.Error     crates/dtmpfs-common/src/error.rs, and the codes of gRPC
--   Common.Auth      crates/dtmpfs-meta/src/auth.rs, which crates/dtmpfs-store/src/auth.rs repeats, and
--                    `authed` of the client; a panic of the client is a value
--   Common.Config    crates/dtmpfs-common/src/config.rs: the configurations and their defaults
--   Common.Hash      crates/dtmpfs-common/src/hash.rs, `pick_nodes`; Sorting, Ranking, Choosing,
--                    Ordering and Disruption are about its sort, its ranking, what it chooses from,
--                    the order of the nodes, and the loss of a node
--   Store            crates/dtmpfs-store/src/{state,service}.rs: `write_block`, `read_block`,
--                    `delete_block`, `replicate`, `stat`, and `run` over requests; Accounting,
--                    Blocks and Marks are about its counter, its blocks and its generations
--   Store.Start, Store.Debug
--                    crates/dtmpfs-store/src/{main,heartbeat,debug}.rs: the state that a node starts
--                    with, its heartbeat, and what its debug endpoint lists
--   Meta.State       crates/dtmpfs-meta/src/state.rs: the state, placement, the heartbeat watcher
--   Meta.Messages    proto/meta.proto and the small helpers of crates/dtmpfs-meta/src/service.rs
--   Meta.Namespace, Meta.Rename, Meta.Attributes, Meta.Listing, Meta.Handles, Meta.Blocks,
--   Meta.Nodes       the fourteen handlers of crates/dtmpfs-meta/src/service.rs: `lookup`, `create`,
--                    `mkdir`, `unlink`, `rmdir`; `rename`; `get_attr`, `set_attr`; `read_dir`;
--                    `open`, `close`; `allocate_blocks`; `heartbeat_node`, `list_nodes`
--   Meta.Utf8        the test of the standard library for UTF-8, which `read_dir` uses
--   Meta.Steps       a run of the server, as a list of requests
--   Meta.Start       crates/dtmpfs-meta/src/{main,debug}.rs
--   Meta.View, Meta.Tree
--                    the tree of names as clients see it, and the three changes that are made to it
--   Client           crates/dtmpfs-client/src/{open_file,client}.rs and the state of fs.rs; Fetch, Write
--                    and Read are `fetch_block`, `apply_write` with `write`, and `read` of fs.rs;
--                    Readdir is the loop of `readdir` over the pages; Publish is
--                    crates/dtmpfs-client/src/flush.rs with `release`; Dirty is about the bytes in
--                    the written blocks of a handle, Rounds about the fuel of its loops
--   Client.Attrs     `proto_attr_to_fuse` and `proto_kind_to_fuse` of fs.rs, with fuser's types
--   Client.Kernel    what the handlers of fs.rs answer the kernel: `lookup`, `getattr`, `mkdir`,
--                    `unlink`, `rmdir`, `rename`, `link` and the extended attributes here; Opening
--                    has `create` and `open`, Changing `setattr`, Filling `readdir`, Space `statfs`,
--                    Syncing `flush`, `fsync` and `release`
--   Client.Names     what `unlink` and `rmdir` answer, by what the server has
--   Client.Start     crates/dtmpfs-client/src/{main,cache}.rs
--   Cluster          the three programs joined: the world that a mount calls into is a metadata server
--                    and storage nodes, which run the handlers of Meta and Store. Holding, Routes,
--                    Writing, Publishing, Committing, Reading and Opening are the steps of
--                    CloseToOpen; ReadBack, with the steps Serving, Fetching and Reopening, is a write
--                    read by another mount; Creating, Replies and Heartbeats are about single calls
--
-- How code and model correspond. A handler takes the state and its request, and gives its answer
-- with the state that it leaves; `DeleteBlock` calls, which the code sends from a task of its own,
-- are a result as well. The metadata server holds one lock for each handler, so a run is a list of
-- requests; `open` takes the lock twice, and its second half is a request of its own. A storage node
-- handles one request at a time here. The clock is an argument. An inode number, a handle number, a
-- generation and the counter of a storage node wrap at 2 ^ 64, a link count at 2 ^ 32. A `HashMap`
-- may be listed in any order, and the list of entries stands for one;
-- `sort_unstable_by` may leave equal scores in any order, and a sort by insertion stands for it, which
-- Common.Hash.Ordering compares with every other sort. The client works on a world of any
-- type, which each call to a server, to a connection or to a cache of the mount may change; where two
-- mounts meet, in Cluster, they share the servers and not the caches. Its loops
-- over the bytes of a range run on fuel, as much as there are bytes: each round takes one at least.
-- The loop over the pages of a directory runs on fuel, of which more than there
-- are entries is enough. Every other loop runs over a list.
--
-- Parameters: `xxh3`, the hash function of the crate xxhash_rust, any function of a text and a seed;
-- `Peers`, the connection of a storage node to others; `Env`, what a client calls (the services, the
-- channels, the two caches of the crate moka, the clock), of which Cluster gives one made of the
-- models of the servers; `Caches`, those two caches, which are
-- those of one mount; `Metadata`, the header values of tonic, of which the token is one; whether an entry fits into the kernel's buffer,
-- which fuser decides; the token of the cluster. A configuration is a table as toml has read it.
--
-- Not modelled: the order in which the blocks of one publish are sent (by number here); timers,
-- tracing, the HTTP server of the debug endpoints, and the runtime, connections and mounting at
-- start-up, which are calls of libraries; the reading of configuration files by serde and toml;
-- races between two requests within one storage node; handlers run behind `check_token` in
-- Common.Auth, and without it elsewhere; generated code of tonic and prost.
pub mod Prelude
pub mod Common
pub mod Store
pub mod Meta
pub mod Client
pub mod Cluster
