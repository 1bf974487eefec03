-- ===== src/Cluster/ReadBack.antt =====
-- A write of one mount and a read of another: `write` and `fsync` of crates/dtmpfs-client/src/fs.rs
-- there, `open` and `read` here, over the models of all three programs.
use dtmpfs.Prelude.{
  ◌≡◌, ap, ◌∙◌, subst, ℕ, ◌+◌, ◌-◌, ◌%◌, ◌≤◌, ◌<◌, String, some, arith, nat_eq, inl, inr, string_eq,
  Option-cases, length, get_elem?, get_elem?-within, get_elem?-ext, [],
}
use dtmpfs.Prelude.Ord.{nat_ord}
use dtmpfs.Prelude.HashMap
use dtmpfs.Prelude.BtreeMap
use dtmpfs.Common.Id.{BlockIdx, NodeId, u64_mod, u32_mod}
use dtmpfs.Store.{Bytes}
use dtmpfs.Meta.State.{Inode}
use dtmpfs.Meta.Handles.Closing.{inode_at}
use dtmpfs.Client.{OpenFile, Fs, returned}
use dtmpfs.Client.Publish.{fsync_path}
use dtmpfs.Client.Write.{apply_write, write}
use dtmpfs.Client.Publish.Outcomes.{file_at}
use dtmpfs.Client.Write.Loop.{Written}
use dtmpfs.Client.Write.RoundTrip.{apply_write-Written}
use dtmpfs.Client.Read.{read_loop, read_file, read}
use dtmpfs.Client.Read.Dirty.{IsWritten}
use dtmpfs.Client.Read.Served.{Serves, read_loop-Answers}
use dtmpfs.Client.Dirty.{IsFull, byte_at}
use dtmpfs.Client.Kernel.{answered}
use dtmpfs.Client.Kernel.Opening.{OpenReply, open_file}
use dtmpfs.Client.{Env}
use dtmpfs.Cluster.{Caches, Cluster, SameServers, cluster_env}
use dtmpfs.Cluster.Committing.{IsStored, IsStored-servers}
use dtmpfs.Cluster.Opening.{OpensAt, open_file-OpensAt}
use dtmpfs.Cluster.CloseToOpen.{IsWriting, publish_file-Committed, fsync_done}
use dtmpfs.Cluster.Serving.{IsCache, IsServing}
use dtmpfs.Cluster.Reopening.{IsReading, opened-IsServing, opened-Serves}

module _ {C : Type 0} (addr_of : NodeId → String) (caches : Caches C) (xxh3 : String → ℕ → ℕ)
    (token : String) (block_size : ℕ) where
  abbrev env : Env (Cluster C)
  env = cluster_env caches xxh3 token

  -- A read through the handle that the open gives.
  read-Answers :
      (o : OpenFile) (t t1 : Fs (Cluster C)) (fh offset : ℕ) (bytes : Bytes) (i : Inode)
      (op : OpensAt o.ino t t1 fh i)
      → Serves env block_size o op.handle
          (IsServing addr_of caches xxh3 token block_size o op.handle)
      → IsServing addr_of caches xxh3 token block_size o op.handle t1
      → 0 < block_size
      → offset + length bytes + block_size ≤ u64_mod
      → IsFull block_size o
      → ((p : ℕ)
          → offset ≤ p
          → p < offset + length bytes
          → byte_at block_size o p ≡ get_elem? bytes (0 + (p - offset)))
      → (read env block_size fh offset (length bytes) t1).0 ≡ returned bytes
  unfolding read read_file
  read-Answers o t t1 fh offset bytes i op serves good positive fits full holds =
      let end = offset + length bytes in
      let plain : end % u64_mod ≡ end = omega (arith, positive) in
      let written : IsWritten block_size o offset end = λ p low high.
        let (v, at) = get_elem?-within bytes (0 + (p - offset)) (omega arith) in
        ground (arith, holds p low high, at) in
      let (r, same, x) =
        read_loop-Answers env block_size positive o op.handle end fits full
          (IsServing addr_of caches xxh3 token block_size o op.handle) serves (length bytes) []
          offset t1 (omega arith) written good in
      let equal : r ≡ bytes = get_elem?-ext r bytes (omega (arith, x.long)) (λ j h.
        x.spelled j (omega (arith, x.long))
        ∙ holds (offset + j) (omega arith) (omega (arith, x.long))
        ∙ ap (get_elem? bytes) (omega arith)) in
      let loop : (read_loop env block_size (length bytes) op.handle [] offset (end % u64_mod) t1).0
          ≡ returned bytes =
        ap (λ e. (read_loop env block_size (length bytes) op.handle [] offset e t1).0) plain
        ∙ same
        ∙ ap returned equal in
      ground (arith, op.found, loop)

  -- The handle that a write leaves.
  write-apply_write :
      (fh offset n : ℕ) (bytes : Bytes) (o o1 : OpenFile) (s : Fs (Cluster C))
      → file_at s fh ≡ some o
      → (write env block_size fh offset bytes s).0 ≡ returned n
      → file_at (write env block_size fh offset bytes s).1 fh ≡ some o1
      → ((apply_write env block_size o offset bytes s).0 ≡ returned n)
        × ((apply_write env block_size o offset bytes s).1 ≡ o1)
  unfolding write
  write-apply_write fh offset n bytes o o1 s e h f =
      let (got, o2, s1) = apply_write env block_size o offset bytes s in
      let put = HashMap.get-update fh fh (λ (_ : OpenFile). o2) s1.open_files in
      elim (Option-cases (HashMap.get fh s1.open_files)) [
        | inl k ↦ absurd (ground (arith, put, k))
        | inr (x, k) ↦ (ground arith, ground (arith, put, k))
      ]

  -- A write of one mount succeeds, and then its fsync. Another mount, with caches of its own and
  -- the servers as the fsync left them, opens the file and reads the range that was written: the
  -- read succeeds, and it answers the bytes that were written. Conditions: blocks are not empty,
  -- the blocks that the first handle had written before are whole, the bytes number less than 2 ^
  -- 32, and the range ends a block before 2 ^ 64; each node has one address, to which channels and
  -- tables of both mounts lead; the first handle is that of its file at the server, has written
  -- blocks after the write, and knows only placements that the server has; the maps of blocks are
  -- sorted; the second mount knows the primary nodes of the written blocks, or gets them with its
  -- first list of nodes; what its cache has of these blocks under the new generation is right; and
  -- a cache answers only what was put into it.
  pub write-fsync-open-read :
      (fh flags offset n : ℕ) (o0 o : OpenFile) (bytes : Bytes) (s t : Fs (Cluster C))
      (r : OpenReply)
      → IsCache caches
      → 0 < block_size
      → IsFull block_size o0
      → length bytes < u32_mod
      → offset + length bytes + block_size ≤ u64_mod
      → file_at s fh ≡ some o0
      → (write env block_size fh offset bytes s).0 ≡ returned n
      → IsWriting addr_of fh o (write env block_size fh offset bytes s).1
      → (fsync_path env fh (write env block_size fh offset bytes s).1).0 ≡ returned tt
      → SameServers t.world (fsync_path env fh (write env block_size fh offset bytes s).1).1.world
      → IsReading addr_of caches xxh3 token block_size o t
      → (open_file env o.ino flags t).0 ≡ answered r
      → (read env block_size r.fh offset (length bytes) (open_file env o.ino flags t).1).0
        ≡ returned bytes
  write-fsync-open-read fh flags offset n o0 o bytes s t r laws positive full small fits before
        wrote w synced same reading answer =
      let s1 = (write env block_size fh offset bytes s).1 in
      let (applied, left) = write-apply_write fh offset n bytes o0 o s before wrote w.opened in
      let (_, x) =
        apply_write-Written env block_size positive o0 offset bytes s n full small fits applied in
      let x : Written block_size bytes 0 offset (offset + length bytes) o0 o =
        subst (Written block_size bytes 0 offset (offset + length bytes) o0) left x in
      let (sent, world) = fsync_done addr_of caches xxh3 token fh o s1 w.opened w.written synced in
      let c = publish_file-Committed addr_of caches xxh3 token fh o s1 w sent in
      let there : inode_at t.world.meta o.ino ≡ some c.inode =
        ground (arith, c.there, world, same.0) in
      let st : (idx : BlockIdx) (b : Bytes)
          → BtreeMap.get idx o.dirty ≡ some b
          → IsStored addr_of t.world o.ino idx b =
        λ idx b e.
          IsStored-servers addr_of _ t.world o.ino idx b (subst (SameServers t.world) world same)
            (c.stored idx b e) in
      let op =
        open_file-OpensAt caches xxh3 token o.ino flags t c.inode r there
          (reading.sorted c.inode there) answer in
      let t1 = (open_file env o.ino flags t).1 in
      read-Answers o t t1 r.fh offset bytes c.inode op
        (opened-Serves addr_of caches xxh3 token block_size o t t1 r.fh c.inode op there
          c.generation st laws)
        (opened-IsServing addr_of caches xxh3 token block_size o t t1 r.fh c.inode op there
          c.generation st reading)
        positive fits x.full x.holds
