-- ===== src/Client/Publish/Handles.antt =====
-- The steps of `publish` leave the table of open files alone; only its end writes the handle back.
use dtmpfs.Prelude.{
  ℕ, ◌≡◌, refl, List, [], ◌∷◌, Tree, arith, Option-cases, inl, inr, nat_eq, string_eq,
}
use dtmpfs.Prelude.Ord.{nat_ord}
use dtmpfs.Prelude.BtreeMap
use dtmpfs.Common.Id.{InodeId, BlockIdx, NodeId, BlockPlacement}
use dtmpfs.Common.Error.{Result-cases}
use dtmpfs.Store.{Bytes}
use dtmpfs.Client.{OpenFile, Env, Fs, pool_get, connect_to, refresh_addrs, with_world}
use dtmpfs.Client.Publish.{
  WaitPolicy, primaries_only, all_replicas, write_one, write_all, write_replicas, write_placed,
  write_blocks, allocate, finish, send, publish_file,
}

module _ {W : Type 0} (env : Env W) where
  pool_get-files : (n : NodeId) (s : Fs W) → (pool_get env n s).1.open_files ≡ s.open_files
  unfolding pool_get connect_to
  pool_get-files n s = ground arith

  write_one-files :
      (ino : InodeId) (idx : BlockIdx) (bytes : Bytes) (n : NodeId) (s : Fs W)
      → (write_one env ino idx bytes n s).1.open_files ≡ s.open_files
  unfolding write_one
  write_one-files ino idx bytes n s = ground (arith, pool_get-files n s)

  write_all-files :
      (ino : InodeId) (idx : BlockIdx) (bytes : Bytes) (ns : List NodeId) (s : Fs W)
      → (write_all env ino idx bytes ns s).1.open_files ≡ s.open_files
  unfolding write_all
  write_all-files ino idx bytes [] s = refl
  write_all-files ino idx bytes (n ∷ ns) s = ground (
    arith,
    write_one-files ino idx bytes n s,
    write_all-files ino idx bytes ns (write_one env ino idx bytes n s).1,
  )

  write_replicas-files :
      (wait : WaitPolicy) (ino : InodeId) (idx : BlockIdx) (bytes : Bytes) (ns : List NodeId)
      (s : Fs W)
      → (write_replicas env wait ino idx bytes ns s).1.open_files ≡ s.open_files
  unfolding write_replicas
  write_replicas-files all_replicas ino idx bytes ns s = write_all-files ino idx bytes ns s
  write_replicas-files primaries_only ino idx bytes ns s = refl

  write_placed-files :
      (wait : WaitPolicy) (ino : InodeId) (idx : BlockIdx) (bytes : Bytes) (p : BlockPlacement)
      (s : Fs W)
      → (write_placed env wait ino idx bytes p s).1.open_files ≡ s.open_files
  unfolding write_placed
  write_placed-files wait ino idx bytes p s = ground (
    arith,
    write_one-files ino idx bytes p.primary s,
    write_replicas-files wait ino idx bytes p.replicas (write_one env ino idx bytes p.primary s).1,
  )

  write_blocks-files :
      (wait : WaitPolicy) (ino : InodeId) (block_map : Tree BlockIdx BlockPlacement)
      (dirty : Tree BlockIdx Bytes) (s : Fs W)
      → (write_blocks env wait ino block_map dirty s).1.open_files ≡ s.open_files
  unfolding write_blocks
  write_blocks-files wait ino block_map [] s = refl
  write_blocks-files wait ino block_map ((idx, buf) ∷ dirty) s =
      elim (Option-cases (BtreeMap.get idx block_map)) [
        | inl e ↦ ground arith
        | inr (p, e) ↦ ground (
          arith,
          write_placed-files wait ino idx buf p s,
          write_blocks-files wait ino block_map dirty (write_placed env wait ino idx buf p s).1,
        )
      ]

  allocate-files : (o : OpenFile) (s : Fs W) → (allocate env o s).2.open_files ≡ s.open_files
  unfolding allocate
  allocate-files o s = ground arith

  send-files :
      (wait : WaitPolicy) (fh : ℕ) (o : OpenFile) (s : Fs W)
      → (send env wait fh o s).2.open_files ≡ s.open_files
  unfolding send finish
  send-files wait fh o s = ground (arith, write_blocks-files wait o.ino o.block_map o.dirty s)

  pub publish_file-files :
      (wait : WaitPolicy) (fh : ℕ) (o : OpenFile) (s : Fs W)
      → (publish_file env wait fh o s).2.open_files ≡ s.open_files
  unfolding publish_file refresh_addrs
  publish_file-files wait fh o s = elim (Result-cases (env.list_nodes s.world).0) [
    | inr (x, e) ↦ ground arith
    | inl (l, e) ↦
        let s0 = refresh_addrs l (with_world s (env.list_nodes s.world).1) in
        ground (
          arith,
          allocate-files o s0,
          send-files wait fh (allocate env o s0).1 (allocate env o s0).2,
        )
  ]
