-- ===== src/Cluster/Creating.antt =====
-- What `create` of crates/dtmpfs-client/src/fs.rs answers the kernel, by what the metadata server has.
use dtmpfs.Prelude.{
  ℕ, ◌≡◌, ◌≢◌, refl, String, none, some, [], arith, nat_eq, list_eq, bit_and, Option-cases, inl,
  inr,
}
use dtmpfs.Prelude.Bits.{low_of-typed, type_of-typed}
use dtmpfs.Prelude.Ord.{nat_ord, list_ord}
use dtmpfs.Prelude.HashMap
use dtmpfs.Common.Id.{InodeId}
use dtmpfs.Common.Error.{enoent, eexist, errno, from_status, from_code}
use dtmpfs.Meta.State.{Name, Inode, MetaState, build_attr, alloc_ino, alloc_fh}
use dtmpfs.Meta.Messages.{CreateReq}
use dtmpfs.Meta.Namespace
use dtmpfs.Meta.Namespace.{find_in, entry, make_file, make_dir, new_file}
use dtmpfs.Meta.View.{find_in-put, same_place_iff}
use dtmpfs.Client.{OpenFile, Fs, install, build_open_file, insert_locs, with_world}
use dtmpfs.Client.Publish.Outcomes.{file_at}
use dtmpfs.Client.Attrs.{FileAttr, regular_file, proto_attr_to_fuse, mode_kind}
use dtmpfs.Client.Kernel.{Answer, answered, refused, status_errno, remember}
use dtmpfs.Client.Kernel.Opening.{Created, created, create}
use dtmpfs.Client.{Env}
use dtmpfs.Cluster.{Caches, Cluster, cluster_env}

module _ {C : Type 0} where
  -- The answers of `create`, and what they leave.
  pub data CreateReply (parent : InodeId) (name : Name) (mode uid gid : ℕ) (s : Fs (Cluster C))
      : Answer Created → Fs (Cluster C) → Type 0 where
    no_parent :
        HashMap.get parent s.world.meta.dirs ≡ none
        → CreateReply parent name mode uid gid s (refused enoent) s
    name_taken :
        (n : InodeId)
        → entry s.world.meta parent name ≡ some n
        → CreateReply parent name mode uid gid s (refused eexist) s
    made :
        (s' : Fs (Cluster C)) (r : Created) (o : OpenFile)
        → entry s.world.meta parent name ≡ none
        → entry s'.world.meta parent name ≡ some r.attr.ino
        → r.attr.kind ≡ regular_file
        → r.attr.perm ≡ bit_and mode 0o7777
        → r.attr.size ≡ 0
        → r.attr.uid ≡ uid
        → r.attr.gid ≡ gid
        → file_at s' r.fh ≡ some o
        → o.ino ≡ r.attr.ino
        → o.dirty ≡ []
        → o.block_map ≡ []
        → CreateReply parent name mode uid gid s (answered r) s'

module _ {C : Type 0} (caches : Caches C) (xxh3 : String → ℕ → ℕ) (token : String) where
  abbrev env : Env (Cluster C)
  env = cluster_env caches xxh3 token

  module _ (parent : InodeId) (name : Name) (mode uid gid : ℕ) (s : Fs (Cluster C)) where
    abbrev request : CreateReq
    request = record { parent_ino = parent; name = name; mode = mode; uid = uid; gid = gid }

    -- The file that the server makes, and the state that it leaves.
    abbrev new_inode : Inode
    new_inode = new_file s.world.clock s.world.meta.next_ino request

    abbrev made_file : MetaState
    made_file = (make_file s.world.clock s.world.meta request).1

    abbrev new_attr : FileAttr
    new_attr = proto_attr_to_fuse (build_attr new_inode)

    abbrev installed : ℕ → Fs (Cluster C)
    installed flags = remember env s.world.meta.next_ino new_attr (
        install env s.world.meta.next_ino s.world.meta.next_fh flags (build_attr new_inode) []
          (with_world s (record (s.world) { meta = made_file })))

    create_refused :
        (flags : ℕ)
        → HashMap.get parent s.world.meta.dirs ≡ none
        → create env parent name mode uid gid flags s ≡ (refused enoent, s)
    unfolding create Namespace.create status_errno errno from_status from_code
    create_refused flags e = ground arith

    create_taken :
        (flags : ℕ) (n : InodeId)
        → entry s.world.meta parent name ≡ some n
        → create env parent name mode uid gid flags s ≡ (refused eexist, s)
    unfolding create Namespace.create status_errno errno from_status from_code find_in
    create_taken flags n e = ground arith

    create_made :
        (flags : ℕ)
        → HashMap.get parent s.world.meta.dirs ≢ none
        → entry s.world.meta parent name ≡ none
        → create env parent name mode uid gid flags s
          ≡ (answered (created new_attr s.world.meta.next_fh), installed flags)
    unfolding create Namespace.create make_file alloc_ino alloc_fh find_in proto_attr_to_fuse
        build_attr
    create_made flags e f = ground arith

    new_attr-kind : new_attr.kind ≡ regular_file
    unfolding proto_attr_to_fuse build_attr mode_kind
    new_attr-kind = ground (arith, type_of-typed 12 8 mode 15)

    new_attr-perm : new_attr.perm ≡ bit_and mode 0o7777
    unfolding proto_attr_to_fuse build_attr
    new_attr-perm = low_of-typed 12 8 mode

    made_file-entry :
        HashMap.get parent s.world.meta.dirs ≢ none
        → entry made_file parent name ≡ some s.world.meta.next_ino
    unfolding make_file alloc_ino alloc_fh
    made_file-entry e = ground (
      arith,
      find_in-put parent name s.world.meta.next_ino s.world.meta.dirs parent name,
      same_place_iff parent parent name name,
    )

    installed-file :
        (flags : ℕ)
        → file_at (installed flags) s.world.meta.next_fh
          ≡ some (build_open_file s.world.meta.next_ino (build_attr new_inode) [] flags)
    unfolding install remember
    installed-file flags = ground (
      arith,
      HashMap.get-insert s.world.meta.next_fh s.world.meta.next_fh
          (build_open_file s.world.meta.next_ino (build_attr new_inode) [] flags) s.open_files,
    )

    -- create, called by the kernel, answers ENOENT where the parent is no directory and EEXIST
    -- where it has the name, and then changes nothing. Otherwise it answers an empty regular file
    -- with the permissions asked for and the owner of the caller, the name leads to its number at
    -- the server, and the mount has under the handle that was answered an open file of that number
    -- with no blocks.
    pub create-CreateReply :
        (flags : ℕ)
        → let (answer, s') = create env parent name mode uid gid flags s in
          CreateReply parent name mode uid gid s answer s'
    unfolding build_attr proto_attr_to_fuse build_open_file insert_locs install remember find_in
    create-CreateReply flags = elim (Option-cases (HashMap.get parent s.world.meta.dirs)) [
      | inl e ↦ rw (create_refused flags e) (no_parent e)
      | inr (d, e) ↦ elim (Option-cases (entry s.world.meta parent name)) [
        | inr (n, f) ↦ rw (create_taken flags n f) (name_taken n f)
        | inl f ↦
            let there : HashMap.get parent s.world.meta.dirs ≢ none = (λ h. ground arith) in
            rw (create_made flags there f) (
              made (installed flags) (created new_attr s.world.meta.next_fh)
                (build_open_file s.world.meta.next_ino (build_attr new_inode) [] flags) f
                (made_file-entry there) new_attr-kind new_attr-perm refl refl refl
                (installed-file flags) refl refl refl)
      ]
    ]
