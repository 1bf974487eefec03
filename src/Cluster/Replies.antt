-- ===== src/Cluster/Replies.antt =====
-- What `lookup`, `setattr` and `rename` of crates/dtmpfs-client/src/fs.rs answer the kernel, by what
-- the metadata server has.
use dtmpfs.Prelude.{
  ℕ, ◌≡◌, ◌≢◌, refl, String, false, none, some, arith, nat_eq, list_eq, Option-cases, inl, inr,
}
use dtmpfs.Prelude.Ord.{nat_ord, list_ord}
use dtmpfs.Prelude.HashMap
use dtmpfs.Common.Id.{InodeId}
use dtmpfs.Common.Error.{Result, enoent, eio, errno, from_status, from_code}
use dtmpfs.Meta.State.{Name, Inode, MetaState}
use dtmpfs.Meta.Messages.{RenameReq}
use dtmpfs.Meta.Namespace
use dtmpfs.Meta.Namespace.{find_in, entry}
use dtmpfs.Meta.View.{has_dir, same_place_iff, find_in-drop}
use dtmpfs.Meta.Tree.{IsTree}
use dtmpfs.Meta.Rename.Clearing.{IsReplaceable}
use dtmpfs.Meta.Rename.Moving.{onto_itself}
use dtmpfs.Meta.Rename.Outcomes.{
  Outcome, moved, no_source, full, lost, EntriesMoved, rename-Outcome,
}
use dtmpfs.Meta.Handles.Closing.{inode_at}
use dtmpfs.Client.{Fs}
use dtmpfs.Client.Attrs.{FileAttr}
use dtmpfs.Client.Kernel.{
  Answer, answered, refused, Entry, attr_reply, status_errno, reply_empty, lookup, rename,
}
use dtmpfs.Client.Kernel.{getattr_fresh}
use dtmpfs.Client.Kernel.Changing.{Changes, setattr}
use dtmpfs.Client.Kernel.Changing.Setting.{inode_after}
use dtmpfs.Client.Attrs.Describing.{Describes, attr_of-Describes}
use dtmpfs.Client.{Env}
use dtmpfs.Cluster.{Caches, Cluster, cluster_env}

abbrev pub rename_req : InodeId → Name → InodeId → Name → RenameReq
rename_req p n q m = record { src_parent_ino = p; src_name = n; dst_parent_ino = q; dst_name = m }

-- The answers of `rename`.
pub data RenameReply (s : MetaState) (p : InodeId) (n : Name) (q : InodeId) (m : Name)
    (s' : MetaState) : Answer (Unit {0}) → Type 0 where
  renamed :
      (src : InodeId)
      → entry s p n ≡ some src
      → EntriesMoved s s' (rename_req p n q m) src
      → RenameReply s p n q m s' (answered tt)
  missing_source : entry s p n ≡ none → s' ≡ s → RenameReply s p n q m s' (refused enoent)
  full_directory : ¬ IsReplaceable s (entry s q m) → s' ≡ s → RenameReply s p n q m s' (refused eio)
  no_destination :
      has_dir s.dirs q ≡ false → entry s' p n ≡ none → RenameReply s p n q m s' (refused enoent)

Outcome-RenameReply :
    (s : MetaState) (p : InodeId) (n : Name) (q : InodeId) (m : Name) (answer : Result (Unit {0}))
    (s' : MetaState)
    → Outcome s (rename_req p n q m) answer s'
    → RenameReply s p n q m s' (reply_empty answer)
unfolding reply_empty status_errno errno from_status from_code
Outcome-RenameReply s p n q m answer s' (moved src e there ok a em t) = rw a (renamed src e em)
Outcome-RenameReply s p n q m answer s' (no_source e a same) = rw a (missing_source e same)
Outcome-RenameReply s p n q m answer s' (full k a same) = rw a (full_directory k same)
Outcome-RenameReply s p n q m answer s' (lost k a same) = rw a (
    no_destination k
      (rw same (ground (arith, find_in-drop p n s.dirs p n, same_place_iff p p n n))))

-- The answers of `lookup`.
pub data LookupReply (s : MetaState) (p : InodeId) (n : Name) : Answer Entry → Type 0 where
  missing_entry : entry s p n ≡ none → LookupReply s p n (refused enoent)
  missing_inode :
      (c : InodeId)
      → entry s p n ≡ some c
      → inode_at s c ≡ none
      → LookupReply s p n (refused enoent)
  found :
      (c : InodeId) (i : Inode) (e : Entry)
      → entry s p n ≡ some c
      → inode_at s c ≡ some i
      → Describes i e.attr
      → e.ttl ≡ 0
      → e.generation ≡ 0
      → LookupReply s p n (answered e)

module _ {C : Type 0} (caches : Caches C) (xxh3 : String → ℕ → ℕ) (token : String) where
  abbrev env : Env (Cluster C)
  env = cluster_env caches xxh3 token

  -- In a tree of names, rename of the kernel onto another name than its own answers success and
  -- has moved the one entry, whatever the kinds of the source and of what it replaces; ENOENT
  -- without a source, and has changed nothing; EIO before a full directory, and has changed
  -- nothing; or ENOENT where the destination is no directory, and the source entry is gone.
  pub rename-RenameReply :
      (p : InodeId) (n : Name) (q : InodeId) (m : Name) (s : Fs (Cluster C))
      → IsTree s.world.meta
      → onto_itself (rename_req p n q m) ≡ false
      → let (answer, s') = rename env p n q m s in
        RenameReply s.world.meta p n q m s'.world.meta answer
  unfolding rename
  rename-RenameReply p n q m s t other =
      Outcome-RenameReply s.world.meta p n q m _ _
        (rename-Outcome token s.world.meta (rename_req p n q m) t other)

  -- What `setattr` answers and leaves.
  pub record Sets (ino : InodeId) (c : Changes) (s : Fs (Cluster C)) (i : Inode) : Type 0 where
    pub attr : FileAttr
    pub answer : (setattr env ino c s).0 ≡ answered (attr_reply attr)
    pub described : Describes (inode_after s.world.clock c i) attr
    pub stored :
        inode_at (setattr env ino c s).1.world.meta ino ≡ some (inode_after s.world.clock c i)
    pub others :
        (n : InodeId)
        → n ≢ ino
        → inode_at (setattr env ino c s).1.world.meta n ≡ inode_at s.world.meta n
    pub read_back : (getattr_fresh env ino (setattr env ino c s).1).0 ≡ answered (attr_reply attr)

  -- lookup of the kernel answers ENOENT where there is no such entry, also where the parent is no
  -- directory, or where its inode is missing; and otherwise the attributes of the inode, each
  -- field told by itself, with a lifetime and a generation of 0.
  pub lookup-LookupReply :
      (p : InodeId) (n : Name) (s : Fs (Cluster C))
      → LookupReply s.world.meta p n (lookup env p n s).0
  unfolding lookup Namespace.lookup status_errno errno from_status from_code
  lookup-LookupReply p n s = elim (Option-cases (entry s.world.meta p n)) [
    | inl e ↦ rw (e, lookup, Namespace.lookup) (missing_entry e)
    | inr (c, e) ↦ elim (Option-cases (inode_at s.world.meta c)) [
      | inl f ↦ rw (e, f, lookup, Namespace.lookup) (missing_inode c e f)
      | inr (i, f) ↦
          rw (e, f, lookup, Namespace.lookup) (found c i _ e f (attr_of-Describes i) refl refl)
    ]
  ]
