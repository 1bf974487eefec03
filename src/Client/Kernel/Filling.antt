-- ===== src/Client/Kernel/Filling.antt =====
-- How `readdir` of crates/dtmpfs-client/src/fs.rs fills the kernel's buffer with the entries that it
-- has collected, from an offset on. Whether an entry still fits is decided by fuser.
pub mod Resuming
pub mod Runs
use dtmpfs.Prelude.{ℕ, ◌+◌, Bool, true, false, List, [], ◌∷◌, ◌++◌, drop}
use dtmpfs.Common.Id.{InodeId}
use dtmpfs.Common.Error.{errno}
use dtmpfs.Meta.State.{Name}
use dtmpfs.Meta.Messages.{DirEntry}
use dtmpfs.Client.{returned, failed, Env, Fs}
use dtmpfs.Client.Attrs.{FileType, proto_kind_to_fuse}
use dtmpfs.Client.Readdir.{list_dir}
use dtmpfs.Client.Kernel.{Answer, answered, refused}

-- What `reply.add` is given: the offset is that of the entry after it.
pub record Added : Type 0 where
  pub ino : ℕ
  pub offset : ℕ
  pub kind : FileType
  pub name : Name

unfoldable pub added : ℕ → DirEntry → Added
unfolding proto_kind_to_fuse
added i e = record { ino = e.ino; offset = i + 1; kind = proto_kind_to_fuse e.kind; name = e.name }

-- `is_full held a`: a buffer that holds `held` has no room for `a`. Then `add` answers true and
-- leaves the buffer as it is.
module _ (is_full : List Added → Added → Bool) where
  unfoldable pub fill : ℕ → List DirEntry → List Added → List Added
  unfolding added
  fill i [] held = held
  fill i (e ∷ es) held = elim (is_full held (added i e)) [
    | true ↦ held
    | false ↦ fill (i + 1) es (held ++ added i e ∷ [])
  ]

  -- The offset is one that the kernel was given, and not negative.
  unfoldable pub readdir :
      {W : Type 0} → Env W → ℕ → InodeId → ℕ → Fs W → Answer (List Added) × Fs W
  unfolding fill list_dir errno
  readdir env fuel ino offset s =
      let (answer, s1) = list_dir env fuel ino s in
      elim answer [
        | failed e ↦ (refused (errno e), s1)
        | returned entries ↦ (answered (fill offset (drop offset entries) []), s1)
      ]
