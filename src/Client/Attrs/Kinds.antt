-- ===== src/Client/Attrs/Kinds.antt =====
-- How the kind of an inode reaches the kernel: by the type bits of its mode in its attributes, and
-- by a number in a listing.
use dtmpfs.Prelude.{
  ℕ, ◌≡◌, refl, String, some, List, arith, nat_eq, Option-cases, inl, inr, ◌⊎◌, sym, ◌∙◌, ◌⊎◌, sym,
  ◌∙◌,
}
use dtmpfs.Prelude.HashMap
use dtmpfs.Common.Id.{InodeId, InodeKind, file, dir, symlink}
use dtmpfs.Common.Error.{done}
use dtmpfs.Meta.State.{SystemTime, Name, Inode, MetaState, Attr, build_attr, new}
use dtmpfs.Meta.Messages.{kind_u32}
use dtmpfs.Meta.Namespace.{entry, lookup}
use dtmpfs.Meta.Listing.{dir_entry}
use dtmpfs.Meta.Steps.{Request, run}
use dtmpfs.Meta.Steps.Kinds.{IsTyped, AreTyped}
use dtmpfs.Meta.Steps.Typed.{AllKeep, run-AreTyped}
use dtmpfs.Client.Attrs.{
  FileType, directory, symbolic_link, regular_file, mode_kind, proto_attr_to_fuse,
  proto_kind_to_fuse,
}

abbrev pub file_type : InodeKind → FileType
file_type file = regular_file
file_type dir = directory
file_type symlink = symbolic_link

mode_kind-IsTyped : (i : Inode) → IsTyped i → mode_kind i.mode ≡ file_type i.kind
unfolding mode_kind
mode_kind-IsTyped i t = elim (kinds i.kind) [
  | inl e ↦ ground arith
  | inr (inl e) ↦ ground arith
  | inr (inr e) ↦ ground arith
]
  where
    kinds : (k : InodeKind) → (k ≡ file) ⊎ ((k ≡ dir) ⊎ (k ≡ symlink))
    kinds file = inl refl
    kinds dir = inr (inl refl)
    kinds symlink = inr (inr refl)

proto_kind-kind_u32 : (k : InodeKind) → proto_kind_to_fuse (kind_u32 k) ≡ file_type k
unfolding proto_kind_to_fuse kind_u32
proto_kind-kind_u32 file = refl
proto_kind-kind_u32 dir = refl
proto_kind-kind_u32 symlink = refl

root-AreTyped : (rf : ℕ) (now : SystemTime) → AreTyped (new rf now).inodes
unfolding new HashMap.get
root-AreTyped rf now n i e = ground arith

typed_attr : (i : Inode) → IsTyped i → (proto_attr_to_fuse (build_attr i)).kind ≡ file_type i.kind
unfolding proto_attr_to_fuse build_attr
typed_attr i t = mode_kind-IsTyped i t

lookup-inode :
    (s : MetaState) (p : InodeId) (m : Name) (c : InodeId) (a : Attr)
    → entry s p m ≡ some c
    → lookup s p m ≡ done (some a)
    → (i : Inode) × (HashMap.get c s.inodes ≡ some i) × (a ≡ build_attr i)
unfolding lookup
lookup-inode s p m c a e h = elim (Option-cases (HashMap.get c s.inodes)) [
  | inl g ↦ absurd (ground arith)
  | inr (i, g) ↦ (i, g, ground arith)
]

-- Whatever requests a server has served since its start, if each set_attr with a mode carried the
-- type bits of its inode: for each entry of a directory, the kind in the attributes that lookup
-- answers, by the type bits of the mode, is the kind that readdir tells.
pub lookup-dir_entry :
    (xxh3 : String → ℕ → ℕ) (token : String) (rf : ℕ) (now : SystemTime) (rs : List Request)
    (p : InodeId) (m : Name) (c : InodeId) (a : Attr)
    → AllKeep xxh3 token (new rf now) rs
    → let s = run xxh3 token (new rf now) rs in
      entry s p m ≡ some c
      → lookup s p m ≡ done (some a)
      → (proto_attr_to_fuse a).kind ≡ proto_kind_to_fuse (dir_entry s (m, c)).kind
unfolding dir_entry
lookup-dir_entry xxh3 token rf now rs p m c a k e h =
    let s = run xxh3 token (new rf now) rs in
    let (i, g, same) = lookup-inode s p m c a e h in
    let t = run-AreTyped xxh3 token (new rf now) rs k (root-AreTyped rf now) c i g in
    rw (same, g) (typed_attr i t ∙ sym (proto_kind-kind_u32 i.kind))
