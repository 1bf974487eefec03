-- ===== src/Meta/Listing.antt =====
-- `read_dir` of crates/dtmpfs-meta/src/service.rs: one page of a directory, from the name behind
-- the cookie on.
use dtmpfs.Prelude.{
  ◌≡◌, true, false, ◌∷◌, ℕ, ◌-◌, Option, none, some, List, [], map, Tree, length, take, last,
  is_empty, ltb, if◌then◌else◌, nat_eq, ◌==◌, ◌^◌,
}
use dtmpfs.Prelude.Ord.{nat_ord, list_ord}
use dtmpfs.Prelude.HashMap
use dtmpfs.Prelude.BtreeMap
use dtmpfs.Common.Id.{InodeId, InodeKind, file}
use dtmpfs.Common.Error.{Result, done, fail, not_found}
use dtmpfs.Store.{status}
use dtmpfs.Meta.State.{Name, Inode, MetaState}
use dtmpfs.Meta.Messages.{DirEntry, ReadDirReq, ReadDirResp, kind_u32}
use dtmpfs.Meta.Utf8.{is_utf8, utf8_or_empty}

-- A missing inode is listed as a file.
abbrev pub kind_or_file : Option Inode → InodeKind
kind_or_file none = file
kind_or_file (some i) = i.kind

unfoldable pub dir_entry : MetaState → Name × InodeId → DirEntry
dir_entry s (name, child) = record {
  name = name;
  ino = child;
  kind = kind_u32 (kind_or_file (HashMap.get child s.inodes));
}

-- 0 stands for `usize::MAX`.
abbrev pub page_limit : ℕ → ℕ
page_limit n = if n == 0 then 2 ^ 64 - 1 else n

-- The entries behind a name; the empty name stands for the beginning.
unfoldable pub entries_after : Name → Tree Name InodeId → Tree Name InodeId
entries_after cookie d = if is_empty cookie then d else BtreeMap.range_after cookie d

abbrev pub name_or_empty : Option DirEntry → List ℕ
name_or_empty none = []
name_or_empty (some e) = e.name

abbrev pub response : ℕ → List DirEntry → ReadDirResp
response max entries = record {
  entries = entries;
  next_cookie = name_or_empty (last entries);
  eof = ltb (length entries) max;
}

unfoldable pub read_dir : MetaState → ReadDirReq → Result ReadDirResp
unfolding dir_entry entries_after utf8_or_empty
read_dir s r = elim (HashMap.get r.ino s.dirs) [
  | none ↦ fail (status not_found "directory not found")
  | some d ↦
      let max = page_limit r.max_entries in
      done (response max (map (dir_entry s) (take max (entries_after (utf8_or_empty r.cookie) d))))
]

-- The names of a directory, as the clients of the server give them: texts, none empty.
abbrev pub IsName : Name → Type 0
IsName n = (is_utf8 n ≡ true) × (is_empty n ≡ false)

abbrev pub AreNames : Tree Name InodeId → Type 0
AreNames [] = Unit {0}
AreNames ((n, c) ∷ d) = IsName n × AreNames d
