-- ===== src/Meta/Rename/Itself.antt =====
-- `rename` of an entry onto itself, which takes the source for a file at the destination.
use dtmpfs.Prelude.{
  sym, subst, List, Option-cases, inl, inr, ◌≡◌, String, true, none, some, arith, nat_eq, list_eq,
}
use dtmpfs.Prelude.HashMap
use dtmpfs.Prelude.BtreeMap
use dtmpfs.Prelude.Ord.{list_ord, nat_ord}
use dtmpfs.Common.Id.{InodeId, file}
use dtmpfs.Common.Error.{Result, done}
use dtmpfs.Meta.State.{Name, MetaState, Inode}
use dtmpfs.Meta.Messages.{RenameReq, DeleteCall, node_addrs, fire_delete_blocks}
use dtmpfs.Meta.Namespace.{entry, drop_entry}
use dtmpfs.Meta.Rename.{
  Cleared, clear_kind, clear_dst, clear_entry, move_entry, adjust_links, rename_calls, rename,
}
use dtmpfs.Meta.View.{has_dir, same_place_iff, find_in-put, has_dir-update, find_in-has_dir}

abbrev pub onto : InodeId → Name → RenameReq
onto p n = record { src_parent_ino = p; src_name = n; dst_parent_ino = p; dst_name = n }

module _ (token : String) (s : MetaState) (p : InodeId) (n : Name) (c : InodeId) (i : Inode)
    (held : entry s p n ≡ some c) (found : HashMap.get c s.inodes ≡ some i)
    (kind : i.kind ≡ file) where
  cleared : Cleared
  cleared = record { state = clear_entry p n c s; blocks = i.blocks; ino = some c }

  rename-moves : rename token s (onto p n) ≡ move_entry token c (onto p n) cleared
  unfolding rename clear_dst clear_kind cleared
  rename-moves = ground arith

  abbrev Vanishes : Result (Unit {0}) × MetaState × List DeleteCall → Type 0
  Vanishes (answer, s', calls) =
      (answer ≡ done tt)
      × (entry s' p n ≡ some c)
      × (HashMap.get c s'.inodes ≡ none)
      × (calls ≡ fire_delete_blocks i.blocks (node_addrs s) c token)

  dropped : MetaState
  dropped = drop_entry p n (clear_entry p n c s)

  dropped-has_dir : has_dir dropped.dirs p ≡ true
  unfolding dropped
  dropped-has_dir = ground (
    arith,
    find_in-has_dir s.dirs p n c held,
    has_dir-update p p (BtreeMap.remove n) s.dirs,
    has_dir-update p p (BtreeMap.remove n) (HashMap.update p (BtreeMap.remove n) s.dirs),
  )

  dropped-inodes : HashMap.get c dropped.inodes ≡ none
  unfolding dropped
  dropped-inodes = ground (arith, HashMap.get-remove c c s.inodes)

  move_entry-Vanishes : Vanishes (move_entry token c (onto p n) cleared)
  unfolding move_entry adjust_links rename_calls node_addrs cleared dropped
  move_entry-Vanishes = elim (Option-cases (HashMap.get p dropped.dirs)) [
    | inl e ↦ absurd (ground (arith, dropped-has_dir))
    | inr (d, e) ↦ (
      ground arith,
      ground (arith, find_in-put p n c dropped.dirs p n, same_place_iff p p n n, dropped-has_dir),
      ground (arith, dropped-inodes),
      ground (arith, dropped-inodes),
    )
  ]

  -- Renaming a file onto itself succeeds. Its blocks are deleted on the storage nodes, its inode
  -- is gone, and the entry still leads to its number.
  pub rename-onto_itself :
      let (answer, s', calls) = rename token s (onto p n) in
      (answer ≡ done tt)
      × (entry s' p n ≡ some c)
      × (HashMap.get c s'.inodes ≡ none)
      × (calls ≡ fire_delete_blocks i.blocks (node_addrs s) c token)
  rename-onto_itself = subst Vanishes (sym rename-moves) move_entry-Vanishes
