-- ===== src/Meta/Rename/Moving.antt =====
-- The steps of `rename` of crates/dtmpfs-meta/src/service.rs: the destination is cleared, and then
-- the entry moves.
use dtmpfs.Prelude.{◌≡◌, sym, subst, String, Bool, true, false, some, [], arith, nat_eq, list_eq}
use dtmpfs.Prelude.HashMap
use dtmpfs.Prelude.BtreeMap
use dtmpfs.Prelude.Ord.{list_ord, nat_ord}
use dtmpfs.Common.Id.{InodeId, dir}
use dtmpfs.Common.Error.{done, fail, not_found}
use dtmpfs.Store.{status}
use dtmpfs.Meta.State.{MetaState}
use dtmpfs.Meta.Messages.{RenameReq}
use dtmpfs.Meta.Namespace.{entry, put_entry, drop_entry, link_down}
use dtmpfs.Meta.Rename.{Cleared, adjust_links, move_entry}
use dtmpfs.Meta.View.{
  kind_at, has_dir, same_place, find_in-put, find_in-drop, has_dir-update, kind_in-link_up,
  kind_in-link_down,
}
use dtmpfs.Meta.Tree.{IsTree, Moves, Removes-IsTree}
use dtmpfs.Meta.Rename.Clearing.{Clears, nothing, removed, IsReplaceable}

abbrev pub onto_itself : RenameReq → Bool
onto_itself r = same_place r.dst_parent_ino r.dst_name r.src_parent_ino r.src_name

module _ (s : MetaState) (r : RenameReq) (src : InodeId) where
  pub Clears-IsTree :
      {mid : MetaState} → IsTree s → Clears s mid r.dst_parent_ino r.dst_name → IsTree mid
  Clears-IsTree t (nothing e same) = subst IsTree (sym same) t
  Clears-IsTree {mid} t (removed old e rm) = Removes-IsTree s mid _ _ old t rm e

  -- Clearing another place leaves the source where it is.
  pub Clears-src :
      {mid : MetaState}
      → Clears s mid r.dst_parent_ino r.dst_name
      → onto_itself r ≡ false
      → entry s r.src_parent_ino r.src_name ≡ some src
      → entry mid r.src_parent_ino r.src_name ≡ some src
  Clears-src (nothing e same) other held = rw same held
  Clears-src (removed old e rm) other held = ground (arith, rm.entries r.src_parent_ino r.src_name)

  pub Clears-dst :
      {mid : MetaState}
      → IsTree s
      → Clears s mid r.dst_parent_ino r.dst_name
      → IsReplaceable s (entry s r.dst_parent_ino r.dst_name)
      → has_dir s.dirs r.dst_parent_ino ≡ true
      → has_dir mid.dirs r.dst_parent_ino ≡ true
  Clears-dst t (nothing e same) ok held = rw same held
  Clears-dst t (removed old e rm) ok held =
      let free = subst (IsReplaceable s) e ok in
      ground (
        arith,
        rm.dirs r.dst_parent_ino,
        t.dir_kind r.dst_parent_ino,
        (λ (h : kind_at s old ≡ some dir). free h r.dst_name),
      )

  module _ (mid : MetaState) where
    unfoldable pub after_drop : MetaState
    after_drop = drop_entry r.src_parent_ino r.src_name mid

    pub after_put : MetaState
    unfolding after_drop
    after_put = put_entry r.dst_parent_ino r.dst_name src after_drop

    pub adjusted-Moves :
        has_dir mid.dirs r.dst_parent_ino ≡ true
        → Moves mid
            (adjust_links src r after_put)
            r.src_parent_ino
            r.src_name
            r.dst_parent_ino
            r.dst_name
            src
    unfolding adjust_links after_put
    adjusted-Moves held = record {
      kinds = λ i. ground (
        arith,
        kind_in-link_up (HashMap.update r.src_parent_ino link_down mid.inodes) i r.dst_parent_ino,
        kind_in-link_down mid.inodes i r.src_parent_ino,
      );
      dirs = λ i. ground (
        arith,
        has_dir-update r.dst_parent_ino i (BtreeMap.insert r.dst_name src)
            (HashMap.update r.src_parent_ino (BtreeMap.remove r.src_name) mid.dirs),
        has_dir-update r.src_parent_ino i (BtreeMap.remove r.src_name) mid.dirs,
      );
      entries = λ a b. ground (
        arith,
        find_in-put r.dst_parent_ino r.dst_name src
            (HashMap.update r.src_parent_ino (BtreeMap.remove r.src_name) mid.dirs) a b,
        find_in-drop r.src_parent_ino r.src_name mid.dirs a b,
        has_dir-update r.src_parent_ino r.dst_parent_ino (BtreeMap.remove r.src_name) mid.dirs,
      );
      counter = ground arith;
    }

    after_drop-has_dir : (q : InodeId) → has_dir after_drop.dirs q ≡ has_dir mid.dirs q
    unfolding after_drop
    after_drop-has_dir q = has_dir-update r.src_parent_ino q (BtreeMap.remove r.src_name) mid.dirs

  pub move_entry_done :
      (token : String) (c : Cleared)
      → has_dir c.state.dirs r.dst_parent_ino ≡ true
      → ((move_entry token src r c).0 ≡ done tt)
        × ((move_entry token src r c).1 ≡ adjust_links src r (after_put c.state))
  unfolding move_entry after_put
  move_entry_done token c held =
      let h = after_drop-has_dir c.state r.dst_parent_ino in (ground arith, ground arith)

  pub move_entry_lost :
      (token : String) (c : Cleared)
      → has_dir c.state.dirs r.dst_parent_ino ≡ false
      → move_entry token src r c
        ≡ (fail (status not_found "dst parent not found"), after_drop c.state, [])
  unfolding move_entry after_drop
  move_entry_lost token c held = let h = after_drop-has_dir c.state r.dst_parent_ino in ground arith
