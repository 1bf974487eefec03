-- ===== src/Meta/Steps/Trees.antt =====
-- The tree of names through any requests.
use dtmpfs.Prelude.{
  ℕ, ◌+◌, ◌<◌, ◌≡◌, refl, sym, subst, String, false, List, [], ◌∷◌, length, arith, nat_eq, list_eq,
  inl, inr,
}
use dtmpfs.Prelude.Ord.{nat_ord, list_ord}
use dtmpfs.Prelude.HashMap
use dtmpfs.Prelude.BtreeMap
use dtmpfs.Common.Id.{InodeId, dir, file, root, u64_mod}
use dtmpfs.Common.Error.{Result}
use dtmpfs.Meta.State.{SystemTime, Name, MetaState, watcher_tick, new}
use dtmpfs.Meta.Messages.{CreateReq, RenameReq}
use dtmpfs.Meta.Namespace.{find_in, create, mkdir, unlink, rmdir}
use dtmpfs.Meta.Handles.{open_handle}
use dtmpfs.Meta.Nodes.{heartbeat_node}
use dtmpfs.Meta.View.{kind_in, find_in-drop, has_dir-update}
use dtmpfs.Meta.Tree.{IsTree, Adds-IsTree, Removes-IsTree}
use dtmpfs.Meta.Namespace.Changes.{
  make_file-Adds, make_dir-Adds, new_kind, create-cases, mkdir-cases,
}
use dtmpfs.Meta.Namespace.Removing.{
  unlink_inode-Removes, remove_dir-Removes, rmdir-cases, unlink-cases,
}
use dtmpfs.Meta.Rename.Moving.{onto_itself}
use dtmpfs.Meta.Rename.Outcomes.{Outcome, moved, no_source, full, lost, rename-Outcome}
use dtmpfs.Meta.Steps.{
  Request, sets_attr, creates, mkdirs, unlinks, rmdirs, renames, opens, closes, allocates,
  heartbeats, ticks, step, run,
}
use dtmpfs.Meta.Steps.SameTree.{
  SameTree-IsTree, set_attr-SameTree, close-SameTree, allocate-SameTree,
}
use dtmpfs.Meta.Steps.Counter.{step-counter}

drop_entry-IsTree :
    (s : MetaState) (p : InodeId) (n : Name)
    → IsTree s
    → IsTree (record s { dirs = HashMap.update p (BtreeMap.remove n) s.dirs })
drop_entry-IsTree s p n t = record {
  below = t.below;
  dir_kind = λ i h. ground (arith, t.dir_kind i, has_dir-update p i (BtreeMap.remove n) s.dirs);
  kind_dir = λ i h. ground (arith, t.kind_dir i, has_dir-update p i (BtreeMap.remove n) s.dirs);
  child = λ a x c h. ground (arith, t.child a x c, find_in-drop p n s.dirs a x);
  one_parent = λ a b x y c h h'.
      ground
        (arith, t.one_parent a b x y c, find_in-drop p n s.dirs a x, find_in-drop p n s.dirs b y);
  root_dir = ground (arith, t.root_dir, has_dir-update p root (BtreeMap.remove n) s.dirs);
  root_free = λ a x h. ground (arith, t.root_free a x, find_in-drop p n s.dirs a x);
}

Outcome-IsTree :
    {s s' : MetaState} {r : RenameReq} {answer : Result (Unit {0})}
    → IsTree s
    → Outcome s r answer s'
    → IsTree s'
Outcome-IsTree t (moved src _ _ _ _ _ t') = t'
Outcome-IsTree t (no_source _ _ same) = subst IsTree (sym same) t
Outcome-IsTree t (full _ _ same) = subst IsTree (sym same) t
Outcome-IsTree {s} {r = r} t (lost _ _ same) =
    subst IsTree (sym same) (drop_entry-IsTree s r.src_parent_ino r.src_name t)

-- A request that the theorem below covers: any but a rename onto itself.
abbrev pub Covered : Request → Type 0
Covered (renames r) = onto_itself r ≡ false
Covered _ = Unit {0}

abbrev pub AllCovered : List Request → Type 0
AllCovered [] = Unit {0}
AllCovered (r ∷ rs) = Covered r × AllCovered rs

module _ (xxh3 : String → ℕ → ℕ) (token : String) (s : MetaState) (t : IsTree s) where
  create-IsTree :
      (now : SystemTime) (r : CreateReq) → s.next_ino + 1 < u64_mod → IsTree (create now s r).1
  create-IsTree now r small = elim (create-cases now s r) [
    | inl ((held, free), e) ↦
        rw e
          (Adds-IsTree s _ _ _ _ file t (make_file-Adds now s r small held t) (new_kind now s r t))
    | inr (_, same, _) ↦ rw same t
  ]

  mkdir-IsTree :
      (now : SystemTime) (r : CreateReq) → s.next_ino + 1 < u64_mod → IsTree (mkdir now s r).1
  mkdir-IsTree now r small = elim (mkdir-cases now s r) [
    | inl ((held, free), e) ↦
        rw e (Adds-IsTree s _ _ _ _ dir t (make_dir-Adds now s r small held t) (new_kind now s r t))
    | inr (_, same, _) ↦ rw same t
  ]

  unlink-IsTree : (parent : InodeId) (name : Name) → IsTree (unlink token s parent name).1
  unlink-IsTree parent name = elim (unlink-cases s parent name token) [
    | inl (child, i, held, found, other, e, _) ↦ rw e (
        Removes-IsTree s _ parent name child t
          (unlink_inode-Removes s parent name token child i t found other) held)
    | inr (_, same, _, _) ↦ rw same t
  ]

  rmdir-IsTree : (parent : InodeId) (name : Name) → IsTree (rmdir s parent name).1
  rmdir-IsTree parent name = elim (rmdir-cases s parent name) [
    | inl (child, held, empty, e) ↦ rw e (
        Removes-IsTree s _ parent name child t (remove_dir-Removes s parent name child t empty)
          held)
    | inr (_, same, _) ↦ rw same t
  ]

  step-IsTree : (r : Request) → s.next_ino + 1 < u64_mod → Covered r → IsTree (step xxh3 token s r)
  unfolding step open_handle heartbeat_node watcher_tick
  step-IsTree (sets_attr now r) small c = SameTree-IsTree s _ t (set_attr-SameTree token now s r)
  step-IsTree (creates now r) small c = create-IsTree now r small
  step-IsTree (mkdirs now r) small c = mkdir-IsTree now r small
  step-IsTree (unlinks parent name) small c = unlink-IsTree parent name
  step-IsTree (rmdirs parent name) small c = rmdir-IsTree parent name
  step-IsTree (renames r) small c = Outcome-IsTree t (rename-Outcome token s r t c)
  step-IsTree (opens r o) small c =
      SameTree-IsTree s _ t (record { kinds = λ n. refl; dirs = refl; counter = refl })
  step-IsTree (closes now r) small c = SameTree-IsTree s _ t (close-SameTree now s r)
  step-IsTree (allocates ino idxs) small c =
      SameTree-IsTree s _ t (allocate-SameTree xxh3 s ino idxs)
  step-IsTree (heartbeats now r) small c =
      SameTree-IsTree s _ t (record { kinds = λ n. refl; dirs = refl; counter = refl })
  step-IsTree (ticks now dead_after) small c =
      SameTree-IsTree s _ t (record { kinds = λ n. refl; dirs = refl; counter = refl })

module _ (xxh3 : String → ℕ → ℕ) (token : String) where
  -- From a tree of names, any requests but renames onto themselves lead to a tree of names, as
  -- long as the counter of inode numbers does not reach 2 ^ 64: every entry leads to an inode, no
  -- two entries lead to one, the directories are the inodes of that kind, and the root stays.
  pub run-IsTree :
      (s : MetaState) (rs : List Request)
      → IsTree s
      → s.next_ino + length rs < u64_mod
      → AllCovered rs
      → IsTree (run xxh3 token s rs)
  unfolding run
  run-IsTree s [] t small c = t
  run-IsTree s (r ∷ rs) t small c =
      run-IsTree (step xxh3 token s r) rs (step-IsTree xxh3 token s t r (omega arith) c.0)
        (omega (arith, step-counter xxh3 token s r (omega arith))) c.1

pub new-IsTree : (rf : ℕ) (now : SystemTime) → IsTree (new rf now)
unfolding new find_in kind_in HashMap.get BtreeMap.get
new-IsTree rf now = record {
  below = λ n h. ground arith;
  dir_kind = λ n h. ground arith;
  kind_dir = λ n h. ground arith;
  child = λ p n c h. ground arith;
  one_parent = λ p q n m c h h'. ground arith;
  root_dir = refl;
  root_free = λ p n h. ground arith;
}
