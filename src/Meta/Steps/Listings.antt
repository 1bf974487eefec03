-- ===== src/Meta/Steps/Listings.antt =====
-- Directories through any run: their names are texts, and they are kept in order.
use dtmpfs.Prelude.{ℕ, ◌≡◌, sym, subst, String, List, [], ◌∷◌, Tree, arith, nat_eq, list_eq}
use dtmpfs.Prelude.Ord.{nat_ord, list_ord}
use dtmpfs.Prelude.HashMap
use dtmpfs.Prelude.BtreeMap
use dtmpfs.Prelude.BtreeMap.{IsSorted, insert-IsSorted, remove-IsSorted}
use dtmpfs.Common.Id.{InodeId}
use dtmpfs.Meta.State.{SystemTime, Name, MetaState, watcher_tick, new}
use dtmpfs.Meta.Handles.{open_handle}
use dtmpfs.Meta.Nodes.{heartbeat_node}
use dtmpfs.Meta.Listing.{IsName, AreNames}
use dtmpfs.Meta.Steps.{
  Request, sets_attr, creates, mkdirs, unlinks, rmdirs, renames, opens, closes, allocates,
  heartbeats, ticks, step, run,
}
use dtmpfs.Meta.Steps.SameTree.{set_attr-SameTree, close-SameTree, allocate-SameTree}
use dtmpfs.Meta.Steps.Directories.{
  IsKept, EachDir, create-EachDir, mkdir-EachDir, unlink-EachDir, rmdir-EachDir, rename-EachDir,
}

abbrev pub IsListing : Tree Name InodeId → Type 0
IsListing d = IsSorted d × AreNames d

remove-AreNames : (n : Name) (d : Tree Name InodeId) → AreNames d → AreNames (BtreeMap.remove n d)
unfolding BtreeMap.remove
remove-AreNames n [] a = tt
remove-AreNames n ((m, c) ∷ d) a = ground (arith, remove-AreNames n d a.1)

insert-AreNames :
    (n : Name) (c : InodeId) (d : Tree Name InodeId)
    → IsName n
    → AreNames d
    → AreNames (BtreeMap.insert n c d)
unfolding BtreeMap.insert
insert-AreNames n c [] good a = (good, tt)
insert-AreNames n c ((m, e) ∷ d) good a = ground (arith, insert-AreNames n c d good a.1)

IsListing-IsKept : IsKept IsListing IsName
IsListing-IsKept = record {
  empty = (tt, tt);
  remove = λ n d l. (remove-IsSorted n d l.0, remove-AreNames n d l.1);
  insert = λ n c d good l. (insert-IsSorted n c d l.0, insert-AreNames n c d good l.1);
}

-- The new names in requests are texts, and none is empty.
abbrev pub HasNames : Request → Type 0
HasNames (creates now r) = IsName r.name
HasNames (mkdirs now r) = IsName r.name
HasNames (renames r) = IsName r.dst_name
HasNames _ = Unit {0}

abbrev pub HaveNames : List Request → Type 0
HaveNames [] = Unit {0}
HaveNames (r ∷ rs) = HasNames r × HaveNames rs

module _ (xxh3 : String → ℕ → ℕ) (token : String) where
  step-EachDir :
      (s : MetaState) (r : Request)
      → HasNames r
      → EachDir IsListing s.dirs
      → EachDir IsListing (step xxh3 token s r).dirs
  unfolding step open_handle heartbeat_node watcher_tick
  step-EachDir s (sets_attr now r) h e =
      subst (EachDir IsListing) (sym (set_attr-SameTree token now s r).dirs) e
  step-EachDir s (creates now r) h e = create-EachDir IsListing IsName IsListing-IsKept s e now r h
  step-EachDir s (mkdirs now r) h e = mkdir-EachDir IsListing IsName IsListing-IsKept s e now r h
  step-EachDir s (unlinks p n) h e = unlink-EachDir IsListing IsName IsListing-IsKept s e token p n
  step-EachDir s (rmdirs p n) h e = rmdir-EachDir IsListing IsName IsListing-IsKept s e p n
  step-EachDir s (renames r) h e = rename-EachDir IsListing IsName IsListing-IsKept s e token r h
  step-EachDir s (opens r o) h e = e
  step-EachDir s (closes now r) h e =
      subst (EachDir IsListing) (sym (close-SameTree now s r).dirs) e
  step-EachDir s (allocates ino idxs) h e =
      subst (EachDir IsListing) (sym (allocate-SameTree xxh3 s ino idxs).dirs) e
  step-EachDir s (heartbeats now r) h e = e
  step-EachDir s (ticks now dead_after) h e = e

  pub run-EachDir :
      (s : MetaState) (rs : List Request)
      → HaveNames rs
      → EachDir IsListing s.dirs
      → EachDir IsListing (run xxh3 token s rs).dirs
  unfolding run
  run-EachDir s [] h e = e
  run-EachDir s (r ∷ rs) h e = run-EachDir (step xxh3 token s r) rs h.1 (step-EachDir s r h.0 e)

pub new-EachDir :
    (replication_factor : ℕ) (now : SystemTime)
    → EachDir IsListing (new replication_factor now).dirs
unfolding new HashMap.get
new-EachDir replication_factor now p d h =
    let same : ◌≡◌ {A = Tree Name InodeId} [] d = ground arith in subst IsListing same (tt, tt)
