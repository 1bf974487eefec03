-- ===== src/Meta/Tree.antt =====
-- The abstract tree of names: what it is for a state to be one, and the three changes that the
-- handlers make to it. A change says everything about the entries, the kinds and the directories
-- of the new state, and nothing about how they are stored.
use dtmpfs.Prelude.{
  ◌≤◌, ◌<◌, ◌≡◌, ◌≢◌, Bool, true, false, none, some, arith, if◌then◌else◌, nat_eq, ◌==◌, list_eq,
  is_some,
}
use dtmpfs.Common.Id.{InodeId, InodeKind, file, dir, symlink, root}
use dtmpfs.Meta.State.{Name, MetaState}
use dtmpfs.Meta.Namespace.{entry}
use dtmpfs.Meta.View.{kind_at, has_dir, same_place, same_place_iff}

pub record IsTree (s : MetaState) : Type 0 where
  -- Numbers of inodes lie below the counter.
  pub below : (n : InodeId) → is_some (kind_at s n) ≡ true → n < s.next_ino
  -- The numbers with a directory are those of the inodes of that kind.
  pub dir_kind : (n : InodeId) → has_dir s.dirs n ≡ true → kind_at s n ≡ some dir
  pub kind_dir : (n : InodeId) → kind_at s n ≡ some dir → has_dir s.dirs n ≡ true
  -- An entry leads to an inode, and only one entry leads to it.
  pub child :
      (p : InodeId) (n : Name) (c : InodeId) → entry s p n ≡ some c → is_some (kind_at s c) ≡ true
  pub one_parent :
      (p q : InodeId) (n m : Name) (c : InodeId)
      → entry s p n ≡ some c
      → entry s q m ≡ some c
      → same_place p n q m ≡ true
  -- The root is a directory, and no entry leads to it.
  pub root_dir : has_dir s.dirs root ≡ true
  pub root_free : (p : InodeId) (n : Name) → entry s p n ≢ some root

abbrev pub is_dir_kind : InodeKind → Bool
is_dir_kind dir = true
is_dir_kind file = false
is_dir_kind symlink = false

-- A new inode under a free name.
pub record Adds (s s' : MetaState) (parent : InodeId) (name : Name) (ino : InodeId) (k : InodeKind)
    : Type 0 where
  pub kinds : (n : InodeId) → kind_at s' n ≡ (if ino == n then some k else kind_at s n)
  pub dirs :
      (n : InodeId) → has_dir s'.dirs n ≡ (if ino == n then is_dir_kind k else has_dir s.dirs n)
  pub entries :
      (p : InodeId) (n : Name)
      → entry s' p n ≡ (if same_place parent name p n then some ino else entry s p n)
  pub counter : s.next_ino ≤ s'.next_ino
  pub counted : ino < s'.next_ino

-- An entry goes, and its inode with it.
pub record Removes (s s' : MetaState) (parent : InodeId) (name : Name) (ino : InodeId)
    : Type 0 where
  pub kinds : (n : InodeId) → kind_at s' n ≡ (if ino == n then none else kind_at s n)
  pub dirs : (n : InodeId) → has_dir s'.dirs n ≡ (if ino == n then false else has_dir s.dirs n)
  pub entries :
      (p : InodeId) (n : Name)
      → entry s' p n ≡ (if same_place parent name p n then none else entry s p n)
  pub counter : s'.next_ino ≡ s.next_ino

-- An entry goes to another place, and nothing else changes.
pub record Moves (s s' : MetaState) (p : InodeId) (n : Name) (q : InodeId) (m : Name)
    (ino : InodeId) : Type 0 where
  pub kinds : (i : InodeId) → kind_at s' i ≡ kind_at s i
  pub dirs : (i : InodeId) → has_dir s'.dirs i ≡ has_dir s.dirs i
  pub entries :
      (a : InodeId) (b : Name)
      → entry s' a b ≡ (
          if same_place q m a b then some ino else if same_place p n a b then none else entry s a b)
  pub counter : s'.next_ino ≡ s.next_ino

pub Adds-IsTree :
    (s s' : MetaState) (parent : InodeId) (name : Name) (ino : InodeId) (k : InodeKind)
    → IsTree s
    → Adds s s' parent name ino k
    → kind_at s ino ≡ none
    → IsTree s'
Adds-IsTree s s' parent name ino k t a new = record {
  below = λ n h. ground (arith, t.below n, a.kinds n, a.counter, a.counted);
  dir_kind = λ n h. ground (arith, t.dir_kind n, a.kinds n, a.dirs n);
  kind_dir = λ n h. ground (arith, t.kind_dir n, a.kinds n, a.dirs n);
  child = λ p n c h. ground (arith, t.child p n c, a.kinds c, a.entries p n);
  one_parent = λ p q n m c h h'. ground (
    arith,
    t.one_parent p q n m c,
    a.entries p n,
    a.entries q m,
    t.child p n c,
    t.child q m c,
    same_place_iff parent p name n,
    same_place_iff parent q name m,
    same_place_iff p q n m,
  );
  root_dir = ground (arith, a.dirs root, t.root_dir, t.dir_kind root);
  root_free = λ p n h. ground (arith, t.root_free p n, a.entries p n, t.root_dir, t.dir_kind root);
}

pub Removes-IsTree :
    (s s' : MetaState) (parent : InodeId) (name : Name) (ino : InodeId)
    → IsTree s
    → Removes s s' parent name ino
    → entry s parent name ≡ some ino
    → IsTree s'
Removes-IsTree s s' parent name ino t a held = record {
  below = λ n h. ground (arith, t.below n, a.kinds n, a.counter);
  dir_kind = λ n h. ground (arith, t.dir_kind n, a.kinds n, a.dirs n);
  kind_dir = λ n h. ground (arith, t.kind_dir n, a.kinds n, a.dirs n);
  child = λ p n c h.
      ground (arith, t.child p n c, a.kinds c, a.entries p n, t.one_parent parent p name n c);
  one_parent =
      λ p q n m c h h'. ground (arith, t.one_parent p q n m c, a.entries p n, a.entries q m);
  root_dir = ground (arith, a.dirs root, t.root_dir, t.root_free parent name);
  root_free = λ p n h. ground (arith, t.root_free p n, a.entries p n);
}

pub Moves-IsTree :
    (s s' : MetaState) (p : InodeId) (n : Name) (q : InodeId) (m : Name) (ino : InodeId)
    → IsTree s
    → Moves s s' p n q m ino
    → entry s p n ≡ some ino
    → IsTree s'
Moves-IsTree s s' p n q m ino t a held = record {
  below = λ i h. ground (arith, t.below i, a.kinds i, a.counter);
  dir_kind = λ i h. ground (arith, t.dir_kind i, a.kinds i, a.dirs i);
  kind_dir = λ i h. ground (arith, t.kind_dir i, a.kinds i, a.dirs i);
  child = λ b x c h. ground (arith, t.child b x c, t.child p n c, a.kinds c, a.entries b x);
  one_parent = λ b d x y c h h'. ground (
    arith,
    t.one_parent b d x y c,
    a.entries b x,
    a.entries d y,
    t.one_parent p b n x c,
    t.one_parent p d n y c,
    same_place_iff q b m x,
    same_place_iff q d m y,
    same_place_iff b d x y,
  );
  root_dir = ground (arith, a.dirs root, t.root_dir);
  root_free = λ b x h. ground (arith, t.root_free b x, t.root_free p n, a.entries b x);
}
