-- ===== src/Meta/Blocks/Allocating.antt =====
-- `allocate_blocks`: what has a placement keeps it, what is asked for gets one, and asking again
-- changes nothing.
use dtmpfs.Prelude.{
  ℕ, ◌≡◌, refl, sym, ◌∙◌, ap, subst, String, Bool, true, none, some, List, [], ◌∷◌, nat_eq,
  string_eq, arith, Option-cases, inl, inr, if◌then◌else◌, ◌&&◌, ◌==◌, ◌&&◌, ◌==◌,
}
use dtmpfs.Prelude.Ord.{nat_ord}
use dtmpfs.Prelude.HashMap
use dtmpfs.Prelude.BtreeMap
use dtmpfs.Common.Id.{InodeId, BlockIdx, BlockPlacement}
use dtmpfs.Common.Error.{done}
use dtmpfs.Meta.State.{MetaState, place}
use dtmpfs.Meta.Messages.{BlockLoc, Reply, placement_to_block_loc}
use dtmpfs.Meta.Blocks.{placement_at, put_block, allocate_one, allocate_all, allocate}

module _ (ino : InodeId) where
  abbrev pub has_inode : MetaState → Bool
  has_inode s = HashMap.contains_key ino s.inodes

  -- Placements are only added, and the inode stays.
  pub record Grows (s s' : MetaState) : Type 0 where
    pub keeps :
        (idx : BlockIdx) (p : BlockPlacement)
        → placement_at s ino idx ≡ some p
        → placement_at s' ino idx ≡ some p
    pub stays : has_inode s ≡ true → has_inode s' ≡ true

  Grows-refl : (s : MetaState) → Grows s s
  Grows-refl s = record { keeps = λ idx p h. h; stays = λ h. h }

  Grows-trans : (s s' s'' : MetaState) → Grows s s' → Grows s' s'' → Grows s s''
  Grows-trans s s' s'' g h = record {
    keeps = λ idx p e. h.keeps idx p (g.keeps idx p e);
    stays = λ e. h.stays (g.stays e);
  }

  placement_at-put :
      (s : MetaState) (idx j : BlockIdx) (p : BlockPlacement)
      → placement_at (record s { inodes = HashMap.update ino (put_block idx p) s.inodes }) ino j
        ≡ (if has_inode s && idx == j then some p else placement_at s ino j)
  unfolding placement_at
  placement_at-put s idx j p = elim (Option-cases (HashMap.get ino s.inodes)) [
    | inl e ↦ ground (arith, HashMap.get-update ino ino (put_block idx p) s.inodes)
    | inr (i, e) ↦ ground (
      arith,
      HashMap.get-update ino ino (put_block idx p) s.inodes,
      BtreeMap.get-insert idx j p i.blocks,
    )
  ]

  has_inode-put :
      (s : MetaState) (idx : BlockIdx) (p : BlockPlacement)
      → has_inode (record s { inodes = HashMap.update ino (put_block idx p) s.inodes })
        ≡ has_inode s
  has_inode-put s idx p = ground (arith, HashMap.get-update ino ino (put_block idx p) s.inodes)

  -- Each location is that of a placement of the state.
  abbrev pub ArePlaced : MetaState → List BlockIdx → List BlockLoc → Type 0
  ArePlaced s [] [] = Unit {0}
  ArePlaced s (idx ∷ idxs) (l ∷ ls) =
      ((p : BlockPlacement) × (l ≡ placement_to_block_loc idx p)
        × (placement_at s ino idx ≡ some p))
      × ArePlaced s idxs ls
  ArePlaced s _ _ = ⊥

  ArePlaced-Grows :
      (s s' : MetaState) (idxs : List BlockIdx) (ls : List BlockLoc)
      → Grows s s'
      → ArePlaced s idxs ls
      → ArePlaced s' idxs ls
  ArePlaced-Grows s s' [] [] g a = tt
  ArePlaced-Grows s s' (idx ∷ idxs) (l ∷ ls) g ((p, e, f), a) =
      ((p, e, g.keeps idx p f), ArePlaced-Grows s s' idxs ls g a)
  ArePlaced-Grows s s' [] (l ∷ ls) g a = elim a [ ]
  ArePlaced-Grows s s' (idx ∷ idxs) [] g a = elim a [ ]

module _ (xxh3 : String → ℕ → ℕ) (ino : InodeId) where
  -- A block that has a placement.
  allocate_one-again :
      (s : MetaState) (idx : BlockIdx) (p : BlockPlacement)
      → placement_at s ino idx ≡ some p
      → allocate_one xxh3 s ino idx ≡ (placement_to_block_loc idx p, s)
  unfolding allocate_one
  allocate_one-again s idx p e = ground arith

  abbrev placed_now : MetaState → BlockIdx → MetaState
  placed_now s idx = record s {
    inodes = HashMap.update ino (put_block idx (place xxh3 s ino idx)) s.inodes;
  }

  -- A block that has none.
  allocate_one-new :
      (s : MetaState) (idx : BlockIdx)
      → placement_at s ino idx ≡ none
      → allocate_one xxh3 s ino idx
        ≡ (placement_to_block_loc idx (place xxh3 s ino idx), placed_now s idx)
  unfolding allocate_one
  allocate_one-new s idx e = ground arith

  -- What one round makes of its block.
  record One (s : MetaState) (idx : BlockIdx) (x : BlockLoc × MetaState) : Type 0 where
    grows : Grows ino s x.1
    placement : BlockPlacement
    loc : x.0 ≡ placement_to_block_loc idx placement
    there : placement_at x.1 ino idx ≡ some placement

  allocate_one-One :
      (s : MetaState) (idx : BlockIdx)
      → has_inode ino s ≡ true
      → One s idx (allocate_one xxh3 s ino idx)
  allocate_one-One s idx h = elim (Option-cases (placement_at s ino idx)) [
    | inr (p, e) ↦
        rw (allocate_one-again s idx p e)
          (record { grows = Grows-refl ino s; placement = p; loc = refl; there = e })
    | inl e ↦ rw (allocate_one-new s idx e) (record {
      grows = record {
        keeps = λ j p k. ground (arith, placement_at-put ino s idx j (place xxh3 s ino idx));
        stays = λ k. ground (arith, has_inode-put ino s idx (place xxh3 s ino idx));
      };
      placement = place xxh3 s ino idx;
      loc = refl;
      there = ground (arith, placement_at-put ino s idx idx (place xxh3 s ino idx));
    })
  ]

  allocate_all-placed :
      (s : MetaState) (idxs : List BlockIdx)
      → has_inode ino s ≡ true
      → Grows ino s (allocate_all xxh3 s ino idxs).1
        × ArePlaced ino (allocate_all xxh3 s ino idxs).1 idxs (allocate_all xxh3 s ino idxs).0
  unfolding allocate_all
  allocate_all-placed s [] h = (Grows-refl ino s, tt)
  allocate_all-placed s (idx ∷ idxs) h =
      let one = allocate_one-One s idx h in
      let s1 = (allocate_one xxh3 s ino idx).1 in
      let (g, a) = allocate_all-placed s1 idxs (one.grows.stays h) in
      (
        Grows-trans ino s s1 _ one.grows g,
        ((one.placement, one.loc, g.keeps idx one.placement one.there), a),
      )

  -- Blocks that have placements are only looked up.
  allocate_all-again :
      (s : MetaState) (idxs : List BlockIdx) (ls : List BlockLoc)
      → ArePlaced ino s idxs ls
      → allocate_all xxh3 s ino idxs ≡ (ls, s)
  unfolding allocate_all
  allocate_all-again s [] [] a = refl
  allocate_all-again s (idx ∷ idxs) (l ∷ ls) ((p, e, f), a) =
      ground (arith, allocate_one-again s idx p f, allocate_all-again s idxs ls a, e)
  allocate_all-again s [] (l ∷ ls) a = elim a [ ]
  allocate_all-again s (idx ∷ idxs) [] a = elim a [ ]

  allocate-there :
      (s : MetaState) (idxs : List BlockIdx)
      → has_inode ino s ≡ true
      → allocate xxh3 s ino idxs
        ≡ (done (allocate_all xxh3 s ino idxs).0, (allocate_all xxh3 s ino idxs).1)
  unfolding allocate
  allocate-there s idxs h = ground arith

  -- What `allocate_blocks` answers and leaves.
  pub record Allocates (s : MetaState) (idxs : List BlockIdx) (x : Reply (List BlockLoc))
      : Type 0 where
    pub locs : List BlockLoc
    pub answered : x.0 ≡ done locs
    pub grows : Grows ino s x.1
    pub placed : ArePlaced ino x.1 idxs locs
    pub again :
        (later : MetaState)
        → Grows ino x.1 later
        → allocate xxh3 later ino idxs ≡ (done locs, later)

-- For an inode that is there, allocate_blocks keeps every placement that the inode has, answers
-- one location for each block asked for, in order, which is its placement afterwards, and, in any
-- later state that has kept these placements, answers the same and changes nothing.
pub allocate-Allocates :
    (xxh3 : String → ℕ → ℕ) (ino : InodeId) (s : MetaState) (idxs : List BlockIdx)
    → has_inode ino s ≡ true
    → Allocates xxh3 ino s idxs (allocate xxh3 s ino idxs)
allocate-Allocates xxh3 ino s idxs h =
    let (g, a) = allocate_all-placed xxh3 ino s idxs h in
    let s1 = (allocate_all xxh3 s ino idxs).1 in
    let ls = (allocate_all xxh3 s ino idxs).0 in
    subst (Allocates xxh3 ino s idxs) (sym (allocate-there xxh3 ino s idxs h)) (record {
      locs = ls;
      answered = refl;
      grows = g;
      placed = a;
      again = λ later k.
          allocate-there xxh3 ino later idxs (k.stays (g.stays h))
          ∙ ap (λ x. (done x.0, x.1))
              (allocate_all-again xxh3 ino later idxs ls
                (ArePlaced-Grows ino s1 later idxs ls k a));
    })
