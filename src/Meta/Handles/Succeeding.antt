-- ===== src/Meta/Handles/Succeeding.antt =====
-- A close that succeeds with written blocks, and what `allocate_blocks` leaves of the handles.
use dtmpfs.Prelude.{
  ◌≡◌, ◌∙◌, refl, String, ℕ, false, Option, none, some, List, [], ◌∷◌, arith, nat_eq, is_empty,
  Option-cases, inl, inr,
}
use native.Mathlib.Decide.{ℕ_discrete}
use dtmpfs.Common.Id.{InodeId, BlockIdx}
use dtmpfs.Common.Error.{done}
use dtmpfs.Meta.State.{SystemTime, Attr, Inode, OpenHandleSt, MetaState}
use dtmpfs.Meta.Messages.{CloseReq}
use dtmpfs.Meta.Handles.{published, close}
use dtmpfs.Meta.Handles.Closing.{inode_at, handle_at, Closes, close-published, close-stale}
use dtmpfs.Meta.Blocks.{allocate_one, allocate_all, allocate}

-- The handle and the inode that a close with written blocks has found.
pub record Published (now : SystemTime) (s s' : MetaState) (r : CloseReq) : Type 0 where
  pub handle : OpenHandleSt
  pub opened : handle_at s r.fh ≡ some handle
  pub inode : Inode
  pub current : inode.generation ≡ r.expected_generation
  pub there : inode_at s handle.ino ≡ some inode
  pub closes : Closes s s' r.fh handle.ino (published now r inode)

close_no_handle :
    (now : SystemTime) (s : MetaState) (r : CloseReq) (a : Option Attr)
    → handle_at s r.fh ≡ none
    → ¬ ((close now s r).0 ≡ done a)
unfolding close
close_no_handle now s r a e h = ground arith

close_no_inode :
    (now : SystemTime) (s : MetaState) (r : CloseReq) (k : OpenHandleSt) (a : Option Attr)
    → handle_at s r.fh ≡ some k
    → inode_at s k.ino ≡ none
    → ¬ ((close now s r).0 ≡ done a)
unfolding close
close_no_inode now s r k a e f h = ground arith

pub close-Published :
    (now : SystemTime) (s : MetaState) (r : CloseReq) (a : Option Attr)
    → is_empty r.written_block_idxs ≡ false
    → (close now s r).0 ≡ done a
    → Published now s (close now s r).1 r
close-Published now s r a w h = elim (Option-cases (handle_at s r.fh)) [
  | inl e ↦ absurd (close_no_handle now s r a e h)
  | inr (k, e) ↦ elim (Option-cases (inode_at s k.ino)) [
    | inl f ↦ absurd (close_no_inode now s r k a e f h)
    | inr (i, f) ↦ elim (ℕ_discrete i.generation r.expected_generation) [
      | no ne ↦ let (stale, _) = close-stale now s r k i e f w ne in absurd (ground (arith, stale))
      | yes same ↦ record {
        handle = k;
        opened = e;
        inode = i;
        current = same;
        there = f;
        closes = (close-published now s r k i e f w same).1;
      }
    ]
  ]
]

module _ (xxh3 : String → ℕ → ℕ) (ino : InodeId) where
  allocate_one-handles :
      (s : MetaState) (idx : BlockIdx)
      → (allocate_one xxh3 s ino idx).1.open_handles ≡ s.open_handles
  unfolding allocate_one
  allocate_one-handles s idx = ground arith

  allocate_all-handles :
      (s : MetaState) (idxs : List BlockIdx)
      → (allocate_all xxh3 s ino idxs).1.open_handles ≡ s.open_handles
  unfolding allocate_all
  allocate_all-handles s [] = refl
  allocate_all-handles s (idx ∷ idxs) =
      allocate_all-handles (allocate_one xxh3 s ino idx).1 idxs ∙ allocate_one-handles s idx

  pub allocate-handles :
      (s : MetaState) (idxs : List BlockIdx)
      → (allocate xxh3 s ino idxs).1.open_handles ≡ s.open_handles
  unfolding allocate
  allocate-handles s idxs = ground (arith, allocate_all-handles s idxs)
