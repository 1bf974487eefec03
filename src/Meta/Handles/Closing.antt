-- ===== src/Meta/Handles/Closing.antt =====
-- `close`: a handle is good for one close, and of two writers that opened one generation only the
-- first to close with written blocks is let through.
use dtmpfs.Prelude.{
  ℕ, ◌≡◌, ◌≢◌, refl, true, false, Option, none, some, arith, nat_eq, ◌==◌, is_empty, if◌then◌else◌,
  Option-cases, inl, inr,
}
use dtmpfs.Prelude.HashMap
use dtmpfs.Common.Id.{InodeId}
use dtmpfs.Common.Error.{done, fail, failed_precondition}
use dtmpfs.Store.{status}
use dtmpfs.Meta.State.{SystemTime, Inode, OpenHandleSt, MetaState, build_attr}
use dtmpfs.Meta.Messages.{CloseReq, CreateResp}
use dtmpfs.Meta.Handles.{OpenReq, open_file, published, close}

abbrev pub inode_at : MetaState → InodeId → Option Inode
inode_at s n = HashMap.get n s.inodes

abbrev pub handle_at : MetaState → ℕ → Option OpenHandleSt
handle_at s fh = HashMap.get fh s.open_handles

-- What `close` does to the inodes and the handles, with its answer.
pub record Closes (s s' : MetaState) (fh : ℕ) (ino : InodeId) (i : Inode) : Type 0 where
  pub inodes : (n : InodeId) → inode_at s' n ≡ (if ino == n then some i else inode_at s n)
  pub handles : (h : ℕ) → handle_at s' h ≡ (if fh == h then none else handle_at s h)
  pub dirs : s'.dirs ≡ s.dirs

module _ (now : SystemTime) (s : MetaState) (r : CloseReq) (h : OpenHandleSt) (i : Inode)
    (opened : handle_at s r.fh ≡ some h) (there : inode_at s h.ino ≡ some i) where
  close-plain :
      is_empty r.written_block_idxs ≡ true
      → ((close now s r).0 ≡ done (some (build_attr i))) × Closes s (close now s r).1 r.fh h.ino i
  unfolding close
  close-plain e = (
    ground arith,
    record {
      inodes = λ n. ground arith;
      handles = λ k. ground (arith, HashMap.get-remove r.fh k s.open_handles);
      dirs = ground arith;
    },
  )

  pub close-stale :
      is_empty r.written_block_idxs ≡ false
      → i.generation ≢ r.expected_generation
      → ((close now s r).0 ≡ fail (status failed_precondition "generation mismatch"))
        × Closes s (close now s r).1 r.fh h.ino i
  unfolding close
  close-stale e ne = (
    ground arith,
    record {
      inodes = λ n. ground arith;
      handles = λ k. ground (arith, HashMap.get-remove r.fh k s.open_handles);
      dirs = ground arith;
    },
  )

  pub close-published :
      is_empty r.written_block_idxs ≡ false
      → i.generation ≡ r.expected_generation
      → ((close now s r).0 ≡ done (some (build_attr (published now r i))))
        × Closes s (close now s r).1 r.fh h.ino (published now r i)
  unfolding close
  close-published e eq = (
    ground (arith, HashMap.get-update h.ino h.ino (published now r) s.inodes),
    record {
      inodes = λ n. ground (arith, HashMap.get-update h.ino n (published now r) s.inodes);
      handles = λ k. ground (arith, HashMap.get-remove r.fh k s.open_handles);
      dirs = ground arith;
    },
  )

-- What a successful `open` answers and leaves.
pub record Opens (s s' : MetaState) (o : OpenReq) (i : Inode) (a : CreateResp) : Type 0 where
  pub fh : a.fh ≡ s.next_fh
  pub attr : a.attr ≡ some (build_attr i)
  pub inodes : s'.inodes ≡ s.inodes
  pub dirs : s'.dirs ≡ s.dirs
  pub handle : OpenHandleSt
  pub handle_ino : handle.ino ≡ o.ino
  pub handles : s'.open_handles ≡ HashMap.insert s.next_fh handle s.open_handles

open_file-Opens :
    (s : MetaState) (o : OpenReq) (a : CreateResp) (i : Inode)
    → inode_at s o.ino ≡ some i
    → (open_file s o).0 ≡ done a
    → Opens s (open_file s o).1 o i a
unfolding open_file
open_file-Opens s o a i e h = record {
  fh = ground arith;
  attr = ground arith;
  inodes = ground arith;
  dirs = ground arith;
  handle = record {
    fh = s.next_fh;
    ino = o.ino;
    flags = o.flags;
    generation_at_open = i.generation;
  };
  handle_ino = refl;
  handles = ground arith;
}

opened_then_closed :
    (now : SystemTime) (s : MetaState) (o : OpenReq) (r : CloseReq) (a : CreateResp) (i : Inode)
    → inode_at s o.ino ≡ some i
    → r.fh ≡ a.fh
    → is_empty r.written_block_idxs ≡ true
    → Opens s (open_file s o).1 o i a
    → let s' = (open_file s o).1 in
      ((close now s' r).0 ≡ done a.attr)
      × ((n : InodeId) → inode_at (close now s' r).1 n ≡ inode_at s n)
      × ((h : ℕ) → handle_at (close now s' r).1 h ≡ (if a.fh == h then none else handle_at s h))
      × ((close now s' r).1.dirs ≡ s.dirs)
opened_then_closed now s o r a i e same nothing p =
    let s' = (open_file s o).1 in
    let found : handle_at s' r.fh ≡ some p.handle =
      ground (arith, HashMap.get-insert s.next_fh r.fh p.handle s.open_handles, p.handles, p.fh) in
    let there : inode_at s' p.handle.ino ≡ some i = ground (arith, p.inodes, p.handle_ino) in
    let (answer, c) = close-plain now s' r p.handle i found there nothing in
    (
      ground (arith, p.attr),
      (λ n. ground (arith, c.inodes n, p.inodes, p.handle_ino)),
      (λ h. ground (
        arith,
        c.handles h,
        p.handles,
        p.fh,
        HashMap.get-insert s.next_fh h p.handle s.open_handles,
      )),
      ground (arith, c.dirs, p.dirs),
    )

-- Opening a file and closing it with nothing written answers the same attributes twice, and leaves
-- every inode, every other handle and the names as they were.
pub open-close :
    (now : SystemTime) (s : MetaState) (o : OpenReq) (r : CloseReq) (a : CreateResp)
    → (open_file s o).0 ≡ done a
    → r.fh ≡ a.fh
    → is_empty r.written_block_idxs ≡ true
    → let s' = (open_file s o).1 in
      ((close now s' r).0 ≡ done a.attr)
      × ((n : InodeId) → inode_at (close now s' r).1 n ≡ inode_at s n)
      × ((h : ℕ) → handle_at (close now s' r).1 h ≡ (if a.fh == h then none else handle_at s h))
      × ((close now s' r).1.dirs ≡ s.dirs)
unfolding open_file
open-close now s o r a opened same nothing = elim (Option-cases (inode_at s o.ino)) [
  | inl e ↦ absurd (ground arith)
  | inr (i, e) ↦ opened_then_closed now s o r a i e same nothing (open_file-Opens s o a i e opened)
]
