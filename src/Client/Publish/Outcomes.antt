-- ===== src/Client/Publish/Outcomes.antt =====
-- What `publish` leaves of the handle: the written blocks, or nothing, whether it succeeded or not.
use dtmpfs.Prelude.{
  ℕ, ◌≡◌, refl, sym, ◌∙◌, ap, subst, true, false, Option, some, List, [], ◌∷◌, arith, is_empty,
  Bool-cases, inl, inr, ◌⊎◌, nat_eq,
}
use dtmpfs.Prelude.HashMap
use dtmpfs.Common.Error.{Result-cases, DtmpfsError, done}
use dtmpfs.Meta.Messages.{ProtoNodeInfo}
use dtmpfs.Client.{
  FsResult-cases, OpenFile, FsResult, returned, failed, Env, Fs, FsReply, refresh_addrs, with_world,
}
use dtmpfs.Client.Publish.{
  WaitPolicy, new_idxs, write_blocks, allocate, finish, send, publish_file, publish,
}
use dtmpfs.Client.Publish.Handles.{publish_file-files}

abbrev pub file_at : {W : Type 0} → Fs W → ℕ → Option OpenFile
file_at s fh = HashMap.get fh s.open_files

empty_list : {A : Type 0} (l : List A) → is_empty l ≡ true → l ≡ []
empty_list [] h = refl
empty_list (x ∷ l) h = ground arith

module _ {W : Type 0} (env : Env W) where
  -- Only a failure before the first block is sent leaves the handle as it was.
  abbrev pub KeepsOrEmpties : OpenFile → FsResult (Unit {0}) → OpenFile → Type 0
  KeepsOrEmpties o answer o' =
      ((o' ≡ o) × ((e : DtmpfsError) × (answer ≡ failed e))) ⊎ (o'.dirty ≡ [])

  send-empties :
      (wait : WaitPolicy) (fh : ℕ) (o : OpenFile) (s : Fs W) → (send env wait fh o s).1.dirty ≡ []
  unfolding send finish
  send-empties wait fh o s = ground arith

  allocate-keeps :
      (o : OpenFile) (s : Fs W) (e : DtmpfsError)
      → (allocate env o s).0 ≡ failed e
      → (allocate env o s).1 ≡ o
  unfolding allocate
  allocate-keeps o s e h = ground arith

  publish_file-keeps :
      (wait : WaitPolicy) (fh : ℕ) (o : OpenFile) (s : Fs W)
      → KeepsOrEmpties o (publish_file env wait fh o s).0 (publish_file env wait fh o s).1
  unfolding publish_file
  publish_file-keeps wait fh o s = elim (Result-cases (env.list_nodes s.world).0) [
    | inr (x, e) ↦ rw (e, publish_file) (inl (refl, (_, refl)))
    | inl (l, e) ↦
        let s0 = refresh_addrs l (with_world s (env.list_nodes s.world).1) in
        elim (FsResult-cases (allocate env o s0).0) [
          | inr (x, f) ↦ rw (e, f, publish_file) (inl (allocate-keeps o s0 x f, (_, refl)))
          | inl (x, f) ↦
              rw (e, f, publish_file)
                (inr (send-empties wait fh (allocate env o s0).1 (allocate env o s0).2))
        ]
  ]

  publish_empty :
      (wait : WaitPolicy) (fh : ℕ) (o : OpenFile) (s : Fs W)
      → file_at s fh ≡ some o
      → is_empty o.dirty ≡ true
      → publish env wait fh s ≡ (returned tt, s)
  unfolding publish
  publish_empty wait fh o s e h = ground arith

  publish-file_at :
      (wait : WaitPolicy) (fh : ℕ) (o : OpenFile) (s : Fs W)
      → file_at s fh ≡ some o
      → is_empty o.dirty ≡ false
      → ((publish env wait fh s).0 ≡ (publish_file env wait fh o s).0)
        × (file_at (publish env wait fh s).1 fh ≡ some (publish_file env wait fh o s).1)
  unfolding publish
  publish-file_at wait fh o s e h = (
    ground arith,
    ground (
      arith,
      publish_file-files env wait fh o s,
      HashMap.get-update fh fh (λ _. (publish_file env wait fh o s).1)
          (publish_file env wait fh o s).2.open_files,
    ),
  )

  -- What holds of the answer and the state that a `publish` leaves.
  abbrev pub Leaves : WaitPolicy → ℕ → OpenFile → FsReply W (Unit {0}) → Type 0
  Leaves later fh o (answer, s') =
      ((file_at s' fh ≡ some o) × ((e : DtmpfsError) × (answer ≡ failed e)))
      ⊎ ((o' : OpenFile) × (file_at s' fh ≡ some o')
          × (o'.dirty ≡ [])
          × (publish env later fh s' ≡ (returned tt, s')))

  -- After a publish of a handle, either it failed and the handle is as it was, or nothing written
  -- is left in the handle, and then each further publish of it succeeds at once and changes
  -- nothing, also where the first one failed.
  pub publish-Leaves :
      (wait later : WaitPolicy) (fh : ℕ) (o : OpenFile) (s : Fs W)
      → file_at s fh ≡ some o
      → Leaves later fh o (publish env wait fh s)
  publish-Leaves wait later fh o s e = elim (Bool-cases (is_empty o.dirty)) [
    | inl h ↦
        subst (Leaves later fh o) (sym (publish_empty wait fh o s e h))
          (inr (o, e, empty_list o.dirty h, publish_empty later fh o s e h))
    | inr h ↦
        let (answer, left) = publish-file_at wait fh o s e h in
        elim (publish_file-keeps wait fh o s) [
          | inl (same, (x, f)) ↦ inl (left ∙ ap some same, (x, answer ∙ f))
          | inr d ↦
              let s' = (publish env wait fh s).1 in
              inr (_, left, d, publish_empty later fh _ s' left (ap is_empty d))
        ]
  ]

  -- Where the nodes can be listed and all written blocks have a place, a failure to send one of
  -- them is answered once. The written blocks are gone from the handle, and the next publish
  -- answers that all is well.
  pub publish_lost :
      (wait later : WaitPolicy) (fh : ℕ) (o : OpenFile) (s : Fs W) (l : List ProtoNodeInfo)
      (x : DtmpfsError)
      → file_at s fh ≡ some o
      → is_empty o.dirty ≡ false
      → is_empty (new_idxs o) ≡ true
      → (env.list_nodes s.world).0 ≡ done l
      → (write_blocks env wait o.ino o.block_map o.dirty
          (refresh_addrs l (with_world s (env.list_nodes s.world).1))).0
        ≡ failed x
      → let (answer, s') = publish env wait fh s in
        (answer ≡ failed x) × (publish env later fh s' ≡ (returned tt, s'))
  unfolding publish_file allocate send
  publish_lost wait later fh o s l x e h placed nodes fails =
      let (answer, left) = publish-file_at wait fh o s e h in
      let s' = (publish env wait fh s).1 in
      (ground (arith, answer), publish_empty later fh _ s' left (ground arith))
