-- ===== src/Client/Kernel/Filling/Resuming.antt =====
-- The kernel reads a directory by calls of `readdir`, each from the offset of the last entry that it
-- was given, up to a call that gives none.
use dtmpfs.Prelude.{
  List-cases, length-drop, ℕ, zero, suc, ◌+◌, ◌-◌, ◌≤◌, ◌<◌, ◌≡◌, refl, sym, ap, ◌∙◌, Bool, false,
  none, some, List, [], ◌∷◌, ◌++◌, length, take, drop, last, arith, Bool-cases, inl, inr,
}
use mathlib.Core.List.{append_assoc, append-nil}
use dtmpfs.Common.Id.{InodeId}
use dtmpfs.Meta.Messages.{DirEntry}
use dtmpfs.Client.{Env, Fs, returned}
use dtmpfs.Client.Readdir.{list_dir}
use dtmpfs.Client.Kernel.{answered, refused}
use dtmpfs.Client.Kernel.Filling.{Added, added, fill, readdir}

-- Every entry with its offset.
abbrev pub all_added : ℕ → List DirEntry → List Added
all_added i [] = []
all_added i (e ∷ es) = added i e ∷ all_added (i + 1) es

abbrev pub last_offset : ℕ → List Added → ℕ
last_offset old batch = elim (last batch) [ none ↦ old | some a ↦ a.offset ]

-- A call adds the entries up to some place, and where the first fits, at least that one.
record Fills (i : ℕ) (es : List DirEntry) (held filled : List Added) : Type 0 where
  count : ℕ
  within : count ≤ length es
  same : filled ≡ held ++ take count (all_added i es)

module _ (is_full : List Added → Added → Bool) where
  fill-Fills :
      (i : ℕ) (es : List DirEntry) (held : List Added) → Fills i es held (fill is_full i es held)
  unfolding fill
  fill-Fills i [] held = record { count = 0; within = omega arith; same = sym (append-nil held) }
  fill-Fills i (e ∷ es) held = elim (Bool-cases (is_full held (added i e))) [
    | inl f ↦
        rw (f, fill) (record { count = 0; within = omega arith; same = sym (append-nil held) })
    | inr f ↦
        let r = fill-Fills (i + 1) es (held ++ added i e ∷ []) in
        rw (f, fill)
          (record {
            count = suc r.count;
            within = omega (arith, r.within);
            same = r.same ∙ append_assoc held (added i e ∷ []) _;
          })
  ]

  -- Where the first entry fits, the call adds it.
  fill_first :
      (i : ℕ) (e : DirEntry) (es : List DirEntry)
      → is_full [] (added i e) ≡ false
      → (k : ℕ) × (suc k ≤ length (e ∷ es))
        × (fill is_full i (e ∷ es) [] ≡ take (suc k) (all_added i (e ∷ es)))
  unfolding fill
  fill_first i e es f =
      let r = fill-Fills (i + 1) es (added i e ∷ []) in
      (r.count, omega (arith, r.within), rw (f, fill) r.same)

last-take_added :
    (i k : ℕ) (es : List DirEntry)
    → suc k ≤ length es
    → (a : Added) × (last (take (suc k) (all_added i es)) ≡ some a) × (a.offset ≡ i + suc k)
unfolding added
last-take_added i k [] h = absurd (omega arith)
last-take_added i zero (e ∷ es) h = (added i e, refl, refl)
last-take_added i (suc k) (e ∷ []) h = absurd (omega arith)
last-take_added i (suc k) (e ∷ f ∷ es) h =
    let (a, found, offset) = last-take_added (i + 1) k (f ∷ es) (omega arith) in
    (a, found, omega (arith, offset))

split_added :
    (i k : ℕ) (es : List DirEntry)
    → take k (all_added i es) ++ all_added (i + k) (drop k es) ≡ all_added i es
split_added i zero es = ap (λ j. all_added j es) (omega arith)
split_added i (suc k) [] = refl
split_added i (suc k) (e ∷ es) = ap (◌∷◌ (added i e)) (
    ap (λ j. take k (all_added (i + 1) es) ++ all_added j (drop k es)) (omega arith)
    ∙ split_added (i + 1) k es)

drop_nothing : {A : Type 0} (k : ℕ) → drop {A = A} k [] ≡ []
drop_nothing zero = refl
drop_nothing (suc k) = refl

drop-drop : {A : Type 0} (i k : ℕ) (xs : List A) → drop (i + k) xs ≡ drop k (drop i xs)
drop-drop zero k xs = ap (λ j. drop j xs) (omega arith)
drop-drop (suc i) k [] = drop_nothing (suc i + k) ∙ sym (drop_nothing k)
drop-drop (suc i) k (x ∷ xs) =
    let e : suc i + k ≡ suc (i + k) = omega arith in rw e (drop-drop i k xs)

-- The calls of the kernel.
module _ (is_full : List Added → Added → Bool) {W : Type 0} (env : Env W) (fuel : ℕ)
    (ino : InodeId) where
  unfoldable pub kernel_reads : ℕ → ℕ → Fs W → List Added
  unfolding readdir
  kernel_reads zero offset s = []
  kernel_reads (suc calls) offset s =
      let (answer, s1) = readdir is_full env fuel ino offset s in
      elim answer [
        | refused e ↦ []
        | answered batch ↦ elim batch [
          | [] ↦ []
          | a ∷ more ↦ (a ∷ more) ++ kernel_reads calls (last_offset offset (a ∷ more)) s1
        ]
      ]

  module _ (entries : List DirEntry)
      (stable : (s : Fs W) → list_dir env fuel ino s ≡ (returned entries, s)) where
    reads_end :
        (calls offset : ℕ) (s : Fs W)
        → drop offset entries ≡ []
        → kernel_reads (suc calls) offset s ≡ []
    unfolding kernel_reads readdir fill
    reads_end calls offset s e = ground (arith, stable s)

    reads_next :
        (calls offset : ℕ) (s : Fs W) (a : Added) (more : List Added)
        → fill is_full offset (drop offset entries) [] ≡ a ∷ more
        → kernel_reads (suc calls) offset s
          ≡ (a ∷ more) ++ kernel_reads calls (last_offset offset (a ∷ more)) s
    unfolding kernel_reads readdir
    reads_next calls offset s a more e = ground (arith, stable s)

    -- While the entries stay, the calls give all of them from the offset on.
    pub kernel_reads_all :
        ((a : Added) → is_full [] a ≡ false)
        → (calls offset : ℕ) (s : Fs W) → length entries - offset < calls
        → kernel_reads calls offset s ≡ all_added offset (drop offset entries)
    kernel_reads_all room zero offset s h = absurd (omega arith)
    kernel_reads_all room (suc calls) offset s h = elim (List-cases (drop offset entries)) [
      | inl e ↦ reads_end calls offset s e ∙ ap (all_added offset) (sym e)
      | inr (e, es, f) ↦
          let (k, within, filled) = fill_first is_full offset e es (room (added offset e)) in
          let batch = take (suc k) (all_added offset (e ∷ es)) in
          let (a, found, next) = last-take_added offset k (e ∷ es) within in
          let ih =
            kernel_reads_all room calls (offset + suc k) s
              (omega (arith, ap length f, length-drop offset entries, within)) in
          let offset_eq : last_offset offset batch ≡ offset + suc k = ground (arith, next, found) in
          reads_next calls offset s (added offset e) (take k (all_added (offset + 1) es))
            (ap (λ d. fill is_full offset d []) f ∙ filled)
          ∙ ap (λ j. batch ++ kernel_reads calls j s) offset_eq
          ∙ ap (λ x. batch ++ x) ih
          ∙ ap (λ d. batch ++ all_added (offset + suc k) d)
              (drop-drop offset (suc k) entries ∙ ap (drop (suc k)) f)
          ∙ split_added offset (suc k) (e ∷ es)
          ∙ ap (all_added offset) (sym f)
    ]
