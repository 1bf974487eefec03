-- ===== src/Client/Readdir/Pages.antt =====
-- The pages of a directory that does not change between them make up the directory.
use mathlib.Core.List.{append_assoc, map-append}
use dtmpfs.Prelude.{
  ℕ, zero, suc, min, ◌≤◌, ◌<◌, ◌≡◌, refl, sym, ◌∙◌, ap, subst, true, false, some, List, [], ◌∷◌,
  ◌++◌, map, length, take, drop, last, is_empty, ltb, Tree, arith, nat_eq, length-map, length-take,
  length-drop, take-append-drop, Bool-cases, inl, inr,
}
use dtmpfs.Prelude.Ord.{nat_ord, list_ord}
use dtmpfs.Prelude.HashMap
use dtmpfs.Prelude.BtreeMap
use dtmpfs.Prelude.BtreeMap.{IsSorted, range_after-behind}
use dtmpfs.Common.Id.{InodeId}
use dtmpfs.Common.Error.{done}
use dtmpfs.Meta.State.{Name, MetaState}
use dtmpfs.Meta.Messages.{DirEntry, ReadDirReq}
use dtmpfs.Meta.Listing.{dir_entry, entries_after, response, read_dir, name_or_empty, AreNames}
use dtmpfs.Meta.Utf8.{is_utf8, utf8_or_empty}
use dtmpfs.Client.{returned, Env, Fs}
use dtmpfs.Client.Readdir.{page_request, list_pages, list_dir}

-- A list that is not empty ends in its last element.
last-split :
    {A : Type 0} (x : A) (xs : List A) → (pre : List A) × (y : A) × (x ∷ xs ≡ pre ++ (y ∷ []))
last-split x [] = ([], x, refl)
last-split x (y ∷ xs) = let (pre, z, e) = last-split y xs in (x ∷ pre, z, ap (◌∷◌ x) e)

last-append : {A : Type 0} (pre : List A) (y : A) → last (pre ++ (y ∷ [])) ≡ some y
last-append [] y = refl
last-append (x ∷ []) y = refl
last-append (x ∷ z ∷ pre) y = last-append (z ∷ pre) y

take_all : {A : Type 0} (n : ℕ) (xs : List A) → length xs ≤ n → take n xs ≡ xs
take_all zero [] h = refl
take_all zero (x ∷ xs) h = absurd (omega arith)
take_all (suc n) [] h = refl
take_all (suc n) (x ∷ xs) h = ap (◌∷◌ x) (take_all n xs (omega arith))

name_in :
    (front : Tree Name InodeId) (n : Name) (c : InodeId) (back : Tree Name InodeId)
    → AreNames (front ++ (n, c) ∷ back)
    → (is_utf8 n ≡ true) × (is_empty n ≡ false)
name_in [] n c back a = a.0
name_in (x ∷ front) n c back a = name_in front n c back a.1

module _ (s : MetaState) (ino : InodeId) (d : Tree Name InodeId) (max : ℕ)
    (there : HashMap.get ino s.dirs ≡ some d) (sorted : IsSorted d) (named : AreNames d)
    (positive : 0 < max) where
  -- What is left behind a cookie.
  abbrev Rest : List ℕ → Tree Name InodeId → Type 0
  Rest cookie rest = entries_after (utf8_or_empty cookie) d ≡ rest

  read_dir-page :
      (cookie : List ℕ) (rest : Tree Name InodeId)
      → Rest cookie rest
      → read_dir s (page_request ino cookie max)
        ≡ done (response max (map (dir_entry s) (take max rest)))
  unfolding read_dir
  read_dir-page cookie rest e =
      ground (arith, ap (λ (x : Tree Name InodeId). map (dir_entry s) (take max x)) e)

  -- Behind the last entry of a page.
  Rest-next :
      (front back : Tree Name InodeId) (n : Name) (c : InodeId)
      → d ≡ front ++ (n, c) ∷ back
      → Rest n back
  unfolding entries_after utf8_or_empty
  Rest-next front back n c e =
      let (valid, full) = name_in front n c back (subst AreNames e named) in
      let behind = range_after-behind n c front back (subst IsSorted e sorted) in
      ground (arith, ap (BtreeMap.range_after n) e, behind)

  module _ {W : Type 0} (env : Env W)
      (answers : (r : ReadDirReq) (w : W) → env.read_dir r w ≡ (read_dir s r, w)) where
    abbrev listed : Tree Name InodeId → List DirEntry
    listed rest = map (dir_entry s) (take max rest)

    list_pages-stop :
        (fuel : ℕ) (entries : List DirEntry) (cookie : List ℕ) (rest : Tree Name InodeId)
        (fs : Fs W)
        → Rest cookie rest
        → ltb (length (listed rest)) max ≡ true
        → list_pages env max ino (suc fuel) entries cookie fs
          ≡ (returned (entries ++ listed rest), fs)
    unfolding list_pages
    list_pages-stop fuel entries cookie rest fs e h =
        ground (arith, read_dir-page cookie rest e, answers (page_request ino cookie max) fs.world)

    list_pages-next :
        (fuel : ℕ) (entries : List DirEntry) (cookie : List ℕ) (rest : Tree Name InodeId)
        (fs : Fs W)
        → Rest cookie rest
        → ltb (length (listed rest)) max ≡ false
        → list_pages env max ino (suc fuel) entries cookie fs
          ≡ list_pages env max ino fuel
              (entries ++ listed rest)
              (name_or_empty (last (listed rest)))
              fs
    unfolding list_pages
    list_pages-next fuel entries cookie rest fs e h =
        ground (arith, read_dir-page cookie rest e, answers (page_request ino cookie max) fs.world)

    length-listed : (rest : Tree Name InodeId) → length (listed rest) ≡ min max (length rest)
    length-listed rest =
        omega (arith, length-map (dir_entry s) (take max rest), length-take max rest)

    halves : (rest : Tree Name InodeId) → rest ≡ take max rest ++ drop max rest
    halves rest = sym (take-append-drop max rest)

    -- The last name of a full page is the cookie behind which the next one starts.
    page_end :
        (front rest : Tree Name InodeId)
        → d ≡ front ++ rest
        → max ≤ length rest
        → Rest (name_or_empty (last (listed rest))) (drop max rest)
    unfolding dir_entry
    page_end front rest e long = elim_page (take max rest) refl
      where
        elim_page :
            (page : Tree Name InodeId)
            → take max rest ≡ page
            → Rest (name_or_empty (last (listed rest))) (drop max rest)
        elim_page [] h = absurd (omega (arith, length-take max rest, ap length h))
        elim_page (x ∷ xs) h =
            let (pre, y, cut) = last-split x xs in
            let (n, c) = y in
            let page : take max rest ≡ pre ++ ((n, c) ∷ []) = h ∙ cut in
            let whole : d ≡ (front ++ pre) ++ (n, c) ∷ drop max rest =
              e
              ∙ ap (◌++◌ front) (
                  halves rest
                  ∙ ap (λ t. t ++ drop max rest) page
                  ∙ append_assoc pre ((n, c) ∷ []) (drop max rest))
              ∙ sym (append_assoc front pre ((n, c) ∷ drop max rest)) in
            let cookie : name_or_empty (last (listed rest)) ≡ n =
              ap (λ t. name_or_empty (last (map (dir_entry s) t))) page
              ∙ ap (λ l. name_or_empty (last l)) (map-append (dir_entry s) pre ((n, c) ∷ []))
              ∙ ap name_or_empty (last-append (map (dir_entry s) pre) (dir_entry s (n, c))) in
            subst (λ k. Rest k (drop max rest)) (sym cookie)
              (Rest-next (front ++ pre) (drop max rest) n c whole)

    list_pages-all :
        (fuel : ℕ) (front rest : Tree Name InodeId) (entries : List DirEntry) (cookie : List ℕ)
        (fs : Fs W)
        → d ≡ front ++ rest
        → Rest cookie rest
        → length rest < fuel
        → list_pages env max ino fuel entries cookie fs
          ≡ (returned (entries ++ map (dir_entry s) rest), fs)
    list_pages-all zero front rest entries cookie fs e at enough = absurd (omega arith)
    list_pages-all (suc fuel) front rest entries cookie fs e at enough =
        elim (Bool-cases (ltb (length (listed rest)) max)) [
          | inl h ↦
              list_pages-stop fuel entries cookie rest fs at h
              ∙ ap (λ t. (returned (entries ++ map (dir_entry s) t), fs))
                  (take_all max rest (ground (arith, length-listed rest)))
          | inr h ↦
              let long : max ≤ length rest = ground (arith, length-listed rest) in
              list_pages-next fuel entries cookie rest fs at h
              ∙ list_pages-all fuel (front ++ take max rest) (drop max rest)
                  (entries ++ listed rest) (name_or_empty (last (listed rest))) fs
                  (e
                    ∙ ap (◌++◌ front) (halves rest)
                    ∙ sym (append_assoc front (take max rest) (drop max rest)))
                  (page_end front rest e long) (omega (arith, length-drop max rest))
              ∙ ap (λ l. (returned l, fs))
                  (append_assoc entries (listed rest) (map (dir_entry s) (drop max rest))
                    ∙ ap (◌++◌ entries) (
                        sym (map-append (dir_entry s) (take max rest) (drop max rest))
                        ∙ ap (map (dir_entry s)) (sym (halves rest))))
        ]

-- Where the metadata server answers each page from one state, and the names of the directory are
-- texts, none empty, in their order: `readdir` collects every entry of the directory once, in order,
-- with any fuel above their number.
pub list_dir-all :
    {W : Type 0} (env : Env W) (s : MetaState) (ino : InodeId) (d : Tree Name InodeId) (fuel : ℕ)
    (fs : Fs W)
    → ((r : ReadDirReq) (w : W) → env.read_dir r w ≡ (read_dir s r, w))
    → HashMap.get ino s.dirs ≡ some d
    → IsSorted d
    → AreNames d
    → length d < fuel
    → list_dir env fuel ino fs ≡ (returned (map (dir_entry s) d), fs)
unfolding list_dir entries_after utf8_or_empty
list_dir-all env s ino d fuel fs answers there sorted named enough =
    list_pages-all s ino d 256 there sorted named (omega arith) env answers fuel [] d [] [] fs refl
      refl enough
