-- ===== src/Common/Hash/Sorting.antt =====
-- Sorting scored nodes from the highest score down.
use mathlib.Core.List.{Perm}
use mathlib.Core.List.Perm
use dtmpfs.Prelude.{
  ℕ, ◌≤◌, String, ◌≡◌, refl, List, [], ◌∷◌, ◌++◌, arith, leb, if◌then◌else◌, length, Bool-cases,
  inl, inr,
}

abbrev pub Scored : Type 0
Scored = ℕ × String

-- `|a, b| b.0.cmp(&a.0)`: the higher score comes first.
unfoldable pub insert_desc : Scored → List Scored → List Scored
insert_desc x [] = x ∷ []
insert_desc x (y ∷ ys) = if leb y.0 x.0 then x ∷ y ∷ ys else y ∷ insert_desc x ys

-- One of the orders that `sort_unstable_by` may leave: equal scores may stand in any.
unfoldable pub sort_desc : List Scored → List Scored
unfolding insert_desc
sort_desc [] = []
sort_desc (x ∷ xs) = insert_desc x (sort_desc xs)

-- No entry of the list scores more than the bound.
abbrev pub AtMost : ℕ → List Scored → Type 0
AtMost b [] = Unit {0}
AtMost b (x ∷ xs) = (x.0 ≤ b) × AtMost b xs

-- Scores fall along the list.
abbrev pub IsDesc : List Scored → Type 0
IsDesc [] = Unit {0}
IsDesc (x ∷ xs) = AtMost x.0 xs × IsDesc xs

-- An entry that scores at least as much as the head goes in front.
pub insert_desc-front : (y : Scored) (l : List Scored) → AtMost y.0 l → insert_desc y l ≡ y ∷ l
unfolding insert_desc
insert_desc-front y [] m = refl
insert_desc-front y (z ∷ l) m = ground arith

pub AtMost-mono : (a b : ℕ) (xs : List Scored) → a ≤ b → AtMost a xs → AtMost b xs
AtMost-mono a b [] h m = tt
AtMost-mono a b (x ∷ xs) h m = (omega arith, AtMost-mono a b xs h m.1)

AtMost-insert_desc :
    (b : ℕ) (x : Scored) (xs : List Scored) → x.0 ≤ b → AtMost b xs → AtMost b (insert_desc x xs)
unfolding insert_desc
AtMost-insert_desc b x [] h m = (h, tt)
AtMost-insert_desc b x (y ∷ ys) h m = ground (arith, AtMost-insert_desc b x ys h m.1)

insert_desc-IsDesc : (x : Scored) (xs : List Scored) → IsDesc xs → IsDesc (insert_desc x xs)
unfolding insert_desc
insert_desc-IsDesc x [] d = (tt, tt)
insert_desc-IsDesc x (y ∷ ys) d =
    ground (arith, insert_desc-IsDesc x ys d.1, AtMost-insert_desc y.0 x ys, AtMost-mono y.0 x.0 ys)

pub sort_desc-IsDesc : (xs : List Scored) → IsDesc (sort_desc xs)
unfolding sort_desc
sort_desc-IsDesc [] = tt
sort_desc-IsDesc (x ∷ xs) = insert_desc-IsDesc x (sort_desc xs) (sort_desc-IsDesc xs)

insert_desc-perm : (x : Scored) (xs : List Scored) → Perm (x ∷ xs) (insert_desc x xs)
unfolding insert_desc
insert_desc-perm x [] = Perm.refl (x ∷ [])
insert_desc-perm x (y ∷ ys) = elim (Bool-cases (leb y.0 x.0)) [
  | inl e ↦ rw e (Perm.refl (x ∷ y ∷ ys))
  | inr e ↦ rw e (Perm.trans (Perm.swap y x ys) (Perm.cons y (insert_desc-perm x ys)))
]

pub sort_desc-perm : (xs : List Scored) → Perm xs (sort_desc xs)
unfolding sort_desc
sort_desc-perm [] = Perm.refl []
sort_desc-perm (x ∷ xs) =
    Perm.trans (Perm.cons x (sort_desc-perm xs)) (insert_desc-perm x (sort_desc xs))

length-insert_desc : (x : Scored) (xs : List Scored) → length (insert_desc x xs) ≡ length (x ∷ xs)
unfolding insert_desc
length-insert_desc x [] = refl
length-insert_desc x (y ∷ ys) = ground (arith, length-insert_desc x ys)

pub length-sort_desc : (xs : List Scored) → length (sort_desc xs) ≡ length xs
unfolding sort_desc
length-sort_desc [] = refl
length-sort_desc (x ∷ xs) = omega (arith, length-insert_desc x (sort_desc xs), length-sort_desc xs)

-- In a falling list each entry of a front scores at least as much as each entry behind it.
abbrev pub Above : List Scored → List Scored → Type 0
Above [] ys = Unit {0}
Above (x ∷ xs) ys = AtMost x.0 ys × Above xs ys

AtMost-append : (b : ℕ) (xs ys : List Scored) → AtMost b (xs ++ ys) → AtMost b ys
AtMost-append b [] ys m = m
AtMost-append b (x ∷ xs) ys m = AtMost-append b xs ys m.1

AtMost-append_left : (b : ℕ) (xs ys : List Scored) → AtMost b (xs ++ ys) → AtMost b xs
AtMost-append_left b [] ys m = tt
AtMost-append_left b (x ∷ xs) ys m = (m.0, AtMost-append_left b xs ys m.1)

pub IsDesc-append : (xs ys : List Scored) → IsDesc (xs ++ ys) → IsDesc xs × Above xs ys
IsDesc-append [] ys d = (tt, tt)
IsDesc-append (x ∷ xs) ys d =
    let (dx, a) = IsDesc-append xs ys d.1 in
    ((AtMost-append_left x.0 xs ys d.0, dx), (AtMost-append x.0 xs ys d.0, a))
