-- ===== src/Meta/Utf8.antt =====
-- `String::from_utf8(bytes).unwrap_or_default()`: the bytes of a well-formed text, or nothing.
use dtmpfs.Prelude.{
  ℕ, zero, suc, Bool, true, false, ◌&&◌, Option, none, some, List, [], ◌∷◌, leb, ltb, if◌then◌else◌,
}

-- How many continuation bytes are still to come, and the range of the next one.
abbrev pub Pending : Type 0
Pending = ℕ × ℕ × ℕ

abbrev within : ℕ → ℕ → ℕ → Bool
within lo hi b = leb lo b && leb b hi

-- The first byte of a character: overlong forms, surrogates and numbers past U+10FFFF are refused
-- by the range of the second byte.
utf8_first : ℕ → Option Pending
utf8_first b =
    if ltb b 0x80
    then some (0, 0, 0)
    else if within 0xc2 0xdf b
    then some (1, 0x80, 0xbf)
    else if within 0xe0 0xe0 b
    then some (2, 0xa0, 0xbf)
    else if within 0xed 0xed b
    then some (2, 0x80, 0x9f)
    else if within 0xe1 0xef b
    then some (2, 0x80, 0xbf)
    else if within 0xf0 0xf0 b
    then some (3, 0x90, 0xbf)
    else if within 0xf1 0xf3 b
    then some (3, 0x80, 0xbf)
    else if within 0xf4 0xf4 b
    then some (3, 0x80, 0x8f)
    else none

utf8_next : Option Pending → ℕ → Option Pending
unfolding utf8_first
utf8_next none b = none
utf8_next (some (zero, lo, hi)) b = utf8_first b
utf8_next (some (suc n, lo, hi)) b = if within lo hi b then some (n, 0x80, 0xbf) else none

utf8_run : Option Pending → List ℕ → Option Pending
unfolding utf8_next
utf8_run p [] = p
utf8_run p (b ∷ bs) = utf8_run (utf8_next p b) bs

abbrev pub is_finished : Option Pending → Bool
is_finished none = false
is_finished (some (zero, lo, hi)) = true
is_finished (some (suc n, lo, hi)) = false

unfoldable pub is_utf8 : List ℕ → Bool
unfolding utf8_run
is_utf8 bs = is_finished (utf8_run (some (0, 0, 0)) bs)

unfoldable pub utf8_or_empty : List ℕ → List ℕ
unfolding is_utf8
utf8_or_empty bs = if is_utf8 bs then bs else []
