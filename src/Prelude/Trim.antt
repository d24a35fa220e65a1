-- ===== src/Prelude/Trim.antt =====
-- `str::trim`, which takes the white space of Unicode from both ends of a text.
use mathlib.Core.List.{reverse}
use deltaship.Prelude.{ℕ, zero, suc, Option, none, some, List, [], ◌∷◌, map, length}
use deltaship.Prelude.Text.{Text, strip_prefix}

-- The white-space characters, each as its bytes.
abbrev pub blanks : List Text
blanks =
    (9 ∷ [])
    ∷ (10 ∷ [])
    ∷ (11 ∷ [])
    ∷ (12 ∷ [])
    ∷ (13 ∷ [])
    ∷ (32 ∷ [])
    ∷ (0xc2 ∷ 0x85 ∷ [])
    ∷ (0xc2 ∷ 0xa0 ∷ [])
    ∷ (0xe1 ∷ 0x9a ∷ 0x80 ∷ [])
    ∷ (0xe2 ∷ 0x80 ∷ 0x80 ∷ [])
    ∷ (0xe2 ∷ 0x80 ∷ 0x81 ∷ [])
    ∷ (0xe2 ∷ 0x80 ∷ 0x82 ∷ [])
    ∷ (0xe2 ∷ 0x80 ∷ 0x83 ∷ [])
    ∷ (0xe2 ∷ 0x80 ∷ 0x84 ∷ [])
    ∷ (0xe2 ∷ 0x80 ∷ 0x85 ∷ [])
    ∷ (0xe2 ∷ 0x80 ∷ 0x86 ∷ [])
    ∷ (0xe2 ∷ 0x80 ∷ 0x87 ∷ [])
    ∷ (0xe2 ∷ 0x80 ∷ 0x88 ∷ [])
    ∷ (0xe2 ∷ 0x80 ∷ 0x89 ∷ [])
    ∷ (0xe2 ∷ 0x80 ∷ 0x8a ∷ [])
    ∷ (0xe2 ∷ 0x80 ∷ 0xa8 ∷ [])
    ∷ (0xe2 ∷ 0x80 ∷ 0xa9 ∷ [])
    ∷ (0xe2 ∷ 0x80 ∷ 0xaf ∷ [])
    ∷ (0xe2 ∷ 0x81 ∷ 0x9f ∷ [])
    ∷ (0xe3 ∷ 0x80 ∷ 0x80 ∷ [])
    ∷ []

-- The text after the first of the prefixes that it has.
unfoldable pub strip_any : List Text → Text → Option Text
unfolding strip_prefix
strip_any [] s = none
strip_any (p ∷ ps) s = elim (strip_prefix s p) [ none ↦ strip_any ps s | some rest ↦ some rest ]

unfoldable pub strip_all : List Text → ℕ → Text → Text
unfolding strip_any
strip_all ps zero s = s
strip_all ps (suc fuel) s = elim (strip_any ps s) [ none ↦ s | some rest ↦ strip_all ps fuel rest ]

-- No text has more white-space characters than bytes, which is enough fuel.
unfoldable pub trim : Text → Text
unfolding strip_all
trim s =
    let back = reverse (strip_all blanks (length s) s) in
    reverse (strip_all (map reverse blanks) (length back) back)
