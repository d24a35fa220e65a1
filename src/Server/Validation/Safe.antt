-- ===== src/Server/Validation/Safe.antt =====
-- What a name that passes the checks is.
use deltaship.Prelude.{ℕ, ◌≤◌, ◌<◌, ◌≡◌, ◌↔◌, refl, Bool, true, false, [], ◌∷◌, arith, all, length}
use deltaship.Prelude.Text.{Text, ascii, contains}
use deltaship.Prelude.Result.{ok}
use deltaship.Server.Validation.{
  max_name_length, is_name_char, is_version_char, has_char, has_traversal, validate, validate_name,
  validate_version,
}

pub absent_char :
    (allowed : ℕ → Bool) (c : ℕ) (s : Text)
    → all allowed s ≡ true
    → allowed c ≡ false
    → has_char c s ≡ false
absent_char allowed c [] h k = refl
absent_char allowed c (d ∷ s) h k = ground (arith, absent_char allowed c s)

-- With characters that hold no separator, the checks amount to these four.
abbrev pub IsAllowed : (ℕ → Bool) → Text → Type 0
IsAllowed allowed s =
    (0 < length s)
    × (length s ≤ max_name_length)
    × (all allowed s ≡ true)
    × (contains s (ascii "..") ≡ false)

module _ (allowed : ℕ → Bool) (no_nul : allowed 0 ≡ false) (no_slash : allowed b'/' ≡ false)
    (no_backslash : allowed 92 ≡ false) where
  validate_iff : (s : Text) → (validate allowed s ≡ ok tt) ↔ IsAllowed allowed s
  unfolding validate has_traversal
  validate_iff s = (
    ground arith,
    λ h. ground (
      arith,
      absent_char allowed 0 s h.2 no_nul,
      absent_char allowed b'/' s h.2 no_slash,
      absent_char allowed 92 s h.2 no_backslash,
    ),
  )

-- A name passes exactly if it has 1 to 255 bytes, all of them letters, digits or `._-`, and no two
-- dots in a row; a version exactly if the same holds with `+` allowed, too.
pub validate_iff_IsAllowed :
    (s : Text)
    → ((validate_name s ≡ ok tt) ↔ IsAllowed is_name_char s)
      × ((validate_version s ≡ ok tt) ↔ IsAllowed is_version_char s)
unfolding validate_name validate_version
validate_iff_IsAllowed s =
    (validate_iff is_name_char refl refl refl s, validate_iff is_version_char refl refl refl s)
