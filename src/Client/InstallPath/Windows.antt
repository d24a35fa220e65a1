-- ===== src/Client/InstallPath/Windows.antt =====
-- The directories of Windows, however they are written.
use deltaship.Prelude.{
  ap, ◌∙◌, ℕ, ◌+◌, ◌≡◌, refl, Bool, true, ◌&&◌, none, some, [], ◌∷◌, ◌++◌, arith, leb,
  if◌then◌else◌, not, all, map, inl, inr, Bool-cases, false, ◌==◌,
}
use deltaship.Prelude.Text.{Text, ascii, strip_prefix, strip_prefix-append}
use deltaship.Core.Platform.{to_lowercase, lower, lower_onto}
use deltaship.Client.InstallPath.{
  backslash, is_ascii_alphabetic, strip_verbatim_prefix, strip_drive, ends_component, normalize,
  windows_path_under,
}

-- A letter in lower case.
abbrev is_lower : ℕ → Bool
is_lower c = leb b'a' c && leb c b'z'

normalize-drive :
    (drive : ℕ) (tail : Text)
    → is_ascii_alphabetic drive ≡ true
    → (d : ℕ) × (is_lower d ≡ true) × (normalize (drive ∷ b':' ∷ tail) ≡ d ∷ b':' ∷ normalize tail)
unfolding normalize to_lowercase
normalize-drive drive tail h =
    (if leb b'A' drive && leb drive b'Z' then drive + 32 else drive, ground arith, ground arith)

lower_onto-other : (c : ℕ) (s : Text) → (c == 0xe2) ≡ false → lower_onto c s ≡ lower c ∷ s
lower_onto-other c [] h = refl
lower_onto-other c (d ∷ []) h = refl
lower_onto-other c (d ∷ e ∷ s) h = rw h refl

normalize-verbatim : (s : Text) → normalize (ascii "\\\\?\\" ++ s) ≡ ascii "\\\\?\\" ++ normalize s
unfolding normalize to_lowercase
normalize-verbatim s =
    rw (lower_onto-other 92 (to_lowercase s) refl, lower_onto-other b'?' (92 ∷ to_lowercase s) refl)
      refl

strip_drive-lower :
    (d : ℕ) (t : Text)
    → is_lower d ≡ true
    → (strip_drive (strip_verbatim_prefix (d ∷ b':' ∷ t)) ≡ t)
      × (strip_drive (strip_verbatim_prefix (92 ∷ 92 ∷ b'?' ∷ 92 ∷ d ∷ b':' ∷ t)) ≡ t)
unfolding strip_drive strip_verbatim_prefix strip_prefix
strip_drive-lower d t h = (ground arith, ground arith)

under_stripped :
    (candidate directory rest : Text)
    → strip_drive (strip_verbatim_prefix (normalize candidate))
      ≡ strip_drive (normalize directory) ++ rest
    → ends_component backslash rest ≡ true
    → windows_path_under candidate directory ≡ true
unfolding windows_path_under
under_stripped candidate directory rest e k =
    rw (windows_path_under, e, strip_prefix-append (strip_drive (normalize directory)) rest) k

-- A directory of Windows is recognised on every drive, in capitals or not, with `/` or `\`, with and
-- without the prefix of a verbatim path.
pub windows_path_under_any_drive :
    (directory tail rest : Text) (drive : ℕ)
    → is_ascii_alphabetic drive ≡ true
    → normalize tail ≡ strip_drive (normalize directory) ++ rest
    → ends_component backslash rest ≡ true
    → (windows_path_under (drive ∷ b':' ∷ tail) directory ≡ true)
      × (windows_path_under (ascii "\\\\?\\" ++ (drive ∷ b':' ∷ tail)) directory ≡ true)
windows_path_under_any_drive directory tail rest drive h e k =
    let (d, low, lowered) = normalize-drive drive tail h in
    let (plain, verbatim) = strip_drive-lower d (normalize tail) low in
    (
      under_stripped (drive ∷ b':' ∷ tail) directory rest
          (ap (λ s. strip_drive (strip_verbatim_prefix s)) lowered ∙ plain ∙ e) k,
      under_stripped (ascii "\\\\?\\" ++ (drive ∷ b':' ∷ tail)) directory rest
          (ap (λ s. strip_drive (strip_verbatim_prefix s))
              (normalize-verbatim (drive ∷ b':' ∷ tail) ∙ ap (λ s. 92 ∷ 92 ∷ b'?' ∷ 92 ∷ s) lowered)
            ∙ verbatim
            ∙ e)
          k,
    )

-- No capital letter.
abbrev is_low : ℕ → Bool
is_low c = not (leb b'A' c && leb c b'Z')

low_onto : (c : ℕ) (s : Text) → all is_low s ≡ true → all is_low (lower_onto c s) ≡ true
low_onto c [] h = ground arith
low_onto c (d ∷ []) h = ground arith
low_onto c (d ∷ e ∷ s) h = elim (Bool-cases (c == 0xe2 && d == 0x84 && e == 0xaa)) [
  | inl kelvin ↦ rw kelvin (ground arith)
  | inr other ↦ rw other (ground arith)
]

low_lowercase : (s : Text) → all is_low (to_lowercase s) ≡ true
unfolding to_lowercase
low_lowercase [] = refl
low_lowercase (c ∷ s) = low_onto c (to_lowercase s) (low_lowercase s)

low_slashes :
    (s : Text)
    → all is_low s ≡ true
    → all is_low (map (λ c. if c == b'/' then backslash else c) s) ≡ true
low_slashes [] h = refl
low_slashes (c ∷ s) h = ground (arith, low_slashes s)

never_unc_low : (s : Text) → all is_low s ≡ true → strip_prefix s (ascii "\\\\?\\UNC\\") ≡ none
unfolding strip_prefix
never_unc_low [] h = refl
never_unc_low (a ∷ []) h = ground arith
never_unc_low (a ∷ b ∷ []) h = ground arith
never_unc_low (a ∷ b ∷ c ∷ []) h = ground arith
never_unc_low (a ∷ b ∷ c ∷ d ∷ []) h = ground arith
never_unc_low (a ∷ b ∷ c ∷ d ∷ e ∷ s) h = ground arith

never_unc : (s : Text) → strip_prefix (normalize s) (ascii "\\\\?\\UNC\\") ≡ none
unfolding normalize
never_unc s = never_unc_low (normalize s) (low_slashes (to_lowercase s) (low_lowercase s))

-- Once a path is in lower case, the prefix of a verbatim network path is never taken away.
pub strip_verbatim_prefix_unc :
    (s : Text)
    → strip_verbatim_prefix (normalize s) ≡ (elim (strip_prefix (normalize s) (ascii "\\\\?\\")) [
      | some rest ↦ rest
      | none ↦ normalize s
    ])
unfolding strip_verbatim_prefix
strip_verbatim_prefix_unc s = rw (strip_verbatim_prefix, never_unc s) refl
