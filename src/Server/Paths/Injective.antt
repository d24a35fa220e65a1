-- ===== src/Server/Paths/Injective.antt =====
-- Which files can be the same file.
use deltaship.Server.Auth.{split_parts}
use mathlib.Core.List.{append_assoc}
use deltaship.Prelude.{
  ◌≡◌, refl, false, [], ◌∷◌, ◌++◌, arith, ℕ, zero, suc, ◌<◌, ◌≢◌, ◌∙◌, ap, sym, Bool, true, not,
  ◌==◌, List, retain, length, drop, Bool-cases, inl, inr,
}
use deltaship.Prelude.Text.{Text, ascii, text_eq, text_eq-eq, contains, strip_prefix}
use deltaship.Prelude.Result.{ok}
use deltaship.Core.Platform.{
  Platform, as_str, from_str-as_str, linux_x86_64, linux_aarch64, windows_x86_64, macos_x86_64,
  macos_aarch64,
}
use deltaship.Server.Validation.{
  has_char, is_name_char, is_version_char, validate_name, validate_version, has_traversal,
}
use deltaship.Server.Validation.Safe.{absent_char, validate_iff_IsAllowed}
use deltaship.Server.Paths.{join, get_binary_path, diff_file_name, get_diff_path}

append_cancel {ℓ} : {A : Type ℓ} (d xs ys : List A) → d ++ xs ≡ d ++ ys → xs ≡ ys
append_cancel [] xs ys h = h
append_cancel (c ∷ d) xs ys h = append_cancel d xs ys (ap (drop 1) h)

-- `Path::components` after the root: the parts between the separators, without empty ones and the
-- part `.`, by which two paths are compared.
abbrev pub is_part : Text → Bool
is_part [] = false
is_part (c ∷ s) = not (text_eq (c ∷ s) (ascii "."))

unfoldable pub components : Text → List Text
unfolding split_parts
components path = let (part, parts) = split_parts b'/' path in retain is_part (part ∷ parts)

split_parts-slash :
    (a s : Text)
    → has_char b'/' a ≡ false
    → split_parts b'/' (a ++ (b'/' ∷ s)) ≡ (a, (split_parts b'/' s).0 ∷ (split_parts b'/' s).1)
unfolding split_parts
split_parts-slash [] s h = refl
split_parts-slash (c ∷ a) s h = ground (arith, split_parts-slash a s)

split_parts-last : (a : Text) → has_char b'/' a ≡ false → split_parts b'/' a ≡ (a, [])
unfolding split_parts
split_parts-last [] h = refl
split_parts-last (c ∷ a) h = ground (arith, split_parts-last a)

-- A part that counts is the first component.
components-part :
    (a s : Text)
    → has_char b'/' a ≡ false
    → is_part a ≡ true
    → components (a ++ (b'/' ∷ s)) ≡ a ∷ components s
unfolding components
components-part a s h k = rw (split_parts-slash a s h, k) refl

components-last : (a : Text) → has_char b'/' a ≡ false → is_part a ≡ true → components a ≡ a ∷ []
unfolding components
components-last a h k = rw (split_parts-last a h, k) refl

split_parts-append :
    (d s : Text)
    → ((split_parts b'/' (d ++ (b'/' ∷ s))).0 ≡ (split_parts b'/' d).0)
      × ((split_parts b'/' (d ++ (b'/' ∷ s))).1
          ≡ (split_parts b'/' d).1 ++ ((split_parts b'/' s).0 ∷ (split_parts b'/' s).1))
unfolding split_parts
split_parts-append [] s = (refl, refl)
split_parts-append (c ∷ d) s = elim (Bool-cases (c == b'/')) [
  | inl e ↦ let (first, rest) = split_parts-append d s in rw e (refl, rw (first, rest) refl)
  | inr e ↦
      let (first, rest) = split_parts-append d s in rw e (ap (λ (t : Text). c ∷ t) first, rest)
]

retain-append :
    (p : Text → Bool) (xs ys : List Text) → retain p (xs ++ ys) ≡ retain p xs ++ retain p ys
retain-append p [] ys = refl
retain-append p (x ∷ xs) ys = elim (Bool-cases (p x)) [
  | inl e ↦ rw e (ap (λ (t : List Text). x ∷ t) (retain-append p xs ys))
  | inr e ↦ rw e (retain-append p xs ys)
]

components-append : (d s : Text) → components (d ++ (b'/' ∷ s)) ≡ components d ++ components s
unfolding components
components-append d s =
    let (first, rest) = split_parts-append d s in
    rw (first, rest)
      (retain-append is_part ((split_parts b'/' d).0 ∷ (split_parts b'/' d).1)
        ((split_parts b'/' s).0 ∷ (split_parts b'/' s).1))

-- A text without `/` in front of a `/` is determined by the whole.
cut_slash :
    (a b x y : Text)
    → has_char b'/' a ≡ false
    → has_char b'/' b ≡ false
    → a ++ (b'/' ∷ x) ≡ b ++ (b'/' ∷ y)
    → (a ≡ b) × (x ≡ y)
cut_slash [] [] x y h k e = (refl, ground (arith, e))
cut_slash [] (d ∷ b) x y h k e = absurd (ground (arith, e))
cut_slash (c ∷ a) [] x y h k e = absurd (ground (arith, e))
cut_slash (c ∷ a) (d ∷ b) x y h k e = ground (arith, e, cut_slash a b x y)

as_str-injective : (p q : Platform) → as_str p ≡ as_str q → p ≡ q
as_str-injective p q e = cc (from_str-as_str p, from_str-as_str q, e)

no_slash_name : (s : Text) → validate_name s ≡ ok tt → has_char b'/' s ≡ false
no_slash_name s h = absent_char is_name_char b'/' s ((validate_iff_IsAllowed s).0.0 h).2 refl

no_slash_version : (s : Text) → validate_version s ≡ ok tt → has_char b'/' s ≡ false
no_slash_version s h = absent_char is_version_char b'/' s ((validate_iff_IsAllowed s).1.0 h).2 refl

part_of : (s : Text) → 0 < length s → s ≢ ascii "." → is_part s ≡ true
part_of [] h dot = absurd (omega (arith, h))
part_of (c ∷ s) h dot = elim (Bool-cases (text_eq (c ∷ s) (ascii "."))) [
  | inl same ↦ absurd (dot (text_eq-eq (c ∷ s) (ascii ".") same))
  | inr other ↦ rw other refl
]

file_component :
    (p : Platform) → components (ascii "binary-" ++ as_str p) ≡ (ascii "binary-" ++ as_str p) ∷ []
unfolding as_str components split_parts text_eq
file_component linux_x86_64 = refl
file_component linux_aarch64 = refl
file_component windows_x86_64 = refl
file_component macos_x86_64 = refl
file_component macos_aarch64 = refl

-- The part with a number.
abbrev nth : ℕ → List Text → Text
nth n [] = []
nth zero (x ∷ xs) = x
nth (suc n) (x ∷ xs) = nth n xs

name-is_part : (s : Text) → validate_name s ≡ ok tt → s ≢ ascii "." → is_part s ≡ true
name-is_part s h dot = part_of s (((validate_iff_IsAllowed s).0.0 h).0) dot

version-is_part : (s : Text) → validate_version s ≡ ok tt → s ≢ ascii "." → is_part s ≡ true
version-is_part s h dot = part_of s (((validate_iff_IsAllowed s).1.0 h).0) dot

-- The components of the path of a binary.
get_binary_path-components :
    (data_dir app version : Text) (p : Platform)
    → validate_name app ≡ ok tt
    → app ≢ ascii "."
    → validate_version version ≡ ok tt
    → version ≢ ascii "."
    → components (get_binary_path data_dir app version p)
      ≡ components data_dir
        ++ (ascii "apps" ∷ app ∷ ascii "versions" ∷ version ∷ (ascii "binary-" ++ as_str p) ∷ [])
unfolding get_binary_path join
get_binary_path-components data_dir app version p a a' v v' =
    let file = ascii "binary-" ++ as_str p in
    rw
      (
        components-append data_dir (
            ascii "apps"
            ++ (b'/'
                ∷ (app ++ (b'/' ∷ (ascii "versions" ++ (b'/' ∷ (version ++ (b'/' ∷ file)))))))),
        components-part (ascii "apps")
            (app ++ (b'/' ∷ (ascii "versions" ++ (b'/' ∷ (version ++ (b'/' ∷ file)))))) refl
            (unfold text_eq in refl),
        components-part app (ascii "versions" ++ (b'/' ∷ (version ++ (b'/' ∷ file))))
            (no_slash_name app a) (name-is_part app a a'),
        components-part (ascii "versions") (version ++ (b'/' ∷ file)) refl (unfold text_eq in refl),
        components-part version file (no_slash_version version v) (version-is_part version v v'),
        file_component p,
      )
      refl

-- Apps and versions that pass the checks, none of which is a single dot, never share the file of a
-- binary: the components of its path, by which paths are compared, determine the app, the version
-- and the platform.
pub get_binary_path-injective :
    (data_dir app app' version version' : Text) (p p' : Platform)
    → validate_name app ≡ ok tt
    → app ≢ ascii "."
    → validate_name app' ≡ ok tt
    → app' ≢ ascii "."
    → validate_version version ≡ ok tt
    → version ≢ ascii "."
    → validate_version version' ≡ ok tt
    → version' ≢ ascii "."
    → components (get_binary_path data_dir app version p)
      ≡ components (get_binary_path data_dir app' version' p')
    → (app ≡ app') × (version ≡ version') × (p ≡ p')
get_binary_path-injective data_dir app app' version version' p p' a n a' n' v k v' k' e =
    let both =
      sym (get_binary_path-components data_dir app version p a n v k)
      ∙ e
      ∙ get_binary_path-components data_dir app' version' p' a' n' v' k' in
    let rest = append_cancel (components data_dir) _ _ both in
    let same_app = ap (nth 1) rest in
    let same_version = ap (nth 3) rest in
    let file = ap (nth 4) rest in
    (same_app, same_version, as_str-injective p p' (append_cancel (ascii "binary-") _ _ file))

-- A single dot passes both checks and is no component: the app "." with the version "versions" has
-- the file of the app "versions" with the version ".".
pub get_binary_path-dot :
    (data_dir : Text) (p : Platform)
    → (validate_name (ascii ".") ≡ ok tt)
      × (validate_version (ascii ".") ≡ ok tt)
      × (components (get_binary_path data_dir (ascii ".") (ascii "versions") p)
          ≡ components (get_binary_path data_dir (ascii "versions") (ascii ".") p))
unfolding get_binary_path join components split_parts validate_name validate_version has_traversal
    contains strip_prefix text_eq
get_binary_path-dot data_dir p =
    (refl, refl, components-append data_dir _ ∙ sym (components-append data_dir _))

-- Diffs of different pairs of versions can share a file: a version whose name holds `-to-` can be
-- read as two.
pub get_diff_path_collides :
    (data_dir app a b c : Text) (p : Platform)
    → get_diff_path data_dir app (a ++ (ascii "-to-" ++ b)) c p
      ≡ get_diff_path data_dir app a (b ++ (ascii "-to-" ++ c)) p
unfolding get_diff_path diff_file_name
get_diff_path_collides data_dir app a b c p = simp append_assoc
