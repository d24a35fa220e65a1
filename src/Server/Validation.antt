-- ===== src/Server/Validation.antt =====
-- crates/deltaship-server/src/validation.rs: the checks on names and versions that come in a path.
-- A regular expression `^[..]+$` matches a text of one or more of the listed characters.
pub mod Safe
use deltaship.Prelude.{
  ℕ, ◌≡◌, Bool, true, false, not, ◌&&◌, ◌||◌, List, [], ◌∷◌, all, any, length, ltb, leb, ◌==◌,
  if◌then◌else◌,
}
use deltaship.Prelude.Text.{Text, ascii, contains}
use deltaship.Prelude.Result.{Result, ok, err, ◌>>=◌, ◌>>◌, ensure}

abbrev pub max_name_length : ℕ
max_name_length = 255

pub data ValidationError : Type 0 where
  empty too_long invalid_characters path_traversal null_byte path_too_long : ValidationError

abbrev pub is_alphanumeric : ℕ → Bool
is_alphanumeric c =
    (leb b'a' c && leb c b'z') || (leb b'A' c && leb c b'Z') || (leb b'0' c && leb c b'9')

-- `[a-zA-Z0-9._-]`
abbrev pub is_name_char : ℕ → Bool
is_name_char c = is_alphanumeric c || c == b'.' || c == b'_' || c == b'-'

-- `[a-zA-Z0-9._+-]`
abbrev pub is_version_char : ℕ → Bool
is_version_char c = is_name_char c || c == b'+'

abbrev pub has_char : ℕ → Text → Bool
has_char c = any (λ d. d == c)

-- `contains("..") || contains('/') || contains('\\')`
unfoldable pub has_traversal : Text → Bool
unfolding contains
has_traversal s = contains s (ascii "..") || has_char b'/' s || has_char 92 s

-- The checks that both functions make, in their order, with the characters that each allows.
unfoldable pub validate : (ℕ → Bool) → Text → Result ValidationError (Unit {0})
unfolding has_traversal
validate allowed s = do
  ensure (ltb 0 (length s)) empty
  ensure (leb (length s) max_name_length) too_long
  ensure (not (has_char 0 s)) null_byte
  ensure (not (has_traversal s)) path_traversal
  ensure (all allowed s) invalid_characters
  ok tt

unfoldable pub validate_name : Text → Result ValidationError (Unit {0})
unfolding validate
validate_name s = validate is_name_char s

unfoldable pub validate_version : Text → Result ValidationError (Unit {0})
unfolding validate
validate_version s = validate is_version_char s
