-- ===== src/Db/Models.antt =====
-- crates/deltaship-db/src/models.rs: the status enumerations, and the checks of what is stored.
-- `to_lowercase` is taken on the ASCII letters. Of the other characters only the Kelvin sign lowers
-- to an ASCII letter, a `k`, which a name of a platform or of an algorithm does not have.
pub mod Normal
pub mod JobStatus
pub mod HistoryStatus
use deltaship.Prelude.{
  ℕ, ◌+◌, ◌*◌, ◌-◌, Bool, true, false, ◌&&◌, ◌||◌, not, Option, none, some, List, [], ◌∷◌, leb, ltb,
  ◌==◌, if◌then◌else◌, length, take, drop, any, all, get_elem?,
}
use deltaship.Prelude.Text.{Text, ascii, text_eq, strip_prefix}
use deltaship.Prelude.Trim.{trim}
use deltaship.Prelude.Result.{Result, ok, err, ◌>>=◌, ◌>>◌, ensure, ok_or}
use deltaship.Core.Platform.{to_lowercase}
use deltaship.Core.Version.{Semver, Version}
use deltaship.Db.{DbError, invalid_data}

abbrev pub known_platforms : List Text
known_platforms =
    ascii "linux-x86_64"
    ∷ ascii "linux_x86_64"
    ∷ ascii "linux-aarch64"
    ∷ ascii "linux_aarch64"
    ∷ ascii "windows-x86_64"
    ∷ ascii "windows_x86_64"
    ∷ ascii "macos-x86_64"
    ∷ ascii "macos_x86_64"
    ∷ ascii "macos-aarch64"
    ∷ ascii "macos_aarch64"
    ∷ []

unfoldable pub validate_platform : Text → Result DbError (Unit {0})
unfolding text_eq to_lowercase
validate_platform platform =
    ensure (any (λ known. text_eq known (to_lowercase platform)) known_platforms) invalid_data

abbrev pub known_diff_algorithms : List Text
known_diff_algorithms = ascii "bsdiff" ∷ ascii "courgette" ∷ ascii "xdelta3" ∷ []

unfoldable pub validate_diff_algorithm : Text → Result DbError (Unit {0})
unfolding text_eq to_lowercase
validate_diff_algorithm algorithm =
    ensure (any (λ known. text_eq known (to_lowercase algorithm)) known_diff_algorithms)
      invalid_data

-- The version parser is the `semver` crate's.
module _ {S : Semver} (parse : Text → Option (Version S)) where
  abbrev pub strip_v : Text → Text
  strip_v s = elim (strip_prefix s (ascii "v")) [
    | some rest ↦ rest
    | none ↦ elim (strip_prefix s (ascii "V")) [ some rest ↦ rest | none ↦ s ]
  ]

  unfoldable pub normalize_version_string : Text → Result DbError Text
  normalize_version_string version = do
    let trimmed = trim version
    ensure (all (λ c. ltb c 128) trimmed) invalid_data
    let normalized = strip_v trimmed
    ensure (leb (length normalized) 255) invalid_data
    parsed ← ok_or (parse normalized) invalid_data
    ensure (not (parsed.major == 0 && parsed.minor == 0 && parsed.patch == 0)) invalid_data
    ok normalized

-- The loop over ASCII digits of `str::parse` for an unsigned integer. A text of at most four digits
-- fits every type that is parsed here.
unfoldable pub parse_digits : ℕ → Text → Option ℕ
parse_digits n [] = some n
parse_digits n (c ∷ s) =
    let rest = parse_digits (n * 10 + (c - b'0')) s in
    if leb b'0' c && leb c b'9' then rest else none

-- `str::parse::<u32>()` on a short text, which takes a leading plus sign.
unfoldable pub parse_u32 : Text → Option ℕ
unfolding parse_digits
parse_u32 [] = none
parse_u32 (c ∷ []) = parse_digits 0 (c ∷ [])
parse_u32 (c ∷ d ∷ s) = if c == b'+' then parse_digits 0 (d ∷ s) else parse_digits 0 (c ∷ d ∷ s)

-- `str::parse::<i32>()` on a short text. A negative year is out of range like the year 0, which
-- stands for it.
unfoldable pub parse_i32 : Text → Option ℕ
unfolding parse_u32 parse_digits
parse_i32 [] = none
parse_i32 (c ∷ []) = parse_u32 (c ∷ [])
parse_i32 (c ∷ d ∷ s) =
    if c == b'-'
    then elim (parse_digits 0 (d ∷ s)) [ none ↦ none | some _ ↦ some 0 ]
    else parse_u32 (c ∷ d ∷ s)

-- `s[from..to]`
abbrev pub slice : ℕ → ℕ → Text → Text
slice from to s = take (to - from) (drop from s)

abbrev pub separator_at_10 : Text → Bool
separator_at_10 s = elim (get_elem? s 10) [ none ↦ false | some c ↦ c == b'T' || c == b' ' ]

abbrev pub within : ℕ → ℕ → ℕ → Bool
within lo hi n = leb lo n && leb n hi

-- This is what the source does where the first 19 bytes are ASCII. Otherwise a slice may cut a
-- character in two, which panics there.
unfoldable pub validate_expires_at_timestamp : Text → Result DbError (Unit {0})
unfolding parse_i32 parse_u32
validate_expires_at_timestamp expires_at = do
  let trimmed = trim expires_at
  ensure (leb 19 (length trimmed)) invalid_data
  ensure (separator_at_10 trimmed) invalid_data
  year ← ok_or (parse_i32 (slice 0 4 trimmed)) invalid_data
  month ← ok_or (parse_u32 (slice 5 7 trimmed)) invalid_data
  day ← ok_or (parse_u32 (slice 8 10 trimmed)) invalid_data
  hour ← ok_or (parse_u32 (slice 11 13 trimmed)) invalid_data
  minute ← ok_or (parse_u32 (slice 14 16 trimmed)) invalid_data
  second ← ok_or (parse_u32 (slice 17 19 trimmed)) invalid_data
  ensure (within 1970 2100 year) invalid_data
  ensure (within 1 12 month) invalid_data
  ensure (within 1 31 day) invalid_data
  ensure (leb hour 23) invalid_data
  ensure (leb minute 59) invalid_data
  ensure (leb second 59) invalid_data

abbrev pub blake3_hash_size : ℕ
blake3_hash_size = 32

abbrev pub sha256_hash_size : ℕ
sha256_hash_size = 32

unfoldable pub validate_hash_size : List ℕ → ℕ → Result DbError (Unit {0})
validate_hash_size hash expected_size = ensure (length hash == expected_size) invalid_data
