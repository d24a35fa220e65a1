-- ===== src/Tests/Crypto.antt =====
-- The theorems on hashes, signed messages and texts of the database at concrete inputs.
use deltaship.Prelude.{
  ℕ, ◌≤◌, ◌≡◌, ◌≢◌, refl, ◌++◌, Option, none, some, List, [], ◌∷◌, arith, length, ◌⊎◌, inl, inr,
  min, if◌then◌else◌, Bool-cases, sym, subst, ◌∙◌,
}
use mathlib.Core.List.{append-nil, append_assoc}
use mathlib.Core.Option.{some-injective}
use deltaship.Prelude.Trim.{trim, strip_any, strip_all}
use deltaship.Prelude.Text.{strip_prefix, Text, ascii, text_eq, text_eq-eq}
use deltaship.Prelude.Result.{ok}
use deltaship.Core.Version.{Version}
use deltaship.Crypto.Hashing.{to_hex, from_hex, StreamHasher, hash_file_generic}
use deltaship.Crypto.Hashing.RoundTrip.{from_hex-to_hex, IsHash}
use deltaship.Crypto.Hashing.Stream.{
  IsStreamHasher, IsRead, Hashes, hash_file_generic_total, updates, flatten,
}
use deltaship.Crypto.Signing.{signing_payload_injective}
use deltaship.Db.Models.{normalize_version_string}
use deltaship.Db.Models.Normal.{IsVersionText, normalize_version_string_twice}
use deltaship.Db.Models.JobStatus
use deltaship.Db.Models.JobStatus.{from_str-as_str_job, running}
use deltaship.Tests.Fixtures.{numbered, v1}

abbrev hash : List ℕ
hash =
    0 ∷ 1 ∷ 2 ∷ 3 ∷ 4 ∷ 5 ∷ 6 ∷ 7 ∷ 8 ∷ 9 ∷ 10 ∷ 11 ∷ 12 ∷ 13 ∷ 14 ∷ 15 ∷ 171 ∷ 255 ∷ 128 ∷ 127
    ∷ 200 ∷ 201 ∷ 202 ∷ 203 ∷ 204 ∷ 205 ∷ 206 ∷ 207 ∷ 208 ∷ 209 ∷ 210 ∷ 211 ∷ []

hash-IsHash : IsHash hash
hash-IsHash = ground arith

from_hex-to_hex_example : (length (to_hex hash) ≡ 64) × (from_hex (to_hex hash) ≡ ok hash)
from_hex-to_hex_example = from_hex-to_hex hash hash-IsHash

signing_payload_injective_example : (hash ≡ hash) × (ascii "1.0.0" ≡ ascii "1.0.0")
signing_payload_injective_example =
    signing_payload_injective hash hash (ascii "1.0.0") (ascii "1.0.0") refl refl refl

-- A hasher whose digest is the data, and a reader that gives at most two bytes at a time.
abbrev identity_hasher : StreamHasher
identity_hasher = record {
  Hasher = List ℕ;
  Output = List ℕ;
  new = [];
  update = ◌++◌;
  finalize = λ h. h;
}

abbrev two_at_most : List ℕ → Option ℕ
two_at_most rest = some (min 2 (length rest))

after_pieces :
    (h : List ℕ) (pieces : List (List ℕ)) → updates identity_hasher h pieces ≡ h ++ flatten pieces
unfolding updates flatten
after_pieces h [] = sym (append-nil h)
after_pieces h (piece ∷ pieces) =
    after_pieces (h ++ piece) pieces ∙ append_assoc h piece (flatten pieces)

identity-IsStreamHasher : IsStreamHasher identity_hasher
identity-IsStreamHasher = record { finalize_pieces = λ pieces. after_pieces [] pieces }

two_at_most-IsRead : IsRead two_at_most
two_at_most-IsRead rest n e = (omega (arith, some-injective _ _ e), λ h. ended rest n e h)
  where
    ended : (rest : List ℕ) (n : ℕ) → two_at_most rest ≡ some n → n ≡ 0 → rest ≡ []
    ended [] n e h = refl
    ended (b ∷ rest) n e h = absurd (omega (arith, some-injective _ _ e, h))

abbrev file : List ℕ
file = 1 ∷ 2 ∷ 3 ∷ []

hash_file_generic_total_example :
    Hashes identity_hasher two_at_most file
      (hash_file_generic identity_hasher two_at_most (some file))
hash_file_generic_total_example =
    hash_file_generic_total identity-IsStreamHasher two_at_most-IsRead file

-- A parser that knows the version 1.0.0.
abbrev parse_one : Text → Option (Version numbered)
parse_one s = if text_eq s (ascii "1.0.0") then some v1 else none

parse_one-IsVersionText : (s : Text) (v : Version numbered) → parse_one s ≡ some v → IsVersionText s
parse_one-IsVersionText s v h = elim (Bool-cases (text_eq s (ascii "1.0.0"))) [
  | inl same ↦ subst IsVersionText (sym (text_eq-eq s (ascii "1.0.0") same)) (ground arith)
  | inr apart ↦ absurd (cc (rw apart at h))
]

normalize_version_string_twice_example :
    (normalize_version_string parse_one (ascii "1.0.0") ≡ ok (ascii "1.0.0"))
    × (length (ascii "1.0.0") ≤ 255)
    × ((v : Version numbered) × (parse_one (ascii "1.0.0") ≡ some v)
        × ((v.major ≢ 0) ⊎ (v.minor ≢ 0) ⊎ (v.patch ≢ 0)))
unfolding normalize_version_string text_eq trim strip_any strip_all strip_prefix
normalize_version_string_twice_example =
    normalize_version_string_twice parse_one-IsVersionText (ascii " v1.0.0 ") refl

from_str-as_str_job_example : JobStatus.from_str (JobStatus.as_str running) ≡ ok running
from_str-as_str_job_example = from_str-as_str_job running
