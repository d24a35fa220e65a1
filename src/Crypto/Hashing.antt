-- ===== src/Crypto/Hashing.antt =====
-- crates/deltaship-crypto/src/hashing.rs: the hexadecimal form of a hash and the loop that hashes a
-- file. A byte is a number below 256. A hasher is that of the `blake3` or `sha2` crate, and how many
-- bytes a read gives is the operating system's.
pub mod RoundTrip
pub mod Stream
use deltaship.Prelude.{
  ℕ, zero, suc, ◌+◌, ◌-◌, ◌*◌, Bool, ◌&&◌, Option, none, some, List, [], ◌∷◌, ◌++◌, leb, ◌==◌,
  if◌then◌else◌, length, take, drop,
}
use deltaship.Prelude.Text.{Text}
use deltaship.Prelude.Result.{Result, ok, err, ◌>>=◌, ◌>>◌, ensure, ok_or}
use deltaship.Diff.Apply.{hex_encode}

-- The errors of `CryptoError` that hashing returns.
pub data CryptoError : Type 0 where
  invalid_hex io : CryptoError

abbrev pub hash_size : ℕ
hash_size = 32

-- `format!("{:02x}", byte)` of each byte.
unfoldable pub to_hex : List ℕ → Text
to_hex hash = hex_encode hash

-- `char::to_digit(16)`
unfoldable pub hex_value : ℕ → Option ℕ
hex_value c =
    if leb b'0' c && leb c b'9'
    then some (c - b'0')
    else if leb b'a' c && leb c b'f'
    then some (c - b'a' + 10)
    else if leb b'A' c && leb c b'F'
    then some (c - b'A' + 10)
    else none

-- `u8::from_str_radix(pair, 16)`, which takes a leading plus sign. A pair that is no UTF-8 has no
-- hexadecimal digits either, and is refused by the same error.
unfoldable pub parse_hex_byte : ℕ → ℕ → Result CryptoError ℕ
parse_hex_byte hi lo = if hi == b'+' then ok_or (hex_value lo) invalid_hex else do
  high ← ok_or (hex_value hi) invalid_hex
  low ← ok_or (hex_value lo) invalid_hex
  ok (high * 16 + low)

-- The loop over the pairs. At the even length that `from_hex` demands, no digit is left alone.
unfoldable pub parse_pairs : Text → Result CryptoError (List ℕ)
parse_pairs [] = ok []
parse_pairs (lone ∷ []) = err invalid_hex
parse_pairs (hi ∷ lo ∷ s) = do byte ← parse_hex_byte hi lo; bytes ← parse_pairs s; ok (byte ∷ bytes)

unfoldable pub from_hex : Text → Result CryptoError (List ℕ)
unfolding parse_pairs parse_hex_byte hex_value
from_hex s = do ensure (length s == 64) invalid_hex; parse_pairs s

-- The trait `StreamHasher`.
pub record StreamHasher : Type 1 where
  pub Hasher : Type 0
  pub Output : Type 0
  pub new : Hasher
  pub update : Hasher → List ℕ → Hasher
  pub finalize : Hasher → Output

-- `read_size rest` is how many bytes a read gives where `rest` is left of the file, at most the 8192
-- of the buffer, or `none` where it fails.
module _ (H : StreamHasher) (read_size : List ℕ → Option ℕ) where
  -- The result has the hasher and the totals that were reported, the first one first. The outer
  -- `none` is fuel that ran out.
  unfoldable pub hash_loop :
      ℕ → List ℕ → H.Hasher → ℕ → List ℕ → Option (Result CryptoError (H.Output × List ℕ))
  hash_loop zero rest hasher total reports = none
  hash_loop (suc fuel) rest hasher total reports = elim (read_size rest) [
    | none ↦ some (err io)
    | some zero ↦ some (ok (H.finalize hasher, reports))
    | some (suc n) ↦
        hash_loop fuel (drop (suc n) rest) (H.update hasher (take (suc n) rest)) (total + suc n)
          (reports ++ ((total + suc n) ∷ []))
  ]

  -- A read takes a byte at least, so one round more than there are bytes is enough fuel.
  unfoldable pub hash_file_generic :
      Option (List ℕ) → Option (Result CryptoError (H.Output × List ℕ))
  unfolding hash_loop
  hash_file_generic none = some (err io)
  hash_file_generic (some content) = hash_loop (suc (length content)) content H.new 0 []
