-- ===== src/Crypto/Hashing/RoundTrip.antt =====
-- crates/deltaship-crypto/src/hashing.rs: a hash and its hexadecimal form.
use deltaship.Prelude.{
  ℕ, ◌*◌, ◌/◌, ◌%◌, ◌<◌, ◌≡◌, refl, some, List, [], ◌∷◌, arith, length, All, ==_iff,
}
use deltaship.Prelude.Result.{ok}
use deltaship.Diff.Apply.{hex_encode, hex_digit}
use deltaship.Crypto.Hashing.{hash_size, to_hex, hex_value, parse_hex_byte, parse_pairs, from_hex}

abbrev pub IsByte : ℕ → Type 0
IsByte b = b < 256

abbrev pub IsHash : List ℕ → Type 0
IsHash bs = (length bs ≡ hash_size) × All IsByte bs

hex_value-hex_digit : (d : ℕ) → d < 16 → hex_value (hex_digit d) ≡ some d
unfolding hex_value
hex_value-hex_digit d h = ground arith

parse_hex_byte-hex_digit :
    (b : ℕ) → IsByte b → parse_hex_byte (hex_digit (b / 16)) (hex_digit (b % 16)) ≡ ok b
unfolding parse_hex_byte
parse_hex_byte-hex_digit b h =
    ground (arith, hex_value-hex_digit (b / 16), hex_value-hex_digit (b % 16))

length-hex_encode : (bs : List ℕ) → length (hex_encode bs) ≡ length bs * 2
unfolding hex_encode
length-hex_encode [] = refl
length-hex_encode (b ∷ bs) = omega (arith, length-hex_encode bs)

pub parse_pairs-hex_encode : (bs : List ℕ) → All IsByte bs → parse_pairs (hex_encode bs) ≡ ok bs
unfolding parse_pairs hex_encode
parse_pairs-hex_encode [] h = refl
parse_pairs-hex_encode (b ∷ bs) h =
    rw (parse_hex_byte-hex_digit b h.0) (rw (parse_pairs-hex_encode bs h.1))

-- The hexadecimal form of a hash has 64 characters, and is read back as that hash.
pub from_hex-to_hex :
    (bs : List ℕ) → IsHash bs → (length (to_hex bs) ≡ 64) × (from_hex (to_hex bs) ≡ ok bs)
unfolding from_hex to_hex
from_hex-to_hex bs h =
    let size = length-hex_encode bs in
    let sixty_four : length (hex_encode bs) ≡ 64 = omega (arith, size, h.0) in
    (sixty_four, rw ((==_iff _ 64).1 sixty_four) (parse_pairs-hex_encode bs h.1))
