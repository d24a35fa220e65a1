-- ===== src/Diff/Words.antt =====
-- crates/deltaship-diff/src/apply.rs: the 64-bit words of a patch, on a 64-bit target. A `u64` or
-- `usize` is a number below 2 ^ 64, an `i64` an integer.
use deltaship.Prelude.{
  ℕ, ◌+◌, ◌-◌, ◌*◌, ◌%◌, ◌≡◌, refl, Bool, Option, none, some, List, [], ◌∷◌, arith, ltb, leb, ◌==◌,
  if◌then◌else◌, length, take, drop, ◌&&◌,
}
use deltaship.Prelude.Int.{ℤ, pos, negsuc, ◌+ℤ◌}

-- 2 ^ 64 and 2 ^ 63.
abbrev pub word_range : ℕ
word_range = 0x1_0000_0000_0000_0000

abbrev pub sign_bit : ℕ
sign_bit = 0x8000_0000_0000_0000

-- `u64::from_le_bytes`.
unfoldable pub from_le_bytes : List ℕ → ℕ
from_le_bytes [] = 0
from_le_bytes (b ∷ bs) = b + 256 * from_le_bytes bs

-- An `i64` by its bits `y`: `y & (1 << 63)` is the top bit, `y & !(1 << 63)` the others.
unfoldable pub sign_magnitude : ℕ → ℤ
sign_magnitude y =
    if ltb y sign_bit then pos y else if y % sign_bit == 0 then pos 0 else negsuc (y % sign_bit - 1)

unfoldable pub offtin : List ℕ → ℤ
offtin buf = sign_magnitude (from_le_bytes buf)

abbrev pub checked_add : ℕ → ℕ → Option ℕ
checked_add a b = if ltb (a + b) word_range then some (a + b) else none

-- `n as i64`.
abbrev pub as_i64 : ℕ → ℤ
as_i64 n = if ltb n sign_bit then pos n else negsuc (word_range - n - 1)

abbrev pub fits_i64 : ℤ → Bool
fits_i64 (pos n) = ltb n sign_bit
fits_i64 (negsuc n) = ltb n sign_bit

-- `usize::try_from` of an `i64`.
abbrev pub usize_of_i64 : ℤ → Option ℕ
usize_of_i64 (pos n) = some n
usize_of_i64 (negsuc n) = none

-- `(oldpos as i64).checked_add(seek_len).and_then(|n| usize::try_from(n).ok())`.
unfoldable pub reposition : ℕ → ℤ → Option ℕ
unfolding ◌+ℤ◌
reposition oldpos seek =
    let n = as_i64 oldpos +ℤ seek in if fits_i64 n then usize_of_i64 n else none

-- `xs.get(start..end)`.
unfoldable pub get_range {ℓ} : {A : Type ℓ} → List A → ℕ → ℕ → Option (List A)
get_range xs start end =
    if leb start end && leb end (length xs) then some (take (end - start) (drop start xs)) else none

-- `for (n, o) in mix.iter_mut().zip(old) { *n = n.wrapping_add(o) }`.
unfoldable pub add_bytes : List ℕ → List ℕ → List ℕ
add_bytes [] os = []
add_bytes (n ∷ ns) [] = n ∷ ns
add_bytes (n ∷ ns) (o ∷ os) = ((n + o) % 256) ∷ add_bytes ns os

pub length-add_bytes : (ns os : List ℕ) → length (add_bytes ns os) ≡ length ns
unfolding add_bytes
length-add_bytes [] os = refl
length-add_bytes (n ∷ ns) [] = refl
length-add_bytes (n ∷ ns) (o ∷ os) = omega (arith, length-add_bytes ns os)
