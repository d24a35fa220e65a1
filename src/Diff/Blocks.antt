-- ===== src/Diff/Blocks.antt =====
-- The meaning of a patch: a list of blocks, each a run of differences to the old data, a run of
-- new bytes and a move in the old data. `encode` is the bsdiff layout that the applier reads.
use native.Mathlib.Nat.{pow-succ'}
use deltaship.Prelude.{
  ℕ, zero, suc, ◌+◌, ◌-◌, ◌/◌, ◌%◌, ◌^◌, ◌<◌, ◌≡◌, Option, none, some, List, [], ◌∷◌, ◌++◌, arith,
  length, take, drop, ltb, leb, if◌then◌else◌,
}
use deltaship.Prelude.Int.{ℤ, pos, negsuc, ◌+ℤ◌}
use deltaship.Prelude.Result.{Result, ok, ◌>>=◌, ◌>>◌, ensure, ok_or}
use deltaship.Diff.Words.{sign_bit, from_le_bytes, sign_magnitude, offtin, reposition, add_bytes}
use deltaship.Diff.{DiffError, invalid_diff, size_limit_exceeded}

pub record Block : Type 0 where
  pub delta : List ℕ
  pub extra : List ℕ
  pub seek : ℤ

-- The position in the old data after a move, if it is one.
abbrev pub moved : ℕ → ℤ → Option ℕ
moved p (pos n) = if ltb (p + n) sign_bit then some (p + n) else none
moved p (negsuc n) = if ltb n p then some (p - (n + 1)) else none

-- One block appends the patched run and the new bytes, within the ceiling and the old data.
unfoldable pub apply_block : List ℕ → ℕ → List ℕ × ℕ → Block → Result DiffError (List ℕ × ℕ)
apply_block old max_output (new, p) b = do
  ensure (leb (length new + (length b.extra + length b.delta)) max_output)
      (size_limit_exceeded max_output)
  ensure (leb (p + length b.delta) (length old)) invalid_diff
  q ← ok_or (moved (p + length b.delta) b.seek) invalid_diff
  ok (new ++ (add_bytes b.delta (take (length b.delta) (drop p old)) ++ b.extra), q)

unfoldable pub apply_blocks : List ℕ → ℕ → List ℕ × ℕ → List Block → Result DiffError (List ℕ)
apply_blocks old max_output s [] = ok s.0
apply_blocks old max_output s (b ∷ bs) =
    apply_block old max_output s b >>= λ t. apply_blocks old max_output t bs

unfoldable pub to_le_bytes : ℕ → ℕ → List ℕ
to_le_bytes zero n = []
to_le_bytes (suc w) n = (n % 256) ∷ to_le_bytes w (n / 256)

unfoldable pub offtout : ℤ → List ℕ
offtout (pos n) = to_le_bytes 8 n
offtout (negsuc n) = to_le_bytes 8 (sign_bit + n + 1)

unfoldable pub header : Block → List ℕ
header b = to_le_bytes 8 (length b.delta) ++ (to_le_bytes 8 (length b.extra) ++ offtout b.seek)

unfoldable pub encode : List Block → List ℕ
encode [] = []
encode (b ∷ bs) = header b ++ (b.delta ++ (b.extra ++ encode bs))

-- A move that the sign and magnitude form can hold.
abbrev pub IsSeek : ℤ → Type 0
IsSeek (pos n) = n < sign_bit
IsSeek (negsuc n) = n + 1 < sign_bit

pub from_le_bytes-to_le_bytes : (w n : ℕ) → n < 256 ^ w → from_le_bytes (to_le_bytes w n) ≡ n
unfolding from_le_bytes to_le_bytes
from_le_bytes-to_le_bytes zero n h = omega arith
from_le_bytes-to_le_bytes (suc w) n h =
    omega (arith, from_le_bytes-to_le_bytes w (n / 256) (omega (arith, pow-succ' 256 w)))

pub offtin-offtout : (z : ℤ) → IsSeek z → offtin (offtout z) ≡ z
unfolding offtin sign_magnitude offtout
offtin-offtout (pos n) h = rw (from_le_bytes-to_le_bytes 8 n (omega arith)) (ground arith)
offtin-offtout (negsuc n) h =
    rw (from_le_bytes-to_le_bytes 8 (sign_bit + n + 1) (omega arith)) (ground arith)

pub reposition-moved : (p : ℕ) (z : ℤ) → p < sign_bit → IsSeek z → reposition p z ≡ moved p z
unfolding reposition ◌+ℤ◌
reposition-moved p (pos n) h k = ground arith
reposition-moved p (negsuc n) h k = ground arith
