-- ===== src/Diff/Apply/Refines.antt =====
-- The patch loop gives an encoded patch the meaning of its blocks.
use mathlib.Core.List.{append_assoc, append-nil}
use deltaship.Prelude.{
  ℕ, zero, suc, ◌+◌, ◌-◌, ◌/◌, ◌≤◌, ◌<◌, ◌≡◌, refl, sym, ap, ◌∙◌, none, some, List, [], ◌∷◌, ◌++◌,
  arith, length, take, drop, length-append, All, take-append, drop-append, inl, inr,
}
use deltaship.Prelude.Int.{ℤ, pos, negsuc}
use deltaship.Prelude.Result.{ok, ◌>>=◌, Result-cases}
use deltaship.Diff.Words.{
  word_range, sign_bit, from_le_bytes, offtin, get_range, add_bytes, length-add_bytes,
}
use deltaship.Diff.Blocks.{
  Block, IsSeek, apply_block, apply_blocks, to_le_bytes, offtout, header, encode,
  from_le_bytes-to_le_bytes, offtin-offtout, reposition-moved,
}
use deltaship.Diff.Apply.{
  State, read, read_full_or_eof, u64_to_usize, patch_round, patch_loop, bounded_patch,
  apply_patch_bounded,
}

take_of : (n : ℕ) (xs ys : List ℕ) → n ≡ length xs → take n (xs ++ ys) ≡ xs
take_of n xs ys e = rw e (take-append xs ys)

drop_of : (n : ℕ) (xs ys : List ℕ) → n ≡ length xs → drop n (xs ++ ys) ≡ ys
drop_of n xs ys e = rw e (drop-append xs ys)

-- The state after a block, where the bytes behind it are `tail`.
abbrev resumed : List ℕ → List ℕ × ℕ → State
resumed tail (new, p) = record { rest = tail; new = new; oldpos = p }

module _ (old : List ℕ) (max_output : ℕ) (b : Block) (tail new : List ℕ) (p : ℕ)
    (old_fits : length old < sign_bit) (at : p < sign_bit)
    (fits : length new + (length b.extra + length b.delta) < sign_bit)
    (seek_fits : IsSeek b.seek) where
  fresh_bytes :
      take (length b.extra + length b.delta) (b.delta ++ (b.extra ++ tail)) ≡ b.delta ++ b.extra
  fresh_bytes =
      rw (← append_assoc b.delta b.extra tail)
        (take_of _ (b.delta ++ b.extra) tail (omega (arith, length-append b.delta b.extra)))

  left_bytes : drop (length b.extra + length b.delta) (b.delta ++ (b.extra ++ tail)) ≡ tail
  left_bytes =
      rw (← append_assoc b.delta b.extra tail)
        (drop_of _ (b.delta ++ b.extra) tail (omega (arith, length-append b.delta b.extra)))

  after_delta : drop (length new + length b.delta) (new ++ (b.delta ++ b.extra)) ≡ b.extra
  after_delta =
      rw (← append_assoc new b.delta b.extra)
        (drop_of _ (new ++ b.delta) b.extra (omega (arith, length-append new b.delta)))

  delta_bytes :
      get_range (new ++ (b.delta ++ b.extra)) (length new) (length new + length b.delta)
      ≡ some b.delta
  unfolding get_range
  delta_bytes = ground (
    arith,
    length-append new (b.delta ++ b.extra),
    length-append b.delta b.extra,
    drop-append new (b.delta ++ b.extra),
    take_of (length new + length b.delta - length new) b.delta b.extra,
  )

  old_bytes :
      p + length b.delta ≤ length old
      → get_range old p (p + length b.delta) ≡ some (take (length b.delta) (drop p old))
  unfolding get_range
  old_bytes h = let e : p + length b.delta - p ≡ length b.delta = omega arith in rw e (ground arith)

  no_old_bytes : length old < p + length b.delta → get_range old p (p + length b.delta) ≡ none
  unfolding get_range
  no_old_bytes h = ground arith

  round_of_block :
      (ctrl : List ℕ)
      → from_le_bytes (take 8 ctrl) ≡ length b.delta
      → from_le_bytes (take 8 (drop 8 ctrl)) ≡ length b.extra
      → offtin (take 8 (drop 16 ctrl)) ≡ b.seek
      → patch_round old max_output ctrl
          (record { rest = b.delta ++ (b.extra ++ tail); new = new; oldpos = p })
        ≡ (apply_block old max_output (new, p) b >>= λ t. ok (resumed tail t))
  unfolding patch_round apply_block u64_to_usize
  round_of_block ctrl mix copy seek = ground (
    arith,
    fresh_bytes,
    left_bytes,
    after_delta,
    delta_bytes,
    old_bytes,
    no_old_bytes,
    take-append new (b.delta ++ b.extra),
    reposition-moved (p + length b.delta) b.seek,
    length-append b.delta b.extra,
  )

  -- A block leaves a position and a length that the next one can start from.
  apply_block_keeps :
      (t : List ℕ × ℕ)
      → apply_block old max_output (new, p) b ≡ ok t
      → (t.1 < sign_bit) × (length t.0 ≡ length new + (length b.extra + length b.delta))
  unfolding apply_block
  apply_block_keeps t h = ground (
    arith,
    length-append new (add_bytes b.delta (take (length b.delta) (drop p old)) ++ b.extra),
    length-append (add_bytes b.delta (take (length b.delta) (drop p old))) b.extra,
    length-add_bytes b.delta (take (length b.delta) (drop p old)),
  )

length-to_le_bytes : (w n : ℕ) → length (to_le_bytes w n) ≡ w
unfolding to_le_bytes
length-to_le_bytes zero n = refl
length-to_le_bytes (suc w) n = ap suc (length-to_le_bytes w (n / 256))

length-offtout : (z : ℤ) → length (offtout z) ≡ 8
unfolding offtout
length-offtout (pos n) = length-to_le_bytes 8 n
length-offtout (negsuc n) = length-to_le_bytes 8 (sign_bit + n + 1)

length-header : (b : Block) → length (header b) ≡ 24
unfolding header
length-header b = omega (
  arith,
  length-append (to_le_bytes 8 (length b.delta)) (to_le_bytes 8 (length b.extra) ++ offtout b.seek),
  length-append (to_le_bytes 8 (length b.extra)) (offtout b.seek),
  length-to_le_bytes 8 (length b.delta),
  length-to_le_bytes 8 (length b.extra),
  length-offtout b.seek,
)

take_all : (n : ℕ) (xs : List ℕ) → n ≡ length xs → take n xs ≡ xs
take_all n xs e = rw (← append-nil xs) (take_of n xs [] e ∙ sym (append-nil xs))

header_mix :
    (b : Block) → length b.delta < word_range → from_le_bytes (take 8 (header b)) ≡ length b.delta
unfolding header
header_mix b h =
    rw
      (take_of 8 (to_le_bytes 8 (length b.delta)) (to_le_bytes 8 (length b.extra) ++ offtout b.seek)
        (sym (length-to_le_bytes 8 (length b.delta))))
      (from_le_bytes-to_le_bytes 8 (length b.delta) h)

header_copy :
    (b : Block)
    → length b.extra < word_range
    → from_le_bytes (take 8 (drop 8 (header b))) ≡ length b.extra
unfolding header
header_copy b h =
    rw
      (
        drop_of 8 (to_le_bytes 8 (length b.delta))
            (to_le_bytes 8 (length b.extra) ++ offtout b.seek)
            (sym (length-to_le_bytes 8 (length b.delta))),
        take_of 8 (to_le_bytes 8 (length b.extra)) (offtout b.seek)
            (sym (length-to_le_bytes 8 (length b.extra))),
      )
      (from_le_bytes-to_le_bytes 8 (length b.extra) h)

header_seek : (b : Block) → IsSeek b.seek → offtin (take 8 (drop 16 (header b))) ≡ b.seek
unfolding header
header_seek b h =
    rw
      (
        ← append_assoc (to_le_bytes 8 (length b.delta)) (to_le_bytes 8 (length b.extra))
            (offtout b.seek),
        drop_of 16 (to_le_bytes 8 (length b.delta) ++ to_le_bytes 8 (length b.extra))
            (offtout b.seek)
            (omega (
              arith,
              length-append (to_le_bytes 8 (length b.delta)) (to_le_bytes 8 (length b.extra)),
              length-to_le_bytes 8 (length b.delta),
              length-to_le_bytes 8 (length b.extra),
            )),
        take_all 8 (offtout b.seek) (sym (length-offtout b.seek)),
      )
      (offtin-offtout b.seek h)

read-header :
    (b : Block) (rest : List ℕ) → read_full_or_eof 24 (header b ++ rest) ≡ ok (read (header b) rest)
unfolding read_full_or_eof
read-header b rest = ground (
  arith,
  length-append (header b) rest,
  length-header b,
  take_of 24 (header b) rest,
  drop_of 24 (header b) rest,
)

length-encode :
    (b : Block) (bs : List Block)
    → length (encode (b ∷ bs)) ≡ 24 + (length b.delta + (length b.extra + length (encode bs)))
unfolding encode
length-encode b bs = omega (
  arith,
  length-append (header b) (b.delta ++ (b.extra ++ encode bs)),
  length-header b,
  length-append b.delta (b.extra ++ encode bs),
  length-append b.extra (encode bs),
)

read-encode :
    (b : Block) (bs : List Block)
    → read_full_or_eof 24 (encode (b ∷ bs))
      ≡ ok (read (header b) (b.delta ++ (b.extra ++ encode bs)))
unfolding encode
read-encode b bs = read-header b (b.delta ++ (b.extra ++ encode bs))

module _ (old : List ℕ) (max_output : ℕ) (b : Block) (tail new : List ℕ) (p : ℕ)
    (old_fits : length old < sign_bit) (at : p < sign_bit)
    (fits : length new + (length b.extra + length b.delta) < sign_bit)
    (seek_fits : IsSeek b.seek) where
  round_of_header :
      patch_round old max_output
        (header b)
        (record { rest = b.delta ++ (b.extra ++ tail); new = new; oldpos = p })
      ≡ (apply_block old max_output (new, p) b >>= λ t. ok (resumed tail t))
  round_of_header =
      round_of_block old max_output b tail new p old_fits at fits seek_fits (header b)
        (header_mix b (omega arith)) (header_copy b (omega arith)) (header_seek b seek_fits)

patch_loop-encode :
    (bs : List Block) (fuel : ℕ) (old : List ℕ) (max_output : ℕ) (new : List ℕ) (p : ℕ)
    → length (encode bs) < fuel
    → length old < sign_bit
    → p < sign_bit
    → length new + length (encode bs) < sign_bit
    → All (λ b. IsSeek b.seek) bs
    → patch_loop fuel old max_output (resumed (encode bs) (new, p))
      ≡ some (apply_blocks old max_output (new, p) bs)
unfolding patch_loop apply_blocks
patch_loop-encode bs zero old max_output new p enough _ _ _ _ = absurd (omega arith)
patch_loop-encode [] (suc fuel) old max_output new p enough old_fits at fits seeks =
    unfold encode read_full_or_eof in refl
patch_loop-encode (b ∷ bs) (suc fuel) old max_output new p enough old_fits at fits seeks =
    rw (read-encode b bs, patch_loop)
      (rw (round_of_header old max_output b (encode bs) new p old_fits at room seeks.0, patch_loop)
        (elim (Result-cases (apply_block old max_output (new, p) b)) [
          | inr (e, refused) ↦ rw (refused, patch_loop, apply_blocks)
          | inl (t, applied) ↦
              let kept =
                apply_block_keeps old max_output b (encode bs) new p old_fits at room seeks.0 t
                  applied in
              rw (applied, patch_loop, apply_blocks)
                (patch_loop-encode bs fuel old max_output t.0 t.1
                  (omega (arith, length-encode b bs)) old_fits kept.0
                  (omega (arith, length-encode b bs)) seeks.1)
        ]))
  where
    room : length new + (length b.extra + length b.delta) < sign_bit
    room = omega (arith, length-encode b bs)

-- A patch that encodes blocks means what its blocks mean: the applier returns exactly what the
-- blocks give one after the other, the error of the first block that fails included, provided that
-- the old data and the patch are shorter than 2 ^ 63 bytes and each move fits its word.
pub apply_patch_bounded-encode :
    (old : List ℕ) (bs : List Block) (max_output : ℕ)
    → length old < sign_bit
    → length (encode bs) < sign_bit
    → All (λ b. IsSeek b.seek) bs
    → apply_patch_bounded old (encode bs) max_output ≡ some (apply_blocks old max_output ([], 0) bs)
unfolding apply_patch_bounded bounded_patch
apply_patch_bounded-encode old bs max_output old_fits fits seeks =
    patch_loop-encode bs (suc (length (encode bs))) old max_output [] 0 (omega arith) old_fits
      (omega arith) (omega arith) seeks
