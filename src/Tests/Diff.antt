-- ===== src/Tests/Diff.antt =====
-- A patch of two blocks, and a stream of three bytes.
use deltaship.Prelude.{
  ap, ◌∙◌, ℕ, ◌≡◌, ◌≤◌, ◌<◌, ◌↔◌, refl, none, some, List, [], ◌∷◌, arith, length,
}
use deltaship.Prelude.Text.{Text, ascii}
use deltaship.Prelude.Int.{pos, negsuc}
use deltaship.Prelude.Result.{Result, ok, err}
use deltaship.Diff.{DiffError, size_limit_exceeded, patch_application_failure}
use deltaship.Diff.Words.{sign_bit, add_bytes}
use deltaship.Diff.Blocks.{Block, apply_block, apply_blocks, to_le_bytes, offtout, header, encode}
use deltaship.Diff.Apply.{
  apply_patch_bounded, apply_patch, apply_patch_verified, bounded_patch, read_full_or_eof,
}
use deltaship.Diff.Apply.Bounds.{bounded_patch_ends, length-apply_patch_bounded}
use deltaship.Diff.Apply.Refines.{apply_patch_bounded-encode}
use deltaship.Diff.Apply.Verified.{apply_patch_verified_iff}
use deltaship.Diff.Compress.{Stream, decompress_diff_bounded, decompress_diff_bounded_iff}

abbrev old_data : List ℕ
old_data = 10 ∷ 20 ∷ 30 ∷ 40 ∷ []

-- The first two bytes with 1 and 2 added, a new byte, and back to the second byte.
abbrev first_block : Block
first_block = record { delta = 1 ∷ 2 ∷ []; extra = 99 ∷ []; seek = negsuc 0 }

abbrev second_block : Block
second_block = record { delta = 0 ∷ 0 ∷ 255 ∷ []; extra = []; seek = pos 0 }

abbrev blocks : List Block
blocks = first_block ∷ second_block ∷ []

abbrev new_data : List ℕ
new_data = 11 ∷ 22 ∷ 99 ∷ 20 ∷ 30 ∷ 39 ∷ []

blocks_give_new_data : apply_blocks old_data 100 ([], 0) blocks ≡ ok new_data
unfolding apply_blocks apply_block add_bytes
blocks_give_new_data = refl

encoded_short : length (encode blocks) < sign_bit
unfolding encode header offtout to_le_bytes
encoded_short = omega arith

apply_patch_bounded-encode_example :
    apply_patch_bounded old_data (encode blocks) 100
    ≡ some (apply_blocks old_data 100 ([], 0) blocks)
apply_patch_bounded-encode_example =
    apply_patch_bounded-encode old_data blocks 100 (omega arith) encoded_short
      (omega arith, (omega arith, tt))

length-apply_patch_bounded_example : length new_data ≤ 100
length-apply_patch_bounded_example =
    length-apply_patch_bounded old_data (encode blocks) 100 new_data
      (apply_patch_bounded-encode_example ∙ ap some blocks_give_new_data)

-- A patch that ends inside a control record.
bounded_patch_ends_example :
    (r : Result DiffError (List ℕ)) × (bounded_patch old_data (1 ∷ 2 ∷ []) [] 100 ≡ some r)
bounded_patch_ends_example = bounded_patch_ends old_data (1 ∷ 2 ∷ []) [] 100

cut_patch_refused :
    apply_patch_bounded old_data (1 ∷ 2 ∷ []) 100
    ≡ some (err (patch_application_failure (ascii "unexpected end of file")))
unfolding apply_patch_bounded read_full_or_eof
cut_patch_refused = refl

-- A stand-in for a digest.
abbrev sum : List ℕ → Text
sum [] = 0 ∷ []
sum (x ∷ xs) = x ∷ []

apply_patch_verified_iff_example :
    (apply_patch_verified sum old_data (encode blocks) (some (11 ∷ [])) ≡ some (ok new_data))
    ↔ ((apply_patch old_data (encode blocks) ≡ some (ok new_data)) × (sum new_data ≡ 11 ∷ []))
apply_patch_verified_iff_example =
    apply_patch_verified_iff sum old_data (encode blocks) (11 ∷ []) new_data

-- A decoder of stored data, which fails on empty input.
abbrev stored : List ℕ → Result Text Stream
stored [] = err (ascii "incomplete frame")
stored (x ∷ xs) = ok (record { bytes = xs; failure = none })

decompress_diff_bounded_iff_example :
    (decompress_diff_bounded stored (7 ∷ 1 ∷ 2 ∷ 3 ∷ []) 3 ≡ ok (1 ∷ 2 ∷ 3 ∷ [])) ↔ (
      (stored (7 ∷ 1 ∷ 2 ∷ 3 ∷ []) ≡ ok (record { bytes = 1 ∷ 2 ∷ 3 ∷ []; failure = none }))
      × (length {A = ℕ} (1 ∷ 2 ∷ 3 ∷ []) ≤ 3))
decompress_diff_bounded_iff_example =
    decompress_diff_bounded_iff stored (7 ∷ 1 ∷ 2 ∷ 3 ∷ []) 3 (1 ∷ 2 ∷ 3 ∷ []) (omega arith)

stream_over_bound :
    decompress_diff_bounded stored (7 ∷ 1 ∷ 2 ∷ 3 ∷ []) 2 ≡ err (size_limit_exceeded 2)
unfolding decompress_diff_bounded
stream_over_bound = refl
