-- ===== src/Diff/Apply.antt =====
-- crates/deltaship-diff/src/apply.rs: the patch loop. The patch is read through a cursor, whose
-- state is the bytes that are left. A round reads at least the 24 bytes of its control record, so
-- one more round than the patch has bytes is enough fuel.
pub mod Bounds
pub mod Refines
pub mod Verified
use deltaship.Prelude.{
  ◌-◌, ◌/◌, ◌%◌, ℕ, zero, suc, ◌+◌, ◌≡◌, Bool, true, false, not, Option, none, some, List, [], ◌∷◌,
  ◌++◌, ltb, leb, ◌==◌, if◌then◌else◌, length, take, drop,
}
use mathlib.Core.Option
use deltaship.Prelude.Text.{Text, ascii, text_eq}
use deltaship.Prelude.Int.{ℤ}
use deltaship.Prelude.Result.{Result, ok, err, ◌>>=◌, ◌>>◌, ensure, ok_or, map_err}
use deltaship.Diff.Words.{
  word_range, from_le_bytes, offtin, checked_add, reposition, get_range, add_bytes,
}
use deltaship.Diff.{
  DiffError, patch_application_failure, invalid_diff, checksum_mismatch, size_limit_exceeded,
}

abbrev pub max_output_size : ℕ
max_output_size = 1_073_741_824

pub data ControlRead : Type 0 where
  read : List ℕ → List ℕ → ControlRead
  eof : ControlRead

-- A cursor hands out bytes until it is empty, so the loop of `read_full_or_eof` fills the buffer,
-- or stops at the end of the patch. `read` has the buffer and the bytes that are left.
unfoldable pub read_full_or_eof : ℕ → List ℕ → Result Text ControlRead
read_full_or_eof total rest =
    if leb total (length rest)
    then ok (read (take total rest) (drop total rest))
    else if length rest == 0
    then ok eof
    else err (ascii "unexpected end of file")

unfoldable pub u64_to_usize : ℕ → Result DiffError ℕ
u64_to_usize v = if ltb v word_range then ok v else err invalid_diff

pub record State : Type 0 where
  pub rest : List ℕ
  pub new : List ℕ
  pub oldpos : ℕ

-- The body of the loop, after the control record `ctrl` was read.
unfoldable pub patch_round : List ℕ → ℕ → List ℕ → State → Result DiffError State
patch_round old max_output ctrl s = do
  mix_len ← u64_to_usize (from_le_bytes (take 8 ctrl))
  copy_len ← u64_to_usize (from_le_bytes (take 8 (drop 8 ctrl)))
  let seek_len = offtin (take 8 (drop 16 ctrl))
  to_read ← ok_or (checked_add copy_len mix_len) invalid_diff
  projected ← ok_or (checked_add (length s.new) to_read) invalid_diff
  ensure (leb projected max_output) (size_limit_exceeded max_output)
  let mix_start = length s.new
  let fresh = take to_read s.rest
  ensure (length fresh == to_read)
      (patch_application_failure (ascii "unexpected end of patch data"))
  let new = s.new ++ fresh
  mix_end ← ok_or (checked_add mix_start mix_len) invalid_diff
  mix_slice ← ok_or (get_range new mix_start mix_end) invalid_diff
  oldpos_end ← ok_or (checked_add s.oldpos mix_len) invalid_diff
  old_slice ← ok_or (get_range old s.oldpos oldpos_end) invalid_diff
  oldpos ← ok_or (reposition oldpos_end seek_len) invalid_diff
  ok (record {
    rest = drop to_read s.rest;
    new = take mix_start new ++ (add_bytes mix_slice old_slice ++ drop mix_end new);
    oldpos = oldpos;
  })

-- `none` means that the fuel ran out.
unfoldable pub patch_loop : ℕ → List ℕ → ℕ → State → Option (Result DiffError (List ℕ))
patch_loop zero old max_output s = none
patch_loop (suc fuel) old max_output s = elim (read_full_or_eof 24 s.rest) [
  | err message ↦ some (err (patch_application_failure message))
  | ok eof ↦ some (ok s.new)
  | ok (read ctrl rest) ↦ elim (patch_round old max_output ctrl (record s { rest = rest })) [
    | err e ↦ some (err e)
    | ok t ↦ patch_loop fuel old max_output t
  ]
]

unfoldable pub bounded_patch : List ℕ → List ℕ → List ℕ → ℕ → Option (Result DiffError (List ℕ))
unfolding patch_loop
bounded_patch old patch new max_output =
    patch_loop (suc (length patch)) old max_output (record { rest = patch; new = new; oldpos = 0 })

unfoldable pub apply_patch_bounded : List ℕ → List ℕ → ℕ → Option (Result DiffError (List ℕ))
unfolding bounded_patch
apply_patch_bounded old patch max_output = bounded_patch old patch [] max_output

unfoldable pub apply_patch : List ℕ → List ℕ → Option (Result DiffError (List ℕ))
unfolding apply_patch_bounded
apply_patch old patch = apply_patch_bounded old patch max_output_size

abbrev pub hex_digit : ℕ → ℕ
hex_digit d = if ltb d 10 then b'0' + d else b'a' + (d - 10)

-- `format!("{:02x}", b)` of each byte.
unfoldable pub hex_encode : List ℕ → Text
hex_encode [] = []
hex_encode (b ∷ bs) = hex_digit (b / 16) ∷ hex_digit (b % 16) ∷ hex_encode bs

-- BLAKE3 is that of the `blake3` crate.
module _ (blake3 : List ℕ → Text) where
  verify : Option Text → List ℕ → Result DiffError (List ℕ)
  verify none new = ok new
  verify (some expected) new =
      if text_eq (blake3 new) expected
      then ok new
      else err (checksum_mismatch (hex_encode expected) (hex_encode (blake3 new)))

  unfoldable pub apply_patch_verified :
      List ℕ → List ℕ → Option Text → Option (Result DiffError (List ℕ))
  unfolding verify
  apply_patch_verified old patch expected_hash =
      Option.map (λ r. r >>= verify expected_hash) (apply_patch old patch)
