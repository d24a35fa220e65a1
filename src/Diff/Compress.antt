-- ===== src/Diff/Compress.antt =====
-- crates/deltaship-diff/src/compress.rs: the bounded decompression. What the zstd decoder makes of
-- its input is a parameter: the error of its header, or the bytes it can deliver and the error, if
-- any, that ends them.
use deltaship.Prelude.{
  ℕ, ◌+◌, ◌%◌, ◌≤◌, ◌<◌, ◌≡◌, ◌↔◌, Option, none, some, List, arith, length, take, length-take, inl,
  inr, leb, if◌then◌else◌,
}
use deltaship.Prelude.Text.{Text}
use deltaship.Prelude.Result.{Result, ok, err, ◌>>=◌, ◌>>◌, ensure, map_err, Result-cases}
use deltaship.Diff.Words.{word_range}
use deltaship.Diff.{DiffError, io_error, size_limit_exceeded}

abbrev pub max_decompressed_size : ℕ
max_decompressed_size = 1_073_741_824

pub record Stream : Type 0 where
  pub bytes : List ℕ
  pub failure : Option Text

-- `stream.take(limit).read_to_end(&mut out)`: past the limit nothing is read, so no error is met.
read_at_most : ℕ → Stream → Result Text (List ℕ)
read_at_most limit stream =
    if leb limit (length stream.bytes)
    then ok (take limit stream.bytes)
    else elim stream.failure [ none ↦ ok stream.bytes | some e ↦ err e ]

module _ (decoder : List ℕ → Result Text Stream) where
  -- The sum `max_size + 1` wraps in a release build.
  unfoldable pub decompress_diff_bounded : List ℕ → ℕ → Result DiffError (List ℕ)
  unfolding read_at_most
  decompress_diff_bounded compressed max_size = do
    stream ← map_err io_error (decoder compressed)
    out ← map_err io_error (read_at_most ((max_size + 1) % word_range) stream)
    ensure (leb (length out) max_size) (size_limit_exceeded max_size)
    ok out

  unfoldable pub decompress_diff : List ℕ → Result DiffError (List ℕ)
  decompress_diff compressed = decompress_diff_bounded compressed max_decompressed_size

  -- Below the largest `usize`, a decompression returns exactly the streams that end without an
  -- error within the bound, each whole; so no output is cut short and none passes the bound.
  pub decompress_diff_bounded_iff :
      (compressed : List ℕ) (max_size : ℕ) (out : List ℕ)
      → max_size + 1 < word_range
      → (decompress_diff_bounded compressed max_size ≡ ok out) ↔ (
          (decoder compressed ≡ ok (record { bytes = out; failure = none }))
          × (length out ≤ max_size))
  unfolding decompress_diff_bounded
  decompress_diff_bounded_iff compressed max_size out h =
      let e : (max_size + 1) % word_range ≡ max_size + 1 = omega arith in
      elim (Result-cases (decoder compressed)) [
        | inl (stream, read) ↦
            let cut = length-take (max_size + 1) stream.bytes in
            rw (read, e, decompress_diff_bounded) (ground (arith, cut), ground (arith, cut))
        | inr (message, refused) ↦
            rw (refused, decompress_diff_bounded) (ground arith, ground arith)
      ]
