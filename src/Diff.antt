-- ===== src/Diff.antt =====
-- crates/deltaship-diff/src/error.rs: the errors of the patch applier, with the texts that the
-- source gives them.
pub mod Words
pub mod Blocks
pub mod Apply
pub mod Compress
use deltaship.Prelude.{ℕ}
use deltaship.Prelude.Text.{Text}

pub data DiffError : Type 0 where
  io_error : Text → DiffError
  diff_generation_failure : Text → DiffError
  patch_application_failure : Text → DiffError
  invalid_diff : DiffError
  checksum_mismatch : Text → Text → DiffError
  size_limit_exceeded : ℕ → DiffError
