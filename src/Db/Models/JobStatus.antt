-- ===== src/Db/Models/JobStatus.antt =====
-- crates/deltaship-db/src/models.rs: the status of a diff job and its text in the database.
use deltaship.Prelude.{◌≡◌, refl, if◌then◌else◌}
use deltaship.Prelude.Text.{Text, ascii, text_eq}
use deltaship.Prelude.Result.{Result, ok, err}
use deltaship.Core.Platform.{to_lowercase}
use deltaship.Db.{DbError, invalid_data}

pub data DiffJobStatus : Type 0 where
  pending running completed failed : DiffJobStatus

unfoldable pub as_str : DiffJobStatus → Text
as_str pending = ascii "pending"
as_str running = ascii "running"
as_str completed = ascii "completed"
as_str failed = ascii "failed"

-- The arms of the match, in their order.
unfoldable pub from_lower : Text → Result DbError DiffJobStatus
unfolding text_eq
from_lower s =
    if text_eq s (ascii "pending")
    then ok pending
    else if text_eq s (ascii "running")
    then ok running
    else if text_eq s (ascii "completed")
    then ok completed
    else if text_eq s (ascii "failed")
    then ok failed
    else err invalid_data

-- `DiffJobStatus::from_str`.
unfoldable pub from_str : Text → Result DbError DiffJobStatus
unfolding from_lower to_lowercase
from_str s = from_lower (to_lowercase s)

-- The text of a status, which the statements write, reads back as the status.
pub from_str-as_str_job : (s : DiffJobStatus) → from_str (as_str s) ≡ ok s
unfolding from_str as_str
from_str-as_str_job pending = refl
from_str-as_str_job running = refl
from_str-as_str_job completed = refl
from_str-as_str_job failed = refl
