-- ===== src/Db/Models/HistoryStatus.antt =====
-- crates/deltaship-db/src/models.rs: the status of an update and its text in the database.
use deltaship.Prelude.{◌≡◌, refl, if◌then◌else◌}
use deltaship.Prelude.Text.{Text, ascii, text_eq}
use deltaship.Prelude.Result.{Result, ok, err}
use deltaship.Core.Platform.{to_lowercase}
use deltaship.Db.{DbError, invalid_data}

pub data UpdateHistoryStatus : Type 0 where
  downloading applying verifying completed failed rolled_back : UpdateHistoryStatus

unfoldable pub as_str : UpdateHistoryStatus → Text
as_str downloading = ascii "downloading"
as_str applying = ascii "applying"
as_str verifying = ascii "verifying"
as_str completed = ascii "completed"
as_str failed = ascii "failed"
as_str rolled_back = ascii "rolled_back"

-- The arms of the match, in their order.
unfoldable pub from_lower : Text → Result DbError UpdateHistoryStatus
unfolding text_eq
from_lower s =
    if text_eq s (ascii "downloading")
    then ok downloading
    else if text_eq s (ascii "applying")
    then ok applying
    else if text_eq s (ascii "verifying")
    then ok verifying
    else if text_eq s (ascii "completed")
    then ok completed
    else if text_eq s (ascii "failed")
    then ok failed
    else if text_eq s (ascii "rolled_back")
    then ok rolled_back
    else err invalid_data

-- `UpdateHistoryStatus::from_str`.
unfoldable pub from_str : Text → Result DbError UpdateHistoryStatus
unfolding from_lower to_lowercase
from_str s = from_lower (to_lowercase s)

-- The text of a status, which the statements write, reads back as the status.
pub from_str-as_str_history : (s : UpdateHistoryStatus) → from_str (as_str s) ≡ ok s
unfolding from_str as_str
from_str-as_str_history downloading = refl
from_str-as_str_history applying = refl
from_str-as_str_history verifying = refl
from_str-as_str_history completed = refl
from_str-as_str_history failed = refl
from_str-as_str_history rolled_back = refl
