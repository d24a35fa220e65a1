-- ===== src/Db/Client/Backups/Expiry.antt =====
-- crates/deltaship-db/src/client.rs: what the comparison of expiry dates as texts does.
use deltaship.Prelude.{◌∙◌, ℕ, ◌≡◌, refl, Bool, false, some, List, [], ◌∷◌, ◌++◌, arith, find}
use deltaship.Prelude.Text.{Text}
use deltaship.Server.Latest.{text_lt}
use deltaship.Db.Table.{delete_where}
use deltaship.Db.Client.{ClientDb, DbRollbackBackup}
use deltaship.Db.Client.Backups.{get_backup, is_expired, delete_expired_backups}

text_lt-append : (day s t : Text) → text_lt (day ++ s) (day ++ t) ≡ text_lt s t
unfolding text_lt
text_lt-append [] s t = refl
text_lt-append (c ∷ day) s t = ground (arith, text_lt-append day s t)

same_day : (day s t : Text) → text_lt (day ++ (b'T' ∷ s)) (day ++ (b' ' ∷ t)) ≡ false
same_day day s t = text_lt-append day (b'T' ∷ s) (b' ' ∷ t) ∙ unfold text_lt in refl

find-delete_where {ℓ} :
    {A : Type ℓ} (p q : A → Bool) (xs : List A) {x : A}
    → find p xs ≡ some x
    → q x ≡ false
    → find p (delete_where q xs) ≡ some x
unfolding delete_where
find-delete_where p q [] h k = absurd (cc)
find-delete_where p q (y ∷ ys) {x} h k = ground (arith, find-delete_where p q ys {x = x})

-- A backup whose expiry date has the letter T before the time, as the documented ISO format does,
-- is not deleted on the day on which it expires, whatever the times: CURRENT_TIMESTAMP has a space
-- there, which is less.
pub same_day-survives :
    (day expiry_time time : Text) (db : ClientDb) (id : ℕ) {b : DbRollbackBackup}
    → get_backup db id ≡ some b
    → b.expires_at ≡ some (day ++ (b'T' ∷ expiry_time))
    → get_backup (delete_expired_backups (day ++ (b' ' ∷ time)) db) id ≡ some b
unfolding get_backup delete_expired_backups is_expired
same_day-survives day expiry_time time db id {b} h e =
    find-delete_where _ _ db.rollback_backups {x = b} h (rw (e, same_day day expiry_time time) refl)
