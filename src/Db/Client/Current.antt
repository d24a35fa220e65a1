-- ===== src/Db/Client/Current.antt =====
-- crates/deltaship-db/src/client.rs: the operations that touch the current version of a binary keep
-- the client's database consistent.
use deltaship.Prelude.{
  ◌≡◌, ap, ◌∙◌, Bool, true, false, some, List, [], ◌∷◌, arith, any, All, if◌then◌else◌,
}
use deltaship.Prelude.Text.{Text, text_eq, text_eq-eq, text_eq_iff}
use deltaship.Db.Table.{update_where, any-update_where}
use deltaship.Db.Client.{DbManagedBinary, DbInstalledVersion, is_installed}
use deltaship.Db.Client.Invariant.{current_of, Agrees}

-- The two statements on installed versions, the clearing of the flags and the setting of one.
abbrev pub clear : DbInstalledVersion → DbInstalledVersion
clear r = record r { is_current = false }

abbrev pub mark : DbInstalledVersion → DbInstalledVersion
mark r = record r { is_current = true }

abbrev pub of_binary : Text → DbInstalledVersion → Bool
of_binary id r = text_eq r.binary_id id

abbrev pub cleared : Text → List DbInstalledVersion → List DbInstalledVersion
cleared id = update_where (of_binary id) clear

abbrev pub marked : Text → Text → List DbInstalledVersion → List DbInstalledVersion
marked id v rs = update_where (is_installed id v) mark (cleared id rs)

abbrev pub name_current : Text → Text → Text → DbManagedBinary → DbManagedBinary
name_current now v version_string b = record b {
  current_version_id = some v;
  current_version_string = some version_string;
  last_update_at = some now;
}

-- A row agrees after the three statements of the transaction.
Agrees-after :
    (bs bs' : List DbManagedBinary) (id v : Text)
    → current_of bs' id ≡ some v
    → ((other : Text) → text_eq id other ≡ false → current_of bs' other ≡ current_of bs other)
    → (r : DbInstalledVersion) → Agrees bs r
    → let r' = if of_binary id r then clear r else r in
      Agrees bs' (if is_installed id v r' then mark r' else r')
Agrees-after bs bs' id v here other r h =
    let at_id : text_eq r.binary_id id ≡ true → current_of bs' r.binary_id ≡ some v =
      λ same. ap (current_of bs') (text_eq-eq r.binary_id id same) ∙ here in
    let apart : text_eq r.binary_id id ≡ false → text_eq id r.binary_id ≡ false =
      λ e. ground (arith, text_eq_iff id r.binary_id, text_eq_iff r.binary_id id) in
    ground (arith, at_id, apart, other r.binary_id)

pub agree_after :
    (bs bs' : List DbManagedBinary) (id v : Text)
    → current_of bs' id ≡ some v
    → ((other : Text) → text_eq id other ≡ false → current_of bs' other ≡ current_of bs other)
    → (rs : List DbInstalledVersion) → All (Agrees bs) rs
    → All (Agrees bs') (marked id v rs)
unfolding update_where
agree_after bs bs' id v here other [] h = tt
agree_after bs bs' id v here other (r ∷ rs) h =
    (Agrees-after bs bs' id v here other r h.0, agree_after bs bs' id v here other rs h.1)

pub any-marked :
    (id v : Text) (q : DbInstalledVersion → Bool)
    → ((r : DbInstalledVersion) → q (clear r) ≡ q r)
    → ((r : DbInstalledVersion) → q (mark r) ≡ q r)
    → (rs : List DbInstalledVersion) → any q (marked id v rs) ≡ any q rs
any-marked id v q c m rs =
    any-update_where (is_installed id v) mark q m (cleared id rs)
    ∙ any-update_where (of_binary id) clear q c rs
