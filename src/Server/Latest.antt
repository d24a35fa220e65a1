-- ===== src/Server/Latest.antt =====
-- crates/deltaship-server/src/storage.rs: the operations that choose the latest version of an app,
-- activation and deletion. How a version is printed and parsed is the `semver` crate's. A version's
-- directory exists if it is listed in `dirs`, and carries a `.deleted` marker if in `deleted`.
pub mod Delete
use mathlib.Core.Option
use deltaship.Prelude.{
  ℕ, ◌≡◌, Bool, true, false, not, Option, none, some, List, [], ◌∷◌, map, any, retain, ltb, ◌==◌,
  if◌then◌else◌,
}
use deltaship.Prelude.Text.{Text, text_eq}
use deltaship.Prelude.Result.{Result, ok, err, ◌>>=◌, ◌>>◌, ensure, ok_or}
use deltaship.Core.Version.{Semver, Version}
use deltaship.Server.Catalog.{AppCatalog}

-- The errors of `StorageError` that these operations return.
pub data StorageError : Type 0 where
  not_found io : StorageError

-- `b.cmp(a)` on strings: the order of their bytes. `text_lt s t` is s < t.
unfoldable pub text_lt : Text → Text → Bool
text_lt s [] = false
text_lt [] (y ∷ ys) = true
text_lt (x ∷ xs) (y ∷ ys) = if x == y then text_lt xs ys else ltb x y

-- `sort_by(|a, b| b.cmp(a))`, a stable sort.
unfoldable pub insert_descending : Text → List Text → List Text
insert_descending t [] = t ∷ []
insert_descending t (u ∷ us) = if text_lt t u then u ∷ insert_descending t us else t ∷ u ∷ us

unfoldable pub sort_descending : List Text → List Text
unfolding insert_descending text_lt
sort_descending [] = []
sort_descending (t ∷ ts) = insert_descending t (sort_descending ts)

pub record AppStore (S : Semver) : Type 0 where
  pub dirs : List Text
  pub deleted : List Text
  pub catalog : Option (AppCatalog S)

module _ {S : Semver} (to_text : Version S → Text) (parse : Text → Option (Version S)) where
  -- `set_latest_version`, where no catalog is the error of a missing file.
  unfoldable pub set_latest_version : AppStore S → Text → Result StorageError (AppStore S)
  set_latest_version s version = do
    catalog ← ok_or s.catalog not_found
    ensure (any (λ v. text_eq (to_text v.version) version) catalog.versions) not_found
    latest ← ok_or (parse version) not_found
    ok (record s { catalog = some (record catalog { latest_version = latest }) })

  -- The listed versions that may take the place of a deleted one. The source goes through a set of
  -- the names, whose order the sort makes irrelevant, as it does repeated names.
  unfoldable pub available_versions : List Text → Text → AppCatalog S → List Text
  available_versions deleted version catalog =
      retain (λ t. not (any (text_eq t) deleted))
        (retain (λ t. not (text_eq t version)) (map (λ v. to_text v.version) catalog.versions))

  unfoldable pub first_parsed : List Text → Version S → Version S
  first_parsed [] latest = latest
  first_parsed (t ∷ ts) latest = elim (parse t) [ none ↦ latest | some v ↦ v ]

  unfoldable pub retire : List Text → Text → AppCatalog S → AppCatalog S
  unfolding first_parsed sort_descending available_versions
  retire deleted version catalog =
      if text_eq (to_text catalog.latest_version) version
      then record catalog {
        latest_version =
            first_parsed (sort_descending (available_versions deleted version catalog))
              catalog.latest_version;
      }
      else catalog

  -- `delete_version`: the marker is written first, then the catalog.
  unfoldable pub delete_version : AppStore S → Text → Result StorageError (AppStore S)
  delete_version s version = do
    ensure (any (text_eq version) s.dirs) not_found
    let deleted = version ∷ s.deleted
    ok (record s { deleted = deleted; catalog = Option.map (retire deleted version) s.catalog })
