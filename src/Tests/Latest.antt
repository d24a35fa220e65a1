-- ===== src/Tests/Latest.antt =====
-- Deletions from a catalog of versions 9.0.0, 10.0.0 and 11.0.0.
use deltaship.Prelude.{
  ◌+◌, ◌/◌, ◌%◌, ◌≡◌, ◌⊎◌, refl, Option, none, some, [], ◌∷◌, ltb, if◌then◌else◌,
}
use deltaship.Prelude.Text.{Text, ascii, text_eq}
use deltaship.Core.Version.{Version}
use deltaship.Server.Catalog.{AppCatalog}
use deltaship.Server.Latest.{available_versions, retire}
use deltaship.Server.Latest.Delete.{IsAvailable, retire-latest}
use deltaship.Tests.Fixtures.{numbered, version, info, catalog_of}

abbrev v9 : Version numbered
v9 = version 9 0 0 0

abbrev v10 : Version numbered
v10 = version 10 0 0 0

abbrev v11 : Version numbered
v11 = version 11 0 0 0

-- The names of the versions with a major number below 100 and nothing else.
abbrev to_text : Version numbered → Text
to_text v =
    if ltb v.major 10
    then (48 + v.major) ∷ ascii ".0.0"
    else (48 + v.major / 10) ∷ (48 + v.major % 10) ∷ ascii ".0.0"

abbrev parse : Text → Option (Version numbered)
unfolding text_eq
parse t =
    if text_eq t (ascii "9.0.0")
    then some v9
    else if text_eq t (ascii "10.0.0")
    then some v10
    else if text_eq t (ascii "11.0.0")
    then some v11
    else none

abbrev catalog : AppCatalog numbered
catalog = catalog_of (info v11 ∷ info v10 ∷ info v9 ∷ []) v11

two_left :
    available_versions to_text parse (ascii "11.0.0" ∷ []) (ascii "11.0.0") catalog
    ≡ to_text v10 ∷ to_text v9 ∷ []
unfolding available_versions text_eq
two_left = refl

retire-latest_example :
    ((retire to_text parse (ascii "11.0.0" ∷ []) (ascii "11.0.0") catalog).latest_version ≡ v11)
    ⊎ ((t : Text) × IsAvailable to_text parse (ascii "11.0.0" ∷ []) (ascii "11.0.0") catalog t
        × (parse t
            ≡ some
                (retire to_text parse
                  (ascii "11.0.0" ∷ [])
                  (ascii "11.0.0")
                  catalog).latest_version))
retire-latest_example = retire-latest to_text parse (ascii "11.0.0" ∷ []) (ascii "11.0.0") catalog
