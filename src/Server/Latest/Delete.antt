-- ===== src/Server/Latest/Delete.antt =====
-- Which version becomes the latest one when the latest version is deleted.
use deltaship.Prelude.{
  ◌≡◌, ◌⊎◌, refl, Bool, true, not, Option, some, List, [], ◌∷◌, arith, map, any, retain, All,
  All-retain, All-and, All-mono, ◌||◌, ◌∙◌, inl, inr, Bool-cases, Option-cases,
}
use Prim.Native.Nat.Ordering.{lt}
use deltaship.Prelude.Text.{Text, text_eq, text_eq_refl}
use deltaship.Core.Version.{Semver, Version, cmp}
use deltaship.Server.Catalog.{AppCatalog, VersionInfo}
use deltaship.Server.Latest.{
  text_lt, insert_descending, sort_descending, available_versions, first_parsed, retire,
}

All-insert_descending :
    (P : Text → Type 0) (t : Text) (ts : List Text)
    → P t
    → All P ts
    → All P (insert_descending t ts)
unfolding insert_descending
All-insert_descending P t [] h k = (h, tt)
All-insert_descending P t (u ∷ us) h k = elim (Bool-cases (text_lt t u)) [
  | inl e ↦ rw (e, insert_descending) (k.0, All-insert_descending P t us h k.1)
  | inr e ↦ rw (e, insert_descending) (h, k)
]

All-sort_descending : (P : Text → Type 0) (ts : List Text) → All P ts → All P (sort_descending ts)
unfolding sort_descending
All-sort_descending P [] h = tt
All-sort_descending P (t ∷ ts) h =
    All-insert_descending P t (sort_descending ts) h.0 (All-sort_descending P ts h.1)

retain-All : (p : Text → Bool) (ts : List Text) → All (λ t. p t ≡ true) (retain p ts)
retain-All p [] = tt
retain-All p (t ∷ ts) = elim (Bool-cases (p t)) [
  | inl e ↦ rw e (e, retain-All p ts)
  | inr e ↦ rw e (retain-All p ts)
]

module _ {S : Semver} (to_text : Version S → Text) (parse : Text → Option (Version S)) where
  names_listed :
      (vs : List (VersionInfo S))
      → All
          (λ t. any (λ (v : VersionInfo S). text_eq (to_text v.version) t) vs ≡ true)
          (map (λ v. to_text v.version) vs)
  names_listed [] = tt
  names_listed (v ∷ vs) = (
    rw (text_eq_refl (to_text v.version)) refl,
    All-mono _ _ (λ t h. ground arith) (map (λ v. to_text v.version) vs) (names_listed vs),
  )

  -- The name of a listed version that is neither deleted nor the one that goes.
  abbrev pub IsAvailable : List Text → Text → AppCatalog S → Text → Type 0
  IsAvailable deleted version catalog t =
      ((any (λ (v : VersionInfo S). text_eq (to_text v.version) t) catalog.versions ≡ true)
        × (not (text_eq t version) ≡ true))
      × (not (any (text_eq t) deleted) ≡ true)

  available_versions-IsAvailable :
      (deleted : List Text) (version : Text) (catalog : AppCatalog S)
      → All
          (IsAvailable deleted version catalog)
          (available_versions to_text parse deleted version catalog)
  unfolding available_versions
  available_versions-IsAvailable deleted version catalog =
      let names = map (λ (v : VersionInfo S). to_text v.version) catalog.versions in
      let kept = λ (t : Text). not (text_eq t version) in
      let live = λ (t : Text). not (any (text_eq t) deleted) in
      All-and _ _ (retain live (retain kept names))
        (All-and _ _ (retain live (retain kept names))
          (All-retain _ live (retain kept names)
            (All-retain _ kept names (names_listed catalog.versions)))
          (All-retain _ live (retain kept names) (retain-All kept names)))
        (retain-All live (retain kept names))

  first_parsed-cases :
      (P : Text → Type 0) (ts : List Text) (latest : Version S)
      → All P ts
      → (first_parsed to_text parse ts latest ≡ latest)
        ⊎ ((t : Text) × P t × (parse t ≡ some (first_parsed to_text parse ts latest)))
  unfolding first_parsed
  first_parsed-cases P [] latest h = inl refl
  first_parsed-cases P (t ∷ ts) latest h = elim (Option-cases (parse t)) [
    | inl e ↦ inl (rw (e, first_parsed))
    | inr (v, e) ↦ inr (t, h.0, e ∙ rw (e, first_parsed))
  ]

  -- A deletion leaves the latest version as it was, or sets it to what the name of a listed version
  -- parses to, one that is neither the deleted version nor marked as deleted.
  pub retire-latest :
      (deleted : List Text) (version : Text) (catalog : AppCatalog S)
      → let latest = (retire to_text parse deleted version catalog).latest_version in
        (latest ≡ catalog.latest_version)
        ⊎ ((t : Text) × IsAvailable deleted version catalog t × (parse t ≡ some latest))
  unfolding retire
  retire-latest deleted version catalog =
      elim (Bool-cases (text_eq (to_text catalog.latest_version) version)) [
        | inr other ↦ inl (rw (other, retire))
        | inl latest ↦
            rw (latest, retire)
              (first_parsed-cases (IsAvailable deleted version catalog) _ catalog.latest_version
                (All-sort_descending _ _ (available_versions-IsAvailable deleted version catalog)))
      ]

  -- Where two versions are left, the newer one first, and the older one has the greater name, a
  -- deletion of the latest version makes a version the latest that is older than another available
  -- one.
  pub retire_picks_older :
      (deleted : List Text) (version : Text) (catalog : AppCatalog S) (v w : Version S)
      → text_eq (to_text catalog.latest_version) version ≡ true
      → available_versions to_text parse deleted version catalog ≡ to_text w ∷ to_text v ∷ []
      → parse (to_text v) ≡ some v
      → cmp v w ≡ lt
      → text_lt (to_text w) (to_text v) ≡ true
      → cmp (retire to_text parse deleted version catalog).latest_version w ≡ lt
  unfolding retire sort_descending insert_descending first_parsed
  retire_picks_older deleted version catalog v w h e p older text_newer = ground arith

  no_names :
      (deleted : List Text) (version : Text) (vs : List (VersionInfo S))
      → All
          (λ v.
            (text_eq (to_text v.version) version || any (text_eq (to_text v.version)) deleted)
            ≡ true)
          vs
      → retain
          (λ t. not (any (text_eq t) deleted))
          (retain (λ t. not (text_eq t version)) (map (λ v. to_text v.version) vs))
        ≡ []
  no_names deleted version [] h = refl
  no_names deleted version (v ∷ vs) h = ground (arith, no_names deleted version vs)

  -- Where each listed version is the deleted one or marked as deleted, the catalog is left as it
  -- was: a deleted version stays the latest one.
  pub retire_keeps_deleted :
      (deleted : List Text) (version : Text) (catalog : AppCatalog S)
      → All
          (λ v.
            (text_eq (to_text v.version) version || any (text_eq (to_text v.version)) deleted)
            ≡ true)
          catalog.versions
      → retire to_text parse deleted version catalog ≡ catalog
  unfolding retire sort_descending first_parsed available_versions
  retire_keeps_deleted deleted version catalog none_left =
      rw (no_names deleted version catalog.versions none_left) (ground arith)
