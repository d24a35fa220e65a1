-- ===== src/Server/UpdateCheck/Offers.antt =====
-- When an update is offered, and what of it.
use mathlib.Core.Option
use mathlib.Core.Option.{some-injective}
use deltaship.Prelude.{
  ◌%◌, ◌<◌, ◌++◌, any, arith, ap, sym, ◌∙◌, subst, ◌≡◌, ◌⊎◌, ◌↔◌, refl, Bool, true, false, not,
  ◌&&◌, Option, none, some, List, [], ◌∷◌, find, inl, inr, Bool-cases, Option-cases,
}
use deltaship.Prelude.Text.{Text, ascii}
use deltaship.Prelude.Result.{ok_injective, ok, >>=-eq-ok, ok_or-eq-ok, map_err-eq-ok}
use deltaship.Core.Version.{Semver, Version, version_eq, ge_version}
use deltaship.Core.Platform.{Platform, from_str, platform_eq, as_str}
use deltaship.Core.Update.{UpdateCheckResponse, no_update, available, not_in_rollout}
use deltaship.Server.Catalog.{RolloutConfig, VersionInfo, AppCatalog}
use deltaship.Server.Validation.{validate_name}
use deltaship.Server.UpdateCheck.{
  Backend, DiffInfo, PlatformArtifact, UpdateCheckQuery, left_out, find_diff, offer, find_latest,
  answer, parse_current, check_update, get_artifact, device_in_rollout,
}

pub find-some {ℓ} :
    {A : Type ℓ} (p : A → Bool) (xs : List A) {x : A} → find p xs ≡ some x → p x ≡ true
find-some p [] h = absurd (cc)
find-some p (x ∷ xs) h = elim (Bool-cases (p x)) [
  | inl e ↦ subst (λ y. p y ≡ true) (some-injective _ _ (rw e at h)) e
  | inr e ↦ find-some p xs (rw e at h)
]

abbrev is_some {ℓ} : {A : Type ℓ} → Option A → Bool
is_some none = false
is_some (some a) = true

all_three :
    {A : Type 0} (g l : Bool) (o : Option A) (r : Bool)
    → r ≡ (not g && (is_some o && not l))
    → (r ≡ true) ↔ ((g ≡ false) × ((a : A) × (o ≡ some a)) × (l ≡ false))
all_three true l o r e = (λ h. absurd (cc), λ k. let t = k.0 in absurd (cc))
all_three false l none r e = (λ h. absurd (cc), λ k. let t = k.1.1 in absurd (cc))
all_three false true (some a) r e = (λ h. absurd (cc), λ k. let t = k.2 in absurd (cc))
all_three false false (some a) r e = (λ h. (refl, (a, refl), refl), λ k. e)

-- Whether an answer offers an update: the latest version is newer than the client's, the catalog
-- lists that version for the client's platform, and a device that gives its name while a rollout
-- of less than 100% is on has a digest below the percentage, modulo 100.
pub IsOffered :
    {S : Semver} → Backend S → Text → Platform → Version S → Option Text → AppCatalog S → Type 0
IsOffered {S} b app platform current device catalog =
    (ge_version current catalog.latest_version ≡ false)
    × (any
          (λ v.
            version_eq v.version catalog.latest_version && any (platform_eq platform) v.platforms)
          catalog.versions
        ≡ true)
    × ((c : RolloutConfig) (d : Text)
        → b.get_rollout_config app (b.to_text catalog.latest_version) ≡ some c
        → device ≡ some d
        → c.enabled ≡ true
        → c.percentage < 100
        → b.blake3_u64 d % 100 < c.percentage)

find-none-any {ℓ} : {A : Type ℓ} (p : A → Bool) (xs : List A) → find p xs ≡ none → any p xs ≡ false
find-none-any p [] h = refl
find-none-any p (x ∷ xs) h = elim (Bool-cases (p x)) [
  | inl e ↦ absurd (cc (rw e at h))
  | inr e ↦ rw e (find-none-any p xs (rw e at h))
]

find-any {ℓ} :
    {A : Type ℓ} (p : A → Bool) (xs : List A) → (any p xs ≡ true) ↔ ((x : A) × (find p xs ≡ some x))
find-any p [] = (λ h. absurd (cc), λ h. let e = h.1 in absurd (cc))
find-any p (x ∷ xs) = elim (Bool-cases (p x)) [
  | inl e ↦ (λ h. (x, rw e refl), λ h. rw e refl)
  | inr e ↦ (
    λ h. let (y, f) = (find-any p xs).0 (rw e at h) in (y, rw e f),
    λ h. rw e ((find-any p xs).1 (h.0, rw e at h.1)),
  )
]

module _ {S : Semver} (b : Backend S) where
  answer_available :
      (app : Text) (platform : Platform) (current : Version S) (device : Option Text)
      (catalog : AppCatalog S)
      → (answer b app platform current device catalog).update_available ≡ (
          not (ge_version current catalog.latest_version)
          && (is_some (find_latest b catalog platform)
              && not (
                  left_out b (b.get_rollout_config app (b.to_text catalog.latest_version)) device)))
  unfolding answer no_update not_in_rollout offer available
  answer_available app platform current device catalog =
      let rollout = b.get_rollout_config app (b.to_text catalog.latest_version) in
      elim (Bool-cases (ge_version current catalog.latest_version)) [
        | inl e ↦ rw (e, answer) refl
        | inr e ↦ elim (Option-cases (find_latest b catalog platform)) [
          | inl n ↦ rw (e, answer, n) refl
          | inr (v, f) ↦ elim (Bool-cases (left_out b rollout device)) [
            | inl l ↦ rw (e, answer, f, l) refl
            | inr l ↦ rw (answer, e, f, l) refl
          ]
        ]
      ]

  find_latest_iff :
      (catalog : AppCatalog S) (platform : Platform)
      → ((v : VersionInfo S) × (find_latest b catalog platform ≡ some v)) ↔ (
          any
            (λ v.
              version_eq v.version catalog.latest_version && any (platform_eq platform) v.platforms)
            catalog.versions
          ≡ true)
  unfolding find_latest
  find_latest_iff catalog platform = let iff = find-any _ catalog.versions in (iff.1, iff.0)

  left_out_iff :
      (rollout : Option RolloutConfig) (device : Option Text)
      → (left_out b rollout device ≡ false) ↔ (
          (c : RolloutConfig) (d : Text)
          → rollout ≡ some c
          → device ≡ some d
          → c.enabled ≡ true
          → c.percentage < 100
          → b.blake3_u64 d % 100 < c.percentage)
  unfolding left_out device_in_rollout
  left_out_iff none device = (λ h c d e. absurd (cc), λ h. refl)
  left_out_iff (some c) none = (λ h c' d e k. absurd (cc), λ h. refl)
  left_out_iff (some c) (some d) = (
    λ h c' d' e k on p. ground (arith, some-injective _ _ e, some-injective _ _ k),
    λ h. ground (arith, h c d refl refl),
  )

  -- An answer offers an update exactly if the latest version is newer than the client's, the catalog
  -- lists that version for the client's platform, and no rollout leaves the device out: one that is
  -- enabled, below 100%, and at or below the digest of the device's name modulo 100.
  pub answer_offers :
      (app : Text) (platform : Platform) (current : Version S) (device : Option Text)
      (catalog : AppCatalog S)
      → ((answer b app platform current device catalog).update_available ≡ true)
        ↔ IsOffered b app platform current device catalog
  unfolding IsOffered
  answer_offers app platform current device catalog =
      let rollout = b.get_rollout_config app (b.to_text catalog.latest_version) in
      let three = all_three _ _ _ _ (answer_available app platform current device catalog) in
      let listed = find_latest_iff catalog platform in
      let reached = left_out_iff rollout device in
      (
        λ h. let (newer, found, kept) = three.0 h in (newer, listed.0 found, reached.0 kept),
        λ o. let (newer, found, kept) = o in three.1 (newer, listed.1 found, reached.1 kept),
      )

  answer_target :
      (app : Text) (platform : Platform) (current : Version S) (device : Option Text)
      (catalog : AppCatalog S)
      → IsOffered b app platform current device catalog
      → (answer b app platform current device catalog).target_version ≡ some catalog.latest_version
  unfolding answer offer available IsOffered
  answer_target app platform current device catalog (newer, listed, reached) =
      let rollout = b.get_rollout_config app (b.to_text catalog.latest_version) in
      let (v, found) = (find_latest_iff catalog platform).1 listed in
      rw (newer, answer, found, (left_out_iff rollout device).1 reached) refl

  -- The artifact of the latest version for the platform, in the manifest of that version.
  abbrev pub latest_artifact : Text → Platform → AppCatalog S → Option (PlatformArtifact S)
  latest_artifact app platform catalog =
      Option.bind (b.get_version_manifest app (b.to_text catalog.latest_version))
        (λ m. get_artifact platform m.platforms)

  -- The diff of an offer is all or nothing. If the artifact of the latest version lists diffs from
  -- the client's version, the offer gives the size and the checksum of the first of them, and the
  -- address /api/v1/apps/{app}/diffs/{current}-to-{latest}?platform={platform}. Else, and where
  -- there is no artifact, the offer has no address, no size and no checksum of a diff.
  pub offer_diff :
      (app : Text) (platform : Platform) (current : Version S) (device : Option Text)
      (catalog : AppCatalog S) (info : VersionInfo S) (rollout : Option RolloutConfig)
      → let r = offer b app platform current device catalog info rollout in
        (((a : PlatformArtifact S)
            → latest_artifact app platform catalog ≡ some a
            → any (λ d. version_eq d.from_version current) a.diffs_from ≡ false)
          × (r.diff_url ≡ none)
          × (r.diff_size ≡ none)
          × (r.diff_checksum ≡ none))
        ⊎ ((a : PlatformArtifact S) × (d : DiffInfo S) × (latest_artifact app platform catalog
              ≡ some a)
            × (find (λ d. version_eq d.from_version current) a.diffs_from ≡ some d)
            × (r.diff_url
                ≡ some (
                    (ascii "/api/v1/apps/" ++ app)
                    ++ (ascii "/diffs/"
                        ++ (b.to_text current
                            ++ (ascii "-to-"
                                ++ (b.to_text catalog.latest_version
                                    ++ (ascii "?platform=" ++ as_str platform)))))))
            × (r.diff_size ≡ some d.size)
            × (r.diff_checksum ≡ some d.checksum))
  unfolding offer find_diff available no_update
  offer_diff app platform current device catalog info rollout =
      let artifact = latest_artifact app platform catalog in
      elim (Option-cases artifact) [
        | inl e ↦
            inl (λ a h. absurd (cc), rw (e, offer) refl, rw (e, offer) refl, rw (e, offer) refl)
        | inr (a, e) ↦
            elim (Option-cases (find (λ d. version_eq d.from_version current) a.diffs_from)) [
              | inl n ↦ inl (
                λ a' h.
                    subst
                      (λ (x : PlatformArtifact S).
                        any (λ d. version_eq d.from_version current) x.diffs_from ≡ false)
                      (some-injective _ _ (sym e ∙ h)) (find-none-any _ a.diffs_from n),
                rw (e, offer, n) refl,
                rw (e, offer, n) refl,
                rw (e, offer, n) refl,
              )
              | inr (d, f) ↦
                  inr (
                    a,
                    d,
                    e,
                    f,
                    rw (e, offer, f) refl,
                    rw (e, offer, f) refl,
                    rw (e, offer, f) refl,
                  )
            ]
      ]

  -- A request that is answered with an update has a valid name and a known platform, the app has a
  -- catalog, and the update is the latest version of that catalog, newer than the client's version.
  pub check_update_offers :
      (app : Text) (query : UpdateCheckQuery) (r : UpdateCheckResponse S)
      → check_update b app query ≡ ok r
      → r.update_available ≡ true
      → (platform : Platform) × (current : Version S) × (catalog : AppCatalog S) × (from_str
            query.platform
          ≡ some platform)
        × (parse_current b query.current_version ≡ ok current)
        × (b.get_app_catalog app ≡ some catalog)
        × (validate_name app ≡ ok tt)
        × (r.target_version ≡ some catalog.latest_version)
        × IsOffered b app platform current query.device_id_hash catalog
  unfolding check_update
  check_update_offers app query r h k =
      let a = >>=-eq-ok _ _ h in
      let p = >>=-eq-ok _ _ a.2 in
      let v = >>=-eq-ok _ _ p.2 in
      let c = >>=-eq-ok _ _ v.2 in
      let is_answer = ok_injective c.2 in
      let offered =
        (answer_offers app p.0 v.0 query.device_id_hash c.0).0
          (ap (λ x. x.update_available) is_answer ∙ k) in
      (
        p.0,
        v.0,
        c.0,
        ok_or-eq-ok _ _ p.1,
        v.1,
        ok_or-eq-ok _ _ c.1,
        map_err-eq-ok _ _ a.1,
        ap (λ x. x.target_version) (sym is_answer)
            ∙ answer_target app p.0 v.0 query.device_id_hash c.0 offered,
        offered,
      )
