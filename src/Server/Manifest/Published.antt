-- ===== src/Server/Manifest/Published.antt =====
-- What a client gets of a binary or a diff that was published.
use deltaship.Prelude.{
  ◌≡◌, ◌↔◌, refl, sym, ap, ℕ, true, Option, some, List, [], ◌∷◌, find, arith, if◌then◌else◌,
  Bool-cases, inl, inr,
}
use deltaship.Prelude.Text.{Text}
use deltaship.Prelude.Result.{ok_injective, ok, ok_or, >>=-eq-ok, ok_or-eq-ok}
use deltaship.Server.Latest.{not_found}
use deltaship.Core.Version.{Semver, IsSemver, Version, version_eq}
use deltaship.Core.Platform.{Platform, platform_eq, platform_eq-eq, platform_eq_refl}
use deltaship.Server.UpdateCheck.{
  Backend, DiffInfo, PlatformArtifact, VersionManifest, get_artifact, find_diff,
}
use deltaship.Server.Catalog.Insert.{version_eq_sym}
use deltaship.Server.Catalog.Update.{version_eq_left}
use deltaship.Server.Manifest.{
  insert_artifact, add_diff, manifest_or_default, update_manifest, add_diff_to_manifest,
}

platform_eq_iff : (p q : Platform) → (platform_eq p q ≡ true) ↔ (p ≡ q)
platform_eq_iff p q = (platform_eq-eq p q, λ e. rw e (platform_eq_refl q))

get_artifact-insert_artifact :
    {S : Semver} (p q : Platform) (a : PlatformArtifact S)
    (artifacts : List (Platform × PlatformArtifact S))
    → get_artifact q (insert_artifact p a artifacts)
      ≡ (if platform_eq p q then some a else get_artifact q artifacts)
unfolding get_artifact insert_artifact
get_artifact-insert_artifact p q a [] = ground (arith, platform_eq_iff p q, platform_eq_iff q p)
get_artifact-insert_artifact p q a ((r, b) ∷ rest) = ground (
  arith,
  platform_eq_iff p q,
  platform_eq_iff p r,
  platform_eq_iff q r,
  platform_eq_iff q p,
  get_artifact-insert_artifact p q a rest,
)

module _ {S : Semver} (laws : IsSemver S) where
  find-add_diff :
      (d : DiffInfo S) (w : Version S) (ds : List (DiffInfo S))
      → find (λ e. version_eq e.from_version w) (add_diff d ds) ≡ (
          if version_eq d.from_version w
          then some d
          else find (λ e. version_eq e.from_version w) ds)
  unfolding add_diff
  find-add_diff d w [] = refl
  find-add_diff d w (e ∷ es) = ground (
    arith,
    version_eq_left laws e.from_version d.from_version w,
    version_eq_left laws d.from_version w e.from_version,
    version_eq_sym laws e.from_version d.from_version,
    version_eq_sym laws e.from_version w,
    find-add_diff d w es,
  )

  -- Where a diff is added, a client of that platform whose version the diff starts from finds that
  -- diff; a client of another version or another platform finds what it found before.
  pub add_diff_to_manifest-found :
      (b : Backend S) (old new : VersionManifest S) (p q : Platform) (d : DiffInfo S)
      (w : Version S)
      → add_diff_to_manifest (some old) p d ≡ ok new
      → find_diff b w (get_artifact q new.platforms) ≡ (
          if platform_eq p q
          then if version_eq d.from_version w
            then some d
            else find_diff b w (get_artifact q old.platforms)
          else find_diff b w (get_artifact q old.platforms))
  unfolding add_diff_to_manifest find_diff
  add_diff_to_manifest-found b old new p q d w h =
      let (a, listed, made) = >>=-eq-ok (ok_or (get_artifact p old.platforms) not_found) _ h in
      let got = ok_or-eq-ok (get_artifact p old.platforms) not_found listed in
      let a' : PlatformArtifact S = record a { diffs_from = add_diff d a.diffs_from } in
      let after : new.platforms ≡ insert_artifact p a' old.platforms =
        ap (λ m. m.platforms) (sym (ok_injective made)) in
      let at_q = get_artifact-insert_artifact p q a' old.platforms in
      elim (Bool-cases (platform_eq p q)) [
        | inl same ↦
            let here : get_artifact q old.platforms ≡ some a = rw (← platform_eq-eq p q same) got in
            rw (after, at_q, same, here) (find-add_diff d w a.diffs_from)
        | inr other ↦ rw (after, at_q, other) refl
      ]

module _ {S : Semver} (parse : Text → Option (Version S)) where
  -- A binary that is published replaces the one of its platform, and takes the diffs to that one
  -- away; the binaries of other platforms stay.
  pub update_manifest-get_artifact :
      (file : Option (VersionManifest S)) (version checksum : Text) (p q : Platform) (size : ℕ)
      (old new : VersionManifest S)
      → manifest_or_default parse file version ≡ ok old
      → update_manifest parse file version p checksum size ≡ ok new
      → get_artifact q new.platforms ≡ (
          if platform_eq p q
          then some (record { checksum = checksum; size = size; diffs_from = [] })
          else get_artifact q old.platforms)
  unfolding update_manifest
  update_manifest-get_artifact file version checksum p q size old new h k =
      let after : new.platforms ≡ insert_artifact p _ old.platforms =
        ap (λ m. m.platforms) (sym (ok_injective (rw h at k))) in
      rw after (get_artifact-insert_artifact p q _ old.platforms)
