-- ===== src/Server/Catalog/Insert.antt =====
-- The list of versions, newest first: where a new version goes.
use Prim.Native.Nat.{Ordering}
use Prim.Native.Nat.Ordering.{lt, eq, gt}
use deltaship.Prelude.{
  ℕ, suc, ◌≡◌, ◌⊎◌, refl, ap, ◌∙◌, true, false, none, some, List, [], ◌∷◌, arith, All, All-mono,
  inl, inr, Bool-cases, Option-cases,
}
use deltaship.Core.Version.{Semver, IsSemver, Version, swap, version_eq, cmp}
use deltaship.Core.Version.Order.{cmp-eq_iff, cmp-swap, cmp_trans}
use deltaship.Server.Catalog.{
  VersionInfo, merge_info, merge_version, insert_at, insert_version, update_versions,
}
use deltaship.Server.Catalog.Search.{Split, binary_search_by-split}

-- Each version is newer than all that follow it.
abbrev pub Descending : {S : Semver} → List (VersionInfo S) → Type 0
Descending [] = Unit
Descending (v ∷ vs) = All (λ w. cmp v.version w.version ≡ gt) vs × Descending vs

-- The plain insertion: in front of the first version that is not newer.
pub insert_newest_first : {S : Semver} → VersionInfo S → List (VersionInfo S) → List (VersionInfo S)
insert_newest_first new [] = new ∷ []
insert_newest_first new (v ∷ vs) = elim (cmp new.version v.version) [
  | lt ↦ v ∷ insert_newest_first new vs
  | eq ↦ new ∷ v ∷ vs
  | gt ↦ new ∷ v ∷ vs
]

lead : {S : Semver} → VersionInfo S → List (VersionInfo S) → ℕ
lead new [] = 0
lead new (v ∷ vs) = elim (cmp new.version v.version) [ lt ↦ suc (lead new vs) | eq ↦ 0 | gt ↦ 0 ]

insert_at-lead :
    {S : Semver} (new : VersionInfo S) (vs : List (VersionInfo S))
    → insert_at (lead new vs) new vs ≡ insert_newest_first new vs
unfolding lead insert_newest_first
insert_at-lead new [] = refl
insert_at-lead new (v ∷ vs) = ground (arith, insert_at-lead new vs)

Ordering-cases : (o : Ordering) → (o ≡ lt) ⊎ (o ≡ eq) ⊎ (o ≡ gt)
Ordering-cases lt = inl refl
Ordering-cases eq = inr (inl refl)
Ordering-cases gt = inr (inr refl)

pub merge-none :
    {S : Semver} (new v : VersionInfo S) (vs : List (VersionInfo S))
    → merge_version new (v ∷ vs) ≡ none
    → (version_eq v.version new.version ≡ false) × (merge_version new vs ≡ none)
unfolding merge_version
merge-none new v vs h = ground arith

pub merge-some :
    {S : Semver} (new v : VersionInfo S) (vs ws : List (VersionInfo S))
    → merge_version new (v ∷ vs) ≡ some ws
    → ((version_eq v.version new.version ≡ true) × (ws ≡ merge_info v new ∷ vs))
      ⊎ ((us : List (VersionInfo S)) × (version_eq v.version new.version ≡ false)
          × (merge_version new vs ≡ some us)
          × (ws ≡ v ∷ us))
unfolding merge_version
merge-some new v vs ws h = elim (Bool-cases (version_eq v.version new.version)) [
  | inl same ↦ inl (same, ground arith)
  | inr other ↦ elim (Option-cases (merge_version new vs)) [
    | inl e ↦ absurd (ground arith)
    | inr (us, e) ↦ inr (us, other, e, ground arith)
  ]
]

module _ {S : Semver} (laws : IsSemver S) where
  pub version_eq_sym : (v w : Version S) → version_eq v w ≡ version_eq w v
  version_eq_sym v w = ground (arith, cmp-eq_iff laws v w, cmp-eq_iff laws w v, cmp-swap laws v w)

  newer_than_rest : (new v w : Version S) → cmp new v ≡ gt → cmp v w ≡ gt → cmp new w ≡ gt
  newer_than_rest new v w h k =
      ground
        (arith, cmp-swap laws new v, cmp-swap laws v w, cmp-swap laws w new, cmp_trans laws w v new)

  lead-Split :
      (new : VersionInfo S) (vs : List (VersionInfo S))
      → Descending vs
      → merge_version new vs ≡ none
      → Split (λ v. cmp new.version v.version) (lead new vs) vs
  unfolding lead merge_version
  lead-Split new [] d h = (omega arith, tt, tt)
  lead-Split new (v ∷ vs) d h =
      let (other, rest) = merge-none new v vs h in
      elim (Ordering-cases (cmp new.version v.version)) [
        | inl newer ↦
            let ih = lead-Split new vs d.1 rest in
            rw (newer, lead) (omega arith, (newer, ih.1), ih.2)
        | inr (inl same) ↦ absurd (
            cc (
              (cmp-eq_iff laws new.version v.version).0.0 same,
              version_eq_sym new.version v.version,
              other,
            ))
        | inr (inr older) ↦
            rw (older, lead)
              (
                omega arith,
                tt,
                (
                  older,
                  All-mono _ _ (λ w k. newer_than_rest new.version v.version w.version older k) vs
                      d.0,
                ),
              )
      ]

  -- Where a catalog is sorted and has no such version, the binary search puts the version where the
  -- plain insertion does.
  pub insert_version-sorted :
      (new : VersionInfo S) (vs : List (VersionInfo S))
      → Descending vs
      → merge_version new vs ≡ none
      → insert_version new vs ≡ insert_newest_first new vs
  unfolding insert_version
  insert_version-sorted new vs d h =
      rw
        (binary_search_by-split (λ v. cmp new.version v.version) (lead new vs) vs
          (lead-Split new vs d h))
        (insert_at-lead new vs)

  All-insert :
      (P : VersionInfo S → Type 0) (new : VersionInfo S) (vs : List (VersionInfo S))
      → P new
      → All P vs
      → All P (insert_newest_first new vs)
  unfolding insert_newest_first
  All-insert P new [] h k = (h, tt)
  All-insert P new (v ∷ vs) h k = elim (Ordering-cases (cmp new.version v.version)) [
    | inl newer ↦ rw (newer, insert_newest_first) (k.0, All-insert P new vs h k.1)
    | inr (inl same) ↦ rw (same, insert_newest_first) (h, k)
    | inr (inr older) ↦ rw (older, insert_newest_first) (h, k)
  ]

  insert_newest_first-Descending :
      (new : VersionInfo S) (vs : List (VersionInfo S))
      → Descending vs
      → merge_version new vs ≡ none
      → Descending (insert_newest_first new vs)
  unfolding insert_newest_first
  insert_newest_first-Descending new [] d h = (tt, tt)
  insert_newest_first-Descending new (v ∷ vs) d h =
      let (other, rest) = merge-none new v vs h in
      elim (Ordering-cases (cmp new.version v.version)) [
        | inl newer ↦
            rw (newer, insert_newest_first)
              (
                All-insert _ new vs (cmp-swap laws new.version v.version ∙ ap swap newer) d.0,
                insert_newest_first-Descending new vs d.1 rest,
              )
        | inr (inl same) ↦ absurd (
            cc (
              (cmp-eq_iff laws new.version v.version).0.0 same,
              version_eq_sym new.version v.version,
              other,
            ))
        | inr (inr older) ↦
            rw (older, insert_newest_first)
              (
                (
                  older,
                  All-mono _ _ (λ w k. newer_than_rest new.version v.version w.version older k) vs
                      d.0,
                ),
                d,
              )
      ]

  All-merge :
      (P : Version S → Type 0) (new : VersionInfo S) (vs ws : List (VersionInfo S))
      → merge_version new vs ≡ some ws
      → All (λ v. P v.version) vs
      → All (λ v. P v.version) ws
  unfolding merge_version merge_info
  All-merge P new [] ws h k = absurd (cc)
  All-merge P new (v ∷ vs) ws h k = elim (merge-some new v vs ws h) [
    | inl (same, e) ↦ rw e k
    | inr (us, other, merged, e) ↦ rw e (k.0, All-merge P new vs us merged k.1)
  ]

  merge_version-Descending :
      (new : VersionInfo S) (vs ws : List (VersionInfo S))
      → merge_version new vs ≡ some ws
      → Descending vs
      → Descending ws
  unfolding merge_version merge_info
  merge_version-Descending new [] ws h d = absurd (cc)
  merge_version-Descending new (v ∷ vs) ws h d = elim (merge-some new v vs ws h) [
    | inl (same, e) ↦ rw e d
    | inr (us, other, merged, e) ↦ rw e (
      All-merge (λ w. cmp v.version w ≡ gt) new vs us merged d.0,
      merge_version-Descending new vs us merged d.1,
    )
  ]

  -- A catalog stays sorted, newest version first and each version once, under an update with any
  -- version.
  pub update_versions-Descending :
      (new : VersionInfo S) (vs : List (VersionInfo S))
      → Descending vs
      → Descending (update_versions new vs)
  unfolding update_versions
  update_versions-Descending new vs d = elim (Option-cases (merge_version new vs)) [
    | inl e ↦
        rw (e, update_versions)
          (rw (insert_version-sorted new vs d e) (insert_newest_first-Descending new vs d e))
    | inr (ws, e) ↦ rw (e, update_versions) (merge_version-Descending new vs ws e d)
  ]
