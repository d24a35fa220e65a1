-- ===== src/Client/InstallPath/Denied.antt =====
-- What a path that passes the check is.
use mathlib.Core.List.{append-nil}
use deltaship.Prelude.{
  ap, ◌∙◌, sym, any, ◌≡◌, ◌↔◌, ◌⊎◌, refl, Bool, true, false, not, none, List, [], ◌∷◌, ◌++◌, find,
  arith, inl, inr, Bool-cases, Option-cases,
}
use deltaship.Prelude.Text.{
  Text, strip_prefix, strip_prefix-some, strip_prefix-append, text_eq, text_eq_refl, text_eq_iff,
}
use deltaship.Prelude.Result.{ok, ensure, >>=-eq-ok}
use deltaship.Client.InstallPath.{
  Host, symlink, privileged_paths, ends_component, unix_path_under, is_under,
  matched_privileged_path, resolve, check_privileged, check_owner, owner, owned_by_root,
  validate_install_path,
}

-- A path is under a directory exactly if it is that directory, or goes on with a separator: the
-- directory `/var/runner` is not under `/var/run`.
pub unix_path_under_iff :
    (candidate prefix : Text)
    → (unix_path_under candidate prefix ≡ true)
      ↔ ((candidate ≡ prefix) ⊎ ((rest : Text) × (candidate ≡ prefix ++ (b'/' ∷ rest))))
unfolding unix_path_under
unix_path_under_iff candidate prefix = (forward, backward)
  where
    forward :
        unix_path_under candidate prefix ≡ true
        → (candidate ≡ prefix) ⊎ ((rest : Text) × (candidate ≡ prefix ++ (b'/' ∷ rest)))
    forward h = elim (Option-cases (strip_prefix candidate prefix)) [
      | inl e ↦ absurd (cc (rw (unix_path_under, e) at h))
      | inr (rest, e) ↦
          after rest (strip_prefix-some candidate prefix rest e) (rw (unix_path_under, e) at h)
    ]
      where
        after :
            (rest : Text)
            → candidate ≡ prefix ++ rest
            → ends_component b'/' rest ≡ true
            → (candidate ≡ prefix) ⊎ ((rest : Text) × (candidate ≡ prefix ++ (b'/' ∷ rest)))
        after [] e h = inl (e ∙ append-nil prefix)
        after (c ∷ rest) e h = inr (rest, e ∙ ap (λ d. prefix ++ (d ∷ rest)) (ground arith))

    backward :
        (candidate ≡ prefix) ⊎ ((rest : Text) × (candidate ≡ prefix ++ (b'/' ∷ rest)))
        → unix_path_under candidate prefix ≡ true
    backward (inl e) =
        rw (e ∙ sym (append-nil prefix), unix_path_under, strip_prefix-append prefix []) refl
    backward (inr (rest, e)) =
        rw (e, unix_path_under, strip_prefix-append prefix (b'/' ∷ rest)) refl

find-none :
    (p : Text → Bool) (xs : List Text)
    → (find p xs ≡ none) ↔ ((x : Text) → any (text_eq x) xs ≡ true → p x ≡ false)
find-none p [] = (λ h x k. absurd (cc), λ h. refl)
find-none p (y ∷ ys) = elim (Bool-cases (p y)) [
  | inl e ↦
      (λ h. absurd (cc (rw e at h)), λ h. absurd (let t = h y (rw (text_eq_refl y) refl) in cc))
  | inr e ↦ (
    λ h x k. ground (arith, text_eq_iff x y, (find-none p ys).0 (rw e at h) x),
    λ h. rw e ((find-none p ys).1 (λ x k. h x (ground (arith, k)))),
  )
]

module _ (host : Host) where
  check_privileged-ok :
      (path : Text) → (check_privileged host path ≡ ok tt) ↔ (matched_privileged_path path ≡ none)
  unfolding check_privileged
  check_privileged-ok path = elim (Option-cases (matched_privileged_path path)) [
    | inl e ↦ (λ h. e, λ h. rw (check_privileged, e) refl)
    | inr (d, e) ↦ (λ h. absurd (cc (rw (check_privileged, e) at h)), λ h. absurd (cc (rw e at h)))
  ]

  check_owner-ok :
      (path : Text)
      → (check_owner host path ≡ ok tt)
        ↔ ((host.is_root ≡ false) → owned_by_root host (owner host path) ≡ false)
  unfolding check_owner
  check_owner-ok path = elim (Bool-cases (owned_by_root host (owner host path))) [
    | inl mine ↦ elim (Bool-cases host.is_root) [
      | inl root ↦ (λ h k. absurd (cc), λ h. rw (check_owner, mine, root) refl)
      | inr user ↦
          (λ h. absurd (cc (rw (check_owner, mine, user) at h)), λ h. absurd (let t = h user in cc))
    ]
    | inr other ↦ (λ h k. other, λ h. rw (check_owner, other) refl)
  ]

  -- A path passes exactly if it is no symbolic link, it resolves, what it resolves to is under none
  -- of the privileged directories, and its owner is not root, unless the user is.
  pub validate_install_path_iff :
      (path : Text)
      → (validate_install_path host path ≡ ok tt) ↔ (
          (host.is_symlink path ≡ false)
          × ((checked : Text) × (resolve host path ≡ ok checked)
              × ((directory : Text)
                  → any (text_eq directory) privileged_paths ≡ true
                  → is_under checked directory ≡ false)
              × ((host.is_root ≡ false) → owned_by_root host (owner host checked) ≡ false)))
  unfolding validate_install_path matched_privileged_path
  validate_install_path_iff path = (
    (λ h.
        let (u, plain, rest) = >>=-eq-ok (ensure (not (host.is_symlink path)) symlink) _ h in
        let (checked, resolved, checks) = >>=-eq-ok (resolve host path) _ rest in
        let (v, allowed, owned) = >>=-eq-ok (check_privileged host checked) _ checks in
        (
          ground (arith, plain),
          (
            checked,
            resolved,
            (find-none (is_under checked) privileged_paths).0
                ((check_privileged-ok checked).0 allowed),
            (check_owner-ok checked).0 owned,
          ),
        )),
    (λ h.
        let (checked, resolved, allowed, owned) = h.1 in
        rw
          (
            h.0,
            resolved,
            (check_privileged-ok checked).1
                ((find-none (is_under checked) privileged_paths).1 allowed),
          )
          ((check_owner-ok checked).1 owned)),
  )
