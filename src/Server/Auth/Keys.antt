-- ===== src/Server/Auth/Keys.antt =====
-- Which requests pass, and as whom.
use deltaship.Prelude.{
  subst, ◌≢◌, ◌≡◌, ◌⊎◌, ◌↔◌, refl, ap, ℕ, Bool, true, false, Option, none, some, List, [], ◌∷◌, any,
  inl, inr, arith, Bool-cases, Option-cases, if◌then◌else◌,
}
use deltaship.Prelude.Text.{Text, text_eq, text_eq_iff}
use deltaship.Prelude.Result.{ok_injective, ok}
use deltaship.Prelude.Map.{get}
use deltaship.Server.AuthFailure.{is_blocked, record_failure}
use deltaship.Server.Auth.{
  Publisher, can_publish, AuthState, AuthRequest, request_ip, publisher_or_none, matches,
  verify_from, verify_api_key, matched_hash, refuse, require_api_key,
}

module _ {Hash : Type 0} (parse_hash : Text → Option Hash) (dummy : Hash)
    (verify_password : Text → Hash → Bool) where
  verify_from-some :
      (key h : Text) (matched : Option Text) (hs : List Text)
      → verify_from parse_hash dummy verify_password key matched hs ≡ some h
      → (matched ≡ some h)
        ⊎ ((any (text_eq h) hs ≡ true) × (matches parse_hash dummy verify_password key h ≡ true))
  unfolding verify_from
  verify_from-some key h matched [] e = inl e
  verify_from-some key h matched (g ∷ hs) e = ground (
    arith,
    text_eq_iff h g,
    verify_from-some key h
        (if matches parse_hash dummy verify_password key g then some g else matched) hs,
  )

  verify_from-none :
      (key : Text) (matched : Option Text) (hs : List Text)
      → (verify_from parse_hash dummy verify_password key matched hs ≡ none)
        ↔ ((matched ≡ none) × (any (matches parse_hash dummy verify_password key) hs ≡ false))
  unfolding verify_from
  verify_from-none key matched [] = (λ e. (e, refl), λ h. h.0)
  verify_from-none key matched (g ∷ hs) = ground (
    arith,
    verify_from-none key
        (if matches parse_hash dummy verify_password key g then some g else matched) hs,
  )

  -- A key is turned down exactly if it matches none of the stored hashes, and the hash that an
  -- accepted key is given is a stored one that it matches.
  pub verify_api_key_exact :
      (key : Text) (hs : List Text)
      → ((verify_api_key parse_hash dummy verify_password key hs ≡ none)
          ↔ (any (matches parse_hash dummy verify_password key) hs ≡ false))
        × ((h : Text)
            → verify_api_key parse_hash dummy verify_password key hs ≡ some h
            → (any (text_eq h) hs ≡ true) × (matches parse_hash dummy verify_password key h ≡ true))
  unfolding verify_api_key
  verify_api_key_exact key hs = (
    ground (arith, verify_from-none key none hs),
    λ h e. ground (arith, verify_from-some key h none hs),
  )

  matched_hash-some :
      (s : AuthState) (given : Option Text) (h : Text)
      → matched_hash parse_hash dummy verify_password s given ≡ some h
      → (key : Text) × (given ≡ some key)
        × (any (text_eq h) s.api_keys ≡ true)
        × (matches parse_hash dummy verify_password key h ≡ true)
  unfolding matched_hash
  matched_hash-some s none h e = absurd (cc)
  matched_hash-some s (some key) h e =
      let known = (verify_api_key_exact key s.api_keys).1 h e in (key, refl, known.0, known.1)

  matches-cases :
      (key h : Text)
      → matches parse_hash dummy verify_password key h ≡ true
      → ((hash : Hash) × (parse_hash h ≡ some hash) × (verify_password key hash ≡ true))
        ⊎ ((parse_hash h ≡ none) × (verify_password key dummy ≡ true))
  matches-cases key h e = elim (Option-cases (parse_hash h)) [
    | inl bad ↦ inr (bad, rw (bad, matches) at e)
    | inr (hash, good) ↦ inl (hash, good, rw (good, matches) at e)
  ]

  no_app :
      (o : Option Publisher) (p : Publisher)
      → publisher_or_none o ≡ p
      → (o ≡ some p) ⊎ ((app : Text) → can_publish p app ≡ false)
  unfolding can_publish
  no_app none p e = inr (λ app. subst (λ q. can_publish q app ≡ false) e refl)
  no_app (some q) p e = inl (ap some e)

  refuse-err :
      (s : AuthState) (ip : Text) (now : ℕ) (p : Publisher)
      → (refuse parse_hash dummy verify_password s ip now).1 ≢ ok p
  unfolding refuse
  refuse-err s ip now p = elim (Bool-cases (record_failure s.auth_failure_limiter ip now).1) [
    | inl e ↦ rw e (λ h. cc)
    | inr e ↦ rw e (λ h. cc)
  ]

  -- A request that passes comes from an address that is not locked out. It has a key that verifies
  -- against a stored hash, or, where a stored hash does not parse, against the dummy hash that stands
  -- in for it. It goes on as the publisher of that stored hash, or as one that may publish no app.
  pub require_api_key-ok :
      (s : AuthState) (r : AuthRequest) (now later : ℕ) (p : Publisher)
      → (require_api_key parse_hash dummy verify_password s r now later).1 ≡ ok p
      → (is_blocked s.auth_failure_limiter (request_ip s r) now ≡ false)
        × ((key : Text) × (h : Text) × (r.api_key ≡ some key)
            × (any (text_eq h) s.api_keys ≡ true)
            × (((hash : Hash) × (parse_hash h ≡ some hash) × (verify_password key hash ≡ true))
                ⊎ ((parse_hash h ≡ none) × (verify_password key dummy ≡ true)))
            × ((get h s.publishers ≡ some p) ⊎ ((app : Text) → can_publish p app ≡ false)))
  unfolding require_api_key
  require_api_key-ok s r now later p e =
      let ip = request_ip s r in
      elim (Bool-cases (is_blocked s.auth_failure_limiter ip now)) [
        | inl blocked ↦ absurd (cc (rw (blocked) at e))
        | inr free ↦
            elim (Option-cases (matched_hash parse_hash dummy verify_password s r.api_key)) [
              | inl unknown ↦ absurd (refuse-err s ip later p (rw (free, unknown) at e))
              | inr (h, known) ↦
                  let (key, given, listed, matching) = matched_hash-some s r.api_key h known in
                  (
                    free,
                    (
                      key,
                      h,
                      given,
                      listed,
                      matches-cases key h matching,
                      no_app (get h s.publishers) p (ok_injective (rw (free, known) at e)),
                    ),
                  )
            ]
      ]
