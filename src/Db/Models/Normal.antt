-- ===== src/Db/Models/Normal.antt =====
-- crates/deltaship-db/src/models.rs: the normal form of a version string.
use mathlib.Core.List.{reverse, reverse-cons, reverse-reverse}
use deltaship.Prelude.{
  ℕ, ◌≤◌, ◌<◌, ◌≢◌, ◌≡◌, refl, true, ◌&&◌, not, Option, none, some, List, [], ◌∷◌, map, arith, leb,
  ltb, ◌==◌, length, all, All, All-append, leb→le, ◌⊎◌,
}
use deltaship.Prelude.Text.{Text, strip_prefix}
use deltaship.Prelude.Trim.{blanks, strip_any, strip_all, trim}
use deltaship.Prelude.Result.{ok, ensure, ok_or, >>=-eq-ok, ok_injective, ensure-eq-ok, ok_or-eq-ok}
use deltaship.Core.Version.{Semver, Version}
use deltaship.Db.{invalid_data}
use deltaship.Db.Models.{normalize_version_string, strip_v}

-- A visible ASCII character.
abbrev pub IsVisible : ℕ → Type 0
IsVisible c = (33 ≤ c) × (c < 128)

abbrev IsBlankStart : Text → Type 0
IsBlankStart [] = ⊥
IsBlankStart (c ∷ s) = (c ≤ 32) ⊎ (128 ≤ c)

strip_any-none :
    (ps : List Text) (c : ℕ) (s : Text)
    → IsVisible c
    → All IsBlankStart ps
    → strip_any ps (c ∷ s) ≡ none
unfolding strip_any strip_prefix
strip_any-none [] c s v h = refl
strip_any-none ([] ∷ ps) c s v h = absurd h.0
strip_any-none ((d ∷ p) ∷ ps) c s v h = ground (arith, strip_any-none ps c s v h.1)

strip_all-visible :
    (ps : List Text) (s : Text)
    → All IsBlankStart ps
    → All IsVisible s
    → strip_all ps (length s) s ≡ s
unfolding strip_all
strip_all-visible ps [] h v = refl
strip_all-visible ps (c ∷ s) h v = rw (strip_any-none ps c s v.0 h, strip_all) refl

All-reverse : (s : Text) → All IsVisible s → All IsVisible (reverse s)
All-reverse [] v = tt
All-reverse (c ∷ s) v =
    rw (reverse-cons c s) (All-append _ (reverse s) (c ∷ []) (All-reverse s v.1) (v.0, tt))

trim-visible : (s : Text) → All IsVisible s → trim s ≡ s
unfolding trim
trim-visible s v =
    rw
      (
        strip_all-visible blanks s (omega arith) v,
        strip_all-visible (map reverse blanks) (reverse s) (omega arith) (All-reverse s v),
      )
      (reverse-reverse s)

all-ascii : (s : Text) → All IsVisible s → all (λ c. ltb c 128) s ≡ true
all-ascii [] v = refl
all-ascii (c ∷ s) v = ground (arith, all-ascii s v.1)

-- What the grammar of a semantic version says: it starts with a digit and has no white space.
abbrev pub IsVersionText : Text → Type 0
IsVersionText [] = ⊥
IsVersionText (c ∷ s) = ((b'0' ≤ c) × (c ≤ b'9')) × All IsVisible s

IsVersionText-IsVisible : (s : Text) → IsVersionText s → All IsVisible s
IsVersionText-IsVisible [] h = absurd h
IsVersionText-IsVisible (c ∷ s) h = ((omega arith, omega arith), h.1)

strip_v_version :
    {S : Semver} (parse : Text → Option (Version S)) (s : Text)
    → IsVersionText s
    → strip_v parse s ≡ s
unfolding strip_prefix
strip_v_version parse [] h = absurd h
strip_v_version parse (c ∷ s) h = ground arith

module _ {S : Semver} {parse : Text → Option (Version S)}
    (grammar : (s : Text) (v : Version S) → parse s ≡ some v → IsVersionText s) where
  -- A version string that was accepted is in its normal form, which is accepted unchanged. It has at
  -- most 255 bytes and parses, and is not 0.0.0.
  pub normalize_version_string_twice :
      (version : Text) {normal : Text}
      → normalize_version_string parse version ≡ ok normal
      → (normalize_version_string parse normal ≡ ok normal)
        × (length normal ≤ 255)
        × ((v : Version S) × (parse normal ≡ some v)
            × ((v.major ≢ 0) ⊎ (v.minor ≢ 0) ⊎ (v.patch ≢ 0)))
  unfolding normalize_version_string
  normalize_version_string_twice version {normal} h =
      let trimmed = trim version in
      let stripped = strip_v parse trimmed in
      let (_, _, h1) = >>=-eq-ok (ensure (all (λ c. ltb c 128) trimmed) invalid_data) _ h in
      let (_, sized, h2) = >>=-eq-ok (ensure (leb (length stripped) 255) invalid_data) _ h1 in
      let (v, parsed, h3) = >>=-eq-ok (ok_or (parse stripped) invalid_data) _ h2 in
      let nonzero = not (v.major == 0 && v.minor == 0 && v.patch == 0) in
      let (_, released, h4) = >>=-eq-ok (ensure nonzero invalid_data) _ h3 in
      let same : stripped ≡ normal = ok_injective h4 in
      let short = ensure-eq-ok (leb (length stripped) 255) _ sized in
      let some_v = ok_or-eq-ok (parse stripped) _ parsed in
      let not_zero = ensure-eq-ok nonzero _ released in
      let text = grammar stripped v some_v in
      let visible = IsVersionText-IsVisible stripped text in
      rw (← same) (
        rw
            (
              trim-visible stripped visible,
              all-ascii stripped visible,
              strip_v_version parse stripped text,
              short,
              some_v,
              not_zero,
            )
            refl,
        leb→le _ 255 short,
        (v, some_v, ground arith),
      )
