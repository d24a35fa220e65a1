-- ===== src/Client/Patcher/Runs.antt =====
-- What a run of steps that succeeded went through.
use deltaship.Prelude.{
  Bool-cases, inl, inr, ℕ, ◌≡◌, refl, ap, false, List, ◌++◌, arith, length, length-append,
}
use deltaship.Prelude.Text.{Text, ascii, text_eq, text_eq-eq}
use deltaship.Prelude.Map
use deltaship.Prelude.Result.{Result, ok, err}
use deltaship.Client.Patcher.{Env, World, M, UpdateError, continue, ◌>>=◌, sig_path_for, write}
use deltaship.Client.Patcher.Execute.{after_error, on_error}

abbrev pub result {ℓ} : {A : Type ℓ} → Result UpdateError A × World → Result UpdateError A
result r = r.0

abbrev pub state {ℓ} : {A : Type ℓ} → Result UpdateError A × World → World
state r = r.1

pub continue-ok :
    {A B : Type 0} (r : Result UpdateError A) (w : World) (f : A → M B) {b : B} {w' : World}
    → continue r w f ≡ (ok b, w')
    → (a : A) × (r ≡ ok a) × (f a w ≡ (ok b, w'))
unfolding continue
continue-ok (ok a) w f h = (a, refl, h)
continue-ok (err e) w f h = absurd (cc)

-- A chain that succeeds has a first step that does, and goes on in its state.
pub >>=-ok :
    {A B : Type 0} (m : M A) (f : A → M B) (w : World) {b : B} {w' : World}
    → (m >>= f) w ≡ (ok b, w')
    → (a : A) × ((m w).0 ≡ ok a) × (f a (m w).1 ≡ (ok b, w'))
>>=-ok m f w h = continue-ok (m w).0 (m w).1 f h

-- A handler plays no part where nothing fails.
pub on_error-ok :
    {A : Type 0} (m : M A) (handler : M (Unit {0})) (w : World) {a : A}
    → (on_error m handler w).0 ≡ ok a
    → (m w ≡ (ok a, (m w).1)) × ((on_error m handler w).1 ≡ (m w).1)
on_error-ok m handler w {a} h = cases (m w) h
  where
    cases :
        (r : Result UpdateError _ × World)
        → (after_error handler r).0 ≡ ok a
        → (r ≡ (ok a, r.1)) × ((after_error handler r).1 ≡ r.1)
    cases (ok b, v) k = (ap (λ (x : Result UpdateError _). (x, v)) k, refl)
    cases (err e, v) k = absurd (cc)

-- The signature's file is another than the one it signs.
pub sig_path_apart : (path : Text) → text_eq (sig_path_for path) path ≡ false
unfolding sig_path_for
sig_path_apart path = elim (Bool-cases (text_eq (path ++ ascii ".sig") path)) [
  | inl same ↦
      let e = ap length (text_eq-eq (path ++ ascii ".sig") path same) in
      absurd (omega (arith, e, length-append path (ascii ".sig")))
  | inr apart ↦ apart
]

pub write-ok :
    (env : Env) (path : Text) (content : List ℕ) (w : World) {u : Unit {0}} {w' : World}
    → write env path content w ≡ (ok u, w')
    → record w { files = Map.insert path content w.files } ≡ w'
unfolding write
write-ok env path content w h = elim (Bool-cases (env.can_write path)) [
  | inl can ↦ ap state (rw can at h)
  | inr cannot ↦ absurd (cc (rw cannot at h))
]
