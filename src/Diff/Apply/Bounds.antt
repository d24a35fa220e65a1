-- ===== src/Diff/Apply/Bounds.antt =====
-- What the patch loop keeps on every patch, malformed ones included: it ends, and its output stays
-- under the ceiling.
use deltaship.Prelude.{
  ℕ, zero, suc, ◌-◌, ◌≤◌, ◌<◌, ◌≡◌, some, List, [], ◌++◌, arith, length, take, drop, length-append,
  length-take, length-drop, inl, inr,
}
use deltaship.Prelude.Result.{Result, ok, err, Result-cases}
use deltaship.Diff.Words.{add_bytes, get_range, length-add_bytes}
use deltaship.Diff.{DiffError, patch_application_failure}
use deltaship.Diff.Apply.{
  State, read, eof, read_full_or_eof, patch_round, patch_loop, bounded_patch, apply_patch_bounded,
}

length-get_range :
    (xs : List ℕ) (start end : ℕ) {ys : List ℕ}
    → get_range xs start end ≡ some ys
    → (start ≤ end) × (end ≤ length xs) × (length ys ≡ end - start)
unfolding get_range
length-get_range xs start end h =
    ground (arith, length-take (end - start) (drop start xs), length-drop start xs)

-- Writing a range back leaves the length.
length-splice :
    (xs ys os : List ℕ) (start end : ℕ)
    → get_range xs start end ≡ some ys
    → length (take start xs ++ (add_bytes ys os ++ drop end xs)) ≡ length xs
length-splice xs ys os start end h = ground (
  arith,
  length-get_range xs start end h,
  length-append (take start xs) (add_bytes ys os ++ drop end xs),
  length-append (add_bytes ys os) (drop end xs),
  length-add_bytes ys os,
  length-take start xs,
  length-drop end xs,
)

round_keeps :
    (old : List ℕ) (max_output : ℕ) (ctrl : List ℕ) (s t : State)
    → patch_round old max_output ctrl s ≡ ok t
    → (length t.rest ≤ length s.rest) × (length t.new ≤ max_output)
unfolding patch_round
round_keeps old max_output ctrl s t h =
    grind (arith, length-splice, length-append, length-take, length-drop)

read-shrinks :
    (rest ctrl left : List ℕ)
    → read_full_or_eof 24 rest ≡ ok (read ctrl left)
    → length left < length rest
unfolding read_full_or_eof
read-shrinks rest ctrl left h = ground (arith, length-drop 24 rest)

patch_loop_ends :
    (fuel : ℕ) (old : List ℕ) (max_output : ℕ) (s : State)
    → length s.rest < fuel
    → (r : Result DiffError (List ℕ)) × (patch_loop fuel old max_output s ≡ some r)
unfolding patch_loop
patch_loop_ends zero old max_output s h = absurd (omega arith)
patch_loop_ends (suc fuel) old max_output s h = elim (Result-cases (read_full_or_eof 24 s.rest)) [
  | inr (message, e) ↦ (err (patch_application_failure message), rw (e, patch_loop))
  | inl (eof, e) ↦ (ok s.new, rw (e, patch_loop))
  | inl (read ctrl left, e) ↦
      elim (Result-cases (patch_round old max_output ctrl (record s { rest = left }))) [
        | inr (f, e') ↦ (err f, rw (e, patch_loop) (rw (e', patch_loop)))
        | inl (t, e') ↦
            let (r, done) = patch_loop_ends fuel old max_output t (
              omega (
                arith,
                read-shrinks s.rest ctrl left e,
                round_keeps old max_output ctrl (record s { rest = left }) t e',
              )) in
            (r, rw (e, patch_loop) (rw (e', patch_loop) done))
      ]
]

-- On every patch, malformed ones included, the fuel of the loop is enough: the patch is applied or
-- refused with an error.
pub bounded_patch_ends :
    (old patch new : List ℕ) (max_output : ℕ)
    → (r : Result DiffError (List ℕ)) × (bounded_patch old patch new max_output ≡ some r)
unfolding bounded_patch
bounded_patch_ends old patch new max_output =
    patch_loop_ends (suc (length patch)) old max_output
      (record { rest = patch; new = new; oldpos = 0 }) (omega arith)

patch_loop_bounded :
    (fuel : ℕ) (old : List ℕ) (max_output : ℕ) (s : State) (new : List ℕ)
    → length s.new ≤ max_output
    → patch_loop fuel old max_output s ≡ some (ok new)
    → length new ≤ max_output
unfolding patch_loop
patch_loop_bounded zero old max_output s new h e = cc
patch_loop_bounded (suc fuel) old max_output s new h e =
    elim (Result-cases (read_full_or_eof 24 s.rest)) [
      | inr (message, p) ↦ absurd (cc (rw (p, patch_loop) at e))
      | inl (eof, p) ↦ ground (arith, rw (p, patch_loop) at e)
      | inl (read ctrl left, p) ↦
          elim (Result-cases (patch_round old max_output ctrl (record s { rest = left }))) [
            | inr (f, q) ↦ absurd (cc (rw (q, patch_loop) at (rw (p, patch_loop) at e)))
            | inl (t, q) ↦
                patch_loop_bounded fuel old max_output t new
                  (round_keeps old max_output ctrl (record s { rest = left }) t q).1
                  (rw (q, patch_loop) at (rw (p, patch_loop) at e))
          ]
    ]

-- However a patch is made up, the applier returns an output of at most `max_output` bytes, if it
-- returns one.
pub length-apply_patch_bounded :
    (old patch : List ℕ) (max_output : ℕ) (new : List ℕ)
    → apply_patch_bounded old patch max_output ≡ some (ok new)
    → length new ≤ max_output
unfolding apply_patch_bounded bounded_patch
length-apply_patch_bounded old patch max_output new e =
    patch_loop_bounded (suc (length patch)) old max_output
      (record { rest = patch; new = []; oldpos = 0 }) new (omega arith) e
