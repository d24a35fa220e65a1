-- ===== src/Crypto/Hashing/Stream.antt =====
-- crates/deltaship-crypto/src/hashing.rs: hashing a file piece by piece.
use mathlib.Core.List.{append-nil, append_assoc}
use deltaship.Prelude.{
  ℕ, zero, suc, ◌≤◌, ◌<◌, ◌⊎◌, inl, inr, ◌≡◌, refl, ◌∙◌, ap, subst, Option, none, some, List, [],
  ◌∷◌, ◌++◌, arith, length, take, drop, All, All-append, take-append-drop, length-take, length-drop,
  length-append, Option-cases, sym, ◌+◌,
}
use deltaship.Prelude.Result.{Result, ok, err}
use deltaship.Crypto.Hashing.{CryptoError, io, StreamHasher, hash_loop, hash_file_generic}

module _ (H : StreamHasher) where
  -- A hasher after pieces of data, and the pieces one after another.
  unfoldable pub updates : H.Hasher → List (List ℕ) → H.Hasher
  updates h [] = h
  updates h (piece ∷ pieces) = updates (H.update h piece) pieces

unfoldable pub flatten : List (List ℕ) → List ℕ
flatten [] = []
flatten (piece ∷ pieces) = piece ++ flatten pieces

-- What the digest crates document: the digest of data that is given in pieces is that of the data
-- as a whole.
pub record IsStreamHasher (H : StreamHasher) : Type 0 where
  pub finalize_pieces :
      (pieces : List (List ℕ))
      → H.finalize (updates H H.new pieces) ≡ H.finalize (H.update H.new (flatten pieces))

updates-append :
    (H : StreamHasher) (h : H.Hasher) (pieces : List (List ℕ)) (piece : List ℕ)
    → updates H h (pieces ++ (piece ∷ [])) ≡ H.update (updates H h pieces) piece
unfolding updates
updates-append H h [] piece = refl
updates-append H h (p ∷ pieces) piece = updates-append H (H.update h p) pieces piece

flatten-append :
    (pieces : List (List ℕ)) (piece : List ℕ)
    → flatten (pieces ++ (piece ∷ [])) ≡ flatten pieces ++ piece
unfolding flatten
flatten-append [] piece = append-nil piece
flatten-append (p ∷ pieces) piece =
    ap (λ (t : List ℕ). p ++ t) (flatten-append pieces piece) ∙ sym (append_assoc p _ piece)

-- A read that succeeds gives some of the bytes that are left, and none only at the end of the file.
abbrev pub IsRead : (List ℕ → Option ℕ) → Type 0
IsRead read_size =
    (rest : List ℕ) (n : ℕ) → read_size rest ≡ some n → (n ≤ length rest) × (n ≡ 0 → rest ≡ [])

-- What is left of a file after reads that succeeded.
pub data IsLeft (read_size : List ℕ → Option ℕ) : List ℕ → List ℕ → Type 0 where
  unread : {content : List ℕ} → IsLeft read_size content content
  after_read :
      {content rest : List ℕ} {n : ℕ}
      → IsLeft read_size content rest
      → read_size rest ≡ some n
      → IsLeft read_size content (drop n rest)

module _ (H : StreamHasher) (read_size : List ℕ → Option ℕ) where
  -- After reads of this file that succeeded, one fails.
  abbrev pub Fails : List ℕ → Type 0
  Fails content = (rest : List ℕ) × IsLeft read_size content rest × (read_size rest ≡ none)

  -- A run of the loop reports the hash of all that was given, or a failed read.
  abbrev pub Hashes : List ℕ → Option (Result CryptoError (H.Output × List ℕ)) → Type 0
  Hashes content r =
      ((reports : List ℕ) × (r ≡ some (ok (H.finalize (H.update H.new content), reports)))
        × All (λ n. n ≤ length content) reports)
      ⊎ ((r ≡ some (err io)) × Fails content)

module _ {H : StreamHasher} (L : IsStreamHasher H) {read_size : List ℕ → Option ℕ} where
  hash_loop-Hashes :
      IsRead read_size
      → (content : List ℕ) (fuel : ℕ) (rest : List ℕ) (pieces : List (List ℕ)) (reports : List ℕ)
      → flatten pieces ++ rest ≡ content
      → IsLeft read_size content rest
      → length rest < fuel
      → All (λ n. n ≤ length content) reports
      → Hashes H read_size content (
          hash_loop H read_size fuel rest
            (updates H H.new pieces)
            (length (flatten pieces))
            reports)
  unfolding hash_loop
  hash_loop-Hashes reads content zero rest pieces reports e left f a = absurd (omega arith)
  hash_loop-Hashes reads content (suc fuel) rest pieces reports e left f a =
      elim (Option-cases (read_size rest)) [
        | inl failed ↦ rw (failed, hash_loop) (inr (refl, (rest, left, failed)))
        | inr (zero, ended) ↦
            let all_read = (reads rest 0 ended).1 refl in
            let whole : flatten pieces ≡ content =
              sym (append-nil (flatten pieces))
              ∙ ap (λ (t : List ℕ). flatten pieces ++ t) (sym all_read)
              ∙ e in
            inl (
              reports,
              rw (ended, hash_loop)
                  (ap (λ (d : H.Output). some (ok (d, reports)))
                    (L.finalize_pieces pieces
                      ∙ ap (λ (t : List ℕ). H.finalize (H.update H.new t)) whole)),
              a,
            )
        | inr (suc n, given) ↦
            let piece = take (suc n) rest in
            let more = pieces ++ (piece ∷ []) in
            let read = take-append-drop (suc n) rest in
            let size = length-take (suc n) rest in
            let enough = (reads rest (suc n) given).0 in
            let joined = flatten-append pieces piece in
            let grown = length-append (flatten pieces) piece in
            let whole =
              ap (λ (t : List ℕ). t ++ drop (suc n) rest) joined
              ∙ append_assoc (flatten pieces) piece (drop (suc n) rest)
              ∙ ap (λ (t : List ℕ). flatten pieces ++ t) read
              ∙ e in
            let total = ap length e in
            let sum = length-append (flatten pieces) rest in
            let counted : length (flatten more) ≡ length (flatten pieces) + suc n =
              ap length joined ∙ omega (arith, size, enough, grown) in
            let next =
              hash_loop-Hashes reads content fuel (drop (suc n) rest) more
                (reports ++ (length (flatten more) ∷ [])) whole (after_read left given)
                (omega (arith, length-drop (suc n) rest))
                (All-append _ reports _ a (omega (arith, counted, enough, total, sum), tt)) in
            rw (given, hash_loop)
              (subst
                (λ (t : ℕ). Hashes H read_size content (
                  hash_loop H read_size fuel (drop (suc n) rest)
                    (H.update (updates H H.new pieces) piece) t (reports ++ (t ∷ []))))
                counted
                (subst
                  (λ (h : H.Hasher). Hashes H read_size content (
                    hash_loop H read_size fuel (drop (suc n) rest) h (length (flatten more))
                      (reports ++ (length (flatten more) ∷ []))))
                  (updates-append H H.new pieces piece) next))
      ]

  -- Whatever pieces the reads give, hashing a file that is there ends, and yields the hash of its
  -- whole content with no report above its size. It fails only where, after reads of this file that
  -- succeeded, one fails.
  pub hash_file_generic_total :
      IsRead read_size
      → (content : List ℕ)
      → Hashes H read_size content (hash_file_generic H read_size (some content))
  unfolding hash_file_generic updates flatten
  hash_file_generic_total reads content =
      hash_loop-Hashes reads content (suc (length content)) content [] [] refl unread (omega arith)
        tt
