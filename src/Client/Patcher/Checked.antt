-- ===== src/Client/Patcher/Checked.antt =====
-- crates/deltaship-client/src/patcher.rs: what the checks of a new file have found.
use deltaship.Prelude.{ℕ, ◌≡◌, refl, sym, subst, ap, ◌∙◌, true, List, length, ◌==◌}
use deltaship.Prelude.Text.{text_eq, text_eq-eq}
use deltaship.Prelude.Result
use deltaship.Prelude.Result.{Result, ok, err}
use deltaship.Db.Client.{DbManagedBinary}
use deltaship.Client.Patcher.{
  Env, World, UpdateInfo, UpdateError, read, verify_content, checksum_mismatch, lift,
  check_available_memory,
}
use deltaship.Client.Patcher.Sources.{
  BinarySource, in_memory, on_disk, source_bytes, verify_checksum, read_for_verification, cleanup,
}
use deltaship.Client.Patcher.Execute.{check_signature}
use deltaship.Client.Patcher.Runs.{result, state, on_error-ok, continue-ok}

module _ (env : Env) where
  source_bytes_state : (source : BinarySource) (w : World) → (source_bytes env source w).1 ≡ w
  unfolding source_bytes read
  source_bytes_state (in_memory content) w = refl
  source_bytes_state (on_disk path) w = refl

  -- What is read for the signature is what the source holds.
  read_for_verification-ok :
      (source : BinarySource) (w : World) {content : List ℕ} {w' : World}
      → read_for_verification env source w ≡ (ok content, w')
      → ((source_bytes env source w).0 ≡ ok content) × (w ≡ w')
  unfolding source_bytes read_for_verification read check_available_memory
  read_for_verification-ok (in_memory content) w h = (ap result h, ap state h)
  read_for_verification-ok (on_disk path) w h =
      let (_, found, h1) = continue-ok _ _ _ h in
      let (_, _, h2) = continue-ok _ _ _ h1 in
      let (_, _, h3) = continue-ok _ _ _ h2 in (found ∙ ap result h3, ap state h3)

  pub verify_checksum-ok :
      (source : BinarySource) (expected : List ℕ) (w : World) {u : Unit {0}} {w' : World}
      → verify_checksum env source expected w ≡ (ok u, w')
      → (content : List ℕ) × ((source_bytes env source w).0 ≡ ok content)
        × (env.blake3 content ≡ expected)
        × (w ≡ w')
  unfolding verify_checksum
  verify_checksum-ok source expected w h =
      let (c, found, h1) = continue-ok _ _ _ h in
      let same = text_eq expected (env.blake3 c) in
      let equal = Result.ensure-eq-ok same checksum_mismatch (ap result h1) in
      (
        c,
        found,
        sym (text_eq-eq expected (env.blake3 c) equal),
        sym (source_bytes_state source w) ∙ ap state h1,
      )

  -- What the checks of a signature have found.
  pub check_signature-ok :
      (binary : DbManagedBinary) (update : UpdateInfo) (source : BinarySource) (w : World)
      {sig : List ℕ} {w' : World}
      → check_signature env binary update source w ≡ (ok sig, w')
      → (content : List ℕ) × ((source_bytes env source w).0 ≡ ok content)
        × ((length sig == 64) ≡ true)
        × ((length binary.publisher_public_key == 32) ≡ true)
        × (env.is_key binary.publisher_public_key ≡ true)
        × (verify_content env binary.publisher_public_key sig update.version content ≡ ok tt)
  unfolding check_signature
  check_signature-ok binary update source w h =
      let key = binary.publisher_public_key in
      let (_, _, h1) = continue-ok _ _ _ h in
      let (sig, _, h2) = continue-ok _ _ _ h1 in
      let (_, sized, h3) = continue-ok _ _ _ h2 in
      let (_, key_sized, h4) = continue-ok _ _ _ h3 in
      let (_, is_key, h5) = continue-ok _ _ _ h4 in
      let (content, read, h6) = continue-ok _ _ _ h5 in
      let (_, verified, h7) = continue-ok _ _ _ h6 in
      let (_, _, h8) = continue-ok _ _ _ h7 in
      let w1 = (read_for_verification env source w).1 in
      let (held, _) =
        read_for_verification-ok source w
          (ap (λ (r : Result UpdateError (List ℕ)). (r, w1)) read) in
      let check = lift (verify_content env key sig update.version content) in
      let (accepted, _) = on_error-ok check (cleanup env source) w1 verified in
      let same : sig ≡ _ = Result.ok_injective (ap result h8) in
      subst
        (λ (s : List ℕ).
          (content : List ℕ) × ((source_bytes env source w).0 ≡ ok content)
          × ((length s == 64) ≡ true)
          × ((length key == 32) ≡ true)
          × (env.is_key key ≡ true)
          × (verify_content env key s update.version content ≡ ok tt))
        same
        (
          content,
          held,
          Result.ensure-eq-ok (length sig == 64) _ sized,
          Result.ensure-eq-ok (length key == 32) _ key_sized,
          Result.ensure-eq-ok (env.is_key key) _ is_key,
          ap result accepted,
        )
