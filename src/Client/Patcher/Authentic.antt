-- ===== src/Client/Patcher/Authentic.antt =====
-- crates/deltaship-client/src/patcher.rs: what a successful update has verified.
use deltaship.Db.Client.History.{no_metrics}
use deltaship.Client.Patcher.Touched.{IsOwn, choose_source-IsOwn}
use deltaship.Prelude.{ℕ, ◌≡◌, refl, sym, subst, ap, ◌∙◌, true, some, List, length, ◌==◌}
use deltaship.Prelude.Text.{Text, text_eq, text_eq-eq, text_eq_refl}
use deltaship.Prelude.Map
use deltaship.Prelude.Map.{get-insert, Map}
use deltaship.Prelude.Result
use deltaship.Prelude.Result.{Result, ok, err}
use deltaship.Crypto.Signing.{signing_payload}
use deltaship.Crypto.Hashing.{from_hex}
use deltaship.Db.Client.{DbManagedBinary, UpdateMetrics}
use deltaship.Client.Patcher.{
  continue, Env, World, UpdateInfo, UpdateError, read, write, exists, sig_path_for, verify_content,
  verify_backup_signature, checksum_mismatch, signature_failed, file_error, before_signature,
  after_write, others_act,
}
use deltaship.Client.Patcher.Sources.{
  BinarySource, in_memory, on_disk, source_bytes, verify_checksum, cleanup, download_path,
}
use deltaship.Client.Patcher.Execute.{
  check_signature, install, put_in_place, verify_and_install, execute_update, on_error,
  choose_source,
}
use deltaship.Client.Patcher.Runs.{write-ok, state, on_error-ok, sig_path_apart, continue-ok}
use deltaship.Client.Patcher.Checked.{verify_checksum-ok, check_signature-ok}

module _ (env : Env) where
  -- The signature that was checked stands beside the content that was installed, and the check of a
  -- backup accepts both.
  accepted_after :
      (path : Text) (key sig content : List ℕ) (version : Text) (w : World)
      → Map.get path w.files ≡ some content
      → (length sig == 64) ≡ true
      → (length key == 32) ≡ true
      → env.is_key key ≡ true
      → verify_content env key sig version content ≡ ok tt
      → {u : Unit {0}} {w' : World} → write env (sig_path_for path) sig w ≡ (ok u, w')
      → (verify_backup_signature env path key version w' ≡ (ok tt, w'))
        × (Map.get path w'.files ≡ some content)
  unfolding verify_backup_signature exists read continue
  accepted_after path key sig content version w held sized key_sized is_key verified h =
      let s = sig_path_for path in
      let files = Map.insert s sig w.files in
      let there : Map.contains_key s files ≡ true =
        Map.contains_key-insert s s sig w.files ∙ rw (text_eq_refl s) refl in
      let signature : Map.get s files ≡ some sig =
        get-insert s s sig w.files ∙ rw (text_eq_refl s) refl in
      let kept : Map.get path files ≡ some content =
        get-insert s path sig w.files ∙ rw (sig_path_apart path) held in
      subst
        (λ (v : World).
          (verify_backup_signature env path key version v ≡ (ok tt, v))
          × (Map.get path v.files ≡ some content))
        (write-ok env s sig w h)
        (rw (there, signature, sized, key_sized, is_key, kept, verified) refl, kept)

  -- The outcome of a successful update.
  abbrev pub IsAuthentic : DbManagedBinary → Text → List ℕ → World → Type 0
  IsAuthentic binary version expected w =
      (content : List ℕ) × (Map.get binary.install_path w.files ≡ some content)
      × (env.blake3 content ≡ expected)
      × (verify_backup_signature env binary.install_path binary.publisher_public_key version w
          ≡ (ok tt, w))

  put_in_place-IsAuthentic :
      (binary : DbManagedBinary) (version : Text) (source : BinarySource) (expected sig : List ℕ)
      (w : World)
      → (length sig == 64) ≡ true
      → (length binary.publisher_public_key == 32) ≡ true
      → env.is_key binary.publisher_public_key ≡ true
      → env.verify_strict binary.publisher_public_key (signing_payload expected version) sig ≡ true
      → {metrics : UpdateMetrics} {w' : World}
      → put_in_place env binary source expected sig w ≡ (ok metrics, w')
      → IsAuthentic binary version expected w'
  unfolding put_in_place others_act read verify_content
  put_in_place-IsAuthentic binary version source expected sig w sized key_sized is_key verified h =
      let key = binary.publisher_public_key in
      let path = binary.install_path in
      let (_, _, h1) = continue-ok _ _ _ h in
      let (_, _, h2) = continue-ok _ _ _ h1 in
      let (content, found, h3) = continue-ok _ _ _ h2 in
      let (_, equal, h4) = continue-ok _ _ _ h3 in
      let (_, written, h5) = continue-ok _ _ _ h4 in
      let v = (others_act env after_write (install env binary source w).1).1 in
      let held = Result.ok_or-eq-ok (Map.get path v.files) file_error found in
      let same = sym (
        text_eq-eq expected (env.blake3 content)
          (Result.ensure-eq-ok (text_eq expected (env.blake3 content)) checksum_mismatch equal)) in
      let v' = (write env (sig_path_for path) sig v).1 in
      let (accepted, kept) =
        accepted_after path key sig content version v held sized key_sized is_key
          (rw (same, verified) refl)
          (ap (λ (r : Result UpdateError (Unit {0})). (r, v')) written) in
      subst (IsAuthentic binary version expected) (ap state h5) (content, kept, same, accepted)

  -- Between the check of the checksum of the download and that of its signature, other programs
  -- leave the download alone.
  abbrev pub IsUndisturbed : DbManagedBinary → UpdateInfo → Type 0
  IsUndisturbed binary update =
      (files : Map (List ℕ))
      → Map.get (download_path env binary update) (env.interfere before_signature files)
        ≡ Map.get (download_path env binary update) files

  source_bytes-undisturbed :
      (binary : DbManagedBinary) (update : UpdateInfo) (source : BinarySource) (w : World)
      → IsUndisturbed binary update
      → IsOwn env binary update source
      → (source_bytes env source (others_act env before_signature w).1).0
        ≡ (source_bytes env source w).0
  unfolding source_bytes read others_act
  source_bytes-undisturbed binary update (in_memory content) w calm own = refl
  source_bytes-undisturbed binary update (on_disk path) w calm own =
      let path_files =
        λ (p : Text). Map.get p (env.interfere before_signature w.files) ≡ Map.get p w.files in
      rw (subst path_files (sym own) (calm w.files)) refl

  verify_and_install-IsAuthentic :
      (binary : DbManagedBinary) (update : UpdateInfo) (expected : List ℕ) (source : BinarySource)
      (w : World)
      → IsUndisturbed binary update
      → IsOwn env binary update source
      → {metrics : UpdateMetrics} {w' : World}
      → verify_and_install env binary update expected source w ≡ (ok metrics, w')
      → IsAuthentic binary update.version expected w'
  unfolding verify_and_install verify_content
  verify_and_install-IsAuthentic binary update expected source w calm own h =
      let key = binary.publisher_public_key in
      let (_, checked, h1) = continue-ok _ _ _ h in
      let check = verify_checksum env source expected in
      let (passed, same_state) = on_error-ok check (cleanup env source) w checked in
      let (content, held, digest, unchanged) = verify_checksum-ok env source expected w passed in
      let v = (on_error check (cleanup env source) w).1 in
      let (_, _, h2) = continue-ok _ _ _ h1 in
      let v0 = (others_act env before_signature v).1 in
      let (sig, signed, h3) = continue-ok _ _ _ h2 in
      let v' = (check_signature env binary update source v0).1 in
      let (signed_content, held', sized, key_sized, is_key, verified) =
        check_signature-ok env binary update source v0
          (ap (λ (r : Result UpdateError (List ℕ)). (r, v')) signed) in
      let here : w ≡ v = unchanged ∙ sym same_state in
      let one : content ≡ signed_content = Result.ok_injective (
        sym held
        ∙ ap (λ (x : World). (source_bytes env source x).0) here
        ∙ sym (source_bytes-undisturbed binary update source v calm own)
        ∙ held') in
      let strict =
        Result.ensure-eq-ok
          (env.verify_strict key (signing_payload (env.blake3 signed_content) update.version) sig)
          signature_failed verified in
      let verified_expected =
        subst (λ (d : List ℕ). env.verify_strict key (signing_payload d update.version) sig ≡ true)
          (ap env.blake3 (sym one) ∙ digest) strict in
      put_in_place-IsAuthentic binary update.version source expected sig v' sized key_sized is_key
        verified_expected h3

  -- An update that succeeds leaves a file whose digest is the checksum of the update, and beside it a
  -- signature of the publisher's key over that digest and the version of the update: the check that
  -- a rollback makes of a backup accepts the file. Other programs may change any file after the
  -- checksum of a diff, before the new file is copied to its place, and between that copy and the
  -- last check; between the checks of its checksum and of its signature they leave the download
  -- alone.
  pub execute_update-IsAuthentic :
      (binary : DbManagedBinary) (update : UpdateInfo) (w : World) {metrics : UpdateMetrics}
      {w' : World}
      → IsUndisturbed binary update
      → execute_update env binary update w ≡ (ok metrics, w')
      → (expected : List ℕ) × (from_hex update.checksum ≡ ok expected)
        × IsAuthentic binary update.version expected w'
  unfolding execute_update
  execute_update-IsAuthentic binary update w calm h =
      let (_, _, h1) = continue-ok _ _ _ h in
      let (expected, hashed, h2) = continue-ok _ _ _ h1 in
      let (source, chosen, h3) = continue-ok _ _ _ h2 in
      let w1 = record w { metrics = no_metrics } in
      let own = choose_source-IsOwn env binary update w1 (
        ap (λ (r : Result UpdateError BinarySource). (r, (choose_source env binary update w1).1))
          chosen) in
      (
        expected,
        Result.map_err-eq-ok _ (from_hex update.checksum) hashed,
        verify_and_install-IsAuthentic binary update expected source _ calm own h3,
      )
