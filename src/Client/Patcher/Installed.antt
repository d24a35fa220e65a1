-- ===== src/Client/Patcher/Installed.antt =====
-- crates/deltaship-client/src/patcher.rs: the digest of what a successful update has installed.
use deltaship.Prelude.{ℕ, ◌≡◌, sym, subst, ap, ◌∙◌, some, List}
use deltaship.Prelude.Text.{text_eq, text_eq-eq}
use deltaship.Prelude.Map
use deltaship.Prelude.Map.{get-insert, Map}
use deltaship.Prelude.Result
use deltaship.Prelude.Result.{Result, ok, err}
use deltaship.Crypto.Hashing.{from_hex}
use deltaship.Db.Client.{DbManagedBinary, UpdateMetrics}
use deltaship.Client.Patcher.{
  Env, World, UpdateInfo, UpdateError, read, write, sig_path_for, checksum_mismatch, file_error,
  after_write, others_act,
}
use deltaship.Client.Patcher.Sources.{BinarySource}
use deltaship.Client.Patcher.Execute.{install, put_in_place, verify_and_install, execute_update}
use deltaship.Client.Patcher.Runs.{write-ok, state, sig_path_apart, continue-ok}

module _ (env : Env) where
  -- The installed file, by its digest.
  abbrev pub IsInstalled : DbManagedBinary → List ℕ → World → Type 0
  IsInstalled binary expected w =
      (content : List ℕ) × (Map.get binary.install_path w.files ≡ some content)
      × (env.blake3 content ≡ expected)

  put_in_place-IsInstalled :
      (binary : DbManagedBinary) (source : BinarySource) (expected sig : List ℕ) (w : World)
      {metrics : UpdateMetrics} {w' : World}
      → put_in_place env binary source expected sig w ≡ (ok metrics, w')
      → IsInstalled binary expected w'
  unfolding put_in_place others_act read
  put_in_place-IsInstalled binary source expected sig w h =
      let path = binary.install_path in
      let (_, _, h1) = continue-ok _ _ _ h in
      let (_, _, h2) = continue-ok _ _ _ h1 in
      let (content, found, h3) = continue-ok _ _ _ h2 in
      let (_, equal, h4) = continue-ok _ _ _ h3 in
      let (_, written, h5) = continue-ok _ _ _ h4 in
      let v = (others_act env after_write (install env binary source w).1).1 in
      let v' = (write env (sig_path_for path) sig v).1 in
      let held = Result.ok_or-eq-ok (Map.get path v.files) file_error found in
      let same = sym (
        text_eq-eq expected (env.blake3 content)
          (Result.ensure-eq-ok (text_eq expected (env.blake3 content)) checksum_mismatch equal)) in
      let kept =
        ap (λ (x : World). Map.get path x.files)
          (sym (
            write-ok env (sig_path_for path) sig v
              (ap (λ (r : Result UpdateError (Unit {0})). (r, v')) written)))
        ∙ get-insert (sig_path_for path) path sig v.files
        ∙ rw (sig_path_apart path) held in
      subst (IsInstalled binary expected) (ap state h5) (content, kept, same)

  -- However other programs act, the installed file has the checksum of the update.
  pub execute_update-IsInstalled :
      (binary : DbManagedBinary) (update : UpdateInfo) (w : World) {metrics : UpdateMetrics}
      {w' : World}
      → execute_update env binary update w ≡ (ok metrics, w')
      → (expected : List ℕ) × (from_hex update.checksum ≡ ok expected)
        × IsInstalled binary expected w'
  unfolding execute_update verify_and_install
  execute_update-IsInstalled binary update w h =
      let (_, _, h1) = continue-ok _ _ _ h in
      let (expected, hashed, h2) = continue-ok _ _ _ h1 in
      let (source, _, h3) = continue-ok _ _ _ h2 in
      let (_, _, h4) = continue-ok _ _ _ h3 in
      let (_, _, h5) = continue-ok _ _ _ h4 in
      let (sig, _, h6) = continue-ok _ _ _ h5 in
      (
        expected,
        Result.map_err-eq-ok _ (from_hex update.checksum) hashed,
        put_in_place-IsInstalled binary source expected sig _ h6,
      )
