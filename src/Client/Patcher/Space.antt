-- ===== src/Client/Patcher/Space.antt =====
-- crates/deltaship-client/src/patcher.rs: the checks of the space on the disks change nothing.
use deltaship.Prelude.{ℕ, refl, Option-cases, inl, inr, if◌then◌else◌}
use deltaship.Prelude.Text.{Text}
use deltaship.Db.Client.{DbManagedBinary}
use deltaship.Client.Patcher.{
  Env, World, UpdateInfo, ◌>>=◌, return, read, exists, check_disk_space, check_disk_space_at_path,
}
use deltaship.Client.Patcher.Update.{check_diff_space, check_installed_space, check_space}
use deltaship.Client.Patcher.Keeps.{Keeps, chain, if-Keeps, pure}

module _ (env : Env) (binary : DbManagedBinary) (update : UpdateInfo) where
  -- The checks of space only read.
  check_path-Keeps :
      (path : Text) (n : ℕ) → Keeps (λ (w : World). w) (check_disk_space_at_path env path n)
  unfolding check_disk_space_at_path
  check_path-Keeps path n = record {
    keep = λ w. elim (Option-cases (env.available_space path)) [
      | inl unknown ↦ rw (unknown, check_disk_space_at_path) refl
      | inr (_, known) ↦ rw (known, check_disk_space_at_path) refl
    ];
  }

  check_diff_space-Keeps : Keeps (λ (w : World). w) (check_diff_space env update)
  check_diff_space-Keeps = record {
    keep = λ w. elim (Option-cases update.diff_size) [
      | inl nothing ↦ rw nothing refl
      | inr (size, here) ↦ rw here ((check_path-Keeps env.downloads_dir size).keep w)
    ];
  }

  check_disk_space-Keeps :
      (n : ℕ)
      → Keeps (λ (w : World). w) (check_disk_space env binary.install_path env.backups_dir n)
  unfolding check_disk_space
  check_disk_space-Keeps n =
      chain (check_path-Keeps binary.install_path n) (λ _. check_path-Keeps env.backups_dir n)

  pub check_space-Keeps_all : Keeps (λ (w : World). w) (check_space env binary update)
  unfolding check_space exists read
  check_space-Keeps_all = record {
    keep = λ w. elim (Option-cases update.full_binary_size) [
      | inl unknown ↦ rw unknown (by_size.keep w)
      | inr (size, here) ↦
          rw here ((chain (check_disk_space-Keeps size) (λ _. check_diff_space-Keeps)).keep w)
    ];
  }
    where
      by_size :
          Keeps
            (λ (w : World). w)
            (exists binary.install_path >>= λ installed.
              if installed then check_installed_space env binary update else return tt)
      by_size = chain (pure (λ w. refl)) λ installed.
          if-Keeps installed
            (chain (pure (λ w. refl))
              λ current. chain (check_disk_space-Keeps _) λ _. check_diff_space-Keeps)
            (pure (λ w. refl))
