-- ===== src/Tests/Client.antt =====
-- Install paths on a host of one user's files.
use deltaship.Prelude.{◌≡◌, refl, true, false, none, some, ◌∷◌, ◌++◌}
use deltaship.Prelude.Text.{Text, ascii, strip_prefix}
use deltaship.Prelude.Result.{err}
use deltaship.Client.InstallPath.{
  Host, privileged, unix_path_under, is_under, matched_privileged_path, resolve, check_privileged,
  validate_install_path,
}

-- Every path exists, is no link, and belongs to user 1000.
abbrev pub host : Host
host = record {
  is_symlink = λ p. false;
  exists = λ p. true;
  canonicalize = some;
  parent = λ p. none;
  file_name = λ p. none;
  join = λ p q. p ++ (b'/' ∷ q);
  uid = λ p. some 1000;
  is_root = false;
}

system_refused : validate_install_path host (ascii "/etc/passwd") ≡ err (privileged (ascii "/etc"))
unfolding validate_install_path check_privileged matched_privileged_path is_under unix_path_under
    strip_prefix resolve
system_refused = refl
