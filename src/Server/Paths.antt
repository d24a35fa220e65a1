-- ===== src/Server/Paths.antt =====
-- crates/deltaship-server/src/storage.rs: where the files of an app lie. A path is the text of its
-- parts with `/` between them; no part that the server joins is absolute. As `Path` does, two paths
-- are compared by their components (Injective), not as texts.
pub mod Injective
use deltaship.Prelude.{ℕ, List, [], ◌∷◌, ◌++◌}
use deltaship.Prelude.Text.{Text, ascii}
use deltaship.Core.Platform.{Platform, as_str}

-- `base.join(a).join(b)...`
unfoldable pub join : Text → List Text → Text
join base [] = base
join base (part ∷ parts) = base ++ (b'/' ∷ join part parts)

unfoldable pub get_binary_path : Text → Text → Text → Platform → Text
get_binary_path data_dir app_name version platform = join data_dir (
    ascii "apps"
    ∷ app_name
    ∷ ascii "versions"
    ∷ version
    ∷ (ascii "binary-" ++ as_str platform)
    ∷ [])

unfoldable pub get_signature_path : Text → Text → Text → Text
get_signature_path data_dir app_name version =
    join data_dir
      (ascii "apps" ∷ app_name ∷ ascii "versions" ∷ version ∷ ascii "signature.sig" ∷ [])

unfoldable pub diff_file_name : Text → Text → Platform → Text
diff_file_name from_version to_version platform =
    from_version ++ (ascii "-to-" ++ (to_version ++ (ascii "-" ++ as_str platform)))

unfoldable pub get_diff_path : Text → Text → Text → Text → Platform → Text
get_diff_path data_dir app_name from_version to_version platform =
    join data_dir (
      ascii "apps"
      ∷ app_name
      ∷ ascii "diffs"
      ∷ diff_file_name from_version to_version platform
      ∷ [])

unfoldable pub get_rollout_path : Text → Text → Text → Text
get_rollout_path data_dir app_name version =
    join data_dir (ascii "apps" ∷ app_name ∷ ascii "versions" ∷ version ∷ ascii "rollout.json" ∷ [])
