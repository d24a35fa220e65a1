-- ===== src/Tests/Files.antt =====
-- Names and paths of an app called `editor`.
use deltaship.Prelude.{◌≡◌, ◌↔◌, refl}
use deltaship.Prelude.Text.{Text, ascii, contains, strip_prefix}
use deltaship.Prelude.Result.{ok, err}
use deltaship.Core.Platform.{linux_x86_64}
use deltaship.Server.Validation.{
  path_traversal, is_name_char, is_version_char, has_traversal, validate_name, validate_version,
}
use deltaship.Server.Validation.Safe.{IsAllowed, validate_iff_IsAllowed}
use deltaship.Server.Paths.Injective.{get_binary_path-injective}
use deltaship.Tests.Fixtures.{app}

abbrev data_dir : Text
data_dir = ascii "/data"

climb_refused : validate_name (ascii "a/../b") ≡ err path_traversal
unfolding validate_name has_traversal contains strip_prefix
climb_refused = refl

validate_iff_IsAllowed_example :
    ((validate_name (ascii "1.0+b") ≡ ok tt) ↔ IsAllowed is_name_char (ascii "1.0+b"))
    × ((validate_version (ascii "1.0+b") ≡ ok tt) ↔ IsAllowed is_version_char (ascii "1.0+b"))
validate_iff_IsAllowed_example = validate_iff_IsAllowed (ascii "1.0+b")

app-valid : validate_name app ≡ ok tt
unfolding validate_name has_traversal contains strip_prefix
app-valid = refl

version-valid : validate_version (ascii "1.0.0") ≡ ok tt
unfolding validate_version has_traversal contains strip_prefix
version-valid = refl

get_binary_path-injective_example :
    (app ≡ app) × (ascii "1.0.0" ≡ ascii "1.0.0") × (linux_x86_64 ≡ linux_x86_64)
get_binary_path-injective_example =
    get_binary_path-injective data_dir app app (ascii "1.0.0") (ascii "1.0.0") linux_x86_64
      linux_x86_64 app-valid (λ h. cc) app-valid (λ h. cc) version-valid (λ h. cc) version-valid
      (λ h. cc) refl
