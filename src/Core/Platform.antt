-- ===== src/Core/Platform.antt =====
-- crates/deltaship-core/src/binary.rs: the platforms and their names. `to_lowercase` is taken on
-- the ASCII letters and the Kelvin sign, which lowers to k: no other character lowers to an ASCII
-- letter alone, and the texts are compared with ASCII only.
use deltaship.Prelude.{
  ◌+◌, ◌≡◌, refl, Bool, true, ◌&&◌, ◌||◌, Option, none, some, [], ◌∷◌, leb, if◌then◌else◌, ℕ, ◌==◌,
}
use deltaship.Prelude.Text.{Text, ascii, text_eq, text_eq_iff, text_eq_refl}

pub data Platform : Type 0 where
  linux_x86_64 linux_aarch64 windows_x86_64 macos_x86_64 macos_aarch64 : Platform

unfoldable pub as_str : Platform → Text
as_str linux_x86_64 = ascii "linux-x86_64"
as_str linux_aarch64 = ascii "linux-aarch64"
as_str windows_x86_64 = ascii "windows-x86_64"
as_str macos_x86_64 = ascii "macos-x86_64"
as_str macos_aarch64 = ascii "macos-aarch64"

-- The derived `==`.
unfoldable pub platform_eq : Platform → Platform → Bool
unfolding as_str text_eq
platform_eq p q = text_eq (as_str p) (as_str q)

-- A letter in lower case.
abbrev pub lower : ℕ → ℕ
lower c = if leb b'A' c && leb c b'Z' then c + 32 else c

-- The first byte in front of a text in lower case. The bytes e2 84 aa are the Kelvin sign.
abbrev pub lower_onto : ℕ → Text → Text
lower_onto c [] = lower c ∷ []
lower_onto c (d ∷ []) = lower c ∷ d ∷ []
lower_onto c (d ∷ e ∷ s) =
    if c == 0xe2 && d == 0x84 && e == 0xaa then b'k' ∷ s else lower c ∷ d ∷ e ∷ s

unfoldable pub to_lowercase : Text → Text
to_lowercase [] = []
to_lowercase (c ∷ s) = lower_onto c (to_lowercase s)

-- The arms of the match in `from_str`, in their order.
unfoldable pub from_lower : Text → Option Platform
unfolding text_eq
from_lower s =
    if text_eq s (ascii "linux-x86_64") || text_eq s (ascii "linux_x86_64")
    then some linux_x86_64
    else if text_eq s (ascii "linux-aarch64") || text_eq s (ascii "linux_aarch64")
    then some linux_aarch64
    else if text_eq s (ascii "windows-x86_64") || text_eq s (ascii "windows_x86_64")
    then some windows_x86_64
    else if text_eq s (ascii "macos-x86_64") || text_eq s (ascii "macos_x86_64")
    then some macos_x86_64
    else if text_eq s (ascii "macos-aarch64") || text_eq s (ascii "macos_aarch64")
    then some macos_aarch64
    else none

-- `Platform::from_str`; its error is `none`.
unfoldable pub from_str : Text → Option Platform
unfolding from_lower to_lowercase
from_str s = from_lower (to_lowercase s)

-- A platform's name reads back as the platform.
pub from_str-as_str : (p : Platform) → from_str (as_str p) ≡ some p
unfolding from_str as_str
from_str-as_str linux_x86_64 = refl
from_str-as_str linux_aarch64 = refl
from_str-as_str windows_x86_64 = refl
from_str-as_str macos_x86_64 = refl
from_str-as_str macos_aarch64 = refl

pub platform_eq-eq : (p q : Platform) → platform_eq p q ≡ true → p ≡ q
unfolding platform_eq
platform_eq-eq p q h =
    let e = (text_eq_iff (as_str p) (as_str q)).0 h in cc (from_str-as_str p, from_str-as_str q, e)

pub platform_eq_refl : (p : Platform) → platform_eq p p ≡ true
unfolding platform_eq
platform_eq_refl p = text_eq_refl (as_str p)
