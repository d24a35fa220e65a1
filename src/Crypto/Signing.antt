-- ===== src/Crypto/Signing.antt =====
-- crates/deltaship-crypto/src/signing.rs: the message that is signed for a version.
use deltaship.Prelude.{ℕ, ◌≡◌, refl, ◌∙◌, ap, sym, List, [], ◌∷◌, ◌++◌, arith, length, drop}
use deltaship.Prelude.Text.{Text, ascii}
use deltaship.Crypto.Hashing.{hash_size}

abbrev pub signing_domain_tag : Text
signing_domain_tag = ascii "DELTASHIP-sig-v1" ++ (0 ∷ [])

unfoldable pub signing_payload : List ℕ → Text → List ℕ
signing_payload blake3_hash version_string = (signing_domain_tag ++ blake3_hash) ++ version_string

append_injective :
    (xs ys : Text) {us vs : Text}
    → length xs ≡ length ys
    → xs ++ us ≡ ys ++ vs
    → (xs ≡ ys) × (us ≡ vs)
append_injective [] [] h e = (refl, e)
append_injective [] (y ∷ ys) h e = absurd (omega arith)
append_injective (x ∷ xs) [] h e = absurd (omega arith)
append_injective (x ∷ xs) (y ∷ ys) {us} {vs} h e =
    ground (arith, append_injective xs ys {us = us} {vs = vs})

-- Two messages are equal only if they are for the same hash and the same version, so that a
-- signature for one version is none for another. The hashes have 32 bytes, as every BLAKE3 hash.
pub signing_payload_injective :
    (hash hash' : List ℕ) (version version' : Text)
    → length hash ≡ hash_size
    → length hash' ≡ hash_size
    → signing_payload hash version ≡ signing_payload hash' version'
    → (hash ≡ hash') × (version ≡ version')
unfolding signing_payload
signing_payload_injective hash hash' version version' h h' e =
    append_injective hash hash' (h ∙ sym h') (ap (drop (length signing_domain_tag)) e)
