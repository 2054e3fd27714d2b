-- ===== src/Utf8/Tests.antt =====
-- The UTF-8 routines on concrete texts.
use retrodesk.Prelude.{ℕ, ◌≡◌, ◌↔◌, refl, some, true, List, [], ◌∷◌, ◌++◌, length}
use retrodesk.Utf8.Codec.{is_scalar, bytes_of, decode}
use retrodesk.Utf8.Scan.{validate, valid_prefix}
use retrodesk.Utf8.RoundTrip.{decode-bytes_of}
use retrodesk.Utf8.Sound.{Decoded, decode-Decoded}
use retrodesk.Utf8.Text.{encode_all, AllScalar, validate-encode_all}
use retrodesk.Utf8.Prefix.{IsLongest, valid_prefix-IsLongest}

euro-scalar : is_scalar 0x20AC ≡ true
unfolding is_scalar
euro-scalar = refl

text-scalar : AllScalar (0x41 ∷ 0x20AC ∷ [])
unfolding is_scalar
text-scalar = (refl, (refl, tt))

euro-decoded : decode (0xE2 ∷ 0x82 ∷ 0xAC ∷ 0x41 ∷ []) ≡ some (0x20AC, 3)
unfolding decode
euro-decoded = refl

decode-bytes_of_example :
    decode (bytes_of 0x20AC ++ 0x41 ∷ []) ≡ some (0x20AC, length (bytes_of 0x20AC))
decode-bytes_of_example = decode-bytes_of 0x20AC (0x41 ∷ []) euro-scalar

decode-Decoded_example : Decoded (0xE2 ∷ 0x82 ∷ 0xAC ∷ 0x41 ∷ []) 0x20AC 3
decode-Decoded_example = decode-Decoded (0xE2 ∷ 0x82 ∷ 0xAC ∷ 0x41 ∷ []) 0x20AC 3 euro-decoded

validate-encode_all_example :
    (validate (0x41 ∷ 0xE2 ∷ 0x82 ∷ 0xAC ∷ []) ≡ true)
    ↔ ((cps : List ℕ) × AllScalar cps × (0x41 ∷ 0xE2 ∷ 0x82 ∷ 0xAC ∷ [] ≡ encode_all cps))
validate-encode_all_example = validate-encode_all (0x41 ∷ 0xE2 ∷ 0x82 ∷ 0xAC ∷ [])

valid_prefix-IsLongest_example :
    IsLongest (0x41 ∷ 0x20AC ∷ []) 3 (valid_prefix (encode_all (0x41 ∷ 0x20AC ∷ [])) 3)
valid_prefix-IsLongest_example = valid_prefix-IsLongest (0x41 ∷ 0x20AC ∷ []) 3 text-scalar
