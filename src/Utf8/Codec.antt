-- ===== src/Utf8/Codec.antt =====
-- The codec of core/utf8.c. A text is the list of its bytes, numbers below 256; a C string is the
-- list of the bytes before its NUL.
use retrodesk.Prelude.{
  ℕ, zero, suc, ◌+◌, ◌*◌, ◌/◌, ◌%◌, Option, none, some, Bool, true, false, ◌&&◌, ◌||◌, List, [],
  ◌∷◌, ◌==◌, ltb, leb, if◌then◌else◌, drop,
}

-- `(byte & 0xC0u) == 0x80u`, for a byte.
unfoldable pub is_continuation : ℕ → Bool
is_continuation b = b / 64 == 2

unfoldable pub is_scalar : ℕ → Bool
is_scalar cp = if ltb 0x10FFFF cp || (leb 0xD800 cp && leb cp 0xDFFF) then false else true

-- The bytes that `retro_utf8_encode` writes. Its `|` join bits that do not overlap: sums.
unfoldable pub bytes_of : ℕ → List ℕ
bytes_of cp =
    if leb cp 0x7F
    then cp ∷ []
    else if leb cp 0x7FF
    then (0xC0 + cp / 64) ∷ (0x80 + cp % 64) ∷ []
    else if leb cp 0xFFFF
    then (0xE0 + cp / 4096) ∷ (0x80 + cp / 64 % 64) ∷ (0x80 + cp % 64) ∷ []
    else (0xF0 + cp / 262144)
      ∷ (0x80 + cp / 4096 % 64)
      ∷ (0x80 + cp / 64 % 64)
      ∷ (0x80 + cp % 64)
      ∷ []

unfoldable pub encode : ℕ → Option (List ℕ)
unfolding is_scalar bytes_of
encode cp = if is_scalar cp then some (bytes_of cp) else none

-- The payload of a leading byte, and how many bytes follow it.
unfoldable pub lead : ℕ → Option (ℕ × ℕ)
lead b =
    if leb b 0x7F
    then some (b, 0)
    else if leb 0xC2 b && leb b 0xDF
    then some (b % 32, 1)
    else if leb 0xE0 b && leb b 0xEF
    then some (b % 16, 2)
    else if leb 0xF0 b && leb b 0xF4
    then some (b % 8, 3)
    else none

-- `cp = (cp << 6) | (byte & 0x3F)` over the bytes that follow, as long as there are any and they
-- are continuation bytes.
unfoldable pub collect : ℕ → ℕ → List ℕ → Option ℕ
unfolding is_continuation
collect zero cp bs = some cp
collect (suc n) cp [] = none
collect (suc n) cp (b ∷ bs) =
    let more = collect n (cp * 64 + b % 64) bs in if is_continuation b then more else none

-- A longer form than the code point needs, or no code point.
unfoldable pub is_ill_formed : ℕ → ℕ → Bool
unfolding is_scalar
is_ill_formed n cp =
    (n == 2 && ltb cp 0x80)
    || (n == 3 && ltb cp 0x800)
    || (n == 4 && ltb cp 0x10000)
    || (if is_scalar cp then false else true)

-- `retro_utf8_decode` on the text from `offset` on: the code point and its length.
unfoldable pub decode : List ℕ → Option (ℕ × ℕ)
unfolding lead collect is_ill_formed
decode [] = none
decode (b ∷ bs) = elim (lead b) [
  | none ↦ none
  | some (payload, extra) ↦ elim (collect extra payload bs) [
    | none ↦ none
    | some cp ↦ if is_ill_formed (extra + 1) cp then none else some (cp, extra + 1)
  ]
]

unfoldable pub decode_at : List ℕ → ℕ → Option (ℕ × ℕ)
unfolding decode
decode_at text offset = decode (drop offset text)
