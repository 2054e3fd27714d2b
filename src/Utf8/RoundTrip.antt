-- ===== src/Utf8/RoundTrip.antt =====
-- Encoding and decoding are inverse to one another (core/utf8.c).
use retrodesk.Prelude.{
  ℕ, suc, ◌+◌, ◌*◌, ◌/◌, ◌%◌, ◌≤◌, ◌<◌, ◌≡◌, refl, ap, some, true, false, List, ◌∷◌, ◌++◌, leb,
  length, arith, if_either, ◌∙◌,
}
use retrodesk.Utf8.Codec.{
  is_continuation, is_scalar, bytes_of, lead, collect, is_ill_formed, decode,
}

-- The first step of the decoder, its second, and its verdict together.
decode-of :
    (b p e cp : ℕ) (bs : List ℕ)
    → lead b ≡ some (p, e)
    → collect e p bs ≡ some cp
    → is_ill_formed (e + 1) cp ≡ false
    → decode (b ∷ bs) ≡ some (cp, e + 1)
unfolding decode
decode-of b p e cp bs hl hc hi = rw (hl, decode) (rw (hc, decode) (rw hi))

lead-one : (b : ℕ) → b ≤ 0x7F → lead b ≡ some (b, 0)
unfolding lead
lead-one b h = ground arith

lead-two : (x : ℕ) → 2 ≤ x → x < 32 → lead (0xC0 + x) ≡ some (x, 1)
unfolding lead
lead-two x h k = ground arith

lead-three : (x : ℕ) → x < 16 → lead (0xE0 + x) ≡ some (x, 2)
unfolding lead
lead-three x h = ground arith

lead-four : (x : ℕ) → x ≤ 4 → lead (0xF0 + x) ≡ some (x, 3)
unfolding lead
lead-four x h = ground arith

-- One continuation byte more.
collect-suc :
    (n cp x : ℕ) (bs : List ℕ)
    → x < 64
    → collect (suc n) cp ((0x80 + x) ∷ bs) ≡ collect n (cp * 64 + x) bs
unfolding collect
collect-suc n cp x bs h =
    let e : (0x80 + x) % 64 ≡ x = omega arith in
    let c : is_continuation (0x80 + x) ≡ true = unfold is_continuation in ground arith in rw (c, e)

collect-zero : (cp : ℕ) (bs : List ℕ) → collect 0 cp bs ≡ some cp
unfolding collect
collect-zero cp bs = refl

well_formed :
    (n cp : ℕ)
    → is_scalar cp ≡ true
    → (n ≡ 2 → 0x80 ≤ cp)
    → (n ≡ 3 → 0x800 ≤ cp)
    → (n ≡ 4 → 0x10000 ≤ cp)
    → is_ill_formed n cp ≡ false
unfolding is_ill_formed
well_formed n cp h a b c = ground arith

pub scalar-le : (cp : ℕ) → is_scalar cp ≡ true → cp ≤ 0x10FFFF
unfolding is_scalar
scalar-le cp h = ground arith

decode-two :
    (cp : ℕ) (rest : List ℕ)
    → is_scalar cp ≡ true
    → 0x80 ≤ cp
    → cp ≤ 0x7FF
    → decode ((0xC0 + cp / 64) ∷ (0x80 + cp % 64) ∷ rest) ≡ some (cp, 2)
decode-two cp rest h lo hi =
    let sum : cp / 64 * 64 + cp % 64 ≡ cp = omega arith in
    decode-of (0xC0 + cp / 64) (cp / 64) 1 cp _ (lead-two (cp / 64) (omega arith) (omega arith))
      (collect-suc 0 (cp / 64) (cp % 64) rest (omega arith) ∙ collect-zero _ rest ∙ ap some sum)
      (well_formed 2 cp h (λ _. lo) (λ e. absurd (omega arith)) (λ e. absurd (omega arith)))

decode-three :
    (cp : ℕ) (rest : List ℕ)
    → is_scalar cp ≡ true
    → 0x800 ≤ cp
    → cp ≤ 0xFFFF
    → decode ((0xE0 + cp / 4096) ∷ (0x80 + cp / 64 % 64) ∷ (0x80 + cp % 64) ∷ rest) ≡ some (cp, 3)
decode-three cp rest h lo hi =
    let sum : (cp / 4096 * 64 + cp / 64 % 64) * 64 + cp % 64 ≡ cp = omega arith in
    decode-of (0xE0 + cp / 4096) (cp / 4096) 2 cp _ (lead-three (cp / 4096) (omega arith))
      (collect-suc 1 (cp / 4096) (cp / 64 % 64) _ (omega arith)
        ∙ collect-suc 0 _ (cp % 64) rest (omega arith)
        ∙ collect-zero _ rest
        ∙ ap some sum)
      (well_formed 3 cp h (λ e. absurd (omega arith)) (λ _. lo) (λ e. absurd (omega arith)))

decode-four :
    (cp : ℕ) (rest : List ℕ)
    → is_scalar cp ≡ true
    → 0x10000 ≤ cp
    → decode (
        (0xF0 + cp / 262144)
        ∷ (0x80 + cp / 4096 % 64)
        ∷ (0x80 + cp / 64 % 64)
        ∷ (0x80 + cp % 64)
        ∷ rest)
      ≡ some (cp, 4)
decode-four cp rest h lo =
    let top = scalar-le cp h in
    let sum : ((cp / 262144 * 64 + cp / 4096 % 64) * 64 + cp / 64 % 64) * 64 + cp % 64 ≡ cp =
      omega arith in
    decode-of (0xF0 + cp / 262144) (cp / 262144) 3 cp _ (lead-four (cp / 262144) (omega arith))
      (collect-suc 2 (cp / 262144) (cp / 4096 % 64) _ (omega arith)
        ∙ collect-suc 1 _ (cp / 64 % 64) _ (omega arith)
        ∙ collect-suc 0 _ (cp % 64) rest (omega arith)
        ∙ collect-zero _ rest
        ∙ ap some sum)
      (well_formed 4 cp h (λ e. absurd (omega arith)) (λ e. absurd (omega arith)) (λ _. lo))

-- Decoding what was encoded gives the code point and its length, whatever bytes follow.
pub decode-bytes_of :
    (cp : ℕ) (rest : List ℕ)
    → is_scalar cp ≡ true
    → decode (bytes_of cp ++ rest) ≡ some (cp, length (bytes_of cp))
unfolding bytes_of
decode-bytes_of cp rest h =
    if_either P (leb cp 0x7F)
      (λ one. decode-of cp cp 0 cp rest (lead-one cp (ground arith)) (collect-zero cp rest) (
        well_formed 1 cp h (λ e. absurd (omega arith)) (λ e. absurd (omega arith))
          (λ e. absurd (omega arith))))
      (λ a.
        if_either P (leb cp 0x7FF) (λ two. decode-two cp rest h (ground arith) (ground arith))
          (λ b.
            if_either P (leb cp 0xFFFF)
              (λ three. decode-three cp rest h (ground arith) (ground arith))
              (λ c. decode-four cp rest h (ground arith))))
  where
    P : List ℕ → Type 0
    P bs = decode (bs ++ rest) ≡ some (cp, length bs)
