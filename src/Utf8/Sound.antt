-- ===== src/Utf8/Sound.antt =====
-- What core/utf8.c decodes is the encoding of the code point that it returns: no other byte
-- sequence is accepted for it.
use retrodesk.Prelude.{
  ℕ, suc, ◌+◌, ◌*◌, ◌%◌, ◌≤◌, ◌<◌, ◌≡◌, refl, sym, ap, ◌∙◌, none, some, true, false, List, [], ◌∷◌,
  ◌++◌, drop, length, Bool-cases, Option-cases, ◌⊎◌, inl, inr, arith,
}
use retrodesk.Utf8.Codec.{
  is_continuation, is_scalar, bytes_of, lead, collect, is_ill_formed, decode,
}

lead-cases :
    (b p e : ℕ)
    → lead b ≡ some (p, e)
    → ((e ≡ 0) × (p ≡ b) × (b ≤ 0x7F))
      ⊎ ((e ≡ 1) × (b ≡ 0xC0 + p) × (2 ≤ p) × (p < 32))
      ⊎ ((e ≡ 2) × (b ≡ 0xE0 + p) × (p < 16))
      ⊎ ((e ≡ 3) × (b ≡ 0xF0 + p) × (p ≤ 4))
unfolding lead
lead-cases b p e h = ground arith

collect-cases :
    (n p cp : ℕ) (bs : List ℕ)
    → collect (suc n) p bs ≡ some cp
    → (x : ℕ) × (rest : List ℕ) × (bs ≡ (0x80 + x) ∷ rest)
      × (x < 64)
      × (collect n (p * 64 + x) rest ≡ some cp)
unfolding collect
collect-cases n p cp [] h = absurd (cc h)
collect-cases n p cp (b ∷ bs) h = elim (Bool-cases (is_continuation b)) [
  | inl ok ↦
      let range : (128 ≤ b) × (b < 192) = unfold is_continuation in ground arith in
      (b % 64, bs, ap (λ c. c ∷ bs) (omega arith), omega arith, ground arith)
  | inr bad ↦ absurd (ground arith)
]

-- How `bs` begins where decoding succeeds.
abbrev pub Decoded : List ℕ → ℕ → ℕ → Type 0
Decoded bs cp n =
    (is_scalar cp ≡ true) × (n ≡ length (bytes_of cp)) × (bs ≡ bytes_of cp ++ drop n bs)

ill-cases :
    (n cp : ℕ)
    → is_ill_formed n cp ≡ false
    → (is_scalar cp ≡ true) × (n ≡ 2 → 0x80 ≤ cp) × (n ≡ 3 → 0x800 ≤ cp) × (n ≡ 4 → 0x10000 ≤ cp)
unfolding is_ill_formed
ill-cases n cp h = ground arith

Decoded-one : (cp : ℕ) (bs : List ℕ) → cp ≤ 0x7F → is_scalar cp ≡ true → Decoded (cp ∷ bs) cp 1
unfolding bytes_of
Decoded-one cp bs h s = ground arith

Decoded-two :
    (p x : ℕ) (bs : List ℕ)
    → p < 32
    → x < 64
    → is_scalar (p * 64 + x) ≡ true
    → 0x80 ≤ p * 64 + x
    → Decoded ((0xC0 + p) ∷ (0x80 + x) ∷ bs) (p * 64 + x) 2
unfolding bytes_of
Decoded-two p x bs hp hx s lo = ground arith

Decoded-three :
    (p x y : ℕ) (bs : List ℕ)
    → p < 16
    → x < 64
    → y < 64
    → is_scalar ((p * 64 + x) * 64 + y) ≡ true
    → 0x800 ≤ (p * 64 + x) * 64 + y
    → Decoded ((0xE0 + p) ∷ (0x80 + x) ∷ (0x80 + y) ∷ bs) ((p * 64 + x) * 64 + y) 3
unfolding bytes_of
Decoded-three p x y bs hp hx hy s lo = ground arith

Decoded-four :
    (p x y z : ℕ) (bs : List ℕ)
    → p ≤ 4
    → x < 64
    → y < 64
    → z < 64
    → is_scalar (((p * 64 + x) * 64 + y) * 64 + z) ≡ true
    → 0x10000 ≤ ((p * 64 + x) * 64 + y) * 64 + z
    → Decoded
        ((0xF0 + p) ∷ (0x80 + x) ∷ (0x80 + y) ∷ (0x80 + z) ∷ bs)
        (((p * 64 + x) * 64 + y) * 64 + z)
        4
unfolding bytes_of
Decoded-four p x y z bs hp hx hy hz s lo = ground arith

-- The three parts of a successful decoding.
decode-parts :
    (b cp n : ℕ) (bs : List ℕ)
    → decode (b ∷ bs) ≡ some (cp, n)
    → (p e : ℕ) × (lead b ≡ some (p, e))
      × (collect e p bs ≡ some cp)
      × (is_ill_formed (e + 1) cp ≡ false)
      × (n ≡ e + 1)
unfolding decode
decode-parts b cp n bs h = elim (Option-cases (lead b)) [
  | inl none_lead ↦ absurd (ground arith)
  | inr ((p, e), hl) ↦ elim (Option-cases (collect e p bs)) [
    | inl none_rest ↦ absurd (ground arith)
    | inr (c, hc) ↦ elim (Bool-cases (is_ill_formed (e + 1) c)) [
      | inl bad ↦ absurd (ground arith)
      | inr good ↦
          let same : c ≡ cp = ground arith in
          (p, e, hl, hc ∙ ap some same, ap (is_ill_formed (e + 1)) (sym same) ∙ good, ground arith)
    ]
  ]
]

collect-done : (p cp : ℕ) (bs : List ℕ) → collect 0 p bs ≡ some cp → cp ≡ p
unfolding collect
collect-done p cp bs h = ground arith

Decoded-collect_two :
    (b p cp : ℕ) (bs : List ℕ)
    → b ≡ 0xC0 + p
    → p < 32
    → collect 1 p bs ≡ some cp
    → is_ill_formed 2 cp ≡ false
    → Decoded (b ∷ bs) cp 2
Decoded-collect_two b p cp bs hb hp hc good =
    let (x, rest, ebs, hx, done) = collect-cases 0 p cp bs hc in
    let value = collect-done (p * 64 + x) cp rest done in
    let (s, lo, _, _) = ill-cases 2 cp good in
    rw (hb, ebs, value) (Decoded-two p x rest hp hx (rw value at s) (rw value at (lo refl)))

Decoded-collect_three :
    (b p cp : ℕ) (bs : List ℕ)
    → b ≡ 0xE0 + p
    → p < 16
    → collect 2 p bs ≡ some cp
    → is_ill_formed 3 cp ≡ false
    → Decoded (b ∷ bs) cp 3
Decoded-collect_three b p cp bs hb hp hc good =
    let (x, rest, ebs, hx, more) = collect-cases 1 p cp bs hc in
    let (y, rest', erest, hy, done) = collect-cases 0 (p * 64 + x) cp rest more in
    let value = collect-done ((p * 64 + x) * 64 + y) cp rest' done in
    let (s, _, lo, _) = ill-cases 3 cp good in
    rw (hb, ebs, erest, value)
      (Decoded-three p x y rest' hp hx hy (rw value at s) (rw value at (lo refl)))

Decoded-collect_four :
    (b p cp : ℕ) (bs : List ℕ)
    → b ≡ 0xF0 + p
    → p ≤ 4
    → collect 3 p bs ≡ some cp
    → is_ill_formed 4 cp ≡ false
    → Decoded (b ∷ bs) cp 4
Decoded-collect_four b p cp bs hb hp hc good =
    let (x, rest, ebs, hx, more) = collect-cases 2 p cp bs hc in
    let (y, rest', erest, hy, more') = collect-cases 1 (p * 64 + x) cp rest more in
    let (z, rest'', erest', hz, done) = collect-cases 0 ((p * 64 + x) * 64 + y) cp rest' more' in
    let value = collect-done (((p * 64 + x) * 64 + y) * 64 + z) cp rest'' done in
    let (s, _, _, lo) = ill-cases 4 cp good in
    rw (hb, ebs, erest, erest', value)
      (Decoded-four p x y z rest'' hp hx hy hz (rw value at s) (rw value at (lo refl)))

Decoded-collect_one :
    (b p cp : ℕ) (bs : List ℕ)
    → p ≡ b
    → b ≤ 0x7F
    → collect 0 p bs ≡ some cp
    → is_ill_formed 1 cp ≡ false
    → Decoded (b ∷ bs) cp 1
Decoded-collect_one b p cp bs ep small hc good =
    let value : cp ≡ b = collect-done p cp bs hc ∙ ep in
    rw value (Decoded-one b bs small (rw value at ((ill-cases 1 cp good).0)))

by_lead :
    (b p e cp : ℕ) (bs : List ℕ)
    → ((e ≡ 0) × (p ≡ b) × (b ≤ 0x7F))
      ⊎ ((e ≡ 1) × (b ≡ 0xC0 + p) × (2 ≤ p) × (p < 32))
      ⊎ ((e ≡ 2) × (b ≡ 0xE0 + p) × (p < 16))
      ⊎ ((e ≡ 3) × (b ≡ 0xF0 + p) × (p ≤ 4))
    → collect e p bs ≡ some cp
    → is_ill_formed (e + 1) cp ≡ false
    → Decoded (b ∷ bs) cp (e + 1)
by_lead b p e cp bs (inl (k, ep, small)) hc hi =
    rw k (Decoded-collect_one b p cp bs ep small (rw k at hc) (rw k at hi))
by_lead b p e cp bs (inr (inl (k, eb, lo, hi'))) hc hi =
    rw k (Decoded-collect_two b p cp bs eb hi' (rw k at hc) (rw k at hi))
by_lead b p e cp bs (inr (inr (inl (k, eb, hi')))) hc hi =
    rw k (Decoded-collect_three b p cp bs eb hi' (rw k at hc) (rw k at hi))
by_lead b p e cp bs (inr (inr (inr (k, eb, hi')))) hc hi =
    rw k (Decoded-collect_four b p cp bs eb hi' (rw k at hc) (rw k at hi))

decode-nil : decode [] ≡ none
unfolding decode
decode-nil = refl

-- Where decoding succeeds, the text begins with the encoding of the code point that it gives, and
-- the length that it gives is that of this encoding.
pub decode-Decoded : (bs : List ℕ) (cp n : ℕ) → decode bs ≡ some (cp, n) → Decoded bs cp n
decode-Decoded [] cp n h = absurd (cc decode-nil)
decode-Decoded (b ∷ bs) cp n h =
    let (p, e, hl, hc, hi, hn) = decode-parts b cp n bs h in
    rw hn (by_lead b p e cp bs (lead-cases b p e hl) hc hi)
