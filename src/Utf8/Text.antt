-- ===== src/Utf8/Text.antt =====
-- Valid texts: the encodings of lists of code points, and the scans of core/utf8.c over them.
use mathlib.Core.List.{append_assoc}
use retrodesk.Prelude.{
  ℕ, zero, suc, ◌+◌, ◌≤◌, ◌<◌, ◌≡◌, refl, sym, ap, ◌∙◌, some, true, false, List, [], ◌∷◌, ◌++◌,
  drop, length, length-append, get_or, Option-cases, ◌↔◌, inl, inr, arith, if_either, ◌/◌, ◌%◌, leb,
  All,
}
use retrodesk.Utf8.Codec.{is_continuation, is_scalar, bytes_of, decode, decode_at}
use retrodesk.Utf8.Scan.{validate_loop, validate, prev_from, prev, next}
use retrodesk.Utf8.RoundTrip.{decode-bytes_of}
use retrodesk.Utf8.Sound.{decode-Decoded}

-- The UTF-8 text of a list of code points.
unfoldable pub encode_all : List ℕ → List ℕ
encode_all [] = []
encode_all (cp ∷ cps) = bytes_of cp ++ encode_all cps

abbrev pub AllScalar : List ℕ → Type 0
AllScalar = All λ cp. is_scalar cp ≡ true

pub encode_all-append : (xs ys : List ℕ) → encode_all (xs ++ ys) ≡ encode_all xs ++ encode_all ys
unfolding encode_all
encode_all-append [] ys = refl
encode_all-append (x ∷ xs) ys =
    ap (bytes_of x ++◌) (encode_all-append xs ys) ∙ sym (append_assoc (bytes_of x) _ _)

pub drop-append {ℓ} : {A : Type ℓ} (xs ys : List A) → drop (length xs) (xs ++ ys) ≡ ys
drop-append [] ys = refl
drop-append (x ∷ xs) ys = drop-append xs ys

-- A leading byte, and then continuation bytes alone.
pub record IsEncoding (ys : List ℕ) : Type 0 where
  pub head : ℕ
  pub rest : List ℕ
  pub split : ys ≡ head ∷ rest
  pub leads : is_continuation head ≡ false
  pub follow : All (λ b. is_continuation b ≡ true) rest
  pub short : length rest ≤ 3

pub bytes_of-IsEncoding : (cp : ℕ) → is_scalar cp ≡ true → IsEncoding (bytes_of cp)
unfolding bytes_of is_continuation
bytes_of-IsEncoding cp s =
    if_either IsEncoding (leb cp 0x7F)
      (λ h. record {
        head = cp;
        rest = [];
        split = refl;
        leads = ground arith;
        follow = tt;
        short = omega arith;
      })
      (λ h.
        if_either IsEncoding (leb cp 0x7FF)
          (λ k. record {
            head = 0xC0 + cp / 64;
            rest = (0x80 + cp % 64) ∷ [];
            split = refl;
            leads = ground arith;
            follow = (ground arith, tt);
            short = omega arith;
          })
          (λ k.
            if_either IsEncoding (leb cp 0xFFFF)
              (λ l. record {
                head = 0xE0 + cp / 4096;
                rest = (0x80 + cp / 64 % 64) ∷ (0x80 + cp % 64) ∷ [];
                split = refl;
                leads = ground arith;
                follow = (ground arith, (ground arith, tt));
                short = omega arith;
              })
              (λ l. record {
                head = 0xF0 + cp / 262144;
                rest = (0x80 + cp / 4096 % 64) ∷ (0x80 + cp / 64 % 64) ∷ (0x80 + cp % 64) ∷ [];
                split = refl;
                leads = ground arith;
                follow = (ground arith, (ground arith, (ground arith, tt)));
                short = omega arith;
              })))

pub bytes_of-pos : (cp : ℕ) → is_scalar cp ≡ true → 0 < length (bytes_of cp)
bytes_of-pos cp s = let e = bytes_of-IsEncoding cp s in rw (e.split) (omega arith)

validate_one :
    (fuel cp : ℕ) (ys rest : List ℕ)
    → 0 < length ys
    → decode (ys ++ rest) ≡ some (cp, length ys)
    → validate_loop (suc fuel) (ys ++ rest) ≡ validate_loop fuel rest
unfolding validate_loop
validate_one fuel cp [] rest h e = absurd (omega arith)
validate_one fuel cp (y ∷ ys) rest h e =
    rw (e, validate_loop) (ap (validate_loop fuel) (drop-append (y ∷ ys) rest))

validate_loop-encode_all :
    (fuel : ℕ) (cps : List ℕ)
    → AllScalar cps
    → length (encode_all cps) ≤ fuel
    → validate_loop fuel (encode_all cps) ≡ true
unfolding encode_all
validate_loop-encode_all zero [] s h = unfold validate_loop in refl
validate_loop-encode_all (suc fuel) [] s h = unfold validate_loop in refl
validate_loop-encode_all zero (cp ∷ cps) s h =
    absurd (omega (arith, bytes_of-pos cp s.0, length-append {0} (bytes_of cp) (encode_all cps)))
validate_loop-encode_all (suc fuel) (cp ∷ cps) s h =
    validate_one fuel cp (bytes_of cp) (encode_all cps) (bytes_of-pos cp s.0)
      (decode-bytes_of cp (encode_all cps) s.0)
    ∙ validate_loop-encode_all fuel cps s.1
        (omega (arith, bytes_of-pos cp s.0, length-append {0} (bytes_of cp) (encode_all cps)))

validate_loop_sound :
    (fuel : ℕ) (text : List ℕ)
    → validate_loop fuel text ≡ true
    → (cps : List ℕ) × AllScalar cps × (text ≡ encode_all cps)
unfolding validate_loop encode_all
validate_loop_sound fuel [] h = ([], tt, refl)
validate_loop_sound zero (b ∷ bs) h = absurd (cc h)
validate_loop_sound (suc fuel) (b ∷ bs) h = elim (Option-cases (decode (b ∷ bs))) [
  | inl e ↦ absurd (ground arith)
  | inr ((cp, n), e) ↦
      let (s, _, split) = decode-Decoded (b ∷ bs) cp n e in
      let (cps, rest, same) =
        validate_loop_sound fuel (drop n (b ∷ bs)) (rw (e, validate_loop) at h) in
      (cp ∷ cps, (s, rest), split ∙ ap (bytes_of cp ++◌) same)
]

-- `retro_utf8_validate` accepts exactly the encodings of lists of code points.
pub validate-encode_all :
    (text : List ℕ)
    → (validate text ≡ true) ↔ ((cps : List ℕ) × AllScalar cps × (text ≡ encode_all cps))
unfolding validate
validate-encode_all text = (
  validate_loop_sound (length text) text,
  λ (cps, s, e). rw e (validate_loop-encode_all (length (encode_all cps)) cps s (omega arith)),
)

get_or-append :
    (xs ys : List ℕ) (pos k d : ℕ) → pos ≡ length xs + k → get_or (xs ++ ys) pos d ≡ get_or ys k d
get_or-append [] ys pos k d e = ap (λ i. get_or ys i d) (omega arith)
get_or-append (x ∷ xs) ys zero k d e = absurd (omega arith)
get_or-append (x ∷ xs) ys (suc pos) k d e = get_or-append xs ys pos k d (omega arith)

get_or-continuation :
    (rest after : List ℕ) (k : ℕ)
    → All (λ c. is_continuation c ≡ true) rest
    → k < length rest
    → is_continuation (get_or (rest ++ after) k 0) ≡ true
get_or-continuation [] after k h l = absurd (omega arith)
get_or-continuation (c ∷ rest) after zero h l = h.0
get_or-continuation (c ∷ rest) after (suc k) h l =
    get_or-continuation rest after k h.1 (omega arith)

-- From inside an encoding the walk back ends at its leading byte.
module _ (before rest after : List ℕ) (b : ℕ) (leads : is_continuation b ≡ false)
    (follow : All (λ c. is_continuation c ≡ true) rest) where
  prev_from-inside :
      (pos k : ℕ)
      → pos ≡ length before + k
      → k ≤ length rest
      → prev_from (before ++ ((b ∷ rest) ++ after)) pos ≡ length before
  unfolding prev_from
  prev_from-inside zero k e h = omega arith
  prev_from-inside (suc pos) zero e h =
      rw (get_or-append before (b ∷ (rest ++ after)) (suc pos) 0 0 e) (rw leads (omega arith))
  prev_from-inside (suc pos) (suc k) e h =
      rw (get_or-append before (b ∷ (rest ++ after)) (suc pos) (suc k) 0 e) (
        rw (get_or-continuation rest after k follow (omega arith))
          (prev_from-inside pos k (omega arith) (omega arith)))

-- `retro_utf8_prev` behind the encoding of a code point goes back to where it begins.
pub prev-bytes_of :
    (before after : List ℕ) (cp : ℕ)
    → is_scalar cp ≡ true
    → prev (before ++ (bytes_of cp ++ after)) (length (before ++ bytes_of cp)) ≡ length before
unfolding prev
prev-bytes_of before after cp s =
    let e = bytes_of-IsEncoding cp s in
    let len : length (before ++ e.head ∷ e.rest) ≡ suc (length before + length e.rest) =
      omega (arith, length-append {0} before (e.head ∷ e.rest)) in
    rw (e.split) (
      rw len (
        prev_from-inside before e.rest after e.head e.leads e.follow _ (length e.rest) refl
          (omega arith)))

-- `retro_utf8_next` before the encoding of a code point goes to where it ends.
pub next-bytes_of :
    (before after : List ℕ) (cp : ℕ)
    → is_scalar cp ≡ true
    → next (before ++ (bytes_of cp ++ after)) (length before) ≡ length (before ++ bytes_of cp)
unfolding next decode_at
next-bytes_of before after cp s =
    let inside : leb (length (before ++ (bytes_of cp ++ after))) (length before) ≡ false = ground (
      arith,
      bytes_of-pos cp s,
      length-append before (bytes_of cp ++ after),
      length-append (bytes_of cp) after,
    ) in
    rw inside (
      rw (drop-append before (bytes_of cp ++ after))
        (rw (decode-bytes_of cp after s) (omega (arith, length-append {0} before (bytes_of cp)))))
