-- ===== src/Utf8/Prefix.antt =====
-- `retro_utf8_valid_prefix` of core/utf8.c on a valid text: the longest prefix of whole characters
-- within the limit.
use Prim.Native.Nat.{min}
use native.Mathlib.Decide.{dec_le}
use mathlib.Core.List.{append_assoc}
use retrodesk.Prelude.{
  ℕ, zero, suc, ◌+◌, ◌-◌, ◌≤◌, ◌<◌, ◌≡◌, refl, sym, ap, ◌∙◌, none, some, true, List, [], ◌∷◌, ◌++◌,
  drop, take, length, length-append, length-take, take-append-drop, Option-cases, inl, inr, arith,
}
use retrodesk.Utf8.Codec.{is_scalar, bytes_of, decode}
use retrodesk.Utf8.Scan.{valid_prefix_loop, valid_prefix}
use retrodesk.Utf8.RoundTrip.{decode-bytes_of}
use retrodesk.Utf8.Sound.{decode-Decoded}
use retrodesk.Utf8.Text.{encode_all, AllScalar, bytes_of-IsEncoding, bytes_of-pos, drop-append}

take-le-append {ℓ} :
    {A : Type ℓ} (n : ℕ) (xs ys : List A)
    → length xs ≤ n
    → take n (xs ++ ys) ≡ xs ++ take (n - length xs) ys
take-le-append n [] ys h = ap (λ k. take k ys) (omega arith)
take-le-append zero (x ∷ xs) ys h = absurd (omega arith)
take-le-append (suc n) (x ∷ xs) ys h =
    ap (x ∷◌) (take-le-append n xs ys (omega arith) ∙ ap (λ k. xs ++ take k ys) (omega arith))

-- A character that does not fit whole is not decoded from its first bytes.
decode-cut :
    (cp k : ℕ) (rest : List ℕ)
    → is_scalar cp ≡ true
    → k < length (bytes_of cp)
    → decode (take k (bytes_of cp ++ rest)) ≡ none
decode-cut cp k rest s short = elim (Option-cases (decode (take k (bytes_of cp ++ rest)))) [
  | inl e ↦ e
  | inr ((c, n), e) ↦
      let whole = bytes_of cp ++ rest in
      let (sc, _, split) = decode-Decoded (take k whole) c n e in
      let again : bytes_of c ++ (drop n (take k whole) ++ drop k whole) ≡ whole =
        sym (append_assoc (bytes_of c) (drop n (take k whole)) (drop k whole))
        ∙ ap (λ ys. ys ++ drop k whole) (sym split)
        ∙ take-append-drop k whole in
      let first : decode whole ≡ some (c, length (bytes_of c)) =
        ap decode (sym again) ∙ decode-bytes_of c (drop n (take k whole) ++ drop k whole) sc in
      let second : decode whole ≡ some (cp, length (bytes_of cp)) = decode-bytes_of cp rest s in
      let same : length (bytes_of c) ≡ length (bytes_of cp) = cc in
      absurd (
        omega (
          arith,
          same,
          ap length split,
          length-append {0} (bytes_of c) (drop n (take k whole)),
          length-take {0} k whole,
        ))
]

-- What the scan of a text for a limit finds.
pub record IsLongest (cps : List ℕ) (room found : ℕ) : Type 0 where
  pub kept : List ℕ
  pub cut : List ℕ
  pub split : cps ≡ kept ++ cut
  pub size : found ≡ length (encode_all kept)
  pub fits : found ≤ room
  pub longest : (cp : ℕ) (rest : List ℕ) → cut ≡ cp ∷ rest → room < found + length (bytes_of cp)

prefix_one :
    (fuel room cp : ℕ) (ys rest : List ℕ)
    → 0 < length ys
    → decode (take (min 4 room) (ys ++ rest)) ≡ some (cp, length ys)
    → valid_prefix_loop (suc fuel) room (ys ++ rest)
      ≡ length ys + valid_prefix_loop fuel (room - length ys) rest
unfolding valid_prefix_loop
prefix_one fuel room cp [] rest h e = absurd (omega arith)
prefix_one fuel room cp (y ∷ ys) rest h e =
    rw (e, valid_prefix_loop)
      (ap (λ bs. suc (length ys) + valid_prefix_loop fuel (room - suc (length ys)) bs)
        (drop-append (y ∷ ys) rest))

prefix_stop :
    (fuel room : ℕ) (ys rest : List ℕ)
    → 0 < length ys
    → decode (take (min 4 room) (ys ++ rest)) ≡ none
    → valid_prefix_loop (suc fuel) room (ys ++ rest) ≡ 0
unfolding valid_prefix_loop
prefix_stop fuel room [] rest h e = absurd (omega arith)
prefix_stop fuel room (y ∷ ys) rest h e = rw (e, valid_prefix_loop)

prefix_nil : (fuel room : ℕ) → valid_prefix_loop fuel room [] ≡ 0
unfolding valid_prefix_loop
prefix_nil zero room = refl
prefix_nil (suc fuel) room = refl

bytes_of-le : (cp : ℕ) → is_scalar cp ≡ true → length (bytes_of cp) ≤ 4
bytes_of-le cp s = let e = bytes_of-IsEncoding cp s in omega (arith, ap length e.split, e.short)

encode_all-cons : (cp : ℕ) (cps : List ℕ) → encode_all (cp ∷ cps) ≡ bytes_of cp ++ encode_all cps
unfolding encode_all
encode_all-cons cp cps = refl

valid_prefix_loop-IsLongest :
    (fuel room : ℕ) (cps : List ℕ)
    → AllScalar cps
    → length (encode_all cps) ≤ fuel
    → IsLongest cps room (valid_prefix_loop fuel room (encode_all cps))
unfolding encode_all
valid_prefix_loop-IsLongest fuel room [] s h = rw (prefix_nil fuel room) (record {
  kept = [];
  cut = [];
  split = refl;
  size = refl;
  fits = omega arith;
  longest = λ cp rest e. cc;
})
valid_prefix_loop-IsLongest zero room (cp ∷ cps) s h =
    absurd (omega (arith, bytes_of-pos cp s.0, length-append {0} (bytes_of cp) (encode_all cps)))
valid_prefix_loop-IsLongest (suc fuel) room (cp ∷ cps) s h = elim (dec_le wide room) [
  | yes fits ↦
      let window : take (min 4 room) (bytes_of cp ++ encode_all cps)
          ≡ bytes_of cp ++ take (min 4 room - wide) (encode_all cps) =
        take-le-append (min 4 room) (bytes_of cp) (encode_all cps)
          (omega (arith, bytes_of-le cp s.0)) in
      let step =
        prefix_one fuel room cp (bytes_of cp) (encode_all cps) (bytes_of-pos cp s.0)
          (ap decode window ∙ decode-bytes_of cp _ s.0) in
      let rest =
        valid_prefix_loop-IsLongest fuel (room - wide) cps s.1
          (omega (arith, bytes_of-pos cp s.0, length-append {0} (bytes_of cp) (encode_all cps))) in
      rw step (extend rest fits)
  | no cut ↦
      let stop =
        prefix_stop fuel room (bytes_of cp) (encode_all cps) (bytes_of-pos cp s.0)
          (decode-cut cp (min 4 room) (encode_all cps) s.0 (omega arith)) in
      rw stop (record {
        kept = [];
        cut = cp ∷ cps;
        split = refl;
        size = refl;
        fits = omega arith;
        longest = λ c r e. let same : cp ≡ c = cc in rw (← same) (omega arith);
      })
]
  where
    wide : ℕ
    wide = length (bytes_of cp)

    extend :
        IsLongest cps (room - wide) (valid_prefix_loop fuel (room - wide) (encode_all cps))
        → wide ≤ room
        → IsLongest (cp ∷ cps) room (wide + valid_prefix_loop fuel (room - wide) (encode_all cps))
    extend r fits = record {
      kept = cp ∷ r.kept;
      cut = r.cut;
      split = ap (cp ∷◌) r.split;
      size = omega (arith, r.size, length-append {0} (bytes_of cp) (encode_all r.kept));
      fits = omega (arith, r.fits);
      longest = λ c rest e. omega (arith, r.longest c rest e);
    }

-- On a valid text, `retro_utf8_valid_prefix` gives the size of the longest prefix of whole
-- characters that fits into the limit: one more character, if there is one, would not fit.
pub valid_prefix-IsLongest :
    (cps : List ℕ) (room : ℕ)
    → AllScalar cps
    → IsLongest cps room (valid_prefix (encode_all cps) room)
unfolding valid_prefix
valid_prefix-IsLongest cps room s =
    valid_prefix_loop-IsLongest (length (encode_all cps)) room cps s (omega arith)
