-- ===== src/Utf8/Columns.antt =====
-- `retro_utf8_columns` and `retro_utf8_prefix_bytes` of core/utf8.c on a valid text.
use Prim.Native.Nat.{min}
use mathlib.Core.List.{append_assoc}
use retrodesk.Prelude.{
  ℕ, zero, suc, ◌+◌, ◌-◌, ◌≤◌, ◌<◌, ◌≡◌, refl, sym, ap, ◌∙◌, true, false, List, [], ◌∷◌, ◌++◌, drop,
  length, length-append, arith, ltb, leb, if◌then◌else◌, Bool-cases, inl, inr,
}
use retrodesk.Utf8.Codec.{bytes_of, decode}
use retrodesk.Utf8.Scan.{
  width, glyph, prefix_loop, prefix_bytes, glyph_within, columns_loop, columns,
}
use retrodesk.Utf8.RoundTrip.{decode-bytes_of}
use retrodesk.Utf8.Text.{encode_all, AllScalar, bytes_of-pos, drop-append}

-- The terminal columns of a row of code points.
unfoldable pub widths : List ℕ → ℕ
widths [] = 0
widths (c ∷ cs) = width c + widths cs

-- How many characters fit into `n` columns: those, and the others.
unfoldable pub fitting : ℕ → List ℕ → List ℕ × List ℕ
fitting n [] = ([], [])
fitting n (c ∷ cs) =
    let further = fitting (n - width c) cs in
    if leb (width c) n then (c ∷ further.0, further.1) else ([], c ∷ cs)

pub fitting-split : (n : ℕ) (cs : List ℕ) → (fitting n cs).0 ++ (fitting n cs).1 ≡ cs
unfolding fitting
fitting-split n [] = refl
fitting-split n (c ∷ cs) = elim (Bool-cases (leb (width c) n)) [
  | inl e ↦ rw e (ap (c ∷◌) (fitting-split (n - width c) cs))
  | inr e ↦ rw e refl
]

columns_loop-widths :
    (fuel room : ℕ) (cps ys : List ℕ)
    → AllScalar cps
    → room ≡ length (encode_all cps)
    → room ≤ fuel
    → columns_loop fuel room (encode_all cps ++ ys) ≡ widths cps
unfolding columns_loop widths encode_all
columns_loop-widths zero room [] ys s e f = refl
columns_loop-widths (suc fuel) zero [] ys s e f = refl
columns_loop-widths (suc fuel) (suc room) [] ys s e f = absurd (omega arith)
columns_loop-widths zero room (cp ∷ cps) ys s e f =
    absurd (omega (arith, bytes_of-pos cp s.0, length-append {0} (bytes_of cp) (encode_all cps)))
columns_loop-widths (suc fuel) zero (cp ∷ cps) ys s e f =
    absurd (omega (arith, bytes_of-pos cp s.0, length-append {0} (bytes_of cp) (encode_all cps)))
columns_loop-widths (suc fuel) (suc room) (cp ∷ cps) ys s e f =
    let pos = bytes_of-pos cp s.0 in
    let len = length-append {0} (bytes_of cp) (encode_all cps) in
    let shift = append_assoc (bytes_of cp) (encode_all cps) ys in
    let fits : ltb (suc room) (length (bytes_of cp)) ≡ false = ground (arith, len) in
    let g : glyph_within (suc room) (decode (bytes_of cp ++ (encode_all cps ++ ys)))
        ≡ (cp, length (bytes_of cp)) =
      unfold glyph_within in
      (ap (glyph_within (suc room)) (decode-bytes_of cp (encode_all cps ++ ys) s.0)
        ∙ rw fits refl) in
    rw (shift, g, drop-append (bytes_of cp) (encode_all cps ++ ys))
      (ap (width cp +◌) (
        columns_loop-widths fuel (suc room - length (bytes_of cp)) cps ys s.1 (omega (arith, len))
          (omega (arith, pos))))

-- The columns of the first characters of a valid text are the sum of their widths.
pub columns-widths :
    (cps ys : List ℕ)
    → AllScalar cps
    → columns (encode_all cps ++ ys) 0 (length (encode_all cps)) ≡ widths cps
unfolding columns
columns-widths cps ys s =
    let len = length-append {0} (encode_all cps) ys in
    let stop : min (length (encode_all cps)) (length (encode_all cps ++ ys))
        ≡ length (encode_all cps) =
      omega (arith, len) in
    let start : min 0 (length (encode_all cps)) ≡ 0 = omega arith in
    let inside : ltb (length (encode_all cps ++ ys)) 0 ≡ false = ground arith in
    rw (stop, start, inside) (columns_loop-widths _ _ cps ys s (omega arith) (omega arith))

module _ (n : ℕ) where
  prefix_loop-cons :
      (fuel : ℕ) (bs : List ℕ)
      → 0 < length bs
      → prefix_loop (suc fuel) n bs ≡ (
          if ltb n (width (glyph (decode bs)).0)
          then 0
          else (glyph (decode bs)).1
            + prefix_loop fuel (n - width (glyph (decode bs)).0) (drop (glyph (decode bs)).1 bs))
  unfolding prefix_loop
  prefix_loop-cons fuel [] h = absurd (omega arith)
  prefix_loop-cons fuel (b ∷ bs) h = refl

prefix_loop-fitting :
    (fuel n : ℕ) (cps : List ℕ)
    → AllScalar cps
    → length (encode_all cps) ≤ fuel
    → prefix_loop fuel n (encode_all cps) ≡ length (encode_all (fitting n cps).0)
unfolding encode_all fitting
prefix_loop-fitting fuel n [] s f = unfold prefix_loop in refl
prefix_loop-fitting zero n (cp ∷ cps) s f =
    absurd (omega (arith, bytes_of-pos cp s.0, length-append {0} (bytes_of cp) (encode_all cps)))
prefix_loop-fitting (suc fuel) n (cp ∷ cps) s f =
    let pos = bytes_of-pos cp s.0 in
    let len = length-append {0} (bytes_of cp) (encode_all cps) in
    let g : glyph (decode (bytes_of cp ++ encode_all cps)) ≡ (cp, length (bytes_of cp)) =
      unfold glyph in ap glyph (decode-bytes_of cp (encode_all cps) s.0) in
    let one = prefix_loop-cons n fuel (bytes_of cp ++ encode_all cps) (omega (arith, pos, len)) in
    let further = prefix_loop-fitting fuel (n - width cp) cps s.1 (omega (arith, pos, len)) in
    elim (Bool-cases (leb (width cp) n)) [
      | inl e ↦
          let e' : ltb n (width cp) ≡ false = ground arith in
          rw (one, g, e, e', drop-append (bytes_of cp) (encode_all cps), further)
            (sym (length-append (bytes_of cp) _))
      | inr e ↦ let e' : ltb n (width cp) ≡ true = ground arith in rw (one, g, e, e') refl
    ]

-- The bytes of the longest prefix of a valid text that fits into some columns are those of the
-- characters that fit.
pub prefix_bytes-fitting :
    (n : ℕ) (cps : List ℕ)
    → AllScalar cps
    → prefix_bytes (encode_all cps) n ≡ length (encode_all (fitting n cps).0)
unfolding prefix_bytes
prefix_bytes-fitting n cps s = prefix_loop-fitting _ n cps s (omega arith)
