-- ===== src/TextBuffer/Boundary.antt =====
-- `text_line_boundary_at_or_before` of ui/text_buffer.c on a valid line: the last boundary between
-- two characters that is not behind the offset.
use mathlib.Core.List.{append_assoc, append-nil}
use retrodesk.Prelude.{
  ℕ, zero, suc, ◌+◌, ◌≤◌, ◌<◌, ◌≡◌, refl, sym, ap, ◌∙◌, false, List, [], ◌∷◌, ◌++◌, length,
  length-append, arith, ltb, leb, ◌==◌, if_either, ◌||◌,
}
use retrodesk.Utf8.Codec.{bytes_of}
use retrodesk.Utf8.Scan.{next}
use retrodesk.Utf8.Text.{encode_all, AllScalar, bytes_of-pos, next-bytes_of}
use retrodesk.Utf8.Prefix.{IsLongest}
use retrodesk.TextBuffer.State.{boundary_loop, boundary_at_or_before}

abbrev pub size : List ℕ → ℕ
size cps = length (encode_all cps)

pub size-cons : (cp : ℕ) (cps : List ℕ) → size (cp ∷ cps) ≡ length (bytes_of cp) + size cps
unfolding encode_all
size-cons cp cps = length-append (bytes_of cp) (encode_all cps)

pub size-nil : size [] ≡ 0
unfolding encode_all
size-nil = refl

-- Where the walk over `todo`, which begins behind `before` bytes, stops.
record Stops (todo : List ℕ) (before offset found : ℕ) : Type 0 where
  kept : List ℕ
  cut : List ℕ
  split : todo ≡ kept ++ cut
  at : found ≡ before + size kept
  fits : found ≤ offset
  longest : (cp : ℕ) (rest : List ℕ) → cut ≡ cp ∷ rest → offset < found + length (bytes_of cp)

Stops-here :
    (todo : List ℕ) (before offset : ℕ)
    → before ≤ offset
    → ((cp : ℕ) (rest : List ℕ) → todo ≡ cp ∷ rest → offset < before + length (bytes_of cp))
    → Stops todo before offset before
Stops-here todo before offset h far = record {
  kept = [];
  cut = todo;
  split = refl;
  at = omega (arith, size-nil);
  fits = h;
  longest = far;
}

Stops-cons :
    (cp : ℕ) (todo : List ℕ) (before offset found : ℕ)
    → Stops todo (before + length (bytes_of cp)) offset found
    → Stops (cp ∷ todo) before offset found
Stops-cons cp todo before offset found s = record {
  kept = cp ∷ s.kept;
  cut = s.cut;
  split = ap (cp ∷◌) s.split;
  at = omega (arith, s.at, size-cons cp s.kept);
  fits = s.fits;
  longest = s.longest;
}

module _ (before : List ℕ) (cp : ℕ) (cps : List ℕ) where
  line : List ℕ
  line = before ++ (bytes_of cp ++ encode_all cps)

  length-line : length line ≡ length before + length (bytes_of cp) + size cps
  unfolding line
  length-line = omega (
    arith,
    length-append {0} before (bytes_of cp ++ encode_all cps),
    length-append {0} (bytes_of cp) (encode_all cps),
  )

  -- One round of the walk, at a boundary that is not behind the offset.
  boundary_loop-cons :
      (fuel offset : ℕ)
      → AllScalar (cp ∷ cps)
      → length before ≤ offset
      → ((found : ℕ)
          → Stops cps (length before + length (bytes_of cp)) offset found
          → Stops (cp ∷ cps) (length before) offset found)
      → (length before + length (bytes_of cp) ≤ offset
          → Stops cps
              (length before + length (bytes_of cp))
              offset
              (boundary_loop fuel line offset (length before + length (bytes_of cp))))
      → Stops
          (cp ∷ cps)
          (length before)
          offset
          (boundary_loop (suc fuel) line offset (length before))
  unfolding boundary_loop
  boundary_loop-cons fuel offset s h up later =
      let wide = bytes_of-pos cp s.0 in
      let there : next line (length before) ≡ length (before ++ bytes_of cp) =
        unfold line in next-bytes_of before (encode_all cps) cp s.0 in
      let step : next line (length before) ≡ length before + length (bytes_of cp) =
        there ∙ length-append {0} before (bytes_of cp) in
      let inside : leb (length line) (length before) ≡ false = ground (arith, length-line, wide) in
      rw (inside, step)
        (if_either P (length before == offset)
          (λ e.
            Stops-here (cp ∷ cps) (length before) offset h
              (λ c rest q. first c rest q (ground (arith, wide))))
          (λ _.
            if_either P
              (leb (length before + length (bytes_of cp)) (length before)
                || ltb offset (length before + length (bytes_of cp)))
              (λ far.
                Stops-here (cp ∷ cps) (length before) offset h
                  (λ c rest q. first c rest q (ground (arith, wide))))
              (λ near. up _ (later (ground arith)))))
    where
      P : ℕ → Type 0
      P = Stops (cp ∷ cps) (length before) offset

      first :
          (c : ℕ) (rest : List ℕ)
          → cp ∷ cps ≡ c ∷ rest
          → offset < length before + length (bytes_of cp)
          → offset < length before + length (bytes_of c)
      first c rest q k = let e : cp ≡ c = cc q in rw (← e) k

boundary_loop-Stops :
    (fuel : ℕ) (before : List ℕ) (todo : List ℕ) (offset : ℕ)
    → AllScalar todo
    → length before ≤ offset
    → offset < length before + size todo
    → size todo ≤ fuel
    → Stops todo
        (length before)
        offset
        (boundary_loop fuel (before ++ encode_all todo) offset (length before))
unfolding encode_all line
boundary_loop-Stops fuel before [] offset s h k f = absurd (omega (arith, size-nil))
boundary_loop-Stops zero before (cp ∷ cps) offset s h k f =
    absurd (omega (arith, size-cons cp cps, bytes_of-pos cp s.0))
boundary_loop-Stops (suc fuel) before (cp ∷ cps) offset s h k f =
    let wide = bytes_of-pos cp s.0 in
    let more = size-cons cp cps in
    let shift : before ++ (bytes_of cp ++ encode_all cps)
        ≡ (before ++ bytes_of cp) ++ encode_all cps =
      sym (append_assoc before (bytes_of cp) (encode_all cps)) in
    let len = length-append {0} before (bytes_of cp) in
    boundary_loop-cons before cp cps fuel offset s h (Stops-cons cp cps (length before) offset)
      (λ near.
        rw (shift, ← len)
          (boundary_loop-Stops fuel (before ++ bytes_of cp) cps offset s.1
            (omega (arith, len, near)) (omega (arith, len, more, k))
            (omega (arith, more, wide, f))))

-- On a valid line, `text_line_boundary_at_or_before` finds the longest prefix of whole characters
-- that ends at the offset or before it.
pub boundary_at_or_before-IsLongest :
    (cps : List ℕ) (offset : ℕ)
    → AllScalar cps
    → IsLongest cps offset (boundary_at_or_before (encode_all cps) offset)
unfolding boundary_at_or_before
boundary_at_or_before-IsLongest cps offset s =
    if_either (IsLongest cps offset) (leb (size cps) offset)
      (λ past. record {
        kept = cps;
        cut = [];
        split = sym (append-nil cps);
        size = refl;
        fits = ground arith;
        longest = λ cp rest e. absurd (cc e);
      })
      (λ inside.
        let p =
          boundary_loop-Stops (size cps) [] cps offset s (omega arith) (ground arith)
            (omega arith) in
        record {
          kept = p.kept;
          cut = p.cut;
          split = p.split;
          size = omega (arith, p.at);
          fits = p.fits;
          longest = p.longest;
        })

-- There is one prefix that ends at a given offset.
prefix_unique :
    (kept cut xs ys : List ℕ)
    → AllScalar (xs ++ ys)
    → kept ++ cut ≡ xs ++ ys
    → size kept ≤ size xs
    → ((cp : ℕ) (rest : List ℕ) → cut ≡ cp ∷ rest → size xs < size kept + length (bytes_of cp))
    → kept ≡ xs
prefix_unique [] cut [] ys s e h far = refl
prefix_unique [] cut (x ∷ xs) ys s e h far =
    absurd (omega (arith, far x (xs ++ ys) e, size-nil, size-cons x xs))
prefix_unique (k ∷ ks) cut [] ys s e h far =
    let same : k ∷ (ks ++ cut) ≡ ys = e in
    absurd (omega (arith, size-nil, size-cons k ks, bytes_of-pos k (rw (← same) at s).0, h))
prefix_unique (k ∷ ks) cut (x ∷ xs) ys s e h far =
    let head : k ≡ x = cc e in
    let tail : ks ++ cut ≡ xs ++ ys = cc e in
    let len : length (bytes_of k) ≡ length (bytes_of x) = ap (λ c. length (bytes_of c)) head in
    let rest =
      prefix_unique ks cut xs ys s.1 tail (omega (arith, size-cons k ks, size-cons x xs, len, h))
        (λ cp r q. omega (arith, far cp r q, size-cons k ks, size-cons x xs, len)) in
    cc (head, rest)

pub IsLongest-split :
    (xs ys : List ℕ) (found : ℕ)
    → AllScalar (xs ++ ys)
    → IsLongest (xs ++ ys) (size xs) found
    → found ≡ size xs
IsLongest-split xs ys found s p =
    p.size
    ∙ ap size (
        prefix_unique p.kept p.cut xs ys s (sym p.split) (omega (arith, p.size, p.fits))
          (λ cp rest e. omega (arith, p.size, p.longest cp rest e)))

-- A boundary stays where it is.
pub boundary-size :
    (xs ys : List ℕ)
    → AllScalar (xs ++ ys)
    → boundary_at_or_before (encode_all (xs ++ ys)) (size xs) ≡ size xs
boundary-size xs ys s =
    IsLongest-split xs ys _ s (boundary_at_or_before-IsLongest (xs ++ ys) (size xs) s)
