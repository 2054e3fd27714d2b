-- ===== src/TextBuffer/Found.antt =====
-- What the search of ui/text_buffer.c finds is the query.
use mathlib.Core.List.{append_assoc}
use mathlib.Core.Option.{some_inj}
use mathlib.Core.Path.{subst}
use retrodesk.Prelude.{
  ℕ, zero, suc, ◌+◌, ◌-◌, ◌<◌, ◌≡◌, refl, sym, ap, ◌∙◌, Option, none, some, Bool, false, not, ◌||◌,
  ◌⊎◌, ◌≤◌, true, inl, inr, List, [], ◌∷◌, ◌++◌, ◌==◌, ltb, leb, if◌then◌else◌, length,
  length-append, take, drop, length-drop, length-take, arith, Bool-cases, Option-cases, get_or,
}
use retrodesk.Utf8.Codec.{bytes_of, decode}
use retrodesk.Utf8.Scan.{next}
use retrodesk.Utf8.Sound.{decode-Decoded}
use retrodesk.Utf8.Text.{encode_all}
use retrodesk.TextBuffer.State.{TextBuffer, line_at, line_count}
use retrodesk.TextBuffer.Search.{
  TextBufferMatch, boundary_at_or_after, search_fold, folded, same_codepoint, matches_loop,
  query_matches, within, range_loop, find_range, find_rows, in_row, is_query, or_else, find_next,
}

-- A capital letter and its small letter, of ASCII, of Latin-1 and the one capital behind them.
abbrev pub IsCapitalOf : ℕ → ℕ → Type 0
IsCapitalOf small capital =
    ((0x41 ≤ capital) × (capital ≤ 0x5A) × (small ≡ capital + 0x20))
    ⊎ (((0xC0 ≤ capital) × (capital ≤ 0xDE) × ¬ (capital ≡ 0xD7) × (small ≡ capital + 0x20))
        ⊎ ((capital ≡ 0x178) × (small ≡ 0xFF)))

-- A character that stands for another one: itself, or the same letter where the case is ignored.
abbrev pub IsSame : Bool → ℕ → ℕ → Type 0
IsSame false c d = c ≡ d
IsSame true c d = (c ≡ d) ⊎ (IsCapitalOf c d ⊎ IsCapitalOf d c)

pub data AllSame (case_insensitive : Bool) : List ℕ → List ℕ → Type 0 where
  nil_same : AllSame case_insensitive [] []
  cons_same :
      {c d : ℕ} {cs ds : List ℕ}
      → IsSame case_insensitive c d
      → AllSame case_insensitive cs ds
      → AllSame case_insensitive (c ∷ cs) (d ∷ ds)

folded-IsSame :
    (case_insensitive : Bool) (c d : ℕ)
    → (folded case_insensitive c == folded case_insensitive d) ≡ true
    → IsSame case_insensitive c d
unfolding search_fold
folded-IsSame false c d e = ground (arith, e)
folded-IsSame true c d e = ground (arith, e)

-- The bytes begin with characters that are those of the query, in `k` bytes.
pub record Begins (case_insensitive : Bool) (bytes query : List ℕ) (k : ℕ) : Type 0 where
  pub found : List ℕ
  pub asked : List ℕ
  pub rest : List ℕ
  pub same : AllSame case_insensitive found asked
  pub split : bytes ≡ encode_all found ++ rest
  pub whole : query ≡ encode_all asked
  pub size : k ≡ length (encode_all found)

-- Code points that are the same, in the bytes of the line and of the query.
record Paired (case_insensitive : Bool) (line query : List ℕ) (n m : ℕ) : Type 0 where
  found : ℕ
  asked : ℕ
  same : IsSame case_insensitive found asked
  in_line : line ≡ bytes_of found ++ drop n line
  in_query : query ≡ bytes_of asked ++ drop m query
  size : n ≡ length (bytes_of found)

same_codepoint-Paired :
    (ci : Bool) (line query : List ℕ) (n m : ℕ)
    → same_codepoint ci (decode line) (decode query) ≡ some (n, m)
    → Paired ci line query n m
same_codepoint-Paired ci line query n m e = elim (Option-cases (decode line)) [
  | inl e1 ↦ absurd (cc (rw e1 at e))
  | inr ((c, n'), e1) ↦ elim (Option-cases (decode query)) [
    | inl e2 ↦ absurd (cc (rw (e1, e2) at e))
    | inr ((d, m'), e2) ↦ elim (Bool-cases (folded ci c == folded ci d)) [
      | inr e3 ↦ absurd (cc (rw (e1, e2, e3) at e))
      | inl e3 ↦
          let found : some (n', m') ≡ some (n, m) = rw (e1, e2, e3) at e in
          let n_eq : n' ≡ n = ap (λ p. p.0) (some_inj.0 found) in
          let m_eq : m' ≡ m = ap (λ p. p.1) (some_inj.0 found) in
          let (_, size, l) = decode-Decoded line c n' e1 in
          let (_, _, q) = decode-Decoded query d m' e2 in
          record {
            found = c;
            asked = d;
            same = folded-IsSame ci c d e3;
            in_line = rw n_eq at l;
            in_query = rw m_eq at q;
            size = rw n_eq at size;
          }
    ]
  ]
]

Begins-cons :
    (ci : Bool) (line query : List ℕ) (n m k k' : ℕ)
    → n + k' ≡ k
    → Paired ci line query n m
    → Begins ci (drop n line) (drop m query) k'
    → Begins ci line query k
unfolding encode_all
Begins-cons ci line query n m k k' total p b = record {
  found = p.found ∷ b.found;
  asked = p.asked ∷ b.asked;
  rest = b.rest;
  same = cons_same p.same b.same;
  split =
      p.in_line
      ∙ ap (bytes_of p.found ++◌) b.split
      ∙ sym (append_assoc (bytes_of p.found) (encode_all b.found) b.rest);
  whole = p.in_query ∙ ap (bytes_of p.asked ++◌) b.whole;
  size =
      omega
        (arith, total, p.size, b.size, length-append {0} (bytes_of p.found) (encode_all b.found));
}

matches_loop-Begins :
    (fuel : ℕ) (ci : Bool) (line query : List ℕ) (k : ℕ)
    → matches_loop fuel ci line query ≡ some k
    → Begins ci line query k
unfolding matches_loop encode_all
matches_loop-Begins fuel ci line [] k e = record {
  found = [];
  asked = [];
  rest = line;
  same = nil_same;
  split = refl;
  whole = refl;
  size = cc e;
}
matches_loop-Begins zero ci line (q ∷ qs) k e = absurd (cc e)
matches_loop-Begins (suc fuel) ci line (q ∷ qs) k e =
    elim (Option-cases (same_codepoint ci (decode line) (decode (q ∷ qs)))) [
      | inl e1 ↦ absurd (cc (rw (matches_loop, e1) at e))
      | inr ((n, m), e1) ↦
          elim (Option-cases (matches_loop fuel ci (drop n line) (drop m (q ∷ qs)))) [
            | inl e2 ↦ absurd (cc (rw (matches_loop, e1, e2) at e))
            | inr (k', e2) ↦
                let total : some (n + k') ≡ some k = rw (matches_loop, e1, e2) at e in
                Begins-cons ci line (q ∷ qs) n m k k' (some_inj.0 total)
                  (same_codepoint-Paired ci line (q ∷ qs) n m e1)
                  (matches_loop-Begins fuel ci (drop n line) (drop m (q ∷ qs)) k' e2)
          ]
    ]

-- A part of a line, from a column to another, that is the query.
abbrev pub Occurs : Bool → List ℕ → List ℕ → ℕ → ℕ → Type 0
Occurs ci line query start finish =
    (k : ℕ) × (start + k ≡ finish) × Begins ci (drop start line) query k

query_matches-Occurs :
    (ci : Bool) (line query : List ℕ) (position finish : ℕ)
    → query_matches line position query ci ≡ some finish
    → Occurs ci line query position finish
unfolding query_matches
query_matches-Occurs ci line query position finish e =
    elim (Option-cases (matches_loop (length query) ci (drop position line) query)) [
      | inl e1 ↦ absurd (cc (rw (query_matches, e1) at e))
      | inr (k, e1) ↦
          let total : some (position + k) ≡ some finish = rw (query_matches, e1) at e in
          (
            k,
            some_inj.0 total,
            matches_loop-Begins (length query) ci (drop position line) query k e1,
          )
    ]

within-eq : (limit : ℕ) (o : Option ℕ) (finish : ℕ) → within limit o ≡ some finish → o ≡ some finish
within-eq limit none finish e = e
within-eq limit (some x) finish e = elim (Bool-cases (leb x limit)) [
  | inl y ↦ rw y at e
  | inr y ↦ absurd (cc (rw y at e))
]

range_loop-Occurs :
    (fuel : ℕ) (ci : Bool) (line query : List ℕ) (position limit start finish : ℕ)
    → range_loop fuel line query ci position limit ≡ some (start, finish)
    → Occurs ci line query start finish
unfolding range_loop
range_loop-Occurs zero ci line query position limit start finish e = absurd (cc e)
range_loop-Occurs (suc fuel) ci line query position limit start finish e =
    elim (Bool-cases (ltb position limit)) [
      | inr h ↦ absurd (cc (rw (range_loop, h) at e))
      | inl h ↦ elim (Option-cases (within limit (query_matches line position query ci))) [
        | inr (x, w) ↦
            let found : some (position, x) ≡ some (start, finish) = rw (range_loop, h, w) at e in
            let start_eq : position ≡ start = ap (λ p. p.0) (some_inj.0 found) in
            let finish_eq : x ≡ finish = ap (λ p. p.1) (some_inj.0 found) in
            rw (start_eq, finish_eq) at
              (query_matches-Occurs ci line query position x (within-eq limit _ x w))
        | inl w ↦ elim (Bool-cases (leb (next line position) position)) [
          | inl l ↦ absurd (cc (rw (range_loop, h, w, l) at e))
          | inr l ↦
              range_loop-Occurs fuel ci line query (next line position) limit start finish
                (rw (range_loop, h, w, l) at e)
        ]
      ]
    ]

find_range-Occurs :
    (ci : Bool) (line query : List ℕ) (from limit start finish : ℕ)
    → find_range line query ci from limit ≡ some (start, finish)
    → Occurs ci line query start finish
unfolding find_range
find_range-Occurs ci line query from limit start finish e =
    range_loop-Occurs _ ci line query _ _ start finish e

-- A match in one of some rows, the first of which has the number `first`.
abbrev Among : Bool → List (List ℕ) → List ℕ → ℕ → TextBufferMatch → Type 0
Among ci lines query first m =
    (i : ℕ) × (m.row ≡ first + i)
    × (i < length lines)
    × Occurs ci (get_or lines i []) query m.start_col m.end_col

find_rows-Among :
    (ci : Bool) (query : List ℕ) (row start : ℕ) (lines : List (List ℕ)) (m : TextBufferMatch)
    → find_rows query ci row start lines ≡ some m
    → Among ci lines query row m
unfolding find_rows
find_rows-Among ci query row start [] m e = absurd (cc e)
find_rows-Among ci query row start (line ∷ lines) m e =
    elim (Option-cases (find_range line query ci start (length line))) [
      | inr ((s, f), h) ↦
          let found : some (record { row = row; start_col = s; end_col = f }) ≡ some m =
            rw (find_rows, h) at e in
          let here : Among ci (line ∷ lines) query row
              (record { row = row; start_col = s; end_col = f }) =
            (
              zero,
              omega arith,
              omega arith,
              find_range-Occurs ci line query start (length line) s f h,
            ) in
          subst (λ x. Among ci (line ∷ lines) query row x) (some_inj.0 found) here
      | inl h ↦
          let (i, at, inside, occurs) =
            find_rows-Among ci query (suc row) 0 lines m (rw (find_rows, h) at e) in
          (suc i, omega (arith, at), omega (arith, inside), occurs)
    ]

get_or-drop {ℓ} :
    {A : Type ℓ} (k i : ℕ) (xs : List A) (z : A) → get_or (drop k xs) i z ≡ get_or xs (k + i) z
get_or-drop zero i xs z = ap (λ n. get_or xs n z) (omega arith)
get_or-drop (suc k) i [] z = refl
get_or-drop (suc k) i (x ∷ xs) z =
    let n : suc k + i ≡ suc (k + i) = omega arith in rw n (get_or-drop k i xs z)

get_or-take {ℓ} :
    {A : Type ℓ} (k i : ℕ) (xs : List A) (z : A)
    → i < length (take k xs)
    → get_or (take k xs) i z ≡ get_or xs i z
get_or-take zero i xs z h = absurd (omega arith)
get_or-take (suc k) i [] z h = absurd (omega arith)
get_or-take (suc k) zero (x ∷ xs) z h = refl
get_or-take (suc k) (suc i) (x ∷ xs) z h = get_or-take k i xs z (omega arith)

-- A match of the query in a buffer.
abbrev pub IsMatch : Bool → TextBuffer → List ℕ → TextBufferMatch → Type 0
IsMatch ci buf query m =
    (m.row < line_count buf) × Occurs ci (line_at buf.lines m.row) query m.start_col m.end_col

module _ (ci : Bool) (buf : TextBuffer) (query : List ℕ) (row : ℕ) (m : TextBufferMatch) where
  below-IsMatch : Among ci (drop row buf.lines) query row m → IsMatch ci buf query m
  below-IsMatch (i, at, inside, o) =
      let there : get_or (drop row buf.lines) i [] ≡ line_at buf.lines m.row =
        get_or-drop row i buf.lines [] ∙ ap (λ n. get_or buf.lines n []) (sym at) in
      (omega (arith, at, length-drop {0} row buf.lines), rw there at o)

  above-IsMatch : Among ci (take row buf.lines) query 0 m → IsMatch ci buf query m
  above-IsMatch (i, at, inside, o) =
      let there : get_or (take row buf.lines) i [] ≡ line_at buf.lines m.row =
        get_or-take row i buf.lines [] inside
        ∙ ap (λ n. get_or buf.lines n []) (omega (arith, at)) in
      (omega (arith, at, length-take {0} row buf.lines), rw there at o)

  in_row-IsMatch :
      (from limit : ℕ)
      → row < line_count buf
      → in_row row (find_range (line_at buf.lines row) query ci from limit) ≡ some m
      → IsMatch ci buf query m
  in_row-IsMatch from limit h e =
      elim (Option-cases (find_range (line_at buf.lines row) query ci from limit)) [
        | inl n ↦ absurd (cc (rw (n, in_row) at e))
        | inr ((s, f), k) ↦
            let found : some (record { row = row; start_col = s; end_col = f }) ≡ some m =
              rw (k, in_row) at e in
            let here : IsMatch ci buf query (record { row = row; start_col = s; end_col = f }) =
              (h, find_range-Occurs ci (line_at buf.lines row) query from limit s f k) in
            subst (IsMatch ci buf query) (some_inj.0 found) here
      ]

or_else-either :
    (a b : Option TextBufferMatch) (m : TextBufferMatch)
    → or_else a b ≡ some m
    → (a ≡ some m) ⊎ (b ≡ some m)
or_else-either (some x) b m e = inl e
or_else-either none b m e = inr e

-- What the search finds is a row of the buffer and a part of this row that has the characters of the
-- query, one for one: the same ones where the search heeds the case, and where it does not the same
-- ones or the capital and the small form of a letter. The search may wrap around or not.
pub find_next-IsMatch :
    (buf : TextBuffer) (query : List ℕ) (ci : Bool) (start_row start_col : ℕ) (wrap : Bool)
    (m : TextBufferMatch)
    → find_next buf query ci start_row start_col wrap ≡ some m
    → IsMatch ci buf query m
unfolding find_next
find_next-IsMatch buf query ci start_row start_col wrap m e =
    elim (Bool-cases (line_count buf == 0 || not (is_query query))) [
      | inl h ↦ absurd (cc (rw (find_next, h) at e))
      | inr h ↦ elim (or_else-either _ _ m (rw (find_next, h) at e)) [
        | inl below ↦
            below-IsMatch ci buf query row m
              (find_rows-Among ci query row col (drop row buf.lines) m below)
        | inr more ↦ elim (Bool-cases wrap) [
          | inr w ↦ absurd (cc (rw w at more))
          | inl w ↦ elim (or_else-either _ _ m (rw w at more)) [
            | inl above ↦
                above-IsMatch ci buf query row m
                  (find_rows-Among ci query 0 0 (take row buf.lines) m above)
            | inr last ↦ in_row-IsMatch ci buf query row m 0 col (ground arith) last
          ]
        ]
      ]
    ]
  where
    row : ℕ
    row = if leb (line_count buf) start_row then line_count buf - 1 else start_row

    col : ℕ
    col = boundary_at_or_after (line_at buf.lines row) start_col
