-- ===== src/TextBuffer/Search.antt =====
-- The search of ui/text_buffer.c.
use retrodesk.Prelude.{
  ℕ, zero, suc, ◌+◌, ◌-◌, Option, none, some, Bool, true, false, not, ◌&&◌, ◌||◌, List, [], ◌∷◌,
  ◌==◌, ltb, leb, if◌then◌else◌, length, take, drop,
}
use Prim.Native.Nat.{min}
use retrodesk.Clipboard.{has_nul}
use retrodesk.Utf8.Codec.{decode}
use retrodesk.Utf8.Scan.{validate, next}
use retrodesk.TextBuffer.State.{TextBuffer, line_at, line_count, boundary_at_or_before}

pub record TextBufferMatch : Type 0 where
  pub row : ℕ
  pub start_col : ℕ
  pub end_col : ℕ

unfoldable pub boundary_at_or_after : List ℕ → ℕ → ℕ
boundary_at_or_after line offset =
    let before = boundary_at_or_before line offset in
    let after = next line before in
    if leb (length line) offset
    then length line
    else if before == offset
    then before
    else if ltb before after && leb after (length line)
    then after
    else length line

unfoldable pub search_fold : ℕ → ℕ
search_fold codepoint =
    if leb 0x41 codepoint && leb codepoint 0x5A
    then codepoint + 0x20
    else if (leb 0xC0 codepoint && leb codepoint 0xD6) || (leb 0xD8 codepoint && leb codepoint 0xDE)
    then codepoint + 0x20
    else if codepoint == 0x178
    then 0xFF
    else codepoint

abbrev pub folded : Bool → ℕ → ℕ
folded case_insensitive codepoint = if case_insensitive then search_fold codepoint else codepoint

-- A code point of the line against one of the query, before what follows them.
abbrev pub same_codepoint : Bool → Option (ℕ × ℕ) → Option (ℕ × ℕ) → Option (ℕ × ℕ)
same_codepoint case_insensitive none q = none
same_codepoint case_insensitive (some l) none = none
same_codepoint case_insensitive (some (c, n)) (some (d, m)) =
    if folded case_insensitive c == folded case_insensitive d then some (n, m) else none

-- The loop of `text_line_query_matches` on the bytes of the line from a position on: how many of them
-- match. A round takes a byte of the query at least.
unfoldable pub matches_loop : ℕ → Bool → List ℕ → List ℕ → Option ℕ
matches_loop fuel case_insensitive line [] = some 0
matches_loop zero case_insensitive line (q ∷ qs) = none
matches_loop (suc fuel) case_insensitive line (q ∷ qs) =
    elim (same_codepoint case_insensitive (decode line) (decode (q ∷ qs))) [
      | none ↦ none
      | some (n, m) ↦ elim (matches_loop fuel case_insensitive (drop n line) (drop m (q ∷ qs))) [
        | none ↦ none
        | some k ↦ some (n + k)
      ]
    ]

unfoldable pub query_matches : List ℕ → ℕ → List ℕ → Bool → Option ℕ
query_matches line position query case_insensitive =
    elim (matches_loop (length query) case_insensitive (drop position line) query) [
      | none ↦ none
      | some k ↦ some (position + k)
    ]

abbrev pub within : ℕ → Option ℕ → Option ℕ
within limit none = none
within limit (some end') = if leb end' limit then some end' else none

-- The loop of `text_line_find_range`; a round takes a byte of the line at least.
unfoldable pub range_loop : ℕ → List ℕ → List ℕ → Bool → ℕ → ℕ → Option (ℕ × ℕ)
range_loop zero line query case_insensitive position limit = none
range_loop (suc fuel) line query case_insensitive position limit =
    let further = range_loop fuel line query case_insensitive (next line position) limit in
    if ltb position limit
    then elim (within limit (query_matches line position query case_insensitive)) [
      | some end' ↦ some (position, end')
      | none ↦ if leb (next line position) position then none else further
    ]
    else none

unfoldable pub find_range : List ℕ → List ℕ → Bool → ℕ → ℕ → Option (ℕ × ℕ)
find_range line query case_insensitive start limit =
    range_loop (length line) line query case_insensitive (boundary_at_or_after line start)
      (boundary_at_or_before line (min limit (length line)))

-- The loop over the rows: from a position in the first of them, from the start in the others.
unfoldable pub find_rows : List ℕ → Bool → ℕ → ℕ → List (List ℕ) → Option TextBufferMatch
find_rows query case_insensitive row start [] = none
find_rows query case_insensitive row start (line ∷ lines) =
    elim (find_range line query case_insensitive start (length line)) [
      | some (s, e) ↦ some (record { row = row; start_col = s; end_col = e })
      | none ↦ find_rows query case_insensitive (suc row) 0 lines
    ]

-- The last try, in the first row before the position.
abbrev pub in_row : ℕ → Option (ℕ × ℕ) → Option TextBufferMatch
in_row row none = none
in_row row (some (s, e)) = some (record { row = row; start_col = s; end_col = e })

unfoldable pub has_byte : ℕ → List ℕ → Bool
has_byte b [] = false
has_byte b (c ∷ cs) = c == b || has_byte b cs

abbrev pub is_query : List ℕ → Bool
is_query query =
    not (length query == 0)
    && validate query
    && not (has_nul query)
    && not (has_byte 0x0A query)
    && not (has_byte 0x0D query)

abbrev pub or_else : Option TextBufferMatch → Option TextBufferMatch → Option TextBufferMatch
or_else (some m) other = some m
or_else none other = other

unfoldable pub find_next : TextBuffer → List ℕ → Bool → ℕ → ℕ → Bool → Option TextBufferMatch
find_next buf query case_insensitive start_row start_col wrap =
    let row = if leb (line_count buf) start_row then line_count buf - 1 else start_row in
    let col = boundary_at_or_after (line_at buf.lines row) start_col in
    if line_count buf == 0 || not (is_query query)
    then none
    else or_else (find_rows query case_insensitive row col (drop row buf.lines)) (
        if wrap
        then or_else (find_rows query case_insensitive 0 0 (take row buf.lines))
            (in_row row (find_range (line_at buf.lines row) query case_insensitive 0 col))
        else none)

unfoldable pub select_match : TextBufferMatch → TextBuffer → TextBuffer × Bool
select_match m buf =
    let line = line_at buf.lines m.row in
    let start = boundary_at_or_before line m.start_col in
    let end' = boundary_at_or_before line m.end_col in
    if leb (line_count buf) m.row || leb end' start then (buf, false) else (
      record buf {
        selection_anchor_row = m.row;
        selection_anchor_col = start;
        cursor_row = m.row;
        cursor_col = end';
        selection_active = true;
      },
      true,
    )
