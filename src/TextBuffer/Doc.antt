-- ===== src/TextBuffer/Doc.antt =====
-- What ui/text_buffer.c implements: rows of code points with a cursor in one of them.
use mathlib.Core.List.{append_assoc}
use retrodesk.Prelude.Middle.{get_or-append, set-append, take-append_suc, drop-append_suc}
use retrodesk.Prelude.{
  ℕ, suc, ◌+◌, ◌≡◌, refl, sym, ap, ◌∙◌, false, List, [], ◌∷◌, ◌++◌, map, length, length-append,
  arith, leb, ◌==◌, All,
}
use retrodesk.Utf8.Text.{encode_all, encode_all-append, AllScalar}
use retrodesk.TextInput.Line.{Line, Holds, before, take-append, All-reverse}
use retrodesk.TextBuffer.State.{
  TextBuffer, line_count, cursor_line, clamp_cursor, clear_selection, clear_collapsed_selection,
  has_selection, selection_range, boundary_at_or_before,
}
use retrodesk.TextBuffer.Editing.{settled, set_line, insert_at, remove_at}
use retrodesk.TextBuffer.Boundary.{boundary-size}

-- The rows above the cursor's, the nearest first, the row with the cursor, and the rows below.
pub record Doc : Type 0 where
  pub above : List (List ℕ)
  pub line : Line
  pub below : List (List ℕ)

-- The rows above, in the order of the document.
unfoldable pub rows_of : List (List ℕ) → List (List ℕ)
rows_of [] = []
rows_of (r ∷ rs) = rows_of rs ++ (encode_all r ∷ [])

abbrev pub current : Line → List ℕ
current l = encode_all (before l) ++ encode_all l.right

-- The buffer holds the rows of the document, the cursor stands at a boundary of two characters, and
-- nothing is selected.
pub record Represents (d : Doc) (buf : TextBuffer) : Type 0 where
  pub lines : buf.lines ≡ rows_of d.above ++ current d.line ∷ map encode_all d.below
  pub row : buf.cursor_row ≡ length d.above
  pub col : buf.cursor_col ≡ length (encode_all (before d.line))
  pub free : buf.selection_active ≡ false
  pub scalars : AllScalar d.line.left × AllScalar d.line.right
  pub rows : All AllScalar d.above × All AllScalar d.below

pub insert_at-append :
    (xs : List (List ℕ)) (y z : List ℕ) (ys : List (List ℕ))
    → insert_at (suc (length xs)) z (xs ++ y ∷ ys) ≡ xs ++ y ∷ z ∷ ys
unfolding insert_at
insert_at-append xs y z ys =
    rw (take-append_suc xs y ys, drop-append_suc xs y ys) (append_assoc xs (y ∷ []) (z ∷ ys))

pub remove_at-append :
    (xs : List (List ℕ)) (y : List ℕ) (ys : List (List ℕ))
    → remove_at (length xs) (xs ++ y ∷ ys) ≡ xs ++ ys
unfolding remove_at
remove_at-append xs y ys = rw (take-append xs (y ∷ ys), drop-append_suc xs y ys)

pub length-rows_of : (rs : List (List ℕ)) → length (rows_of rs) ≡ length rs
unfolding rows_of
length-rows_of [] = refl
length-rows_of (r ∷ rs) =
    omega (arith, length-append {0} (rows_of rs) (encode_all r ∷ []), length-rows_of rs)

module _ (d : Doc) (buf : TextBuffer) (r : Represents d buf) where
  pub row-length : buf.cursor_row ≡ length (rows_of d.above)
  row-length = r.row ∙ sym (length-rows_of d.above)

  pub line_count-Represents : line_count buf ≡ length d.above + 1 + length (map encode_all d.below)
  line_count-Represents = omega (
    arith,
    ap length r.lines,
    length-append {0} (rows_of d.above) (current d.line ∷ map encode_all d.below),
    length-rows_of d.above,
  )

  pub current-Represents : cursor_line buf ≡ current d.line
  current-Represents = rw (r.lines, row-length) (get_or-append (rows_of d.above) _ _ [])

  -- The row with the cursor is a line with a cursor.
  pub line-Holds : Holds d.line (cursor_line buf) buf.cursor_col
  line-Holds = record { text = current-Represents; at = r.col; scalars = r.scalars }

  pub boundary-Represents : boundary_at_or_before (cursor_line buf) buf.cursor_col ≡ buf.cursor_col
  boundary-Represents =
      let whole : cursor_line buf ≡ encode_all (before d.line ++ d.line.right) =
        current-Represents ∙ sym (encode_all-append (before d.line) d.line.right) in
      rw (whole, r.col)
        (boundary-size (before d.line) d.line.right
          (All-reverse d.line.left d.line.right r.scalars.0 r.scalars.1))

  -- The cursor stays where it is.
  pub clamp_cursor-Represents : clamp_cursor buf ≡ buf
  unfolding clamp_cursor
  clamp_cursor-Represents =
      let some_row : (line_count buf == 0) ≡ false = ground (arith, line_count-Represents) in
      let in_row : leb (line_count buf) buf.cursor_row ≡ false =
        ground (arith, line_count-Represents, r.row) in
      rw (some_row, in_row) (ap (λ c. record buf { cursor_col = c }) boundary-Represents)

  pub settled-Represents : settled buf ≡ buf
  unfolding settled
  settled-Represents =
      let kept : clear_collapsed_selection buf ≡ buf =
        unfold clear_collapsed_selection in simp r.free refl in
      ap clamp_cursor kept ∙ clamp_cursor-Represents

  pub has_selection-Represents : has_selection buf ≡ false
  unfolding has_selection selection_range
  has_selection-Represents = simp r.free refl

  -- A change of the row with the cursor.
  pub set_line-Represents :
      (l : Line) (text : List ℕ) (col : ℕ)
      → Holds l text col
      → Represents
          (record d { line = l })
          (record (set_line buf.cursor_row text buf) { cursor_col = col })
  set_line-Represents l text col h = record {
    lines = rw (r.lines, row-length, h.text) (set-append (rows_of d.above) _ _ _);
    row = r.row;
    col = h.at;
    free = r.free;
    scalars = h.scalars;
    rows = r.rows;
  }

  -- A move of the cursor in its row.
  pub set_col-Represents :
      (l : Line) (col : ℕ)
      → Holds l (cursor_line buf) col
      → Represents (record d { line = l }) (record buf { cursor_col = col })
  set_col-Represents l col h = record {
    lines =
        r.lines
        ∙ ap (λ t. rows_of d.above ++ t ∷ map encode_all d.below) (sym current-Represents ∙ h.text);
    row = r.row;
    col = h.at;
    free = r.free;
    scalars = h.scalars;
    rows = r.rows;
  }

pub clear_selection-Represents :
    {d : Doc} {buf : TextBuffer} → Represents d buf → Represents d (clear_selection buf)
unfolding clear_selection
clear_selection-Represents r = record {
  lines = r.lines;
  row = r.row;
  col = r.col;
  free = refl;
  scalars = r.scalars;
  rows = r.rows;
}
