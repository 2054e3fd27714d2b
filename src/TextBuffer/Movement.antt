-- ===== src/TextBuffer/Movement.antt =====
-- The movements of ui/text_buffer.c do to the cursor what `edit` does to the document.
use mathlib.Core.List.{reverse, append-nil, reverse-append, reverse-reverse}
use retrodesk.Prelude.{
  ℕ, ◌+◌, ◌-◌, ◌≡◌, refl, sym, ap, ◌∙◌, true, false, List, [], ◌∷◌, ◌++◌, map, length, arith, ltb,
}
use retrodesk.Utf8.Columns.{fitting, fitting-split, columns-widths, prefix_bytes-fitting}
use retrodesk.Utf8.Text.{encode_all, encode_all-append, AllScalar}
use retrodesk.TextInput.Line.{Line, Holds, before, All-reverse, cursor-pos}
use retrodesk.TextBuffer.State.{TextBuffer, line_count, cursor_line, columns_to, byte_for_columns}
use retrodesk.TextBuffer.Editing.{
  home, line_end, step_left, left, step_right, right, to_row, up, down,
}
use retrodesk.TextBuffer.Dispatch.{homes, ends, lefts, rights, ups, downs}
use retrodesk.TextBuffer.Doc.{
  Doc, Represents, rows_of, current, line_count-Represents, current-Represents, line-Holds,
  clamp_cursor-Represents, set_col-Represents, boundary-Represents,
}
use retrodesk.TextBuffer.Edit.{edit, at_start, at_end, row_of, fit, columns_before}
use retrodesk.TextBuffer.Rows.{
  line, stepped-Holds, passed-Holds, lines_above, line_above, line_below, lines_below,
}
use retrodesk.TextBuffer.Backspace.{doc, All-reversed}
use retrodesk.TextBuffer.Deletion.{col-end, col-lt}

-- A row of the document as the bytes of a line.
row_of-eq : (l : Line) → current l ≡ encode_all (row_of l)
row_of-eq l = sym (encode_all-append (before l) l.right)

pub home-Represents :
    (d : Doc) (buf : TextBuffer) → Represents d buf → Represents (edit homes d) (home buf).0
unfolding home
home-Represents d buf r = set_col-Represents d buf r (at_start (row_of d.line)) 0 (
    unfold encode_all in
    record {
      text = current-Represents d buf r ∙ row_of-eq d.line;
      at = refl;
      scalars = (tt, All-reverse d.line.left d.line.right r.scalars.0 r.scalars.1);
    })

pub line_end-Represents :
    (d : Doc) (buf : TextBuffer) → Represents d buf → Represents (edit ends d) (line_end buf).0
unfolding line_end
line_end-Represents d buf r =
    let l = d.line in
    let all : reverse (reverse l.right ++ l.left) ≡ reverse l.left ++ l.right =
      reverse-append (reverse l.right) l.left ∙ ap (reverse l.left ++◌) (reverse-reverse l.right) in
    let same : cursor_line buf ≡ encode_all (reverse (reverse l.right ++ l.left)) =
      current-Represents d buf r ∙ row_of-eq l ∙ ap encode_all (sym all) in
    set_col-Represents d buf r (line (reverse l.right ++ l.left) []) _ (record {
      text = same ∙ (unfold encode_all in sym (append-nil _));
      at = ap length same;
      scalars = (All-reverse l.right l.left r.scalars.1 r.scalars.0, tt);
    })

-- The cursor in the row above, and in the row below.
module _ (top : List ℕ) (tops : List (List ℕ)) (l : Line) (below : List (List ℕ)) (buf : TextBuffer)
    (r : Represents (record { above = top ∷ tops; line = l; below = below }) buf) where
  pub moved_above :
      (to : Line) (col : ℕ)
      → Holds to (encode_all top) col
      → Represents
          (record { above = tops; line = to; below = row_of l ∷ below })
          (record buf { cursor_row = buf.cursor_row - 1; cursor_col = col })
  moved_above to col h = record {
    lines =
        lines_above top tops l below buf r
        ∙ ap (λ t. rows_of tops ++ t ∷ current l ∷ map encode_all below) h.text
        ∙ ap (λ t. rows_of tops ++ current to ∷ t ∷ map encode_all below) (row_of-eq l);
    row = omega (arith, r.row);
    col = h.at;
    free = r.free;
    scalars = h.scalars;
    rows = (r.rows.0.1, (All-reverse l.left l.right r.scalars.0 r.scalars.1, r.rows.1));
  }

module _ (above : List (List ℕ)) (l : Line) (bottom : List ℕ) (bottoms : List (List ℕ))
    (buf : TextBuffer)
    (r : Represents (record { above = above; line = l; below = bottom ∷ bottoms }) buf) where
  pub moved_below :
      (to : Line) (col : ℕ)
      → Holds to (encode_all bottom) col
      → Represents
          (record { above = row_of l ∷ above; line = to; below = bottoms })
          (record buf { cursor_row = buf.cursor_row + 1; cursor_col = col })
  unfolding rows_of
  moved_below to col h = record {
    lines =
        lines_below above l bottom bottoms buf r
        ∙ ap (λ t. (rows_of above ++ (current l ∷ [])) ++ t ∷ map encode_all bottoms) h.text
        ∙ ap (λ t. (rows_of above ++ (t ∷ [])) ++ current to ∷ map encode_all bottoms)
            (row_of-eq l);
    row = omega (arith, r.row);
    col = h.at;
    free = r.free;
    scalars = h.scalars;
    rows = ((All-reverse l.left l.right r.scalars.0 r.scalars.1, r.rows.0), r.rows.1.1);
  }

start-Holds : (row : List ℕ) → AllScalar row → Holds (at_start row) (encode_all row) 0
unfolding encode_all
start-Holds row s = record { text = refl; at = refl; scalars = (tt, s) }

end-Holds :
    (row : List ℕ) → AllScalar row → Holds (at_end row) (encode_all row) (length (encode_all row))
end-Holds row s =
    let twice : encode_all row ≡ encode_all (reverse (reverse row)) =
      ap encode_all (sym (reverse-reverse row)) in
    record {
      text = twice ∙ (unfold encode_all in sym (append-nil _));
      at = ap length twice;
      scalars = (All-reversed row s, tt);
    }

AllScalar-split : (xs ys : List ℕ) → AllScalar (xs ++ ys) → AllScalar xs × AllScalar ys
AllScalar-split [] ys s = (tt, s)
AllScalar-split (x ∷ xs) ys s = let both = AllScalar-split xs ys s.1 in ((s.0, both.0), both.1)

-- A cursor that goes to a number of columns of a row.
fit-Holds :
    (row : List ℕ) (n : ℕ)
    → AllScalar row
    → Holds (fit n row) (encode_all row) (byte_for_columns (encode_all row) n)
unfolding byte_for_columns
fit-Holds row n s =
    let parts = fitting n row in
    let split : reverse (reverse parts.0) ++ parts.1 ≡ row =
      ap (λ xs. xs ++ parts.1) (reverse-reverse parts.0) ∙ fitting-split n row in
    record {
      text = ap encode_all (sym split) ∙ encode_all-append (reverse (reverse parts.0)) parts.1;
      at =
          prefix_bytes-fitting n row s
          ∙ ap (λ xs. length (encode_all xs)) (sym (reverse-reverse parts.0));
      scalars =
          let both = AllScalar-split parts.0 parts.1 (rw (fitting-split n row) s) in
          (All-reversed parts.0 both.0, both.1);
    }

module _ (d : Doc) (buf : TextBuffer) (r : Represents d buf) where
  pub columns_to-Represents : columns_to (cursor_line buf) buf.cursor_col ≡ columns_before d.line
  unfolding columns_to
  columns_to-Represents =
      rw (boundary-Represents d buf r, current-Represents d buf r, r.col)
        (columns-widths (before d.line) (encode_all d.line.right)
          (All-reversed d.line.left r.scalars.0))

step_left-Represents :
    (above : List (List ℕ)) (left right : List ℕ) (below : List (List ℕ)) (buf : TextBuffer)
    → Represents (doc above left right below) buf
    → Represents (edit lefts (doc above left right below)) (step_left buf)
unfolding step_left
step_left-Represents above (x ∷ xs) right below buf r =
    let d = doc above (x ∷ xs) right below in
    let h = line-Holds d buf r in
    let p = cursor-pos x xs right (cursor_line buf) buf.cursor_col h in
    let e : ltb 0 buf.cursor_col ≡ true = ground arith in
    rw e (
      set_col-Represents d buf r (line xs (x ∷ right)) _
        (stepped-Holds x xs right (cursor_line buf) buf.cursor_col h))
step_left-Represents [] [] right below buf r =
    let zero_at : buf.cursor_col ≡ 0 = unfold encode_all in r.col in
    let e : ltb 0 buf.cursor_col ≡ false = ground arith in
    let f : ltb 0 buf.cursor_row ≡ false = ground (arith, r.row) in rw (e, f) r
step_left-Represents (top ∷ tops) [] right below buf r =
    let zero_at : buf.cursor_col ≡ 0 = unfold encode_all in r.col in
    let e : ltb 0 buf.cursor_col ≡ false = ground arith in
    let f : ltb 0 buf.cursor_row ≡ true = ground (arith, r.row) in
    rw (e, f, line_above top tops (line [] right) below buf r)
      (moved_above top tops (line [] right) below buf r (at_end top) _ (end-Holds top r.rows.0.0))

step_right-Represents :
    (above : List (List ℕ)) (left right : List ℕ) (below : List (List ℕ)) (buf : TextBuffer)
    → Represents (doc above left right below) buf
    → Represents (edit rights (doc above left right below)) (step_right buf)
unfolding step_right
step_right-Represents above left (x ∷ right) below buf r =
    let d = doc above left (x ∷ right) below in
    let e : ltb buf.cursor_col (length (cursor_line buf)) ≡ true =
      ground (arith, col-lt above left x right below buf r) in
    rw e (
      set_col-Represents d buf r (line (x ∷ left) right) _
        (passed-Holds x left right (cursor_line buf) buf.cursor_col (line-Holds d buf r)))
step_right-Represents above left [] [] buf r =
    let d = doc above left [] [] in
    let e : ltb buf.cursor_col (length (cursor_line buf)) ≡ false =
      ground (arith, col-end d buf r refl) in
    let f : ltb (buf.cursor_row + 1) (line_count buf) ≡ false =
      ground (arith, r.row, line_count-Represents d buf r) in
    rw (e, f) r
step_right-Represents above left [] (bottom ∷ bottoms) buf r =
    let d = doc above left [] (bottom ∷ bottoms) in
    let e : ltb buf.cursor_col (length (cursor_line buf)) ≡ false =
      ground (arith, col-end d buf r refl) in
    let f : ltb (buf.cursor_row + 1) (line_count buf) ≡ true =
      ground (arith, r.row, line_count-Represents d buf r) in
    let whole : reverse left ++ [] ≡ reverse left = append-nil (reverse left) in
    rw (e, f, ← whole)
      (moved_below above (line left []) bottom bottoms buf r (at_start bottom) 0
        (start-Holds bottom r.rows.1.0))

pub left-Represents :
    (d : Doc) (buf : TextBuffer) → Represents d buf → Represents (edit lefts d) (left buf).0
unfolding left
left-Represents d buf r =
    rw (clamp_cursor-Represents d buf r)
      (step_left-Represents d.above d.line.left d.line.right d.below buf r)

pub right-Represents :
    (d : Doc) (buf : TextBuffer) → Represents d buf → Represents (edit rights d) (right buf).0
unfolding right
right-Represents d buf r =
    rw (clamp_cursor-Represents d buf r)
      (step_right-Represents d.above d.line.left d.line.right d.below buf r)

pub up-Represents :
    (above : List (List ℕ)) (l : Line) (below : List (List ℕ)) (buf : TextBuffer)
    → Represents (record { above = above; line = l; below = below }) buf
    → Represents (edit ups (record { above = above; line = l; below = below })) (up buf).0
unfolding up to_row
up-Represents [] l below buf r =
    let e : ltb 0 buf.cursor_row ≡ false = ground (arith, r.row) in rw e r
up-Represents (top ∷ tops) l below buf r =
    let d : Doc = record { above = top ∷ tops; line = l; below = below } in
    let e : ltb 0 buf.cursor_row ≡ true = ground (arith, r.row) in
    rw (e, columns_to-Represents d buf r, line_above top tops l below buf r)
      (moved_above top tops l below buf r (fit (columns_before l) top) _
        (fit-Holds top (columns_before l) r.rows.0.0))

pub down-Represents :
    (above : List (List ℕ)) (l : Line) (below : List (List ℕ)) (buf : TextBuffer)
    → Represents (record { above = above; line = l; below = below }) buf
    → Represents (edit downs (record { above = above; line = l; below = below })) (down buf).0
unfolding down to_row
down-Represents above l [] buf r =
    let d : Doc = record { above = above; line = l; below = [] } in
    let e : ltb (buf.cursor_row + 1) (line_count buf) ≡ false =
      ground (arith, r.row, line_count-Represents d buf r) in
    rw e r
down-Represents above l (bottom ∷ bottoms) buf r =
    let d : Doc = record { above = above; line = l; below = bottom ∷ bottoms } in
    let e : ltb (buf.cursor_row + 1) (line_count buf) ≡ true =
      ground (arith, r.row, line_count-Represents d buf r) in
    rw (e, columns_to-Represents d buf r, line_below above l bottom bottoms buf r)
      (moved_below above l bottom bottoms buf r (fit (columns_before l) bottom) _
        (fit-Holds bottom (columns_before l) r.rows.1.0))
