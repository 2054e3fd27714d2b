-- ===== src/TextBuffer/Backspace.antt =====
-- The line break and the deletion before the cursor in ui/text_buffer.c do to the buffer what `edit`
-- does to the document.
use mathlib.Core.List.{reverse, append_assoc, append-nil, reverse-reverse}
use retrodesk.Prelude.Middle.{set-append}
use retrodesk.Prelude.{
  ℕ, suc, ◌+◌, ◌-◌, ◌≡◌, refl, sym, ap, ◌∙◌, Bool, true, false, not, ◌&&◌, ◌⊎◌, inl, inr, List, [],
  ◌∷◌, ◌++◌, map, length, set, arith, ◌==◌, ltb, if_either,
}
use retrodesk.Utf8.Text.{encode_all, AllScalar}
use retrodesk.TextInput.Line.{Holds, before, take-Holds, drop-Holds, cursor-pos, All-reverse}
use retrodesk.TextBuffer.State.{TextBuffer, line_at, line_count, cursor_line}
use retrodesk.TextBuffer.Editing.{
  remove_at, break_line, insert_newline, join_previous, backward, delete_backward,
}
use retrodesk.TextBuffer.Dispatch.{newlines, backspaces}
use retrodesk.TextBuffer.Doc.{
  Doc, Represents, rows_of, current, row-length, length-rows_of, line_count-Represents,
  current-Represents, line-Holds, settled-Represents, has_selection-Represents, set_line-Represents,
  insert_at-append,
}
use retrodesk.TextBuffer.Edit.{edit, at_start}
use retrodesk.TextBuffer.Rows.{
  line, deleted-Holds, remove_at-set, lines_above, row_above, line_above,
}

-- An operation edits the document, and says so unless nothing changes; or the memory it needs is not
-- there, and it reports false and leaves the buffer.
abbrev pub Edited : Doc → Doc → TextBuffer → Bool → TextBuffer × Bool → Type 0
Edited d e buf granted res =
    (Represents e res.0 × (res.1 ≡ false → e ≡ d)) ⊎ ((granted ≡ false) × (res ≡ (buf, false)))

pub done :
    {d e : Doc} {buf : TextBuffer} {granted : Bool} (u : TextBuffer)
    → Represents e u
    → Edited d e buf granted (u, true)
done u r = inl (r, λ no. absurd (cc no))

abbrev pub doc : List (List ℕ) → List ℕ → List ℕ → List (List ℕ) → Doc
doc above left right below = record { above = above; line = line left right; below = below }

pub some_line : (d : Doc) (buf : TextBuffer) → Represents d buf → (line_count buf == 0) ≡ false
some_line d buf r = ground (arith, line_count-Represents d buf r)

pub All-reversed : (xs : List ℕ) → AllScalar xs → AllScalar (reverse xs)
All-reversed xs s =
    let e : reverse xs ++ [] ≡ reverse xs = append-nil (reverse xs) in
    rw⁻¹ e (All-reverse xs [] s tt)

pub empty-Holds : (right : List ℕ) → AllScalar right → Holds (at_start right) (encode_all right) 0
unfolding encode_all
empty-Holds right s = record { text = refl; at = refl; scalars = (tt, s) }

break_line-Represents :
    (d : Doc) (buf : TextBuffer) → Represents d buf → Represents (edit newlines d) (break_line buf)
unfolding break_line rows_of encode_all
break_line-Represents d buf r =
    let h = line-Holds d buf r in
    let first = take-Holds d.line (cursor_line buf) buf.cursor_col h in
    let second = drop-Holds d.line (cursor_line buf) buf.cursor_col h in
    let at_row =
      set-append (rows_of d.above) (current d.line) (map encode_all d.below)
        (encode_all (before d.line)) in
    let one : length (rows_of d.above) + 1 ≡ suc (length (rows_of d.above)) = omega arith in
    record {
      lines =
          rw (first, second, r.lines, row-length d buf r, at_row, one)
            (insert_at-append (rows_of d.above) _ _ _
              ∙ sym (append_assoc (rows_of d.above) (encode_all (before d.line) ∷ []) _));
      row = omega (arith, r.row);
      col = refl;
      free = r.free;
      scalars = (tt, r.scalars.1);
      rows = ((All-reversed d.line.left r.scalars.0, r.rows.0), r.rows.1);
    }

pub insert_newline-Edited :
    (granted : Bool) (d : Doc) (buf : TextBuffer)
    → Represents d buf
    → Edited d (edit newlines d) buf granted (insert_newline granted buf)
unfolding insert_newline
insert_newline-Edited granted d buf r =
    rw (some_line d buf r, has_selection-Represents d buf r, settled-Represents d buf r)
      (if_either (Edited d (edit newlines d) buf granted) granted
        (λ yes. done (break_line buf) (break_line-Represents d buf r)) (λ no. inr (no, refl)))

joined_above :
    (top : List ℕ) (tops : List (List ℕ)) (right : List ℕ) (below : List (List ℕ))
    (buf : TextBuffer) (r : Represents (doc (top ∷ tops) [] right below) buf)
    → Represents (doc tops (reverse top) right below) (record buf {
      lines = remove_at buf.cursor_row (
          set buf.lines
            (buf.cursor_row - 1)
            (line_at buf.lines (buf.cursor_row - 1) ++ line_at buf.lines buf.cursor_row));
      cursor_row = buf.cursor_row - 1;
      cursor_col = length (line_at buf.lines (buf.cursor_row - 1));
    })
joined_above top tops right below buf r =
    let previous = line_above top tops (line [] right) below buf r in
    let here = current-Represents (doc (top ∷ tops) [] right below) buf r in
    let row : buf.cursor_row ≡ suc (length (rows_of tops)) =
      omega (arith, r.row, length-rows_of tops) in
    let twice : encode_all (reverse (reverse top)) ≡ encode_all top =
      ap encode_all (reverse-reverse top) in
    record {
      lines =
          rw
            (
              previous,
              here,
              lines_above top tops (line [] right) below buf r,
              row_above top tops (line [] right) below buf r,
              row,
              twice,
            )
            (unfold encode_all in remove_at-set (rows_of tops) _ _ _ _);
      row = omega (arith, r.row);
      col = ap length (previous ∙ sym twice);
      free = r.free;
      scalars = (All-reversed top r.rows.0.0, r.scalars.1);
      rows = (r.rows.0.1, r.rows.1);
    }

join_previous-Edited :
    (granted : Bool) (above : List (List ℕ)) (right : List ℕ) (below : List (List ℕ))
    (buf : TextBuffer)
    → Represents (doc above [] right below) buf
    → Edited
        (doc above [] right below)
        (edit backspaces (doc above [] right below))
        buf
        granted
        (join_previous granted buf)
unfolding join_previous
join_previous-Edited granted [] right below buf r =
    let e : (buf.cursor_row == 0) ≡ true = ground (arith, r.row) in rw e (inl (r, λ _. refl))
join_previous-Edited granted (top ∷ tops) right below buf r =
    let e : (buf.cursor_row == 0) ≡ false = ground (arith, r.row) in
    rw e (
      if_either P (not (length (line_at buf.lines buf.cursor_row) == 0) && not granted)
        (λ no. inr (ground arith, refl)) (λ _. done _ (joined_above top tops right below buf r)))
  where
    P : TextBuffer × Bool → Type 0
    P = Edited (doc (top ∷ tops) [] right below) (doc tops (reverse top) right below) buf granted

backward-Edited :
    (granted : Bool) (above : List (List ℕ)) (left right : List ℕ) (below : List (List ℕ))
    (buf : TextBuffer)
    → Represents (doc above left right below) buf
    → Edited
        (doc above left right below)
        (edit backspaces (doc above left right below))
        buf
        granted
        (backward granted buf)
unfolding backward
backward-Edited granted above [] right below buf r =
    let zero_at : buf.cursor_col ≡ 0 = unfold encode_all in r.col in
    let e : ltb 0 buf.cursor_col ≡ false = ground arith in
    rw e (join_previous-Edited granted above right below buf r)
backward-Edited granted above (x ∷ xs) right below buf r =
    let d = doc above (x ∷ xs) right below in
    let h = line-Holds d buf r in
    let p = cursor-pos x xs right (cursor_line buf) buf.cursor_col h in
    let e : ltb 0 buf.cursor_col ≡ true = ground arith in
    rw e (
      done _ (
        set_line-Represents d buf r (line xs right) _ _
          (deleted-Holds x xs right (cursor_line buf) buf.cursor_col h)))

pub delete_backward-Edited :
    (granted : Bool) (d : Doc) (buf : TextBuffer)
    → Represents d buf
    → Edited d (edit backspaces d) buf granted (delete_backward granted buf)
unfolding delete_backward
delete_backward-Edited granted d buf r =
    rw (some_line d buf r, has_selection-Represents d buf r, settled-Represents d buf r)
      (backward-Edited granted d.above d.line.left d.line.right d.below buf r)
