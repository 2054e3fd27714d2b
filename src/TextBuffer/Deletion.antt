-- ===== src/TextBuffer/Deletion.antt =====
-- The deletions behind the cursor in ui/text_buffer.c do to the buffer what `edit` does to the
-- document.
use mathlib.Core.List.{append-nil}
use retrodesk.Prelude.{
  ℕ, ◌+◌, ◌≤◌, ◌<◌, ◌≡◌, refl, sym, ap, ◌∙◌, Bool, true, false, not, ◌&&◌, inl, inr, List, [], ◌∷◌,
  ◌++◌, length, length-append, set, arith, ◌==◌, ltb, leb, if_either,
}
use retrodesk.Utf8.Codec.{bytes_of}
use retrodesk.Utf8.Scan.{next}
use retrodesk.Utf8.Text.{encode_all, bytes_of-pos}
use retrodesk.TextInput.Line.{before, take-Holds, length-Holds, next-Holds, encode_all-snoc}
use retrodesk.TextBuffer.State.{TextBuffer, line_at, line_count, cursor_line}
use retrodesk.TextBuffer.Editing.{
  remove_at, join_next, forward, delete_forward, cut_tail, kill_to_end,
}
use retrodesk.TextBuffer.Dispatch.{deletes, kills}
use retrodesk.TextBuffer.Doc.{
  Doc, Represents, rows_of, row-length, line_count-Represents, current-Represents, line-Holds,
  settled-Represents, clamp_cursor-Represents, has_selection-Represents, set_line-Represents,
}
use retrodesk.TextBuffer.Edit.{edit}
use retrodesk.TextBuffer.Rows.{line, cut-Holds, remove_at-set, row_below, line_below}
use retrodesk.TextBuffer.Backspace.{Edited, done, doc, some_line}

-- How the cursor stands in a row that ends at it, and in one that does not.
module _ (d : Doc) (buf : TextBuffer) (r : Represents d buf) where
  pub col-end : d.line.right ≡ [] → buf.cursor_col ≡ length (cursor_line buf)
  col-end e =
      let nothing : length (encode_all d.line.right) ≡ 0 =
        ap (λ xs. length (encode_all xs)) e ∙ (unfold encode_all in refl) in
      omega
        (arith, length-Holds d.line (cursor_line buf) buf.cursor_col (line-Holds d buf r), nothing)

  pub col-le : buf.cursor_col ≤ length (cursor_line buf)
  col-le = omega (arith, length-Holds d.line (cursor_line buf) buf.cursor_col (line-Holds d buf r))

module _ (above : List (List ℕ)) (left : List ℕ) (x : ℕ) (right : List ℕ) (below : List (List ℕ))
    (buf : TextBuffer) (r : Represents (doc above left (x ∷ right) below) buf) where
  pub next-eq : next (cursor_line buf) buf.cursor_col ≡ buf.cursor_col + length (bytes_of x)
  next-eq = omega (
    arith,
    next-Holds x left right (cursor_line buf) buf.cursor_col (line-Holds _ buf r),
    ap length (encode_all-snoc x left),
    length-append {0} (encode_all (before (line left (x ∷ right)))) (bytes_of x),
    r.col,
  )

  pub next-gt : buf.cursor_col < next (cursor_line buf) buf.cursor_col
  next-gt = omega (arith, next-eq, bytes_of-pos x r.scalars.1.0)

  pub col-lt : buf.cursor_col < length (cursor_line buf)
  unfolding encode_all
  col-lt = omega (
    arith,
    length-Holds (line left (x ∷ right)) (cursor_line buf) buf.cursor_col (line-Holds _ buf r),
    length-append {0} (bytes_of x) (encode_all right),
    bytes_of-pos x r.scalars.1.0,
  )

joined_below :
    (above : List (List ℕ)) (left bottom : List ℕ) (bottoms : List (List ℕ)) (buf : TextBuffer)
    → Represents (doc above left [] (bottom ∷ bottoms)) buf
    → Represents (doc above left bottom bottoms) (record buf {
      lines = remove_at (buf.cursor_row + 1) (
          set buf.lines buf.cursor_row (cursor_line buf ++ line_at buf.lines (buf.cursor_row + 1)));
    })
joined_below above left bottom bottoms buf r =
    let d = doc above left [] (bottom ∷ bottoms) in
    let following = line_below above (line left []) bottom bottoms buf r in
    let here : cursor_line buf ≡ encode_all (before (line left [])) =
      current-Represents d buf r ∙ (unfold encode_all in append-nil _) in
    record {
      lines =
          rw
            (
              following,
              here,
              row_below above (line left []) bottom bottoms buf r,
              row-length d buf r,
              r.lines,
            )
            (remove_at-set (rows_of above) _ _ _ _);
      row = r.row;
      col = r.col;
      free = r.free;
      scalars = (r.scalars.0, r.rows.1.0);
      rows = (r.rows.0, r.rows.1.1);
    }

join_next-Edited :
    (granted : Bool) (above : List (List ℕ)) (left : List ℕ) (below : List (List ℕ))
    (buf : TextBuffer)
    → Represents (doc above left [] below) buf
    → Edited
        (doc above left [] below)
        (edit deletes (doc above left [] below))
        buf
        granted
        (join_next granted buf)
unfolding join_next
join_next-Edited granted above left [] buf r =
    let e : leb (line_count buf) (buf.cursor_row + 1) ≡ true =
      ground (arith, r.row, line_count-Represents (doc above left [] []) buf r) in
    rw e (inl (r, λ _. refl))
join_next-Edited granted above left (bottom ∷ bottoms) buf r =
    let e : leb (line_count buf) (buf.cursor_row + 1) ≡ false =
      ground (arith, r.row, line_count-Represents (doc above left [] (bottom ∷ bottoms)) buf r) in
    rw e (
      if_either P (not (length (line_at buf.lines (buf.cursor_row + 1)) == 0) && not granted)
        (λ no. inr (ground arith, refl))
        (λ _. done _ (joined_below above left bottom bottoms buf r)))
  where
    P : TextBuffer × Bool → Type 0
    P = Edited (doc above left [] (bottom ∷ bottoms)) (doc above left bottom bottoms) buf granted

forward-Edited :
    (granted : Bool) (above : List (List ℕ)) (left right : List ℕ) (below : List (List ℕ))
    (buf : TextBuffer)
    → Represents (doc above left right below) buf
    → Edited
        (doc above left right below)
        (edit deletes (doc above left right below))
        buf
        granted
        (forward granted buf)
unfolding forward
forward-Edited granted above left [] below buf r =
    let e : ltb buf.cursor_col (length (cursor_line buf)) ≡ false =
      ground (arith, col-end (doc above left [] below) buf r refl) in
    rw e (join_next-Edited granted above left below buf r)
forward-Edited granted above left (x ∷ right) below buf r =
    let d = doc above left (x ∷ right) below in
    let h = line-Holds d buf r in
    let e : ltb buf.cursor_col (length (cursor_line buf)) ≡ true =
      ground (arith, col-lt above left x right below buf r) in
    let f : leb (next (cursor_line buf) buf.cursor_col) buf.cursor_col ≡ false =
      ground (arith, next-gt above left x right below buf r) in
    rw (e, f)
      (done _ (
        set_line-Represents d buf r (line left right) _ _
          (cut-Holds x left right (cursor_line buf) buf.cursor_col h)))

pub delete_forward-Edited :
    (granted : Bool) (d : Doc) (buf : TextBuffer)
    → Represents d buf
    → Edited d (edit deletes d) buf granted (delete_forward granted buf)
unfolding delete_forward
delete_forward-Edited granted d buf r =
    rw (some_line d buf r, has_selection-Represents d buf r, settled-Represents d buf r)
      (forward-Edited granted d.above d.line.left d.line.right d.below buf r)

cut_tail-Edited :
    (granted : Bool) (above : List (List ℕ)) (left right : List ℕ) (below : List (List ℕ))
    (buf : TextBuffer)
    → Represents (doc above left right below) buf
    → Edited
        (doc above left right below)
        (edit kills (doc above left right below))
        buf
        granted
        (cut_tail buf)
unfolding cut_tail
cut_tail-Edited granted above left [] below buf r =
    let e : leb (length (cursor_line buf)) buf.cursor_col ≡ true =
      ground (arith, col-end (doc above left [] below) buf r refl) in
    rw e (inl (r, λ _. refl))
cut_tail-Edited granted above left (x ∷ right) below buf r =
    let d = doc above left (x ∷ right) below in
    let h = line-Holds d buf r in
    let e : leb (length (cursor_line buf)) buf.cursor_col ≡ false =
      ground (arith, col-lt above left x right below buf r) in
    rw e (
      done _ (
        set_line-Represents d buf r (line left []) _ _ (record {
          text =
              take-Holds d.line (cursor_line buf) buf.cursor_col h
              ∙ (unfold encode_all in sym (append-nil _));
          at = h.at;
          scalars = (h.scalars.0, tt);
        })))

pub kill_to_end-Edited :
    (granted : Bool) (d : Doc) (buf : TextBuffer)
    → Represents d buf
    → Edited d (edit kills d) buf granted (kill_to_end granted buf)
unfolding kill_to_end
kill_to_end-Edited granted d buf r =
    rw (has_selection-Represents d buf r, clamp_cursor-Represents d buf r)
      (cut_tail-Edited granted d.above d.line.left d.line.right d.below buf r)
