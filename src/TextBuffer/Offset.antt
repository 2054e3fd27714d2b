-- ===== src/TextBuffer/Offset.antt =====
-- Offsets in the document of ui/text_buffer.c: where the cursor is, counted in bytes, and back.
use mathlib.Core.List.{reverse, append_assoc, reverse-append, reverse-cons, reverse-reverse}
use retrodesk.Prelude.{
  ℕ, suc, ◌+◌, ◌-◌, ◌≤◌, ◌≡◌, refl, sym, ap, ◌∙◌, true, false, some, List, [], ◌∷◌, ◌++◌, map,
  length, length-append, ◌==◌, leb, arith, All,
}
use retrodesk.Utf8.Codec.{bytes_of}
use retrodesk.Utf8.Text.{encode_all, encode_all-append, AllScalar}
use retrodesk.TextInput.Line.{before, All-reverse}
use retrodesk.TextBuffer.State.{
  TextBuffer, line_count, cursor, rows_size, document_offset, locate, past_newline,
  set_cursor_from_offset, boundary_at_or_before,
}
use retrodesk.TextBuffer.Boundary.{boundary-size}
use retrodesk.TextBuffer.Doc.{
  Doc, Represents, rows_of, current, length-rows_of, line_count-Represents, boundary-Represents,
}
use retrodesk.TextBuffer.Backspace.{some_line}
use retrodesk.TextBuffer.Flat.{newline, flat, flat_above}

-- The bytes and the newlines of some rows.
abbrev whole_size : List (List ℕ) → ℕ
whole_size rows = rows_size (length rows) rows

rows_size-append :
    (rows more : List (List ℕ)) → rows_size (length rows) (rows ++ more) ≡ whole_size rows
unfolding rows_size
rows_size-append [] more = refl
rows_size-append (r ∷ rs) more = ap (λ n. length r + 1 + n) (rows_size-append rs more)

whole_size-snoc :
    (rows : List (List ℕ)) (row : List ℕ)
    → whole_size (rows ++ (row ∷ [])) ≡ whole_size rows + (length row + 1)
unfolding rows_size
whole_size-snoc [] row = omega arith
whole_size-snoc (r ∷ rs) row = omega (arith, whole_size-snoc rs row)

-- The rows above, as bytes of the document.
whole_size-above :
    (above : List (List ℕ))
    → whole_size (rows_of above) ≡ length (encode_all (reverse (flat_above above)))
unfolding rows_of flat_above
whole_size-above [] = unfold encode_all rows_size in refl
whole_size-above (r ∷ rs) =
    let back : reverse (newline ∷ (reverse r ++ flat_above rs))
        ≡ reverse (flat_above rs) ++ (r ++ (newline ∷ [])) =
      reverse-cons newline (reverse r ++ flat_above rs)
      ∙ ap (λ xs. xs ++ (newline ∷ []))
          (reverse-append (reverse r) (flat_above rs)
            ∙ ap (reverse (flat_above rs) ++◌) (reverse-reverse r))
      ∙ append_assoc (reverse (flat_above rs)) r (newline ∷ []) in
    let one : length (encode_all (newline ∷ [])) ≡ 1 = unfold encode_all bytes_of in refl in
    omega (
      arith,
      whole_size-snoc (rows_of rs) (encode_all r),
      whole_size-above rs,
      ap (λ xs. length (encode_all xs)) back,
      ap length (encode_all-append (reverse (flat_above rs)) (r ++ (newline ∷ []))),
      length-append {0} (encode_all (reverse (flat_above rs))) (encode_all (r ++ (newline ∷ []))),
      ap length (encode_all-append r (newline ∷ [])),
      length-append {0} (encode_all r) (encode_all (newline ∷ [])),
      one,
    )

-- The offset of the cursor, from the rows.
abbrev pub rows_offset : Doc → ℕ
rows_offset d = whole_size (rows_of d.above) + length (encode_all (before d.line))

pub rows_offset-flat : (d : Doc) → rows_offset d ≡ length (encode_all (before (flat d)))
unfolding flat
rows_offset-flat d = omega (
  arith,
  whole_size-above d.above,
  ap (λ xs. length (encode_all xs)) (reverse-append d.line.left (flat_above d.above)),
  ap length (encode_all-append (reverse (flat_above d.above)) (before d.line)),
  length-append {0} (encode_all (reverse (flat_above d.above))) (encode_all (before d.line)),
)

-- The rows above the cursor's and the column make the size of the characters before the cursor.
pub rows_size-flat :
    (d : Doc) (buf : TextBuffer)
    → Represents d buf
    → rows_size buf.cursor_row buf.lines + buf.cursor_col ≡ length (encode_all (before (flat d)))
rows_size-flat d buf r =
    let row : buf.cursor_row ≡ length (rows_of d.above) = r.row ∙ sym (length-rows_of d.above) in
    let sizes : rows_size buf.cursor_row buf.lines ≡ whole_size (rows_of d.above) =
      rw (row, r.lines) (rows_size-append (rows_of d.above) _) in
    omega (arith, sizes, r.col, rows_offset-flat d)

-- The offset of the cursor in the document is the size of the characters before it, of those in
-- the rows above too, a newline behind each row.
pub document_offset-flat :
    (d : Doc) (buf : TextBuffer)
    → Represents d buf
    → document_offset buf (cursor buf) ≡ length (encode_all (before (flat d)))
unfolding document_offset
document_offset-flat d buf r =
    let in_row : leb (line_count buf) buf.cursor_row ≡ false =
      ground (arith, line_count-Represents d buf r, r.row) in
    rw (some_line d buf r, in_row, boundary-Represents d buf r) (rows_size-flat d buf r)

past_newline-append :
    (rows : List (List ℕ)) (row : List ℕ) (below : List (List ℕ)) (n : ℕ)
    → past_newline (rows ++ row ∷ below) n ≡ n - 1
past_newline-append [] row below n = refl
past_newline-append (r ∷ rs) row below n = refl

-- An offset in the rows of a document.
locate-rows :
    (k offset : ℕ) (rows : List (List ℕ)) (row : List ℕ) (below : List (List ℕ))
    → offset ≤ length row
    → locate k (whole_size rows + offset) (rows ++ row ∷ below)
      ≡ some (record { row = k + length rows; col = boundary_at_or_before row offset })
unfolding locate rows_size
locate-rows k offset [] row below h =
    let e : leb (0 + offset) (length row) ≡ true = ground arith in
    let z : 0 + offset ≡ offset = omega arith in
    let k' : k ≡ k + 0 = omega arith in
    rw (e, z) (ap (λ n. some (record { row = n; col = boundary_at_or_before row offset })) k')
locate-rows k offset (r ∷ rs) row below h =
    let past : leb (length r + 1 + whole_size rs + offset) (length r) ≡ false = ground arith in
    let left : length r + 1 + whole_size rs + offset - length r - 1 ≡ whole_size rs + offset =
      omega arith in
    let n : suc k + length rs ≡ k + suc (length rs) = omega arith in
    rw (past, past_newline-append rs row below _, left)
      (locate-rows (suc k) offset rs row below h
        ∙ ap (λ m. some (record { row = m; col = boundary_at_or_before row offset })) n)

-- What the lines of a buffer are, wherever its cursor is.
pub record HasRows (d : Doc) (lines : List (List ℕ)) : Type 0 where
  pub rows : lines ≡ rows_of d.above ++ current d.line ∷ map encode_all d.below
  pub scalars : AllScalar d.line.left × AllScalar d.line.right
  pub others : All AllScalar d.above × All AllScalar d.below

module _ (d : Doc) (buf : TextBuffer) (h : HasRows d buf.lines) where
  some_row : (line_count buf == 0) ≡ false
  some_row = ground (
    arith,
    ap length h.rows,
    length-append {0} (rows_of d.above) (current d.line ∷ map encode_all d.below),
  )

  locate-flat :
      locate 0 (length (encode_all (before (flat d)))) buf.lines
      ≡ some (record { row = length d.above; col = length (encode_all (before d.line)) })
  locate-flat =
      let l = d.line in
      let inside : length (encode_all (before l)) ≤ length (current l) =
        omega (arith, length-append {0} (encode_all (before l)) (encode_all l.right)) in
      let kept : boundary_at_or_before (current l) (length (encode_all (before l)))
          ≡ length (encode_all (before l)) =
        rw⁻¹ (encode_all-append (before l) l.right)
          (boundary-size (before l) l.right (All-reverse l.left l.right h.scalars.0 h.scalars.1)) in
      let row : 0 + length (rows_of d.above) ≡ length d.above =
        omega (arith, length-rows_of d.above) in
      rw (h.rows, ← rows_offset-flat d)
        (locate-rows 0 _ (rows_of d.above) (current l) (map encode_all d.below) inside
          ∙ rw (kept, row) refl)

  -- The offset of a place between two characters puts the cursor at this place.
  pub set_cursor_from_offset-Represents :
      buf.selection_active ≡ false
      → Represents d (set_cursor_from_offset (length (encode_all (before (flat d)))) buf)
  unfolding set_cursor_from_offset
  set_cursor_from_offset-Represents free =
      rw (some_row, locate-flat)
        (record {
          lines = h.rows;
          row = refl;
          col = refl;
          free = free;
          scalars = h.scalars;
          rows = h.others;
        })

-- The offset of the cursor puts the cursor back where it is.
pub set_cursor_from_offset-document_offset :
    (d : Doc) (buf : TextBuffer)
    → Represents d buf
    → set_cursor_from_offset (document_offset buf (cursor buf)) buf ≡ buf
unfolding set_cursor_from_offset
set_cursor_from_offset-document_offset d buf r =
    let h : HasRows d buf.lines = record { rows = r.lines; scalars = r.scalars; others = r.rows } in
    rw (document_offset-flat d buf r, some_row d buf h, locate-flat d buf h)
      (ap (λ n. record buf { cursor_row = n; cursor_col = length (encode_all (before d.line)) })
          (sym r.row)
        ∙ ap (λ n. record buf { cursor_col = n }) (sym r.col))
