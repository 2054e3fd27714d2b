-- ===== src/TextBuffer/Places.antt =====
-- Positions in the document of ui/text_buffer.c as places in its text: which of two comes first.
use Prim.Native.Nat.{Ordering}
use mathlib.Core.List.{reverse, reverse-reverse}
use retrodesk.Prelude.{
  ℕ, zero, suc, ◌+◌, ◌<◌, ◌≤◌, ◌≡◌, ap, ◌∙◌, some, true, false, inl, inr, Bool-cases, leb, List, [],
  ◌∷◌, ◌++◌, length, ◌==◌, get_or, arith,
}
use retrodesk.Utf8.Text.{encode_all, encode_all-append}
use retrodesk.TextInput.Line.{before}
use retrodesk.TextBuffer.State.{
  TextBuffer, TextPosition, line_count, line_at, position_compare, rows_size, document_offset,
}
use retrodesk.TextBuffer.Content.{to_text}
use retrodesk.TextBuffer.Doc.{Doc, Represents, line_count-Represents}
use retrodesk.TextBuffer.Backspace.{some_line}
use retrodesk.TextBuffer.Deletion.{col-le}
use retrodesk.TextBuffer.Flat.{flat, to_text-flat}
use retrodesk.TextBuffer.Offset.{rows_size-flat, document_offset-flat}

-- The lines of a buffer with the cursor elsewhere and nothing selected.
abbrev pub at_place : TextPosition → TextBuffer → TextBuffer
at_place p buf = record buf { cursor_row = p.row; cursor_col = p.col; selection_active = false }

-- A position between two characters of the text: those before it and those behind it.
pub record Place (xs zs : List ℕ) (p : TextPosition) (buf : TextBuffer) : Type 0 where
  pub document : Doc
  pub stands : Represents document (at_place p buf)
  pub text : flat document ≡ record { left = reverse xs; right = zs }

-- A row begins behind all of the rows above it.
rows_size-below :
    (i j : ℕ) (lines : List (List ℕ))
    → i < length lines
    → j < i
    → rows_size j lines + length (get_or lines j []) < rows_size i lines
unfolding rows_size
rows_size-below i j [] h l = absurd (omega arith)
rows_size-below zero j (x ∷ xs) h l = absurd (omega arith)
rows_size-below (suc i) zero (x ∷ xs) h l = omega arith
rows_size-below (suc i) (suc j) (x ∷ xs) h l =
    omega (arith, rows_size-below i j xs (omega arith) (omega arith))

module _ (xs zs : List ℕ) (p : TextPosition) (buf : TextBuffer) (h : Place xs zs p buf) where
  before-Place : before (flat h.document) ≡ xs
  before-Place = ap before h.text ∙ reverse-reverse xs

  -- The offset of a place is the size of the characters before it.
  pub document_offset-Place : document_offset buf p ≡ length (encode_all xs)
  unfolding document_offset
  document_offset-Place =
      rw (before-Place) at (document_offset-flat h.document (at_place p buf) h.stands)

  pub rows_size-Place : rows_size p.row buf.lines + p.col ≡ length (encode_all xs)
  rows_size-Place = rw (before-Place) at (rows_size-flat h.document (at_place p buf) h.stands)

  -- The text of the buffer is what stands before the place and behind it.
  pub to_text-Place : to_text true buf ≡ some (encode_all xs ++ encode_all zs)
  unfolding to_text
  to_text-Place =
      to_text-flat h.document (at_place p buf) h.stands
      ∙ ap (λ l. some (encode_all (before l ++ l.right))) h.text
      ∙ ap (λ t. some (encode_all (t ++ zs))) (reverse-reverse xs)
      ∙ ap some (encode_all-append xs zs)

  pub row-Place : p.row < length buf.lines
  row-Place =
      ground (arith, line_count-Represents h.document (at_place p buf) h.stands, h.stands.row)

  pub col-Place : p.col ≤ length (line_at buf.lines p.row)
  col-Place = col-le h.document (at_place p buf) h.stands

  pub some_line-Place : (line_count buf == 0) ≡ false
  some_line-Place = some_line h.document (at_place p buf) h.stands

-- Of two places the one with fewer bytes before it comes first.
module _ (buf : TextBuffer) (p q : TextPosition) (xs zs xs' zs' : List ℕ) (from : Place xs zs p buf)
    (to : Place xs' zs' q buf) (less : length (encode_all xs) < length (encode_all xs')) where
  row-le : p.row ≤ q.row
  row-le = elim (Bool-cases (leb p.row q.row)) [
    | inl e ↦ ground arith
    | inr e ↦
        let past : q.row < p.row = ground arith in
        absurd (
          omega (
            arith,
            rows_size-below p.row q.row buf.lines (row-Place xs zs p buf from) past,
            rows_size-Place xs zs p buf from,
            rows_size-Place xs' zs' q buf to,
            col-Place xs' zs' q buf to,
          ))
  ]

  col-lt : p.row ≡ q.row → p.col < q.col
  col-lt e = omega (
    arith,
    ap (λ n. rows_size n buf.lines) e,
    rows_size-Place xs zs p buf from,
    rows_size-Place xs' zs' q buf to,
  )

  pub position_compare-lt : position_compare p q ≡ Ordering.lt
  unfolding position_compare
  position_compare-lt = ground (arith, row-le, col-lt)

  pub position_compare-gt : position_compare q p ≡ Ordering.gt
  unfolding position_compare
  position_compare-gt = ground (arith, row-le, col-lt)
