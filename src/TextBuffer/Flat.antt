-- ===== src/TextBuffer/Flat.antt =====
-- The document of ui/text_buffer.c as one line of code points with newlines in it.
use mathlib.Core.List.{
  reverse, append_assoc, append-nil, reverse-append, reverse-cons, reverse-reverse,
}
use retrodesk.Prelude.{ℕ, ◌≡◌, refl, sym, ap, ◌∙◌, true, some, List, [], ◌∷◌, ◌++◌, map}
use retrodesk.Utf8.Codec.{bytes_of}
use retrodesk.Utf8.Text.{encode_all, encode_all-append}
use retrodesk.TextInput.Line.{Line, before}
use retrodesk.TextInput.Line.{edit as edit_line}
use retrodesk.TextInput.Typing.{insert as insert_line}
use retrodesk.TextInput.Widget.{
  backspaces as erases, deletes as erases_next, lefts as goes_left, rights as goes_right,
}
use retrodesk.TextBuffer.State.{TextBuffer}
use retrodesk.TextBuffer.Content.{join_lines, to_text}
use retrodesk.TextBuffer.Dispatch.{newlines, backspaces, deletes, lefts, rights}
use retrodesk.TextBuffer.Doc.{Doc, Represents, rows_of}
use retrodesk.TextBuffer.Edit.{edit, insert, row_of}
use retrodesk.TextBuffer.Backspace.{doc, some_line}

abbrev pub newline : ℕ
newline = 0x0A

-- What stands before the row of the cursor, the nearest first, and what stands behind it.
unfoldable pub flat_above : List (List ℕ) → List ℕ
flat_above [] = []
flat_above (r ∷ rs) = newline ∷ (reverse r ++ flat_above rs)

unfoldable pub flat_below : List (List ℕ) → List ℕ
flat_below [] = []
flat_below (r ∷ rs) = newline ∷ (r ++ flat_below rs)

unfoldable pub flat : Doc → Line
flat d = record {
  left = d.line.left ++ flat_above d.above;
  right = d.line.right ++ flat_below d.below;
}

module _ (d : Doc) where
  typed_flat : (cp : ℕ) → flat (insert cp d) ≡ insert_line cp (flat d)
  unfolding flat
  typed_flat cp = refl

  broken_flat : flat (edit newlines d) ≡ insert_line newline (flat d)
  unfolding flat flat_above
  broken_flat =
      ap
        (λ xs. record {
          left = newline ∷ (xs ++ flat_above d.above);
          right = d.line.right ++ flat_below d.below;
        })
        (reverse-reverse d.line.left)

erased_flat :
    (above : List (List ℕ)) (left right : List ℕ) (below : List (List ℕ))
    → flat (edit backspaces (doc above left right below))
      ≡ edit_line erases (flat (doc above left right below))
unfolding flat flat_above edit_line
erased_flat above (x ∷ xs) right below = refl
erased_flat [] [] right below = refl
erased_flat (r ∷ rs) [] right below = refl

erased_next_flat :
    (above : List (List ℕ)) (left right : List ℕ) (below : List (List ℕ))
    → flat (edit deletes (doc above left right below))
      ≡ edit_line erases_next (flat (doc above left right below))
unfolding flat flat_below edit_line
erased_next_flat above left (x ∷ xs) below = refl
erased_next_flat above left [] [] = refl
erased_next_flat above left [] (r ∷ rs) = refl

left_flat :
    (above : List (List ℕ)) (left right : List ℕ) (below : List (List ℕ))
    → flat (edit lefts (doc above left right below))
      ≡ edit_line goes_left (flat (doc above left right below))
unfolding flat flat_above flat_below edit_line
left_flat above (x ∷ xs) right below = refl
left_flat [] [] right below = refl
left_flat (r ∷ rs) [] right below = refl

right_flat :
    (above : List (List ℕ)) (left right : List ℕ) (below : List (List ℕ))
    → flat (edit rights (doc above left right below))
      ≡ edit_line goes_right (flat (doc above left right below))
unfolding flat flat_above flat_below edit_line
right_flat above left (x ∷ xs) below = refl
right_flat above left [] [] = refl
right_flat above left [] (r ∷ rs) =
    ap (λ xs. record { left = newline ∷ (xs ++ flat_above above); right = r ++ flat_below rs })
      (reverse-reverse left)

-- The rows are one line of characters with newlines between them: a line break inserts a newline,
-- and the deletions and the steps of the cursor go over a newline as over any character.
pub edit-flat :
    (d : Doc)
    → (flat (edit newlines d) ≡ insert_line newline (flat d))
      × (flat (edit backspaces d) ≡ edit_line erases (flat d))
      × (flat (edit deletes d) ≡ edit_line erases_next (flat d))
      × (flat (edit lefts d) ≡ edit_line goes_left (flat d))
      × (flat (edit rights d) ≡ edit_line goes_right (flat d))
edit-flat d = (
  broken_flat d,
  erased_flat d.above d.line.left d.line.right d.below,
  erased_next_flat d.above d.line.left d.line.right d.below,
  left_flat d.above d.line.left d.line.right d.below,
  right_flat d.above d.line.left d.line.right d.below,
)

join_lines-append :
    (xs : List (List ℕ)) (y z : List ℕ) (ys : List (List ℕ))
    → join_lines ((xs ++ (y ∷ [])) ++ z ∷ ys) ≡ join_lines (xs ++ (y ++ newline ∷ z) ∷ ys)
unfolding join_lines
join_lines-append [] y z [] = refl
join_lines-append [] y z (w ∷ ys) =
    sym (append_assoc y (newline ∷ z) (newline ∷ join_lines (w ∷ ys)))
join_lines-append (x ∷ []) y z ys = ap (λ t. x ++ newline ∷ t) (join_lines-append [] y z ys)
join_lines-append (x ∷ x' ∷ xs) y z ys =
    ap (λ t. x ++ newline ∷ t) (join_lines-append (x' ∷ xs) y z ys)

encode_newline : (xs : List ℕ) → encode_all (newline ∷ xs) ≡ newline ∷ encode_all xs
unfolding encode_all bytes_of
encode_newline xs = refl

join_below :
    (row : List ℕ) (below : List (List ℕ))
    → join_lines (encode_all row ∷ map encode_all below) ≡ encode_all (row ++ flat_below below)
unfolding join_lines flat_below
join_below row [] = ap encode_all (sym (append-nil row))
join_below row (r ∷ rs) =
    ap (λ t. encode_all row ++ newline ∷ t) (join_below r rs)
    ∙ ap (encode_all row ++◌) (sym (encode_newline (r ++ flat_below rs)))
    ∙ sym (encode_all-append row (newline ∷ (r ++ flat_below rs)))

join_above :
    (above : List (List ℕ)) (row : List ℕ) (below : List (List ℕ))
    → join_lines (rows_of above ++ encode_all row ∷ map encode_all below)
      ≡ encode_all (reverse (flat_above above) ++ (row ++ flat_below below))
unfolding rows_of flat_above
join_above [] row below = join_below row below
join_above (r ∷ rs) row below =
    let one : encode_all r ++ newline ∷ encode_all row ≡ encode_all (r ++ newline ∷ row) =
      ap (encode_all r ++◌) (sym (encode_newline row))
      ∙ sym (encode_all-append r (newline ∷ row)) in
    let back : reverse (newline ∷ (reverse r ++ flat_above rs))
        ≡ (reverse (flat_above rs) ++ r) ++ (newline ∷ []) =
      reverse-cons newline (reverse r ++ flat_above rs)
      ∙ ap (λ xs. xs ++ (newline ∷ []))
          (reverse-append (reverse r) (flat_above rs)
            ∙ ap (reverse (flat_above rs) ++◌) (reverse-reverse r)) in
    join_lines-append (rows_of rs) (encode_all r) (encode_all row) (map encode_all below)
    ∙ ap (λ t. join_lines (rows_of rs ++ t ∷ map encode_all below)) one
    ∙ join_above rs (r ++ newline ∷ row) below
    ∙ ap encode_all (rw back (simp append_assoc refl))

-- The text of a buffer is that line, its characters encoded.
pub to_text-flat :
    (d : Doc) (buf : TextBuffer)
    → Represents d buf
    → to_text true buf ≡ some (encode_all (row_of (flat d)))
unfolding to_text flat
to_text-flat d buf r =
    rw (some_line d buf r, r.lines)
      (ap some (
        ap (λ t. join_lines (rows_of d.above ++ t ∷ map encode_all d.below))
          (sym (encode_all-append (before d.line) d.line.right))
        ∙ join_above d.above (row_of d.line) d.below
        ∙ ap encode_all shuffle))
  where
    shuffle :
        reverse (flat_above d.above) ++ (row_of d.line ++ flat_below d.below)
        ≡ reverse (d.line.left ++ flat_above d.above) ++ (d.line.right ++ flat_below d.below)
    shuffle = rw (reverse-append d.line.left (flat_above d.above)) (simp append_assoc refl)
