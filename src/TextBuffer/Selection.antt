-- ===== src/TextBuffer/Selection.antt =====
-- The selection of ui/text_buffer.c as a part of the text: it is read, and it is deleted.
use mathlib.Core.List.{append-nil}
use retrodesk.Prelude.{
  ℕ, ◌+◌, ◌-◌, ◌<◌, ◌≡◌, refl, ap, ◌∙◌, some, true, false, ◌⊎◌, inl, inr, List, [], ◌∷◌, ◌++◌,
  length, length-append, Bool-cases, arith,
}
use retrodesk.Utf8.Codec.{bytes_of}
use retrodesk.Utf8.Text.{encode_all, encode_all-append, drop-append}
use retrodesk.TextInput.Line.{take-append}
use retrodesk.TextBuffer.State.{
  TextBuffer, TextPosition, TextRange, anchor, cursor, selection_range, has_selection,
  position_compare, document_offset,
}
use retrodesk.TextBuffer.Content.{
  is_eq, replace_range, insert_text, selected_text, delete_selection,
}
use retrodesk.TextBuffer.Boundary.{size-cons}
use retrodesk.TextBuffer.Places.{
  Place, document_offset-Place, to_text-Place, some_line-Place, position_compare-lt,
  position_compare-gt,
}
use retrodesk.TextBuffer.Replacing.{IsText, HasCursor, Covers, in_document, replace_range-HasCursor}

-- A part of the text is selected: the anchor stands at one end of it and the cursor at the other.
pub record Selects (xs ys zs : List ℕ) (buf : TextBuffer) : Type 0 where
  pub active : buf.selection_active ≡ true
  pub ends :
      (Place xs (ys ++ zs) (anchor buf) buf × Place (xs ++ ys) zs (cursor buf) buf)
      ⊎ (Place xs (ys ++ zs) (cursor buf) buf × Place (xs ++ ys) zs (anchor buf) buf)

some_byte : (cp : ℕ) → 0 < length (bytes_of cp)
unfolding bytes_of
some_byte cp = ground arith

module _ (xs : List ℕ) (y : ℕ) (ys zs : List ℕ) where
  end-size :
      length (encode_all (xs ++ y ∷ ys)) ≡ length (encode_all xs) + length (encode_all (y ∷ ys))
  end-size =
      ap length (encode_all-append xs (y ∷ ys))
      ∙ length-append (encode_all xs) (encode_all (y ∷ ys))

  longer : length (encode_all xs) < length (encode_all (xs ++ y ∷ ys))
  longer = omega (arith, end-size, size-cons y ys, some_byte y)

  -- Two places with a part of the text between them.
  places-Covers :
      (p q : TextPosition) (buf : TextBuffer)
      → Place xs (y ∷ ys ++ zs) p buf
      → Place (xs ++ y ∷ ys) zs q buf
      → Covers xs (y ∷ ys) zs (record { start = p; finish = q }) buf
  places-Covers p q buf from to = record {
    text =
        to_text-Place xs (y ∷ ys ++ zs) p buf from
        ∙ ap (λ t. some (encode_all xs ++ t)) (encode_all-append (y ∷ ys) zs);
    from = document_offset-Place xs (y ∷ ys ++ zs) p buf from;
    to = document_offset-Place (xs ++ y ∷ ys) zs q buf to ∙ end-size;
  }

  module _ (buf : TextBuffer) (s : Selects xs (y ∷ ys) zs buf) where
    -- The range of a selection covers the selected part, whichever end of it the cursor is at.
    selection_range-Covers :
        (range : TextRange) × (selection_range buf ≡ some range) × Covers xs (y ∷ ys) zs range buf
    unfolding selection_range
    selection_range-Covers = elim s.ends [
      | inl (from, to) ↦ (
        record { start = anchor buf; finish = cursor buf },
        rw
            (
              s.active,
              some_line-Place _ _ (anchor buf) buf from,
              position_compare-lt buf (anchor buf) (cursor buf) _ _ _ _ from to longer,
            )
            refl,
        places-Covers (anchor buf) (cursor buf) buf from to,
      )
      | inr (from, to) ↦ (
        record { start = cursor buf; finish = anchor buf },
        rw
            (
              s.active,
              some_line-Place _ _ (cursor buf) buf from,
              position_compare-gt buf (cursor buf) (anchor buf) _ _ _ _ from to longer,
            )
            refl,
        places-Covers (cursor buf) (anchor buf) buf from to,
      )
    ]

-- Where memory suffices, the selected text is the part of the text between the anchor and the cursor,
-- where this part is not empty, whichever of the two comes first.
pub selected_text-Selects :
    (xs : List ℕ) (y : ℕ) (ys zs : List ℕ) (buf : TextBuffer)
    → Selects xs (y ∷ ys) zs buf
    → selected_text true buf ≡ some (encode_all (y ∷ ys))
unfolding selected_text
selected_text-Selects xs y ys zs buf s =
    let (range, selected, covers) = selection_range-Covers xs y ys zs buf s in
    let part = encode_all (y ∷ ys) in
    let span : length (encode_all xs) + length part - length (encode_all xs) ≡ length part =
      omega arith in
    rw
      (
        selected,
        selected_text,
        covers.text,
        covers.from,
        covers.to,
        in_document xs (y ∷ ys) zs,
        span,
        drop-append (encode_all xs) (part ++ encode_all zs),
        take-append part (encode_all zs),
      )
      refl

-- Positions that compare as equal are equal.
position_compare-eq : (p q : TextPosition) → is_eq (position_compare p q) ≡ true → p ≡ q
unfolding position_compare
position_compare-eq p q e =
    let row : p.row ≡ q.row = ground arith in
    let col : p.col ≡ q.col = ground arith in
    ap (λ n. record { row = n; col = p.col }) row ∙ ap (λ n. record { row = q.row; col = n }) col

-- Deleting the part of the text between the anchor and the cursor, where this part is not empty,
-- succeeds where memory suffices and the text around it has no NUL: the text before it and behind it
-- stays, and the cursor stands between the two, whichever of the anchor and the cursor came first.
pub delete_selection-HasCursor :
    (xs : List ℕ) (y : ℕ) (ys zs : List ℕ) (buf : TextBuffer)
    → IsText xs
    → IsText zs
    → Selects xs (y ∷ ys) zs buf
    → ((delete_selection true buf).1 ≡ true) × HasCursor xs zs (delete_selection true buf).0
unfolding delete_selection insert_text has_selection
delete_selection-HasCursor xs y ys zs buf x z s =
    let (range, selected, covers) = selection_range-Covers xs y ys zs buf s in
    let apart : is_eq (position_compare range.start range.finish) ≡ false =
      elim (Bool-cases (is_eq (position_compare range.start range.finish))) [
        | inr e ↦ e
        | inl e ↦
            let same = position_compare-eq range.start range.finish e in
            absurd (
              omega (
                arith,
                ap (document_offset buf) same,
                covers.from,
                covers.to,
                size-cons y ys,
                some_byte y,
              ))
      ] in
    let done : ((replace_range true range [] buf).1 ≡ true)
        × HasCursor (xs ++ []) zs (replace_range true range [] buf).0 =
      unfold encode_all in
      replace_range-HasCursor xs (y ∷ ys) zs [] range buf x z (tt, tt) covers in
    rw (selected, apart) (done.0, rw (append-nil xs) at done.1)
