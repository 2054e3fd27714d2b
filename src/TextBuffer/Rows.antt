-- ===== src/TextBuffer/Rows.antt =====
-- The rows around the cursor in ui/text_buffer.c, and the steps of the cursor in its row.
use mathlib.Core.List.{reverse, append_assoc}
use retrodesk.Prelude.Middle.{get_or-append, get_or-append_suc, set-append, take-append_suc}
use retrodesk.Prelude.{
  ℕ, suc, ◌+◌, ◌-◌, ◌≡◌, refl, sym, ap, ◌∙◌, List, [], ◌∷◌, ◌++◌, map, drop, take, length, set,
  arith,
}
use retrodesk.Utf8.Codec.{bytes_of}
use retrodesk.Utf8.Scan.{prev, next}
use retrodesk.Utf8.Text.{encode_all}
use retrodesk.TextInput.Line.{
  Line, Holds, take-Holds, drop-Holds, prev-Holds, take-prev, next-Holds, drop-next,
  encode_all-snoc,
}
use retrodesk.TextBuffer.State.{TextBuffer, line_at}
use retrodesk.TextBuffer.Editing.{remove_at}
use retrodesk.TextBuffer.Doc.{Represents, rows_of, current, length-rows_of}

abbrev pub line : List ℕ → List ℕ → Line
line left right = record { left = left; right = right }

-- A character before the cursor: it is deleted, or the cursor steps over it.
module _ (x : ℕ) (xs right text : List ℕ) (col : ℕ) (h : Holds (line (x ∷ xs) right) text col) where
  pub deleted-Holds :
      Holds (line xs right) (take (prev text col) text ++ drop col text) (prev text col)
  deleted-Holds = record {
    text =
        ap (λ ys. ys ++ drop col text) (take-prev x xs right text col h)
        ∙ ap (encode_all (reverse xs) ++◌) (drop-Holds (line (x ∷ xs) right) text col h);
    at = prev-Holds x xs right text col h;
    scalars = (h.scalars.0.1, h.scalars.1);
  }

  pub stepped-Holds : Holds (line xs (x ∷ right)) text (prev text col)
  unfolding encode_all
  stepped-Holds = record {
    text =
        h.text
        ∙ ap (λ ys. ys ++ encode_all right) (encode_all-snoc x xs)
        ∙ append_assoc (encode_all (reverse xs)) (bytes_of x) (encode_all right);
    at = prev-Holds x xs right text col h;
    scalars = (h.scalars.0.1, (h.scalars.0.0, h.scalars.1));
  }

-- A character behind the cursor.
module _ (x : ℕ) (left right text : List ℕ) (col : ℕ)
    (h : Holds (line left (x ∷ right)) text col) where
  pub cut-Holds : Holds (line left right) (take col text ++ drop (next text col) text) col
  cut-Holds = record {
    text =
        ap (λ ys. ys ++ drop (next text col) text) (take-Holds (line left (x ∷ right)) text col h)
        ∙ ap (encode_all (reverse left) ++◌) (drop-next x left right text col h);
    at = h.at;
    scalars = (h.scalars.0, h.scalars.1.1);
  }

  pub passed-Holds : Holds (line (x ∷ left) right) text (next text col)
  unfolding encode_all
  passed-Holds = record {
    text =
        h.text
        ∙ sym (append_assoc (encode_all (reverse left)) (bytes_of x) (encode_all right))
        ∙ ap (λ ys. ys ++ encode_all right) (sym (encode_all-snoc x left));
    at = next-Holds x left right text col h;
    scalars = ((h.scalars.1.0, h.scalars.0), h.scalars.1.1);
  }

drop-append_two {ℓ} :
    {A : Type ℓ} (xs : List A) (y z : A) (ys : List A)
    → drop (suc (suc (length xs))) (xs ++ y ∷ z ∷ ys) ≡ ys
drop-append_two [] y z ys = refl
drop-append_two (x ∷ xs) y z ys = drop-append_two xs y z ys

-- Two rows become one.
pub remove_at-set :
    (xs : List (List ℕ)) (y z w : List ℕ) (ys : List (List ℕ))
    → remove_at (suc (length xs)) (set (xs ++ y ∷ z ∷ ys) (length xs) w) ≡ xs ++ w ∷ ys
unfolding remove_at
remove_at-set xs y z w ys =
    rw (set-append xs y (z ∷ ys) w, take-append_suc xs w (z ∷ ys), drop-append_two xs w z ys)
      (append_assoc xs (w ∷ []) ys)

-- The row above the one with the cursor.
module _ (top : List ℕ) (tops : List (List ℕ)) (l : Line) (below : List (List ℕ)) (buf : TextBuffer)
    (r : Represents (record { above = top ∷ tops; line = l; below = below }) buf) where
  pub lines_above : buf.lines ≡ rows_of tops ++ encode_all top ∷ current l ∷ map encode_all below
  unfolding rows_of
  lines_above = r.lines ∙ append_assoc (rows_of tops) (encode_all top ∷ []) _

  pub row_above : buf.cursor_row - 1 ≡ length (rows_of tops)
  row_above = omega (arith, r.row, length-rows_of tops)

  pub line_above : line_at buf.lines (buf.cursor_row - 1) ≡ encode_all top
  line_above = rw (lines_above, row_above) (get_or-append (rows_of tops) _ _ [])

-- The row below the one with the cursor.
module _ (above : List (List ℕ)) (l : Line) (bottom : List ℕ) (bottoms : List (List ℕ))
    (buf : TextBuffer)
    (r : Represents (record { above = above; line = l; below = bottom ∷ bottoms }) buf) where
  pub row_below : buf.cursor_row + 1 ≡ suc (length (rows_of above))
  row_below = omega (arith, r.row, length-rows_of above)

  pub line_below : line_at buf.lines (buf.cursor_row + 1) ≡ encode_all bottom
  line_below = rw (r.lines, row_below) (get_or-append_suc (rows_of above) _ _ _ [])

  pub lines_below :
      buf.lines ≡ (rows_of above ++ (current l ∷ [])) ++ encode_all bottom ∷ map encode_all bottoms
  lines_below = r.lines ∙ sym (append_assoc (rows_of above) (current l ∷ []) _)
