-- ===== src/TextBuffer/State.antt =====
-- The state of ui/text_buffer.c: positions, the selection, and offsets in the document.
use Prim.Native.Nat.{Ordering, compare}
use retrodesk.Prelude.{
  ℕ, zero, suc, ◌+◌, ◌-◌, Option, none, some, Bool, true, false, not, ◌&&◌, ◌||◌, List, [], ◌∷◌,
  ◌==◌, ltb, leb, if◌then◌else◌, length, get_or,
}
use retrodesk.Utf8.Scan.{next, columns, prefix_bytes}

-- A line is the list of its bytes; `line_count` is the length of `lines`. The capacities are left
-- out: whether memory suffices is an argument of the operations that need more of it.
pub record TextBuffer : Type 0 where
  pub lines : List (List ℕ)
  pub cursor_row : ℕ
  pub cursor_col : ℕ
  pub scroll_row : ℕ
  pub scroll_col : ℕ
  pub selection_active : Bool
  pub selection_anchor_row : ℕ
  pub selection_anchor_col : ℕ

pub record TextPosition : Type 0 where
  pub row : ℕ
  pub col : ℕ

pub record TextRange : Type 0 where
  pub start : TextPosition
  pub finish : TextPosition

abbrev pub line_at : List (List ℕ) → ℕ → List ℕ
line_at lines row = get_or lines row []

abbrev pub line_count : TextBuffer → ℕ
line_count buf = length buf.lines

abbrev pub cursor_line : TextBuffer → List ℕ
cursor_line buf = line_at buf.lines buf.cursor_row

-- The loop of `text_line_boundary_at_or_before`; a round takes a byte at least.
unfoldable pub boundary_loop : ℕ → List ℕ → ℕ → ℕ → ℕ
boundary_loop zero line offset position = position
boundary_loop (suc fuel) line offset position =
    let further = boundary_loop fuel line offset (next line position) in
    if leb (length line) position
    then length line
    else if position == offset
    then position
    else if leb (next line position) position || ltb offset (next line position)
    then position
    else further

unfoldable pub boundary_at_or_before : List ℕ → ℕ → ℕ
boundary_at_or_before line offset =
    if leb (length line) offset then length line else boundary_loop (length line) line offset 0

unfoldable pub clamp_cursor : TextBuffer → TextBuffer
clamp_cursor buf =
    let row = if leb (line_count buf) buf.cursor_row then line_count buf - 1 else buf.cursor_row in
    if line_count buf == 0 then buf else record buf {
      cursor_row = row;
      cursor_col = boundary_at_or_before (line_at buf.lines row) buf.cursor_col;
    }

unfoldable pub position_compare : TextPosition → TextPosition → Ordering
position_compare left right = elim (compare left.row right.row) [
  | Ordering.eq ↦ compare left.col right.col
  | other ↦ other
]

abbrev pub anchor : TextBuffer → TextPosition
anchor buf = record { row = buf.selection_anchor_row; col = buf.selection_anchor_col }

abbrev pub cursor : TextBuffer → TextPosition
cursor buf = record { row = buf.cursor_row; col = buf.cursor_col }

unfoldable pub selection_range : TextBuffer → Option TextRange
selection_range buf =
    if not buf.selection_active || line_count buf == 0
    then none
    else elim (position_compare (anchor buf) (cursor buf)) [
      | Ordering.eq ↦ none
      | Ordering.lt ↦ some (record { start = anchor buf; finish = cursor buf })
      | Ordering.gt ↦ some (record { start = cursor buf; finish = anchor buf })
    ]

abbrev pub is_some : Option TextRange → Bool
is_some none = false
is_some (some r) = true

unfoldable pub has_selection : TextBuffer → Bool
has_selection buf = is_some (selection_range buf)

unfoldable pub clear_selection : TextBuffer → TextBuffer
clear_selection buf = record buf {
  selection_active = false;
  selection_anchor_row = 0;
  selection_anchor_col = 0;
}

unfoldable pub clear_collapsed_selection : TextBuffer → TextBuffer
clear_collapsed_selection buf =
    if buf.selection_active && not (has_selection buf) then clear_selection buf else buf

unfoldable pub columns_to : List ℕ → ℕ → ℕ
columns_to line byte_offset = columns line 0 (boundary_at_or_before line byte_offset)

unfoldable pub byte_for_columns : List ℕ → ℕ → ℕ
byte_for_columns line n = prefix_bytes line n

-- The bytes and the separators of the first lines.
unfoldable pub rows_size : ℕ → List (List ℕ) → ℕ
rows_size zero lines = 0
rows_size (suc n) [] = 0
rows_size (suc n) (line ∷ lines) = length line + 1 + rows_size n lines

unfoldable pub document_offset : TextBuffer → TextPosition → ℕ
document_offset buf position =
    let row = if leb (line_count buf) position.row then line_count buf - 1 else position.row in
    if line_count buf == 0
    then 0
    else rows_size row buf.lines + boundary_at_or_before (line_at buf.lines row) position.col

-- `if (row + 1 < line_count && offset > 0) offset--;`, with the lines behind the row.
abbrev pub past_newline : List (List ℕ) → ℕ → ℕ
past_newline [] offset = offset
past_newline (line ∷ lines) offset = offset - 1

-- The loop of `text_buffer_set_cursor_from_offset`.
unfoldable pub locate : ℕ → ℕ → List (List ℕ) → Option TextPosition
locate row offset [] = none
locate row offset (line ∷ lines) =
    if leb offset (length line)
    then some (record { row = row; col = boundary_at_or_before line offset })
    else locate (suc row) (past_newline lines (offset - length line)) lines

unfoldable pub set_cursor_from_offset : ℕ → TextBuffer → TextBuffer
set_cursor_from_offset offset buf =
    if line_count buf == 0 then buf else elim (locate 0 offset buf.lines) [
      | some p ↦ record buf { cursor_row = p.row; cursor_col = p.col }
      | none ↦ record buf {
        cursor_row = line_count buf - 1;
        cursor_col = length (line_at buf.lines (line_count buf - 1));
      }
    ]
