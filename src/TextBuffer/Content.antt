-- ===== src/TextBuffer/Content.antt =====
-- The content of ui/text_buffer.c: reading and setting the whole text, and replacing a range of it.
use Prim.Native.Nat.{Ordering}
use retrodesk.Prelude.{
  ℕ, ◌+◌, ◌-◌, Option, none, some, Bool, true, false, not, ◌&&◌, ◌||◌, List, [], ◌∷◌, ◌++◌, ◌==◌,
  ltb, leb, if◌then◌else◌, length, take, drop,
}
use retrodesk.Clipboard.{has_nul}
use retrodesk.Utf8.Scan.{validate}
use retrodesk.TextBuffer.State.{
  TextBuffer, TextRange, line_at, line_count, cursor, position_compare, selection_range,
  clear_selection, has_selection, document_offset, set_cursor_from_offset, clamp_cursor,
}

-- `text_buffer_create`, where the allocations succeed.
unfoldable pub create : TextBuffer
create = record {
  lines = [] ∷ [];
  cursor_row = 0;
  cursor_col = 0;
  scroll_row = 0;
  scroll_col = 0;
  selection_active = false;
  selection_anchor_row = 0;
  selection_anchor_col = 0;
}

-- `text_buffer_clear`: it frees the lines before it asks for memory for the new one.
unfoldable pub clear : Bool → TextBuffer → TextBuffer
clear granted buf =
    if granted
    then clear_selection (record buf {
      lines = [] ∷ [];
      cursor_row = 0;
      cursor_col = 0;
      scroll_row = 0;
      scroll_col = 0;
    })
    else record buf { lines = [] }

abbrev pub cons_first : ℕ → List (List ℕ) → List (List ℕ)
cons_first b [] = (b ∷ []) ∷ []
cons_first b (line ∷ lines) = (b ∷ line) ∷ lines

-- The lines that the loop of `text_buffer_set_text` makes: the parts between the newlines.
unfoldable pub split_lines : List ℕ → List (List ℕ)
split_lines [] = [] ∷ []
split_lines (b ∷ bs) =
    let rest = split_lines bs in if b == 0x0A then [] ∷ rest else cons_first b rest

-- The state at the end of `text_buffer_set_text`.
abbrev pub with_lines : List (List ℕ) → TextBuffer → TextBuffer
with_lines next_lines buf = record buf {
  lines = next_lines;
  cursor_row = length next_lines - 1;
  cursor_col = length (line_at next_lines (length next_lines - 1));
  scroll_row = 0;
  scroll_col = 0;
}

-- `text_buffer_set_text` of a C string.
unfoldable pub set_text : Bool → List ℕ → TextBuffer → TextBuffer × Bool
set_text granted text buf =
    if not (validate text)
    then (buf, false)
    else if granted
    then (clear_selection (with_lines (split_lines text) buf), true)
    else (buf, false)

-- The lines with a newline between each two.
unfoldable pub join_lines : List (List ℕ) → List ℕ
join_lines [] = []
join_lines (line ∷ []) = line
join_lines (line ∷ next ∷ lines) = line ++ 0x0A ∷ join_lines (next ∷ lines)

unfoldable pub to_text : Bool → TextBuffer → Option (List ℕ)
to_text granted buf =
    if line_count buf == 0 then none else if granted then some (join_lines buf.lines) else none

unfoldable pub set_cursor : ℕ → ℕ → TextBuffer → TextBuffer
set_cursor row col buf =
    let row' = if leb (line_count buf) row then line_count buf - 1 else row in
    if line_count buf == 0
    then buf
    else clear_selection (clamp_cursor (record buf { cursor_row = row'; cursor_col = col }))

unfoldable pub select_all : TextBuffer → TextBuffer
select_all buf =
    let last = line_count buf - 1 in
    let end' = length (line_at buf.lines last) in
    if line_count buf == 0 then buf else record buf {
      selection_anchor_row = 0;
      selection_anchor_col = 0;
      cursor_row = last;
      cursor_col = end';
      selection_active = not (last == 0) || not (end' == 0);
    }

-- The part of a document between two offsets.
abbrev pub slice : ℕ → ℕ → List ℕ → List ℕ
slice start end' document = take (end' - start) (drop start document)

unfoldable pub selected_text : Bool → TextBuffer → Option (List ℕ)
selected_text granted buf = elim (selection_range buf) [
  | none ↦ none
  | some range ↦ elim (to_text granted buf) [
    | none ↦ none
    | some document ↦
        let start = document_offset buf range.start in
        let end' = document_offset buf range.finish in
        if ltb end' start || ltb (length document) end'
        then none
        else some (slice start end' document)
  ]
]

-- A C string in a buffer of bytes: what stands before the first NUL.
unfoldable pub c_string : List ℕ → List ℕ
c_string [] = []
c_string (b ∷ bs) = let rest = c_string bs in if b == 0 then [] else b ∷ rest

-- The end of `text_buffer_replace_range`, where the new text was set.
abbrev pub replaced : ℕ → TextBuffer × Bool → TextBuffer → TextBuffer × Bool
replaced offset (next, true) buf = (clear_selection (set_cursor_from_offset offset next), true)
replaced offset (next, false) buf = (buf, false)

unfoldable pub replace_range : Bool → TextRange → List ℕ → TextBuffer → TextBuffer × Bool
replace_range granted range inserted buf =
    if not (validate inserted) || has_nul inserted
    then (buf, false)
    else elim (to_text granted buf) [
      | none ↦ (buf, false)
      | some document ↦
          let start = document_offset buf range.start in
          let end' = document_offset buf range.finish in
          if ltb end' start || ltb (length document) end'
          then (buf, false)
          else replaced (start + length inserted)
              (set_text granted (c_string (take start document ++ (inserted ++ drop end' document)))
                buf)
              buf
    ]

-- The selection, or the empty range at the cursor.
abbrev pub range_or_cursor : Option TextRange → TextBuffer → TextRange
range_or_cursor none buf = record { start = cursor buf; finish = cursor buf }
range_or_cursor (some range) buf = range

abbrev pub is_eq : Ordering → Bool
is_eq Ordering.eq = true
is_eq Ordering.lt = false
is_eq Ordering.gt = false

unfoldable pub insert_text : Bool → List ℕ → TextBuffer → TextBuffer × Bool
insert_text granted text buf =
    let range = range_or_cursor (selection_range buf) buf in
    if length text == 0 && is_eq (position_compare range.start range.finish)
    then (buf, false)
    else replace_range granted range text buf

unfoldable pub delete_selection : Bool → TextBuffer → TextBuffer × Bool
delete_selection granted buf =
    if has_selection buf then insert_text granted [] buf else (buf, false)
