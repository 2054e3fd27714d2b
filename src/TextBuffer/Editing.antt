-- ===== src/TextBuffer/Editing.antt =====
-- The editing functions and the movements of ui/text_buffer.c. `granted` says whether the memory that
-- a function asks for is there.
use retrodesk.Prelude.{
  ℕ, suc, ◌+◌, ◌-◌, Option, none, some, Bool, true, false, not, ◌&&◌, ◌||◌, List, [], ◌∷◌, ◌++◌,
  ◌==◌, ltb, leb, if◌then◌else◌, length, take, drop, set,
}
use retrodesk.Utf8.Codec.{encode}
use retrodesk.Utf8.Scan.{prev, next}
use retrodesk.TextBuffer.State.{
  TextBuffer, line_at, line_count, cursor_line, clamp_cursor, has_selection,
  clear_collapsed_selection, columns_to, byte_for_columns,
}
use retrodesk.TextBuffer.Content.{insert_text, delete_selection}

-- A move of the entries behind `i` up, and one down over the entry.
unfoldable pub insert_at : ℕ → List ℕ → List (List ℕ) → List (List ℕ)
insert_at i line lines = take i lines ++ line ∷ drop i lines

unfoldable pub remove_at : ℕ → List (List ℕ) → List (List ℕ)
remove_at i lines = take i lines ++ drop (suc i) lines

-- A change of the line with the cursor.
abbrev pub set_line : ℕ → List ℕ → TextBuffer → TextBuffer
set_line row line buf = record buf { lines = set buf.lines row line }

-- What the editing functions do first where nothing is selected.
unfoldable pub settled : TextBuffer → TextBuffer
settled buf = clamp_cursor (clear_collapsed_selection buf)

unfoldable pub put_bytes : List ℕ → TextBuffer → TextBuffer
put_bytes bytes buf =
    let line = cursor_line buf in
    record (set_line buf.cursor_row
      (take buf.cursor_col line ++ (bytes ++ drop buf.cursor_col line)) buf) {
        cursor_col = buf.cursor_col + length bytes;
      }

abbrev pub inserted_bytes : Bool → Option (List ℕ) → TextBuffer → TextBuffer × Bool
inserted_bytes granted none buf = (buf, false)
inserted_bytes granted (some bytes) buf =
    if has_selection buf
    then insert_text granted bytes buf
    else if granted
    then (put_bytes bytes (settled buf), true)
    else (settled buf, false)

unfoldable pub insert_codepoint : Bool → ℕ → TextBuffer → TextBuffer × Bool
insert_codepoint granted cp buf =
    if line_count buf == 0 || cp == 0 || cp == 0x0A || cp == 0x0D
    then (buf, false)
    else inserted_bytes granted (encode cp) buf

unfoldable pub insert_char : Bool → ℕ → TextBuffer → TextBuffer × Bool
insert_char granted byte buf = if byte == 0 then (buf, false) else insert_codepoint granted byte buf

unfoldable pub break_line : TextBuffer → TextBuffer
break_line buf =
    let line = cursor_line buf in
    record buf {
      lines =
          insert_at (buf.cursor_row + 1) (drop buf.cursor_col line)
            (set buf.lines buf.cursor_row (take buf.cursor_col line));
      cursor_row = buf.cursor_row + 1;
      cursor_col = 0;
    }

unfoldable pub insert_newline : Bool → TextBuffer → TextBuffer × Bool
insert_newline granted buf =
    if line_count buf == 0
    then (buf, false)
    else if has_selection buf
    then insert_text granted (0x0A ∷ []) buf
    else if granted
    then (break_line (settled buf), true)
    else (settled buf, false)

-- The character before the cursor, or the newline before the line.
unfoldable pub join_previous : Bool → TextBuffer → TextBuffer × Bool
join_previous granted buf =
    let row = buf.cursor_row in
    let previous = line_at buf.lines (row - 1) in
    let current = line_at buf.lines row in
    if row == 0
    then (buf, false)
    else if not (length current == 0) && not granted
    then (buf, false)
    else (
      record buf {
        lines = remove_at row (set buf.lines (row - 1) (previous ++ current));
        cursor_row = row - 1;
        cursor_col = length previous;
      },
      true,
    )

unfoldable pub backward : Bool → TextBuffer → TextBuffer × Bool
backward granted buf =
    let line = cursor_line buf in
    let previous = prev line buf.cursor_col in
    if ltb 0 buf.cursor_col
    then (
      record (set_line buf.cursor_row (take previous line ++ drop buf.cursor_col line) buf) {
        cursor_col = previous;
      },
      true,
    )
    else join_previous granted buf

unfoldable pub delete_backward : Bool → TextBuffer → TextBuffer × Bool
delete_backward granted buf =
    if line_count buf == 0
    then (buf, false)
    else if has_selection buf
    then delete_selection granted buf
    else backward granted (settled buf)

-- The character behind the cursor, or the newline behind the line.
unfoldable pub join_next : Bool → TextBuffer → TextBuffer × Bool
join_next granted buf =
    let row = buf.cursor_row in
    let following = line_at buf.lines (row + 1) in
    if leb (line_count buf) (row + 1)
    then (buf, false)
    else if not (length following == 0) && not granted
    then (buf, false)
    else (
      record buf { lines = remove_at (row + 1) (set buf.lines row (cursor_line buf ++ following)) },
      true,
    )

unfoldable pub forward : Bool → TextBuffer → TextBuffer × Bool
forward granted buf =
    let line = cursor_line buf in
    let following = next line buf.cursor_col in
    if ltb buf.cursor_col (length line)
    then (if leb following buf.cursor_col
        then (buf, false)
        else (set_line buf.cursor_row (take buf.cursor_col line ++ drop following line) buf, true))
    else join_next granted buf

unfoldable pub delete_forward : Bool → TextBuffer → TextBuffer × Bool
delete_forward granted buf =
    if line_count buf == 0
    then (buf, false)
    else if has_selection buf
    then delete_selection granted buf
    else forward granted (settled buf)

-- The functions `text_buffer_kv_…` of the key table.
unfoldable pub home : TextBuffer → TextBuffer × Bool
home buf = (record buf { cursor_col = 0 }, true)

unfoldable pub line_end : TextBuffer → TextBuffer × Bool
line_end buf = (record buf { cursor_col = length (cursor_line buf) }, true)

unfoldable pub cut_tail : TextBuffer → TextBuffer × Bool
cut_tail buf =
    let line = cursor_line buf in
    if leb (length line) buf.cursor_col
    then (buf, false)
    else (set_line buf.cursor_row (take buf.cursor_col line) buf, true)

unfoldable pub kill_to_end : Bool → TextBuffer → TextBuffer × Bool
kill_to_end granted buf =
    if has_selection buf then delete_selection granted buf else cut_tail (clamp_cursor buf)

unfoldable pub step_left : TextBuffer → TextBuffer
step_left buf =
    if ltb 0 buf.cursor_col
    then record buf { cursor_col = prev (cursor_line buf) buf.cursor_col }
    else if ltb 0 buf.cursor_row
    then record buf {
      cursor_row = buf.cursor_row - 1;
      cursor_col = length (line_at buf.lines (buf.cursor_row - 1));
    }
    else buf

unfoldable pub left : TextBuffer → TextBuffer × Bool
left buf = (step_left (clamp_cursor buf), true)

unfoldable pub step_right : TextBuffer → TextBuffer
step_right buf =
    if ltb buf.cursor_col (length (cursor_line buf))
    then record buf { cursor_col = next (cursor_line buf) buf.cursor_col }
    else if ltb (buf.cursor_row + 1) (line_count buf)
    then record buf { cursor_row = buf.cursor_row + 1; cursor_col = 0 }
    else buf

unfoldable pub right : TextBuffer → TextBuffer × Bool
right buf = (step_right (clamp_cursor buf), true)

-- To the same column of another line.
unfoldable pub to_row : ℕ → TextBuffer → TextBuffer
to_row row buf = record buf {
  cursor_row = row;
  cursor_col =
      byte_for_columns (line_at buf.lines row) (columns_to (cursor_line buf) buf.cursor_col);
}

unfoldable pub up : TextBuffer → TextBuffer × Bool
up buf = (if ltb 0 buf.cursor_row then to_row (buf.cursor_row - 1) buf else buf, true)

unfoldable pub down : TextBuffer → TextBuffer × Bool
down buf = (
  if ltb (buf.cursor_row + 1) (line_count buf) then to_row (buf.cursor_row + 1) buf else buf,
  true,
)
