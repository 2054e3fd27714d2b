-- ===== src/TextBuffer/Tests.antt =====
-- A text of three rows on concrete keys, texts and ranges.
use retrodesk.Prelude.{ℕ, ◌≡◌, ◌⊎◌, ◌&&◌, refl, some, true, false, inl, inr, List, [], ◌∷◌}
use retrodesk.Prelude.Int.{pos}
use retrodesk.Event.{KeyEvent}
use retrodesk.Utf8.Codec.{is_scalar, bytes_of, decode, lead, collect, is_ill_formed}
use retrodesk.Utf8.Scan.{validate, validate_loop, next}
use retrodesk.Utf8.Text.{encode_all}
use retrodesk.TextInput.Line.{edit as edit_line}
use retrodesk.TextInput.Widget.{backspaces as erases}
use retrodesk.TextBuffer.State.{
  TextBuffer, TextPosition, TextRange, cursor, document_offset, rows_size, boundary_at_or_before,
  boundary_loop, set_cursor_from_offset,
}
use retrodesk.TextBuffer.Content.{
  join_lines, set_text, to_text, replace_range, selected_text, delete_selection,
}
use retrodesk.TextBuffer.Dispatch.{backspaces, act}
use retrodesk.TextBuffer.Doc.{Doc, Represents, rows_of}
use retrodesk.TextBuffer.Backspace.{doc}
use retrodesk.TextBuffer.Keyboard.{presses, handle_keys, handle_keys-Represents}
use retrodesk.TextBuffer.Flat.{flat, flat_above, flat_below}
use retrodesk.TextBuffer.RoundTrip.{IsTaken, set_text-read}
use retrodesk.TextBuffer.Offset.{set_cursor_from_offset-document_offset}
use retrodesk.TextBuffer.Replacing.{HasCursor, Covers, replace_range-HasCursor}
use retrodesk.TextBuffer.Places.{Place}
use retrodesk.TextBuffer.Selection.{Selects, selected_text-Selects, delete_selection-HasCursor}
use retrodesk.Clipboard.{has_nul}
use retrodesk.TextBuffer.Search.{
  TextBufferMatch, search_fold, boundary_at_or_after, matches_loop, query_matches, range_loop,
  find_range, find_rows, has_byte, find_next,
}
use retrodesk.TextBuffer.Found.{IsMatch, find_next-IsMatch}
use retrodesk.TextBuffer.OneLine.{Shows, act-Shows}

-- "a", "€b" and "c" with the cursor behind the euro sign.
abbrev sample : TextBuffer
sample = record {
  lines = (0x61 ∷ []) ∷ (0xE2 ∷ 0x82 ∷ 0xAC ∷ 0x62 ∷ []) ∷ (0x63 ∷ []) ∷ [];
  cursor_row = 1;
  cursor_col = 3;
  scroll_row = 0;
  scroll_col = 0;
  selection_active = false;
  selection_anchor_row = 0;
  selection_anchor_col = 0;
}

abbrev sample_doc : Doc
sample_doc = doc ((0x61 ∷ []) ∷ []) (0x20AC ∷ []) (0x62 ∷ []) ((0x63 ∷ []) ∷ [])

sample-Represents : Represents sample_doc sample
unfolding rows_of encode_all bytes_of is_scalar
sample-Represents = record {
  lines = refl;
  row = refl;
  col = refl;
  free = refl;
  scalars = ((refl, tt), (refl, tt));
  rows = (((refl, tt), tt), ((refl, tt), tt));
}

abbrev press_of : ℕ → KeyEvent
press_of code = record {
  key_code = pos code;
  is_printable = false;
  ascii = 0;
  text_codepoint = 0;
  modifiers = 0;
}

abbrev backspace_key : KeyEvent
backspace_key = press_of 0x08

abbrev three_keys : List KeyEvent
three_keys = backspace_key ∷ backspace_key ∷ press_of 0x0A ∷ []

handle_keys-Represents_example :
    Represents (presses three_keys sample_doc) (handle_keys three_keys sample)
handle_keys-Represents_example =
    handle_keys-Represents three_keys sample_doc sample (refl, (refl, (refl, tt))) sample-Represents

act-Shows_example : Shows (edit_line erases (flat sample_doc)) (act true backspaces sample).0
act-Shows_example = act-Shows backspaces (edit_line erases) sample_doc sample refl sample-Represents

set_text-read_example :
    (((validate (0x61 ∷ 0x0A ∷ []) && true) ≡ false)
      × (set_text true (0x61 ∷ 0x0A ∷ []) sample ≡ (sample, false)))
    ⊎ (((validate (0x61 ∷ 0x0A ∷ []) && true) ≡ true)
        × ((set_text true (0x61 ∷ 0x0A ∷ []) sample).1 ≡ true)
        × IsTaken (0x61 ∷ 0x0A ∷ []) sample (set_text true (0x61 ∷ 0x0A ∷ []) sample).0)
set_text-read_example = set_text-read true (0x61 ∷ 0x0A ∷ []) sample

set_cursor_from_offset-document_offset_example :
    set_cursor_from_offset (document_offset sample (cursor sample)) sample ≡ sample
set_cursor_from_offset-document_offset_example =
    set_cursor_from_offset-document_offset sample_doc sample sample-Represents

-- The newline behind "a" and the euro sign.
abbrev part : TextRange
part = record { start = record { row = 0; col = 1 }; finish = record { row = 1; col = 3 } }

part-Covers : Covers (0x61 ∷ []) (0x0A ∷ 0x20AC ∷ []) (0x62 ∷ 0x0A ∷ 0x63 ∷ []) part sample
unfolding to_text join_lines encode_all bytes_of document_offset rows_size boundary_at_or_before
    boundary_loop next
part-Covers = record { text = refl; from = refl; to = refl }

replace_range-HasCursor_example :
    ((replace_range true part (encode_all (0x64 ∷ [])) sample).1 ≡ true)
    × HasCursor
        (0x61 ∷ 0x64 ∷ [])
        (0x62 ∷ 0x0A ∷ 0x63 ∷ [])
        (replace_range true part (encode_all (0x64 ∷ [])) sample).0
unfolding is_scalar
replace_range-HasCursor_example =
    replace_range-HasCursor (0x61 ∷ []) (0x0A ∷ 0x20AC ∷ []) (0x62 ∷ 0x0A ∷ 0x63 ∷ []) (0x64 ∷ [])
      part sample ((refl, tt), (refl, tt)) ((refl, (refl, (refl, tt))), (refl, (refl, (refl, tt))))
      ((refl, tt), (refl, tt)) part-Covers

-- The rows with a selection from one place to another, at which the cursor is.
abbrev selecting : TextPosition → TextPosition → TextBuffer
selecting from to = record sample {
  cursor_row = to.row;
  cursor_col = to.col;
  selection_active = true;
  selection_anchor_row = from.row;
  selection_anchor_col = from.col;
}

-- The place behind the "a" of the first row, and the one behind the euro sign.
abbrev first_place : TextPosition
first_place = record { row = 0; col = 1 }

abbrev second_place : TextPosition
second_place = record { row = 1; col = 3 }

first-Place :
    (from to : TextPosition)
    → Place (0x61 ∷ []) (0x0A ∷ 0x20AC ∷ 0x62 ∷ 0x0A ∷ 0x63 ∷ []) first_place (selecting from to)
unfolding rows_of encode_all bytes_of is_scalar flat flat_above flat_below
first-Place from to = record {
  document = doc [] (0x61 ∷ []) [] ((0x20AC ∷ 0x62 ∷ []) ∷ (0x63 ∷ []) ∷ []);
  stands = record {
    lines = refl;
    row = refl;
    col = refl;
    free = refl;
    scalars = ((refl, tt), tt);
    rows = (tt, ((refl, (refl, tt)), ((refl, tt), tt)));
  };
  text = refl;
}

second-Place :
    (from to : TextPosition)
    → Place (0x61 ∷ 0x0A ∷ 0x20AC ∷ []) (0x62 ∷ 0x0A ∷ 0x63 ∷ []) second_place (selecting from to)
unfolding rows_of encode_all bytes_of is_scalar flat flat_above flat_below
second-Place from to = record {
  document = sample_doc;
  stands = record {
    lines = refl;
    row = refl;
    col = refl;
    free = refl;
    scalars = ((refl, tt), (refl, tt));
    rows = (((refl, tt), tt), ((refl, tt), tt));
  };
  text = refl;
}

abbrev forwards : TextBuffer
forwards = selecting first_place second_place

abbrev backwards : TextBuffer
backwards = selecting second_place first_place

forwards-Selects : Selects (0x61 ∷ []) (0x0A ∷ 0x20AC ∷ []) (0x62 ∷ 0x0A ∷ 0x63 ∷ []) forwards
forwards-Selects = record {
  active = refl;
  ends = inl (first-Place first_place second_place, second-Place first_place second_place);
}

backwards-Selects : Selects (0x61 ∷ []) (0x0A ∷ 0x20AC ∷ []) (0x62 ∷ 0x0A ∷ 0x63 ∷ []) backwards
backwards-Selects = record {
  active = refl;
  ends = inr (first-Place second_place first_place, second-Place second_place first_place);
}

selected_text-Selects_example : selected_text true forwards ≡ some (encode_all (0x0A ∷ 0x20AC ∷ []))
selected_text-Selects_example =
    selected_text-Selects (0x61 ∷ []) 0x0A (0x20AC ∷ []) (0x62 ∷ 0x0A ∷ 0x63 ∷ []) forwards
      forwards-Selects

delete_selection-HasCursor_example :
    ((delete_selection true backwards).1 ≡ true)
    × HasCursor (0x61 ∷ []) (0x62 ∷ 0x0A ∷ 0x63 ∷ []) (delete_selection true backwards).0
unfolding is_scalar
delete_selection-HasCursor_example =
    delete_selection-HasCursor (0x61 ∷ []) 0x0A (0x20AC ∷ []) (0x62 ∷ 0x0A ∷ 0x63 ∷ []) backwards
      ((refl, tt), (refl, tt)) ((refl, (refl, (refl, tt))), (refl, (refl, (refl, tt))))
      backwards-Selects

-- The "b" of the second row, asked for as "B".
abbrev found : TextBufferMatch
found = record { row = 1; start_col = 3; end_col = 4 }

sample-found : find_next sample (0x42 ∷ []) true 0 0 true ≡ some found
unfolding find_next validate validate_loop decode lead collect is_ill_formed has_nul has_byte
    find_rows find_range range_loop query_matches matches_loop boundary_at_or_after
    boundary_at_or_before boundary_loop next search_fold
sample-found = refl

find_next-IsMatch_example : IsMatch true sample (0x42 ∷ []) found
find_next-IsMatch_example = find_next-IsMatch sample (0x42 ∷ []) true 0 0 true found sample-found
