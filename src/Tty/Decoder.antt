-- ===== src/Tty/Decoder.antt =====
-- The state and the decoding of platform/tty_decoder.c.
use retrodesk.Prelude.{
  ℕ, suc, ◌+◌, ◌-◌, ◌*◌, ◌/◌, ◌%◌, Option, none, some, Bool, true, false, not, ◌&&◌, ◌||◌, List, [],
  ◌∷◌, ◌++◌, ◌==◌, ltb, leb, if◌then◌else◌, length, take, drop, get_or,
}
use retrodesk.Prelude.Int.{ℤ, pos, negsuc, eqb_ℤ}
use retrodesk.Event.{MouseEvent, Event, key, mouse}
use retrodesk.Keys.{key_lf, key_esc}
use retrodesk.Tty.Numbers.{Parameters, parse_uint, semicolon, parse_csi_parameters}

-- The bytes that wait, and where the mouse was.
pub record TtyDecoder : Type 0 where
  pub last_mouse_y : ℤ
  pub last_mouse_x : ℤ
  pub pending : List ℕ

pub record KeyMap : Type 0 where
  pub up : ℤ
  pub down : ℤ
  pub left : ℤ
  pub right : ℤ

-- `sizeof(decoder->pending)`.
abbrev pub pending_size : ℕ
pending_size = 64

unfoldable pub init : TtyDecoder
init = record { last_mouse_y = negsuc 0; last_mouse_x = negsuc 0; pending = [] }

unfoldable pub consume : ℕ → TtyDecoder → TtyDecoder
consume used decoder = record decoder { pending = drop used decoder.pending }

unfoldable pub append : List ℕ → TtyDecoder → TtyDecoder
append bytes decoder = record decoder {
  pending = decoder.pending ++ take (pending_size - length decoder.pending) bytes;
}

abbrev pub byte_at : ℕ → TtyDecoder → ℕ
byte_at i decoder = get_or decoder.pending i 0

unfoldable pub starts_mouse : TtyDecoder → Bool
starts_mouse decoder =
    leb 3 (length decoder.pending)
    && byte_at 0 decoder == 0x1B
    && byte_at 1 decoder == 0x5B
    && byte_at 2 decoder == 0x3C

-- The first byte that passes a test.
unfoldable pub search : (ℕ → Bool) → List ℕ → Option ℕ
search test [] = none
search test (b ∷ bs) =
    let later = search test bs in
    if test b then some 0 else elim later [ none ↦ none | some i ↦ some (suc i) ]

pub record Report : Type 0 where
  pub button : ℕ
  pub x : ℕ
  pub y : ℕ

abbrev pub report_end : ℕ → ℕ → Option (ℕ × List ℕ) → Option Report
report_end button x none = none
report_end button x (some (y, [])) = some (record { button = button; x = x; y = y })
report_end button x (some (y, b ∷ bs)) = none

-- The three numbers of a mouse report.
unfoldable pub parse_report : List ℕ → Option Report
parse_report bytes = elim (parse_uint bytes) [
  | none ↦ none
  | some (button, rest) ↦ elim (semicolon rest) [
    | none ↦ none
    | some after_button ↦ elim (parse_uint after_button) [
      | none ↦ none
      | some (x, rest) ↦ elim (semicolon rest) [
        | none ↦ none
        | some after_x ↦ report_end button x (parse_uint after_x)
      ]
    ]
  ]
]

abbrev pub is_terminator : ℕ → Bool
is_terminator b = b == 0x4D || b == 0x6D

abbrev pub quiet : ℤ → ℤ → Bool → MouseEvent
quiet y x moved = record {
  y = y;
  x = x;
  local_y = pos 0;
  local_x = pos 0;
  has_local_coordinates = false;
  moved = moved;
  button1_pressed = false;
  button1_released = false;
  button1_clicked = false;
  button1_dblclick = false;
  button3_pressed = false;
  button3_clicked = false;
  scroll_up = false;
  scroll_down = false;
}

-- What the number of the button says: bit 5 is a motion, bit 6 the wheel.
unfoldable pub buttons : ℕ → Bool → MouseEvent → MouseEvent
buttons btn release e =
    let motion = btn / 32 % 2 == 1 in
    if btn / 64 % 2 == 1
    then (if btn % 2 == 1 then record e { scroll_down = true } else record e { scroll_up = true })
    else if btn % 4 == 2
    then (if release
        then record e { button3_clicked = true }
        else record e { button3_pressed = true; button3_clicked = not motion })
    else if btn % 4 == 0 || btn % 4 == 3
    then (if release || btn % 4 == 3
        then record e { button1_released = true; button1_clicked = not motion }
        else record e { button1_pressed = true })
    else e

abbrev pub reported : Report → Bool → TtyDecoder → Option Event × TtyDecoder
reported r release decoder =
    let x = pos (r.x - 1) in
    let y = pos (r.y - 1) in
    let moved = not (eqb_ℤ x decoder.last_mouse_x && eqb_ℤ y decoder.last_mouse_y) in
    (
      some (mouse (buttons r.button release (quiet y x moved))),
      record decoder { last_mouse_x = x; last_mouse_y = y },
    )

-- The report that ends at an index behind its first three bytes.
abbrev pub mouse_until : Option ℕ → TtyDecoder → Option Event × TtyDecoder
mouse_until none decoder =
    (none, if length decoder.pending == pending_size then consume 1 decoder else decoder)
mouse_until (some k) decoder = elim (parse_report (take k (drop 3 decoder.pending))) [
  | none ↦ (none, consume (k + 4) decoder)
  | some r ↦ reported r (byte_at (k + 3) decoder == 0x6D) (consume (k + 4) decoder)
]

unfoldable pub decode_mouse : TtyDecoder → Option Event × TtyDecoder
decode_mouse decoder =
    if ltb (length decoder.pending) 6 || not (starts_mouse decoder)
    then (none, decoder)
    else mouse_until (search is_terminator (drop 3 decoder.pending)) decoder

-- RETRO_MOD_SHIFT is 1, RETRO_MOD_CTRL 2 and RETRO_MOD_ALT 4.
unfoldable pub xterm_modifier_mask : ℕ → ℕ
xterm_modifier_mask parameter =
    let encoded = parameter - 1 in
    if ltb parameter 2 || ltb 8 parameter
    then 0
    else encoded % 2 + encoded / 2 % 2 * 4 + encoded / 4 % 2 * 2

unfoldable pub arrow_key : KeyMap → ℕ → ℤ
arrow_key keys final_byte =
    if final_byte == 0x41
    then keys.up
    else if final_byte == 0x42
    then keys.down
    else if final_byte == 0x43
    then keys.right
    else if final_byte == 0x44
    then keys.left
    else pos 0

-- An event of a key that stands for no character.
abbrev pub plain_key : ℤ → ℕ → Event
plain_key code modifiers = key (record {
  key_code = code;
  is_printable = false;
  ascii = 0;
  text_codepoint = 0;
  modifiers = modifiers;
})

-- The event of an arrow key with its parameters.
unfoldable pub arrow_event : ℤ → Option Parameters → Option Event
arrow_event code none = none
arrow_event code (some p) =
    let mask = xterm_modifier_mask p.last in
    if leb 2 p.count
    then (if mask == 0 then none else some (plain_key code mask))
    else if p.count == 1 && not (p.last == 1)
    then none
    else some (plain_key code 0)

abbrev pub is_final : ℕ → Bool
is_final b = leb 0x40 b && leb b 0x7E

-- The sequence that ends at an index behind its first two bytes.
abbrev pub csi_until : KeyMap → Option ℕ → TtyDecoder → Option Event × TtyDecoder
csi_until keys none decoder = (
  none,
  if length decoder.pending == pending_size
      then consume (length decoder.pending) decoder
      else decoder,
)
csi_until keys (some k) decoder =
    let code = arrow_key keys (byte_at (k + 2) decoder) in
    let parameters = parse_csi_parameters (take k (drop 2 decoder.pending)) in
    (if eqb_ℤ code (pos 0) then none else arrow_event code parameters, consume (k + 3) decoder)

unfoldable pub decode_csi_key : KeyMap → TtyDecoder → Option Event × TtyDecoder
decode_csi_key keys decoder =
    if ltb (length decoder.pending) 3
      || not (byte_at 0 decoder == 0x1B)
      || not (byte_at 1 decoder == 0x5B)
      || byte_at 2 decoder == 0x3C
    then (none, decoder)
    else csi_until keys (search is_final (drop 2 decoder.pending)) decoder

-- The event of a byte that begins no sequence.
unfoldable pub byte_event : ℕ → Event
byte_event first =
    let printable = leb 32 first && leb first 126 in
    key (record {
      key_code = if first == 0x0D then key_lf else pos first;
      is_printable = printable;
      ascii = if printable then first else 0;
      text_codepoint = if printable then first else 0;
      modifiers = 0;
    })

unfoldable pub decode_key : KeyMap → TtyDecoder → Option Event × TtyDecoder
decode_key keys decoder =
    if byte_at 0 decoder == 0x1B
    then (if leb 2 (length decoder.pending) && byte_at 1 decoder == 0x5B
        then decode_csi_key keys decoder
        else (some (plain_key key_esc 0), consume 1 decoder))
    else (some (byte_event (byte_at 0 decoder)), consume 1 decoder)

-- What follows an attempt to decode a mouse report.
abbrev pub after_mouse : KeyMap → Option Event × TtyDecoder → Option Event × TtyDecoder
after_mouse keys (some e, decoder) = (some e, decoder)
after_mouse keys (none, decoder) =
    if length decoder.pending == 0 || starts_mouse decoder
    then (none, decoder)
    else decode_key keys decoder

unfoldable pub decode : KeyMap → TtyDecoder → Option Event × TtyDecoder
decode keys decoder =
    if length decoder.pending == 0 then (none, decoder) else after_mouse keys (decode_mouse decoder)
