-- ===== src/TextBuffer/Dispatch.antt =====
-- `text_buffer_handle_key` of ui/text_buffer.c.
use retrodesk.Prelude.{
  ℕ, ◌%◌, Option, none, some, Bool, true, false, not, ◌&&◌, List, [], ◌∷◌, ◌==◌, ltb, leb,
  if◌then◌else◌,
}
use retrodesk.Prelude.Int.{ℤ, eqb_ℤ}
use retrodesk.Event.{KeyEvent}
use retrodesk.Keys.{
  key_lf, key_cr, key_bs, key_del, key_ctrl_a, key_ctrl_d, key_ctrl_e, key_ctrl_k, key_up, key_down,
  key_left, key_right, key_home, key_end, key_dc,
}
use retrodesk.TextBuffer.State.{TextBuffer, clear_selection}
use retrodesk.TextBuffer.Editing.{
  insert_codepoint, insert_newline, delete_backward, delete_forward, home, line_end, kill_to_end,
  left, right, up, down,
}

-- The functions of the table of key bindings.
pub data Action : Type 0 where
  newlines backspaces deletes kills homes ends lefts rights ups downs : Action

unfoldable pub act : Bool → Action → TextBuffer → TextBuffer × Bool
act granted newlines buf = insert_newline granted buf
act granted backspaces buf = delete_backward granted buf
act granted deletes buf = delete_forward granted buf
act granted kills buf = kill_to_end granted buf
act granted homes buf = home buf
act granted ends buf = line_end buf
act granted lefts buf = left buf
act granted rights buf = right buf
act granted ups buf = up buf
act granted downs buf = down buf

pub record KeyBinding : Type 0 where
  pub code : ℤ
  pub function : Action
  pub movement : Bool

abbrev edits : ℤ → Action → KeyBinding
edits code action = record { code = code; function = action; movement = false }

abbrev moves : ℤ → Action → KeyBinding
moves code action = record { code = code; function = action; movement = true }

unfoldable pub key_bindings : List KeyBinding
key_bindings =
    edits key_lf newlines
    ∷ edits key_cr newlines
    ∷ edits key_bs backspaces
    ∷ edits key_del backspaces
    ∷ moves key_ctrl_a homes
    ∷ moves key_ctrl_e ends
    ∷ edits key_ctrl_k kills
    ∷ edits key_ctrl_d deletes
    ∷ moves key_left lefts
    ∷ moves key_right rights
    ∷ moves key_up ups
    ∷ moves key_down downs
    ∷ moves key_home homes
    ∷ moves key_end ends
    ∷ edits key_dc deletes
    ∷ []

unfoldable pub binding : ℤ → List KeyBinding → Option KeyBinding
binding key [] = none
binding key (b ∷ bs) = if eqb_ℤ b.code key then some b else binding key bs

-- `RETRO_MOD_SHIFT` is the lowest bit of the modifiers.
unfoldable pub prepare_movement : KeyEvent → TextBuffer → TextBuffer
prepare_movement k buf =
    if k.modifiers % 2 == 1
    then (if buf.selection_active then buf else record buf {
      selection_active = true;
      selection_anchor_row = buf.cursor_row;
      selection_anchor_col = buf.cursor_col;
    })
    else clear_selection buf

unfoldable pub typed : KeyEvent → ℕ
typed k = if k.text_codepoint == 0 && ltb 0 k.ascii then k.ascii else k.text_codepoint

unfoldable pub type_key : Bool → KeyEvent → TextBuffer → TextBuffer × Bool
type_key granted k buf =
    if k.is_printable && leb 0x20 (typed k) && not (typed k == 0x7F)
    then insert_codepoint granted (typed k) buf
    else (buf, false)

abbrev pub prepared : KeyBinding → KeyEvent → TextBuffer → TextBuffer
prepared b k buf = if b.movement then prepare_movement k buf else buf

unfoldable pub handle_key : Bool → KeyEvent → TextBuffer → TextBuffer × Bool
handle_key granted k buf = elim (binding k.key_code key_bindings) [
  | none ↦ type_key granted k buf
  | some b ↦ act granted b.function (prepared b k buf)
]
