-- ===== src/TextInput/Widget.antt =====
-- The state and the operations of ui/text_input.c, but the rendering.
use retrodesk.Prelude.{
  ℕ, ◌+◌, Option, none, some, Bool, true, false, ◌&&◌, ◌||◌, List, [], ◌∷◌, ◌++◌, ◌==◌, ltb, leb,
  if◌then◌else◌, drop, take, length,
}
use retrodesk.Prelude.Int.{ℤ, eqb_ℤ}
use retrodesk.Event.{KeyEvent}
use retrodesk.Growth.{reserve}
use retrodesk.Keys.{
  key_bs, key_del, key_ctrl_a, key_ctrl_d, key_ctrl_e, key_ctrl_k, key_ctrl_u, key_left, key_right,
  key_home, key_end, key_dc,
}
use retrodesk.Utf8.Codec.{encode}
use retrodesk.Utf8.Scan.{valid_prefix, prev, next}

-- `len` is the length of `buffer`, whose NUL is not kept. `max_len` 0 means that there is no limit.
pub record TextInput : Type 0 where
  pub buffer : List ℕ
  pub capacity : ℕ
  pub max_len : ℕ
  pub cursor : ℕ
  pub scroll_offset : ℕ

-- `text_input_grow`; `granted` says whether `realloc` succeeds.
unfoldable pub grow : Bool → ℕ → ℕ → Option ℕ
unfolding reserve
grow granted need capacity = reserve 64 granted need capacity

-- `text_input_create`, where the allocations succeed.
unfoldable pub create : ℕ → TextInput
create max_len = record {
  buffer = [];
  capacity = 64;
  max_len = max_len;
  cursor = 0;
  scroll_offset = 0;
}

-- How many bytes of a text `text_input_set_text` takes.
unfoldable pub accepted : ℕ → List ℕ → ℕ
unfolding valid_prefix
accepted max_len text =
    if ltb 0 max_len && ltb max_len (length text) then valid_prefix text max_len else length text

unfoldable pub set_text : Bool → List ℕ → TextInput → TextInput
set_text granted text t = elim (grow granted (accepted t.max_len text + 1) t.capacity) [
  | none ↦ t
  | some got ↦ record t {
    buffer = take (accepted t.max_len text) text;
    capacity = got;
    cursor = accepted t.max_len text;
    scroll_offset = 0;
  }
]

unfoldable pub clear : TextInput → TextInput
clear t = record t { buffer = []; cursor = 0; scroll_offset = 0 }

-- The bytes of a code point at the cursor.
abbrev pub splice : List ℕ → ℕ → TextInput → TextInput
splice bytes got t = record t {
  buffer = take t.cursor t.buffer ++ (bytes ++ drop t.cursor t.buffer);
  capacity = got;
  cursor = t.cursor + length bytes;
}

-- The rest of `text_input_insert_codepoint`, behind the encoding.
abbrev pub typed_bytes : Bool → Option (List ℕ) → TextInput → TextInput × Bool
typed_bytes granted none t = (t, false)
typed_bytes granted (some bytes) t =
    if ltb 0 t.max_len && ltb t.max_len (length t.buffer + length bytes)
    then (t, false)
    else elim (grow granted (length t.buffer + length bytes + 1) t.capacity) [
      | none ↦ (t, false)
      | some got ↦ (splice bytes got t, true)
    ]

unfoldable pub insert_codepoint : Bool → ℕ → TextInput → TextInput × Bool
insert_codepoint granted cp t =
    if ltb cp 0x20 || cp == 0x7F then (t, false) else typed_bytes granted (encode cp) t

unfoldable pub delete_backward : TextInput → TextInput × Bool
delete_backward t =
    let previous = prev t.buffer t.cursor in
    if t.cursor == 0 then (t, false) else (
      record t { buffer = take previous t.buffer ++ drop t.cursor t.buffer; cursor = previous },
      true,
    )

unfoldable pub delete_forward : TextInput → TextInput × Bool
delete_forward t = if leb (length t.buffer) t.cursor then (t, false) else (
  record t { buffer = take t.cursor t.buffer ++ drop (next t.buffer t.cursor) t.buffer },
  true,
)

unfoldable pub handle_home : TextInput → TextInput × Bool
handle_home t = (record t { cursor = 0 }, true)

unfoldable pub handle_end : TextInput → TextInput × Bool
handle_end t = (record t { cursor = length t.buffer }, true)

unfoldable pub handle_left : TextInput → TextInput × Bool
handle_left t =
    (record t { cursor = if ltb 0 t.cursor then prev t.buffer t.cursor else t.cursor }, true)

unfoldable pub handle_right : TextInput → TextInput × Bool
handle_right t = (
  record t { cursor = if ltb t.cursor (length t.buffer) then next t.buffer t.cursor else t.cursor },
  true,
)

unfoldable pub handle_kill_to_end : TextInput → TextInput × Bool
handle_kill_to_end t = (
  record t { buffer = if ltb t.cursor (length t.buffer) then take t.cursor t.buffer else t.buffer },
  true,
)

unfoldable pub handle_clear : TextInput → TextInput × Bool
unfolding clear
handle_clear t = (clear t, true)

-- The functions of the table of key bindings.
pub data Action : Type 0 where
  backspaces homes ends clears kills deletes lefts rights : Action

unfoldable pub act : Action → TextInput → TextInput × Bool
unfolding delete_backward delete_forward handle_home handle_end handle_left handle_right
    handle_kill_to_end handle_clear
act backspaces t = delete_backward t
act homes t = handle_home t
act ends t = handle_end t
act clears t = handle_clear t
act kills t = handle_kill_to_end t
act deletes t = delete_forward t
act lefts t = handle_left t
act rights t = handle_right t

unfoldable pub key_bindings : List (ℤ × Action)
key_bindings =
    (key_bs, backspaces)
    ∷ (key_del, backspaces)
    ∷ (key_ctrl_a, homes)
    ∷ (key_ctrl_e, ends)
    ∷ (key_ctrl_u, clears)
    ∷ (key_ctrl_k, kills)
    ∷ (key_ctrl_d, deletes)
    ∷ (key_left, lefts)
    ∷ (key_right, rights)
    ∷ (key_home, homes)
    ∷ (key_end, ends)
    ∷ (key_dc, deletes)
    ∷ []

unfoldable pub binding : ℤ → List (ℤ × Action) → Option Action
binding code [] = none
binding code ((k, a) ∷ rest) = if eqb_ℤ k code then some a else binding code rest

-- The code point that a key types.
unfoldable pub typed : KeyEvent → ℕ
typed k =
    if k.text_codepoint == 0 && k.is_printable && ltb 0 k.ascii then k.ascii else k.text_codepoint

unfoldable pub type_key : Bool → KeyEvent → TextInput → TextInput × Bool
unfolding typed
type_key granted k t =
    if k.is_printable && leb 0x20 (typed k) && (if typed k == 0x7F then false else true)
    then insert_codepoint granted (typed k) t
    else (t, false)

unfoldable pub handle_key : Bool → KeyEvent → TextInput → TextInput × Bool
unfolding key_bindings binding type_key
handle_key granted k t = elim (binding k.key_code key_bindings) [
  | none ↦ type_key granted k t
  | some a ↦ act a t
]
