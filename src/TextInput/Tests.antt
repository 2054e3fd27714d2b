-- ===== src/TextInput/Tests.antt =====
-- A text input on concrete keys.
use retrodesk.Prelude.{◌≡◌, ◌⊎◌, refl, none, some, true, [], ◌∷◌, arith}
use retrodesk.Prelude.Int.{pos}
use retrodesk.Event.{KeyEvent}
use retrodesk.Utf8.Codec.{is_scalar, bytes_of}
use retrodesk.Utf8.Text.{encode_all}
use retrodesk.TextInput.Widget.{
  set_text, TextInput, Action, key_bindings, binding, typed, handle_key,
}
use retrodesk.TextInput.Line.{Line, Represents, edit}
use retrodesk.TextInput.Text.{Replaced, set_text-Replaced}
use retrodesk.TextInput.Typing.{Typed, handle_key-Represents}

-- "A€B" with the cursor behind the euro sign.
abbrev sample : TextInput
sample = record {
  buffer = 0x41 ∷ 0xE2 ∷ 0x82 ∷ 0xAC ∷ 0x42 ∷ [];
  capacity = 64;
  max_len = 8;
  cursor = 4;
  scroll_offset = 0;
}

abbrev line : Line
line = record { left = 0x20AC ∷ 0x41 ∷ []; right = 0x42 ∷ [] }

sample-Represents : Represents line sample
unfolding encode_all bytes_of is_scalar
sample-Represents = record {
  text = refl;
  at = refl;
  scalars = ((refl, (refl, tt)), (refl, tt));
  room = omega arith;
  limit = λ _. omega arith;
}

abbrev letter_c : KeyEvent
letter_c = record {
  key_code = pos 0x43;
  is_printable = true;
  ascii = 0x43;
  text_codepoint = 0x43;
  modifiers = 0;
}

handle_key-Represents_example :
    ((a : Action) × (binding letter_c.key_code key_bindings ≡ some a)
      × Represents (edit a line) (handle_key true letter_c sample).0)
    ⊎ ((binding letter_c.key_code key_bindings ≡ none)
        × Typed (typed letter_c) line sample (handle_key true letter_c sample))
handle_key-Represents_example = handle_key-Represents true letter_c line sample sample-Represents

-- The limit of 8 bytes takes two euro signs of three.
set_text-Replaced_example :
    Replaced true
      (0x20AC ∷ 0x20AC ∷ 0x20AC ∷ [])
      sample
      (set_text true (encode_all (0x20AC ∷ 0x20AC ∷ 0x20AC ∷ [])) sample)
unfolding is_scalar
set_text-Replaced_example =
    set_text-Replaced true (0x20AC ∷ 0x20AC ∷ 0x20AC ∷ []) sample (refl, (refl, (refl, tt)))
