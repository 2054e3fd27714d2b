-- ===== src/Tty/Tests.antt =====
-- The terminal decoder on concrete bytes.
use retrodesk.Prelude.{ℕ, ◌<◌, ◌≡◌, refl, none, false, List, [], ◌∷◌, length, arith}
use retrodesk.Prelude.Int.{pos}
use retrodesk.Keys.{key_up, key_down, key_left, key_right}
use retrodesk.Tty.Decoder.{TtyDecoder, KeyMap, pending_size, init, decode}
use retrodesk.Tty.Progress.{Advances, IsBounded, decode-Advances}
use retrodesk.Tty.Rounds.{
  rounds, rounds-end, Call, appends, decodes, perform_all, perform_all-init-IsBounded,
}
use retrodesk.Tty.Pointer.{IsRead}
use retrodesk.Tty.Mouse.{Number, report, decode-report}

abbrev arrows : KeyMap
arrows = record { up = key_up; down = key_down; left = key_left; right = key_right }

-- ESC [ 1 ; 2 A, the up arrow with shift, and the start of another sequence.
abbrev shifted_up : List ℕ
shifted_up = 0x1B ∷ 0x5B ∷ 0x31 ∷ 0x3B ∷ 0x32 ∷ 0x41 ∷ 0x1B ∷ 0x5B ∷ []

abbrev waiting : TtyDecoder
waiting = record { last_mouse_y = pos 0; last_mouse_x = pos 0; pending = shifted_up }

decode-Advances_example : Advances waiting (decode arrows waiting)
decode-Advances_example = decode-Advances arrows waiting (omega arith)

rounds-end_example :
    (decode arrows (rounds 8 arrows waiting) ≡ (none, rounds 8 arrows waiting))
    × (length (rounds 8 arrows waiting).pending < pending_size)
rounds-end_example = rounds-end 8 arrows waiting (omega arith) (omega arith)

abbrev calls : List Call
calls = appends shifted_up ∷ decodes ∷ appends shifted_up ∷ []

perform_all-init-IsBounded_example : IsBounded (perform_all arrows calls init)
perform_all-init-IsBounded_example = perform_all-init-IsBounded arrows calls

-- The numbers 0, 12 and 7.
abbrev none_held : Number
none_held = record { first = 0; others = []; digits = (omega arith, tt); small = omega arith }

abbrev twelve : Number
twelve = record {
  first = 1;
  others = 2 ∷ [];
  digits = (omega arith, (omega arith, tt));
  small = omega arith;
}

abbrev seven : Number
seven = record { first = 7; others = []; digits = (omega arith, tt); small = omega arith }

decode-report_example :
    IsRead 0 12 7 false
      (0x61 ∷ [])
      waiting
      (decode arrows (record waiting { pending = report none_held twelve seven 0x4D (0x61 ∷ []) }))
decode-report_example = decode-report arrows none_held twelve seven 0x4D (0x61 ∷ []) waiting refl
