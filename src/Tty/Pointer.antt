-- ===== src/Tty/Pointer.antt =====
-- The mouse events that platform/tty_decoder.c makes of the three numbers of a report.
use retrodesk.Prelude.{
  ℕ, ◌-◌, ◌/◌, ◌%◌, ◌≡◌, refl, Option, some, Bool, false, not, ◌&&◌, ◌||◌, List, ◌==◌, arith,
}
use retrodesk.Prelude.Int.{ℤ, pos, eqb_ℤ}
use retrodesk.Event.{MouseEvent, Event, mouse}
use retrodesk.Tty.Decoder.{TtyDecoder, Report, quiet, buttons, reported}

abbrev bit : ℕ → ℕ → Bool
bit n mask = n / mask % 2 == 1

-- The flags of a mouse event, from the number of the button and the terminator: bit 6 is the wheel,
-- bit 5 a motion, and the two lowest bits are the button, where 3 stands for any.
pub record HasFlags (n : ℕ) (release : Bool) (e : MouseEvent) : Type 0 where
  pub up : e.scroll_up ≡ (bit n 64 && not (bit n 1))
  pub down : e.scroll_down ≡ (bit n 64 && bit n 1)
  pub pressed : e.button1_pressed ≡ (not (bit n 64) && n % 4 == 0 && not release)
  pub released : e.button1_released ≡ (not (bit n 64) && (n % 4 == 3 || (n % 4 == 0 && release)))
  pub clicked :
      e.button1_clicked
      ≡ (not (bit n 64) && (n % 4 == 3 || (n % 4 == 0 && release)) && not (bit n 32))
  pub pressed3 : e.button3_pressed ≡ (not (bit n 64) && n % 4 == 2 && not release)
  pub clicked3 : e.button3_clicked ≡ (not (bit n 64) && n % 4 == 2 && (release || not (bit n 32)))
  pub single : e.button1_dblclick ≡ false

buttons-HasFlags :
    (n : ℕ) (release : Bool) (y x : ℤ) (moved : Bool)
    → HasFlags n release (buttons n release (quiet y x moved))
unfolding buttons
buttons-HasFlags n release y x moved = record {
  up = ground arith;
  down = ground arith;
  pressed = ground arith;
  released = ground arith;
  clicked = ground arith;
  pressed3 = ground arith;
  clicked3 = ground arith;
  single = ground arith;
}

-- Where a mouse event is, and that it has no place in a window yet.
pub record IsAt (y x : ℕ) (moved : Bool) (e : MouseEvent) : Type 0 where
  pub line : e.y ≡ pos y
  pub column : e.x ≡ pos x
  pub motion : e.moved ≡ moved
  pub unplaced : e.has_local_coordinates ≡ false

buttons-IsAt :
    (n : ℕ) (release : Bool) (y x : ℕ) (moved : Bool)
    → IsAt y x moved (buttons n release (quiet (pos y) (pos x) moved))
unfolding buttons
buttons-IsAt n release y x moved = record {
  line = ground arith;
  column = ground arith;
  motion = ground arith;
  unplaced = ground arith;
}

-- The decoder was at another place.
abbrev pub is_elsewhere : ℕ → ℕ → TtyDecoder → Bool
is_elsewhere y x decoder =
    not (eqb_ℤ (pos x) decoder.last_mouse_x && eqb_ℤ (pos y) decoder.last_mouse_y)

-- What reading a report with a button, a column and a row gives: both are counted from 1 there, and
-- from 0 in the event; a 0 stands for 1.
pub record IsRead (n x y : ℕ) (release : Bool) (rest : List ℕ) (decoder : TtyDecoder)
    (res : Option Event × TtyDecoder) : Type 0 where
  pub event : MouseEvent
  pub given : res.0 ≡ some (mouse event)
  pub at : IsAt (y - 1) (x - 1) (is_elsewhere (y - 1) (x - 1) decoder) event
  pub flags : HasFlags n release event
  pub waiting : res.1.pending ≡ rest
  pub last_column : res.1.last_mouse_x ≡ pos (x - 1)
  pub last_line : res.1.last_mouse_y ≡ pos (y - 1)

pub reported-IsRead :
    (r : Report) (release : Bool) (rest : List ℕ) (decoder : TtyDecoder)
    → IsRead r.button r.x r.y release rest decoder
        (reported r release (record decoder { pending = rest }))
reported-IsRead r release rest decoder =
    let moved = is_elsewhere (r.y - 1) (r.x - 1) decoder in
    record {
      event = buttons r.button release (quiet (pos (r.y - 1)) (pos (r.x - 1)) moved);
      given = refl;
      at = buttons-IsAt r.button release (r.y - 1) (r.x - 1) moved;
      flags = buttons-HasFlags r.button release (pos (r.y - 1)) (pos (r.x - 1)) moved;
      waiting = refl;
      last_column = refl;
      last_line = refl;
    }
