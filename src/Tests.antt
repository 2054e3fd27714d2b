-- ===== src/Tests.antt =====
-- The command line, the clipboard, buttons, progress bars and the key codes on concrete values.
use retrodesk.Prelude.{◌<◌, arith, some, none, ℕ, ◌≡◌, refl, true, false, List, [], ◌∷◌}
use retrodesk.Prelude.Int.{pos}
use retrodesk.Clipboard.{
  create, text_of, IsText, Request, copies, clears, perform_all, perform_all-create-IsText,
}
use retrodesk.Event.{MouseEvent}
use retrodesk.Button.{perform_all as perform_button, create as new_button, Button, labels, focuses}
use retrodesk.ProgressBar.{
  perform_all as perform_bar, create as new_bar, Request as BarRequest, values, widths, ticks,
  ProgressBar, indeterminate, IsFill, determinate_fill, filled, determinate_fill-IsFill, IsValid,
  period,
}
use retrodesk.Cli.{ok, parse, IsConsistent, parse-IsConsistent}

abbrev copying : List Request
copying = copies true (0x41 ∷ 0xE2 ∷ 0x82 ∷ 0xAC ∷ []) ∷ copies true (0xFF ∷ []) ∷ clears ∷ []

perform_all-create-IsText_example : IsText (text_of (perform_all copying create))
perform_all-create-IsText_example = perform_all-create-IsText copying

-- "--diagnose"
abbrev arguments : List (List ℕ)
arguments = (0x2d ∷ 0x2d ∷ 0x64 ∷ 0x69 ∷ 0x61 ∷ 0x67 ∷ 0x6e ∷ 0x6f ∷ 0x73 ∷ 0x65 ∷ []) ∷ []

arguments-ok : (parse arguments).0 ≡ ok
unfolding parse
arguments-ok = refl

parse-IsConsistent_example : IsConsistent (parse arguments).1
parse-IsConsistent_example = parse-IsConsistent arguments arguments-ok

abbrev press_me : Button
press_me = record {
  label = 0x4F ∷ 0x4B ∷ [];
  label_len = 2;
  focused = false;
  enabled = true;
  callback = some 3;
  calls = [];
}

abbrev click : MouseEvent
click = record {
  y = pos 4;
  x = pos 5;
  local_y = pos 0;
  local_x = pos 0;
  has_local_coordinates = false;
  moved = false;
  button1_pressed = false;
  button1_released = false;
  button1_clicked = true;
  button1_dblclick = false;
  button3_pressed = false;
  button3_clicked = false;
  scroll_up = false;
  scroll_down = false;
}

abbrev relabelled : Button
relabelled = perform_button (labels true (some (0x41 ∷ [])) ∷ focuses true ∷ []) (new_button none)

abbrev half : List BarRequest
half = values (pos 50) ∷ widths (pos 9) ∷ ticks ∷ []

half-width : (perform_bar half new_bar).width < 128
unfolding perform_bar new_bar
half-width = omega arith

determinate_fill-IsFill_example :
    IsFill
      (perform_bar half new_bar)
      (determinate_fill 128 (perform_bar half new_bar))
      (filled (perform_bar half new_bar))
determinate_fill-IsFill_example = determinate_fill-IsFill half 128 half-width

abbrev busy_bar : ProgressBar
busy_bar = record { style = indeterminate; value = 0; width = 10; anim_pos = 12; label = none }

busy_bar-IsValid : IsValid busy_bar
busy_bar-IsValid = record { percent = omega arith; wide = omega arith }

busy_bar-period : busy_bar.anim_pos < period busy_bar
unfolding period
busy_bar-period = omega arith
