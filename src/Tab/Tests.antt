-- ===== src/Tab/Tests.antt =====
-- A row of two tabs.
use Prim.Native.Nat.{min}
use retrodesk.Prelude.{◌≡◌, refl, some, true, false, List, [], ◌∷◌, arith}
use retrodesk.Prelude.Int.{pos, ◌+ℤ◌}
use retrodesk.Event.{MouseEvent}
use retrodesk.Tab.Widget.{TabEntry, Tab, create, handle_mouse}
use retrodesk.Tab.Render.{width, render}
use retrodesk.Tab.Layout.{IsValid, Request, adds, activates, listens}
use retrodesk.Tab.Hit.{
  run_all, run_all-create-IsValid, IsActivated, handle_mouse-entry, render-width,
}

abbrev second : TabEntry
second = record { label = 0x62 ∷ []; x_offset = 6; width = 4 }

abbrev two : Tab
two = record {
  entries = record { label = 0x61 ∷ 0x61 ∷ []; x_offset = 0; width = 5 } ∷ second ∷ [];
  capacity = 4;
  active = 0;
  on_change = some 0;
  calls = [];
}

two-IsValid : IsValid two
two-IsValid = record {
  laid_out = (refl, refl, (refl, refl, tt));
  room = omega arith;
  empty = λ e. omega (arith, e);
  inside = λ _. omega arith;
}

abbrev click : MouseEvent
click = record {
  y = pos 3;
  x = pos 9;
  local_y = pos 0;
  local_x = pos 0;
  has_local_coordinates = false;
  moved = false;
  button1_pressed = false;
  button1_released = false;
  button1_clicked = true;
  button1_dblclick = false;
  button3_pressed = false;
  button3_clicked = false;
  scroll_up = false;
  scroll_down = false;
}

abbrev calls : List Request
calls =
    adds true true (some (0x61 ∷ []))
    ∷ listens (some 7)
    ∷ adds true true (some (0x62 ∷ []))
    ∷ activates 5
    ∷ []

run_all-create-IsValid_example : IsValid (run_all calls create)
run_all-create-IsValid_example = run_all-create-IsValid calls

handle_mouse-entry_example :
    ((handle_mouse click (pos 3) (pos 2) (pos 20) two).1 ≡ true)
    × IsActivated 1 two (handle_mouse click (pos 3) (pos 2) (pos 20) two).0
unfolding ◌+ℤ◌
handle_mouse-entry_example =
    handle_mouse-entry click (pos 3) (pos 2) (pos 20) two 1 7 second two-IsValid refl (omega arith)
      (omega arith) (ground arith) refl refl refl

render-width_example : (render true 7 two).1 ≡ min 7 (width two)
render-width_example = render-width true 7 two two-IsValid
