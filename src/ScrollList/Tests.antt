-- ===== src/ScrollList/Tests.antt =====
-- A list of three strings in an area of two lines.
use retrodesk.Prelude.{ℕ, ◌<◌, ◌≡◌, refl, some, none, true, false, List, [], ◌∷◌, get_elem?, arith}
use retrodesk.Prelude.Int.{pos, ◌+ℤ◌}
use retrodesk.Event.{MouseEvent}
use retrodesk.ScrollList.Widget.{ScrollList, create, size, Area, handle_mouse}
use retrodesk.ScrollList.Render.{render}
use retrodesk.ScrollList.Selection.{
  IsValid, Request, sets, appends, selects, perform_all, perform_all-create-IsValid,
}
use retrodesk.ScrollList.Shown.{line_of, render-selected, IsClick, handle_mouse-shown}

abbrev three : ScrollList
three = record {
  items = (0x61 ∷ []) ∷ (0x62 ∷ []) ∷ (0x63 ∷ []) ∷ [];
  capacity = 16;
  selected = 1;
  scroll_offset = 0;
}

three-IsValid : IsValid three
three-IsValid = record {
  room = omega arith;
  empty = λ e. omega (arith, e);
  inside = λ _. omega arith;
  unscrolled = refl;
}

abbrev area : Area
area = record { y = pos 5; x = pos 2; height = pos 2; width = pos 10 }

abbrev click : MouseEvent
click = record {
  y = pos 5;
  x = pos 4;
  local_y = pos 0;
  local_x = pos 0;
  has_local_coordinates = false;
  moved = false;
  button1_pressed = false;
  button1_released = false;
  button1_clicked = true;
  button1_dblclick = false;
  button3_pressed = false;
  button3_clicked = false;
  scroll_up = false;
  scroll_down = false;
}

click-IsClick : IsClick click area 0
unfolding ◌+ℤ◌
click-IsClick = record {
  line = refl;
  left = ground arith;
  right = ground arith;
  button = refl;
  no_wheel = (refl, refl);
}

abbrev calls : List Request
calls =
    sets true true (some (some (0x61 ∷ []) ∷ none ∷ []))
    ∷ appends true true (some (0x62 ∷ []))
    ∷ selects 9
    ∷ []

perform_all-create-IsValid_example : IsValid (perform_all calls create)
perform_all-create-IsValid_example = perform_all-create-IsValid calls refl

render-selected_example :
    (row : ℕ) × (row < size area.height)
    × (get_elem? (render true area three) row ≡ some (line_of area row three three.selected true))
render-selected_example =
    render-selected area three three-IsValid (omega arith) (omega arith) (omega arith)

handle_mouse-shown_example :
    ((handle_mouse click area three).1 ≡ true)
    × (get_elem? (render false area three) 0
        ≡ some (line_of area 0 three (handle_mouse click area three).0.selected false))
handle_mouse-shown_example =
    handle_mouse-shown click area three 0 three-IsValid (omega arith) click-IsClick (omega arith)
      (omega arith)
