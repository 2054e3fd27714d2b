-- ===== src/Wm/Tests.antt =====
-- The window manager on a desktop with two windows, one of them modal.
use retrodesk.Prelude.{
  zero, suc, ◌≡◌, ◌⊎◌, refl, none, some, true, false, List, [], ◌∷◌, ◌++◌, All, arith,
}
use retrodesk.Prelude.Int.{pos}
use retrodesk.Event.{MouseEvent, mouse, resize}
use retrodesk.Wm.Window.{WindowFlags, Window, is_visible, clamp_window}
use retrodesk.Wm.State.{WindowManager, find_window, topmost_modal}
use retrodesk.Wm.Operations.{
  WindowSpec, Allocations, create, create_window, close_window, bring_to_front, cycle_focus,
  resize_active_window,
}
use retrodesk.Wm.Events.{handle_event}
use retrodesk.Wm.Invariant.{IsValid}
use retrodesk.Wm.Requests.{creates, closes, cycles, raises}
use retrodesk.Wm.Session.{
  Script, run_script, Step, request, event, terminal, run, IsOutside, run-create-IsValid,
}
use retrodesk.Wm.Order.{Splits, Cycled, ids, bring_to_front-Splits, cycle_focus-Cycled}
use retrodesk.Wm.Modal.{IsSettled, handle_event-modal-mouse, handle_event-modal-only}
use retrodesk.Wm.Closing.{without, ids-close_window}
use retrodesk.Wm.Geometry.{
  IsOnDesk, clamp_window-IsOnDesk, Created, create_window-Created, Resized,
  resize_active_window-Resized,
}

abbrev plain : WindowFlags
plain = record { fixed = false; modal = false; popup = false; app_owned = false }

abbrev editor : Window
editor = record {
  id = 1;
  y = pos 1;
  x = pos 2;
  h = pos 10;
  w = pos 30;
  title = [];
  flags = plain;
  is_active = false;
  minimized = false;
  close_requested = false;
  event_cb = some 0;
}

abbrev files : Window
files = record editor { id = 2; y = pos 2; x = pos 5; is_active = true }

abbrev question : Window
question = record files { flags = record plain { modal = true } }

abbrev desktop : WindowManager
desktop = record {
  screen_rows = pos 24;
  screen_cols = pos 80;
  windows = editor ∷ files ∷ [];
  capacity = 8;
  next_id = 3;
  active_id = some 2;
  drag_enabled = true;
  dragging = false;
  drag_window_id = none;
  drag_off_y = pos 0;
  drag_off_x = pos 0;
  drag_session_moved = false;
  drag_no_motion_sessions = 0;
  drag_degraded = false;
  drag_auto_degrade = true;
}

abbrev asking : WindowManager
asking = record desktop { windows = editor ∷ question ∷ [] }

desktop-IsValid : IsValid desktop
unfolding is_visible
desktop-IsValid = record {
  core = record {
    collection = record {
      distinct = ((λ e. omega (arith, e), tt), (tt, tt));
      fresh = (omega arith, (omega arith, tt));
      placed = ground arith;
    };
    drag = ground arith;
    aims = λ e. cc;
  };
  active = refl;
  marked = (refl, (refl, tt));
}

asking-IsValid : IsValid asking
unfolding is_visible
asking-IsValid = record {
  core = record {
    collection = record {
      distinct = ((λ e. omega (arith, e), tt), (tt, tt));
      fresh = (omega arith, (omega arith, tt));
      placed = ground arith;
    };
    drag = ground arith;
    aims = λ e. cc;
  };
  active = refl;
  marked = (refl, (refl, tt));
}

asking-IsSettled : IsSettled asking
asking-IsSettled = record { none_closing = (refl, (refl, tt)); focused = λ e. cc }

asking-modal : topmost_modal asking.windows ≡ some question
unfolding topmost_modal
asking-modal = refl

-- A press of the button in the title bar of the second window.
abbrev press : MouseEvent
press = record {
  y = pos 2;
  x = pos 7;
  local_y = pos 0;
  local_x = pos 0;
  has_local_coordinates = false;
  moved = false;
  button1_pressed = true;
  button1_released = false;
  button1_clicked = false;
  button1_dblclick = false;
  button3_pressed = false;
  button3_clicked = false;
  scroll_up = false;
  scroll_down = false;
}

abbrev quiet : Script
quiet cb i e wm = []

-- The callback of the first window raises the second.
abbrev busy : Script
busy cb zero e wm = []
busy cb (suc zero) e wm = raises (some 2) ∷ []
busy cb (suc (suc i)) e wm = []

abbrev granted : Allocations
granted = record { array = true; window = true; draw_list = true }

abbrev wide_spec : WindowSpec
wide_spec = record {
  height = pos 100;
  width = pos 100;
  y = pos 90;
  x = pos 90;
  title = none;
  flags = plain;
  event_cb = some 0;
}

abbrev session : List Step
session =
    request (creates granted wide_spec)
    ∷ request (creates granted wide_spec)
    ∷ event (mouse press)
    ∷ terminal (pos 10) (pos 40)
    ∷ event (resize (record { rows = pos 10; cols = pos 40 }))
    ∷ request cycles
    ∷ request (closes (some 1))
    ∷ []

session-IsOutside : All IsOutside session
session-IsOutside =
    (λ i e. cc, (λ i e. cc, (λ i e. cc, (λ i e. cc, (λ i e. cc, (λ i e. cc, (λ i e. cc, tt)))))))

run-create-IsValid_example : IsValid (run busy session (create (pos 24) (pos 80)))
run-create-IsValid_example = run-create-IsValid busy (pos 24) (pos 80) session session-IsOutside

handle_event-modal-mouse_example :
    handle_event (run_script quiet) (mouse press) asking ≡ (asking, true)
handle_event-modal-mouse_example =
    handle_event-modal-mouse quiet press asking question asking-IsValid asking-IsSettled
      asking-modal (λ cb e. refl)

handle_event-modal-only_example :
    handle_event (run_script quiet) (mouse press) asking
    ≡ handle_event (run_script busy) (mouse press) asking
handle_event-modal-only_example =
    handle_event-modal-only quiet busy (mouse press) asking question asking-modal (λ cb d. refl)

bring_to_front-Splits_example :
    (below above : List Window) × Splits desktop.windows below editor above
    × (bring_to_front (some 1) desktop
        ≡ record desktop { windows = below ++ (above ++ editor ∷ []) })
bring_to_front-Splits_example =
    bring_to_front-Splits (some 1) desktop editor (unfold find_window in refl)
      (unfold is_visible in refl)

cycle_focus-Cycled_example : Cycled desktop (cycle_focus desktop)
cycle_focus-Cycled_example = cycle_focus-Cycled desktop desktop-IsValid

ids-close_window_example :
    ((find_window (some 1) desktop.windows ≡ none) × (close_window (some 1) desktop ≡ desktop))
    ⊎ ((w : Window) × (some 1 ≡ some w.id)
        × (find_window (some 1) desktop.windows ≡ some w)
        × (ids (close_window (some 1) desktop).windows ≡ without w.id (ids desktop.windows)))
ids-close_window_example = ids-close_window (some 1) desktop (refl, (refl, tt))

clamp_window-IsOnDesk_example : IsOnDesk (pos 24) (pos 80) (clamp_window (pos 24) (pos 80) files)
clamp_window-IsOnDesk_example =
    clamp_window-IsOnDesk (pos 24) (pos 80) files (ground arith) (ground arith)

create_window-Created_example : Created desktop (create_window granted wide_spec desktop)
create_window-Created_example = create_window-Created granted wide_spec desktop (ground arith)

resize_active_window-Resized_example :
    Resized (pos 5) (pos 60) desktop files (resize_active_window (pos 5) (pos 60) desktop)
resize_active_window-Resized_example =
    resize_active_window-Resized (pos 5) (pos 60) desktop files (unfold find_window in refl)
      (ground arith) (ground arith)
