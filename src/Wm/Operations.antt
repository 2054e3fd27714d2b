-- ===== src/Wm/Operations.antt =====
-- The public operations of wm/window_manager.c, but the events.
use retrodesk.Prelude.{
  ℕ, zero, suc, ◌+◌, ◌-◌, ◌*◌, ◌%◌, Option, none, some, Bool, true, false, not, ◌&&◌, ◌||◌, List,
  [], ◌∷◌, ◌++◌, ltb, if◌then◌else◌, length, get_elem?, take,
}
use retrodesk.Prelude.Int.{ℤ, pos, ◌+ℤ◌, ◌-ℤ◌, ltb_ℤ, eqb_ℤ}
use retrodesk.Growth.{reserve}
use retrodesk.Wm.Window.{Window, WindowFlags, is_visible, is_focusable, at_least, at_most}
use retrodesk.Wm.State.{
  WindowId, WindowManager, is_id, find_index, find_window, modify, topmost_modal,
  update_active_flags, select_topmost_visible, cleanup_closed, raise, clamp,
}

-- `wm_create` with a renderer that reports this size.
unfoldable pub create : ℤ → ℤ → WindowManager
create rows cols = record {
  screen_rows = rows;
  screen_cols = cols;
  windows = [];
  capacity = 0;
  next_id = 1;
  active_id = none;
  drag_enabled = true;
  dragging = false;
  drag_window_id = none;
  drag_off_y = pos 0;
  drag_off_x = pos 0;
  drag_session_moved = false;
  drag_no_motion_sessions = 0;
  drag_degraded = false;
  drag_auto_degrade = false;
}

unfoldable pub set_drag_enabled : Bool → WindowManager → WindowManager
set_drag_enabled false wm = record wm {
  drag_enabled = false;
  dragging = false;
  drag_window_id = none;
  drag_session_moved = false;
}
set_drag_enabled true wm = record wm {
  drag_enabled = true;
  drag_degraded = false;
  drag_no_motion_sessions = 0;
}

unfoldable pub set_drag_auto_degrade : Bool → WindowManager → WindowManager
set_drag_auto_degrade true wm = record wm { drag_auto_degrade = true }
set_drag_auto_degrade false wm = record wm {
  drag_auto_degrade = false;
  drag_no_motion_sessions = 0;
  drag_degraded = false;
  drag_enabled = true;
}

-- `RetroWindowSpec`; the title `none` is NULL, and a title is its bytes.
pub record WindowSpec : Type 0 where
  pub height : ℤ
  pub width : ℤ
  pub y : ℤ
  pub x : ℤ
  pub title : Option (List ℕ)
  pub flags : WindowFlags
  pub event_cb : Option ℕ

-- Which of the three allocations of `wm_create_window` succeed.
pub record Allocations : Type 0 where
  pub array : Bool
  pub window : Bool
  pub draw_list : Bool

-- "Window", the title where the caller gives none.
abbrev default_title : List ℕ
default_title = 0x57 ∷ 0x69 ∷ 0x6e ∷ 0x64 ∷ 0x6f ∷ 0x77 ∷ []

abbrev title_bytes : Option (List ℕ) → List ℕ
title_bytes none = default_title
title_bytes (some t) = t

-- The fields that `wm_create_window` fills in, before it clamps.
unfoldable pub placed : WindowSpec → WindowManager → Window
placed spec wm =
    let max_h = at_least (pos 4) (wm.screen_rows -ℤ pos 1) in
    let max_w = at_least (pos 8) wm.screen_cols in
    let cascade = length wm.windows % 5 in
    let given = not (ltb_ℤ spec.y (pos 0) || ltb_ℤ spec.x (pos 0)) in
    record {
      id = wm.next_id;
      y = if given then spec.y else pos (1 + cascade);
      x = if given then spec.x else pos (2 + cascade * 3);
      h = at_most max_h (at_least (pos 4) spec.height);
      w = at_most max_w (at_least (pos 8) spec.width);
      title = take 63 (title_bytes spec.title);
      flags = spec.flags;
      is_active = false;
      minimized = false;
      close_requested = false;
      event_cb = spec.event_cb;
    }

unfoldable pub is_too_small : WindowManager → Bool
is_too_small wm = ltb_ℤ wm.screen_rows (pos 4) || ltb_ℤ wm.screen_cols (pos 8)

unfoldable pub add_window : Window → WindowManager → WindowManager
unfolding clamp update_active_flags
add_window window wm =
    update_active_flags
      (record wm { windows = wm.windows ++ clamp wm window ∷ []; active_id = some window.id })

-- `wm_create_window`. A number is used up also where the screen is too small or the draw list
-- cannot be allocated.
unfoldable pub create_window : Allocations → WindowSpec → WindowManager → WindowManager × WindowId
unfolding reserve placed is_too_small add_window
create_window a spec wm = elim (reserve 8 a.array (length wm.windows + 1) wm.capacity) [
  | none ↦ (wm, none)
  | some cap ↦
      let grown = record wm { capacity = cap } in
      let numbered = record grown { next_id = wm.next_id + 1 } in
      if not a.window
      then (grown, none)
      else if is_too_small wm
      then (numbered, none)
      else if a.draw_list
      then (add_window (placed spec wm) numbered, some wm.next_id)
      else (numbered, none)
]

abbrev pub close : Window → Window
close w = record w { close_requested = true }

-- `retro_window_request_close` on the window with this id.
unfoldable pub request_close : ℕ → WindowManager → WindowManager
unfolding modify
request_close i wm = record wm { windows = modify i close wm.windows }

unfoldable pub close_window : WindowId → WindowManager → WindowManager
unfolding find_window request_close cleanup_closed
close_window id wm = elim (find_window id wm.windows) [
  | none ↦ wm
  | some w ↦ cleanup_closed (request_close w.id wm)
]

abbrev pub unminimize : Window → Window
unminimize w = record w { minimized = false }

unfoldable pub focus_window : WindowId → WindowManager → WindowManager
unfolding find_window modify update_active_flags
focus_window id wm = elim (find_window id wm.windows) [
  | none ↦ wm
  | some w ↦
      if w.close_requested
      then wm
      else update_active_flags
          (record wm { windows = modify w.id unminimize wm.windows; active_id = id })
]

unfoldable pub bring_to_front : WindowId → WindowManager → WindowManager
unfolding find_window raise is_visible
bring_to_front id wm = elim (find_window id wm.windows) [
  | none ↦ wm
  | some w ↦ if is_visible w then record wm { windows = raise w.id wm.windows } else wm
]

-- The loop of `wm_cycle_focus`: the first focusable window behind position `idx`, going round.
unfoldable pub next_focusable : ℕ → ℕ → ℕ → List Window → Option Window
unfolding is_focusable
next_focusable zero step idx ws = none
next_focusable (suc rounds) step idx ws =
    let later = next_focusable rounds (step + 1) idx ws in
    elim (get_elem? ws ((idx + step) % length ws)) [
      | none ↦ none
      | some w ↦ if is_focusable w then some w else later
    ]

abbrev pub start_index : Option ℕ → ℕ → ℕ
start_index none count = count - 1
start_index (some i) count = i

-- The body of that loop where it finds a window.
abbrev pub cycle_on : Option Window → WindowManager → WindowManager × Bool
cycle_on none wm = (wm, false)
cycle_on (some w) wm = if is_id wm.active_id w.id then (wm, false) else (
  update_active_flags (bring_to_front (some w.id) (record wm { active_id = some w.id })),
  true,
)

-- Focus does not cycle while a visible modal window is open.
abbrev pub cycle_unless : Option Window → Option Window → WindowManager → WindowManager × Bool
cycle_unless none found wm = cycle_on found wm
cycle_unless (some modal) found wm = (wm, false)

unfoldable pub cycle_focus : WindowManager → WindowManager × Bool
unfolding topmost_modal find_index next_focusable bring_to_front update_active_flags
cycle_focus wm =
    let idx = start_index (find_index wm.active_id wm.windows) (length wm.windows) in
    if ltb (length wm.windows) 2
    then (wm, false)
    else cycle_unless (topmost_modal wm.windows)
        (next_focusable (length wm.windows) 1 idx wm.windows) wm

abbrev pub minimize : Window → Window
minimize w = record w { minimized = true; is_active = false }

-- What `wm_minimize_window` resets for the window that it hides.
abbrev pub release_hidden : ℕ → WindowManager → WindowManager
release_hidden i wm = record wm {
  dragging = if is_id wm.drag_window_id i then false else wm.dragging;
  drag_window_id = if is_id wm.drag_window_id i then none else wm.drag_window_id;
  drag_session_moved = if is_id wm.drag_window_id i then false else wm.drag_session_moved;
  active_id = if is_id wm.active_id i then none else wm.active_id;
}

unfoldable pub minimize_window : WindowId → WindowManager → WindowManager × Bool
unfolding find_window modify select_topmost_visible
minimize_window id wm = elim (find_window id wm.windows) [
  | none ↦ (wm, false)
  | some w ↦ if w.minimized || w.flags.fixed || w.flags.modal then (wm, false) else (
    select_topmost_visible
        (record (release_hidden w.id wm) { windows = modify w.id minimize wm.windows }),
    true,
  )
]

unfoldable pub restore_window : WindowId → WindowManager → WindowManager × Bool
unfolding find_window modify update_active_flags
restore_window id wm = elim (find_window id wm.windows) [
  | none ↦ (wm, false)
  | some w ↦
      if w.minimized
      then (update_active_flags (record wm { windows = modify w.id unminimize wm.windows }), true)
      else (wm, false)
]

-- Where the moves of `wm_move_active_window` put a window.
abbrev pub shift : ℤ → ℤ → Window → Window
shift dy dx w = record w { y = w.y +ℤ dy; x = w.x +ℤ dx }

unfoldable pub move_active_window : ℤ → ℤ → WindowManager → WindowManager × Bool
unfolding find_window modify clamp is_focusable
move_active_window dy dx wm = elim (find_window wm.active_id wm.windows) [
  | none ↦ (wm, false)
  | some w ↦
      if is_focusable w
      then (record wm { windows = modify w.id (λ v. clamp wm (shift dy dx v)) wm.windows }, true)
      else (wm, false)
]

-- `if (limit > 0 && origin + size > limit) size = limit - origin;`
abbrev pub within : ℤ → ℤ → ℤ → ℤ
within limit origin size =
    if ltb_ℤ (pos 0) limit && ltb_ℤ limit (origin +ℤ size) then limit -ℤ origin else size

abbrev pub resized : ℤ → ℤ → WindowManager → Window → Window
resized dh dw wm v = record v {
  h = within wm.screen_rows v.y (at_least (pos 4) (v.h +ℤ dh));
  w = within wm.screen_cols v.x (at_least (pos 12) (v.w +ℤ dw));
}

unfoldable pub resize_active_window : ℤ → ℤ → WindowManager → WindowManager × Bool
unfolding find_window modify is_focusable
resize_active_window dh dw wm = elim (find_window wm.active_id wm.windows) [
  | none ↦ (wm, false)
  | some v ↦
      let next = resized dh dw wm v in
      if not (is_focusable v)
      then (wm, false)
      else if ltb_ℤ next.h (pos 4) || ltb_ℤ next.w (pos 12)
      then (wm, false)
      else if eqb_ℤ next.h v.h && eqb_ℤ next.w v.w
      then (wm, false)
      else (record wm { windows = modify v.id (resized dh dw wm) wm.windows }, true)
]
