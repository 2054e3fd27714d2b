-- ===== src/Wm/State.antt =====
-- The window manager's state and the static helpers of wm/window_manager.c.
use retrodesk.Prelude.{
  ℕ, suc, Option, none, some, Bool, false, ◌&&◌, List, [], ◌∷◌, ◌++◌, map, ◌==◌, if◌then◌else◌,
}
use retrodesk.Prelude.Int.{ℤ}
use retrodesk.Wm.Window.{Window, is_visible, contains, clamp_window}

-- A `WindowId` that a caller passes; `none` is WINDOW_ID_INVALID. Windows have the numbers that
-- `next_id` has given out.
abbrev pub WindowId : Type 0
WindowId = Option ℕ

-- The windows stand bottom to top, and `count` is their number. The renderer is what it reports as
-- the size of the screen.
pub record WindowManager : Type 0 where
  pub screen_rows : ℤ
  pub screen_cols : ℤ
  pub windows : List Window
  pub capacity : ℕ
  pub next_id : ℕ
  pub active_id : WindowId
  pub drag_enabled : Bool
  pub dragging : Bool
  pub drag_window_id : WindowId
  pub drag_off_y : ℤ
  pub drag_off_x : ℤ
  pub drag_session_moved : Bool
  pub drag_no_motion_sessions : ℕ
  pub drag_degraded : Bool
  pub drag_auto_degrade : Bool

abbrev pub is_id : WindowId → ℕ → Bool
is_id none n = false
is_id (some i) n = i == n

-- `wm_find_index`: the first position that holds the id.
unfoldable pub index_of : ℕ → List Window → Option ℕ
index_of i [] = none
index_of i (w ∷ ws) =
    if w.id == i then some 0 else elim (index_of i ws) [ none ↦ none | some k ↦ some (suc k) ]

unfoldable pub find_index : WindowId → List Window → Option ℕ
unfolding index_of
find_index none ws = none
find_index (some i) ws = index_of i ws

-- `wm_find_window`: the window there.
unfoldable pub find : ℕ → List Window → Option Window
find i [] = none
find i (w ∷ ws) = if w.id == i then some w else find i ws

unfoldable pub find_window : WindowId → List Window → Option Window
unfolding find
find_window none ws = none
find_window (some i) ws = find i ws

-- A write through the pointer that `wm_find_window` returns for the id.
unfoldable pub modify : ℕ → (Window → Window) → List Window → List Window
modify i f [] = []
modify i f (w ∷ ws) = if w.id == i then f w ∷ ws else w ∷ modify i f ws

-- The loops from the top of the z-order down.
unfoldable pub topmost : (Window → Bool) → List Window → Option Window
topmost p [] = none
topmost p (w ∷ ws) = elim (topmost p ws) [ some v ↦ some v | none ↦ if p w then some w else none ]

unfoldable pub top_window_at : ℤ → ℤ → List Window → Option Window
unfolding topmost contains
top_window_at py px = topmost (λ w. contains w py px)

abbrev pub is_modal : Window → Bool
is_modal w = is_visible w && w.flags.modal

unfoldable pub topmost_modal : List Window → Option Window
unfolding topmost is_visible
topmost_modal = topmost is_modal

-- `wm_update_active_flags`
abbrev pub mark : WindowId → Window → Window
mark active w = record w { is_active = is_visible w && is_id active w.id }

unfoldable pub update_active_flags : WindowManager → WindowManager
update_active_flags wm = record wm { windows = map (mark wm.active_id) wm.windows }

abbrev pub id_of : Option Window → WindowId
id_of none = none
id_of (some w) = some w.id

abbrev pub is_visible? : Option Window → Bool
is_visible? none = false
is_visible? (some w) = is_visible w

-- `wm_select_topmost_visible`
unfoldable pub select_topmost_visible : WindowManager → WindowManager
unfolding find_window topmost update_active_flags is_visible
select_topmost_visible wm =
    if is_visible? (find_window wm.active_id wm.windows)
    then update_active_flags wm
    else update_active_flags (record wm { active_id = id_of (topmost is_visible wm.windows) })

-- The body of the loop of `wm_cleanup_closed` for a window that is to close.
unfoldable pub forget : ℕ → WindowManager → WindowManager
forget i wm = record wm {
  active_id = if is_id wm.active_id i then none else wm.active_id;
  dragging = if is_id wm.drag_window_id i then false else wm.dragging;
  drag_window_id = if is_id wm.drag_window_id i then none else wm.drag_window_id;
}

unfoldable pub forget_closed : List Window → WindowManager → WindowManager
unfolding forget
forget_closed [] wm = wm
forget_closed (w ∷ ws) wm = forget_closed ws (if w.close_requested then forget w.id wm else wm)

-- The shift down over the closed entries.
unfoldable pub keep_open : List Window → List Window
keep_open [] = []
keep_open (w ∷ ws) = if w.close_requested then keep_open ws else w ∷ keep_open ws

unfoldable pub cleanup_closed : WindowManager → WindowManager
unfolding forget_closed keep_open select_topmost_visible
cleanup_closed wm =
    select_topmost_visible (record (forget_closed wm.windows wm) { windows = keep_open wm.windows })

-- `wm_bring_to_front` on the list of windows. Raising the last one leaves the list as it is.
unfoldable pub raise : ℕ → List Window → List Window
raise i [] = []
raise i (w ∷ ws) = if w.id == i then ws ++ w ∷ [] else w ∷ raise i ws

unfoldable pub clamp : WindowManager → Window → Window
unfolding clamp_window
clamp wm = clamp_window wm.screen_rows wm.screen_cols
