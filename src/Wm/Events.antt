-- ===== src/Wm/Events.antt =====
-- `wm_handle_event` of wm/window_manager.c.
use retrodesk.Prelude.{
  ℕ, ◌+◌, Option, none, some, Bool, true, false, not, ◌&&◌, ◌||◌, map, leb, if◌then◌else◌,
}
use retrodesk.Prelude.Int.{pos, ◌-ℤ◌, ltb_ℤ}
use retrodesk.Event.{Event, MouseEvent, KeyEvent, nothing, key, mouse, resize}
use retrodesk.Wm.Window.{Window, is_visible, title_hit}
use retrodesk.Wm.State.{
  WindowManager, find_window, modify, top_window_at, topmost_modal, cleanup_closed, clamp,
}
use retrodesk.Wm.Operations.{focus_window, bring_to_front}

-- The mouse event with its content-local coordinates.
unfoldable pub localize : Window → MouseEvent → MouseEvent
localize win m =
    let ly = m.y -ℤ win.y -ℤ pos 1 in
    let lx = m.x -ℤ win.x -ℤ pos 1 in
    record m {
      local_y = ly;
      local_x = lx;
      has_local_coordinates =
          not (ltb_ℤ ly (pos 0))
          && not (ltb_ℤ lx (pos 0))
          && ltb_ℤ ly (win.h -ℤ pos 2)
          && ltb_ℤ lx (win.w -ℤ pos 2);
    }

-- The steps of `wm_handle_mouse` where no modal window is open, in their order.
unfoldable pub focus_hit : Option Window → MouseEvent → WindowManager → WindowManager
unfolding focus_window bring_to_front
focus_hit none m wm = wm
focus_hit (some hit) m wm =
    if m.button1_pressed || m.button1_clicked
    then bring_to_front (some hit.id) (focus_window (some hit.id) wm)
    else wm

unfoldable pub begin_drag : Option Window → MouseEvent → WindowManager → WindowManager
unfolding title_hit
begin_drag none m wm = wm
begin_drag (some hit) m wm =
    if wm.drag_enabled
      && m.button1_pressed
      && not m.button1_clicked
      && not hit.flags.fixed
      && title_hit hit m.y m.x
    then record wm {
      dragging = true;
      drag_window_id = some hit.id;
      drag_off_y = m.y -ℤ hit.y;
      drag_off_x = m.x -ℤ hit.x;
      drag_session_moved = false;
    }
    else wm

unfoldable pub drag_motion : MouseEvent → WindowManager → WindowManager
unfolding find_window modify is_visible clamp
drag_motion m wm = elim (find_window wm.drag_window_id wm.windows) [
  | none ↦ wm
  | some drag ↦
      if wm.dragging && m.moved && is_visible drag
      then record wm {
        windows =
            modify drag.id
              (λ v. clamp wm (record v { y = m.y -ℤ wm.drag_off_y; x = m.x -ℤ wm.drag_off_x }))
              wm.windows;
        drag_session_moved =
            if m.button1_released || m.button1_clicked then wm.drag_session_moved else true;
      }
      else wm
]

-- The count of sessions without motion, and the degradation at the third.
unfoldable pub judge_session : WindowManager → WindowManager
judge_session wm =
    if wm.drag_session_moved
    then record wm { drag_no_motion_sessions = 0 }
    else if wm.drag_auto_degrade
    then record wm {
      drag_no_motion_sessions = wm.drag_no_motion_sessions + 1;
      drag_enabled = if leb 3 (wm.drag_no_motion_sessions + 1) then false else wm.drag_enabled;
      drag_degraded = if leb 3 (wm.drag_no_motion_sessions + 1) then true else wm.drag_degraded;
    }
    else wm

unfoldable pub end_drag : MouseEvent → WindowManager → WindowManager
unfolding judge_session
end_drag m wm =
    if wm.dragging && (m.button1_released || m.button1_clicked)
    then record (judge_session wm) {
      dragging = false;
      drag_window_id = none;
      drag_session_moved = false;
    }
    else wm

-- What the event callbacks of the windows do to the manager: a parameter, given the callback, the
-- window that it is called for and the event.
module _ (call : ℕ → ℕ → Event → WindowManager → WindowManager) where
  -- `if (window->event_cb) window->event_cb(window, &evt, window->user_data);`
  unfoldable pub deliver : Window → Event → WindowManager → WindowManager
  deliver win e wm = elim win.event_cb [ none ↦ wm | some cb ↦ call cb win.id e wm ]

  -- The window that was hit gets the event last, at the place where a drag has left it.
  unfoldable pub deliver_hit : Option Window → MouseEvent → WindowManager → WindowManager
  unfolding deliver find_window localize
  deliver_hit none m wm = wm
  deliver_hit (some hit) m wm = elim (find_window (some hit.id) wm.windows) [
    | none ↦ wm
    | some now ↦ deliver now (mouse (localize now m)) wm
  ]

  -- The drag part of `wm_handle_mouse`.
  unfoldable pub drag_steps : Option Window → MouseEvent → WindowManager → WindowManager
  unfolding focus_hit begin_drag drag_motion end_drag
  drag_steps hit m wm = end_drag m (drag_motion m (begin_drag hit m (focus_hit hit m wm)))

  unfoldable pub handle_mouse : MouseEvent → WindowManager → WindowManager
  unfolding topmost_modal top_window_at deliver localize drag_steps deliver_hit cleanup_closed
  handle_mouse m wm = elim (topmost_modal wm.windows) [
    | some modal ↦ cleanup_closed (deliver modal (mouse (localize modal m)) wm)
    | none ↦ let hit = top_window_at m.y m.x wm.windows in deliver_hit hit m (drag_steps hit m wm)
  ]

  abbrev pub key_target : Option Window → Option Window → Option Window
  key_target none active = active
  key_target (some modal) active = some modal

  unfoldable pub deliver_key : Option Window → KeyEvent → WindowManager → WindowManager
  unfolding deliver is_visible
  deliver_key none k wm = wm
  deliver_key (some target) k wm = if is_visible target then deliver target (key k) wm else wm

  -- `wm_handle_event`. By the time of a resize event the renderer reports the new size.
  unfoldable pub handle_event : Event → WindowManager → WindowManager × Bool
  unfolding handle_mouse cleanup_closed clamp topmost_modal find_window deliver_key
  handle_event nothing wm = (wm, false)
  handle_event (mouse m) wm = (cleanup_closed (handle_mouse m wm), true)
  handle_event (resize r) wm =
      (cleanup_closed (record wm { windows = map (clamp wm) wm.windows }), true)
  handle_event (key k) wm = (
    cleanup_closed (
        deliver_key (key_target (topmost_modal wm.windows) (find_window wm.active_id wm.windows)) k
          wm),
    true,
  )
