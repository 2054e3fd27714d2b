-- ===== src/Wm/Session.antt =====
-- Whole sessions of the window manager: requests, events and changes of the terminal in any order,
-- with event callbacks that make requests of their own.
use retrodesk.Prelude.{
  ℕ, ◌≡◌, ◌≢◌, refl, ap, All, Option, some, none, Bool, true, ◌&&◌, ◌||◌, not, List, [], ◌∷◌, map,
  Option-cases, inl, inr, arith, if◌then◌else◌, if_either,
}
use retrodesk.Prelude.Int.{ℤ, ◌-ℤ◌}
use retrodesk.Event.{Event, MouseEvent, KeyEvent, nothing, key, mouse, resize}
use retrodesk.Wm.Window.{Window, is_visible, contains, title_hit}
use retrodesk.Wm.State.{
  WindowManager, find, find_window, modify, mark, topmost, top_window_at, topmost_modal, clamp,
  update_active_flags,
}
use retrodesk.Wm.Operations.{create, focus_window, bring_to_front, unminimize}
use retrodesk.Wm.Events.{
  localize, focus_hit, begin_drag, drag_motion, judge_session, end_drag, deliver, deliver_hit,
  drag_steps, handle_mouse, deliver_key, handle_event,
}
use retrodesk.Wm.Collection.{has, IsCollection-map}
use retrodesk.Wm.Lookup.{has-topmost, has-map, has-modify, has-raise}
use retrodesk.Wm.Invariant.{
  is_open, IsSound, IsValid, Refers-map, IsValid-IsSound, cleanup_closed-IsValid,
}
use retrodesk.Wm.Soundness.{clamp-IsPlaced, Core-modify}
use retrodesk.Wm.Steps.{Core-focus_window, Core-bring_to_front}
use retrodesk.Wm.Requests.{
  Request, perform, perform_all, perform_all-IsSound, requests_close, is_open-IsStable,
}
use retrodesk.Wm.Validity.{perform-IsValid}

-- A program for the callbacks: the requests that a callback makes for a window and an event, which
-- may depend on all of the manager's state.
abbrev pub Script : Type 0
Script = ℕ → ℕ → Event → WindowManager → List Request

unfoldable pub run_script : Script → ℕ → ℕ → Event → WindowManager → WindowManager
unfolding perform_all
run_script script cb i e wm = perform_all (script cb i e wm) wm

-- One step of a session. The terminal changes its size at any time, before the event says so.
pub data Step : Type 0 where
  request : Request → Step
  event : Event → Step
  terminal : ℤ → ℤ → Step

module _ (script : Script) where
  unfoldable pub step : Step → WindowManager → WindowManager
  unfolding perform handle_event run_script
  step (request r) wm = perform r wm
  step (event e) wm = (handle_event (run_script script) e wm).0
  step (terminal rows cols) wm = record wm { screen_rows = rows; screen_cols = cols }

  unfoldable pub run : List Step → WindowManager → WindowManager
  unfolding step
  run [] wm = wm
  run (s ∷ ss) wm = run ss (step s wm)

-- `retro_window_request_close` is for callbacks: it waits for the cleanup behind them.
abbrev pub IsOutside : Step → Type 0
IsOutside s = (i : ℕ) → s ≢ request (requests_close i)

-- A window that focus and raising leave open.
has-focus_window :
    (i j : ℕ) (wm : WindowManager)
    → has is_open i wm.windows ≡ true
    → has is_open i (focus_window (some j) wm).windows ≡ true
unfolding focus_window find_window update_active_flags
has-focus_window i j wm h = elim (Option-cases (find j wm.windows)) [
  | inl e ↦ rw (e, focus_window) h
  | inr (w, e) ↦
      rw (e, focus_window)
        (if_either (λ (v : WindowManager). has is_open i v.windows ≡ true) w.close_requested
          (λ _. h)
          (λ _.
            has-map is_open (mark (some j)) (λ u. refl) (λ u k. k) i
              (modify w.id unminimize wm.windows)
              (has-modify is_open unminimize (λ u. refl) (λ u k. refl) i w.id wm.windows h)))
]

has-bring_to_front :
    (i j : ℕ) (wm : WindowManager)
    → has is_open i wm.windows ≡ true
    → has is_open i (bring_to_front (some j) wm).windows ≡ true
unfolding bring_to_front find_window
has-bring_to_front i j wm h = elim (Option-cases (find j wm.windows)) [
  | inl e ↦ rw (e, bring_to_front) h
  | inr (w, e) ↦
      rw (e, bring_to_front)
        (if_either (λ (v : WindowManager). has is_open i v.windows ≡ true) (is_visible w)
          (λ _. rw has-raise h) (λ _. h))
]

-- The window under the pointer, if any, is one of the list.
abbrev IsHit : Option Window → WindowManager → Type 0
IsHit none wm = Unit {0}
IsHit (some hit) wm = has is_open hit.id wm.windows ≡ true

focus_hit-IsSound :
    (hit : Option Window) (m : MouseEvent) (wm : WindowManager)
    → IsHit hit wm
    → IsSound wm
    → IsSound (focus_hit hit m wm) × IsHit hit (focus_hit hit m wm)
unfolding focus_hit
focus_hit-IsSound none m wm h s = (s, tt)
focus_hit-IsSound (some hit) m wm h s =
    if_either (λ (v : WindowManager). IsSound v × IsHit (some hit) v)
      (m.button1_pressed || m.button1_clicked)
      (λ _.
        let focused = focus_window (some hit.id) wm in
        (
          Core-bring_to_front is_open is_open-IsStable (some hit.id) focused
              (Core-focus_window is_open is_open-IsStable (some hit.id) wm s),
          has-bring_to_front hit.id hit.id focused (has-focus_window hit.id hit.id wm h),
        ))
      (λ _. (s, h))

begin_drag-IsSound :
    (hit : Option Window) (m : MouseEvent) (wm : WindowManager)
    → IsHit hit wm
    → IsSound wm
    → IsSound (begin_drag hit m wm)
unfolding begin_drag
begin_drag-IsSound none m wm h s = s
begin_drag-IsSound (some hit) m wm h s =
    if_either IsSound
      (wm.drag_enabled
        && m.button1_pressed
        && not m.button1_clicked
        && not hit.flags.fixed
        && title_hit hit m.y m.x)
      (λ go. record { collection = s.collection; drag = ground arith; aims = λ _. h }) (λ _. s)

drag_motion-IsSound :
    (m : MouseEvent) (wm : WindowManager) → IsSound wm → IsSound (drag_motion m wm)
unfolding drag_motion
drag_motion-IsSound m wm s = elim (Option-cases (find_window wm.drag_window_id wm.windows)) [
  | inl e ↦ rw (e, drag_motion) s
  | inr (w, e) ↦
      rw (e, drag_motion)
        (if_either IsSound (wm.dragging && m.moved && is_visible w) (λ _. moved w) (λ _. s))
]
  where
    at_pointer : Window → Window
    at_pointer v = record v { y = m.y -ℤ wm.drag_off_y; x = m.x -ℤ wm.drag_off_x }

    follow : Window → Window
    follow v = clamp wm (at_pointer v)

    moved :
        (w : Window)
        → IsSound (record wm {
          windows = modify w.id follow wm.windows;
          drag_session_moved =
              if m.button1_released || m.button1_clicked then wm.drag_session_moved else true;
        })
    moved w =
        let c =
          Core-modify is_open is_open-IsStable follow w.id wm (λ u. refl)
            (λ u h. clamp-IsPlaced wm.screen_rows wm.screen_cols (at_pointer u) h.2 h.3)
            (λ u h. is_open-IsStable (follow u) u refl (λ q. q) h) s in
        record { collection = c.collection; drag = c.drag; aims = c.aims }

end_drag-IsSound : (m : MouseEvent) (wm : WindowManager) → IsSound wm → IsSound (end_drag m wm)
unfolding end_drag judge_session
end_drag-IsSound m wm s = ground arith

top_window_at-IsHit : (py px : ℤ) (wm : WindowManager) → IsHit (top_window_at py px wm.windows) wm
unfolding top_window_at contains is_visible
top_window_at-IsHit py px wm = elim (Option-cases (top_window_at py px wm.windows)) [
  | inl e ↦ rw e tt
  | inr (w, e) ↦ rw e (opened (λ v. contains v py px) (λ v h. ground arith) w e)
]
  where
    open_of :
        (p : Window → Bool)
        → ((v : Window) → p v ≡ true → is_open v ≡ true)
        → (i : ℕ) (ws : List Window) → has p i ws ≡ true
        → has is_open i ws ≡ true
    open_of p weaker i [] h = h
    open_of p weaker i (v ∷ ws) h = ground (arith, weaker v, open_of p weaker i ws)

    opened :
        (p : Window → Bool)
        → ((v : Window) → p v ≡ true → is_open v ≡ true)
        → (w : Window) → topmost p wm.windows ≡ some w
        → has is_open w.id wm.windows ≡ true
    opened p weaker w e = open_of p weaker w.id wm.windows (has-topmost p wm.windows w e).0

module _ (script : Script) where
  deliver-IsSound :
      (w : Window) (e : Event) (wm : WindowManager)
      → IsSound wm
      → IsSound (deliver (run_script script) w e wm)
  unfolding deliver run_script
  deliver-IsSound w e wm s = elim (Option-cases w.event_cb) [
    | inl none_set ↦ rw (none_set, deliver) s
    | inr (cb, set) ↦ rw (set, deliver) (perform_all-IsSound (script cb w.id e wm) wm s)
  ]

  deliver_hit-IsSound :
      (hit : Option Window) (m : MouseEvent) (wm : WindowManager)
      → IsSound wm
      → IsSound (deliver_hit (run_script script) hit m wm)
  unfolding deliver_hit
  deliver_hit-IsSound none m wm s = s
  deliver_hit-IsSound (some hit) m wm s =
      elim (Option-cases (find_window (some hit.id) wm.windows)) [
        | inl e ↦ rw (e, deliver_hit) s
        | inr (w, e) ↦ rw (e, deliver_hit) (deliver-IsSound w (mouse (localize w m)) wm s)
      ]

  drag_steps-IsSound :
      (hit : Option Window) (m : MouseEvent) (wm : WindowManager)
      → IsHit hit wm
      → IsSound wm
      → IsSound (drag_steps (run_script script) hit m wm)
  unfolding drag_steps
  drag_steps-IsSound hit m wm h s =
      let (focused, still_hit) = focus_hit-IsSound hit m wm h s in
      end_drag-IsSound m _ (drag_motion-IsSound m _ (begin_drag-IsSound hit m _ still_hit focused))

  handle_mouse-IsSound :
      (m : MouseEvent) (wm : WindowManager)
      → IsSound wm
      → IsSound (handle_mouse (run_script script) m wm)
  unfolding handle_mouse
  handle_mouse-IsSound m wm s = elim (Option-cases (topmost_modal wm.windows)) [
    | inl e ↦
        let hit = top_window_at m.y m.x wm.windows in
        rw (e, handle_mouse)
          (deliver_hit-IsSound hit m _
            (drag_steps-IsSound hit m wm (top_window_at-IsHit m.y m.x wm) s))
    | inr (w, e) ↦
        rw (e, handle_mouse)
          (IsValid-IsSound _
            (cleanup_closed-IsValid _ (deliver-IsSound w (mouse (localize w m)) wm s)))
  ]

  deliver_key-IsSound :
      (target : Option Window) (k : KeyEvent) (wm : WindowManager)
      → IsSound wm
      → IsSound (deliver_key (run_script script) target k wm)
  unfolding deliver_key
  deliver_key-IsSound none k wm s = s
  deliver_key-IsSound (some w) k wm s =
      if_either IsSound (is_visible w) (λ _. deliver-IsSound w (key k) wm s) (λ _. s)

  resize-IsSound :
      (wm : WindowManager)
      → IsSound wm
      → IsSound (record wm { windows = map (clamp wm) wm.windows })
  unfolding clamp
  resize-IsSound wm s = record {
    collection =
        IsCollection-map (clamp wm) wm.next_id wm.windows (λ w. refl)
          (λ w h. clamp-IsPlaced wm.screen_rows wm.screen_cols w h.2 h.3) s.collection;
    drag = s.drag;
    aims = λ e.
        Refers-map (clamp wm) is_open (λ w. refl) (λ w h. h) wm.drag_window_id wm.windows
          (s.aims e);
  }

  -- Every event keeps the invariant, whatever requests the callbacks make while it is handled.
  pub handle_event-IsValid :
      (e : Event) (wm : WindowManager)
      → IsValid wm
      → IsValid (handle_event (run_script script) e wm).0
  unfolding handle_event
  handle_event-IsValid nothing wm v = v
  handle_event-IsValid (mouse m) wm v =
      cleanup_closed-IsValid _ (handle_mouse-IsSound m wm (IsValid-IsSound wm v))
  handle_event-IsValid (resize r) wm v =
      cleanup_closed-IsValid _ (resize-IsSound wm (IsValid-IsSound wm v))
  handle_event-IsValid (key k) wm v =
      cleanup_closed-IsValid _ (deliver_key-IsSound _ k wm (IsValid-IsSound wm v))

  step-IsValid :
      (s : Step) (wm : WindowManager) → IsOutside s → IsValid wm → IsValid (step script s wm)
  unfolding step
  step-IsValid (request r) wm h v = perform-IsValid r wm (λ i e. h i (ap request e)) v
  step-IsValid (event e) wm h v = handle_event-IsValid e wm v
  step-IsValid (terminal rows cols) wm h v = record {
    core = record { collection = v.core.collection; drag = v.core.drag; aims = v.core.aims };
    active = v.active;
    marked = v.marked;
  }

  run-IsValid :
      (ss : List Step) (wm : WindowManager)
      → All IsOutside ss
      → IsValid wm
      → IsValid (run script ss wm)
  unfolding run
  run-IsValid [] wm h v = v
  run-IsValid (s ∷ ss) wm h v = run-IsValid ss (step script s wm) h.1 (step-IsValid s wm h.0 v)

create-IsValid : (rows cols : ℤ) → IsValid (create rows cols)
unfolding create
create-IsValid rows cols = record {
  core = record {
    collection = record { distinct = tt; fresh = tt; placed = tt };
    drag = ground arith;
    aims = λ e. cc;
  };
  active = tt;
  marked = tt;
}

-- A window manager that has just been created and then goes through any list of requests from
-- outside, events and terminal resizes, with callbacks that answer each event by any requests, is
-- in a valid state: ids are distinct and below the next one, every window lies at coordinates that
-- are not negative and is at least 4 by 8, the active window is visible and it alone is marked
-- active, a drag is of a visible window and only while dragging is enabled, at most three sessions
-- without motion are counted, with three of them dragging is degraded, and degraded dragging is
-- disabled.
pub run-create-IsValid :
    (script : Script) (rows cols : ℤ) (ss : List Step)
    → All IsOutside ss
    → IsValid (run script ss (create rows cols))
run-create-IsValid script rows cols ss h = run-IsValid script ss _ h (create-IsValid rows cols)
