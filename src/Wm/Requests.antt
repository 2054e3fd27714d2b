-- ===== src/Wm/Requests.antt =====
-- A caller of wm/window_manager.h: an application's callback or the desktop. What it can ask for,
-- and that every request keeps the invariant.
use retrodesk.Prelude.{ℕ, refl, Bool, List, [], ◌∷◌, Option-cases, inl, inr, arith}
use retrodesk.Prelude.Int.{ℤ}
use retrodesk.Wm.Window.{is_visible}
use retrodesk.Wm.State.{WindowId, WindowManager, find_window}
use retrodesk.Wm.Operations.{
  set_drag_enabled, set_drag_auto_degrade, WindowSpec, Allocations, create_window, close,
  request_close, close_window, focus_window, bring_to_front, cycle_focus, minimize_window,
  restore_window, move_active_window, resize_active_window,
}
use retrodesk.Wm.Invariant.{is_open, IsSound, IsValid, IsValid-IsSound, cleanup_closed-IsValid}
use retrodesk.Wm.Soundness.{
  IsStable, Core-set_drag_enabled, Core-set_drag_auto_degrade, Core-modify,
}
use retrodesk.Wm.Steps.{
  Core-create_window, Core-focus_window, Core-bring_to_front, Core-cycle_focus,
  Core-minimize_window, Core-restore_window, Core-move_active_window, Core-resize_active_window,
}

-- The calls of the public interface that change the manager, but `wm_handle_event`.
pub data Request : Type 0 where
  sets_drag : Bool → Request
  sets_auto_degrade : Bool → Request
  creates : Allocations → WindowSpec → Request
  closes : WindowId → Request
  requests_close : ℕ → Request
  focuses : WindowId → Request
  raises : WindowId → Request
  cycles : Request
  minimizes : WindowId → Request
  restores : WindowId → Request
  moves : ℤ → ℤ → Request
  resizes : ℤ → ℤ → Request

unfoldable pub perform : Request → WindowManager → WindowManager
perform (sets_drag b) wm = set_drag_enabled b wm
perform (sets_auto_degrade b) wm = set_drag_auto_degrade b wm
perform (creates a spec) wm = (create_window a spec wm).0
perform (closes id) wm = close_window id wm
perform (requests_close i) wm = request_close i wm
perform (focuses id) wm = focus_window id wm
perform (raises id) wm = bring_to_front id wm
perform cycles wm = (cycle_focus wm).0
perform (minimizes id) wm = (minimize_window id wm).0
perform (restores id) wm = (restore_window id wm).0
perform (moves dy dx) wm = (move_active_window dy dx wm).0
perform (resizes dh dw) wm = (resize_active_window dh dw wm).0

unfoldable pub perform_all : List Request → WindowManager → WindowManager
unfolding perform
perform_all [] wm = wm
perform_all (r ∷ rs) wm = perform_all rs (perform r wm)

pub is_open-IsStable : IsStable is_open
is_open-IsStable v w c m h = ground arith

pub is_visible-IsStable : IsStable is_visible
unfolding is_visible
is_visible-IsStable v w c m h = ground arith

request_close-IsSound : (i : ℕ) (wm : WindowManager) → IsSound wm → IsSound (request_close i wm)
unfolding request_close
request_close-IsSound i wm s =
    Core-modify is_open is_open-IsStable close i wm (λ w. refl) (λ w h. h) (λ w h. h) s

pub close_window-IsValid :
    (id : WindowId) (wm : WindowManager)
    → IsSound wm
    → (IsValid wm → IsValid (close_window id wm)) × IsSound (close_window id wm)
unfolding close_window
close_window-IsValid id wm s = elim (Option-cases (find_window id wm.windows)) [
  | inl e ↦ rw (e, close_window) ((λ v. v), s)
  | inr (w, e) ↦
      let v = cleanup_closed-IsValid _ (request_close-IsSound w.id wm s) in
      rw (e, close_window) ((λ _. v), IsValid-IsSound _ v)
]

-- Every request keeps what a callback may rely on.
pub perform-IsSound : (r : Request) (wm : WindowManager) → IsSound wm → IsSound (perform r wm)
unfolding perform
perform-IsSound (sets_drag b) wm s = Core-set_drag_enabled is_open is_open-IsStable b wm s
perform-IsSound (sets_auto_degrade b) wm s =
    Core-set_drag_auto_degrade is_open is_open-IsStable b wm s
perform-IsSound (creates a spec) wm s = Core-create_window is_open is_open-IsStable a spec wm s
perform-IsSound (closes id) wm s = (close_window-IsValid id wm s).1
perform-IsSound (requests_close i) wm s = request_close-IsSound i wm s
perform-IsSound (focuses id) wm s = Core-focus_window is_open is_open-IsStable id wm s
perform-IsSound (raises id) wm s = Core-bring_to_front is_open is_open-IsStable id wm s
perform-IsSound cycles wm s = Core-cycle_focus is_open is_open-IsStable wm s
perform-IsSound (minimizes id) wm s = Core-minimize_window is_open is_open-IsStable id wm s
perform-IsSound (restores id) wm s = Core-restore_window is_open is_open-IsStable id wm s
perform-IsSound (moves dy dx) wm s = Core-move_active_window is_open is_open-IsStable dy dx wm s
perform-IsSound (resizes dh dw) wm s = Core-resize_active_window is_open is_open-IsStable dh dw wm s

pub perform_all-IsSound :
    (rs : List Request) (wm : WindowManager) → IsSound wm → IsSound (perform_all rs wm)
unfolding perform_all
perform_all-IsSound [] wm s = s
perform_all-IsSound (r ∷ rs) wm s = perform_all-IsSound rs (perform r wm) (perform-IsSound r wm s)
