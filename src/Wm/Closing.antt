-- ===== src/Wm/Closing.antt =====
-- Closing and minimizing windows of wm/window_manager.c.
use retrodesk.Prelude.{
  ℕ, ◌≡◌, refl, ◌∙◌, some, none, false, List, [], ◌∷◌, ◌==◌, Bool-cases, Option-cases, ◌⊎◌, inl,
  inr, arith, if◌then◌else◌, if_either, All,
}
use retrodesk.Wm.Window.{Window, is_visible}
use retrodesk.Wm.State.{
  WindowId, WindowManager, find_window, modify, id_of, topmost, is_visible?, update_active_flags,
  select_topmost_visible, keep_open, cleanup_closed,
}
use retrodesk.Wm.Operations.{close, request_close, close_window}
use retrodesk.Wm.Lookup.{find_window-id}
use retrodesk.Wm.Order.{ids, ids-mark}

-- The first occurrence of the number taken out.
abbrev pub without : ℕ → List ℕ → List ℕ
without i [] = []
without i (j ∷ js) = if j == i then js else j ∷ without i js

abbrev pub AllOpen : List Window → Type 0
AllOpen = All λ (w : Window). w.close_requested ≡ false

ids-keep_open : (ws : List Window) → AllOpen ws → ids (keep_open ws) ≡ ids ws
unfolding keep_open
ids-keep_open [] h = refl
ids-keep_open (w ∷ ws) h = ground (arith, ids-keep_open ws h.1)

ids-keep_open-modify :
    (i : ℕ) (ws : List Window)
    → AllOpen ws
    → ids (keep_open (modify i close ws)) ≡ without i (ids ws)
unfolding keep_open modify
ids-keep_open-modify i [] h = refl
ids-keep_open-modify i (w ∷ ws) h = elim (Bool-cases (w.id == i)) [
  | inl hit ↦ rw (hit, modify) (ids-keep_open ws h.1)
  | inr miss ↦ ground (arith, ids-keep_open-modify i ws h.1)
]

ids-select : (wm : WindowManager) → ids (select_topmost_visible wm).windows ≡ ids wm.windows
unfolding select_topmost_visible update_active_flags
ids-select wm =
    if_either (λ (v : WindowManager). ids v.windows ≡ ids wm.windows)
      (is_visible? (find_window wm.active_id wm.windows)) (λ _. ids-mark wm.active_id wm.windows)
      (λ _. ids-mark (id_of (topmost is_visible wm.windows)) wm.windows)

-- Where no other window waits to be closed, `wm_close_window` takes out the window with the id and
-- keeps all others, in their order; for an id that no window has, it changes nothing.
pub ids-close_window :
    (id : WindowId) (wm : WindowManager)
    → AllOpen wm.windows
    → ((find_window id wm.windows ≡ none) × (close_window id wm ≡ wm))
      ⊎ ((w : Window) × (id ≡ some w.id)
          × (find_window id wm.windows ≡ some w)
          × (ids (close_window id wm).windows ≡ without w.id (ids wm.windows)))
unfolding close_window cleanup_closed request_close
ids-close_window id wm h = elim (Option-cases (find_window id wm.windows)) [
  | inl e ↦ inl (e, rw (e, close_window))
  | inr (w, e) ↦ inr (
    w,
    find_window-id id wm.windows w e,
    e,
    rw (e, close_window) (ids-select _ ∙ ids-keep_open-modify w.id wm.windows h),
  )
]
