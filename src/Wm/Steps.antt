-- ===== src/Wm/Steps.antt =====
-- The public operations of wm/window_manager.c keep the core of the invariant, on every branch.
use retrodesk.Prelude.{
  ℕ, ◌+◌, ◌≡◌, refl, some, Bool, true, false, ◌&&◌, ◌||◌, not, [], ◌∷◌, ◌++◌, Option-cases, inl,
  inr, arith, ltb, length, if◌then◌else◌, if_either,
}
use retrodesk.Prelude.Int.{ℤ, pos, ◌≤ℤ◌, ltb_ℤ, eqb_ℤ}
use retrodesk.Growth.{reserve}
use retrodesk.Wm.Window.{Window, is_visible, is_focusable}
use retrodesk.Wm.State.{
  WindowId, WindowManager, is_id, find_window, modify, clamp, update_active_flags,
  select_topmost_visible, topmost, id_of, topmost_modal, find_index, is_visible?,
}
use retrodesk.Wm.Operations.{
  WindowSpec, Allocations, placed, add_window, is_too_small, create_window, unminimize,
  focus_window, bring_to_front, next_focusable, start_index, cycle_focus, cycle_on, cycle_unless,
  minimize_window, restore_window, shift, move_active_window, resized, resize_active_window,
}
use retrodesk.Wm.Collection.{IsPlaced, IsCollection-suc}
use retrodesk.Wm.Lookup.{find_window-find}
use retrodesk.Wm.Invariant.{Core}
use retrodesk.Wm.Soundness.{
  IsStable, clamp-IsPlaced, placed-IsPlaced, Core-update, Core-append, Core-modify,
  Core-modify_found, Core-raise, Core-minimize,
}

-- A size that stays on the screen: the window grows no further left or up.
pub resized-IsPlaced :
    (dh dw : ℤ) (wm : WindowManager) (v : Window)
    → IsPlaced v
    → ltb_ℤ (resized dh dw wm v).h (pos 4) ≡ false
    → ltb_ℤ (resized dh dw wm v).w (pos 12) ≡ false
    → IsPlaced (resized dh dw wm v)
resized-IsPlaced dh dw wm v p h k = (p.0, p.1, ground arith, ground arith)

abbrev numbered : ℕ → WindowManager → WindowManager
numbered cap wm = record wm { capacity = cap; next_id = wm.next_id + 1 }

module _ (p : Window → Bool) (stable : IsStable p) where
  Core-select : (wm : WindowManager) → Core p wm → Core p (select_topmost_visible wm)
  unfolding select_topmost_visible
  Core-select wm c =
      if_either (Core p) (is_visible? (find_window wm.active_id wm.windows))
        (λ e. Core-update p stable wm.active_id wm c)
        (λ e. Core-update p stable (id_of (topmost is_visible wm.windows)) wm c)

  Core-add_window :
      (w : Window) (wm : WindowManager)
      → w.id ≡ wm.next_id
      → pos 4 ≤ℤ w.h
      → pos 8 ≤ℤ w.w
      → Core p wm
      → Core p (add_window w (record wm { next_id = wm.next_id + 1 }))
  unfolding add_window
  Core-add_window w wm e h k c =
      Core-update p stable (some w.id)
        (record wm {
          windows = wm.windows ++ clamp wm w ∷ [];
          next_id = wm.next_id + 1;
          active_id = some w.id;
        })
        (Core-append p stable (clamp wm w) (some w.id) wm e
          (clamp-IsPlaced wm.screen_rows wm.screen_cols w h k) c)

  pub Core-create_window :
      (a : Allocations) (spec : WindowSpec) (wm : WindowManager)
      → Core p wm
      → Core p (create_window a spec wm).0
  unfolding create_window
  Core-create_window a spec wm c =
      elim (Option-cases (reserve 8 a.array (length wm.windows + 1) wm.capacity)) [
        | inl e ↦ rw (e, create_window) c
        | inr (cap, e) ↦
            rw (e, create_window)
              (if_either P (not a.window)
                (λ _. record { collection = c.collection; drag = c.drag; aims = c.aims })
                (λ _.
                  if_either P (is_too_small wm) (λ _. unused cap)
                    (λ _. if_either P a.draw_list (λ _. added cap) (λ _. unused cap))))
      ]
    where
      P : WindowManager × WindowId → Type 0
      P r = Core p r.0

      unused : (cap : ℕ) → Core p (numbered cap wm)
      unused cap = record {
        collection = IsCollection-suc wm.next_id wm.windows c.collection;
        drag = c.drag;
        aims = c.aims;
      }

      added : (cap : ℕ) → Core p (add_window (placed spec wm) (numbered cap wm))
      added cap =
          Core-add_window (placed spec wm) (record wm { capacity = cap }) refl
            (placed-IsPlaced spec wm).0 (placed-IsPlaced spec wm).1
            (record { collection = c.collection; drag = c.drag; aims = c.aims })

  pub Core-focus_window :
      (id : WindowId) (wm : WindowManager) → Core p wm → Core p (focus_window id wm)
  unfolding focus_window
  Core-focus_window id wm c = elim (Option-cases (find_window id wm.windows)) [
    | inl e ↦ rw (e, focus_window) c
    | inr (w, e) ↦
        rw (e, focus_window)
          (if_either (Core p) w.close_requested (λ _. c)
            (λ _.
              Core-update p stable id (record wm { windows = modify w.id unminimize wm.windows })
                (Core-modify p stable unminimize w.id wm (λ v. refl) (λ v h. h)
                  (λ v h. stable _ v refl (λ q. cc) h) c)))
  ]

  pub Core-bring_to_front :
      (id : WindowId) (wm : WindowManager) → Core p wm → Core p (bring_to_front id wm)
  unfolding bring_to_front
  Core-bring_to_front id wm c = elim (Option-cases (find_window id wm.windows)) [
    | inl e ↦ rw (e, bring_to_front) c
    | inr (w, e) ↦
        rw (e, bring_to_front)
          (if_either (Core p) (is_visible w) (λ _. Core-raise p stable w.id wm c) (λ _. c))
  ]

  abbrev Result : WindowManager × Bool → Type 0
  Result r = Core p r.0

  pub Core-cycle_focus : (wm : WindowManager) → Core p wm → Core p (cycle_focus wm).0
  unfolding cycle_focus
  Core-cycle_focus wm c = if_either Result (ltb (length wm.windows) 2) (λ _. c) (λ _. allowed)
    where
      idx : ℕ
      idx = start_index (find_index wm.active_id wm.windows) (length wm.windows)

      turned :
          (w : Window)
          → Core p (
              update_active_flags
                (bring_to_front (some w.id) (record wm { active_id = some w.id })))
      turned w =
          let front = bring_to_front (some w.id) (record wm { active_id = some w.id }) in
          Core-update p stable front.active_id front (
            Core-bring_to_front (some w.id) (record wm { active_id = some w.id })
              (record { collection = c.collection; drag = c.drag; aims = c.aims }))

      searched : Core p (cycle_on (next_focusable (length wm.windows) 1 idx wm.windows) wm).0
      searched = elim (Option-cases (next_focusable (length wm.windows) 1 idx wm.windows)) [
        | inl none_found ↦ rw none_found c
        | inr (w, found) ↦
            rw found (if_either Result (is_id wm.active_id w.id) (λ _. c) (λ _. turned w))
      ]

      allowed :
          Core p
            (cycle_unless
              (topmost_modal wm.windows)
              (next_focusable (length wm.windows) 1 idx wm.windows)
              wm).0
      allowed = elim (Option-cases (topmost_modal wm.windows)) [
        | inl e ↦ rw e searched
        | inr (modal, e) ↦ rw e c
      ]

  pub Core-minimize_window :
      (id : WindowId) (wm : WindowManager) → Core p wm → Core p (minimize_window id wm).0
  unfolding minimize_window
  Core-minimize_window id wm c = elim (Option-cases (find_window id wm.windows)) [
    | inl e ↦ rw (e, minimize_window) c
    | inr (w, e) ↦
        rw (e, minimize_window)
          (if_either Result (w.minimized || w.flags.fixed || w.flags.modal) (λ _. c)
            (λ _. Core-select _ (Core-minimize p stable w.id wm c)))
  ]

  pub Core-restore_window :
      (id : WindowId) (wm : WindowManager) → Core p wm → Core p (restore_window id wm).0
  unfolding restore_window
  Core-restore_window id wm c = elim (Option-cases (find_window id wm.windows)) [
    | inl e ↦ rw (e, restore_window) c
    | inr (w, e) ↦
        rw (e, restore_window)
          (if_either Result w.minimized
            (λ _.
              Core-update p stable wm.active_id
                (record wm { windows = modify w.id unminimize wm.windows })
                (Core-modify p stable unminimize w.id wm (λ v. refl) (λ v h. h)
                  (λ v h. stable _ v refl (λ q. cc) h) c))
            (λ _. c))
  ]

  pub Core-move_active_window :
      (dy dx : ℤ) (wm : WindowManager) → Core p wm → Core p (move_active_window dy dx wm).0
  unfolding move_active_window
  Core-move_active_window dy dx wm c = elim (Option-cases (find_window wm.active_id wm.windows)) [
    | inl e ↦ rw (e, move_active_window) c
    | inr (w, e) ↦
        rw (e, move_active_window)
          (if_either Result (is_focusable w)
            (λ _.
              Core-modify p stable (λ v. clamp wm (shift dy dx v)) w.id wm (λ v. refl)
                (λ v h. clamp-IsPlaced wm.screen_rows wm.screen_cols (shift dy dx v) h.2 h.3)
                (λ v h. stable _ v refl (λ q. q) h) c)
            (λ _. c))
  ]

  pub Core-resize_active_window :
      (dh dw : ℤ) (wm : WindowManager) → Core p wm → Core p (resize_active_window dh dw wm).0
  unfolding resize_active_window
  Core-resize_active_window dh dw wm c = elim (Option-cases (find_window wm.active_id wm.windows)) [
    | inl e ↦ rw (e, resize_active_window) c
    | inr (v, e) ↦
        rw (e, resize_active_window)
          (if_either Result (not (is_focusable v)) (λ _. c) (λ _. fits v e))
  ]
    where
      next : Window → Window
      next = resized dh dw wm

      fits :
          (v : Window)
          → find_window wm.active_id wm.windows ≡ some v
          → Result (
              if ltb_ℤ (next v).h (pos 4) || ltb_ℤ (next v).w (pos 12)
              then (wm, false)
              else if eqb_ℤ (next v).h v.h && eqb_ℤ (next v).w v.w
              then (wm, false)
              else (record wm { windows = modify v.id next wm.windows }, true))
      fits v e =
          if_either Result (ltb_ℤ (next v).h (pos 4) || ltb_ℤ (next v).w (pos 12)) (λ _. c)
            (λ big.
              if_either Result (eqb_ℤ (next v).h v.h && eqb_ℤ (next v).w v.w) (λ _. c)
                (λ _.
                  Core-modify_found p stable next v.id v wm (λ w. refl)
                    (find_window-find wm.active_id wm.windows v e)
                    (λ h. resized-IsPlaced dh dw wm v h (ground arith) (ground arith))
                    (λ w h. stable _ w refl (λ q. q) h) c))
