-- ===== src/Wm/Validity.antt =====
-- Between the calls of wm/window_manager.h the whole invariant holds: the active window is visible
-- and marked. Each request keeps it, but `retro_window_request_close`, which waits for a cleanup.
use retrodesk.Prelude.{
  ℕ, zero, suc, ◌+◌, ◌%◌, ◌≡◌, ◌≢◌, refl, ◌∙◌, Option, some, none, Bool, true, false, ◌&&◌, ◌||◌,
  not, List, [], ◌∷◌, ◌++◌, ==_iff, Bool-cases, Option-cases, inl, inr, arith, ltb, length,
  if_either, get_elem?,
}
use retrodesk.Prelude.Int.{ℤ, pos, ◌≤ℤ◌, ltb_ℤ, eqb_ℤ}
use retrodesk.Growth.{reserve}
use retrodesk.Wm.Window.{Window, is_visible, is_focusable}
use retrodesk.Wm.State.{
  WindowId, WindowManager, is_id, find_window, modify, raise, clamp, topmost_modal,
}
use retrodesk.Wm.Operations.{
  set_drag_enabled, set_drag_auto_degrade, WindowSpec, Allocations, placed, add_window,
  is_too_small, create_window, unminimize, focus_window, bring_to_front, next_focusable,
  cycle_focus, cycle_on, cycle_unless, minimize_window, restore_window, shift, move_active_window,
  resized, resize_active_window,
}
use retrodesk.Wm.Collection.{has, IsCollection, IsCollection-suc, All-modify, All-raise}
use retrodesk.Wm.Lookup.{
  find_window-find, find_window-id, has-append, has-raise, has-modify, has-modify_self,
}
use retrodesk.Wm.Invariant.{
  Core, IsValid, IsMarked, ActiveOk, IsValid-IsSound, update-IsValid, select-IsValid,
}
use retrodesk.Wm.Soundness.{
  Core-raise, clamp-IsPlaced, placed-IsPlaced, Core-append, Core-set_drag_enabled,
  Core-set_drag_auto_degrade, Core-modify, Core-minimize,
}
use retrodesk.Wm.Steps.{Core-bring_to_front, Core-resize_active_window}
use retrodesk.Wm.Requests.{
  Request, sets_drag, sets_auto_degrade, creates, closes, requests_close, focuses, raises, cycles,
  minimizes, restores, moves, resizes, perform, is_visible-IsStable, close_window-IsValid,
}

get_elem?-has :
    (ws : List Window) (k : ℕ) (w : Window)
    → get_elem? ws k ≡ some w
    → is_visible w ≡ true
    → has is_visible w.id ws ≡ true
get_elem?-has [] k w e v = cc
get_elem?-has (u ∷ ws) zero w e v = ground (arith, ==_iff u.id w.id)
get_elem?-has (u ∷ ws) (suc k) w e v = ground (arith, get_elem?-has ws k w e v)

-- The search of `wm_cycle_focus` finds a window of the list that can take the focus.
pub next_focusable-has :
    (rounds step idx : ℕ) (ws : List Window) (w : Window)
    → next_focusable rounds step idx ws ≡ some w
    → (has is_visible w.id ws ≡ true) × (is_focusable w ≡ true)
unfolding next_focusable
next_focusable-has zero step idx ws w e = cc
next_focusable-has (suc rounds) step idx ws w e =
    elim (Option-cases (get_elem? ws ((idx + step) % length ws))) [
      | inl out ↦ absurd (ground arith)
      | inr (u, here) ↦ elim (Bool-cases (is_focusable u)) [
        | inl yes_u ↦
            let same : u ≡ w = ground arith in
            (
              get_elem?-has ws ((idx + step) % length ws) w (ground arith)
                  (focusable-visible w (ground arith)),
              ground arith,
            )
        | inr no_u ↦ next_focusable-has rounds (step + 1) idx ws w (ground arith)
      ]
    ]
  where
    focusable-visible : (v : Window) → is_focusable v ≡ true → is_visible v ≡ true
    focusable-visible v h = unfold is_focusable in ground arith

ActiveOk-modify :
    (f : Window → Window)
    → ((w : Window) → (f w).id ≡ w.id)
    → ((w : Window) → is_visible w ≡ true → is_visible (f w) ≡ true)
    → (id : WindowId) (j : ℕ) (ws : List Window) → ActiveOk id ws
    → ActiveOk id (modify j f ws)
ActiveOk-modify f same keep none j ws h = tt
ActiveOk-modify f same keep (some i) j ws h = has-modify is_visible f same keep i j ws h

ActiveOk-raise :
    (id : WindowId) (j : ℕ) (ws : List Window) → ActiveOk id ws → ActiveOk id (raise j ws)
ActiveOk-raise none j ws h = tt
ActiveOk-raise (some i) j ws h = rw has-raise h

focus_window-IsValid :
    (id : WindowId) (wm : WindowManager) → IsValid wm → IsValid (focus_window id wm)
unfolding focus_window
focus_window-IsValid id wm v = elim (Option-cases (find_window id wm.windows)) [
  | inl e ↦ rw (e, focus_window) v
  | inr (w, e) ↦
      rw (e, focus_window)
        (if_either IsValid w.close_requested (λ _. v)
          (λ open_w.
            update-IsValid
              (record wm { windows = modify w.id unminimize wm.windows; active_id = id })
              (let c =
                  Core-modify is_visible is_visible-IsStable unminimize w.id wm (λ u. refl)
                    (λ u h. h) (λ u h. is_visible-IsStable _ u refl (λ q. cc) h) v.core in
                record { collection = c.collection; drag = c.drag; aims = c.aims })
              (rw (find_window-id id wm.windows w e) (
                has-modify_self is_visible unminimize (λ u. refl) w.id wm.windows w
                  (find_window-find id wm.windows w e) (shown w open_w)))))
]
  where
    shown : (w : Window) → w.close_requested ≡ false → is_visible (unminimize w) ≡ true
    shown w h = unfold is_visible in ground arith

bring_to_front-ActiveOk :
    (id : WindowId) (wm : WindowManager)
    → ActiveOk wm.active_id wm.windows
    → ActiveOk (bring_to_front id wm).active_id (bring_to_front id wm).windows
unfolding bring_to_front
bring_to_front-ActiveOk id wm h = elim (Option-cases (find_window id wm.windows)) [
  | inl e ↦ rw (e, bring_to_front) h
  | inr (w, e) ↦
      rw (e, bring_to_front)
        (if_either (λ (v : WindowManager). ActiveOk v.active_id v.windows) (is_visible w)
          (λ _. ActiveOk-raise wm.active_id w.id wm.windows h) (λ _. h))
]

bring_to_front-IsValid :
    (id : WindowId) (wm : WindowManager) → IsValid wm → IsValid (bring_to_front id wm)
unfolding bring_to_front
bring_to_front-IsValid id wm v = elim (Option-cases (find_window id wm.windows)) [
  | inl e ↦ rw (e, bring_to_front) v
  | inr (w, e) ↦
      rw (e, bring_to_front) (if_either IsValid (is_visible w) (λ _. raised w e) (λ _. v))
]
  where
    raised :
        (w : Window)
        → find_window id wm.windows ≡ some w
        → IsValid (record wm { windows = raise w.id wm.windows })
    raised w e = record {
      core = Core-raise is_visible is_visible-IsStable w.id wm v.core;
      active = ActiveOk-raise wm.active_id w.id wm.windows v.active;
      marked = All-raise (IsMarked wm.active_id) w.id wm.windows v.marked;
    }

cycle_on-IsValid :
    (o : Option Window) (wm : WindowManager)
    → ((w : Window) → o ≡ some w → has is_visible w.id wm.windows ≡ true)
    → IsValid wm
    → IsValid (cycle_on o wm).0
cycle_on-IsValid none wm found v = v
cycle_on-IsValid (some w) wm found v =
    if_either (λ (r : WindowManager × Bool). IsValid r.0) (is_id wm.active_id w.id) (λ _. v)
      (λ _.
        let start = record wm { active_id = some w.id } in
        update-IsValid (bring_to_front (some w.id) start)
          (Core-bring_to_front is_visible is_visible-IsStable (some w.id) start
            (record { collection = v.core.collection; drag = v.core.drag; aims = v.core.aims }))
          (bring_to_front-ActiveOk (some w.id) start (found w refl)))

cycle_unless-IsValid :
    (modal o : Option Window) (wm : WindowManager)
    → ((w : Window) → o ≡ some w → has is_visible w.id wm.windows ≡ true)
    → IsValid wm
    → IsValid (cycle_unless modal o wm).0
cycle_unless-IsValid none o wm found v = cycle_on-IsValid o wm found v
cycle_unless-IsValid (some m) o wm found v = v

cycle_focus-IsValid : (wm : WindowManager) → IsValid wm → IsValid (cycle_focus wm).0
unfolding cycle_focus
cycle_focus-IsValid wm v =
    if_either (λ (r : WindowManager × Bool). IsValid r.0) (ltb (length wm.windows) 2) (λ _. v)
      (λ _.
        cycle_unless-IsValid (topmost_modal wm.windows) _ wm
          (λ w e. (next_focusable-has (length wm.windows) 1 _ wm.windows w e).0) v)

minimize_window-IsValid :
    (id : WindowId) (wm : WindowManager) → IsValid wm → IsValid (minimize_window id wm).0
unfolding minimize_window
minimize_window-IsValid id wm v = elim (Option-cases (find_window id wm.windows)) [
  | inl e ↦ rw (e, minimize_window) v
  | inr (w, e) ↦
      rw (e, minimize_window)
        (if_either (λ (r : WindowManager × Bool). IsValid r.0)
          (w.minimized || w.flags.fixed || w.flags.modal) (λ _. v)
          (λ _. select-IsValid _ (Core-minimize is_visible is_visible-IsStable w.id wm v.core)))
]

restore_window-IsValid :
    (id : WindowId) (wm : WindowManager) → IsValid wm → IsValid (restore_window id wm).0
unfolding restore_window
restore_window-IsValid id wm v = elim (Option-cases (find_window id wm.windows)) [
  | inl e ↦ rw (e, restore_window) v
  | inr (w, e) ↦
      rw (e, restore_window)
        (if_either (λ (r : WindowManager × Bool). IsValid r.0) w.minimized
          (λ _.
            update-IsValid (record wm { windows = modify w.id unminimize wm.windows })
              (Core-modify is_visible is_visible-IsStable unminimize w.id wm (λ u. refl) (λ u h. h)
                (λ u h. still_shown u h) v.core)
              (ActiveOk-modify unminimize (λ u. refl) still_shown wm.active_id w.id wm.windows
                v.active))
          (λ _. v))
]
  where
    still_shown : (u : Window) → is_visible u ≡ true → is_visible (unminimize u) ≡ true
    still_shown u h = is_visible-IsStable (unminimize u) u refl (λ q. cc) h

-- A change of one window's geometry alone.
modify-IsValid :
    (f : Window → Window) (j : ℕ) (wm : WindowManager)
    → ((w : Window) → (f w).id ≡ w.id)
    → ((w : Window) → (f w).is_active ≡ w.is_active)
    → ((w : Window) → is_visible (f w) ≡ is_visible w)
    → Core is_visible (record wm { windows = modify j f wm.windows })
    → IsValid wm
    → IsValid (record wm { windows = modify j f wm.windows })
modify-IsValid f j wm same flag shown c v = record {
  core = c;
  active = ActiveOk-modify f same (λ w h. shown w ∙ h) wm.active_id j wm.windows v.active;
  marked =
      All-modify (IsMarked wm.active_id) f (λ w h. cc (same w, flag w, shown w)) j wm.windows
        v.marked;
}

move_active_window-IsValid :
    (dy dx : ℤ) (wm : WindowManager) → IsValid wm → IsValid (move_active_window dy dx wm).0
unfolding move_active_window
move_active_window-IsValid dy dx wm v = elim (Option-cases (find_window wm.active_id wm.windows)) [
  | inl e ↦ rw (e, move_active_window) v
  | inr (w, e) ↦
      rw (e, move_active_window)
        (if_either (λ (r : WindowManager × Bool). IsValid r.0) (is_focusable w)
          (λ _.
            modify-IsValid (λ u. clamp wm (shift dy dx u)) w.id wm (λ u. refl) (λ u. refl)
              (λ u. unfold is_visible in refl)
              (Core-modify is_visible is_visible-IsStable (λ u. clamp wm (shift dy dx u)) w.id wm
                (λ u. refl)
                (λ u h. clamp-IsPlaced wm.screen_rows wm.screen_cols (shift dy dx u) h.2 h.3)
                (λ u h. is_visible-IsStable _ u refl (λ q. q) h) v.core)
              v)
          (λ _. v))
]

resize_active_window-IsValid :
    (dh dw : ℤ) (wm : WindowManager) → IsValid wm → IsValid (resize_active_window dh dw wm).0
unfolding resize_active_window
resize_active_window-IsValid dh dw wm v =
    cases (Core-resize_active_window is_visible is_visible-IsStable dh dw wm v.core)
  where
    next : Window → Window
    next = resized dh dw wm

    P : WindowManager × Bool → Type 0
    P r = Core is_visible r.0 → IsValid r.0

    cases : P (resize_active_window dh dw wm)
    cases = elim (Option-cases (find_window wm.active_id wm.windows)) [
      | inl e ↦ rw (e, resize_active_window) (λ _. v)
      | inr (w, e) ↦
          rw (e, resize_active_window)
            (if_either P (not (is_focusable w)) (λ _ _. v)
              (λ _.
                if_either P (ltb_ℤ (next w).h (pos 4) || ltb_ℤ (next w).w (pos 12)) (λ _ _. v)
                  (λ _.
                    if_either P (eqb_ℤ (next w).h w.h && eqb_ℤ (next w).w w.w) (λ _ _. v)
                      (λ _ c.
                        modify-IsValid next w.id wm (λ u. refl) (λ u. refl)
                          (λ u. unfold is_visible in refl) c v))))
    ]

add_window-IsValid :
    (w : Window) (wm : WindowManager)
    → w.id ≡ wm.next_id
    → (pos 4 ≤ℤ w.h) × (pos 8 ≤ℤ w.w)
    → is_visible (clamp wm w) ≡ true
    → IsValid wm
    → IsValid (add_window w (record wm { next_id = wm.next_id + 1 }))
unfolding add_window
add_window-IsValid w wm e size shown v =
    update-IsValid
      (record wm {
        windows = wm.windows ++ clamp wm w ∷ [];
        next_id = wm.next_id + 1;
        active_id = some w.id;
      })
      (Core-append is_visible is_visible-IsStable (clamp wm w) (some w.id) wm e
        (clamp-IsPlaced wm.screen_rows wm.screen_cols w size.0 size.1) v.core)
      (on_top (clamp wm w) shown)
  where
    on_top : (u : Window) → is_visible u ≡ true → has is_visible u.id (wm.windows ++ u ∷ []) ≡ true
    on_top u h = rw has-append (ground (arith, ==_iff u.id u.id))

-- The state after a failure differs in the capacity and in the next number alone.
unused-IsValid :
    (cap next : ℕ) (wm : WindowManager)
    → IsCollection next wm.windows
    → IsValid wm
    → IsValid (record wm { capacity = cap; next_id = next })
unused-IsValid cap next wm c v = record {
  core = record { collection = c; drag = v.core.drag; aims = v.core.aims };
  active = v.active;
  marked = v.marked;
}

create_window-IsValid :
    (a : Allocations) (spec : WindowSpec) (wm : WindowManager)
    → IsValid wm
    → IsValid (create_window a spec wm).0
unfolding create_window
create_window-IsValid a spec wm v =
    elim (Option-cases (reserve 8 a.array (length wm.windows + 1) wm.capacity)) [
      | inl e ↦ rw (e, create_window) v
      | inr (cap, e) ↦
          rw (e, create_window)
            (if_either P (not a.window) (λ _. grown cap)
              (λ _.
                if_either P (is_too_small wm) (λ _. skipped cap)
                  (λ _. if_either P a.draw_list (λ _. added cap) (λ _. skipped cap))))
    ]
  where
    P : WindowManager × WindowId → Type 0
    P r = IsValid r.0

    grown : (cap : ℕ) → IsValid (record wm { capacity = cap })
    grown cap = unused-IsValid cap wm.next_id wm v.core.collection v

    skipped : (cap : ℕ) → IsValid (record wm { capacity = cap; next_id = wm.next_id + 1 })
    skipped cap =
        unused-IsValid cap (wm.next_id + 1) wm
          (IsCollection-suc wm.next_id wm.windows v.core.collection) v

    added :
        (cap : ℕ)
        → IsValid
            (add_window (placed spec wm) (record wm { capacity = cap; next_id = wm.next_id + 1 }))
    added cap =
        add_window-IsValid (placed spec wm) (record wm { capacity = cap }) refl
          (placed-IsPlaced spec wm) (unfold is_visible placed in refl) (grown cap)

-- Every request but the bare `retro_window_request_close` keeps the invariant.
pub perform-IsValid :
    (r : Request) (wm : WindowManager)
    → ((i : ℕ) → r ≢ requests_close i)
    → IsValid wm
    → IsValid (perform r wm)
unfolding perform set_drag_enabled set_drag_auto_degrade
perform-IsValid (sets_drag true) wm h v = record {
  core = Core-set_drag_enabled is_visible is_visible-IsStable true wm v.core;
  active = v.active;
  marked = v.marked;
}
perform-IsValid (sets_drag false) wm h v = record {
  core = Core-set_drag_enabled is_visible is_visible-IsStable false wm v.core;
  active = v.active;
  marked = v.marked;
}
perform-IsValid (sets_auto_degrade true) wm h v = record {
  core = Core-set_drag_auto_degrade is_visible is_visible-IsStable true wm v.core;
  active = v.active;
  marked = v.marked;
}
perform-IsValid (sets_auto_degrade false) wm h v = record {
  core = Core-set_drag_auto_degrade is_visible is_visible-IsStable false wm v.core;
  active = v.active;
  marked = v.marked;
}
perform-IsValid (creates a spec) wm h v = create_window-IsValid a spec wm v
perform-IsValid (closes id) wm h v = (close_window-IsValid id wm (IsValid-IsSound wm v)).0 v
perform-IsValid (requests_close i) wm h v = absurd (h i refl)
perform-IsValid (focuses id) wm h v = focus_window-IsValid id wm v
perform-IsValid (raises id) wm h v = bring_to_front-IsValid id wm v
perform-IsValid cycles wm h v = cycle_focus-IsValid wm v
perform-IsValid (minimizes id) wm h v = minimize_window-IsValid id wm v
perform-IsValid (restores id) wm h v = restore_window-IsValid id wm v
perform-IsValid (moves dy dx) wm h v = move_active_window-IsValid dy dx wm v
perform-IsValid (resizes dh dw) wm h v = resize_active_window-IsValid dh dw wm v
