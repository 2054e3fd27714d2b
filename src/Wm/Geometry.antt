-- ===== src/Wm/Geometry.antt =====
-- The geometry of the windows of wm/window_manager.c: clamping, creating, moving and resizing.
use retrodesk.Prelude.{
  ℕ, ◌+◌, ◌≡◌, refl, some, none, Bool, true, false, ◌&&◌, ◌||◌, not, [], ◌∷◌, ◌++◌, map, length,
  ◌⊎◌, Option-cases, inl, inr, arith, if_either,
}
use retrodesk.Prelude.Int.{ℤ, pos, ◌+ℤ◌, ◌-ℤ◌, ◌≤ℤ◌, ◌<ℤ◌, ltb_ℤ, eqb_ℤ, +ℤ_parts, -ℤ_parts}
use retrodesk.Growth.{reserve}
use retrodesk.Wm.Window.{Window, is_visible, is_focusable, clamp_window}
use retrodesk.Wm.State.{
  WindowId, WindowManager, find_window, modify, clamp, mark, update_active_flags,
}
use retrodesk.Wm.Operations.{
  WindowSpec, Allocations, create_window, add_window, placed, is_too_small, within, resized,
  resize_active_window,
}

-- The window lies on the screen, the bottom row left free.
pub record IsOnDesk (rows cols : ℤ) (w : Window) : Type 0 where
  pub left : pos 0 ≤ℤ w.x
  pub top : pos 0 ≤ℤ w.y
  pub right : w.x +ℤ w.w ≤ℤ cols
  pub bottom : w.y +ℤ w.h <ℤ rows

-- A window that fits above the bottom row is clamped to a place there.
pub clamp_window-IsOnDesk :
    (rows cols : ℤ) (w : Window)
    → w.h <ℤ rows
    → w.w ≤ℤ cols
    → IsOnDesk rows cols (clamp_window rows cols w)
unfolding clamp_window
clamp_window-IsOnDesk rows cols w h k = record {
  left = ground arith;
  top = ground arith;
  right = ground (arith, -ℤ_parts cols w.w, +ℤ_parts (clamp_window rows cols w).x w.w);
  bottom = ground (
    arith,
    -ℤ_parts rows w.h,
    -ℤ_parts (rows -ℤ w.h) (pos 1),
    +ℤ_parts (clamp_window rows cols w).y w.h,
  );
}

clamp_window-IsOnDesk_self :
    (rows cols : ℤ) (w : Window) → IsOnDesk rows cols w → clamp_window rows cols w ≡ w
unfolding clamp_window
clamp_window-IsOnDesk_self rows cols w d = ground (
  arith,
  -ℤ_parts rows w.h,
  -ℤ_parts (rows -ℤ w.h) (pos 1),
  -ℤ_parts cols w.w,
  +ℤ_parts w.x w.w,
  +ℤ_parts w.y w.h,
)

-- A new window: the next number, on top and active, and on the desk.
pub record IsCreated (wm v : WindowManager) (w : Window) : Type 0 where
  pub number : w.id ≡ wm.next_id
  pub windows : v.windows ≡ map (mark (some w.id)) (wm.windows ++ w ∷ [])
  pub active : v.active_id ≡ some w.id
  pub shown : is_visible w ≡ true
  pub on_desk : IsOnDesk wm.screen_rows wm.screen_cols w

abbrev pub Created : WindowManager → WindowManager × WindowId → Type 0
Created wm r =
    ((r.1 ≡ none) × (r.0.windows ≡ wm.windows) × (r.0.active_id ≡ wm.active_id))
    ⊎ ((w : Window) × (r.1 ≡ some w.id) × IsCreated wm r.0 w)

placed-fits :
    (spec : WindowSpec) (wm : WindowManager)
    → pos 5 ≤ℤ wm.screen_rows
    → pos 8 ≤ℤ wm.screen_cols
    → ((placed spec wm).h <ℤ wm.screen_rows) × ((placed spec wm).w ≤ℤ wm.screen_cols)
unfolding placed
placed-fits spec wm h k = (
  ground (arith, -ℤ_parts wm.screen_rows (pos 1)),
  ground (arith, -ℤ_parts wm.screen_rows (pos 1)),
)

-- On a screen of five rows at least, `wm_create_window` either returns no id and leaves the windows
-- and the focus as they were, or returns the id of a new visible window that is on top, is active
-- and lies on the screen with the bottom row left free, whatever geometry the caller asks for.
pub create_window-Created :
    (a : Allocations) (spec : WindowSpec) (wm : WindowManager)
    → pos 5 ≤ℤ wm.screen_rows
    → Created wm (create_window a spec wm)
unfolding create_window add_window update_active_flags is_too_small
create_window-Created a spec wm rows =
    elim (Option-cases (reserve 8 a.array (length wm.windows + 1) wm.capacity)) [
      | inl e ↦ rw (e, create_window) (inl (refl, refl, refl))
      | inr (cap, e) ↦
          rw (e, create_window)
            (if_either (Created wm) (not a.window) (λ _. inl (refl, refl, refl))
              (λ _.
                if_either (Created wm) (is_too_small wm) (λ _. inl (refl, refl, refl))
                  (λ large.
                    if_either (Created wm) a.draw_list (λ _. inr (added cap large))
                      (λ _. inl (refl, refl, refl)))))
    ]
  where
    added :
        (c : ℕ)
        → is_too_small wm ≡ false
        → (w : Window) × (some wm.next_id ≡ some w.id)
          × IsCreated wm
              (add_window (placed spec wm) (record wm { capacity = c; next_id = wm.next_id + 1 }))
              w
    added c large =
        let fits = placed-fits spec wm rows (ground arith) in
        (
          clamp wm (placed spec wm),
          refl,
          record {
            number = refl;
            windows = refl;
            active = refl;
            shown = unfold is_visible placed in refl;
            on_desk =
                clamp_window-IsOnDesk wm.screen_rows wm.screen_cols (placed spec wm) fits.0 fits.1;
          },
        )

-- What `wm_resize_active_window` promises where the active window is `w`.
pub record IsResized (dh dw : ℤ) (wm v : WindowManager) (w : Window) : Type 0 where
  pub changed : v ≡ record wm { windows = modify w.id (resized dh dw wm) wm.windows }
  pub high : pos 4 ≤ℤ (resized dh dw wm w).h
  pub wide : pos 12 ≤ℤ (resized dh dw wm w).w
  pub bottom : w.y +ℤ (resized dh dw wm w).h ≤ℤ wm.screen_rows
  pub right : w.x +ℤ (resized dh dw wm w).w ≤ℤ wm.screen_cols

abbrev pub Resized : ℤ → ℤ → WindowManager → Window → WindowManager × Bool → Type 0
Resized dh dw wm w r = ((r.1 ≡ false) × (r.0 ≡ wm)) ⊎ ((r.1 ≡ true) × IsResized dh dw wm r.0 w)

within-le : (limit origin size : ℤ) → pos 0 <ℤ limit → origin +ℤ within limit origin size ≤ℤ limit
within-le limit origin size h =
    ground (
      arith,
      -ℤ_parts limit origin,
      +ℤ_parts origin size,
      +ℤ_parts origin (within limit origin size),
    )

-- On a screen that is not empty, `wm_resize_active_window` either reports false and changes nothing,
-- or reports true and changes only the size of the active window, which stays at least 4 by 12 and
-- ends within the screen.
pub resize_active_window-Resized :
    (dh dw : ℤ) (wm : WindowManager) (w : Window)
    → find_window wm.active_id wm.windows ≡ some w
    → pos 0 <ℤ wm.screen_rows
    → pos 0 <ℤ wm.screen_cols
    → Resized dh dw wm w (resize_active_window dh dw wm)
unfolding resize_active_window
resize_active_window-Resized dh dw wm w e rows cols =
    rw (e, resize_active_window)
      (if_either P (not (is_focusable w)) (λ _. inl (refl, refl))
        (λ _.
          if_either P (ltb_ℤ next.h (pos 4) || ltb_ℤ next.w (pos 12)) (λ _. inl (refl, refl))
            (λ big.
              if_either P (eqb_ℤ next.h w.h && eqb_ℤ next.w w.w) (λ _. inl (refl, refl))
                (λ _. inr (refl, changed big)))))
  where
    P : WindowManager × Bool → Type 0
    P = Resized dh dw wm w

    next : Window
    next = resized dh dw wm w

    changed :
        (ltb_ℤ next.h (pos 4) || ltb_ℤ next.w (pos 12)) ≡ false
        → IsResized dh dw wm (record wm { windows = modify w.id (resized dh dw wm) wm.windows }) w
    changed big = record {
      changed = refl;
      high = ground arith;
      wide = ground arith;
      bottom = within-le wm.screen_rows w.y _ rows;
      right = within-le wm.screen_cols w.x _ cols;
    }
