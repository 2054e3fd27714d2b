-- ===== src/Wm/Window.antt =====
-- One window of wm/window_manager.c: its record, the tests on it and its clamping to the screen.
use retrodesk.Prelude.{ℕ, Option, Bool, not, ◌&&◌, List, if◌then◌else◌}
use retrodesk.Prelude.Int.{ℤ, pos, ◌+ℤ◌, ◌-ℤ◌, ltb_ℤ, eqb_ℤ}

-- The bits of `WindowFlags`.
pub record WindowFlags : Type 0 where
  pub fixed : Bool
  pub modal : Bool
  pub popup : Bool
  pub app_owned : Bool

-- `RetroWindow` without its draw list and draw callback. A callback with its user data is a number,
-- as a function pointer is; `none` is NULL.
pub record Window : Type 0 where
  pub id : ℕ
  pub y : ℤ
  pub x : ℤ
  pub h : ℤ
  pub w : ℤ
  pub title : List ℕ
  pub flags : WindowFlags
  pub is_active : Bool
  pub minimized : Bool
  pub close_requested : Bool
  pub event_cb : Option ℕ

unfoldable pub is_visible : Window → Bool
is_visible window = not window.minimized && not window.close_requested

unfoldable pub contains : Window → ℤ → ℤ → Bool
contains window py px =
    is_visible window
    && not (ltb_ℤ py window.y)
    && ltb_ℤ py (window.y +ℤ window.h)
    && not (ltb_ℤ px window.x)
    && ltb_ℤ px (window.x +ℤ window.w)

unfoldable pub title_hit : Window → ℤ → ℤ → Bool
title_hit window py px = contains window py px && eqb_ℤ (py -ℤ window.y) (pos 0)

unfoldable pub is_focusable : Window → Bool
is_focusable window = is_visible window && not window.flags.fixed

-- `if (v < lo) v = lo;` and `if (v > hi) v = hi;`
abbrev pub at_least : ℤ → ℤ → ℤ
at_least lo v = if ltb_ℤ v lo then lo else v

abbrev pub at_most : ℤ → ℤ → ℤ
at_most hi v = if ltb_ℤ hi v then hi else v

-- `wm_clamp_window`, given what `renderer_get_screen_size` reports.
unfoldable pub clamp_window : ℤ → ℤ → Window → Window
clamp_window rows cols window =
    let max_y = at_least (pos 0) (rows -ℤ window.h -ℤ pos 1) in
    let max_x = at_least (pos 0) (cols -ℤ window.w) in
    record window {
      y = at_most max_y (at_least (pos 0) window.y);
      x = at_most max_x (at_least (pos 0) window.x);
    }
