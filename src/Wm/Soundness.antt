-- ===== src/Wm/Soundness.antt =====
-- Each operation of wm/window_manager.c keeps what holds during a callback and between the calls:
-- the core of the invariant, for `p` the open or the visible windows.
use retrodesk.Prelude.{
  ℕ, ◌+◌, ◌<◌, ◌≡◌, refl, some, none, Bool, true, false, List, [], ◌∷◌, ◌++◌, ◌==◌, Bool-cases, inl,
  inr, arith, if◌then◌else◌,
}
use retrodesk.Prelude.Int.{ℤ, pos, ◌≤ℤ◌}
use retrodesk.Wm.Window.{Window, clamp_window}
use retrodesk.Wm.State.{WindowId, WindowManager, is_id, find, modify, raise, update_active_flags}
use retrodesk.Wm.Operations.{
  set_drag_enabled, set_drag_auto_degrade, WindowSpec, placed, minimize, release_hidden,
}
use retrodesk.Wm.Collection.{
  IsPlaced, Distinct-modify, All-modify, All-modify_found, All-find, IsCollection-modify,
  IsCollection-raise, IsCollection-append,
}
use retrodesk.Wm.Lookup.{has-append, has-raise, has-modify, has-modify_ne}
use retrodesk.Wm.Invariant.{Refers, Core, Core-mark}

-- A window that is as open as one with `p` has `p`.
abbrev pub IsStable : (Window → Bool) → Type 0
IsStable p =
    (v w : Window)
    → v.close_requested ≡ w.close_requested
    → (v.minimized ≡ true → w.minimized ≡ true)
    → p w ≡ true
    → p v ≡ true

pub clamp-IsPlaced :
    (rows cols : ℤ) (w : Window) → pos 4 ≤ℤ w.h → pos 8 ≤ℤ w.w → IsPlaced (clamp_window rows cols w)
unfolding clamp_window
clamp-IsPlaced rows cols w h k = ground arith

pub placed-IsPlaced :
    (spec : WindowSpec) (wm : WindowManager)
    → (pos 4 ≤ℤ (placed spec wm).h) × (pos 8 ≤ℤ (placed spec wm).w)
unfolding placed
placed-IsPlaced spec wm = (ground arith, ground arith)

module _ (p : Window → Bool) (stable : IsStable p) where
  pub Core-set_drag_enabled :
      (b : Bool) (wm : WindowManager) → Core p wm → Core p (set_drag_enabled b wm)
  unfolding set_drag_enabled
  Core-set_drag_enabled true wm c = record {
    collection = c.collection;
    drag = ground arith;
    aims = c.aims;
  }
  Core-set_drag_enabled false wm c = record {
    collection = c.collection;
    drag = ground arith;
    aims = λ e. cc;
  }

  pub Core-set_drag_auto_degrade :
      (b : Bool) (wm : WindowManager) → Core p wm → Core p (set_drag_auto_degrade b wm)
  unfolding set_drag_auto_degrade
  Core-set_drag_auto_degrade true wm c = record {
    collection = c.collection;
    drag = c.drag;
    aims = c.aims;
  }
  Core-set_drag_auto_degrade false wm c = record {
    collection = c.collection;
    drag = ground arith;
    aims = c.aims;
  }

  -- The active id is no part of the core.
  pub Core-update :
      (active : WindowId) (wm : WindowManager)
      → Core p wm
      → Core p (update_active_flags (record wm { active_id = active }))
  unfolding update_active_flags
  Core-update active wm c =
      let m = Core-mark p active wm (λ w h. stable _ w refl (λ e. e) h) c in
      record { collection = m.collection; drag = m.drag; aims = m.aims }

  Refers-append :
      (id : WindowId) (ws : List Window) (w : Window) → Refers p id ws → Refers p id (ws ++ w ∷ [])
  Refers-append none ws w h = h
  Refers-append (some i) ws w h = rw has-append (ground arith)

  pub Core-append :
      (w : Window) (active : WindowId) (wm : WindowManager)
      → w.id ≡ wm.next_id
      → IsPlaced w
      → Core p wm
      → Core p (record wm {
        windows = wm.windows ++ w ∷ [];
        next_id = wm.next_id + 1;
        active_id = active;
      })
  Core-append w active wm e h c = record {
    collection = IsCollection-append wm.next_id wm.windows w e h c.collection;
    drag = c.drag;
    aims = λ d. Refers-append wm.drag_window_id wm.windows w (c.aims d);
  }

  Refers-modify :
      (f : Window → Window)
      → ((w : Window) → (f w).id ≡ w.id)
      → ((w : Window) → p w ≡ true → p (f w) ≡ true)
      → (id : WindowId) (j : ℕ) (ws : List Window) → Refers p id ws
      → Refers p id (modify j f ws)
  Refers-modify f same keep none j ws h = h
  Refers-modify f same keep (some i) j ws h = has-modify p f same keep i j ws h

  -- A change of one window that keeps its id, what it is, and its place on the screen.
  pub Core-modify :
      (f : Window → Window) (j : ℕ) (wm : WindowManager)
      → ((w : Window) → (f w).id ≡ w.id)
      → ((w : Window) → IsPlaced w → IsPlaced (f w))
      → ((w : Window) → p w ≡ true → p (f w) ≡ true)
      → Core p wm
      → Core p (record wm { windows = modify j f wm.windows })
  Core-modify f j wm same place keep c = record {
    collection = IsCollection-modify f wm.next_id j wm.windows same place c.collection;
    drag = c.drag;
    aims = λ e. Refers-modify f same keep wm.drag_window_id j wm.windows (c.aims e);
  }

  -- A change that keeps the ids and puts the window that is found in a good place.
  pub Core-modify_found :
      (f : Window → Window) (j : ℕ) (v : Window) (wm : WindowManager)
      → ((w : Window) → (f w).id ≡ w.id)
      → find j wm.windows ≡ some v
      → (IsPlaced v → IsPlaced (f v))
      → ((w : Window) → p w ≡ true → p (f w) ≡ true)
      → Core p wm
      → Core p (record wm { windows = modify j f wm.windows })
  Core-modify_found f j v wm same e place keep c = record {
    collection = record {
      distinct = Distinct-modify f same j wm.windows c.collection.distinct;
      fresh =
          All-modify (λ w. w.id < wm.next_id) f (λ w h. rw (same w) h) j wm.windows
            c.collection.fresh;
      placed =
          All-modify_found IsPlaced f j wm.windows v e
            (place (All-find IsPlaced j wm.windows v e c.collection.placed)) c.collection.placed;
    };
    drag = c.drag;
    aims = λ e. Refers-modify f same keep wm.drag_window_id j wm.windows (c.aims e);
  }

  Refers-raise :
      (id : WindowId) (j : ℕ) (ws : List Window) → Refers p id ws → Refers p id (raise j ws)
  Refers-raise none j ws h = h
  Refers-raise (some i) j ws h = rw has-raise h

  pub Core-raise :
      (j : ℕ) (wm : WindowManager) → Core p wm → Core p (record wm { windows = raise j wm.windows })
  Core-raise j wm c = record {
    collection = IsCollection-raise wm.next_id j wm.windows c.collection;
    drag = c.drag;
    aims = λ e. Refers-raise wm.drag_window_id j wm.windows (c.aims e);
  }

  -- Where the drag is of another window, it goes on; where it is of this one, it ends.
  Aims-hidden :
      (id : WindowId) (j : ℕ) (dragging : Bool) (ws : List Window)
      → (dragging ≡ true → Refers p id ws)
      → (if is_id id j then false else dragging) ≡ true
      → Refers p (if is_id id j then none else id) (modify j minimize ws)
  Aims-hidden none j dragging ws h e = h e
  Aims-hidden (some i) j dragging ws h e = elim (Bool-cases (i == j)) [
    | inl hit ↦ absurd (ground arith)
    | inr miss ↦
        rw miss (rw (has-modify_ne p minimize (λ w. refl) i j ws (ground arith)) (h (ground arith)))
  ]

  pub Core-minimize :
      (j : ℕ) (wm : WindowManager)
      → Core p wm
      → Core p (record (release_hidden j wm) { windows = modify j minimize wm.windows })
  Core-minimize j wm c = record {
    collection =
        IsCollection-modify minimize wm.next_id j wm.windows (λ w. refl) (λ w h. h) c.collection;
    drag = ground arith;
    aims = Aims-hidden wm.drag_window_id j wm.dragging wm.windows c.aims;
  }
