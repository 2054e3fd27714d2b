-- ===== src/Wm/Invariant.antt =====
-- The invariant of the window manager, and that the helpers of wm/window_manager.c establish it.
use retrodesk.Prelude.{
  ℕ, ◌≤◌, ◌≡◌, refl, some, none, Bool, true, false, ◌&&◌, not, List, [], ◌∷◌, map, ==_iff,
  Bool-cases, Option-cases, inl, inr, All, arith,
}
use retrodesk.Wm.Window.{Window, is_visible}
use retrodesk.Wm.State.{
  WindowId, WindowManager, is_id, find, find_window, topmost, mark, id_of, is_visible?,
  update_active_flags, select_topmost_visible, forget, forget_closed, keep_open, cleanup_closed,
}
use retrodesk.Wm.Collection.{has, IsCollection, IsCollection-map, IsCollection-keep_open}
use retrodesk.Wm.Lookup.{has-topmost, has-map, find-has}

abbrev pub is_open : Window → Bool
is_open w = not w.minimized

-- The id is that of a window that satisfies `p`.
abbrev pub Refers : (Window → Bool) → WindowId → List Window → Type 0
Refers p none ws = ⊥
Refers p (some i) ws = has p i ws ≡ true

-- The drag flags and the count of sessions without motion: a drag needs dragging to be enabled,
-- degradation disables it, and comes with the third session.
pub record DragOk (dragging enabled degraded : Bool) (sessions : ℕ) : Type 0 where
  pub enables : dragging ≡ true → enabled ≡ true
  pub disables : degraded ≡ true → enabled ≡ false
  pub below : sessions ≤ 3
  pub counted : sessions ≡ 3 → degraded ≡ true

abbrev pub DragState : WindowManager → Type 0
DragState wm = DragOk wm.dragging wm.drag_enabled wm.drag_degraded wm.drag_no_motion_sessions

abbrev pub Aims : (Window → Bool) → WindowManager → Type 0
Aims p wm = wm.dragging ≡ true → Refers p wm.drag_window_id wm.windows

-- The windows, the drag flags, and a drag that is of a window with `p`.
pub record Core (p : Window → Bool) (wm : WindowManager) : Type 0 where
  pub collection : IsCollection wm.next_id wm.windows
  pub drag : DragState wm
  pub aims : Aims p wm

-- What holds also while an event callback runs, when windows may wait to be closed.
abbrev pub IsSound : WindowManager → Type 0
IsSound = Core is_open

-- Only the active window, if it is visible, has `is_active` set.
abbrev pub IsMarked : WindowId → Window → Type 0
IsMarked active w = w.is_active ≡ (is_visible w && is_id active w.id)

abbrev pub ActiveOk : WindowId → List Window → Type 0
ActiveOk none ws = Unit {0}
ActiveOk (some i) ws = has is_visible i ws ≡ true

-- What holds between the calls: the active window, if any, is a visible window of the list, the
-- flags say so, and a drag is of a visible window.
pub record IsValid (wm : WindowManager) : Type 0 where
  pub core : Core is_visible wm
  pub active : ActiveOk wm.active_id wm.windows
  pub marked : All (IsMarked wm.active_id) wm.windows

IsMarked-map : (active : WindowId) (ws : List Window) → All (IsMarked active) (map (mark active) ws)
unfolding is_visible
IsMarked-map active [] = tt
IsMarked-map active (w ∷ ws) = (refl, IsMarked-map active ws)

ActiveOk-map :
    (active a : WindowId) (ws : List Window) → ActiveOk a ws → ActiveOk a (map (mark active) ws)
unfolding is_visible
ActiveOk-map active none ws h = tt
ActiveOk-map active (some i) ws h = has-map is_visible (mark active) (λ w. refl) (λ w v. v) i ws h

pub Refers-map :
    (f : Window → Window) (p : Window → Bool)
    → ((w : Window) → (f w).id ≡ w.id)
    → ((w : Window) → p w ≡ true → p (f w) ≡ true)
    → (id : WindowId) (ws : List Window) → Refers p id ws
    → Refers p id (map f ws)
Refers-map f p same keep none ws h = h
Refers-map f p same keep (some i) ws h = has-map p f same keep i ws h

-- Marking the active window changes neither ids nor geometry, nor what is visible or open.
pub Core-mark :
    (p : Window → Bool) (active : WindowId) (wm : WindowManager)
    → ((w : Window) → p w ≡ true → p (mark active w) ≡ true)
    → Core p wm
    → Core p (record wm { windows = map (mark active) wm.windows })
Core-mark p active wm keep c = record {
  collection =
      IsCollection-map (mark active) wm.next_id wm.windows (λ w. refl) (λ w h. h) c.collection;
  drag = c.drag;
  aims = λ e. Refers-map (mark active) p (λ w. refl) keep wm.drag_window_id wm.windows (c.aims e);
}

-- `wm_update_active_flags` makes the flags right.
pub update-IsValid :
    (wm : WindowManager)
    → Core is_visible wm
    → ActiveOk wm.active_id wm.windows
    → IsValid (update_active_flags wm)
unfolding update_active_flags
update-IsValid wm c a = record {
  core = Core-mark is_visible wm.active_id wm (λ w v. unfold is_visible in v) c;
  active = ActiveOk-map wm.active_id wm.active_id wm.windows a;
  marked = IsMarked-map wm.active_id wm.windows;
}

ActiveOk-topmost : (ws : List Window) → ActiveOk (id_of (topmost is_visible ws)) ws
ActiveOk-topmost ws = elim (Option-cases (topmost is_visible ws)) [
  | inl e ↦ rw e tt
  | inr (w, e) ↦ rw e (has-topmost is_visible ws w e).0
]

ActiveOk-visible :
    (id : WindowId) (ws : List Window) → is_visible? (find_window id ws) ≡ true → ActiveOk id ws
unfolding find_window
ActiveOk-visible none ws h = tt
ActiveOk-visible (some i) ws h = elim (Option-cases (find i ws)) [
  | inl e ↦ absurd (cc e)
  | inr (w, e) ↦ find-has is_visible i ws w e (rw e at h)
]

-- After `wm_select_topmost_visible` the active window is visible, whatever it was before.
pub select-IsValid : (wm : WindowManager) → Core is_visible wm → IsValid (select_topmost_visible wm)
unfolding select_topmost_visible
select-IsValid wm c = elim (Bool-cases (is_visible? (find_window wm.active_id wm.windows))) [
  | inl e ↦
      rw (e, select_topmost_visible)
        (update-IsValid wm c (ActiveOk-visible wm.active_id wm.windows e))
  | inr e ↦
      rw (e, select_topmost_visible)
        (update-IsValid (record wm { active_id = id_of (topmost is_visible wm.windows) })
          (record { collection = c.collection; drag = c.drag; aims = c.aims })
          (ActiveOk-topmost wm.windows))
]

forget_closed-next_id :
    (ws : List Window) (wm : WindowManager) → (forget_closed ws wm).next_id ≡ wm.next_id
unfolding forget_closed
forget_closed-next_id [] wm = refl
forget_closed-next_id (w ∷ ws) wm = elim (Bool-cases w.close_requested) [
  | inl e ↦ rw (e, forget_closed) (forget_closed-next_id ws (forget w.id wm))
  | inr e ↦ rw (e, forget_closed) (forget_closed-next_id ws wm)
]

forget_closed-DragState :
    (ws : List Window) (wm : WindowManager) → DragState wm → DragState (forget_closed ws wm)
unfolding forget_closed
forget_closed-DragState [] wm d = d
forget_closed-DragState (w ∷ ws) wm d = elim (Bool-cases w.close_requested) [
  | inl e ↦ rw (e, forget_closed) (forget_closed-DragState ws (forget w.id wm) (ground arith))
  | inr e ↦ rw (e, forget_closed) (forget_closed-DragState ws wm d)
]

-- None of the windows that are to close has the id.
abbrev Spared : WindowId → List Window → Type 0
Spared id = All (λ (w : Window). w.close_requested ≡ true → is_id id w.id ≡ false)

-- A drag that survives is the drag of before, of a window that does not close.
forget_closed-dragging :
    (ws : List Window) (wm : WindowManager)
    → (forget_closed ws wm).dragging ≡ true
    → (wm.dragging ≡ true)
      × ((forget_closed ws wm).drag_window_id ≡ wm.drag_window_id)
      × Spared wm.drag_window_id ws
unfolding forget_closed
forget_closed-dragging [] wm h = (h, refl, tt)
forget_closed-dragging (w ∷ ws) wm h = elim (Bool-cases w.close_requested) [
  | inl e ↦ ground (arith, forget_closed-dragging ws (forget w.id wm))
  | inr e ↦ ground (arith, forget_closed-dragging ws wm)
]

has-keep_open :
    (i : ℕ) (ws : List Window)
    → Spared (some i) ws
    → has is_open i ws ≡ true
    → has is_visible i (keep_open ws) ≡ true
unfolding keep_open is_visible
has-keep_open i [] s h = h
has-keep_open i (w ∷ ws) s h = ground (arith, ==_iff w.id i, ==_iff i w.id, has-keep_open i ws s.1)

Refers-keep_open :
    (id : WindowId) (ws : List Window)
    → Spared id ws
    → Refers is_open id ws
    → Refers is_visible id (keep_open ws)
Refers-keep_open none ws s h = h
Refers-keep_open (some i) ws s h = has-keep_open i ws s h

-- `wm_cleanup_closed` turns what holds during a callback into what holds between the calls.
pub cleanup_closed-IsValid : (wm : WindowManager) → IsSound wm → IsValid (cleanup_closed wm)
unfolding cleanup_closed
cleanup_closed-IsValid wm s =
    select-IsValid (record (forget_closed wm.windows wm) { windows = keep_open wm.windows })
      (record {
        collection =
            rw (forget_closed-next_id wm.windows wm)
              (IsCollection-keep_open wm.next_id wm.windows s.collection);
        drag = forget_closed-DragState wm.windows wm s.drag;
        aims = still_aims;
      })
  where
    still_aims :
        (forget_closed wm.windows wm).dragging ≡ true
        → Refers is_visible (forget_closed wm.windows wm).drag_window_id (keep_open wm.windows)
    still_aims h =
        let (before, same, spared) = forget_closed-dragging wm.windows wm h in
        rw same (Refers-keep_open wm.drag_window_id wm.windows spared (s.aims before))

-- What holds between the calls holds during them.
pub IsValid-IsSound : (wm : WindowManager) → IsValid wm → IsSound wm
unfolding is_visible
IsValid-IsSound wm v = record {
  collection = v.core.collection;
  drag = v.core.drag;
  aims = λ e. weaken wm.drag_window_id wm.windows (v.core.aims e);
}
  where
    has-open : (i : ℕ) (ws : List Window) → has is_visible i ws ≡ true → has is_open i ws ≡ true
    has-open i [] h = h
    has-open i (w ∷ ws) h = ground (arith, has-open i ws)

    weaken : (id : WindowId) (ws : List Window) → Refers is_visible id ws → Refers is_open id ws
    weaken none ws h = h
    weaken (some i) ws h = has-open i ws h
