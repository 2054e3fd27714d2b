-- ===== src/Wm/Modal.antt =====
-- The modal policy of wm/window_manager.c: while a visible modal window is open, the other windows
-- neither move nor get the input.
use mathlib.Core.Path.{ap₂}
use retrodesk.Prelude.{
  ℕ, ◌≡◌, ◌≢◌, refl, sym, ap, some, none, true, false, List, [], ◌∷◌, map, ◌==◌, ==_iff, Bool-cases,
  Option-cases, inl, inr, arith, if◌then◌else◌, All,
}
use retrodesk.Event.{Event, MouseEvent, nothing, key, mouse, resize}
use retrodesk.Wm.Window.{Window, is_visible}
use retrodesk.Wm.State.{
  WindowId, WindowManager, find, find_window, mark, topmost_modal, is_visible?, update_active_flags,
  select_topmost_visible, forget_closed, keep_open, cleanup_closed,
}
use retrodesk.Wm.Events.{localize, deliver, handle_mouse, key_target, deliver_key, handle_event}
use retrodesk.Wm.Collection.{Distinct, has}
use retrodesk.Wm.Invariant.{IsValid, IsMarked, ActiveOk}
use retrodesk.Wm.Requests.{perform_all}
use retrodesk.Wm.Session.{Script, run_script}

-- No window waits to be closed, and one is active.
pub record IsSettled (wm : WindowManager) : Type 0 where
  pub none_closing : All (λ (w : Window). w.close_requested ≡ false) wm.windows
  pub focused : wm.active_id ≢ none

keep_open-settled :
    (ws : List Window) → All (λ (w : Window). w.close_requested ≡ false) ws → keep_open ws ≡ ws
unfolding keep_open
keep_open-settled [] h = refl
keep_open-settled (w ∷ ws) h = ground (arith, keep_open-settled ws h.1)

forget_closed-settled :
    (ws : List Window) (wm : WindowManager)
    → All (λ (w : Window). w.close_requested ≡ false) ws
    → forget_closed ws wm ≡ wm
unfolding forget_closed
forget_closed-settled [] wm h = refl
forget_closed-settled (w ∷ ws) wm h = rw (h.0, forget_closed) (forget_closed-settled ws wm h.1)

map-mark-marked : (a : WindowId) (ws : List Window) → All (IsMarked a) ws → map (mark a) ws ≡ ws
map-mark-marked a [] h = refl
map-mark-marked a (w ∷ ws) h =
    ap₂ ◌∷◌ (ap (λ b. record w { is_active = b }) (sym h.0)) (map-mark-marked a ws h.1)

find-has-visible :
    (i : ℕ) (ws : List Window)
    → Distinct ws
    → has is_visible i ws ≡ true
    → is_visible? (find i ws) ≡ true
unfolding find
find-has-visible i [] d h = absurd (cc h)
find-has-visible i (w ∷ ws) d h = elim (Bool-cases (w.id == i)) [
  | inl hit ↦ elim (Bool-cases (is_visible w)) [
    | inl shown ↦ rw (hit, find) shown
    | inr hidden ↦ absurd (lone ws d.0 (ground arith))
  ]
  | inr miss ↦ rw (miss, find) (find-has-visible i ws d.1 (ground arith))
]
  where
    lone :
        (us : List Window)
        → All (λ (v : Window). v.id ≢ w.id) us
        → (has is_visible i us ≡ true) × (w.id ≡ i)
        → ⊥
    lone [] a (h', e) = cc
    lone (u ∷ us) a (h', e) = elim (Bool-cases (u.id == i)) [
      | inl same ↦ a.0 (ground (arith, ==_iff u.id i))
      | inr differ ↦ lone us a.1 (ground arith, e)
    ]

active-visible :
    (a : WindowId) (ws : List Window)
    → a ≢ none
    → Distinct ws
    → ActiveOk a ws
    → is_visible? (find_window a ws) ≡ true
unfolding find_window
active-visible none ws ne d h = absurd (ne refl)
active-visible (some i) ws ne d h = find-has-visible i ws d h

-- In a valid state in which nothing waits to be closed, the cleanup changes nothing.
cleanup_closed-settled : (wm : WindowManager) → IsValid wm → IsSettled wm → cleanup_closed wm ≡ wm
unfolding cleanup_closed select_topmost_visible update_active_flags
cleanup_closed-settled wm v s = rw (
  forget_closed-settled wm.windows wm s.none_closing,
  keep_open-settled wm.windows s.none_closing,
  active-visible wm.active_id wm.windows s.focused v.core.collection.distinct v.active,
  map-mark-marked wm.active_id wm.windows v.marked,
)

-- With a visible modal window open whose callback asks for nothing, no mouse event changes the
-- manager: no window gets the focus, is raised, dragged or told. (The state is valid, nothing waits
-- to be closed, and some window is active.)
pub handle_event-modal-mouse :
    (script : Script) (m : MouseEvent) (wm : WindowManager) (modal : Window)
    → IsValid wm
    → IsSettled wm
    → topmost_modal wm.windows ≡ some modal
    → ((cb : ℕ) (e : Event) → script cb modal.id e wm ≡ [])
    → handle_event (run_script script) (mouse m) wm ≡ (wm, true)
unfolding handle_event handle_mouse deliver run_script perform_all
handle_event-modal-mouse script m wm modal v s top quiet =
    rw (top, handle_mouse) (rw quiet_delivery (rw settled (rw settled)))
  where
    settled : cleanup_closed wm ≡ wm
    settled = cleanup_closed-settled wm v s

    quiet_delivery : deliver (run_script script) modal (mouse (localize modal m)) wm ≡ wm
    quiet_delivery = elim (Option-cases modal.event_cb) [
      | inl e ↦ rw (e, deliver)
      | inr (cb, e) ↦ rw (e, deliver) (rw (quiet cb (mouse (localize modal m))))
    ]

-- Two programs give the same answers for one window in one state.
abbrev pub Agree : Script → Script → Window → WindowManager → Type 0
Agree script other w wm = (cb : ℕ) (d : Event) → script cb w.id d wm ≡ other cb w.id d wm

deliver-Agree :
    (script other : Script) (w : Window) (d : Event) (wm : WindowManager)
    → Agree script other w wm
    → deliver (run_script script) w d wm ≡ deliver (run_script other) w d wm
unfolding deliver run_script
deliver-Agree script other w d wm same = elim (Option-cases w.event_cb) [
  | inl e ↦ rw (e, deliver)
  | inr (cb, e) ↦ rw (e, deliver) (ap (λ rs. perform_all rs wm) (same cb d))
]

-- While a visible modal window is open, the callbacks of all other windows are without influence:
-- two programs that answer alike for the modal window take every event to the same state.
pub handle_event-modal-only :
    (script other : Script) (e : Event) (wm : WindowManager) (modal : Window)
    → topmost_modal wm.windows ≡ some modal
    → Agree script other modal wm
    → handle_event (run_script script) e wm ≡ handle_event (run_script other) e wm
unfolding handle_event handle_mouse deliver_key
handle_event-modal-only script other nothing wm modal top same = refl
handle_event-modal-only script other (resize r) wm modal top same = refl
handle_event-modal-only script other (mouse m) wm modal top same =
    rw (top, handle_mouse)
      (ap (λ v. (cleanup_closed (cleanup_closed v), true))
        (deliver-Agree script other modal (mouse (localize modal m)) wm same))
handle_event-modal-only script other (key k) wm modal top same =
    rw (top, key_target)
      (ap (λ v. (cleanup_closed (if is_visible modal then v else wm), true))
        (deliver-Agree script other modal (key k) wm same))
