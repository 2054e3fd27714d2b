-- ===== src/Wm/Order.antt =====
-- The z-order of wm/window_manager.c: hit testing, raising a window and cycling the focus.
use retrodesk.Prelude.{
  ℕ, zero, suc, ◌+◌, ◌%◌, ◌≡◌, ◌≢◌, refl, ap, Option, some, none, Bool, true, false, List, [], ◌∷◌,
  ◌++◌, ◌==◌, ==_iff, map, get_elem?, Bool-cases, Option-cases, ◌⊎◌, inl, inr, arith, ltb, length,
  if_either, All,
}
use retrodesk.Wm.Window.{Window, is_visible, is_focusable}
use retrodesk.Wm.State.{
  WindowId, WindowManager, is_id, find, find_window, find_index, raise, topmost_modal,
  update_active_flags, mark,
}
use retrodesk.Wm.Operations.{
  bring_to_front, next_focusable, start_index, cycle_focus, cycle_on, cycle_unless,
}
use retrodesk.Wm.Collection.{Distinct}
use retrodesk.Wm.Lookup.{find_window-find}
use retrodesk.Wm.Invariant.{IsValid}
use retrodesk.Wm.Validity.{next_focusable-has}

-- `ws` is `below`, then `w`, then `above`.
abbrev pub Splits : List Window → List Window → Window → List Window → Type 0
Splits ws below w above = ws ≡ below ++ w ∷ above

raise-Splits :
    (i : ℕ) (ws : List Window) (w : Window)
    → find i ws ≡ some w
    → (below above : List Window) × Splits ws below w above
      × (raise i ws ≡ below ++ (above ++ w ∷ []))
unfolding find raise
raise-Splits i [] w e = absurd (cc e)
raise-Splits i (v ∷ ws) w e = elim (Bool-cases (v.id == i)) [
  | inl hit ↦
      let same : v ≡ w = ground arith in
      ([], ws, ap (λ u. u ∷ ws) same, rw (hit, raise) (ap (λ u. ws ++ u ∷ []) same))
  | inr miss ↦
      let (below, above, split, raised) = raise-Splits i ws w (ground arith) in
      (v ∷ below, above, ap (v ∷◌) split, rw (miss, raise) (ap (v ∷◌) raised))
]

-- `wm_bring_to_front` on a visible window puts it on top and leaves the others in their order, and
-- changes nothing else.
pub bring_to_front-Splits :
    (id : WindowId) (wm : WindowManager) (w : Window)
    → find_window id wm.windows ≡ some w
    → is_visible w ≡ true
    → (below above : List Window) × Splits wm.windows below w above
      × (bring_to_front id wm ≡ record wm { windows = below ++ (above ++ w ∷ []) })
unfolding bring_to_front find_window
bring_to_front-Splits none wm w e v = absurd (cc e)
bring_to_front-Splits (some i) wm w e v =
    let (below, above, split, raised) =
      raise-Splits w.id wm.windows w (find_window-find (some i) wm.windows w e) in
    (below, above, split, rw (e, bring_to_front) (rw v (rw raised)))

-- The ids of the windows, bottom to top.
abbrev pub ids : List Window → List ℕ
ids = map λ (w : Window). w.id

-- What `wm_cycle_focus` does where it reports a change.
pub record IsCycled (wm v : WindowManager) (w : Window) : Type 0 where
  pub focusable : is_focusable w ≡ true
  pub other : is_id wm.active_id w.id ≡ false
  pub active : v.active_id ≡ some w.id
  pub on_top :
      (below above : List Window) × Splits wm.windows below w above
      × (ids v.windows ≡ ids (below ++ (above ++ w ∷ [])))

abbrev pub Cycled : WindowManager → WindowManager × Bool → Type 0
Cycled wm r = ((r.1 ≡ false) × (r.0 ≡ wm)) ⊎ ((r.1 ≡ true) × ((w : Window) × IsCycled wm r.0 w))

pub ids-mark : (a : WindowId) (ws : List Window) → ids (map (mark a) ws) ≡ ids ws
ids-mark a [] = refl
ids-mark a (w ∷ ws) = ap (w.id ∷◌) (ids-mark a ws)

find-Distinct :
    (ws : List Window) (k : ℕ) (w : Window)
    → Distinct ws
    → get_elem? ws k ≡ some w
    → find w.id ws ≡ some w
unfolding find
find-Distinct [] k w d e = cc
find-Distinct (v ∷ ws) zero w d e = ground (arith, ==_iff v.id w.id)
find-Distinct (v ∷ ws) (suc k) w d e = elim (Bool-cases (v.id == w.id)) [
  | inl same ↦ absurd (apart ws k w e d.0 ((==_iff v.id w.id).0 same))
  | inr differ ↦ rw (differ, find) (find-Distinct ws k w d.1 e)
]
  where
    apart :
        (us : List Window) (n : ℕ) (u : Window)
        → get_elem? us n ≡ some u
        → All (λ (t : Window). t.id ≢ v.id) us
        → v.id ≡ u.id
        → ⊥
    apart [] n u h a q = cc
    apart (t ∷ us) zero u h a q = a.0 (ground arith)
    apart (t ∷ us) (suc n) u h a q = apart us n u h a.1 q

next_focusable-find :
    (rounds step idx : ℕ) (ws : List Window) (w : Window)
    → Distinct ws
    → next_focusable rounds step idx ws ≡ some w
    → find w.id ws ≡ some w
unfolding next_focusable
next_focusable-find zero step idx ws w d e = cc
next_focusable-find (suc rounds) step idx ws w d e =
    elim (Option-cases (get_elem? ws ((idx + step) % length ws))) [
      | inl out ↦ absurd (ground arith)
      | inr (u, here) ↦ elim (Bool-cases (is_focusable u)) [
        | inl can ↦ find-Distinct ws ((idx + step) % length ws) w d (ground arith)
        | inr cannot ↦ next_focusable-find rounds (step + 1) idx ws w d (ground arith)
      ]
    ]

IsCycled-turned :
    (w : Window) (wm : WindowManager)
    → find w.id wm.windows ≡ some w
    → is_focusable w ≡ true
    → is_id wm.active_id w.id ≡ false
    → IsCycled wm
        (update_active_flags (bring_to_front (some w.id) (record wm { active_id = some w.id })))
        w
unfolding update_active_flags
IsCycled-turned w wm e f o =
    let start = record wm { active_id = some w.id } in
    let (below, above, split, raised) =
      bring_to_front-Splits (some w.id) start w (unfold find_window in e)
        (unfold is_focusable in ground arith) in
    rw raised (record {
      focusable = f;
      other = o;
      active = refl;
      on_top = (below, above, split, ids-mark (some w.id) (below ++ (above ++ w ∷ [])));
    })

cycle_on-Cycled :
    (o : Option Window) (wm : WindowManager)
    → ((w : Window) → o ≡ some w → (find w.id wm.windows ≡ some w) × (is_focusable w ≡ true))
    → Cycled wm (cycle_on o wm)
cycle_on-Cycled none wm found = inl (refl, refl)
cycle_on-Cycled (some w) wm found =
    if_either (Cycled wm) (is_id wm.active_id w.id) (λ _. inl (refl, refl))
      (λ other. inr (refl, (w, IsCycled-turned w wm (found w refl).0 (found w refl).1 other)))

cycle_unless-Cycled :
    (modal o : Option Window) (wm : WindowManager)
    → ((w : Window) → o ≡ some w → (find w.id wm.windows ≡ some w) × (is_focusable w ≡ true))
    → Cycled wm (cycle_unless modal o wm)
cycle_unless-Cycled none o wm found = cycle_on-Cycled o wm found
cycle_unless-Cycled (some m) o wm found = inl (refl, refl)

-- In a valid state `wm_cycle_focus` either reports false and changes nothing, or reports true and
-- gives the focus to a visible window that is not fixed and was not active, which goes on top of the
-- z-order while the others keep theirs.
pub cycle_focus-Cycled : (wm : WindowManager) → IsValid wm → Cycled wm (cycle_focus wm)
unfolding cycle_focus
cycle_focus-Cycled wm v =
    if_either (Cycled wm) (ltb (length wm.windows) 2) (λ _. inl (refl, refl))
      (λ _.
        cycle_unless-Cycled (topmost_modal wm.windows)
          (next_focusable (length wm.windows) 1 idx wm.windows) wm
          (λ w e. (
            next_focusable-find (length wm.windows) 1 idx wm.windows w v.core.collection.distinct e,
            (next_focusable-has (length wm.windows) 1 idx wm.windows w e).1,
          )))
  where
    idx : ℕ
    idx = start_index (find_index wm.active_id wm.windows) (length wm.windows)

-- While a visible modal window is open the focus does not cycle.
pub cycle_focus-modal :
    (wm : WindowManager) (modal : Window)
    → topmost_modal wm.windows ≡ some modal
    → cycle_focus wm ≡ (wm, false)
unfolding cycle_focus
cycle_focus-modal wm modal e = ground arith
