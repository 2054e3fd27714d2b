-- ===== src/Wm/Lookup.antt =====
-- Searches in the list of windows: what `find`, `topmost` and `has` have to do with one another, and
-- what the changes of the list do to them.
use mathlib.Core.Path.{subst}
use retrodesk.Prelude.{
  ℕ, ◌≡◌, ◌≢◌, refl, sym, some, none, Bool, true, List, [], ◌∷◌, ◌++◌, map, ==_iff, ◌⊎◌, inl, inr,
  arith,
}
use retrodesk.Wm.Window.{Window}
use retrodesk.Wm.State.{modify, raise, topmost, find, find_window, WindowId}
use retrodesk.Wm.Collection.{has}

module _ (p : Window → Bool) where
  pub has-append :
      (i : ℕ) (ws : List Window) (w : Window) → has p i (ws ++ w ∷ []) ≡ has p i (w ∷ ws)
  has-append i [] w = refl
  has-append i (v ∷ ws) w = ground (arith, has-append i ws w)

  -- The z-order does not matter to `has`.
  pub has-raise : (i j : ℕ) (ws : List Window) → has p i (raise j ws) ≡ has p i ws
  unfolding raise
  has-raise i j [] = refl
  has-raise i j (w ∷ ws) = ground (arith, has-raise i j ws, has-append i ws w)

  pub find-has :
      (i : ℕ) (ws : List Window) (w : Window) → find i ws ≡ some w → p w ≡ true → has p i ws ≡ true
  unfolding find
  find-has i [] w e h = cc
  find-has i (v ∷ ws) w e h = ground (arith, find-has i ws w)

  pub has-topmost :
      (ws : List Window) (w : Window)
      → topmost p ws ≡ some w
      → (has p w.id ws ≡ true) × (p w ≡ true)
  unfolding topmost
  has-topmost [] w e = cc
  has-topmost (v ∷ ws) w e = elim (topmost-cases ws) [
    | inl none_above ↦ ground (arith, ==_iff v.id w.id)
    | inr (u, above) ↦ ground (arith, has-topmost ws u above)
  ]
    where
      topmost-cases :
          (vs : List Window) → (topmost p vs ≡ none) ⊎ ((u : Window) × (topmost p vs ≡ some u))
      topmost-cases vs = elim (topmost p vs) as (λ o. (o ≡ none) ⊎ ((u : Window) × (o ≡ some u))) [
        | none ↦ inl refl
        | some u ↦ inr (u, refl)
      ]

  module _ (f : Window → Window) (same : (w : Window) → (f w).id ≡ w.id) where
    pub has-map :
        ((w : Window) → p w ≡ true → p (f w) ≡ true)
        → (i : ℕ) (ws : List Window) → has p i ws ≡ true
        → has p i (map f ws) ≡ true
    has-map keep i [] h = h
    has-map keep i (w ∷ ws) h = ground (arith, same w, keep w, has-map keep i ws)

    pub has-modify :
        ((w : Window) → p w ≡ true → p (f w) ≡ true)
        → (i j : ℕ) (ws : List Window) → has p i ws ≡ true
        → has p i (modify j f ws) ≡ true
    unfolding modify
    has-modify keep i j [] h = h
    has-modify keep i j (w ∷ ws) h = ground (arith, same w, keep w, has-modify keep i j ws)

    -- The window that is changed is the one that `find` finds.
    pub has-modify_self :
        (i : ℕ) (ws : List Window) (w : Window)
        → find i ws ≡ some w
        → p (f w) ≡ true
        → has p i (modify i f ws) ≡ true
    unfolding modify find
    has-modify_self i [] w e h = cc
    has-modify_self i (v ∷ ws) w e h = ground (arith, same v, has-modify_self i ws w)

    pub has-modify_ne : (i j : ℕ) (ws : List Window) → i ≢ j → has p i (modify j f ws) ≡ has p i ws
    unfolding modify
    has-modify_ne i j [] ne = refl
    has-modify_ne i j (w ∷ ws) ne =
        ground (arith, same w, ==_iff w.id i, ==_iff w.id j, has-modify_ne i j ws ne)

-- `find` gives a window with the id that was asked for.
pub find-id : (i : ℕ) (ws : List Window) (w : Window) → find i ws ≡ some w → w.id ≡ i
unfolding find
find-id i [] w e = cc
find-id i (v ∷ ws) w e = ground (arith, ==_iff v.id i, find-id i ws w)

-- What `wm_find_window` returns is found under its own id.
pub find_window-find :
    (id : WindowId) (ws : List Window) (w : Window)
    → find_window id ws ≡ some w
    → find w.id ws ≡ some w
unfolding find_window
find_window-find none ws w e = cc
find_window-find (some i) ws w e = subst (λ k. find k ws ≡ some w) (sym (find-id i ws w e)) e

pub find_window-id :
    (id : WindowId) (ws : List Window) (w : Window) → find_window id ws ≡ some w → id ≡ some w.id
unfolding find_window
find_window-id none ws w e = cc
find_window-id (some i) ws w e = rw (find-id i ws w e)
