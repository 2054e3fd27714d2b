-- ===== src/Wm/Collection.antt =====
-- What the operations of wm/window_manager.c do to the list of windows.
use mathlib.Core.Path.{subst}
use retrodesk.Prelude.{
  ℕ, ◌+◌, ◌<◌, ◌≡◌, ◌≢◌, sym, some, Bool, false, ◌&&◌, ◌||◌, List, [], ◌∷◌, ◌++◌, map, ◌==◌,
  Bool-cases, inl, inr, All, All-append, All-imp, arith,
}
use retrodesk.Prelude.Int.{pos, ◌≤ℤ◌}
use retrodesk.Wm.Window.{Window}
use retrodesk.Wm.State.{modify, keep_open, raise, find}

-- The geometry that every window has, whatever happens to the terminal.
abbrev pub IsPlaced : Window → Type 0
IsPlaced w = (pos 0 ≤ℤ w.y) × (pos 0 ≤ℤ w.x) × (pos 4 ≤ℤ w.h) × (pos 8 ≤ℤ w.w)

-- No two windows have the same id.
abbrev pub Distinct : List Window → Type 0
Distinct [] = Unit
Distinct (w ∷ ws) = All (λ (v : Window). v.id ≢ w.id) ws × Distinct ws

pub record IsCollection (next : ℕ) (ws : List Window) : Type 0 where
  pub distinct : Distinct ws
  pub fresh : All (λ (w : Window). w.id < next) ws
  pub placed : All IsPlaced ws

-- Some window has the id and satisfies `p`.
abbrev pub has : (Window → Bool) → ℕ → List Window → Bool
has p i [] = false
has p i (w ∷ ws) = (w.id == i && p w) || has p i ws

module _ (P : Window → Type 0) where
  pub All-keep_open : (ws : List Window) → All P ws → All P (keep_open ws)
  unfolding keep_open
  All-keep_open [] h = tt
  All-keep_open (w ∷ ws) h = ground (arith, All-keep_open ws h.1)

  pub All-raise : (i : ℕ) (ws : List Window) → All P ws → All P (raise i ws)
  unfolding raise
  All-raise i [] h = tt
  All-raise i (w ∷ ws) h =
      ground (arith, All-raise i ws h.1, All-append P ws (w ∷ []) h.1 (h.0, tt))

  pub All-find : (i : ℕ) (ws : List Window) (w : Window) → find i ws ≡ some w → All P ws → P w
  unfolding find
  All-find i [] w e h = cc
  All-find i (v ∷ ws) w e h = elim (Bool-cases (v.id == i)) [
    | inl hit ↦ let same : v ≡ w = ground arith in subst P same h.0
    | inr miss ↦ All-find i ws w (ground arith) h.1
  ]

  -- Where only the window that is found is known to keep `P`.
  pub All-modify_found :
      (f : Window → Window) (i : ℕ) (ws : List Window) (w : Window)
      → find i ws ≡ some w
      → P (f w)
      → All P ws
      → All P (modify i f ws)
  unfolding modify find
  All-modify_found f i [] w e k h = tt
  All-modify_found f i (v ∷ ws) w e k h = elim (Bool-cases (v.id == i)) [
    | inl hit ↦
        let same : v ≡ w = ground arith in rw (hit, modify) (subst (λ u. P (f u)) (sym same) k, h.1)
    | inr miss ↦ rw (miss, modify) (h.0, All-modify_found f i ws w (ground arith) k h.1)
  ]

  module _ (f : Window → Window) (keep : (w : Window) → P w → P (f w)) where
    pub All-modify : (i : ℕ) (ws : List Window) → All P ws → All P (modify i f ws)
    unfolding modify
    All-modify i [] h = tt
    All-modify i (w ∷ ws) h = ground (arith, All-modify i ws h.1, keep w h.0)

    pub All-map : (ws : List Window) → All P ws → All P (map f ws)
    All-map [] h = tt
    All-map (w ∷ ws) h = (keep w h.0, All-map ws h.1)

pub Distinct-keep_open : (ws : List Window) → Distinct ws → Distinct (keep_open ws)
unfolding keep_open
Distinct-keep_open [] d = tt
Distinct-keep_open (w ∷ ws) d =
    ground (arith, Distinct-keep_open ws d.1, All-keep_open (λ v. v.id ≢ w.id) ws d.0)

-- A new window goes to the end.
pub Distinct-append :
    (ws : List Window) (w : Window)
    → Distinct ws
    → All (λ (v : Window). v.id ≢ w.id) ws
    → Distinct (ws ++ w ∷ [])
Distinct-append [] w d h = (tt, tt)
Distinct-append (v ∷ ws) w d h = (
  All-append (λ u. u.id ≢ v.id) ws (w ∷ []) d.0 ((λ e. h.0 (sym e)), tt),
  Distinct-append ws w d.1 h.1,
)

pub Distinct-raise : (i : ℕ) (ws : List Window) → Distinct ws → Distinct (raise i ws)
unfolding raise
Distinct-raise i [] d = tt
Distinct-raise i (w ∷ ws) d = ground (
  arith,
  Distinct-raise i ws d.1,
  All-raise (λ v. v.id ≢ w.id) i ws d.0,
  Distinct-append ws w d.1 d.0,
)

module _ (f : Window → Window) (same : (w : Window) → (f w).id ≡ w.id) where
  pub Distinct-modify : (i : ℕ) (ws : List Window) → Distinct ws → Distinct (modify i f ws)
  unfolding modify
  Distinct-modify i [] d = tt
  Distinct-modify i (w ∷ ws) d = elim (Bool-cases (w.id == i)) [
    | inl hit ↦ rw (hit, modify) (rw (same w) d.0, d.1)
    | inr miss ↦
        rw (miss, modify)
          (
            All-modify (λ v. v.id ≢ w.id) f (λ v h e. h (rw same at e)) i ws d.0,
            Distinct-modify i ws d.1,
          )
  ]

  pub Distinct-map : (ws : List Window) → Distinct ws → Distinct (map f ws)
  Distinct-map [] d = tt
  Distinct-map (w ∷ ws) d = (
    rw (same w) (All-map (λ v. v.id ≢ w.id) f (λ v h e. h (rw same at e)) ws d.0),
    Distinct-map ws d.1,
  )

-- A change of one window that keeps the ids, or of all.
pub IsCollection-modify :
    (f : Window → Window) (next i : ℕ) (ws : List Window)
    → ((w : Window) → (f w).id ≡ w.id)
    → ((w : Window) → IsPlaced w → IsPlaced (f w))
    → IsCollection next ws
    → IsCollection next (modify i f ws)
IsCollection-modify f next i ws same keep c = record {
  distinct = Distinct-modify f same i ws c.distinct;
  fresh = All-modify (λ w. w.id < next) f (λ w h. rw (same w) h) i ws c.fresh;
  placed = All-modify IsPlaced f keep i ws c.placed;
}

pub IsCollection-map :
    (f : Window → Window) (next : ℕ) (ws : List Window)
    → ((w : Window) → (f w).id ≡ w.id)
    → ((w : Window) → IsPlaced w → IsPlaced (f w))
    → IsCollection next ws
    → IsCollection next (map f ws)
IsCollection-map f next ws same keep c = record {
  distinct = Distinct-map f same ws c.distinct;
  fresh = All-map (λ w. w.id < next) f (λ w h. rw (same w) h) ws c.fresh;
  placed = All-map IsPlaced f keep ws c.placed;
}

pub IsCollection-keep_open :
    (next : ℕ) (ws : List Window) → IsCollection next ws → IsCollection next (keep_open ws)
IsCollection-keep_open next ws c = record {
  distinct = Distinct-keep_open ws c.distinct;
  fresh = All-keep_open (λ w. w.id < next) ws c.fresh;
  placed = All-keep_open IsPlaced ws c.placed;
}

pub IsCollection-raise :
    (next i : ℕ) (ws : List Window) → IsCollection next ws → IsCollection next (raise i ws)
IsCollection-raise next i ws c = record {
  distinct = Distinct-raise i ws c.distinct;
  fresh = All-raise (λ w. w.id < next) i ws c.fresh;
  placed = All-raise IsPlaced i ws c.placed;
}

-- A window with the next number comes on top.
pub IsCollection-append :
    (next : ℕ) (ws : List Window) (w : Window)
    → w.id ≡ next
    → IsPlaced w
    → IsCollection next ws
    → IsCollection (next + 1) (ws ++ w ∷ [])
IsCollection-append next ws w e p c = record {
  distinct =
      Distinct-append ws w c.distinct
        (All-imp (λ v. v.id < next) (λ v. v.id ≢ w.id) (λ v h q. omega arith) ws c.fresh);
  fresh =
      All-append (λ v. v.id < next + 1) ws (w ∷ [])
        (All-imp (λ v. v.id < next) (λ v. v.id < next + 1) (λ v h. omega arith) ws c.fresh)
        (omega arith, tt);
  placed = All-append IsPlaced ws (w ∷ []) c.placed (p, tt);
}

-- A number may be skipped.
pub IsCollection-suc :
    (next : ℕ) (ws : List Window) → IsCollection next ws → IsCollection (next + 1) ws
IsCollection-suc next ws c = record {
  distinct = c.distinct;
  fresh = All-imp (λ v. v.id < next) (λ v. v.id < next + 1) (λ v h. omega arith) ws c.fresh;
  placed = c.placed;
}
