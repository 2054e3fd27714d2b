-- ===== src/Tab/Layout.antt =====
-- The invariant of ui/tab.c: the layout of the tabs, the active one and the calls of the callback.
use retrodesk.Prelude.{
  ◌⊎◌, ℕ, ◌+◌, ◌≤◌, ◌<◌, ◌≡◌, refl, Option, none, some, Bool, List, [], ◌∷◌, ◌++◌, ◌==◌,
  Option-cases, inl, inr, arith, if_either, length, length-append,
}
use retrodesk.Prelude.Int.{ℤ}
use retrodesk.Event.{KeyEvent, MouseEvent}
use retrodesk.Growth.{reserve, reserve-le}
use retrodesk.Tab.Widget.{
  TabEntry, Tab, gap, layout, fire_change, add, count, switch, set_active, set_change_callback,
  handle_key, handle_mouse,
}

-- Every tab begins where the one before it, and the gap, end, and has room for its label.
abbrev pub LaidOut : ℕ → List TabEntry → Type 0
LaidOut x [] = Unit {0}
LaidOut x (e ∷ es) =
    (e.x_offset ≡ x) × (e.width ≡ length e.label + 3) × LaidOut (x + e.width + gap es) es

-- The active tab is one of the tabs, unless there are none.
pub record IsValid (t : Tab) : Type 0 where
  pub laid_out : LaidOut 0 t.entries
  pub room : count t ≤ t.capacity
  pub empty : count t ≡ 0 → t.active ≡ 0
  pub inside : 0 < count t → t.active < count t

-- The calls that change the tabs.
pub data Request : Type 0 where
  adds : Bool → Bool → Option (List ℕ) → Request
  activates : ℕ → Request
  listens : Option ℕ → Request
  keys : KeyEvent → Request
  mice : MouseEvent → ℤ → ℤ → ℤ → Request

unfoldable pub perform : Request → Tab → Tab
perform (adds granted copied label) t = (add granted copied label t).0
perform (activates i) t = set_active i t
perform (listens callback) t = set_change_callback callback t
perform (keys k) t = (handle_key k t).0
perform (mice m y x w) t = (handle_mouse m y x w t).0

layout-LaidOut : (x : ℕ) (es : List TabEntry) → LaidOut x (layout x es)
unfolding layout
layout-LaidOut x [] = tt
layout-LaidOut x (e ∷ []) = (refl, refl, tt)
layout-LaidOut x (e ∷ f ∷ es) = (refl, refl, layout-LaidOut (x + (length e.label + 3) + 1) (f ∷ es))

length-layout : (x : ℕ) (es : List TabEntry) → length (layout x es) ≡ length es
unfolding layout
length-layout x [] = refl
length-layout x (e ∷ es) = omega (arith, length-layout (x + (length e.label + 3) + gap es) es)

-- Making another of the tabs active, or the first one of none.
pub switch-IsValid : (i : ℕ) (t : Tab) → i < count t → IsValid t → IsValid (switch i t)
unfolding switch fire_change
switch-IsValid i t h v =
    if_either IsValid (t.active == i) (λ _. moved)
      (λ _. elim (Option-cases t.on_change) [ inl e ↦ rw e moved | inr (cb, e) ↦ rw e called ])
  where
    moved : IsValid (record t { active = i })
    moved = record {
      laid_out = v.laid_out;
      room = v.room;
      empty = λ z. omega (arith, z, h);
      inside = λ _. h;
    }

    called : IsValid (record t { active = i; calls = (t.active, i) ∷ t.calls })
    called = record {
      laid_out = v.laid_out;
      room = v.room;
      empty = λ z. omega (arith, z, h);
      inside = λ _. h;
    }

pub add-IsValid :
    (granted copied : Bool) (label : Option (List ℕ)) (t : Tab)
    → IsValid t
    → IsValid (add granted copied label t).0
unfolding add
add-IsValid granted copied none t v = v
add-IsValid granted copied (some label) t v =
    elim (Option-cases (reserve 4 granted (length t.entries + 1) t.capacity)) [
      | inl e ↦ rw (e, add) v
      | inr (cap, e) ↦
          let g = reserve-le 4 granted (length t.entries + 1) t.capacity cap (omega arith) e in
          let more = t.entries ++ record { label = label; x_offset = 0; width = 0 } ∷ [] in
          let n : length (layout 0 more) ≡ length t.entries + 1 = omega (
            arith,
            length-layout 0 more,
            length-append {0} t.entries (record { label = label; x_offset = 0; width = 0 } ∷ []),
          ) in
          rw (e, add)
            (if_either (λ (r : Tab × Option ℕ). IsValid r.0) copied
              (λ _. record {
                laid_out = layout-LaidOut 0 more;
                room = omega (arith, g, n);
                empty = λ z. omega (arith, z, n);
                inside = λ _. elim (zero_or t.entries) [
                  | inl z ↦ omega (arith, z, v.empty z, n)
                  | inr p ↦ omega (arith, v.inside p, n)
                ];
              })
              (λ _. record {
                laid_out = v.laid_out;
                room = omega (arith, g, v.room);
                empty = v.empty;
                inside = v.inside;
              }))
    ]
  where
    zero_or : (es : List TabEntry) → (length es ≡ 0) ⊎ (0 < length es)
    zero_or [] = inl refl
    zero_or (e ∷ es) = inr (omega arith)
