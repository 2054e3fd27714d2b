-- ===== src/Tab/Hit.antt =====
-- What sessions, clicks and the rendering of ui/tab.c do with the layout.
use Prim.Native.Nat.{min}
use retrodesk.Prelude.{
  ℕ, zero, suc, ◌+◌, ◌-◌, ◌%◌, ◌≤◌, ◌<◌, ◌≡◌, refl, ◌∙◌, ap, some, Bool, true, false, not, ◌&&◌,
  ◌||◌, List, [], ◌∷◌, ◌==◌, ltb, leb, Option-cases, inl, inr, arith, if◌then◌else◌, if_either,
  length, get_elem?, Option, none, Bool-cases,
}
use retrodesk.Prelude.Int.{ℤ, pos, ◌+ℤ◌, ◌-ℤ◌, ◌<ℤ◌, ltb_ℤ, eqb_ℤ, +ℤ_parts, -ℤ_parts, eq_of_parts}
use retrodesk.Event.{KeyEvent, MouseEvent}
use retrodesk.Keys.{key_left, key_right, key_home, key_end}
use retrodesk.Tab.Widget.{
  TabEntry, Tab, create, gap, count, fire_change, switch, set_active, set_change_callback,
  handle_key, tab_at, column, switch_to, handle_mouse,
}
use retrodesk.Tab.Render.{Draw, total_width, width, gap_width, render_from, render}
use retrodesk.Tab.Layout.{
  LaidOut, IsValid, Request, perform, adds, activates, listens, keys, mice, add-IsValid,
  switch-IsValid,
}

set_active-IsValid : (i : ℕ) (t : Tab) → IsValid t → IsValid (set_active i t)
unfolding set_active
set_active-IsValid i t v =
    if_either IsValid (count t == 0) (λ _. v)
      (λ some_tab. switch-IsValid (if leb (count t) i then count t - 1 else i) t (ground arith) v)

handle_key-IsValid : (k : KeyEvent) (t : Tab) → IsValid t → IsValid (handle_key k t).0
unfolding handle_key
handle_key-IsValid k t v =
    if_either P (count t == 0) (λ _. v)
      (λ n.
        if_either P (k.is_printable && leb 0x31 k.ascii && leb k.ascii 0x39)
          (λ _.
            if_either P (ltb (k.ascii - 0x31) (count t))
              (λ h. switch-IsValid (k.ascii - 0x31) t (ground arith) v) (λ _. v))
          (λ _.
            if_either P (eqb_ℤ k.key_code key_left)
              (λ _.
                switch-IsValid (if t.active == 0 then count t - 1 else t.active - 1) t
                  (ground (arith, v.inside)) v)
              (λ _.
                if_either P (eqb_ℤ k.key_code key_right)
                  (λ _. switch-IsValid ((t.active + 1) % count t) t (ground arith) v)
                  (λ _.
                    if_either P (eqb_ℤ k.key_code key_home) (λ _. set_active-IsValid 0 t v)
                      (λ _.
                        if_either P (eqb_ℤ k.key_code key_end)
                          (λ _. set_active-IsValid (count t - 1) t v) (λ _. v))))))
  where
    P : Tab × Bool → Type 0
    P r = IsValid r.0

tab_at-lt :
    (rel cursor i j : ℕ) (es : List TabEntry) → tab_at rel cursor i es ≡ some j → j < i + length es
unfolding tab_at
tab_at-lt rel cursor i j [] h = cc
tab_at-lt rel cursor i j (e ∷ es) h =
    ground (arith, tab_at-lt rel (cursor + e.width + gap es) (suc i) j es)

handle_mouse-IsValid :
    (m : MouseEvent) (y x w : ℤ) (t : Tab) → IsValid t → IsValid (handle_mouse m y x w t).0
unfolding handle_mouse switch_to
handle_mouse-IsValid m y x w t v =
    let rel = m.x -ℤ x in
    if_either (λ (r : Tab × Bool). IsValid r.0)
      (count t == 0
        || not (ltb_ℤ (pos 0) w)
        || not (eqb_ℤ m.y y)
        || ltb_ℤ rel (pos 0)
        || not (ltb_ℤ rel w)
        || not m.button1_clicked)
      (λ _. v)
      (λ _. elim (Option-cases (tab_at (column rel) 0 0 t.entries)) [
        | inl e ↦ rw e v
        | inr (i, e) ↦
            rw e (switch-IsValid i t (omega (arith, tab_at-lt (column rel) 0 0 i t.entries e)) v)
      ])

perform-IsValid : (r : Request) (t : Tab) → IsValid t → IsValid (perform r t)
unfolding perform set_change_callback
perform-IsValid (adds granted copied label) t v = add-IsValid granted copied label t v
perform-IsValid (activates i) t v = set_active-IsValid i t v
perform-IsValid (listens callback) t v = record {
  laid_out = v.laid_out;
  room = v.room;
  empty = v.empty;
  inside = v.inside;
}
perform-IsValid (keys k) t v = handle_key-IsValid k t v
perform-IsValid (mice m y x w) t v = handle_mouse-IsValid m y x w t v

unfoldable pub run_all : List Request → Tab → Tab
unfolding perform
run_all [] t = t
run_all (r ∷ rs) t = run_all rs (perform r t)

run_all-IsValid : (rs : List Request) (t : Tab) → IsValid t → IsValid (run_all rs t)
unfolding run_all
run_all-IsValid [] t v = v
run_all-IsValid (r ∷ rs) t v = run_all-IsValid rs (perform r t) (perform-IsValid r t v)

-- From a new widget, any calls, with allocations that succeed or fail, lead to one that has memory
-- for its tabs, whose tabs lie side by side with one column between them, and whose active tab is
-- one of them, unless there are none.
pub run_all-create-IsValid : (rs : List Request) → IsValid (run_all rs create)
unfolding create
run_all-create-IsValid rs = run_all-IsValid rs create (record {
  laid_out = tt;
  room = omega arith;
  empty = λ _. refl;
  inside = λ h. omega (arith, h);
})

tab_at-entry :
    (rel x i k : ℕ) (es : List TabEntry) (e : TabEntry)
    → LaidOut x es
    → get_elem? es k ≡ some e
    → e.x_offset ≤ rel
    → rel < e.x_offset + e.width
    → (x ≤ e.x_offset) × (tab_at rel x i es ≡ some (i + k))
unfolding tab_at
tab_at-entry rel x i k [] e l g lo hi = absurd (cc g)
tab_at-entry rel x i zero (f ∷ es) e l g lo hi = (ground (arith, l), ground (arith, l))
tab_at-entry rel x i (suc k) (f ∷ es) e l g lo hi =
    let (below, found) = tab_at-entry rel (x + f.width + gap es) (suc i) k es e l.2 g lo hi in
    (omega (arith, below), ground (arith, below, found))

get_elem?-some :
    (k : ℕ) (es : List TabEntry) (e : TabEntry) → get_elem? es k ≡ some e → 0 < length es
get_elem?-some k [] e h = absurd (cc h)
get_elem?-some k (f ∷ es) e h = omega arith

-- The log of the calls after a change, where there is a callback.
abbrev pub told : Option ℕ → ℕ × ℕ → List (ℕ × ℕ) → List (ℕ × ℕ)
told none change calls = calls
told (some callback) change calls = change ∷ calls

-- Tab `k` is the active one, a change is told to the callback once, with the tab before and the new
-- one, and all else is as it was.
pub record IsActivated (k : ℕ) (t u : Tab) : Type 0 where
  pub active : u.active ≡ k
  pub calls : u.calls ≡ (if t.active == k then t.calls else told t.on_change (t.active, k) t.calls)
  pub entries : u.entries ≡ t.entries
  pub capacity : u.capacity ≡ t.capacity
  pub on_change : u.on_change ≡ t.on_change

told-switch :
    (change : ℕ × ℕ) (on_change : Option ℕ) (t : Tab)
    → t.on_change ≡ on_change
    → (fire_change change.0 change.1 t).calls
      ≡ (if change.0 == change.1 then t.calls else told on_change change t.calls)
unfolding fire_change
told-switch change on_change t e = elim (Bool-cases (change.0 == change.1)) [
  | inl same ↦ rw same refl
  | inr other ↦ rw (other, e) (told-eq on_change)
]
  where
    told-eq :
        (o : Option ℕ)
        → (elim o as (λ o. Tab) [
          | none ↦ t
          | some cb ↦ record t { calls = change ∷ t.calls }
        ]).calls
          ≡ told o change t.calls
    told-eq none = refl
    told-eq (some cb) = refl

switch-IsActivated : (k : ℕ) (t : Tab) → IsActivated k t (switch k t)
unfolding switch fire_change
switch-IsActivated k t = record {
  active = ground arith;
  calls = told-switch (t.active, k) t.on_change (record t { active = k }) refl;
  entries = ground arith;
  capacity = ground arith;
  on_change = ground arith;
}

-- Where the tabs lie side by side, a click on a column of a tab, which is in the visible part of the
-- row, is consumed and makes this tab the active one: a change is told to the callback, if there is
-- one, exactly once, and the tabs stay as they are.
pub handle_mouse-entry :
    (m : MouseEvent) (y x w : ℤ) (t : Tab) (k col : ℕ) (e : TabEntry)
    → IsValid t
    → get_elem? t.entries k ≡ some e
    → e.x_offset ≤ col
    → col < e.x_offset + e.width
    → pos col <ℤ w
    → m.y ≡ y
    → m.x ≡ x +ℤ pos col
    → m.button1_clicked ≡ true
    → ((handle_mouse m y x w t).1 ≡ true) × IsActivated k t (handle_mouse m y x w t).0
unfolding handle_mouse switch_to
handle_mouse-entry m y x w t k col e v g lo hi vis at_y at_x click =
    let rel : m.x -ℤ x ≡ pos col =
      eq_of_parts (m.x -ℤ x) (pos col)
        (ground (arith, at_x, +ℤ_parts x (pos col), -ℤ_parts m.x x)) in
    let (_, found) = tab_at-entry col 0 0 k t.entries e v.laid_out g lo hi in
    let some_tab : (count t == 0) ≡ false = ground (arith, get_elem?-some k t.entries e g) in
    let wide : ltb_ℤ (pos 0) w ≡ true = ground arith in
    let same_row : eqb_ℤ y y ≡ true = ground arith in
    let visible : ltb_ℤ (pos col) w ≡ true = ground arith in
    let not_left : ltb_ℤ (pos col) (pos 0) ≡ false = ground arith in
    let here : tab_at col 0 0 t.entries ≡ some k = found ∙ ap some (omega arith) in
    rw (some_tab, at_y, rel, click, wide, same_row, visible, not_left)
      (rw here (refl, switch-IsActivated k t))

gap_width-min :
    (used max_width : ℕ) (es : List TabEntry)
    → used ≤ max_width
    → gap_width used max_width es ≡ min (gap es) (max_width - used)
unfolding gap_width
gap_width-min used max_width [] h = omega arith
gap_width-min used max_width (e ∷ es) h = ground arith

render_from-used :
    (styled : Bool) (active max_width used i x : ℕ) (es : List TabEntry)
    → LaidOut x es
    → used ≤ max_width
    → (render_from styled active max_width used i es).1 ≡ min max_width (used + total_width es)
unfolding render_from total_width gap_width
render_from-used styled active max_width used i x [] l h = omega arith
render_from-used styled active max_width used i x (e ∷ es) l h =
    if_either
      (λ (r : List Draw × ℕ). r.1 ≡ min max_width (used + (e.width + gap es + total_width es)))
      (min e.width (max_width - used) == 0) (λ full. ground (arith, l.1))
      (λ _.
        let w = min e.width (max_width - used) in
        let g = gap_width-min (used + w) max_width es (omega arith) in
        render_from-used styled active max_width (used + w + gap_width (used + w) max_width es)
          (suc i) (x + e.width + gap es) es l.2 (omega (arith, g))
        ∙ omega (arith, g))

-- Where the tabs lie side by side, `tab_render` uses the width of all the tabs, cut to what it is
-- given.
pub render-width :
    (styled : Bool) (max_width : ℕ) (t : Tab)
    → IsValid t
    → (render styled max_width t).1 ≡ min max_width (width t)
unfolding render width
render-width styled max_width t v =
    render_from-used styled t.active max_width 0 0 0 t.entries v.laid_out (omega arith)
    ∙ ap (min max_width) (omega arith)
