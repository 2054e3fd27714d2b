-- ===== src/Tab/Widget.antt =====
-- The state and the operations of ui/tab.c, but the rendering.
use retrodesk.Prelude.{
  ℕ, suc, ◌+◌, ◌-◌, ◌%◌, Option, none, some, Bool, true, false, ◌&&◌, ◌||◌, not, List, [], ◌∷◌,
  ◌++◌, ◌==◌, ltb, leb, if◌then◌else◌, length, get_elem?,
}
use retrodesk.Prelude.Int.{ℤ, pos, negsuc, ◌-ℤ◌, ltb_ℤ, eqb_ℤ}
use retrodesk.Event.{KeyEvent, MouseEvent}
use retrodesk.Growth.{reserve}
use retrodesk.Keys.{key_left, key_right, key_home, key_end}

-- A label is the list of its bytes.
pub record TabEntry : Type 0 where
  pub label : List ℕ
  pub x_offset : ℕ
  pub width : ℕ

-- `count` is the length of `entries`. `on_change` with its user data is a number, as a function
-- pointer is, and `calls` are the calls of it, the last one first.
pub record Tab : Type 0 where
  pub entries : List TabEntry
  pub capacity : ℕ
  pub active : ℕ
  pub on_change : Option ℕ
  pub calls : List (ℕ × ℕ)

unfoldable pub create : Tab
create = record { entries = []; capacity = 0; active = 0; on_change = none; calls = [] }

-- The column between two tabs; there is none behind the last one.
abbrev pub gap : List TabEntry → ℕ
gap [] = 0
gap (e ∷ es) = 1

-- `tab_recompute_layout` from column `x` on.
unfoldable pub layout : ℕ → List TabEntry → List TabEntry
layout x [] = []
layout x (e ∷ es) =
    record e { x_offset = x; width = length e.label + 3 }
    ∷ layout (x + (length e.label + 3) + gap es) es

-- `tab_fire_change`
unfoldable pub fire_change : ℕ → ℕ → Tab → Tab
fire_change old new t =
    if old == new
    then t
    else elim t.on_change [ none ↦ t | some cb ↦ record t { calls = (old, new) ∷ t.calls } ]

-- `tab_add`: the index of the new tab; `none` is `(size_t)-1`, and the label `none` is NULL.
unfoldable pub add : Bool → Bool → Option (List ℕ) → Tab → Tab × Option ℕ
unfolding reserve layout
add granted copied none t = (t, none)
add granted copied (some label) t = elim (reserve 4 granted (length t.entries + 1) t.capacity) [
  | none ↦ (t, none)
  | some cap ↦
      if copied
      then (
        record t {
          entries = layout 0 (t.entries ++ record { label = label; x_offset = 0; width = 0 } ∷ []);
          capacity = cap;
        },
        some (length t.entries),
      )
      else (record t { capacity = cap }, none)
]

abbrev pub count : Tab → ℕ
count t = length t.entries

abbrev pub label_of : Option TabEntry → List ℕ
label_of none = []
label_of (some e) = e.label

unfoldable pub label_at : Tab → ℕ → List ℕ
label_at t index = label_of (get_elem? t.entries index)

unfoldable pub active_index : Tab → Option ℕ
active_index t = if count t == 0 then none else some t.active

-- `size_t old = tab->active; tab->active = target; tab_fire_change(tab, old, target);`
unfoldable pub switch : ℕ → Tab → Tab
unfolding fire_change
switch target t = fire_change t.active target (record t { active = target })

unfoldable pub set_active : ℕ → Tab → Tab
unfolding switch
set_active index t =
    if count t == 0 then t else switch (if leb (count t) index then count t - 1 else index) t

unfoldable pub set_change_callback : Option ℕ → Tab → Tab
set_change_callback callback t = record t { on_change = callback }

unfoldable pub handle_key : KeyEvent → Tab → Tab × Bool
unfolding switch set_active
handle_key k t =
    if count t == 0
    then (t, false)
    else if k.is_printable && leb 0x31 k.ascii && leb k.ascii 0x39
    then (if ltb (k.ascii - 0x31) (count t) then (switch (k.ascii - 0x31) t, true) else (t, false))
    else if eqb_ℤ k.key_code key_left
    then (switch (if t.active == 0 then count t - 1 else t.active - 1) t, true)
    else if eqb_ℤ k.key_code key_right
    then (switch ((t.active + 1) % count t) t, true)
    else if eqb_ℤ k.key_code key_home
    then (set_active 0 t, true)
    else if eqb_ℤ k.key_code key_end
    then (set_active (count t - 1) t, true)
    else (t, false)

-- The loop of `tab_handle_mouse`: the tab at column `rel_x`, from tab `i` at column `cursor` on.
unfoldable pub tab_at : ℕ → ℕ → ℕ → List TabEntry → Option ℕ
tab_at rel_x cursor i [] = none
tab_at rel_x cursor i (e ∷ es) =
    let next = cursor + e.width + gap es in
    let later = tab_at rel_x next (suc i) es in
    if leb cursor rel_x && ltb rel_x next then some i else later

-- A column that is not negative.
abbrev pub column : ℤ → ℕ
column (pos n) = n
column (negsuc n) = 0

unfoldable pub switch_to : Option ℕ → Tab → Tab × Bool
unfolding switch
switch_to none t = (t, false)
switch_to (some i) t = (switch i t, true)

unfoldable pub handle_mouse : MouseEvent → ℤ → ℤ → ℤ → Tab → Tab × Bool
unfolding tab_at switch_to
handle_mouse m tab_y tab_x tab_w t =
    let rel_x = m.x -ℤ tab_x in
    if count t == 0
      || not (ltb_ℤ (pos 0) tab_w)
      || not (eqb_ℤ m.y tab_y)
      || ltb_ℤ rel_x (pos 0)
      || not (ltb_ℤ rel_x tab_w)
      || not m.button1_clicked
    then (t, false)
    else switch_to (tab_at (column rel_x) 0 0 t.entries) t
