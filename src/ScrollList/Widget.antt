-- ===== src/ScrollList/Widget.antt =====
-- The state and the operations of ui/scroll_list.c, but the rendering.
use retrodesk.Prelude.{
  ℕ, ◌+◌, ◌-◌, Option, none, some, Bool, true, false, ◌&&◌, ◌||◌, not, List, [], ◌∷◌, ◌++◌, map,
  ◌==◌, ltb, leb, if◌then◌else◌, length, get_elem?,
}
use retrodesk.Prelude.Int.{ℤ, pos, negsuc, ◌-ℤ◌, ltb_ℤ, eqb_ℤ}
use retrodesk.Event.{KeyEvent, MouseEvent}
use retrodesk.Growth.{reserve}
use retrodesk.Keys.{
  key_ctrl_n, key_ctrl_p, key_up, key_down, key_home, key_end, key_ppage, key_npage,
}

-- A string is the list of its bytes; `count` is the length of `items`.
pub record ScrollList : Type 0 where
  pub items : List (List ℕ)
  pub capacity : ℕ
  pub selected : ℕ
  pub scroll_offset : ℕ

unfoldable pub create : ScrollList
create = record { items = []; capacity = 0; selected = 0; scroll_offset = 0 }

-- `item ? item : ""`
abbrev pub text_of : Option (List ℕ) → List ℕ
text_of none = []
text_of (some t) = t

unfoldable pub clear : ScrollList → ScrollList
clear l = record l { items = []; selected = 0; scroll_offset = 0 }

-- `scroll_list_set_items`; `granted` says whether `realloc` succeeds and `copied` whether all the
-- copies do. `items` is NULL or an array of strings that may be NULL.
unfoldable pub set_items :
    Bool → Bool → Option (List (Option (List ℕ))) → ScrollList → ScrollList × Bool
unfolding clear reserve
set_items granted copied none l = (clear l, true)
set_items granted copied (some []) l = (clear l, true)
set_items granted copied (some (i ∷ is)) l =
    elim (reserve 16 granted (length (i ∷ is)) l.capacity) [
      | none ↦ (record l { items = [] }, false)
      | some cap ↦
          if copied
          then (
            record {
              items = map text_of (i ∷ is);
              capacity = cap;
              selected = 0;
              scroll_offset = 0;
            },
            true,
          )
          else (record l { items = []; capacity = cap }, false)
    ]

unfoldable pub append : Bool → Bool → Option (List ℕ) → ScrollList → ScrollList × Bool
unfolding reserve
append granted copied item l = elim (reserve 16 granted (length l.items + 1) l.capacity) [
  | none ↦ (l, false)
  | some cap ↦
      if copied
      then (record l { items = l.items ++ text_of item ∷ []; capacity = cap }, true)
      else (record l { capacity = cap }, false)
]

abbrev pub count : ScrollList → ℕ
count l = length l.items

unfoldable pub item : ScrollList → ℕ → Option (List ℕ)
item l index = get_elem? l.items index

unfoldable pub select : ℕ → ScrollList → ScrollList
select index l =
    if count l == 0
    then l
    else record l { selected = if leb (count l) index then count l - 1 else index }

abbrev pub up : ScrollList → ScrollList
up l = record l { selected = if ltb 0 l.selected then l.selected - 1 else l.selected }

abbrev pub down : ScrollList → ScrollList
down l = record l { selected = if ltb l.selected (count l - 1) then l.selected + 1 else l.selected }

abbrev pub page_up : ScrollList → ScrollList
page_up l = record l { selected = if leb 10 l.selected then l.selected - 10 else 0 }

abbrev pub page_down : ScrollList → ScrollList
page_down l = record l {
  selected = if leb (count l) (l.selected + 10) then count l - 1 else l.selected + 10;
}

unfoldable pub handle_key : KeyEvent → ScrollList → ScrollList × Bool
handle_key k l =
    if count l == 0
    then (l, false)
    else if eqb_ℤ k.key_code key_up
    then (up l, true)
    else if eqb_ℤ k.key_code key_down
    then (down l, true)
    else if eqb_ℤ k.key_code key_home
    then (record l { selected = 0 }, true)
    else if eqb_ℤ k.key_code key_end
    then (record l { selected = count l - 1 }, true)
    else if eqb_ℤ k.key_code key_ppage
    then (page_up l, true)
    else if eqb_ℤ k.key_code key_npage
    then (page_down l, true)
    else if eqb_ℤ k.key_code key_ctrl_n
    then (down l, true)
    else if eqb_ℤ k.key_code key_ctrl_p
    then (up l, true)
    else (l, false)

-- A size that an `int` gives: none where it is negative.
abbrev pub size : ℤ → ℕ
size (pos n) = n
size (negsuc n) = 0

-- The place and the visible size of the widget.
pub record Area : Type 0 where
  pub y : ℤ
  pub x : ℤ
  pub height : ℤ
  pub width : ℤ

-- The test that a point is in the area, given its offsets from the corner.
abbrev pub is_inside : Area → ℤ → ℤ → Bool
is_inside a rel_y rel_x =
    not (ltb_ℤ rel_y (pos 0))
    && ltb_ℤ rel_y a.height
    && not (ltb_ℤ rel_x (pos 0))
    && ltb_ℤ rel_x a.width

unfoldable pub handle_mouse : MouseEvent → Area → ScrollList → ScrollList × Bool
handle_mouse m a l =
    let rel_y = m.y -ℤ a.y in
    let clicked = l.scroll_offset + size rel_y in
    if count l == 0 || not (ltb_ℤ (pos 0) a.height) || not (ltb_ℤ (pos 0) a.width)
    then (l, false)
    else if m.scroll_up
    then (up l, true)
    else if m.scroll_down
    then (down l, true)
    else if (m.button1_clicked || m.button1_pressed)
        && is_inside a rel_y (m.x -ℤ a.x)
        && ltb clicked (count l)
    then (record l { selected = clicked }, true)
    else (l, false)
