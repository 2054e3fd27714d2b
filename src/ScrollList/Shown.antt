-- ===== src/ScrollList/Shown.antt =====
-- What `scroll_list_render` of ui/scroll_list.c shows of the selection, and what a click on it does.
use retrodesk.Prelude.{
  ℕ, zero, suc, ◌+◌, ◌-◌, ◌≤◌, ◌<◌, ◌≡◌, refl, ◌∙◌, ap, some, Bool, true, false, ◌&&◌, ◌||◌, arith,
  get_elem?, ltb, ◌==◌,
}
use retrodesk.Prelude.Int.{ℤ, pos, ◌+ℤ◌, ◌-ℤ◌, ◌≤ℤ◌, ◌<ℤ◌, ltb_ℤ, -ℤ_parts, +ℤ_parts}
use retrodesk.Event.{MouseEvent}
use retrodesk.ScrollList.Widget.{
  ScrollList, text_of, count, item, size, Area, is_inside, handle_mouse,
}
use retrodesk.ScrollList.Render.{effective_scroll, padded, Draw, draw_row, draw_rows, render}
use retrodesk.ScrollList.Selection.{IsValid}

effective_scroll-le :
    (vh : ℕ) (l : ScrollList)
    → IsValid l
    → 0 < count l
    → 0 < vh
    → (effective_scroll vh l ≤ l.selected) × (l.selected < effective_scroll vh l + vh)
unfolding effective_scroll
effective_scroll-le vh l v n h =
    (ground (arith, v.unscrolled), ground (arith, v.unscrolled, v.inside))

effective_scroll-zero :
    (vh : ℕ) (l : ScrollList) → IsValid l → l.selected < vh → effective_scroll vh l ≡ 0
unfolding effective_scroll
effective_scroll-zero vh l v h = ground (arith, v.unscrolled)

get_elem?-draw_rows :
    (styled : Bool) (a : Area) (scroll : ℕ) (l : ScrollList) (row left k : ℕ)
    → k < left
    → get_elem? (draw_rows styled a scroll l row left) k
      ≡ some (draw_row styled a scroll l (row + k))
unfolding draw_rows
get_elem?-draw_rows styled a scroll l row zero k h = absurd (omega (arith, h))
get_elem?-draw_rows styled a scroll l row (suc left) zero h =
    ap (λ r. some (draw_row styled a scroll l r)) (omega arith)
get_elem?-draw_rows styled a scroll l row (suc left) (suc k) h =
    get_elem?-draw_rows styled a scroll l (suc row) left k (omega (arith, h))
    ∙ ap (λ r. some (draw_row styled a scroll l r)) (omega arith)

size-pos : (n : ℤ) → 0 < size n → ltb_ℤ (pos 0) n ≡ true
size-pos n h = ground arith

get_elem?-render :
    (styled : Bool) (a : Area) (l : ScrollList) (row : ℕ)
    → row < size a.height
    → 0 < size a.width
    → get_elem? (render styled a l) row
      ≡ some (draw_row styled a (effective_scroll (size a.height) l) l row)
unfolding render
get_elem?-render styled a l row h w =
    rw (size-pos a.height (omega (arith, h)), size-pos a.width w)
      (get_elem?-draw_rows styled a (effective_scroll (size a.height) l) l 0 (size a.height) row h
        ∙ ap (λ r. some (draw_row styled a (effective_scroll (size a.height) l) l r)) (omega arith))

-- The line that shows an item.
abbrev pub line_of : Area → ℕ → ScrollList → ℕ → Bool → Draw
line_of a row l i highlighted = record {
  y = a.y +ℤ pos row;
  x = a.x;
  text = padded (size a.width) (text_of (item l i));
  highlighted = highlighted;
}

-- In a valid list that is not empty, in an area that is not empty, the selected item is on one of
-- the lines, and this line is highlighted.
pub render-selected :
    (a : Area) (l : ScrollList)
    → IsValid l
    → 0 < count l
    → 0 < size a.height
    → 0 < size a.width
    → (row : ℕ) × (row < size a.height)
      × (get_elem? (render true a l) row ≡ some (line_of a row l l.selected true))
render-selected a l v n h w =
    let s = effective_scroll-le (size a.height) l v n h in
    let scroll = effective_scroll (size a.height) l in
    let row = l.selected - scroll in
    let at : scroll + row ≡ l.selected = omega (arith, s) in
    let lit : (ltb (scroll + row) (count l) && (scroll + row == l.selected) && true) ≡ true =
      ground (arith, at, v.inside n) in
    (
      row,
      omega (arith, s),
      get_elem?-render true a l row (omega (arith, s)) w
          ∙ (unfold draw_row in rw lit (ap (λ i. some (line_of a row l i true)) at)),
    )

-- A click on a line, at a point of the area.
pub record IsClick (m : MouseEvent) (a : Area) (row : ℕ) : Type 0 where
  pub line : m.y ≡ a.y +ℤ pos row
  pub left : a.x ≤ℤ m.x
  pub right : m.x <ℤ a.x +ℤ a.width
  pub button : (m.button1_clicked || m.button1_pressed) ≡ true
  pub no_wheel : (m.scroll_up ≡ false) × (m.scroll_down ≡ false)

IsClick-wide : {m : MouseEvent} {a : Area} {row : ℕ} → IsClick m a row → 0 < size a.width
IsClick-wide {m} {a} c = ground (arith, c.left, c.right, +ℤ_parts a.x a.width)

IsClick-inside :
    {m : MouseEvent} {a : Area} {row : ℕ}
    → IsClick m a row
    → row < size a.height
    → (is_inside a (m.y -ℤ a.y) (m.x -ℤ a.x) ≡ true) × (size (m.y -ℤ a.y) ≡ row)
IsClick-inside {m} {a} {row} c h =
    let y = -ℤ_parts m.y a.y in
    let x = -ℤ_parts m.x a.x in
    let e = +ℤ_parts a.y (pos row) in
    let w = +ℤ_parts a.x a.width in
    (ground (arith, c.line, c.left, c.right, y, x, e, w), ground (arith, c.line, y, e))

handle_mouse-click :
    (m : MouseEvent) (a : Area) (l : ScrollList) (row : ℕ)
    → IsValid l
    → IsClick m a row
    → row < size a.height
    → row < count l
    → handle_mouse m a l ≡ (record l { selected = row }, true)
unfolding handle_mouse
handle_mouse-click m a l row v c h n =
    let i = IsClick-inside c h in
    rw
      (
        size-pos a.height (omega (arith, h)),
        size-pos a.width (IsClick-wide c),
        c.no_wheel.0,
        c.no_wheel.1,
        c.button,
        i.0,
        i.1,
        v.unscrolled,
      )
      (ground (arith, n))

-- As long as the selection is on the first page, a click on a line of the area that shows an item
-- selects the item that the line shows.
pub handle_mouse-shown :
    (m : MouseEvent) (a : Area) (l : ScrollList) (row : ℕ)
    → IsValid l
    → l.selected < size a.height
    → IsClick m a row
    → row < size a.height
    → row < count l
    → ((handle_mouse m a l).1 ≡ true)
      × (get_elem? (render false a l) row
          ≡ some (line_of a row l (handle_mouse m a l).0.selected false))
handle_mouse-shown m a l row v first c h n =
    let dark : (ltb (0 + row) (count l) && (0 + row == l.selected) && false) ≡ false =
      ground arith in
    rw (handle_mouse-click m a l row v c h n) (
      refl,
      get_elem?-render false a l row h (IsClick-wide c)
          ∙ (unfold draw_row in
              rw (effective_scroll-zero (size a.height) l v first)
                (rw dark (ap (λ i. some (line_of a row l i false)) (omega arith)))),
    )
