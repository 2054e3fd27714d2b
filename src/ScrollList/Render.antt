-- ===== src/ScrollList/Render.antt =====
-- `scroll_list_render` of ui/scroll_list.c, as the arguments of its calls of `draw_list_text`.
use Prim.Native.Nat.{min}
use retrodesk.Prelude.{
  ℕ, zero, suc, ◌+◌, ◌-◌, Bool, ◌&&◌, ◌||◌, not, List, [], ◌∷◌, ◌++◌, ◌==◌, ltb, leb, if◌then◌else◌,
  length, take, replicate,
}
use retrodesk.Prelude.Int.{ℤ, pos, ◌+ℤ◌, ltb_ℤ}
use retrodesk.ScrollList.Widget.{ScrollList, count, item, text_of, size, Area}

-- The offset that keeps the selection visible in `vh` rows.
unfoldable pub effective_scroll : ℕ → ScrollList → ℕ
effective_scroll vh l =
    let scroll = if ltb l.selected l.scroll_offset then l.selected else l.scroll_offset in
    if count l == 0
    then l.scroll_offset
    else if leb (scroll + vh) l.selected
    then l.selected - vh + 1
    else scroll

-- A text cut or padded with spaces to the width, or to 255 bytes.
unfoldable pub padded : ℕ → List ℕ → List ℕ
padded vw text =
    let kept = min 255 (min vw (length text)) in
    take kept text ++ replicate (min 255 vw - kept) 0x20

-- One call of `draw_list_text`; `highlighted` where the style is that of the selection.
pub record Draw : Type 0 where
  pub y : ℤ
  pub x : ℤ
  pub text : List ℕ
  pub highlighted : Bool

unfoldable pub draw_row : Bool → Area → ℕ → ScrollList → ℕ → Draw
unfolding padded item
draw_row styled a scroll l row = record {
  y = a.y +ℤ pos row;
  x = a.x;
  text = padded (size a.width) (text_of (item l (scroll + row)));
  highlighted = ltb (scroll + row) (count l) && (scroll + row == l.selected) && styled;
}

-- The loop over the rows.
unfoldable pub draw_rows : Bool → Area → ℕ → ScrollList → ℕ → ℕ → List Draw
unfolding draw_row
draw_rows styled a scroll l row zero = []
draw_rows styled a scroll l row (suc left) =
    draw_row styled a scroll l row ∷ draw_rows styled a scroll l (suc row) left

-- `styled` says whether the caller gives a style for the selection.
unfoldable pub render : Bool → Area → ScrollList → List Draw
unfolding effective_scroll draw_rows
render styled a l =
    if not (ltb_ℤ (pos 0) a.height) || not (ltb_ℤ (pos 0) a.width)
    then []
    else draw_rows styled a (effective_scroll (size a.height) l) l 0 (size a.height)
