-- ===== src/Tab/Render.antt =====
-- `tab_width` and `tab_render` of ui/tab.c, the latter as the arguments of its calls of
-- `draw_list_text`, all of which succeed.
use Prim.Native.Nat.{min}
use retrodesk.Prelude.{
  ℕ, zero, suc, ◌+◌, ◌-◌, Bool, false, ◌&&◌, List, [], ◌∷◌, ◌++◌, ◌==◌, leb, if◌then◌else◌, get_or,
}
use retrodesk.Tab.Widget.{TabEntry, Tab, gap}

-- The sum of the widths and the gaps of tabs.
unfoldable pub total_width : List TabEntry → ℕ
total_width [] = 0
total_width (e ∷ es) = e.width + gap es + total_width es

unfoldable pub width : Tab → ℕ
unfolding total_width
width t = total_width t.entries

-- The byte at a position of a tab that is `w` columns wide.
unfoldable pub segment_byte : ℕ → TabEntry → ℕ → ℕ
segment_byte w e zero = 0x5B
segment_byte w e (suc zero) = 0x20
segment_byte w e (suc (suc at)) =
    if (suc (suc at) + 1 == w) && (w == e.width) then 0x5D else get_or e.label at 0x20

unfoldable pub chunk : ℕ → TabEntry → ℕ → ℕ → List ℕ
unfolding segment_byte
chunk w e offset zero = []
chunk w e offset (suc n) = segment_byte w e offset ∷ chunk w e (suc offset) n

-- One call of `draw_list_text`, in the style of the active tab or in the normal one.
pub record Draw : Type 0 where
  pub x : ℕ
  pub text : List ℕ
  pub highlighted : Bool

-- The loop of `tab_render_segment`: chunks of at most 255 bytes, one for each round of which
-- `w` are enough.
unfoldable pub segment_draws : ℕ → Bool → ℕ → TabEntry → ℕ → ℕ → List Draw
unfolding chunk
segment_draws zero lit w e x offset = []
segment_draws (suc fuel) lit w e x offset =
    let len = min (w - offset) 255 in
    let later = segment_draws fuel lit w e x (offset + len) in
    if leb w offset
    then []
    else record { x = x + offset; text = chunk w e offset len; highlighted = lit } ∷ later

-- The gap behind a tab, where there is room for it.
unfoldable pub gap_width : ℕ → ℕ → List TabEntry → ℕ
gap_width used max_width [] = 0
gap_width used max_width (e ∷ es) = if leb (used + 1) max_width then 1 else 0

unfoldable pub gap_draws : ℕ → ℕ → List Draw
gap_draws x zero = []
gap_draws x (suc n) = record { x = x; text = 0x20 ∷ []; highlighted = false } ∷ []

-- The loop of `tab_render`: the calls and the columns that are used, from tab `i` on. The column of
-- a call counts from the first one of the tabs.
unfoldable pub render_from : Bool → ℕ → ℕ → ℕ → ℕ → List TabEntry → List Draw × ℕ
unfolding segment_draws gap_width gap_draws
render_from styled active max_width used i [] = ([], used)
render_from styled active max_width used i (e ∷ es) =
    let w = min e.width (max_width - used) in
    let g = gap_width (used + w) max_width es in
    let later = render_from styled active max_width (used + w + g) (suc i) es in
    if w == 0 then ([], used) else (
      segment_draws w ((i == active) && styled) w e used 0 ++ (gap_draws (used + w) g ++ later.0),
      later.1,
    )

unfoldable pub render : Bool → ℕ → Tab → List Draw × ℕ
unfolding render_from
render styled max_width t = render_from styled t.active max_width 0 0 t.entries
