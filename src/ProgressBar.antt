-- ===== src/ProgressBar.antt =====
-- ui/progress_bar.h and ui/progress_bar.c: the state of a progress bar and the two fills of its inside.
use retrodesk.Prelude.{
  ℕ, zero, suc, ◌+◌, ◌-◌, ◌*◌, ◌/◌, ◌%◌, ◌≤◌, ◌<◌, ◌≡◌, refl, ap, ◌∙◌, Option, none, some, Bool,
  false, ◌&&◌, List, [], ◌∷◌, ◌++◌, ◌==◌, ltb, leb, if◌then◌else◌, length, ◌⊎◌, inl, inr, arith,
  if_either, Bool-cases, replicate, length-replicate,
}
use native.Mathlib.Nat.{mod-eq_of_lt, mod_self, zero-mod}
use retrodesk.Prelude.Int.{ℤ, pos, negsuc}

pub data Style : Type 0 where
  determinate indeterminate : Style

-- The label is the list of its bytes; `none` is NULL.
pub record ProgressBar : Type 0 where
  pub style : Style
  pub value : ℕ
  pub width : ℕ
  pub anim_pos : ℕ
  pub label : Option (List ℕ)

unfoldable pub create : ProgressBar
create = record { style = determinate; value = 0; width = 20; anim_pos = 0; label = none }

unfoldable pub set_style : Style → ProgressBar → ProgressBar
set_style style bar = record bar { style = style }

-- `progress_bar_clamp(v, 0, 100)`
unfoldable pub clamp_value : ℤ → ℕ
clamp_value (negsuc n) = 0
clamp_value (pos n) = if ltb 100 n then 100 else n

unfoldable pub set_value : ℤ → ProgressBar → ProgressBar
unfolding clamp_value
set_value v bar = record bar { value = clamp_value v }

abbrev pub at_least_one : ℕ → ℕ
at_least_one n = if ltb n 1 then 1 else n

-- How far the block goes, and after how many ticks it is back.
unfoldable pub span : ProgressBar → ℕ
span bar = at_least_one (bar.width + 4 - 1)

unfoldable pub period : ProgressBar → ℕ
unfolding span
period bar = at_least_one (span bar * 2 - 2)

unfoldable pub tick : ProgressBar → ProgressBar
unfolding period
tick bar =
    if bar.width == 0
    then record bar { anim_pos = 0 }
    else record bar { anim_pos = (bar.anim_pos + 1) % period bar }

-- `if (width < 1) width = 1;`
unfoldable pub clamp_width : ℤ → ℕ
clamp_width (negsuc n) = 1
clamp_width (pos n) = at_least_one n

unfoldable pub set_width : ℤ → ProgressBar → ProgressBar
unfolding clamp_width
set_width w bar = record bar { width = clamp_width w }

abbrev label_of : Option (List ℕ) → List ℕ
label_of none = []
label_of (some s) = s

unfoldable pub set_label : Bool → Option (List ℕ) → ProgressBar → ProgressBar
set_label copied label bar = record bar { label = if copied then some (label_of label) else none }

-- The part that is done, rounded.
unfoldable pub filled : ProgressBar → ℕ
filled bar = let n = (bar.value * bar.width + 50) / 100 in if ltb bar.width n then bar.width else n

-- A run of `n` bytes, where it fits behind `written` bytes of a buffer of `out_size`.
unfoldable pub run_of : ℕ → ℕ → ℕ → ℕ → List ℕ
run_of byte written n out_size =
    if ltb 0 n && ltb (written + n) out_size then replicate n byte else []

-- `progress_bar_determinate_fill`: hashes, then dashes.
unfoldable pub determinate_fill : ℕ → ProgressBar → List ℕ
unfolding filled run_of
determinate_fill out_size bar =
    let done = run_of 0x23 0 (filled bar) out_size in
    done ++ run_of 0x2D (length done) (bar.width - filled bar) out_size

-- Where the block begins: a triangle wave.
unfoldable pub block_pos : ProgressBar → ℕ
unfolding span period
block_pos bar = let p = bar.anim_pos % period bar in if ltb p (span bar) then p else period bar - p

-- The loop of `progress_bar_indeterminate_fill` from column `i` on.
unfoldable pub block_bytes : ℕ → ℕ → ℕ → List ℕ
block_bytes at i zero = []
block_bytes at i (suc n) =
    (if leb at i && ltb i (at + 4) then 0x3D else 0x20) ∷ block_bytes at (suc i) n

unfoldable pub indeterminate_fill : ℕ → ProgressBar → List ℕ
unfolding block_pos block_bytes
indeterminate_fill out_size bar =
    block_bytes (block_pos bar) 0 (if leb bar.width (out_size - 1) then bar.width else out_size - 1)

-- The calls that change a bar.
pub data Request : Type 0 where
  styles : Style → Request
  values : ℤ → Request
  ticks : Request
  widths : ℤ → Request
  labels : Bool → Option (List ℕ) → Request

unfoldable pub perform : Request → ProgressBar → ProgressBar
unfolding set_style set_value tick set_width set_label
perform (styles s) bar = set_style s bar
perform (values v) bar = set_value v bar
perform ticks bar = tick bar
perform (widths w) bar = set_width w bar
perform (labels copied label) bar = set_label copied label bar

unfoldable pub perform_all : List Request → ProgressBar → ProgressBar
unfolding perform
perform_all [] bar = bar
perform_all (r ∷ rs) bar = perform_all rs (perform r bar)

pub record IsValid (bar : ProgressBar) : Type 0 where
  pub percent : bar.value ≤ 100
  pub wide : 0 < bar.width

perform-IsValid : (r : Request) (bar : ProgressBar) → IsValid bar → IsValid (perform r bar)
unfolding perform set_style set_value clamp_value tick set_width clamp_width set_label
perform-IsValid (styles s) bar v = record { percent = v.percent; wide = v.wide }
perform-IsValid (values (pos n)) bar v = record { percent = ground arith; wide = v.wide }
perform-IsValid (values (negsuc n)) bar v = record { percent = omega arith; wide = v.wide }
perform-IsValid ticks bar v =
    if_either IsValid (bar.width == 0) (λ _. record { percent = v.percent; wide = v.wide })
      (λ _. record { percent = v.percent; wide = v.wide })
perform-IsValid (widths (pos n)) bar v = record { percent = v.percent; wide = ground arith }
perform-IsValid (widths (negsuc n)) bar v = record { percent = v.percent; wide = omega arith }
perform-IsValid (labels copied label) bar v = record { percent = v.percent; wide = v.wide }

perform_all-IsValid :
    (rs : List Request) (bar : ProgressBar) → IsValid bar → IsValid (perform_all rs bar)
unfolding perform_all
perform_all-IsValid [] bar v = v
perform_all-IsValid (r ∷ rs) bar v =
    perform_all-IsValid rs (perform r bar) (perform-IsValid r bar v)

-- The fill of a bar in a buffer of `out_size`: `n` hashes and then dashes to the width, with `n` the
-- value's share of the width, rounded.
pub record IsFill (bar : ProgressBar) (out : List ℕ) (n : ℕ) : Type 0 where
  pub bytes : out ≡ replicate n 0x23 ++ replicate (bar.width - n) 0x2D
  pub inside : n ≤ bar.width
  pub least : 100 * n ≤ bar.value * bar.width + 50
  pub most : bar.value * bar.width + 50 < 100 * n + 100

filled-bounds :
    (bar : ProgressBar)
    → bar.value ≤ 100
    → (filled bar ≤ bar.width)
      × (100 * filled bar ≤ bar.value * bar.width + 50)
      × (bar.value * bar.width + 50 < 100 * filled bar + 100)
unfolding filled
filled-bounds bar h =
    let all : bar.value * bar.width ≤ 100 * bar.width = grind arith in
    (ground arith, ground (arith, all), ground (arith, all))

run_of-fits :
    (byte written n out_size : ℕ)
    → written + n < out_size
    → run_of byte written n out_size ≡ replicate n byte
unfolding run_of
run_of-fits byte written zero out_size h = refl
run_of-fits byte written (suc n) out_size h = ground arith

-- After any calls, in a buffer that is larger than the width of the bar, the fill of the bar is as
-- wide as the bar and shows the value, rounded to a whole column.
pub determinate_fill-IsFill :
    (rs : List Request) (out_size : ℕ)
    → (perform_all rs create).width < out_size
    → IsFill
        (perform_all rs create)
        (determinate_fill out_size (perform_all rs create))
        (filled (perform_all rs create))
unfolding determinate_fill create
determinate_fill-IsFill rs out_size h =
    let bar = perform_all rs create in
    let v = perform_all-IsValid rs create (record { percent = omega arith; wide = omega arith }) in
    let f = filled-bounds bar v.percent in
    record {
      bytes = rw (run_of-fits 0x23 0 (filled bar) out_size (omega (arith, f, h))) (
          rw (length-replicate {A = ℕ} (filled bar) 0x23) (
            rw
              (run_of-fits 0x2D (filled bar) (bar.width - filled bar) out_size
                (omega (arith, f, h)))
              refl));
      inside = f.0;
      least = f.1;
      most = f.2;
    }

next_mod : (a p : ℕ) → a < p → ((a + 1) % p ≡ a + 1) × (a + 1 < p) ⊎ ((a + 1) % p ≡ 0) × (a + 1 ≡ p)
next_mod a p h = elim (Bool-cases (ltb (a + 1) p)) [
  | inl below ↦ let l : a + 1 < p = ground arith in inl (mod-eq_of_lt l, l)
  | inr last ↦ let e : a + 1 ≡ p = ground arith in inr (ap (λ k. k % p) e ∙ mod_self p, e)
]

-- A tick moves the block by one column, to the right or to the left, and the column where it begins
-- is at most the width plus 2. (The bar is valid, and its position is one of the period.)
pub block_pos-tick :
    (bar : ProgressBar)
    → IsValid bar
    → bar.anim_pos < period bar
    → ((block_pos (tick bar) ≡ block_pos bar + 1) ⊎ (block_pos (tick bar) + 1 ≡ block_pos bar))
      × (block_pos (tick bar) ≤ bar.width + 2)
unfolding block_pos tick period span
block_pos-tick bar v h =
    let wide : (bar.width == 0) ≡ false = ground (arith, v.wide) in
    let p = period bar in
    let e : p ≡ bar.width * 2 + 4 = ground (arith, v.wide) in
    rw wide (elim (next_mod bar.anim_pos p h) [
      | inl (m, l) ↦ rw (m, mod-eq_of_lt l, mod-eq_of_lt h) (ground (arith, v.wide))
      | inr (m, l) ↦ rw (m, mod-eq_of_lt h, zero-mod p) (ground (arith, v.wide))
    ])
