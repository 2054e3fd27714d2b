-- ===== src/Growth.antt =====
-- The growth of the arrays in wm/window_manager.c, ui/text_input.c, ui/scroll_list.c and ui/tab.c,
-- which all reserve space by the same code.
use retrodesk.Prelude.{
  ℕ, zero, suc, ◌+◌, ◌*◌, ◌≤◌, ◌<◌, ◌≡◌, Option, none, some, Bool, ◌==◌, ltb, leb, if◌then◌else◌,
  arith,
}

-- `while (new_cap < want) new_cap *= 2;` for a positive capacity: `want` rounds are enough.
unfoldable pub double_until : ℕ → ℕ → ℕ → ℕ
double_until zero want cap' = cap'
double_until (suc fuel) want cap' =
    let more = double_until fuel want (cap' * 2) in if ltb cap' want then more else cap'

-- The new capacity, or nothing where `realloc` fails; `init` is the first capacity.
unfoldable pub reserve : ℕ → Bool → ℕ → ℕ → Option ℕ
unfolding double_until
reserve init granted want cap' =
    if leb want cap'
    then some cap'
    else if granted
    then some (double_until want want (if cap' == 0 then init else cap' * 2))
    else none

double_until-le :
    (fuel want cap' : ℕ)
    → 0 < cap'
    → want ≤ fuel + cap'
    → (want ≤ double_until fuel want cap') × (cap' ≤ double_until fuel want cap')
unfolding double_until
double_until-le zero want cap' h k = (omega arith, omega arith)
double_until-le (suc fuel) want cap' h k = ground (arith, double_until-le fuel want (cap' * 2))

-- With a positive first capacity, a reservation that succeeds has room for what was asked for, and
-- never gives up room.
pub reserve-le :
    (init : ℕ) (granted : Bool) (want cap' got : ℕ)
    → 0 < init
    → reserve init granted want cap' ≡ some got
    → (want ≤ got) × (cap' ≤ got)
unfolding reserve
reserve-le init granted want cap' got h e =
    ground (arith, double_until-le want want init, double_until-le want want (cap' * 2))
