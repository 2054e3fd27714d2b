-- ===== src/Utf8/Scan.antt =====
-- The scans of core/utf8.c over a text.
use Prim.Native.Nat.{min}
use retrodesk.Prelude.{
  ℕ, zero, suc, ◌+◌, ◌-◌, Option, none, some, Bool, true, false, ◌&&◌, ◌||◌, List, [], ◌∷◌, ltb,
  leb, if◌then◌else◌, drop, take, length, get_or,
}
use retrodesk.Utf8.Codec.{is_continuation, decode, decode_at}

-- The loop of `retro_utf8_validate`; each round takes a byte at least, so that as many rounds as
-- there are bytes are enough.
unfoldable pub validate_loop : ℕ → List ℕ → Bool
unfolding decode
validate_loop fuel [] = true
validate_loop zero (b ∷ bs) = false
validate_loop (suc fuel) (b ∷ bs) = elim (decode (b ∷ bs)) [
  | none ↦ false
  | some (cp, n) ↦ validate_loop fuel (drop n (b ∷ bs))
]

unfoldable pub validate : List ℕ → Bool
unfolding validate_loop
validate text = validate_loop (length text) text

-- The loop of `retro_utf8_valid_prefix` on a C string: `room` bytes are left to look at, of which
-- at most four are decoded.
unfoldable pub valid_prefix_loop : ℕ → ℕ → List ℕ → ℕ
unfolding decode
valid_prefix_loop fuel room [] = 0
valid_prefix_loop zero room (b ∷ bs) = 0
valid_prefix_loop (suc fuel) room (b ∷ bs) = elim (decode (take (min 4 room) (b ∷ bs))) [
  | none ↦ 0
  | some (cp, n) ↦ n + valid_prefix_loop fuel (room - n) (drop n (b ∷ bs))
]

unfoldable pub valid_prefix : List ℕ → ℕ → ℕ
unfolding valid_prefix_loop
valid_prefix text max_bytes = valid_prefix_loop (length text) max_bytes text

-- The loop of `retro_utf8_prev`.
unfoldable pub prev_from : List ℕ → ℕ → ℕ
unfolding is_continuation
prev_from text zero = zero
prev_from text (suc pos) =
    let back = prev_from text pos in
    if is_continuation (get_or text (suc pos) 0) then back else suc pos

unfoldable pub prev : List ℕ → ℕ → ℕ
unfolding prev_from
prev text zero = 0
prev text (suc pos) = prev_from text pos

unfoldable pub next : List ℕ → ℕ → ℕ
unfolding decode_at
next text offset =
    if leb (length text) offset
    then length text
    else elim (decode_at text offset) [ none ↦ offset + 1 | some (cp, n) ↦ offset + n ]

unfoldable pub width : ℕ → ℕ
width cp =
    if ltb cp 0x20 || (leb 0x7F cp && ltb cp 0xA0)
    then 0
    else if (leb 0x0300 cp && leb cp 0x036F)
        || (leb 0x1AB0 cp && leb cp 0x1AFF)
        || (leb 0x1DC0 cp && leb cp 0x1DFF)
        || (leb 0x20D0 cp && leb cp 0x20FF)
        || (leb 0xFE20 cp && leb cp 0xFE2F)
    then 0
    else 1

-- What the column counts take at an offset: a code point, or one byte shown as U+FFFD.
unfoldable pub glyph : Option (ℕ × ℕ) → ℕ × ℕ
glyph none = (0xFFFD, 1)
glyph (some (cp, n)) = (cp, n)

-- The loop of `retro_utf8_prefix_bytes`; `columns` are left.
unfoldable pub prefix_loop : ℕ → ℕ → List ℕ → ℕ
prefix_loop fuel columns [] = 0
prefix_loop zero columns (b ∷ bs) = 0
prefix_loop (suc fuel) columns (b ∷ bs) =
    let g = glyph (decode (b ∷ bs)) in
    let rest = g.1 + prefix_loop fuel (columns - width g.0) (drop g.1 (b ∷ bs)) in
    if ltb columns (width g.0) then 0 else rest

unfoldable pub prefix_bytes : List ℕ → ℕ → ℕ
prefix_bytes text max_columns = prefix_loop (length text) max_columns text

-- A code point that ends within `room` bytes, or one byte shown as U+FFFD.
unfoldable pub glyph_within : ℕ → Option (ℕ × ℕ) → ℕ × ℕ
glyph_within room none = (0xFFFD, 1)
glyph_within room (some (cp, n)) = if ltb room n then (0xFFFD, 1) else (cp, n)

-- The loop of `retro_utf8_columns`; `room` bytes are left to count.
unfoldable pub columns_loop : ℕ → ℕ → List ℕ → ℕ
columns_loop zero room bs = 0
columns_loop (suc fuel) zero bs = 0
columns_loop (suc fuel) (suc room) bs =
    let g = glyph_within (suc room) (decode bs) in
    width g.0 + columns_loop fuel (suc room - g.1) (drop g.1 bs)

unfoldable pub columns : List ℕ → ℕ → ℕ → ℕ
columns text start end' =
    let stop = min end' (length text) in
    let from = min start stop in
    if ltb (length text) start then 0 else columns_loop (stop - from) (stop - from) (drop from text)
