-- ===== src/Tty/Numbers.antt =====
-- The decimal numbers in the escape sequences that platform/tty_decoder.c reads.
use retrodesk.Prelude.{
  ℕ, zero, suc, ◌+◌, ◌-◌, ◌*◌, ◌/◌, Option, none, some, Bool, ◌&&◌, List, [], ◌∷◌, ◌==◌, ltb, leb,
  if◌then◌else◌, length,
}

abbrev pub int32_max : ℕ
int32_max = 2147483647

abbrev pub is_digit : ℕ → Bool
is_digit b = leb 0x30 b && leb b 0x39

unfoldable pub skip_digits : List ℕ → List ℕ
skip_digits [] = []
skip_digits (b ∷ bs) = let rest = skip_digits bs in if is_digit b then rest else b ∷ bs

-- The loop of `tty_parse_uint`: the number and what is left of the bytes.
unfoldable pub digits_loop : ℕ → List ℕ → ℕ × List ℕ
digits_loop value [] = (value, [])
digits_loop value (b ∷ bs) =
    let further = digits_loop (value * 10 + (b - 0x30)) bs in
    if is_digit b
    then (if ltb ((int32_max - (b - 0x30)) / 10) value
        then (int32_max, skip_digits (b ∷ bs))
        else further)
    else (value, b ∷ bs)

-- `tty_parse_uint` of the bytes from the index on.
unfoldable pub parse_uint : List ℕ → Option (ℕ × List ℕ)
parse_uint [] = none
parse_uint (b ∷ bs) = if is_digit b then some (digits_loop 0 (b ∷ bs)) else none

-- A step over a ';'.
unfoldable pub semicolon : List ℕ → Option (List ℕ)
semicolon [] = none
semicolon (b ∷ bs) = if b == 0x3B then some bs else none

-- How many parameters there are, and the last of them.
pub record Parameters : Type 0 where
  pub count : ℕ
  pub last : ℕ

-- The loop of `tty_parse_csi_parameters`; a round takes a byte at least.
unfoldable pub parameters_loop : ℕ → ℕ → List ℕ → Option Parameters
parameters_loop zero count bytes = none
parameters_loop (suc fuel) count bytes = elim (parse_uint bytes) [
  | none ↦ none
  | some (value, []) ↦ some (record { count = count + 1; last = value })
  | some (value, b ∷ []) ↦ none
  | some (value, b ∷ c ∷ rest) ↦
      let further = parameters_loop fuel (count + 1) (c ∷ rest) in
      if b == 0x3B then further else none
]

unfoldable pub parse_csi_parameters : List ℕ → Option Parameters
parse_csi_parameters [] = some (record { count = 0; last = 0 })
parse_csi_parameters (b ∷ bs) = parameters_loop (length (b ∷ bs)) 0 (b ∷ bs)
