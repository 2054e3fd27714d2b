-- ===== src/Tty/Mouse.antt =====
-- The mouse reports that platform/tty_decoder.c reads: numbers written in digits come back.
use mathlib.Core.List.{append-nil}
use retrodesk.Prelude.Middle.{get_or-append, drop-append_suc}
use retrodesk.Prelude.{
  ℕ, suc, ◌+◌, ◌-◌, ◌*◌, ◌/◌, ◌≤◌, ◌<◌, ◌≡◌, refl, sym, ap, ◌∙◌, some, true, false, List, [], ◌∷◌,
  ◌++◌, ◌==◌, ltb, leb, length, take, drop, length-append, arith, All,
}
use retrodesk.TextInput.Line.{take-append}
use retrodesk.Tty.Numbers.{int32_max, is_digit, digits_loop, parse_uint, semicolon}
use retrodesk.Tty.Decoder.{
  TtyDecoder, KeyMap, consume, byte_at, starts_mouse, search, Report, parse_report, is_terminator,
  reported, mouse_until, decode_mouse, after_mouse, decode,
}
use retrodesk.Tty.Pointer.{IsRead, reported-IsRead}

abbrev pub IsDigits : List ℕ → Type 0
IsDigits = All λ d. d < 10

-- The digits as bytes.
abbrev pub chars : List ℕ → List ℕ
chars [] = []
chars (d ∷ ds) = (0x30 + d) ∷ chars ds

-- The number that the digits stand for, behind a number `v`.
abbrev pub value : ℕ → List ℕ → ℕ
value v [] = v
value v (d ∷ ds) = value (v * 10 + d) ds

value-le : (v : ℕ) (ds : List ℕ) → v ≤ value v ds
value-le v [] = omega arith
value-le v (d ∷ ds) = omega (arith, value-le (v * 10 + d) ds)

-- Bytes that go on without a digit.
abbrev pub NoDigit : List ℕ → Type 0
NoDigit [] = Unit
NoDigit (b ∷ bs) = is_digit b ≡ false

digits_loop-value :
    (v : ℕ) (ds rest : List ℕ)
    → IsDigits ds
    → value v ds ≤ int32_max
    → NoDigit rest
    → digits_loop v (chars ds ++ rest) ≡ (value v ds, rest)
unfolding digits_loop
digits_loop-value v [] [] h k n = refl
digits_loop-value v [] (b ∷ bs) h k n = rw n refl
digits_loop-value v (d ∷ ds) rest h k n =
    let digit : is_digit (0x30 + d) ≡ true = ground (arith, h.0) in
    let same : 0x30 + d - 0x30 ≡ d = omega arith in
    let fits : ltb ((int32_max - d) / 10) v ≡ false =
      ground (arith, value-le (v * 10 + d) ds, h.0) in
    rw (digit, same, fits) (digits_loop-value (v * 10 + d) ds rest h.1 k n)

-- A number in digits, its value at most INT32_MAX, is read whole.
pub parse_uint-value :
    (d : ℕ) (ds rest : List ℕ)
    → IsDigits (d ∷ ds)
    → value 0 (d ∷ ds) ≤ int32_max
    → NoDigit rest
    → parse_uint (chars (d ∷ ds) ++ rest) ≡ some (value 0 (d ∷ ds), rest)
unfolding parse_uint
parse_uint-value d ds rest h k n =
    let digit : is_digit (0x30 + d) ≡ true = ground (arith, h.0) in
    rw digit (ap some (digits_loop-value 0 (d ∷ ds) rest h k n))

abbrev pub NoTerminator : List ℕ → Type 0
NoTerminator = All λ b. is_terminator b ≡ false

NoTerminator-chars :
    (ds rest : List ℕ) → IsDigits ds → NoTerminator rest → NoTerminator (chars ds ++ rest)
NoTerminator-chars [] rest h n = n
NoTerminator-chars (d ∷ ds) rest h n = (ground (arith, h.0), NoTerminator-chars ds rest h.1 n)

chars-NoTerminator : (ds : List ℕ) → IsDigits ds → NoTerminator (chars ds)
chars-NoTerminator [] h = tt
chars-NoTerminator (d ∷ ds) h = (ground (arith, h.0), chars-NoTerminator ds h.1)

search-append :
    (xs : List ℕ) (t : ℕ) (rest : List ℕ)
    → NoTerminator xs
    → is_terminator t ≡ true
    → search is_terminator (xs ++ t ∷ rest) ≡ some (length xs)
unfolding search
search-append [] t rest n h = rw h refl
search-append (x ∷ xs) t rest n h = rw (n.0, search-append xs t rest n.1 h) refl

-- A number in digits that a report can have.
pub record Number : Type 0 where
  pub first : ℕ
  pub others : List ℕ
  pub digits : IsDigits (first ∷ others)
  pub small : value 0 (first ∷ others) ≤ int32_max

abbrev pub written : Number → List ℕ
written n = chars (n.first ∷ n.others)

abbrev pub number : Number → ℕ
number n = value 0 (n.first ∷ n.others)

-- The numbers of a report with ';' between them.
abbrev pub body : Number → Number → Number → List ℕ
body button x y = written button ++ 0x3B ∷ (written x ++ 0x3B ∷ written y)

parse_report-body :
    (button x y : Number)
    → parse_report (body button x y)
      ≡ some (record { button = number button; x = number x; y = number y })
unfolding parse_report semicolon
parse_report-body button x y =
    let first =
      parse_uint-value button.first button.others (0x3B ∷ (written x ++ 0x3B ∷ written y))
        button.digits button.small refl in
    let second = parse_uint-value x.first x.others (0x3B ∷ written y) x.digits x.small refl in
    let third : parse_uint (written y) ≡ some (number y, []) =
      ap parse_uint (sym (append-nil (written y)))
      ∙ parse_uint-value y.first y.others [] y.digits y.small tt in
    rw (parse_report, first, second, third) refl

-- The bytes of a report, behind ESC [ <, with its terminator.
abbrev pub report : Number → Number → Number → ℕ → List ℕ → List ℕ
report button x y t rest = 0x1B ∷ 0x5B ∷ 0x3C ∷ (body button x y ++ t ∷ rest)

NoTerminator-body : (button x y : Number) → NoTerminator (body button x y)
NoTerminator-body button x y =
    let last = chars-NoTerminator (y.first ∷ y.others) y.digits in
    NoTerminator-chars (button.first ∷ button.others) _ button.digits
      (refl, NoTerminator-chars (x.first ∷ x.others) _ x.digits (refl, last))

length-body : (button x y : Number) → 3 ≤ length (body button x y)
length-body button x y = omega (
  arith,
  length-append {0} (written button) (0x3B ∷ (written x ++ 0x3B ∷ written y)),
  length-append {0} (written x) (0x3B ∷ written y),
)

-- A report whose bytes are read as three numbers.
decode-parsed :
    (keys : KeyMap) (xs : List ℕ) (r : Report) (t : ℕ) (rest : List ℕ) (decoder : TtyDecoder)
    → NoTerminator xs
    → 3 ≤ length xs
    → parse_report xs ≡ some r
    → is_terminator t ≡ true
    → decode keys (record decoder { pending = 0x1B ∷ 0x5B ∷ 0x3C ∷ (xs ++ t ∷ rest) })
      ≡ reported r (t == 0x6D) (record decoder { pending = rest })
unfolding decode decode_mouse starts_mouse consume
decode-parsed keys xs r t rest decoder clean size_xs parse h =
    let d : TtyDecoder = record decoder { pending = 0x1B ∷ 0x5B ∷ 0x3C ∷ (xs ++ t ∷ rest) } in
    let size = length-append {0} xs (t ∷ rest) in
    let some_bytes : (length d.pending == 0) ≡ false = ground arith in
    let long : ltb (length d.pending) 6 ≡ false = ground (arith, size, size_xs) in
    let starts : leb 3 (length d.pending) ≡ true = ground arith in
    let found : search is_terminator (xs ++ t ∷ rest) ≡ some (length xs) =
      search-append xs t rest clean h in
    let parsed : parse_report (take (length xs) (xs ++ t ∷ rest)) ≡ some r =
      ap parse_report (take-append xs (t ∷ rest)) ∙ parse in
    let three : length xs + 3 ≡ suc (suc (suc (length xs))) = omega arith in
    let four : length xs + 4 ≡ suc (suc (suc (suc (length xs)))) = omega arith in
    let term : byte_at (length xs + 3) d ≡ t = rw three (get_or-append xs t rest 0) in
    let left : drop (length xs + 4) d.pending ≡ rest = rw four (drop-append_suc xs t rest) in
    let read : decode_mouse d ≡ reported r (t == 0x6D) (record decoder { pending = rest }) =
      rw (long, starts, found, mouse_until, parsed, term, left) refl in
    rw some_bytes (ap (after_mouse keys) read)

-- A mouse report at the start of the bytes that wait, its three numbers in digits and at most
-- INT32_MAX, is taken whole: it gives a mouse event at the column and the row that it names, counted
-- from 0 (a 0 stands for a 1), with the flags that its button and its terminator stand for, and
-- with a motion where the place is another than the last one; the place is kept as the last one, and
-- the bytes behind the report keep waiting.
pub decode-report :
    (keys : KeyMap) (button x y : Number) (t : ℕ) (rest : List ℕ) (decoder : TtyDecoder)
    → is_terminator t ≡ true
    → IsRead
        (number button)
        (number x)
        (number y)
        (t == 0x6D)
        rest
        decoder
        (decode keys (record decoder { pending = report button x y t rest }))
decode-report keys button x y t rest decoder h =
    let e =
      decode-parsed keys (body button x y) _ t rest decoder (NoTerminator-body button x y)
        (length-body button x y) (parse_report-body button x y) h in
    rw e (reported-IsRead _ (t == 0x6D) rest decoder)
