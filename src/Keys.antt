-- ===== src/Keys.antt =====
-- core/key_chord.h and core/key_chord.c: the portable key codes.
use retrodesk.Prelude.{◌≡◌, Bool, true, false, ◌&&◌, if◌then◌else◌, arith}
use retrodesk.Prelude.Int.{ℤ, pos, ltb_ℤ, leb_ℤ, eqb_ℤ}

abbrev pub key_bs : ℤ
key_bs = pos 0x08

abbrev pub key_del : ℤ
key_del = pos 0x7F

abbrev pub key_lf : ℤ
key_lf = pos 0x0A

abbrev pub key_cr : ℤ
key_cr = pos 0x0D

abbrev pub key_esc : ℤ
key_esc = pos 0x1B

abbrev pub key_ctrl_a : ℤ
key_ctrl_a = pos 0x01

abbrev pub key_ctrl_d : ℤ
key_ctrl_d = pos 0x04

abbrev pub key_ctrl_e : ℤ
key_ctrl_e = pos 0x05

abbrev pub key_ctrl_k : ℤ
key_ctrl_k = pos 0x0B

abbrev pub key_ctrl_n : ℤ
key_ctrl_n = pos 0x0E

abbrev pub key_ctrl_p : ℤ
key_ctrl_p = pos 0x10

abbrev pub key_ctrl_u : ℤ
key_ctrl_u = pos 0x15

abbrev pub key_up : ℤ
key_up = pos 0x1000

abbrev pub key_down : ℤ
key_down = pos 0x1001

abbrev pub key_left : ℤ
key_left = pos 0x1002

abbrev pub key_right : ℤ
key_right = pos 0x1003

abbrev pub key_home : ℤ
key_home = pos 0x1004

abbrev pub key_end : ℤ
key_end = pos 0x1005

abbrev pub key_ppage : ℤ
key_ppage = pos 0x1006

abbrev pub key_npage : ℤ
key_npage = pos 0x1007

abbrev pub key_dc : ℤ
key_dc = pos 0x1008

unfoldable pub is_chord : ℤ → Bool
is_chord code =
    if ltb_ℤ code (pos 0) then false else leb_ℤ (pos 0x1000) code && ltb_ℤ code (pos 0x2000)

unfoldable pub is_printable : ℤ → Bool
is_printable code = leb_ℤ (pos 0x20) code && leb_ℤ code (pos 0x7E)

unfoldable pub is_control : ℤ → Bool
is_control code =
    if ltb_ℤ code (pos 0)
    then false
    else if leb_ℤ code (pos 0x1F)
    then true
    else eqb_ℤ code (pos 0x7F)

-- The three classes of key codes do not overlap.
pub classes-disjoint :
    (code : ℤ)
    → (is_chord code && is_printable code ≡ false)
      × (is_chord code && is_control code ≡ false)
      × (is_printable code && is_control code ≡ false)
unfolding is_chord is_printable is_control
classes-disjoint code = (ground arith, ground arith, ground arith)
