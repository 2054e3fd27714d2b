-- ===== src/Cli.antt =====
-- core/cli.h and core/cli.c: the options of the command line, and `retro_theme_parse` of ui/theme.c.
use retrodesk.Prelude.{
  ℕ, ◌≡◌, ◌≢◌, refl, Option, none, some, Bool, true, false, ◌&&◌, ◌||◌, List, [], ◌∷◌, ◌==◌,
  if◌then◌else◌, drop, take, inl, inr, ◌⊎◌, arith, if_either,
}

pub data RenderBackend : Type 0 where
  auto curses ansi : RenderBackend

pub data InputBackend : Type 0 where
  unknown ncurses pdcurses tty_raw : InputBackend

pub data ThemeKind : Type 0 where
  xp hacker amiga win31 : ThemeKind

pub data ParseResult : Type 0 where
  ok showed_usage parse_error : ParseResult

pub record CliOptions : Type 0 where
  pub bench_mode : Bool
  pub diagnose_mode : Bool
  pub version_mode : Bool
  pub render_backend : RenderBackend
  pub input_backend : InputBackend
  pub theme_kind : ThemeKind

unfoldable pub default : CliOptions
default = record {
  bench_mode = false;
  diagnose_mode = false;
  version_mode = false;
  render_backend = auto;
  input_backend = unknown;
  theme_kind = xp;
}

-- `strcmp(a, b) == 0`
unfoldable pub same_text : List ℕ → List ℕ → Bool
same_text [] [] = true
same_text [] (y ∷ ys) = false
same_text (x ∷ xs) [] = false
same_text (x ∷ xs) (y ∷ ys) = x == y && same_text xs ys

-- "--help"
abbrev help_long : List ℕ
help_long = 0x2d ∷ 0x2d ∷ 0x68 ∷ 0x65 ∷ 0x6c ∷ 0x70 ∷ []

-- "-h"
abbrev help_short : List ℕ
help_short = 0x2d ∷ 0x68 ∷ []

-- "--bench-startup"
abbrev bench_startup : List ℕ
bench_startup =
    0x2d ∷ 0x2d ∷ 0x62 ∷ 0x65 ∷ 0x6e ∷ 0x63 ∷ 0x68 ∷ 0x2d ∷ 0x73 ∷ 0x74 ∷ 0x61 ∷ 0x72 ∷ 0x74 ∷ 0x75
    ∷ 0x70 ∷ []

-- "--diagnose"
abbrev diagnose : List ℕ
diagnose = 0x2d ∷ 0x2d ∷ 0x64 ∷ 0x69 ∷ 0x61 ∷ 0x67 ∷ 0x6e ∷ 0x6f ∷ 0x73 ∷ 0x65 ∷ []

-- "--version"
abbrev version : List ℕ
version = 0x2d ∷ 0x2d ∷ 0x76 ∷ 0x65 ∷ 0x72 ∷ 0x73 ∷ 0x69 ∷ 0x6f ∷ 0x6e ∷ []

-- "--render-backend=ansi"
abbrev render_ansi : List ℕ
render_ansi =
    0x2d ∷ 0x2d ∷ 0x72 ∷ 0x65 ∷ 0x6e ∷ 0x64 ∷ 0x65 ∷ 0x72 ∷ 0x2d ∷ 0x62 ∷ 0x61 ∷ 0x63 ∷ 0x6b ∷ 0x65
    ∷ 0x6e ∷ 0x64 ∷ 0x3d ∷ 0x61 ∷ 0x6e ∷ 0x73 ∷ 0x69 ∷ []

-- "--render-backend=curses"
abbrev render_curses : List ℕ
render_curses =
    0x2d ∷ 0x2d ∷ 0x72 ∷ 0x65 ∷ 0x6e ∷ 0x64 ∷ 0x65 ∷ 0x72 ∷ 0x2d ∷ 0x62 ∷ 0x61 ∷ 0x63 ∷ 0x6b ∷ 0x65
    ∷ 0x6e ∷ 0x64 ∷ 0x3d ∷ 0x63 ∷ 0x75 ∷ 0x72 ∷ 0x73 ∷ 0x65 ∷ 0x73 ∷ []

-- "--input-backend=tty"
abbrev input_tty : List ℕ
input_tty =
    0x2d ∷ 0x2d ∷ 0x69 ∷ 0x6e ∷ 0x70 ∷ 0x75 ∷ 0x74 ∷ 0x2d ∷ 0x62 ∷ 0x61 ∷ 0x63 ∷ 0x6b ∷ 0x65 ∷ 0x6e
    ∷ 0x64 ∷ 0x3d ∷ 0x74 ∷ 0x74 ∷ 0x79 ∷ []

-- "--input-backend=curses"
abbrev input_curses : List ℕ
input_curses =
    0x2d ∷ 0x2d ∷ 0x69 ∷ 0x6e ∷ 0x70 ∷ 0x75 ∷ 0x74 ∷ 0x2d ∷ 0x62 ∷ 0x61 ∷ 0x63 ∷ 0x6b ∷ 0x65 ∷ 0x6e
    ∷ 0x64 ∷ 0x3d ∷ 0x63 ∷ 0x75 ∷ 0x72 ∷ 0x73 ∷ 0x65 ∷ 0x73 ∷ []

-- "--theme="
abbrev theme_prefix : List ℕ
theme_prefix = 0x2d ∷ 0x2d ∷ 0x74 ∷ 0x68 ∷ 0x65 ∷ 0x6d ∷ 0x65 ∷ 0x3d ∷ []

-- "xp"
abbrev name_xp : List ℕ
name_xp = 0x78 ∷ 0x70 ∷ []

-- "hacker"
abbrev name_hacker : List ℕ
name_hacker = 0x68 ∷ 0x61 ∷ 0x63 ∷ 0x6b ∷ 0x65 ∷ 0x72 ∷ []

-- "amiga"
abbrev name_amiga : List ℕ
name_amiga = 0x61 ∷ 0x6d ∷ 0x69 ∷ 0x67 ∷ 0x61 ∷ []

-- "win31"
abbrev name_win31 : List ℕ
name_win31 = 0x77 ∷ 0x69 ∷ 0x6e ∷ 0x33 ∷ 0x31 ∷ []

-- "3.1"
abbrev name_3_1 : List ℕ
name_3_1 = 0x33 ∷ 0x2e ∷ 0x31 ∷ []

unfoldable pub theme_parse : List ℕ → Option ThemeKind
unfolding same_text
theme_parse name =
    if same_text name name_xp
    then some xp
    else if same_text name name_hacker
    then some hacker
    else if same_text name name_amiga
    then some amiga
    else if same_text name name_win31 || same_text name name_3_1
    then some win31
    else none

unfoldable pub apply_backend_defaults : CliOptions → ParseResult × CliOptions
apply_backend_defaults opt = elim opt.render_backend [
  | auto ↦ elim opt.input_backend [
    | unknown ↦ (ok, opt)
    | ncurses ↦ (ok, opt)
    | pdcurses ↦ (ok, opt)
    | tty_raw ↦ (ok, record opt { render_backend = ansi })
  ]
  | curses ↦ elim opt.input_backend [
    | unknown ↦ (ok, opt)
    | ncurses ↦ (ok, opt)
    | pdcurses ↦ (ok, opt)
    | tty_raw ↦ (parse_error, opt)
  ]
  | ansi ↦ elim opt.input_backend [
    | unknown ↦ (ok, record opt { input_backend = tty_raw })
    | ncurses ↦ (parse_error, opt)
    | pdcurses ↦ (ok, opt)
    | tty_raw ↦ (ok, opt)
  ]
]

-- One round of the loop of `retro_cli_parse`: the options to go on with, or the result.
unfoldable pub apply_theme : Option ThemeKind → CliOptions → CliOptions ⊎ ParseResult
apply_theme none out = inr parse_error
apply_theme (some kind) out = inl (record out { theme_kind = kind })

unfoldable pub parse_one : List ℕ → CliOptions → CliOptions ⊎ ParseResult
unfolding same_text theme_parse apply_theme
parse_one arg out =
    if same_text arg help_long || same_text arg help_short
    then inr showed_usage
    else if same_text arg bench_startup
    then inl (record out { bench_mode = true })
    else if same_text arg diagnose
    then inl (record out { diagnose_mode = true; bench_mode = true })
    else if same_text arg version
    then inl (record out { version_mode = true })
    else if same_text arg render_ansi
    then inl (record out { render_backend = ansi })
    else if same_text arg render_curses
    then inl (record out { render_backend = curses })
    else if same_text arg input_tty
    then inl (record out { input_backend = tty_raw })
    else if same_text arg input_curses
    then inl (record out { input_backend = ncurses })
    else if same_text (take 8 arg) theme_prefix
    then apply_theme (theme_parse (drop 8 arg)) out
    else inr parse_error

-- The loop, over the arguments behind the first one.
unfoldable pub parse_args : List (List ℕ) → CliOptions → ParseResult × CliOptions
unfolding parse_one apply_backend_defaults
parse_args [] out = apply_backend_defaults out
parse_args (arg ∷ args) out = elim (parse_one arg out) [
  | inl next ↦ parse_args args next
  | inr result ↦ (result, out)
]

unfoldable pub parse : List (List ℕ) → ParseResult × CliOptions
unfolding parse_args default
parse args = parse_args args default

-- The ANSI renderer goes with the raw terminal and no other pair of backends does; to diagnose
-- implies the benchmark mode.
pub record IsConsistent (o : CliOptions) : Type 0 where
  pub backends :
      ((o.render_backend ≡ ansi) × (o.input_backend ≡ tty_raw))
      ⊎ ((o.render_backend ≢ ansi) × ((o.input_backend ≡ unknown) ⊎ (o.input_backend ≡ ncurses)))
  pub diagnosing : o.diagnose_mode ≡ true → o.bench_mode ≡ true

-- What holds while the arguments are read.
pub record IsReading (o : CliOptions) : Type 0 where
  pub portable : o.input_backend ≢ pdcurses
  pub diagnosing : o.diagnose_mode ≡ true → o.bench_mode ≡ true

abbrev Reads : CliOptions ⊎ ParseResult → Type 0
Reads (inl o) = IsReading o
Reads (inr result) = result ≢ ok

apply_theme-Reads : (k : Option ThemeKind) (o : CliOptions) → IsReading o → Reads (apply_theme k o)
unfolding apply_theme
apply_theme-Reads none o h = λ e. cc
apply_theme-Reads (some kind) o h = record { portable = h.portable; diagnosing = h.diagnosing }

parse_one-Reads : (arg : List ℕ) (o : CliOptions) → IsReading o → Reads (parse_one arg o)
unfolding parse_one
parse_one-Reads arg o h =
    if_either Reads (same_text arg help_long || same_text arg help_short) (λ _ e. cc)
      (λ _.
        if_either Reads (same_text arg bench_startup)
          (λ _. record { portable = h.portable; diagnosing = λ _. refl })
          (λ _.
            if_either Reads (same_text arg diagnose)
              (λ _. record { portable = h.portable; diagnosing = λ _. refl })
              (λ _.
                if_either Reads (same_text arg version)
                  (λ _. record { portable = h.portable; diagnosing = h.diagnosing })
                  (λ _.
                    if_either Reads (same_text arg render_ansi)
                      (λ _. record { portable = h.portable; diagnosing = h.diagnosing })
                      (λ _.
                        if_either Reads (same_text arg render_curses)
                          (λ _. record { portable = h.portable; diagnosing = h.diagnosing })
                          (λ _.
                            if_either Reads (same_text arg input_tty)
                              (λ _. record { portable = λ e. cc; diagnosing = h.diagnosing })
                              (λ _.
                                if_either Reads (same_text arg input_curses)
                                  (λ _. record { portable = λ e. cc; diagnosing = h.diagnosing })
                                  (λ _.
                                    if_either Reads (same_text (take 8 arg) theme_prefix)
                                      (λ _. apply_theme-Reads (theme_parse (drop 8 arg)) o h)
                                      (λ _ e. cc)))))))))

apply_backend_defaults-IsConsistent :
    (o : CliOptions)
    → IsReading o
    → (apply_backend_defaults o).0 ≡ ok
    → IsConsistent (apply_backend_defaults o).1
unfolding apply_backend_defaults
apply_backend_defaults-IsConsistent o h e = record {
  backends = ground arith;
  diagnosing = ground (arith, h.diagnosing);
}

parse_args-IsConsistent :
    (args : List (List ℕ)) (o : CliOptions)
    → IsReading o
    → (parse_args args o).0 ≡ ok
    → IsConsistent (parse_args args o).1
unfolding parse_args
parse_args-IsConsistent [] o h e = apply_backend_defaults-IsConsistent o h e
parse_args-IsConsistent (arg ∷ args) o h e =
    one (parse_one arg o) (parse_one-Reads arg o h)
      (λ next k q. parse_args-IsConsistent args next k q) e
  where
    after : CliOptions ⊎ ParseResult → ParseResult × CliOptions
    after r = elim r [ inl next ↦ parse_args args next | inr result ↦ (result, o) ]

    one :
        (r : CliOptions ⊎ ParseResult)
        → Reads r
        → ((next : CliOptions)
            → IsReading next
            → (parse_args args next).0 ≡ ok
            → IsConsistent (parse_args args next).1)
        → (after r).0 ≡ ok
        → IsConsistent (after r).1
    one (inl next) k rest q = rest next k q
    one (inr result) k rest q = absurd (k q)

-- Where the command line is accepted, the ANSI renderer is chosen with the raw terminal for input
-- and no other pair of the two is, and a diagnosis runs in the benchmark mode.
pub parse-IsConsistent : (args : List (List ℕ)) → (parse args).0 ≡ ok → IsConsistent (parse args).1
unfolding parse default
parse-IsConsistent args e =
    parse_args-IsConsistent args default (record { portable = λ q. cc; diagnosing = λ q. cc }) e
