-- ===== src/Clipboard.antt =====
-- core/clipboard.h and core/clipboard.c: the clipboard that the applications share.
use retrodesk.Prelude.{
  ℕ, ◌≡◌, refl, Option, none, some, Bool, true, false, not, ◌||◌, List, [], ◌∷◌, ◌==◌, ltb,
  if◌then◌else◌, length, arith, if_either, All, ==_iff, ◌≢◌,
}
use retrodesk.Utf8.Scan.{validate}
use retrodesk.Utf8.Text.{encode_all, AllScalar, validate-encode_all}

-- The text; `none` is NULL. Its length is `length`.
pub record Clipboard : Type 0 where
  pub text : Option (List ℕ)

unfoldable pub create : Clipboard
create = record { text = none }

-- `memchr(text, '\0', length) != NULL`
unfoldable pub has_nul : List ℕ → Bool
has_nul [] = false
has_nul (b ∷ bs) = b == 0 || has_nul bs

abbrev pub size_max : ℕ
size_max = 18446744073709551615

-- `retro_clipboard_set_text` of as many bytes as `length` says; `copied` says whether `malloc`
-- succeeds. A NULL text is one of no bytes, or is refused.
unfoldable pub set_text : Bool → List ℕ → Clipboard → Clipboard × Bool
unfolding has_nul
set_text copied text clipboard =
    if length text == size_max || has_nul text || not (validate text)
    then (clipboard, false)
    else if copied
    then (record { text = some text }, true)
    else (clipboard, false)

abbrev pub or_empty : Option (List ℕ) → List ℕ
or_empty none = []
or_empty (some t) = t

unfoldable pub text_of : Clipboard → List ℕ
text_of clipboard = or_empty clipboard.text

unfoldable pub has_text : Clipboard → Bool
has_text clipboard = ltb 0 (length (or_empty clipboard.text))

unfoldable pub clear : Clipboard → Clipboard
clear clipboard = record { text = none }

-- The calls that change the clipboard.
pub data Request : Type 0 where
  copies : Bool → List ℕ → Request
  clears : Request

unfoldable pub perform : Request → Clipboard → Clipboard
unfolding clear
perform (copies copied text) clipboard = (set_text copied text clipboard).0
perform clears clipboard = clear clipboard

unfoldable pub perform_all : List Request → Clipboard → Clipboard
unfolding perform
perform_all [] clipboard = clipboard
perform_all (r ∷ rs) clipboard = perform_all rs (perform r clipboard)

-- A text of whole characters, none of them NUL.
pub record IsText (text : List ℕ) : Type 0 where
  pub characters : (cps : List ℕ) × AllScalar cps × (text ≡ encode_all cps)
  pub no_nul : All (λ b. b ≢ 0) text

has_nul-All : (bs : List ℕ) → has_nul bs ≡ false → All (λ b. b ≢ 0) bs
unfolding has_nul
has_nul-All [] h = tt
has_nul-All (b ∷ bs) h = (λ e. ground (arith, e, h, ==_iff b 0), has_nul-All bs (ground (arith, h)))

set_text-IsText :
    (copied : Bool) (text : List ℕ) (clipboard : Clipboard)
    → IsText (text_of clipboard)
    → IsText (text_of (set_text copied text clipboard).0)
unfolding set_text text_of
set_text-IsText copied text clipboard h =
    if_either P (length text == size_max || has_nul text || not (validate text)) (λ _. h)
      (λ ok.
        if_either P copied
          (λ _. record {
            characters = (validate-encode_all text).0 (ground arith);
            no_nul = has_nul-All text (ground arith);
          })
          (λ _. h))
  where
    P : Clipboard × Bool → Type 0
    P r = IsText (or_empty r.0.text)

perform_all-IsText :
    (rs : List Request) (clipboard : Clipboard)
    → IsText (text_of clipboard)
    → IsText (text_of (perform_all rs clipboard))
unfolding perform_all perform
perform_all-IsText [] clipboard h = h
perform_all-IsText (copies copied text ∷ rs) clipboard h =
    perform_all-IsText rs _ (set_text-IsText copied text clipboard h)
perform_all-IsText (clears ∷ rs) clipboard h =
    perform_all-IsText rs _
      (unfold text_of clear encode_all in record { characters = ([], tt, refl); no_nul = tt })

-- Whatever bytes are copied to a new clipboard, its text is always the encoding of a list of code
-- points, and has no NUL.
pub perform_all-create-IsText : (rs : List Request) → IsText (text_of (perform_all rs create))
unfolding create
perform_all-create-IsText rs =
    perform_all-IsText rs create
      (unfold text_of encode_all in record { characters = ([], tt, refl); no_nul = tt })
