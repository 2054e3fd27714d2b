-- ===== src/TextBuffer/Keyboard.antt =====
-- The keys of ui/text_buffer.c as a whole.
use retrodesk.Prelude.{
  ◌%◌, ◌≡◌, refl, sym, ◌∙◌, none, some, Bool, true, false, not, ◌&&◌, inl, inr, List, [], ◌∷◌, leb,
  ◌==◌, if◌then◌else◌, Bool-cases, Option-cases, All,
}
use retrodesk.Prelude.Int.{ℤ, eqb_ℤ}
use retrodesk.Event.{KeyEvent}
use retrodesk.Utf8.Text.{encode_all}
use retrodesk.TextBuffer.State.{TextBuffer, clear_selection}
use retrodesk.TextBuffer.Content.{create}
use retrodesk.TextBuffer.Editing.{home, line_end, left, right, up, down}
use retrodesk.TextBuffer.Dispatch.{
  Action, newlines, backspaces, deletes, kills, homes, ends, lefts, rights, ups, downs, act,
  KeyBinding, key_bindings, binding, prepare_movement, prepared, typed, type_key, handle_key,
}
use retrodesk.TextBuffer.Doc.{Doc, Represents, rows_of, clear_selection-Represents}
use retrodesk.TextBuffer.Edit.{edit, insert}
use retrodesk.TextBuffer.Backspace.{Edited}
use retrodesk.TextBuffer.Movement.{
  home-Represents, line_end-Represents, left-Represents, right-Represents, up-Represents,
  down-Represents,
}
use retrodesk.TextBuffer.Typing.{act-Edited, is_typeable, insert_codepoint-Typed}

-- The actions that only move the cursor.
abbrev pub is_movement : Action → Bool
is_movement newlines = false
is_movement backspaces = false
is_movement deletes = false
is_movement kills = false
is_movement homes = true
is_movement ends = true
is_movement lefts = true
is_movement rights = true
is_movement ups = true
is_movement downs = true

IsMarked : KeyBinding → Type 0
IsMarked b = b.movement ≡ is_movement b.function

key_bindings-AllMarked : All IsMarked key_bindings
unfolding key_bindings IsMarked
key_bindings-AllMarked = (
  refl,
  (
    refl,
    (
      refl,
      (
        refl,
        (refl, (refl, (refl, (refl, (refl, (refl, (refl, (refl, (refl, (refl, (refl, tt))))))))))),
      ),
    ),
  ),
)

binding-IsMarked :
    (key : ℤ) (b : KeyBinding) (bs : List KeyBinding)
    → All IsMarked bs
    → binding key bs ≡ some b
    → IsMarked b
unfolding binding
binding-IsMarked key b [] all e = absurd (cc e)
binding-IsMarked key b (c ∷ cs) all e = elim (Bool-cases (eqb_ℤ c.code key)) [
  | inl y ↦
      let found : some c ≡ some b = rw y at e in let same : c ≡ b = cc found in rw (← same) all.0
  | inr n ↦ binding-IsMarked key b cs all.1 (rw n at e)
]

-- A key without shift, as it changes the document.
abbrev pub type_in : KeyEvent → Doc → Doc
type_in k d =
    if k.is_printable && leb 0x20 (typed k) && not (typed k == 0x7F) && is_typeable (typed k)
    then insert (typed k) d
    else d

abbrev pub press : KeyEvent → Doc → Doc
press k d = elim (binding k.key_code key_bindings) [
  | none ↦ type_in k d
  | some b ↦ edit b.function d
]

-- A key with shift extends the selection; what follows is about the others.
abbrev pub HasNoShift : KeyEvent → Type 0
HasNoShift k = (k.modifiers % 2 == 1) ≡ false

moved :
    (granted : Bool) (a : Action) (d : Doc) (buf : TextBuffer)
    → is_movement a ≡ true
    → Represents d buf
    → Represents (edit a d) (act granted a buf).0 × ((act granted a buf).1 ≡ true)
unfolding act home line_end left right up down
moved granted newlines d buf m r = absurd (cc m)
moved granted backspaces d buf m r = absurd (cc m)
moved granted deletes d buf m r = absurd (cc m)
moved granted kills d buf m r = absurd (cc m)
moved granted homes d buf m r = (home-Represents d buf r, refl)
moved granted ends d buf m r = (line_end-Represents d buf r, refl)
moved granted lefts d buf m r = (left-Represents d buf r, refl)
moved granted rights d buf m r = (right-Represents d buf r, refl)
moved granted ups d buf m r = (up-Represents d.above d.line d.below buf r, refl)
moved granted downs d buf m r = (down-Represents d.above d.line d.below buf r, refl)

bound-Edited :
    (granted : Bool) (b : KeyBinding) (k : KeyEvent) (d : Doc) (buf : TextBuffer)
    → IsMarked b
    → HasNoShift k
    → Represents d buf
    → Edited d (edit b.function d) buf granted (act granted b.function (prepared b k buf))
unfolding IsMarked prepare_movement act
bound-Edited granted b k d buf marked h r = elim (Bool-cases b.movement) [
  | inl m ↦
      let cleared = clear_selection-Represents r in
      let to = moved granted b.function d (clear_selection buf) (sym marked ∙ m) cleared in
      rw (m, prepare_movement, h) (inl (to.0, λ no. absurd (cc (to.1, no))))
  | inr n ↦ rw n (act-Edited granted b.function d buf r)
]

typed-Edited :
    (granted : Bool) (k : KeyEvent) (d : Doc) (buf : TextBuffer)
    → Represents d buf
    → Edited d (type_in k d) buf granted (type_key granted k buf)
unfolding type_key
typed-Edited granted k d buf r =
    elim (Bool-cases (k.is_printable && leb 0x20 (typed k) && not (typed k == 0x7F))) [
      | inl y ↦ elim (insert_codepoint-Typed granted (typed k) d buf r) [
        | inl (ok, e) ↦ rw (y, ok) e
        | inr (bad, e) ↦ rw (y, bad, e) (inl (r, λ _. refl))
      ]
      | inr n ↦ rw n (inl (r, λ _. refl))
    ]

pub handle_key-Edited :
    (granted : Bool) (k : KeyEvent) (d : Doc) (buf : TextBuffer)
    → HasNoShift k
    → Represents d buf
    → Edited d (press k d) buf granted (handle_key granted k buf)
unfolding handle_key
handle_key-Edited granted k d buf h r = elim (Option-cases (binding k.key_code key_bindings)) [
  | inl e ↦ rw (e, handle_key, press) (typed-Edited granted k d buf r)
  | inr (b, e) ↦
      rw (e, handle_key, press)
        (bound-Edited granted b k d buf
          (binding-IsMarked k.key_code b key_bindings key_bindings-AllMarked e) h r)
]

-- Keys one after the other.
abbrev pub presses : List KeyEvent → Doc → Doc
presses [] d = d
presses (k ∷ ks) d = presses ks (press k d)

abbrev pub handle_keys : List KeyEvent → TextBuffer → TextBuffer
handle_keys [] buf = buf
handle_keys (k ∷ ks) buf = handle_keys ks (handle_key true k buf).0

-- Any keys without shift, where memory suffices, do to the buffer what they do to the document: the
-- cursor stays in a row, between two characters, and every row stays valid UTF-8.
pub handle_keys-Represents :
    (ks : List KeyEvent) (d : Doc) (buf : TextBuffer)
    → All HasNoShift ks
    → Represents d buf
    → Represents (presses ks d) (handle_keys ks buf)
handle_keys-Represents [] d buf h r = r
handle_keys-Represents (k ∷ ks) d buf h r = elim (handle_key-Edited true k d buf h.0 r) [
  | inl (r', _) ↦ handle_keys-Represents ks (press k d) (handle_key true k buf).0 h.1 r'
  | inr (refused, _) ↦ absurd (cc refused)
]

-- An empty buffer is the empty document.
pub create-Represents :
    Represents (record { above = []; line = record { left = []; right = [] }; below = [] }) create
unfolding create rows_of encode_all
create-Represents = record {
  lines = refl;
  row = refl;
  col = refl;
  free = refl;
  scalars = (tt, tt);
  rows = (tt, tt);
}
