-- ===== src/TextBuffer/OneLine.antt =====
-- The text and the offset of the cursor of ui/text_buffer.c under the actions that go by characters.
use mathlib.Core.Option.{some_inj}
use retrodesk.Prelude.{◌≡◌, ap, ◌∙◌, none, some, true, Option, inl, inr, length}
use retrodesk.Utf8.Text.{encode_all}
use retrodesk.TextInput.Line.{Line, before, edit as edit_line}
use retrodesk.TextInput.Typing.{insert as insert_line}
use retrodesk.TextInput.Widget.{
  backspaces as erases, deletes as erases_next, lefts as goes_left, rights as goes_right,
}
use retrodesk.TextBuffer.State.{TextBuffer, cursor, document_offset}
use retrodesk.TextBuffer.Content.{to_text}
use retrodesk.TextBuffer.Dispatch.{
  Action, newlines, backspaces, deletes, kills, homes, ends, lefts, rights, ups, downs, act,
}
use retrodesk.TextBuffer.Doc.{Doc, Represents}
use retrodesk.TextBuffer.Edit.{edit, row_of}
use retrodesk.TextBuffer.Flat.{newline, flat, edit-flat, to_text-flat}
use retrodesk.TextBuffer.Offset.{document_offset-flat}
use retrodesk.TextBuffer.Typing.{act-Edited}

-- The text reads as the line, and the offset of the cursor is that of the line's.
abbrev pub Shows : Line → TextBuffer → Type 0
Shows l buf =
    (to_text true buf ≡ some (encode_all (row_of l)))
    × (document_offset buf (cursor buf) ≡ length (encode_all (before l)))

-- What an action that goes by characters does to a line in which a newline is a character.
abbrev pub on_line : Action → Option (Line → Line)
on_line newlines = some (insert_line newline)
on_line backspaces = some (edit_line erases)
on_line deletes = some (edit_line erases_next)
on_line lefts = some (edit_line goes_left)
on_line rights = some (edit_line goes_right)
on_line kills = none
on_line homes = none
on_line ends = none
on_line ups = none
on_line downs = none

act-flat :
    (a : Action) (f : Line → Line) (d : Doc) → on_line a ≡ some f → flat (edit a d) ≡ f (flat d)
act-flat newlines f d e = (edit-flat d).0 ∙ ap (λ g. g (flat d)) (some_inj.0 e)
act-flat backspaces f d e = (edit-flat d).1 ∙ ap (λ g. g (flat d)) (some_inj.0 e)
act-flat deletes f d e = (edit-flat d).2 ∙ ap (λ g. g (flat d)) (some_inj.0 e)
act-flat lefts f d e = (edit-flat d).3 ∙ ap (λ g. g (flat d)) (some_inj.0 e)
act-flat rights f d e = (edit-flat d).4 ∙ ap (λ g. g (flat d)) (some_inj.0 e)
act-flat kills f d e = absurd (cc e)
act-flat homes f d e = absurd (cc e)
act-flat ends f d e = absurd (cc e)
act-flat ups f d e = absurd (cc e)
act-flat downs f d e = absurd (cc e)

-- Where memory suffices and nothing is selected, the line break inserts a newline into the text, and
-- backspace, delete, left and right go over a newline as over any character, whole characters at a
-- time: the text and the offset of the cursor become those of the line that is edited so.
pub act-Shows :
    (a : Action) (f : Line → Line) (d : Doc) (buf : TextBuffer)
    → on_line a ≡ some f
    → Represents d buf
    → Shows (f (flat d)) (act true a buf).0
act-Shows a f d buf e r = elim (act-Edited true a d buf r) [
  | inr (refused, _) ↦ absurd (cc refused)
  | inl (r', _) ↦
      rw⁻¹ (act-flat a f d e) ((to_text-flat (edit a d) _ r', document_offset-flat (edit a d) _ r'))
]
