-- ===== src/TextBuffer/Typing.antt =====
-- Typing into ui/text_buffer.c, its key actions and its keys as a whole.
use mathlib.Core.List.{append_assoc}
use retrodesk.Prelude.{
  ℕ, ◌≡◌, refl, sym, ap, ◌∙◌, none, some, Bool, true, false, not, ◌&&◌, ◌||◌, ◌⊎◌, inl, inr, ◌∷◌,
  ◌++◌, drop, length, length-append, arith, ◌==◌, if◌then◌else◌, if_either, Bool-cases,
}
use retrodesk.Utf8.Codec.{is_scalar, bytes_of, encode}
use retrodesk.Utf8.Text.{encode_all}
use retrodesk.TextInput.Line.{before, take-Holds, drop-Holds, encode_all-snoc}
use retrodesk.TextBuffer.State.{TextBuffer, cursor_line}
use retrodesk.TextBuffer.Editing.{
  put_bytes, inserted_bytes, insert_codepoint, home, line_end, left, right, up, down,
}
use retrodesk.TextBuffer.Dispatch.{
  Action, newlines, backspaces, deletes, kills, homes, ends, lefts, rights, ups, downs, act,
}
use retrodesk.TextBuffer.Doc.{
  Doc, Represents, line-Holds, settled-Represents, has_selection-Represents, set_line-Represents,
}
use retrodesk.TextBuffer.Edit.{edit, insert}
use retrodesk.TextBuffer.Backspace.{
  Edited, done, some_line, insert_newline-Edited, delete_backward-Edited,
}
use retrodesk.TextBuffer.Deletion.{delete_forward-Edited, kill_to_end-Edited}
use retrodesk.TextBuffer.Movement.{
  home-Represents, line_end-Represents, left-Represents, right-Represents, up-Represents,
  down-Represents,
}

-- An action of the key table edits the document, and reports false only where nothing changes, or
-- it reports false and leaves the buffer, for want of memory.
pub act-Edited :
    (granted : Bool) (a : Action) (d : Doc) (buf : TextBuffer)
    → Represents d buf
    → Edited d (edit a d) buf granted (act granted a buf)
unfolding act home line_end left right up down
act-Edited granted newlines d buf r = insert_newline-Edited granted d buf r
act-Edited granted backspaces d buf r = delete_backward-Edited granted d buf r
act-Edited granted deletes d buf r = delete_forward-Edited granted d buf r
act-Edited granted kills d buf r = kill_to_end-Edited granted d buf r
act-Edited granted homes d buf r = done _ (home-Represents d buf r)
act-Edited granted ends d buf r = done _ (line_end-Represents d buf r)
act-Edited granted lefts d buf r = done _ (left-Represents d buf r)
act-Edited granted rights d buf r = done _ (right-Represents d buf r)
act-Edited granted ups d buf r = done _ (up-Represents d.above d.line d.below buf r)
act-Edited granted downs d buf r = done _ (down-Represents d.above d.line d.below buf r)

-- A character that can stand in a row.
abbrev pub is_typeable : ℕ → Bool
is_typeable cp = is_scalar cp && not (cp == 0 || cp == 0x0A || cp == 0x0D)

put_bytes-Represents :
    (cp : ℕ) (d : Doc) (buf : TextBuffer)
    → Represents d buf
    → is_scalar cp ≡ true
    → Represents (insert cp d) (put_bytes (bytes_of cp) buf)
unfolding put_bytes
put_bytes-Represents cp d buf r s =
    let l = d.line in
    let h = line-Holds d buf r in
    let text = cursor_line buf in
    let col = buf.cursor_col in
    set_line-Represents d buf r (record { left = cp ∷ l.left; right = l.right }) _ _
      (record {
        text =
            ap (λ ys. ys ++ (bytes_of cp ++ drop col text)) (take-Holds l text col h)
            ∙ ap (λ ys. encode_all (before l) ++ (bytes_of cp ++ ys)) (drop-Holds l text col h)
            ∙ sym (append_assoc (encode_all (before l)) (bytes_of cp) (encode_all l.right))
            ∙ ap (λ ys. ys ++ encode_all l.right) (sym (encode_all-snoc cp l.left));
        at = omega (
          arith,
          ap length (encode_all-snoc cp l.left),
          length-append {0} (encode_all (before l)) (bytes_of cp),
          r.col,
        );
        scalars = ((s, r.scalars.0), r.scalars.1);
      })

encode-eq : (cp : ℕ) → encode cp ≡ (if is_scalar cp then some (bytes_of cp) else none)
unfolding encode is_scalar bytes_of
encode-eq cp = refl

-- What an attempt to type does.
abbrev pub Typed : ℕ → Doc → TextBuffer → Bool → TextBuffer × Bool → Type 0
Typed cp d buf granted res =
    ((is_typeable cp ≡ true) × Edited d (insert cp d) buf granted res)
    ⊎ ((is_typeable cp ≡ false) × (res ≡ (buf, false)))

-- A code point other than a NUL or a line end comes in before the cursor; any other number, or a
-- lack of memory, is reported by false and leaves the buffer.
pub insert_codepoint-Typed :
    (granted : Bool) (cp : ℕ) (d : Doc) (buf : TextBuffer)
    → Represents d buf
    → Typed cp d buf granted (insert_codepoint granted cp buf)
unfolding insert_codepoint
insert_codepoint-Typed granted cp d buf r =
    rw (some_line d buf r, encode-eq cp)
      (if_either (Typed cp d buf granted) (cp == 0 || cp == 0x0A || cp == 0x0D)
        (λ no. inr (ground arith, refl))
        (λ ok. elim (Bool-cases (is_scalar cp)) [
          | inl s ↦ rw s (inl (ground arith, put s))
          | inr n ↦ rw n (inr (ground arith, refl))
        ]))
  where
    put :
        is_scalar cp ≡ true
        → Edited d (insert cp d) buf granted (inserted_bytes granted (some (bytes_of cp)) buf)
    put s =
        rw (has_selection-Represents d buf r, settled-Represents d buf r)
          (if_either (Edited d (insert cp d) buf granted) granted
            (λ _. done _ (put_bytes-Represents cp d buf r s)) (λ no. inr (no, refl)))
