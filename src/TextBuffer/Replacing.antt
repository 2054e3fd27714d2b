-- ===== src/TextBuffer/Replacing.antt =====
-- `text_buffer_replace_range` and `text_buffer_insert_text` of ui/text_buffer.c: a part of the text
-- gives way to another text, with the cursor behind it.
use mathlib.Core.List.{reverse, append_assoc, reverse-reverse}
use retrodesk.Prelude.{
  ℕ, ◌+◌, ◌≡◌, refl, sym, ap, ◌∙◌, none, some, true, false, ◌||◌, List, [], ◌∷◌, ◌++◌, drop, take,
  length, length-append, ◌==◌, ltb, leb, if_either, arith, All,
}
use retrodesk.Clipboard.{has_nul}
use retrodesk.Utf8.Codec.{bytes_of}
use retrodesk.Utf8.Text.{
  encode_all, encode_all-append, AllScalar, validate-encode_all, drop-append, bytes_of-pos,
}
use retrodesk.TextInput.Line.{before, take-append}
use retrodesk.TextBuffer.State.{
  TextBuffer, TextRange, cursor, selection_range, clear_selection, document_offset,
  set_cursor_from_offset,
}
use retrodesk.TextBuffer.Content.{
  split_lines, with_lines, set_text, to_text, c_string, replace_range, insert_text,
}
use retrodesk.TextBuffer.Doc.{Doc, Represents, clear_selection-Represents}
use retrodesk.TextBuffer.Flat.{flat, to_text-flat}
use retrodesk.TextBuffer.Offset.{set_cursor_from_offset-Represents, document_offset-flat}
use retrodesk.TextBuffer.Boundary.{size-nil, size-cons}
use retrodesk.TextBuffer.Setting.{place, place-flat, place-HasRows}

-- Characters other than NUL.
abbrev pub NoNul : List ℕ → Type 0
NoNul = All λ c. (c == 0) ≡ false

NoNul-append : (xs ys : List ℕ) → NoNul xs → NoNul ys → NoNul (xs ++ ys)
NoNul-append [] ys h k = k
NoNul-append (x ∷ xs) ys h k = (h.0, NoNul-append xs ys h.1 k)

-- The bytes of a character other than NUL are not NUL.
bytes_of-NoNul : (c : ℕ) → (c == 0) ≡ false → NoNul (bytes_of c)
unfolding bytes_of
bytes_of-NoNul c h =
    if_either NoNul (leb c 0x7F) (λ _. (h, tt))
      (λ _.
        if_either NoNul (leb c 0x7FF) (λ _. (ground arith, (ground arith, tt)))
          (λ _.
            if_either NoNul (leb c 0xFFFF) (λ _. (ground arith, (ground arith, (ground arith, tt))))
              (λ _. (ground arith, (ground arith, (ground arith, (ground arith, tt)))))))

encode_all-NoNul : (cs : List ℕ) → NoNul cs → NoNul (encode_all cs)
unfolding encode_all
encode_all-NoNul [] h = tt
encode_all-NoNul (c ∷ cs) h =
    NoNul-append (bytes_of c) _ (bytes_of-NoNul c h.0) (encode_all-NoNul cs h.1)

c_string-NoNul : (bs : List ℕ) → NoNul bs → c_string bs ≡ bs
unfolding c_string
c_string-NoNul [] h = refl
c_string-NoNul (b ∷ bs) h = rw h.0 (ap (b ∷◌) (c_string-NoNul bs h.1))

has_nul-NoNul : (bs : List ℕ) → NoNul bs → has_nul bs ≡ false
unfolding has_nul
has_nul-NoNul [] h = refl
has_nul-NoNul (b ∷ bs) h = rw h.0 (has_nul-NoNul bs h.1)

AllScalar-append : (xs ys : List ℕ) → AllScalar xs → AllScalar ys → AllScalar (xs ++ ys)
AllScalar-append [] ys h k = k
AllScalar-append (x ∷ xs) ys h k = (h.0, AllScalar-append xs ys h.1 k)

-- A text that can be written.
abbrev pub IsText : List ℕ → Type 0
IsText cs = AllScalar cs × NoNul cs

-- The buffer holds the text `before ++ after`, with the cursor between the two.
pub record HasCursor (before after : List ℕ) (buf : TextBuffer) : Type 0 where
  pub doc : Doc
  pub shown : Represents doc buf
  pub at : flat doc ≡ record { left = reverse before; right = after }

set_place :
    (xs ys : List ℕ) (buf : TextBuffer)
    → AllScalar xs
    → AllScalar ys
    → HasCursor xs ys (
        clear_selection (
          set_cursor_from_offset
            (length (encode_all xs))
            (clear_selection (with_lines (split_lines (encode_all xs ++ encode_all ys)) buf))))
unfolding clear_selection
set_place xs ys buf s s' =
    let next = clear_selection (with_lines (split_lines (encode_all xs ++ encode_all ys)) buf) in
    let e : before (flat (place xs ys)) ≡ xs =
      ap (λ l. reverse l.left) (place-flat xs ys) ∙ reverse-reverse xs in
    let there =
      set_cursor_from_offset-Represents (place xs ys) next (place-HasRows xs ys s s') refl in
    record {
      doc = place xs ys;
      shown = clear_selection-Represents (rw e at there);
      at = place-flat xs ys;
    }

-- A range of the document of a buffer: the text before it, in it and behind it.
pub record Covers (before inside after : List ℕ) (range : TextRange) (buf : TextBuffer)
    : Type 0 where
  pub text : to_text true buf ≡ some (encode_all before ++ (encode_all inside ++ encode_all after))
  pub from : document_offset buf range.start ≡ length (encode_all before)
  pub to :
      document_offset buf range.finish ≡ length (encode_all before) + length (encode_all inside)

-- A text that is written whole.
set_text-eq :
    (cs : List ℕ) (buf : TextBuffer)
    → AllScalar cs
    → set_text true (encode_all cs) buf
      ≡ (clear_selection (with_lines (split_lines (encode_all cs)) buf), true)
unfolding set_text
set_text-eq cs buf s =
    let valid = (validate-encode_all (encode_all cs)).1 (cs, s, refl) in rw valid refl

pub in_document :
    (xs ys zs : List ℕ)
    → (ltb (length (encode_all xs) + length (encode_all ys)) (length (encode_all xs))
        || ltb
            (length (encode_all xs ++ (encode_all ys ++ encode_all zs)))
            (length (encode_all xs) + length (encode_all ys)))
      ≡ false
in_document xs ys zs = ground (
  arith,
  length-append {0} (encode_all xs) (encode_all ys ++ encode_all zs),
  length-append {0} (encode_all ys) (encode_all zs),
)

-- The document after a replacement.
spliced :
    (xs ys zs new : List ℕ)
    → NoNul (xs ++ (new ++ zs))
    → c_string (
        take (length (encode_all xs)) (encode_all xs ++ (encode_all ys ++ encode_all zs))
        ++ (encode_all new
            ++ drop
                (length (encode_all xs) + length (encode_all ys))
                (encode_all xs ++ (encode_all ys ++ encode_all zs))))
      ≡ encode_all (xs ++ (new ++ zs))
spliced xs ys zs new n =
    let sum : length (encode_all xs) + length (encode_all ys)
        ≡ length (encode_all xs ++ encode_all ys) =
      sym (length-append (encode_all xs) (encode_all ys)) in
    let behind : drop (length (encode_all xs) + length (encode_all ys))
          (encode_all xs ++ (encode_all ys ++ encode_all zs))
        ≡ encode_all zs =
      rw (sum, ← append_assoc (encode_all xs) (encode_all ys) (encode_all zs))
        (drop-append (encode_all xs ++ encode_all ys) (encode_all zs)) in
    let all : encode_all xs ++ (encode_all new ++ encode_all zs) ≡ encode_all (xs ++ (new ++ zs)) =
      ap (encode_all xs ++◌) (sym (encode_all-append new zs))
      ∙ sym (encode_all-append xs (new ++ zs)) in
    rw (take-append (encode_all xs) (encode_all ys ++ encode_all zs), behind, all)
      (c_string-NoNul _ (encode_all-NoNul (xs ++ (new ++ zs)) n))

-- Replacing a range of a text without NUL by another such text succeeds where memory suffices; it
-- leaves the text before the range and behind it, and the cursor stands behind the new text.
pub replace_range-HasCursor :
    (xs ys zs new : List ℕ) (range : TextRange) (buf : TextBuffer)
    → IsText xs
    → IsText zs
    → IsText new
    → Covers xs ys zs range buf
    → ((replace_range true range (encode_all new) buf).1 ≡ true)
      × HasCursor (xs ++ new) zs (replace_range true range (encode_all new) buf).0
unfolding replace_range
replace_range-HasCursor xs ys zs new range buf x z n c =
    let valid = (validate-encode_all (encode_all new)).1 (new, n.0, refl) in
    let clean = has_nul-NoNul (encode_all new) (encode_all-NoNul new n.1) in
    let inside = in_document xs ys zs in
    let now = spliced xs ys zs new (NoNul-append xs _ x.1 (NoNul-append new zs n.1 z.1)) in
    let scalars = AllScalar-append xs (new ++ zs) x.0 (AllScalar-append new zs n.0 z.0) in
    let size : length (encode_all xs) + length (encode_all new) ≡ length (encode_all (xs ++ new)) =
      sym (ap length (encode_all-append xs new) ∙ length-append (encode_all xs) (encode_all new)) in
    let halves : encode_all (xs ++ (new ++ zs)) ≡ encode_all (xs ++ new) ++ encode_all zs =
      ap encode_all (sym (append_assoc xs new zs)) ∙ encode_all-append (xs ++ new) zs in
    rw
      (
        valid,
        clean,
        c.text,
        c.from,
        c.to,
        inside,
        now,
        set_text-eq (xs ++ (new ++ zs)) buf scalars,
        size,
        halves,
      )
      (refl, set_place (xs ++ new) zs buf (AllScalar-append xs new x.0 n.0) z.0)

-- The empty range at the cursor.
cursor-Covers :
    (d : Doc) (buf : TextBuffer)
    → Represents d buf
    → Covers
        (before (flat d))
        []
        (flat d).right
        (record { start = cursor buf; finish = cursor buf })
        buf
cursor-Covers d buf r =
    let at = document_offset-flat d buf r in
    record {
      text =
          to_text-flat d buf r
          ∙ ap some (encode_all-append (before (flat d)) (flat d).right)
          ∙ (unfold encode_all in refl);
      from = at;
      to = omega (arith, at, size-nil);
    }

-- Where nothing is selected, inserting a text without NUL that is not empty succeeds where memory
-- suffices, and puts it before the cursor.
pub insert_text-HasCursor :
    (c : ℕ) (cs : List ℕ) (d : Doc) (buf : TextBuffer)
    → IsText (before (flat d))
    → IsText (flat d).right
    → IsText (c ∷ cs)
    → Represents d buf
    → ((insert_text true (encode_all (c ∷ cs)) buf).1 ≡ true)
      × HasCursor
          (before (flat d) ++ c ∷ cs)
          (flat d).right
          (insert_text true (encode_all (c ∷ cs)) buf).0
unfolding insert_text
insert_text-HasCursor c cs d buf x z n r =
    let nothing : selection_range buf ≡ none = unfold selection_range in simp r.free refl in
    let some_text : (length (encode_all (c ∷ cs)) == 0) ≡ false =
      ground (arith, size-cons c cs, bytes_of-pos c n.0.0) in
    rw (nothing, some_text)
      (replace_range-HasCursor (before (flat d)) [] (flat d).right (c ∷ cs) _ buf x z n
        (cursor-Covers d buf r))
