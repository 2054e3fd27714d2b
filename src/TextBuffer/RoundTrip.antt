-- ===== src/TextBuffer/RoundTrip.antt =====
-- `text_buffer_set_text` and `text_buffer_to_text` of ui/text_buffer.c: the text as bytes and as
-- lines.
use retrodesk.Prelude.{
  ℕ, suc, ◌<◌, ◌≡◌, refl, sym, ap, ◌∙◌, some, Bool, true, false, ◌&&◌, ◌⊎◌, List, [], ◌∷◌, ◌++◌,
  length, ◌==◌, Bool-cases, inl, inr, arith, All,
}
use retrodesk.Utf8.Scan.{validate}
use retrodesk.TextBuffer.State.{TextBuffer, line_count, clear_selection}
use retrodesk.TextBuffer.Content.{
  cons_first, split_lines, with_lines, set_text, join_lines, to_text,
}

-- A line has no newline in it.
abbrev pub IsLine : List ℕ → Type 0
IsLine = All λ b. (b == 0x0A) ≡ false

pub split_lines-some : (t : List ℕ) → 0 < length (split_lines t)
unfolding split_lines
split_lines-some [] = omega arith
split_lines-some (b ∷ bs) = elim (Bool-cases (b == 0x0A)) [
  | inl e ↦ rw e (omega arith)
  | inr e ↦ rw e (first (split_lines bs))
]
  where
    first : (ls : List (List ℕ)) → 0 < length (cons_first b ls)
    first [] = omega arith
    first (l ∷ ls) = omega arith

join_lines-cons : (b : ℕ) (ls : List (List ℕ)) → join_lines (cons_first b ls) ≡ b ∷ join_lines ls
unfolding join_lines
join_lines-cons b [] = refl
join_lines-cons b (l ∷ []) = refl
join_lines-cons b (l ∷ l' ∷ ls) = refl

join_lines-empty :
    (ls : List (List ℕ)) → 0 < length ls → join_lines ([] ∷ ls) ≡ 0x0A ∷ join_lines ls
unfolding join_lines
join_lines-empty [] h = absurd (omega arith)
join_lines-empty (l ∷ ls) h = refl

-- The lines of a text, joined again, are the text.
pub join_lines-split_lines : (t : List ℕ) → join_lines (split_lines t) ≡ t
unfolding split_lines
join_lines-split_lines [] = unfold join_lines in refl
join_lines-split_lines (b ∷ bs) = elim (Bool-cases (b == 0x0A)) [
  | inl e ↦
      let same : b ≡ 0x0A = ground arith in
      rw e (
        join_lines-empty (split_lines bs) (split_lines-some bs)
        ∙ ap (0x0A ∷◌) (join_lines-split_lines bs)
        ∙ ap (λ c. c ∷ bs) (sym same))
  | inr e ↦ rw e (join_lines-cons b (split_lines bs) ∙ ap (b ∷◌) (join_lines-split_lines bs))
]

split_lines-line : (l : List ℕ) → IsLine l → split_lines l ≡ l ∷ []
unfolding split_lines
split_lines-line [] h = refl
split_lines-line (b ∷ bs) h = rw (h.0, split_lines-line bs h.1) refl

-- A text that begins with a line and a newline.
split_lines-append : (l t : List ℕ) → IsLine l → split_lines (l ++ 0x0A ∷ t) ≡ l ∷ split_lines t
unfolding split_lines
split_lines-append [] t h = refl
split_lines-append (b ∷ bs) t h = rw (h.0, split_lines-append bs t h.1) refl

-- The joined text of some lines splits into these lines again.
pub split_lines-join_lines :
    (l : List ℕ) (ls : List (List ℕ))
    → IsLine l
    → All IsLine ls
    → split_lines (join_lines (l ∷ ls)) ≡ l ∷ ls
unfolding join_lines
split_lines-join_lines l [] h k = split_lines-line l h
split_lines-join_lines l (l' ∷ ls) h k =
    split_lines-append l (join_lines (l' ∷ ls)) h ∙ ap (l ∷◌) (split_lines-join_lines l' ls k.0 k.1)

-- The lines of a text have no newline.
pub split_lines-AllLine : (t : List ℕ) → All IsLine (split_lines t)
unfolding split_lines
split_lines-AllLine [] = (tt, tt)
split_lines-AllLine (b ∷ bs) = elim (Bool-cases (b == 0x0A)) [
  | inl e ↦ rw e (tt, split_lines-AllLine bs)
  | inr e ↦ rw e (first e (split_lines bs) (split_lines-AllLine bs))
]
  where
    first :
        (b == 0x0A) ≡ false → (ls : List (List ℕ)) → All IsLine ls → All IsLine (cons_first b ls)
    first e [] all = ((e, tt), tt)
    first e (l ∷ ls) all = ((e, all.0), all.1)

-- What setting a text does.
pub record IsTaken (text : List ℕ) (buf u : TextBuffer) : Type 0 where
  pub read : to_text true u ≡ some text
  pub lines_clean : All IsLine u.lines
  pub last : line_count u ≡ suc u.cursor_row
  pub free : u.selection_active ≡ false

-- Setting a text that is not valid UTF-8, or without memory, reports false and leaves the buffer.
-- Otherwise it reports true, the text reads back as it was, no line has a newline in it, the cursor
-- is in the last line and nothing is selected.
pub set_text-read :
    (granted : Bool) (text : List ℕ) (buf : TextBuffer)
    → (((validate text && granted) ≡ false) × (set_text granted text buf ≡ (buf, false)))
      ⊎ (((validate text && granted) ≡ true)
          × ((set_text granted text buf).1 ≡ true)
          × IsTaken text buf (set_text granted text buf).0)
unfolding set_text clear_selection to_text
set_text-read granted text buf = elim (Bool-cases (validate text)) [
  | inr v ↦ rw v (inl (refl, refl))
  | inl v ↦ elim (Bool-cases granted) [
    | inr g ↦ rw (v, g) (inl (refl, refl))
    | inl g ↦ rw (v, g) (inr (refl, refl, is_taken))
  ]
]
  where
    is_taken : IsTaken text buf (clear_selection (with_lines (split_lines text) buf))
    is_taken =
        let some_lines = split_lines-some text in
        let e : (length (split_lines text) == 0) ≡ false = ground arith in
        record {
          read = rw e (ap some (join_lines-split_lines text));
          lines_clean = split_lines-AllLine text;
          last = omega arith;
          free = refl;
        }
