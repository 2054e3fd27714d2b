-- ===== src/TextBuffer/Setting.antt =====
-- `text_buffer_set_text` of ui/text_buffer.c as typing a whole text into an empty buffer.
use mathlib.Core.List.{reverse, reverse-cons, append_assoc, append-nil}
use retrodesk.Prelude.Middle.{}
use retrodesk.Prelude.{
  ℕ, ◌<◌, ◌≡◌, refl, sym, ap, ◌∙◌, true, false, List, [], ◌∷◌, ◌++◌, map, length, ◌==◌, leb,
  if◌then◌else◌, if_either, Bool-cases, inl, inr, arith, All,
}
use retrodesk.Utf8.Codec.{bytes_of}
use retrodesk.Utf8.Text.{encode_all, AllScalar}
use retrodesk.TextInput.Line.{before, encode_all-snoc}
use retrodesk.TextBuffer.Content.{cons_first, split_lines}
use retrodesk.TextBuffer.Dispatch.{newlines}
use retrodesk.TextBuffer.Doc.{Doc, rows_of}
use retrodesk.TextBuffer.Edit.{edit, insert}
use retrodesk.TextBuffer.Rows.{line}
use retrodesk.TextBuffer.Flat.{flat, flat_above, flat_below, edit-flat}
use retrodesk.TextBuffer.Offset.{HasRows}
use retrodesk.TextBuffer.Backspace.{doc, All-reversed}
use retrodesk.TextBuffer.RoundTrip.{IsLine, split_lines-some}

-- The characters of a text typed one after the other.
abbrev pub write_one : ℕ → Doc → Doc
write_one c d = if c == 0x0A then edit newlines d else insert c d

abbrev pub write : List ℕ → Doc → Doc
write [] d = d
write (c ∷ cs) d = write cs (write_one c d)

-- A text before the first of some lines.
abbrev pub prepend : List ℕ → List (List ℕ) → List (List ℕ)
prepend xs [] = xs ∷ []
prepend xs (l ∷ ls) = (xs ++ l) ∷ ls

pub prepend-nil : (ls : List (List ℕ)) → 0 < length ls → prepend [] ls ≡ ls
prepend-nil [] h = absurd (omega arith)
prepend-nil (l ∷ ls) h = refl

prepend-append :
    (xs ys : List ℕ) (ls : List (List ℕ)) → prepend xs (prepend ys ls) ≡ prepend (xs ++ ys) ls
prepend-append xs ys [] = refl
prepend-append xs ys (l ∷ ls) = ap (λ k. k ∷ ls) (sym (append_assoc xs ys l))

-- The bytes of a character other than a newline are none either.
bytes_of-IsLine : (c : ℕ) → (c == 0x0A) ≡ false → IsLine (bytes_of c)
unfolding bytes_of
bytes_of-IsLine c h =
    if_either IsLine (leb c 0x7F) (λ _. (h, tt))
      (λ _.
        if_either IsLine (leb c 0x7FF) (λ _. (ground arith, (ground arith, tt)))
          (λ _.
            if_either IsLine (leb c 0xFFFF)
              (λ _. (ground arith, (ground arith, (ground arith, tt))))
              (λ _. (ground arith, (ground arith, (ground arith, (ground arith, tt)))))))

split_lines-prepend :
    (xs ys : List ℕ) → IsLine xs → split_lines (xs ++ ys) ≡ prepend xs (split_lines ys)
unfolding split_lines
split_lines-prepend [] ys h = sym (prepend-nil (split_lines ys) (split_lines-some ys))
split_lines-prepend (b ∷ bs) ys h = rw (h.0, split_lines-prepend bs ys h.1) (first (split_lines ys))
  where
    first : (ls : List (List ℕ)) → cons_first b (prepend bs ls) ≡ prepend (b ∷ bs) ls
    first [] = refl
    first (l ∷ ls) = refl

-- What a text is written into: a document that ends at its cursor, where the text `t` follows.
pub record Written (t cps : List ℕ) (above : List (List ℕ)) (left : List ℕ) (d : Doc) : Type 0 where
  pub lines :
      rows_of d.above ++ prepend (encode_all (before d.line)) (split_lines t)
      ≡ rows_of above ++ prepend (encode_all (reverse left)) (split_lines (encode_all cps ++ t))
  pub right : d.line.right ≡ []
  pub below : d.below ≡ []
  pub scalars : AllScalar d.line.left × All AllScalar d.above

newline_first : (c : ℕ) (bs : List ℕ) → (c == 0x0A) ≡ true → 0x0A ∷ bs ≡ bytes_of c ++ bs
unfolding bytes_of
newline_first c bs e = let same : 0x0A ≡ c = ground arith in ap (λ k. bytes_of k ++ bs) same

-- A line that ends, before the lines of what follows.
broken :
    (rows : List (List ℕ)) (row : List ℕ) (ls : List (List ℕ))
    → 0 < length ls
    → (rows ++ (row ∷ [])) ++ prepend [] ls ≡ rows ++ prepend row ([] ∷ ls)
broken rows row ls h = rw (prepend-nil ls h, append-nil row) (append_assoc rows (row ∷ []) ls)

pub written :
    (t cps : List ℕ) (above : List (List ℕ)) (left : List ℕ)
    → AllScalar cps
    → AllScalar left
    → All AllScalar above
    → Written t cps above left (write cps (doc above left [] []))
unfolding encode_all rows_of split_lines
written t [] above left s l a = record {
  lines = refl;
  right = refl;
  below = refl;
  scalars = (l, a);
}
written t (c ∷ cs) above left s l a = elim (Bool-cases (c == 0x0A)) [
  | inl e ↦
      let w = written t cs (reverse left ∷ above) [] s.1 tt (All-reversed left l, a) in
      rw e (record {
        lines =
            w.lines
            ∙ broken (rows_of above) (encode_all (reverse left)) (split_lines (encode_all cs ++ t))
                (split_lines-some (encode_all cs ++ t))
            ∙ ap (λ b. rows_of above ++ prepend (encode_all (reverse left)) (split_lines b))
                (newline_first c (encode_all cs ++ t) e
                  ∙ sym (append_assoc (bytes_of c) (encode_all cs) t));
        right = w.right;
        below = w.below;
        scalars = w.scalars;
      })
  | inr e ↦
      let w = written t cs above (c ∷ left) s.1 (s.0, l) a in
      rw e (record {
        lines =
            w.lines
            ∙ ap (λ b. rows_of above ++ prepend b (split_lines (encode_all cs ++ t)))
                (encode_all-snoc c left)
            ∙ ap (rows_of above ++◌) (
                sym (
                  prepend-append (encode_all (reverse left)) (bytes_of c)
                    (split_lines (encode_all cs ++ t)))
                ∙ ap (prepend (encode_all (reverse left))) (
                    sym
                      (split_lines-prepend (bytes_of c) (encode_all cs ++ t) (bytes_of-IsLine c e))
                    ∙ ap split_lines (sym (append_assoc (bytes_of c) (encode_all cs) t))));
        right = w.right;
        below = w.below;
        scalars = w.scalars;
      })
]

-- The rows of a text: the first, and those behind it.
unfoldable pub rows_after : List ℕ → List ℕ × List (List ℕ)
rows_after [] = ([], [])
rows_after (c ∷ cs) =
    let rest = rows_after cs in if c == 0x0A then ([], rest.0 ∷ rest.1) else (c ∷ rest.0, rest.1)

-- The document of a text with the cursor behind `before` and before `after`.
abbrev pub place : List ℕ → List ℕ → Doc
place xs ys = record (write xs (doc [] [] [] [])) {
  line = line (write xs (doc [] [] [] [])).line.left (rows_after ys).0;
  below = (rows_after ys).1;
}

split_lines-rows_after :
    (ys : List ℕ)
    → split_lines (encode_all ys) ≡ encode_all (rows_after ys).0 ∷ map encode_all (rows_after ys).1
unfolding encode_all rows_after split_lines
split_lines-rows_after [] = refl
split_lines-rows_after (c ∷ cs) = elim (Bool-cases (c == 0x0A)) [
  | inl e ↦ rw (e, ← newline_first c (encode_all cs) e) (ap ([] ∷◌) (split_lines-rows_after cs))
  | inr e ↦ rw e (
      split_lines-prepend (bytes_of c) (encode_all cs) (bytes_of-IsLine c e)
      ∙ ap (prepend (bytes_of c)) (split_lines-rows_after cs))
]

rows_after-flat : (ys : List ℕ) → (rows_after ys).0 ++ flat_below (rows_after ys).1 ≡ ys
unfolding rows_after flat_below
rows_after-flat [] = refl
rows_after-flat (c ∷ cs) = elim (Bool-cases (c == 0x0A)) [
  | inl e ↦
      let same : 0x0A ≡ c = ground arith in
      rw e (
        ap (λ b. b ∷ ((rows_after cs).0 ++ flat_below (rows_after cs).1)) same
        ∙ ap (c ∷◌) (rows_after-flat cs))
  | inr e ↦ rw e (ap (c ∷◌) (rows_after-flat cs))
]

rows_after-AllScalar :
    (ys : List ℕ) → AllScalar ys → AllScalar (rows_after ys).0 × All AllScalar (rows_after ys).1
unfolding rows_after
rows_after-AllScalar [] s = (tt, tt)
rows_after-AllScalar (c ∷ cs) s =
    let rest = rows_after-AllScalar cs s.1 in
    elim (Bool-cases (c == 0x0A)) [
      | inl e ↦ rw e (tt, (rest.0, rest.1))
      | inr e ↦ rw e ((s.0, rest.0), rest.1)
    ]

write-flat : (xs : List ℕ) (d : Doc) → (flat (write xs d)).left ≡ reverse xs ++ (flat d).left
write-flat [] d = refl
write-flat (c ∷ cs) d =
    let one : (flat (write_one c d)).left ≡ c ∷ (flat d).left = elim (Bool-cases (c == 0x0A)) [
      | inl e ↦
          let same : 0x0A ≡ c = ground arith in
          rw e (ap (λ l. l.left) (edit-flat d).0 ∙ ap (λ b. b ∷ (flat d).left) same)
      | inr e ↦ rw e (unfold flat in refl)
    ] in
    write-flat cs (write_one c d)
    ∙ ap (reverse cs ++◌) one
    ∙ sym (append_assoc (reverse cs) (c ∷ []) (flat d).left)
    ∙ ap (λ zs. zs ++ (flat d).left) (sym (reverse-cons c cs))

-- The place between two texts.
pub place-flat : (xs ys : List ℕ) → flat (place xs ys) ≡ record { left = reverse xs; right = ys }
unfolding flat flat_above
place-flat xs ys =
    let left : (flat (place xs ys)).left ≡ reverse xs =
      write-flat xs (doc [] [] [] []) ∙ append-nil (reverse xs) in
    ap (λ zs. record { left = zs; right = (flat (place xs ys)).right }) left
    ∙ ap (λ zs. record { left = reverse xs; right = zs }) (rows_after-flat ys)

pub place-HasRows :
    (xs ys : List ℕ)
    → AllScalar xs
    → AllScalar ys
    → HasRows (place xs ys) (split_lines (encode_all xs ++ encode_all ys))
place-HasRows xs ys s s' =
    let d = write xs (doc [] [] [] []) in
    let w = written (encode_all ys) xs [] [] s tt tt in
    let after = rows_after-AllScalar ys s' in
    record {
      rows =
          sym (
            w.lines
            ∙ (unfold rows_of encode_all in
                prepend-nil _ (split_lines-some (encode_all xs ++ encode_all ys))))
          ∙ ap (λ ls. rows_of d.above ++ prepend (encode_all (before d.line)) ls)
              (split_lines-rows_after ys);
      scalars = (w.scalars.0, after.0);
      others = (w.scalars.1, after.1);
    }
