-- ===== src/TextInput/Text.antt =====
-- `text_input_set_text` of ui/text_input.c on a valid text.
use mathlib.Core.List.{reverse, reverse-reverse, append-nil}
use retrodesk.Prelude.{
  ℕ, ◌+◌, ◌≤◌, ◌<◌, ◌≡◌, refl, sym, ap, ◌∙◌, Bool, ◌&&◌, List, [], ◌∷◌, ◌++◌, ltb, none, some,
  false, inl, inr, arith, Option-cases, if_either, length, take,
}
use retrodesk.Growth.{reserve, reserve-le}
use retrodesk.Utf8.Codec.{bytes_of}
use retrodesk.Utf8.Text.{encode_all, encode_all-append, AllScalar}
use retrodesk.Utf8.Prefix.{valid_prefix-IsLongest}
use retrodesk.TextInput.Widget.{TextInput, grow, accepted, set_text}
use retrodesk.TextInput.Line.{Represents, take-append, All-reverse}

-- How much of a text is taken: all of it, where there is no limit or it is kept.
pub record IsAccepted (cps : List ℕ) (max_len found : ℕ) : Type 0 where
  pub kept : List ℕ
  pub cut : List ℕ
  pub split : cps ≡ kept ++ cut
  pub size : found ≡ length (encode_all kept)
  pub limit : 0 < max_len → found ≤ max_len
  pub longest :
      (cp : ℕ) (rest : List ℕ)
      → cut ≡ cp ∷ rest
      → (0 < max_len) × (max_len < found + length (bytes_of cp))

accepted-IsAccepted :
    (cps : List ℕ) (max_len : ℕ)
    → AllScalar cps
    → IsAccepted cps max_len (accepted max_len (encode_all cps))
unfolding accepted
accepted-IsAccepted cps max_len s =
    if_either (IsAccepted cps max_len) (ltb 0 max_len && ltb max_len (length (encode_all cps)))
      (λ cut.
        let p = valid_prefix-IsLongest cps max_len s in
        record {
          kept = p.kept;
          cut = p.cut;
          split = p.split;
          size = p.size;
          limit = λ _. p.fits;
          longest = λ cp rest e. (ground arith, p.longest cp rest e);
        })
      (λ whole. record {
        kept = cps;
        cut = [];
        split = sym (append-nil cps);
        size = refl;
        limit = λ h. ground arith;
        longest = λ cp rest e. absurd (cc e);
      })

AllScalar-prefix : (xs ys : List ℕ) → AllScalar (xs ++ ys) → AllScalar xs
AllScalar-prefix [] ys h = tt
AllScalar-prefix (x ∷ xs) ys h = (h.0, AllScalar-prefix xs ys h.1)

-- What setting a text does: where the memory for what is accepted of it is neither there nor granted,
-- nothing; else the line is the longest prefix of whole characters that the limit allows, with the
-- cursor at its end.
pub data Replaced (granted : Bool) (cps : List ℕ) (t u : TextInput) : Type 0 where
  refused :
      granted ≡ false
      → (found : ℕ) → IsAccepted cps t.max_len found
      → t.capacity ≤ found
      → u ≡ t
      → Replaced granted cps t u
  taken :
      (a : IsAccepted cps t.max_len u.cursor)
      → Represents (record { left = reverse a.kept; right = [] }) u
      → Replaced granted cps t u

grow-none :
    (granted : Bool) (need capacity : ℕ)
    → grow granted need capacity ≡ none
    → (granted ≡ false) × (capacity < need)
unfolding grow reserve
grow-none granted need capacity e = (ground arith, ground arith)

-- Setting a valid text leaves the longest prefix of whole characters that the limit allows, with the
-- cursor at its end; only where this prefix and its NUL need more memory than there is, and it is not
-- granted, nothing changes.
pub set_text-Replaced :
    (granted : Bool) (cps : List ℕ) (t : TextInput)
    → AllScalar cps
    → Replaced granted cps t (set_text granted (encode_all cps) t)
unfolding set_text encode_all
set_text-Replaced granted cps t s =
    elim (Option-cases (grow granted (accepted t.max_len (encode_all cps) + 1) t.capacity)) [
      | inl e ↦
          let short = grow-none granted _ t.capacity e in
          rw (e, set_text) (refused short.0 _ a (omega (arith, short.1)) refl)
      | inr (got, e) ↦ rw (e, set_text) (taken a (written got e))
    ]
  where
    a : IsAccepted cps t.max_len (accepted t.max_len (encode_all cps))
    a = accepted-IsAccepted cps t.max_len s

    all : AllScalar a.kept
    all = AllScalar-prefix a.kept a.cut (rw a.split at s)

    text : take (accepted t.max_len (encode_all cps)) (encode_all cps) ≡ encode_all a.kept
    text =
        ap (λ n. take n (encode_all cps)) a.size
        ∙ ap (take (length (encode_all a.kept)))
            (ap encode_all a.split ∙ encode_all-append a.kept a.cut)
        ∙ take-append (encode_all a.kept) (encode_all a.cut)

    enough :
        (got : ℕ)
        → grow granted (accepted t.max_len (encode_all cps) + 1) t.capacity ≡ some got
        → accepted t.max_len (encode_all cps) + 1 ≤ got
    enough got e =
        (reserve-le 64 granted (accepted t.max_len (encode_all cps) + 1) t.capacity got
          (omega arith) (unfold grow in e)).0

    written :
        (got : ℕ)
        → grow granted (accepted t.max_len (encode_all cps) + 1) t.capacity ≡ some got
        → Represents
            (record { left = reverse a.kept; right = [] })
            (record t {
              buffer = take (accepted t.max_len (encode_all cps)) (encode_all cps);
              capacity = got;
              cursor = accepted t.max_len (encode_all cps);
              scroll_offset = 0;
            })
    written got e = record {
      text =
          text
          ∙ ap encode_all (sym (reverse-reverse a.kept))
          ∙ sym (append-nil (encode_all (reverse (reverse a.kept))));
      at = a.size ∙ ap (λ xs. length (encode_all xs)) (sym (reverse-reverse a.kept));
      scalars = (rw (sym (append-nil (reverse a.kept))) (All-reverse a.kept [] all tt), tt);
      room = omega (arith, ap length text, a.size, enough got e);
      limit = λ p. omega (arith, ap length text, a.size, a.limit p);
    }
