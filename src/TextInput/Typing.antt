-- ===== src/TextInput/Typing.antt =====
-- Typing into ui/text_input.c, setting its text, and its keys as a whole.
use mathlib.Core.List.{reverse, append_assoc}
use retrodesk.Prelude.{
  ℕ, ◌+◌, ◌≤◌, ◌<◌, ◌≡◌, refl, sym, ap, ◌∙◌, none, some, Bool, true, false, ◌&&◌, ◌||◌, List, ◌∷◌,
  ◌++◌, drop, take, length, length-append, Bool-cases, Option-cases, ◌⊎◌, inl, inr, arith, ltb, leb,
  if◌then◌else◌, ◌==◌, if_either,
}
use retrodesk.Event.{KeyEvent}
use retrodesk.Growth.{reserve-le}
use retrodesk.Utf8.Codec.{is_scalar, bytes_of, encode}
use retrodesk.Utf8.Text.{encode_all}
use retrodesk.TextInput.Widget.{
  TextInput, grow, splice, typed_bytes, insert_codepoint, Action, key_bindings, binding, typed,
  type_key, handle_key,
}
use retrodesk.TextInput.Line.{
  Line, before, Represents, edit, take-Holds, drop-Holds, length-Holds, encode_all-snoc,
}
use retrodesk.TextInput.Refinement.{Represents-Holds, act-Represents}

-- A character comes in before the cursor.
abbrev pub insert : ℕ → Line → Line
insert cp l = record l { left = cp ∷ l.left }

-- What an attempt to type does: nothing, or the insertion.
abbrev pub Typed : ℕ → Line → TextInput → TextInput × Bool → Type 0
Typed cp l t r = ((r.1 ≡ false) × (r.0 ≡ t)) ⊎ ((r.1 ≡ true) × Represents (insert cp l) r.0)

encode-scalar :
    (cp : ℕ) (bytes : List ℕ)
    → encode cp ≡ some bytes
    → (is_scalar cp ≡ true) × (bytes ≡ bytes_of cp)
unfolding encode
encode-scalar cp bytes e = elim (Bool-cases (is_scalar cp)) [
  | inl s ↦ (s, ground arith)
  | inr n ↦ absurd (ground arith)
]

grow-le :
    (granted : Bool) (need capacity got : ℕ) → grow granted need capacity ≡ some got → need ≤ got
unfolding grow
grow-le granted need capacity got e = (reserve-le 64 granted need capacity got (omega arith) e).0

splice-Represents :
    (cp got : ℕ) (l : Line) (t : TextInput)
    → Represents l t
    → is_scalar cp ≡ true
    → length t.buffer + length (bytes_of cp) < got
    → (0 < t.max_len → length t.buffer + length (bytes_of cp) ≤ t.max_len)
    → Represents (insert cp l) (splice (bytes_of cp) got t)
splice-Represents cp got l t r s room fits =
    let h = Represents-Holds r in
    let now : take t.cursor t.buffer ++ (bytes_of cp ++ drop t.cursor t.buffer)
        ≡ encode_all (reverse (cp ∷ l.left)) ++ encode_all l.right =
      ap (λ ys. ys ++ (bytes_of cp ++ drop t.cursor t.buffer)) (take-Holds l t.buffer t.cursor h)
      ∙ ap (λ ys. encode_all (before l) ++ (bytes_of cp ++ ys)) (drop-Holds l t.buffer t.cursor h)
      ∙ sym (append_assoc (encode_all (before l)) (bytes_of cp) (encode_all l.right))
      ∙ ap (λ ys. ys ++ encode_all l.right) (sym (encode_all-snoc cp l.left)) in
    let width : length (encode_all (reverse (cp ∷ l.left)))
        ≡ length (encode_all (before l)) + length (bytes_of cp) =
      ap length (encode_all-snoc cp l.left) ∙ length-append (encode_all (before l)) (bytes_of cp) in
    let size : length (take t.cursor t.buffer ++ (bytes_of cp ++ drop t.cursor t.buffer))
        ≡ length t.buffer + length (bytes_of cp) =
      omega (
        arith,
        ap length now,
        width,
        length-append {0} (encode_all (reverse (cp ∷ l.left))) (encode_all l.right),
        length-Holds l t.buffer t.cursor h,
        r.at,
      ) in
    record {
      text = now;
      at = omega (arith, width, r.at);
      scalars = ((s, r.scalars.0), r.scalars.1);
      room = omega (arith, size);
      limit = λ p. omega (arith, size, fits p);
    }

-- Inserting a code point either reports false and changes nothing, or reports true and puts the
-- character before the cursor.
pub insert_codepoint-Typed :
    (granted : Bool) (cp : ℕ) (l : Line) (t : TextInput)
    → Represents l t
    → Typed cp l t (insert_codepoint granted cp t)
unfolding insert_codepoint
insert_codepoint-Typed granted cp l t r =
    if_either (Typed cp l t) (ltb cp 0x20 || cp == 0x7F) (λ _. inl (refl, refl)) (λ _. encoded)
  where
    need : ℕ
    need = length t.buffer + length (bytes_of cp)

    granted_or_not :
        is_scalar cp ≡ true
        → (ltb 0 t.max_len && ltb t.max_len need) ≡ false
        → Typed cp l t (elim (grow granted (need + 1) t.capacity) [
          | none ↦ (t, false)
          | some got ↦ (splice (bytes_of cp) got t, true)
        ])
    granted_or_not s fits = elim (Option-cases (grow granted (need + 1) t.capacity)) [
      | inl e ↦ rw e (inl (refl, refl))
      | inr (got, e) ↦ rw e (
          inr (
            refl,
            splice-Represents cp got l t r s
                (omega (arith, (grow-le granted (need + 1) t.capacity got e))) (λ p. ground arith),
          ))
    ]

    encoded : Typed cp l t (typed_bytes granted (encode cp) t)
    encoded = elim (Option-cases (encode cp)) [
      | inl e ↦ rw e (inl (refl, refl))
      | inr (bytes, e) ↦
          let (s, same) = encode-scalar cp bytes e in
          rw (e ∙ ap some same) (
            if_either (Typed cp l t) (ltb 0 t.max_len && ltb t.max_len need) (λ _. inl (refl, refl))
              (λ fits. granted_or_not s fits))
    ]

-- `text_input_handle_key` on a text input that represents a line: a bound key edits the line; any
-- other key changes nothing and is not consumed, or types its code point.
pub handle_key-Represents :
    (granted : Bool) (k : KeyEvent) (l : Line) (t : TextInput)
    → Represents l t
    → ((a : Action) × (binding k.key_code key_bindings ≡ some a)
        × Represents (edit a l) (handle_key granted k t).0)
      ⊎ ((binding k.key_code key_bindings ≡ none) × Typed (typed k) l t (handle_key granted k t))
unfolding handle_key type_key
handle_key-Represents granted k l t r = elim (Option-cases (binding k.key_code key_bindings)) [
  | inl e ↦ inr (
    e,
    rw (e, handle_key)
        (if_either (Typed (typed k) l t)
          (k.is_printable && leb 0x20 (typed k) && (if typed k == 0x7F then false else true))
          (λ _. insert_codepoint-Typed granted (typed k) l t r) (λ _. inl (refl, refl))),
  )
  | inr (a, e) ↦ inl (a, e, rw (e, handle_key) (act-Represents a l t r))
]
