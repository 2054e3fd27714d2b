-- ===== src/TextInput/Refinement.antt =====
-- Every action of ui/text_input.c does to the buffer what `edit` does to the line.
use mathlib.Core.List.{reverse, append_assoc, append-nil, reverse-append, reverse-reverse}
use retrodesk.Prelude.{
  ℕ, zero, suc, ◌+◌, ◌≤◌, ◌<◌, ◌≡◌, refl, sym, ap, ◌∙◌, true, false, List, [], ◌∷◌, ◌++◌, drop,
  take, length, length-append, arith, ltb, leb, ◌==◌, if_either, length-take, length-drop,
}
use retrodesk.Utf8.Codec.{bytes_of}
use retrodesk.Utf8.Scan.{prev_from, prev, next}
use retrodesk.Utf8.Text.{encode_all, encode_all-append, bytes_of-pos}
use retrodesk.TextInput.Widget.{
  TextInput, clear, delete_backward, delete_forward, handle_home, handle_end, handle_left,
  handle_right, handle_kill_to_end, handle_clear, Action, backspaces, homes, ends, clears, kills,
  deletes, lefts, rights, act,
}
use retrodesk.TextInput.Line.{
  Line, Represents, Holds, edit, take-Holds, drop-Holds, length-Holds, cursor-pos, prev-Holds,
  take-prev, next-Holds, drop-next, All-reverse, encode_all-snoc,
}

pub Represents-Holds : {l : Line} {t : TextInput} → Represents l t → Holds l t.buffer t.cursor
Represents-Holds r = record { text = r.text; at = r.at; scalars = r.scalars }

encode_all-nil : encode_all [] ≡ []
unfolding encode_all
encode_all-nil = refl

abbrev line : List ℕ → List ℕ → Line
line left right = record { left = left; right = right }

backspace-Holds :
    (left right : List ℕ) (t : TextInput)
    → Holds (line left right) t.buffer t.cursor
    → Holds
        (edit backspaces (line left right))
        (delete_backward t).0.buffer
        (delete_backward t).0.cursor
unfolding edit delete_backward
backspace-Holds [] right t h =
    let zero_at : t.cursor ≡ 0 = h.at ∙ ap length encode_all-nil in
    let e : (t.cursor == 0) ≡ true = ground arith in rw e h
backspace-Holds (x ∷ xs) right t h =
    let p = cursor-pos x xs right t.buffer t.cursor h in
    let e : (t.cursor == 0) ≡ false = ground arith in
    rw e (record {
      text =
          ap (λ ys. ys ++ drop t.cursor t.buffer) (take-prev x xs right t.buffer t.cursor h)
          ∙ ap (encode_all (reverse xs) ++◌) (drop-Holds (line (x ∷ xs) right) t.buffer t.cursor h);
      at = prev-Holds x xs right t.buffer t.cursor h;
      scalars = (h.scalars.0.1, h.scalars.1);
    })

delete-Holds :
    (left right : List ℕ) (t : TextInput)
    → Holds (line left right) t.buffer t.cursor
    → Holds (edit deletes (line left right)) (delete_forward t).0.buffer (delete_forward t).0.cursor
unfolding edit delete_forward
delete-Holds left [] t h =
    let len = length-Holds (line left []) t.buffer t.cursor h in
    let none_right : length (encode_all []) ≡ 0 = ap length encode_all-nil in
    let e : leb (length t.buffer) t.cursor ≡ true = ground arith in rw e h
delete-Holds left (x ∷ right) t h =
    let len = length-Holds (line left (x ∷ right)) t.buffer t.cursor h in
    let some_right : length (encode_all (x ∷ right))
        ≡ length (bytes_of x) + length (encode_all right) =
      unfold encode_all in length-append (bytes_of x) (encode_all right) in
    let e : leb (length t.buffer) t.cursor ≡ false = ground (arith, bytes_of-pos x h.scalars.1.0) in
    rw e (record {
      text =
          ap (λ ys. ys ++ drop (next t.buffer t.cursor) t.buffer)
            (take-Holds (line left (x ∷ right)) t.buffer t.cursor h)
          ∙ ap (encode_all (reverse left) ++◌) (drop-next x left right t.buffer t.cursor h);
      at = h.at;
      scalars = (h.scalars.0, h.scalars.1.1);
    })

left-Holds :
    (left right : List ℕ) (t : TextInput)
    → Holds (line left right) t.buffer t.cursor
    → Holds (edit lefts (line left right)) (handle_left t).0.buffer (handle_left t).0.cursor
unfolding edit handle_left encode_all
left-Holds [] right t h =
    let zero_at : t.cursor ≡ 0 = h.at in let e : ltb 0 t.cursor ≡ false = ground arith in rw e h
left-Holds (x ∷ xs) right t h =
    let p = cursor-pos x xs right t.buffer t.cursor h in
    let e : ltb 0 t.cursor ≡ true = ground arith in
    rw e (record {
      text =
          h.text
          ∙ ap (λ ys. ys ++ encode_all right) (encode_all-snoc x xs)
          ∙ append_assoc (encode_all (reverse xs)) (bytes_of x) (encode_all right);
      at = prev-Holds x xs right t.buffer t.cursor h;
      scalars = (h.scalars.0.1, (h.scalars.0.0, h.scalars.1));
    })

right-Holds :
    (left right : List ℕ) (t : TextInput)
    → Holds (line left right) t.buffer t.cursor
    → Holds (edit rights (line left right)) (handle_right t).0.buffer (handle_right t).0.cursor
unfolding edit handle_right encode_all
right-Holds left [] t h =
    let len = length-Holds (line left []) t.buffer t.cursor h in
    let none_right : length (encode_all []) ≡ 0 = refl in
    let e : ltb t.cursor (length t.buffer) ≡ false = ground arith in rw e h
right-Holds left (x ∷ right) t h =
    let len = length-Holds (line left (x ∷ right)) t.buffer t.cursor h in
    let some_right = length-append (bytes_of x) (encode_all right) in
    let e : ltb t.cursor (length t.buffer) ≡ true = ground (arith, bytes_of-pos x h.scalars.1.0) in
    rw e (record {
      text =
          h.text
          ∙ sym (append_assoc (encode_all (reverse left)) (bytes_of x) (encode_all right))
          ∙ ap (λ ys. ys ++ encode_all right) (sym (encode_all-snoc x left));
      at = next-Holds x left right t.buffer t.cursor h;
      scalars = ((h.scalars.1.0, h.scalars.0), h.scalars.1.1);
    })

home-Holds :
    (l : Line) (t : TextInput)
    → Holds l t.buffer t.cursor
    → Holds (edit homes l) (handle_home t).0.buffer (handle_home t).0.cursor
unfolding edit handle_home encode_all
home-Holds l t h = record {
  text = h.text ∙ sym (encode_all-append (reverse l.left) l.right);
  at = refl;
  scalars = (tt, All-reverse l.left l.right h.scalars.0 h.scalars.1);
}

end-Holds :
    (l : Line) (t : TextInput)
    → Holds l t.buffer t.cursor
    → Holds (edit ends l) (handle_end t).0.buffer (handle_end t).0.cursor
unfolding edit handle_end encode_all
end-Holds l t h =
    let all : reverse (reverse l.right ++ l.left) ≡ reverse l.left ++ l.right =
      reverse-append (reverse l.right) l.left ∙ ap (reverse l.left ++◌) (reverse-reverse l.right) in
    let same : t.buffer ≡ encode_all (reverse (reverse l.right ++ l.left)) =
      h.text ∙ sym (encode_all-append (reverse l.left) l.right) ∙ ap encode_all (sym all) in
    record {
      text = same ∙ sym (append-nil _);
      at = ap length same;
      scalars = (All-reverse l.right l.left h.scalars.1 h.scalars.0, tt);
    }

kill-Holds :
    (l : Line) (t : TextInput)
    → Holds l t.buffer t.cursor
    → Holds (edit kills l) (handle_kill_to_end t).0.buffer (handle_kill_to_end t).0.cursor
unfolding edit handle_kill_to_end encode_all
kill-Holds l t h =
    if_either (λ ys. Holds (record l { right = [] }) ys t.cursor) (ltb t.cursor (length t.buffer))
      (λ _. record { text = cut; at = h.at; scalars = (h.scalars.0, tt) })
      (λ at_end. record {
        text = sym (take-all t.buffer t.cursor (ground arith)) ∙ cut;
        at = h.at;
        scalars = (h.scalars.0, tt);
      })
  where
    cut : take t.cursor t.buffer ≡ encode_all (reverse l.left) ++ []
    cut = take-Holds l t.buffer t.cursor h ∙ sym (append-nil _)

    take-all : (bs : List ℕ) (n : ℕ) → length bs ≤ n → take n bs ≡ bs
    take-all [] zero e = refl
    take-all [] (suc n) e = refl
    take-all (b ∷ bs) zero e = absurd (omega arith)
    take-all (b ∷ bs) (suc n) e = ap (b ∷◌) (take-all bs n (omega arith))

clear-Holds :
    (l : Line) (t : TextInput)
    → Holds (edit clears l) (handle_clear t).0.buffer (handle_clear t).0.cursor
unfolding edit handle_clear clear encode_all
clear-Holds l t = record { text = refl; at = refl; scalars = (tt, tt) }

act-Holds :
    (a : Action) (l : Line) (t : TextInput)
    → Holds l t.buffer t.cursor
    → Holds (edit a l) (act a t).0.buffer (act a t).0.cursor
unfolding act
act-Holds backspaces l t h = backspace-Holds l.left l.right t h
act-Holds deletes l t h = delete-Holds l.left l.right t h
act-Holds lefts l t h = left-Holds l.left l.right t h
act-Holds rights l t h = right-Holds l.left l.right t h
act-Holds homes l t h = home-Holds l t h
act-Holds ends l t h = end-Holds l t h
act-Holds kills l t h = kill-Holds l t h
act-Holds clears l t h = clear-Holds l t

-- What a cut out of the buffer leaves is no longer than the buffer.
length-cut : (bs : List ℕ) (p c : ℕ) → p ≤ c → length (take p bs ++ drop c bs) ≤ length bs
length-cut bs p c h =
    omega
      (arith, length-append {0} (take p bs) (drop c bs), length-take {0} p bs, length-drop {0} c bs)

prev_from-le : (text : List ℕ) (pos : ℕ) → prev_from text pos ≤ pos
unfolding prev_from
prev_from-le text zero = omega arith
prev_from-le text (suc pos) = ground (arith, prev_from-le text pos)

prev-le : (text : List ℕ) (offset : ℕ) → prev text offset ≤ offset
unfolding prev
prev-le text zero = omega arith
prev-le text (suc pos) = omega (arith, prev_from-le text pos)

next-ge : (text : List ℕ) (offset : ℕ) → offset < length text → offset ≤ next text offset
unfolding next
next-ge text offset h = ground arith

-- The actions take no more room, and leave the capacity and the limit.
record IsWithin (t u : TextInput) : Type 0 where
  length_le : length u.buffer ≤ length t.buffer
  capacity : u.capacity ≡ t.capacity
  max_len : u.max_len ≡ t.max_len

act-IsWithin : (a : Action) (t : TextInput) → IsWithin t (act a t).0
unfolding act delete_backward delete_forward handle_home handle_end handle_left handle_right
    handle_kill_to_end handle_clear clear
act-IsWithin backspaces t =
    ground (arith, length-cut t.buffer (prev t.buffer t.cursor) t.cursor, prev-le t.buffer t.cursor)
act-IsWithin deletes t =
    ground (arith, length-cut t.buffer t.cursor (next t.buffer t.cursor), next-ge t.buffer t.cursor)
act-IsWithin kills t = ground (arith, length-take t.cursor t.buffer)
act-IsWithin homes t = ground arith
act-IsWithin ends t = ground arith
act-IsWithin lefts t = ground arith
act-IsWithin rights t = ground arith
act-IsWithin clears t = ground arith

-- An action on a text input that represents a line gives one that represents the edited line: the
-- two movements and deletions go by whole characters, whatever their encodings, the cursor stays at
-- a boundary between characters and the text stays valid, within its limit and its memory.
pub act-Represents :
    (a : Action) (l : Line) (t : TextInput) → Represents l t → Represents (edit a l) (act a t).0
act-Represents a l t r =
    let h = act-Holds a l t (Represents-Holds r) in
    let w = act-IsWithin a t in
    record {
      text = h.text;
      at = h.at;
      scalars = h.scalars;
      room = omega (arith, w.length_le, w.capacity, r.room);
      limit = λ p. omega (arith, w.length_le, w.max_len, r.limit (omega (arith, w.max_len)));
    }
