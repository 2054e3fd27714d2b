-- ===== src/TextInput/Line.antt =====
-- What ui/text_input.c implements: a line of code points with a cursor between two of them.
use mathlib.Core.List.{reverse, reverse-cons, append_assoc, append-nil}
use retrodesk.Prelude.{
  ℕ, ◌+◌, ◌≤◌, ◌<◌, ◌≡◌, refl, sym, ap, ◌∙◌, List, [], ◌∷◌, ◌++◌, drop, take, length, length-append,
  arith,
}
use retrodesk.Utf8.Codec.{bytes_of}
use retrodesk.Utf8.Scan.{prev, next}
use retrodesk.Utf8.Text.{
  encode_all, encode_all-append, AllScalar, bytes_of-pos, prev-bytes_of, next-bytes_of, drop-append,
}
use retrodesk.TextInput.Widget.{
  TextInput, Action, backspaces, homes, ends, clears, kills, deletes, lefts, rights,
}

-- The code points on either side of the cursor, those nearest to it first.
pub record Line : Type 0 where
  pub left : List ℕ
  pub right : List ℕ

abbrev pub before : Line → List ℕ
before l = reverse l.left

-- The buffer holds the text of the line, the cursor stands at a boundary of two characters, the
-- array has room for the text and its NUL, and the limit is kept.
pub record Represents (l : Line) (t : TextInput) : Type 0 where
  pub text : t.buffer ≡ encode_all (before l) ++ encode_all l.right
  pub at : t.cursor ≡ length (encode_all (before l))
  pub scalars : AllScalar l.left × AllScalar l.right
  pub room : length t.buffer < t.capacity
  pub limit : 0 < t.max_len → length t.buffer ≤ t.max_len

-- The same of the parts of a text input.
pub record Holds (l : Line) (buffer : List ℕ) (cursor : ℕ) : Type 0 where
  pub text : buffer ≡ encode_all (before l) ++ encode_all l.right
  pub at : cursor ≡ length (encode_all (before l))
  pub scalars : AllScalar l.left × AllScalar l.right

pub take-append {ℓ} : {A : Type ℓ} (xs ys : List A) → take (length xs) (xs ++ ys) ≡ xs
take-append [] ys = refl
take-append (x ∷ xs) ys = ap (x ∷◌) (take-append xs ys)

pub encode_all-snoc :
    (x : ℕ) (l : List ℕ) → encode_all (reverse (x ∷ l)) ≡ encode_all (reverse l) ++ bytes_of x
unfolding encode_all
encode_all-snoc x l =
    ap encode_all (reverse-cons x l)
    ∙ encode_all-append (reverse l) (x ∷ [])
    ∙ ap (encode_all (reverse l) ++◌) (append-nil (bytes_of x))

pub All-reverse : (xs ys : List ℕ) → AllScalar xs → AllScalar ys → AllScalar (reverse xs ++ ys)
All-reverse [] ys h k = k
All-reverse (x ∷ xs) ys h k =
    let e : reverse (x ∷ xs) ++ ys ≡ reverse xs ++ (x ∷ ys) =
      ap (λ zs. zs ++ ys) (reverse-cons x xs) ∙ append_assoc (reverse xs) (x ∷ []) ys in
    rw e (All-reverse xs (x ∷ ys) h.1 (h.0, k))

-- The two halves of the buffer at the cursor.
module _ (l : Line) (buffer : List ℕ) (cursor : ℕ) (h : Holds l buffer cursor) where
  pub take-Holds : take cursor buffer ≡ encode_all (before l)
  take-Holds = rw (h.text, h.at) (take-append (encode_all (before l)) _)

  pub drop-Holds : drop cursor buffer ≡ encode_all l.right
  drop-Holds = rw (h.text, h.at) (drop-append (encode_all (before l)) _)

  pub length-Holds : length buffer ≡ cursor + length (encode_all l.right)
  length-Holds = omega (
    arith,
    ap length h.text,
    length-append {0} (encode_all (before l)) (encode_all l.right),
    h.at,
  )

-- The buffer around a character before the cursor.
module _ (x : ℕ) (xs right buffer : List ℕ) (cursor : ℕ)
    (h : Holds (record { left = x ∷ xs; right = right }) buffer cursor) where
  around_left :
      (buffer ≡ encode_all (reverse xs) ++ (bytes_of x ++ encode_all right))
      × (cursor ≡ length (encode_all (reverse xs) ++ bytes_of x))
  around_left = (
    h.text
        ∙ ap (λ ys. ys ++ encode_all right) (encode_all-snoc x xs)
        ∙ append_assoc (encode_all (reverse xs)) (bytes_of x) (encode_all right),
    h.at ∙ ap length (encode_all-snoc x xs),
  )

  pub cursor-pos : 0 < cursor
  cursor-pos = omega (
    arith,
    around_left.1,
    length-append {0} (encode_all (reverse xs)) (bytes_of x),
    bytes_of-pos x h.scalars.0.0,
  )

  pub prev-Holds : prev buffer cursor ≡ length (encode_all (reverse xs))
  prev-Holds =
      rw (around_left.0, around_left.1)
        (prev-bytes_of (encode_all (reverse xs)) (encode_all right) x h.scalars.0.0)

  pub take-prev : take (prev buffer cursor) buffer ≡ encode_all (reverse xs)
  take-prev = rw (prev-Holds, around_left.0) (take-append (encode_all (reverse xs)) _)

-- The buffer around a character behind the cursor.
module _ (x : ℕ) (left right buffer : List ℕ) (cursor : ℕ)
    (h : Holds (record { left = left; right = x ∷ right }) buffer cursor) where
  pub next-Holds : next buffer cursor ≡ length (encode_all (reverse (x ∷ left)))
  next-Holds =
      rw (h.text, h.at, encode_all-snoc x left)
        (unfold encode_all in
          next-bytes_of (encode_all (reverse left)) (encode_all right) x h.scalars.1.0)

  pub drop-next : drop (next buffer cursor) buffer ≡ encode_all right
  unfolding encode_all
  drop-next =
      let e : buffer ≡ encode_all (reverse (x ∷ left)) ++ encode_all right =
        h.text
        ∙ sym (append_assoc (encode_all (reverse left)) (bytes_of x) (encode_all right))
        ∙ ap (λ ys. ys ++ encode_all right) (sym (encode_all-snoc x left)) in
      rw (next-Holds, e) (drop-append (encode_all (reverse (x ∷ left))) _)

-- What an action does to the line.
unfoldable pub edit : Action → Line → Line
edit backspaces l = elim l.left [ [] ↦ l | x ∷ xs ↦ record l { left = xs } ]
edit deletes l = elim l.right [ [] ↦ l | x ∷ xs ↦ record l { right = xs } ]
edit lefts l = elim l.left [ [] ↦ l | x ∷ xs ↦ record { left = xs; right = x ∷ l.right } ]
edit rights l = elim l.right [ [] ↦ l | x ∷ xs ↦ record { left = x ∷ l.left; right = xs } ]
edit homes l = record { left = []; right = reverse l.left ++ l.right }
edit ends l = record { left = reverse l.right ++ l.left; right = [] }
edit kills l = record l { right = [] }
edit clears l = record { left = []; right = [] }
