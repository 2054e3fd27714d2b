-- ===== src/Button.antt =====
-- ui/button.h and ui/button.c: a push button.
use retrodesk.Prelude.{
  ℕ, ◌+◌, ◌≡◌, refl, Option, none, some, Bool, true, false, ◌&&◌, ◌||◌, not, List, [], ◌∷◌, ◌++◌,
  ◌==◌, if◌then◌else◌, length, length-append, ◌⊎◌, inl, inr, arith, if_either, Option-cases,
}
use retrodesk.Prelude.Int.{ℤ, pos, ◌-ℤ◌, ltb_ℤ, eqb_ℤ}
use retrodesk.Event.{KeyEvent, MouseEvent}

-- A label is the list of its bytes. `callback` with its user data is a number, as a function pointer
-- is, and `calls` are the calls of it, the last one first.
pub record Button : Type 0 where
  pub label : List ℕ
  pub label_len : ℕ
  pub focused : Bool
  pub enabled : Bool
  pub callback : Option ℕ
  pub calls : List ℕ

-- `if (!s) s = "";` of `button_strdup`
abbrev label_of : Option (List ℕ) → List ℕ
label_of none = []
label_of (some s) = s

-- `button_activate`
unfoldable pub activate : Button → Button
activate b = elim b.callback [
  | none ↦ b
  | some cb ↦ if b.enabled then record b { calls = cb ∷ b.calls } else b
]

-- `button_create`, where the allocations succeed.
unfoldable pub create : Option (List ℕ) → Button
create label = record {
  label = label_of label;
  label_len = length (label_of label);
  focused = false;
  enabled = true;
  callback = none;
  calls = [];
}

unfoldable pub set_label : Bool → Option (List ℕ) → Button → Button × Bool
set_label copied label b =
    if copied
    then (record b { label = label_of label; label_len = length (label_of label) }, true)
    else (b, false)

unfoldable pub set_focused : Bool → Button → Button
set_focused focused b = record b { focused = focused }

unfoldable pub set_enabled : Bool → Button → Button
set_enabled enabled b = record b { enabled = enabled }

unfoldable pub set_callback : Option ℕ → Button → Button
set_callback callback b = record b { callback = callback }

abbrev is_enter : KeyEvent → Bool
is_enter k = eqb_ℤ k.key_code (pos 10) || eqb_ℤ k.key_code (pos 13)

abbrev is_space : KeyEvent → Bool
is_space k = k.is_printable && k.ascii == 0x20

unfoldable pub handle_key : KeyEvent → Button → Button × Bool
unfolding activate
handle_key k b =
    if not b.focused || not b.enabled
    then (b, false)
    else if is_enter k || is_space k
    then (activate b, true)
    else (b, false)

unfoldable pub handle_mouse : MouseEvent → ℤ → ℤ → ℤ → Button → Button × Bool
unfolding activate
handle_mouse m widget_y widget_x widget_w b =
    let rel_y = m.y -ℤ widget_y in
    let rel_x = m.x -ℤ widget_x in
    if not b.enabled
    then (b, false)
    else if not m.button1_clicked
    then (b, false)
    else if not (eqb_ℤ rel_y (pos 0))
    then (b, false)
    else if ltb_ℤ rel_x (pos 0) || not (ltb_ℤ rel_x widget_w)
    then (b, false)
    else (activate b, true)

unfoldable pub width : Button → ℕ
width b = b.label_len + 4

-- "[ label ]", the text that `button_render` draws.
unfoldable pub rendered : Button → List ℕ
rendered b = 0x5B ∷ 0x20 ∷ (b.label ++ 0x20 ∷ 0x5D ∷ [])

-- The calls that change a button.
pub data Request : Type 0 where
  labels : Bool → Option (List ℕ) → Request
  focuses : Bool → Request
  enables : Bool → Request
  listens : Option ℕ → Request
  keys : KeyEvent → Request
  mice : MouseEvent → ℤ → ℤ → ℤ → Request

unfoldable pub perform : Request → Button → Button
unfolding set_label set_focused set_enabled set_callback handle_key handle_mouse
perform (labels copied label) b = (set_label copied label b).0
perform (focuses f) b = set_focused f b
perform (enables e) b = set_enabled e b
perform (listens cb) b = set_callback cb b
perform (keys k) b = (handle_key k b).0
perform (mice m y x w) b = (handle_mouse m y x w b).0

unfoldable pub perform_all : List Request → Button → Button
unfolding perform
perform_all [] b = b
perform_all (r ∷ rs) b = perform_all rs (perform r b)

-- What an event does: nothing, or it is consumed and calls the callback, if one is set.
abbrev pub Activated : Button → Button × Bool → Type 0
Activated b r =
    ((r.1 ≡ false) × (r.0 ≡ b))
    ⊎ ((r.1 ≡ true)
        × (b.enabled ≡ true)
        × (((b.callback ≡ none) × (r.0 ≡ b))
            ⊎ ((cb : ℕ) × (b.callback ≡ some cb) × (r.0 ≡ record b { calls = cb ∷ b.calls }))))

activate-Activated : (b : Button) → b.enabled ≡ true → Activated b (activate b, true)
unfolding activate
activate-Activated b e = elim (Option-cases b.callback) [
  | inl n ↦ rw n (inr (refl, e, inl (refl, refl)))
  | inr (cb, s) ↦ rw s (rw e (inr (refl, refl, inr (cb, refl, refl))))
]

-- A click either is not consumed and changes nothing, or is consumed by an enabled button and does
-- nothing but call the callback once, if one is set.
pub handle_mouse-Activated :
    (m : MouseEvent) (y x w : ℤ) (b : Button) → Activated b (handle_mouse m y x w b)
unfolding handle_mouse
handle_mouse-Activated m y x w b =
    if_either (Activated b) (not b.enabled) (λ _. inl (refl, refl))
      (λ on.
        if_either (Activated b) (not m.button1_clicked) (λ _. inl (refl, refl))
          (λ _.
            if_either (Activated b) (not (eqb_ℤ (m.y -ℤ y) (pos 0))) (λ _. inl (refl, refl))
              (λ _.
                if_either (Activated b) (ltb_ℤ (m.x -ℤ x) (pos 0) || not (ltb_ℤ (m.x -ℤ x) w))
                  (λ _. inl (refl, refl)) (λ _. activate-Activated b (ground arith)))))

perform-label :
    (r : Request) (b : Button)
    → b.label_len ≡ length b.label
    → (perform r b).label_len ≡ length (perform r b).label
unfolding perform set_label set_focused set_enabled set_callback handle_key handle_mouse activate
perform-label (labels copied label) b h = ground (arith, h)
perform-label (focuses f) b h = h
perform-label (enables e) b h = h
perform-label (listens cb) b h = h
perform-label (keys k) b h = ground (arith, h)
perform-label (mice m y x w) b h = ground (arith, h)

perform_all-label :
    (rs : List Request) (b : Button)
    → b.label_len ≡ length b.label
    → (perform_all rs b).label_len ≡ length (perform_all rs b).label
unfolding perform_all
perform_all-label [] b h = h
perform_all-label (r ∷ rs) b h = perform_all-label rs (perform r b) (perform-label r b h)

-- After any calls the text that is drawn for a button has as many bytes as `button_width` says.
pub length-rendered :
    (label : Option (List ℕ)) (rs : List Request)
    → length (rendered (perform_all rs (create label))) ≡ width (perform_all rs (create label))
unfolding rendered width
length-rendered label rs =
    let b = perform_all rs (create label) in
    omega (
      arith,
      length-append {0} b.label (0x20 ∷ 0x5D ∷ []),
      perform_all-label rs (create label) (unfold create in refl),
    )
