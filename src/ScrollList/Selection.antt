-- ===== src/ScrollList/Selection.antt =====
-- The selection of ui/scroll_list.c: it stays in the list, and it is where the rendering shows it.
use retrodesk.Prelude.{
  ℕ, ◌+◌, ◌≤◌, ◌<◌, ◌≡◌, refl, Option, none, some, Bool, true, ◌&&◌, List, [], ◌∷◌, map,
  Option-cases, inl, inr, arith, if_either, length, length-append, ◌⊎◌,
}
use retrodesk.Event.{KeyEvent, MouseEvent}
use retrodesk.Growth.{reserve, reserve-le}
use retrodesk.ScrollList.Widget.{
  ScrollList, create, text_of, clear, set_items, append, count, select, handle_key, Area,
  handle_mouse,
}

-- The memory suffices, the selection is in the list unless this is empty, and nothing is scrolled.
pub record IsValid (l : ScrollList) : Type 0 where
  pub room : count l ≤ l.capacity
  pub empty : count l ≡ 0 → l.selected ≡ 0
  pub inside : 0 < count l → l.selected < count l
  pub unscrolled : l.scroll_offset ≡ 0

-- The calls that change a list.
pub data Request : Type 0 where
  sets : Bool → Bool → Option (List (Option (List ℕ))) → Request
  appends : Bool → Bool → Option (List ℕ) → Request
  clears : Request
  selects : ℕ → Request
  keys : KeyEvent → Request
  mice : MouseEvent → Area → Request

unfoldable pub perform : Request → ScrollList → ScrollList
unfolding set_items append clear select handle_key handle_mouse
perform (sets granted copied items) l = (set_items granted copied items l).0
perform (appends granted copied text) l = (append granted copied text l).0
perform clears l = clear l
perform (selects i) l = select i l
perform (keys k) l = (handle_key k l).0
perform (mice m a) l = (handle_mouse m a l).0

length-map : (xs : List (Option (List ℕ))) → length (map text_of xs) ≡ length xs
length-map [] = refl
length-map (x ∷ xs) = omega (arith, length-map xs)

set_items-IsValid :
    (items : Option (List (Option (List ℕ)))) (l : ScrollList)
    → IsValid (set_items true true items l).0
unfolding set_items clear
set_items-IsValid none l = record {
  room = omega arith;
  empty = λ _. refl;
  inside = λ h. omega (arith, h);
  unscrolled = refl;
}
set_items-IsValid (some []) l = record {
  room = omega arith;
  empty = λ _. refl;
  inside = λ h. omega (arith, h);
  unscrolled = refl;
}
set_items-IsValid (some (i ∷ is)) l =
    elim (Option-cases (reserve 16 true (length (i ∷ is)) l.capacity)) [
      | inl e ↦ rw (e, set_items) (absurd (unfold reserve in ground arith))
      | inr (cap, e) ↦
          rw (e, set_items)
            (let g = reserve-le 16 true (length (i ∷ is)) l.capacity cap (omega arith) e in
              record {
                room = omega (arith, g, length-map is);
                empty = λ _. refl;
                inside = λ h. h;
                unscrolled = refl;
              })
    ]

append-IsValid :
    (granted copied : Bool) (text : Option (List ℕ)) (l : ScrollList)
    → IsValid l
    → IsValid (append granted copied text l).0
unfolding append
append-IsValid granted copied text l v =
    elim (Option-cases (reserve 16 granted (length l.items + 1) l.capacity)) [
      | inl e ↦ rw (e, append) v
      | inr (cap, e) ↦
          let g = reserve-le 16 granted (length l.items + 1) l.capacity cap (omega arith) e in
          let n = length-append {0} l.items (text_of text ∷ []) in
          rw (e, append)
            (if_either (λ (r : ScrollList × Bool). IsValid r.0) copied
              (λ _. record {
                room = omega (arith, g, n);
                empty = λ z. omega (arith, z, n);
                inside = λ _. elim (zero_or l.items) [
                  | inl z ↦ omega (arith, z, v.empty z, n)
                  | inr p ↦ omega (arith, v.inside p, n)
                ];
                unscrolled = v.unscrolled;
              })
              (λ _. record {
                room = omega (arith, g, v.room);
                empty = v.empty;
                inside = v.inside;
                unscrolled = v.unscrolled;
              }))
    ]
  where
    zero_or : (xs : List (List ℕ)) → (length xs ≡ 0) ⊎ (0 < length xs)
    zero_or [] = inl refl
    zero_or (x ∷ xs) = inr (omega arith)

-- Whether the items stand after a call, if they did before it: they are lost where
-- `scroll_list_set_items` runs short of memory, until they are set or cleared anew.
abbrev pub stands : Request → Bool → Bool
stands (sets granted copied none) before = true
stands (sets granted copied (some [])) before = true
stands (sets granted copied (some (i ∷ is))) before = granted && copied
stands clears before = true
stands (appends granted copied text) before = before
stands (selects i) before = before
stands (keys k) before = before
stands (mice m a) before = before

abbrev pub all_stand : List Request → Bool → Bool
all_stand [] before = before
all_stand (r ∷ rs) before = all_stand rs (stands r before)

emptied-IsValid : (l : ScrollList) → IsValid (clear l)
unfolding clear
emptied-IsValid l = record {
  room = omega arith;
  empty = λ _. refl;
  inside = λ h. omega (arith, h);
  unscrolled = refl;
}

perform-IsValid :
    (r : Request) (l : ScrollList) (before : Bool)
    → (before ≡ true → IsValid l)
    → stands r before ≡ true
    → IsValid (perform r l)
unfolding perform
perform-IsValid (sets granted copied none) l before was h = emptied-IsValid l
perform-IsValid (sets granted copied (some [])) l before was h = emptied-IsValid l
perform-IsValid (sets granted copied (some (i ∷ is))) l before was h =
    let g : granted ≡ true = ground arith in
    let c : copied ≡ true = ground arith in rw (g, c) (set_items-IsValid (some (i ∷ is)) l)
perform-IsValid (appends granted copied text) l before was h =
    append-IsValid granted copied text l (was h)
perform-IsValid clears l before was h = emptied-IsValid l
perform-IsValid (selects i) l before was h =
    let v = was h in
    unfold select in
    record {
      room = ground (arith, v.room);
      empty = ground (arith, v.empty);
      inside = ground (arith, v.inside);
      unscrolled = ground (arith, v.unscrolled);
    }
perform-IsValid (keys k) l before was h =
    let v = was h in
    unfold handle_key in
    record {
      room = ground (arith, v.room);
      empty = ground (arith, v.empty);
      inside = ground (arith, v.inside);
      unscrolled = ground (arith, v.unscrolled);
    }
perform-IsValid (mice m a) l before was h =
    let v = was h in
    unfold handle_mouse in
    record {
      room = ground (arith, v.room);
      empty = ground (arith, v.empty);
      inside = ground (arith, v.inside);
      unscrolled = ground (arith, v.unscrolled);
    }

unfoldable pub perform_all : List Request → ScrollList → ScrollList
unfolding perform
perform_all [] l = l
perform_all (r ∷ rs) l = perform_all rs (perform r l)

perform_all-IsValid :
    (rs : List Request) (l : ScrollList) (before : Bool)
    → (before ≡ true → IsValid l)
    → all_stand rs before ≡ true
    → IsValid (perform_all rs l)
unfolding perform_all
perform_all-IsValid [] l before was h = was h
perform_all-IsValid (r ∷ rs) l before was h =
    perform_all-IsValid rs (perform r l) (stands r before) (λ e. perform-IsValid r l before was e) h

-- From an empty list, any calls, with allocations that succeed or fail, lead to a list with room for
-- its items whose selection is one of them, unless it has none, and whose scroll offset is 0; but not
-- between a call of `scroll_list_set_items` that runs short of memory and the next that clears the
-- items or sets them.
pub perform_all-create-IsValid :
    (rs : List Request) → all_stand rs true ≡ true → IsValid (perform_all rs create)
unfolding create
perform_all-create-IsValid rs h =
    perform_all-IsValid rs create true
      (λ _. record {
        room = omega arith;
        empty = λ _. refl;
        inside = λ z. omega (arith, z);
        unscrolled = refl;
      })
      h
