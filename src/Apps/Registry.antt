-- ===== src/Apps/Registry.antt =====
-- The registry of app/app_runtime.c.
use native.Mathlib.Nat.{pow-suc}
use retrodesk.Prelude.{
  ◌^◌, ℕ, zero, suc, ◌+◌, ◌*◌, ◌/◌, ◌≤◌, ◌<◌, ◌≡◌, refl, ap, Option, none, some, Bool, true, false,
  ◌&&◌, List, [], ◌∷◌, ◌++◌, ◌==◌, ltb, leb, if◌then◌else◌, length, length-append, get_elem?, ◌⊎◌,
  inl, inr, arith, if_either, Option-cases,
}

-- A descriptor, of which the registry reads the id: its bytes, or NULL. `key` tells descriptors
-- apart, as their addresses do.
pub record Descriptor : Type 0 where
  pub key : ℕ
  pub app_id : Option (List ℕ)

-- An entry is a descriptor with its id, which is not NULL; `count` is the number of entries.
pub record Registry : Type 0 where
  pub entries : List (ℕ × List ℕ)
  pub capacity : ℕ

unfoldable pub create : Registry
create = record { entries = []; capacity = 0 }

-- `strcmp(a, b) == 0`
unfoldable pub same_bytes : List ℕ → List ℕ → Bool
same_bytes [] [] = true
same_bytes [] (y ∷ ys) = false
same_bytes (x ∷ xs) [] = false
same_bytes (x ∷ xs) (y ∷ ys) = x == y && same_bytes xs ys

abbrev pub size_max : ℕ
size_max = 18446744073709551615

-- The loop of `app_registry_reserve`, from a positive capacity; 64 rounds of doubling are enough.
unfoldable pub double : ℕ → ℕ → ℕ → ℕ
double zero want new_cap = new_cap
double (suc fuel) want new_cap =
    let more = double fuel want (new_cap * 2) in
    if leb want new_cap then new_cap else if ltb (size_max / 2) new_cap then want else more

-- The new capacity; pointers have 8 bytes, and `granted` says whether `realloc` succeeds.
unfoldable pub reserve : Bool → ℕ → ℕ → Option ℕ
unfolding double
reserve granted want capacity =
    if leb want capacity
    then some capacity
    else if ltb (size_max / 8) want
    then none
    else if granted
    then some (double 64 want (if capacity == 0 then 8 else capacity))
    else none

unfoldable pub find_entry : List ℕ → List (ℕ × List ℕ) → Option (ℕ × List ℕ)
unfolding same_bytes
find_entry id [] = none
find_entry id (e ∷ es) = if same_bytes e.1 id then some e else find_entry id es

unfoldable pub find : List ℕ → Registry → Option (ℕ × List ℕ)
unfolding find_entry
find id r = find_entry id r.entries

-- `app_registry_register` for a descriptor with a given id.
unfoldable pub register_id : Bool → ℕ → List ℕ → Registry → Registry × Bool
unfolding find reserve
register_id granted key [] r = (r, false)
register_id granted key (b ∷ id) r =
    if length r.entries == size_max then (r, false) else elim (find (b ∷ id) r) [
      | some known ↦ (r, false)
      | none ↦ elim (reserve granted (length r.entries + 1) r.capacity) [
        | none ↦ (r, false)
        | some cap ↦ (record { entries = r.entries ++ (key, b ∷ id) ∷ []; capacity = cap }, true)
      ]
    ]

abbrev pub registered : Bool → ℕ → Option (List ℕ) → Registry → Registry × Bool
registered granted key none r = (r, false)
registered granted key (some id) r = register_id granted key id r

unfoldable pub register : Bool → Descriptor → Registry → Registry × Bool
unfolding register_id
register granted desc r = registered granted desc.key desc.app_id r

unfoldable pub reset : Registry → Registry
reset r = record { entries = []; capacity = 0 }

unfoldable pub descriptor_at : Registry → ℕ → Option (ℕ × List ℕ)
descriptor_at r index = get_elem? r.entries index

double-le : (fuel want cap' : ℕ) → want ≤ cap' * 2 ^ fuel → want ≤ double fuel want cap'
unfolding double
double-le zero want cap' h = omega (arith, h)
double-le (suc fuel) want cap' h = ground (
  arith,
  double-le fuel want (cap' * 2)
      (omega (arith, h, pow-suc 2 fuel, ap (cap' *◌) (pow-suc 2 fuel), assoc cap' (2 ^ fuel))),
)
  where
    assoc : (a b : ℕ) → a * (b * 2) ≡ a * 2 * b
    assoc a b = grind arith

reserve-want :
    (granted : Bool) (want capacity got : ℕ) → reserve granted want capacity ≡ some got → want ≤ got
unfolding reserve
reserve-want granted want capacity got e =
    if_either P (leb want capacity) (λ enough q. ground (arith, q))
      (λ _.
        if_either P (ltb (size_max / 8) want) (λ _ q. cc)
          (λ small.
            if_either P granted
              (λ _ q. omega (
                arith,
                some_inj q,
                double-le 64 want (if capacity == 0 then 8 else capacity)
                    (bound (ground arith) (if capacity == 0 then 8 else capacity) (ground arith)),
              ))
              (λ _ q. cc)))
      e
  where
    P : Option ℕ → Type 0
    P o = o ≡ some got → want ≤ got

    some_inj : {a b : ℕ} → some a ≡ some b → a ≡ b
    some_inj q = cc

    bound : want ≤ 2305843009213693951 → (c : ℕ) → 0 < c → want ≤ c * 2 ^ 64
    bound h c p = omega (arith, h, p)

same_bytes_refl : (xs : List ℕ) → same_bytes xs xs ≡ true
unfolding same_bytes
same_bytes_refl [] = refl
same_bytes_refl (x ∷ xs) = ground (arith, same_bytes_refl xs)

find_entry-snoc :
    (id : List ℕ) (es : List (ℕ × List ℕ)) (e : ℕ × List ℕ)
    → same_bytes e.1 id ≡ false
    → find_entry id (es ++ e ∷ []) ≡ find_entry id es
unfolding find_entry
find_entry-snoc id [] e h = rw h refl
find_entry-snoc id (f ∷ es) e h = ground (arith, find_entry-snoc id es e h)

find_entry-new :
    (key : ℕ) (id : List ℕ) (es : List (ℕ × List ℕ))
    → find_entry id es ≡ none
    → find_entry id (es ++ (key, id) ∷ []) ≡ some (key, id)
unfolding find_entry
find_entry-new key id [] h = rw (same_bytes_refl id) refl
find_entry-new key id (f ∷ es) h = ground (arith, find_entry-new key id es)

-- What a registration that is done does.
pub record IsRegistered (key : ℕ) (id : List ℕ) (r s : Registry) : Type 0 where
  pub entries : s.entries ≡ r.entries ++ (key, id) ∷ []
  pub fresh : find id r ≡ none
  pub found : find id s ≡ some (key, id)
  pub others : (other : List ℕ) → same_bytes id other ≡ false → find other s ≡ find other r
  pub room : length s.entries ≤ s.capacity

abbrev pub Registered : ℕ → Option (List ℕ) → Registry → Registry × Bool → Type 0
Registered key id r s =
    ((s.1 ≡ false) × (s.0 ≡ r))
    ⊎ ((s.1 ≡ true) × ((name : List ℕ) × (id ≡ some name) × IsRegistered key name r s.0))

register_id-Registered :
    (granted : Bool) (key : ℕ) (id : List ℕ) (r : Registry)
    → Registered key (some id) r (register_id granted key id r)
unfolding register_id
register_id-Registered granted key [] r = inl (refl, refl)
register_id-Registered granted key (b ∷ id) r =
    if_either P (length r.entries == size_max) (λ _. inl (refl, refl))
      (λ _. elim (Option-cases (find (b ∷ id) r)) [
        | inr (known, e) ↦ rw e (inl (refl, refl))
        | inl e ↦ rw e (elim (Option-cases (reserve granted (length r.entries + 1) r.capacity)) [
          | inl f ↦ rw f (inl (refl, refl))
          | inr (cap, f) ↦ rw f (inr (refl, (b ∷ id, refl, done e cap f)))
        ])
      ])
  where
    P : Registry × Bool → Type 0
    P = Registered key (some (b ∷ id)) r

    done :
        find (b ∷ id) r ≡ none
        → (cap : ℕ) → reserve granted (length r.entries + 1) r.capacity ≡ some cap
        → IsRegistered key
            (b ∷ id)
            r
            (record { entries = r.entries ++ (key, b ∷ id) ∷ []; capacity = cap })
    done e cap f = record {
      entries = refl;
      fresh = e;
      found = unfold find in find_entry-new key (b ∷ id) r.entries (unfold find in e);
      others = λ other h. unfold find in find_entry-snoc other r.entries (key, b ∷ id) h;
      room = omega (
        arith,
        reserve-want granted (length r.entries + 1) r.capacity cap f,
        length-append {0} r.entries ((key, b ∷ id) ∷ []),
      );
    }

-- `app_registry_register` either reports false and changes nothing, or reports true: then the
-- descriptor has an id that was not registered before, comes last, is found by its id from then on,
-- every other id finds what it found before, and the array has room for all the entries.
pub register-Registered :
    (granted : Bool) (desc : Descriptor) (r : Registry)
    → Registered desc.key desc.app_id r (register granted desc r)
unfolding register
register-Registered granted desc r = elim (Option-cases desc.app_id) [
  | inl e ↦ rw e (inl (refl, refl))
  | inr (id, e) ↦ rw e (register_id-Registered granted desc.key id r)
]
