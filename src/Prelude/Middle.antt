-- ===== src/Prelude/Middle.antt =====
-- The entry of a list that stands behind some first ones.
use retrodesk.Prelude.{suc, ◌≡◌, refl, ap, List, [], ◌∷◌, ◌++◌, length, take, drop, set, get_or}

module _ {ℓ} {A : Type ℓ} where
  pub get_or-append :
      (xs : List A) (y : A) (ys : List A) (z : A) → get_or (xs ++ y ∷ ys) (length xs) z ≡ y
  get_or-append [] y ys z = refl
  get_or-append (x ∷ xs) y ys z = get_or-append xs y ys z

  pub get_or-append_suc :
      (xs : List A) (y y' : A) (ys : List A) (z : A)
      → get_or (xs ++ y ∷ y' ∷ ys) (suc (length xs)) z ≡ y'
  get_or-append_suc [] y y' ys z = refl
  get_or-append_suc (x ∷ xs) y y' ys z = get_or-append_suc xs y y' ys z

  pub set-append :
      (xs : List A) (y : A) (ys : List A) (z : A) → set (xs ++ y ∷ ys) (length xs) z ≡ xs ++ z ∷ ys
  set-append [] y ys z = refl
  set-append (x ∷ xs) y ys z = ap (x ∷◌) (set-append xs y ys z)

  pub take-append_suc :
      (xs : List A) (y : A) (ys : List A) → take (suc (length xs)) (xs ++ y ∷ ys) ≡ xs ++ (y ∷ [])
  take-append_suc [] y ys = refl
  take-append_suc (x ∷ xs) y ys = ap (x ∷◌) (take-append_suc xs y ys)

  pub drop-append_suc :
      (xs : List A) (y : A) (ys : List A) → drop (suc (length xs)) (xs ++ y ∷ ys) ≡ ys
  drop-append_suc [] y ys = refl
  drop-append_suc (x ∷ xs) y ys = drop-append_suc xs y ys
