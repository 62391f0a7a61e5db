-- ===== src/Base/Lists.antt =====
-- Lists with native lengths, and a predicate on every element.
use Prim.Native.Nat.{ℕ, zero, suc, ◌+◌}
use mathlib.Core.Path.{◌≡◌, refl}
use mathlib.Core.Logic.{◌⊎◌, inl, inr}
use mathlib.Core.Option.{Option, none, some}
use mathlib.Core.Bool.{Bool, true, false, ◌&&◌, ◌||◌}
use mathlib.Core.List.{List, [], ◌∷◌, ◌++◌}
use native.Mathlib.Omega.{arith}

module _ {ℓ} {A : Type ℓ} where
  abbrev pub length : List A → ℕ
  length [] = 0
  length (x ∷ xs) = suc (length xs)

  pub length-append : (xs ys : List A) → length (xs ++ ys) ≡ length xs + length ys
  length-append [] ys = omega arith
  length-append (x ∷ xs) ys = omega (arith, length-append xs ys)

  abbrev pub take : ℕ → List A → List A
  take zero xs = []
  take (suc n) [] = []
  take (suc n) (x ∷ xs) = x ∷ take n xs

  abbrev pub get_elem? : List A → ℕ → Option A
  get_elem? [] i = none
  get_elem? (x ∷ xs) zero = some x
  get_elem? (x ∷ xs) (suc i) = get_elem? xs i

  -- A write out of bounds changes nothing.
  abbrev pub set : List A → ℕ → A → List A
  set [] i v = []
  set (x ∷ xs) zero v = v ∷ xs
  set (x ∷ xs) (suc i) v = x ∷ set xs i v

  pub get_elem?-set_self :
      (xs : List A) (i : ℕ) (v x : A) → get_elem? xs i ≡ some x → get_elem? (set xs i v) i ≡ some v
  get_elem?-set_self [] i v x h = absurd (cc h)
  get_elem?-set_self (x ∷ xs) zero v y h = refl
  get_elem?-set_self (x ∷ xs) (suc i) v y h = get_elem?-set_self xs i v y h

  pub get_elem?-set_other :
      (xs : List A) (i j : ℕ) (v : A) → (i ≡ j → ⊥) → get_elem? (set xs i v) j ≡ get_elem? xs j
  get_elem?-set_other [] i j v h = refl
  get_elem?-set_other (x ∷ xs) zero zero v h = absurd (h refl)
  get_elem?-set_other (x ∷ xs) zero (suc j) v h = refl
  get_elem?-set_other (x ∷ xs) (suc i) zero v h = refl
  get_elem?-set_other (x ∷ xs) (suc i) (suc j) v h =
      get_elem?-set_other xs i j v (λ e. h (omega (arith, e)))

  -- An element of a longer list is one of the list or the new one at its end.
  pub get_elem?-append_one :
      (xs : List A) (v y : A) (j : ℕ)
      → get_elem? (xs ++ (v ∷ [])) j ≡ some y
      → (get_elem? xs j ≡ some y) ⊎ ((j ≡ length xs) × (v ≡ y))
  get_elem?-append_one [] v y zero h = inr (refl, cc h)
  get_elem?-append_one [] v y (suc j) h = absurd (cc h)
  get_elem?-append_one (x ∷ xs) v y zero h = inl h
  get_elem?-append_one (x ∷ xs) v y (suc j) h = elim (get_elem?-append_one xs v y j h) [
    | inl old ↦ inl old
    | inr new ↦ inr (omega (arith, new.0), new.1)
  ]

  pub get_elem?-append :
      (xs ys : List A) (y : A) (j : ℕ) → get_elem? xs j ≡ some y → get_elem? (xs ++ ys) j ≡ some y
  get_elem?-append [] ys y j h = absurd (cc h)
  get_elem?-append (x ∷ xs) ys y zero h = h
  get_elem?-append (x ∷ xs) ys y (suc j) h = get_elem?-append xs ys y j h

  -- Some element passes the test.
  abbrev pub any : (A → Bool) → List A → Bool
  any p [] = false
  any p (x ∷ xs) = p x || any p xs

  -- Every element passes the test.
  abbrev pub all : (A → Bool) → List A → Bool
  all p [] = true
  all p (x ∷ xs) = p x && all p xs

module _ {ℓ κ} {A : Type ℓ} (P : A → Type κ) where
  abbrev pub All : List A → Type κ
  All [] = Unit
  All (x ∷ xs) = P x × All xs
