-- ===== src/Common/Lists.antt =====
-- Lists measured and indexed by native numbers, and lists of texts read as sets.
use Prim.Native.Nat.{ℕ, zero, suc, ◌+◌, ◌≤◌, ◌<◌}
use Prim.Native.String.{String}
use mathlib.Core.Path.{◌≡◌, refl, ap}
use mathlib.Core.Logic.{◌≢◌, ite, if_pos}
use mathlib.Core.Bool.{Bool, true, false, ◌||◌}
use mathlib.Core.List.{List, [], ◌∷◌, ◌++◌}
use mathlib.Core.Option.{Option, none, some}
use native.Mathlib.Omega.{arith}
use container_advanced_netwo.Common.Tests.{str_dec}

module _ {ℓ} {A : Type ℓ} where
  abbrev pub length : List A → ℕ
  length [] = 0
  length (x ∷ xs) = suc (length xs)

  abbrev pub get_elem? : List A → ℕ → Option A
  get_elem? [] i = none
  get_elem? (x ∷ xs) zero = some x
  get_elem? (x ∷ xs) (suc i) = get_elem? xs i

  -- A write out of bounds changes nothing.
  abbrev pub set : List A → ℕ → A → List A
  set [] i v = []
  set (x ∷ xs) zero v = v ∷ xs
  set (x ∷ xs) (suc i) v = x ∷ set xs i v

  pub length-append : (xs ys : List A) → length (xs ++ ys) ≡ length xs + length ys
  length-append [] ys = omega arith
  length-append (x ∷ xs) ys = omega (arith, length-append xs ys)

  pub length-set : (xs : List A) (i : ℕ) (v : A) → length (set xs i v) ≡ length xs
  length-set [] i v = refl
  length-set (x ∷ xs) zero v = refl
  length-set (x ∷ xs) (suc i) v = ap suc (length-set xs i v)

  pub get_elem?-lt : (xs : List A) (i : ℕ) → i < length xs → (a : A) × (get_elem? xs i ≡ some a)
  get_elem?-lt [] i h = elim h [ ]
  get_elem?-lt (x ∷ xs) zero h = (x, refl)
  get_elem?-lt (x ∷ xs) (suc i) h = get_elem?-lt xs i (omega arith)

  pub lt-of-get_elem? : (xs : List A) (i : ℕ) {a : A} → get_elem? xs i ≡ some a → i < length xs
  lt-of-get_elem? [] i h = absurd (ground arith)
  lt-of-get_elem? (x ∷ xs) zero h = omega arith
  lt-of-get_elem? (x ∷ xs) (suc i) h = omega (arith, lt-of-get_elem? xs i h)

  pub get_elem?-append :
      (xs ys : List A) (i : ℕ) → i < length xs → get_elem? (xs ++ ys) i ≡ get_elem? xs i
  get_elem?-append [] ys i h = elim h [ ]
  get_elem?-append (x ∷ xs) ys zero h = refl
  get_elem?-append (x ∷ xs) ys (suc i) h = get_elem?-append xs ys i (omega arith)

  pub get_elem?-append_last : (xs : List A) (x : A) → get_elem? (xs ++ x ∷ []) (length xs) ≡ some x
  get_elem?-append_last [] x = refl
  get_elem?-append_last (y ∷ xs) x = get_elem?-append_last xs x

  pub get_elem?-set_self :
      (xs : List A) (i : ℕ) (v : A) → i < length xs → get_elem? (set xs i v) i ≡ some v
  get_elem?-set_self [] i v h = elim h [ ]
  get_elem?-set_self (x ∷ xs) zero v h = refl
  get_elem?-set_self (x ∷ xs) (suc i) v h = get_elem?-set_self xs i v (omega arith)

  pub get_elem?-set_ne :
      (xs : List A) {i j : ℕ} (v : A) → i ≢ j → get_elem? (set xs i v) j ≡ get_elem? xs j
  get_elem?-set_ne [] v h = refl
  get_elem?-set_ne (x ∷ xs) {i = zero} {j = zero} v h = absurd (h refl)
  get_elem?-set_ne (x ∷ xs) {i = zero} {j = suc j} v h = refl
  get_elem?-set_ne (x ∷ xs) {i = suc i} {j = zero} v h = refl
  get_elem?-set_ne (x ∷ xs) {i = suc i} {j = suc j} v h = get_elem?-set_ne xs v (λ e. h (ap suc e))

  -- What holds of every element of a list.
  abbrev pub All {κ} : (A → Type κ) → List A → Type κ
  All P [] = Unit
  All P (x ∷ xs) = P x × All P xs

-- Is the text in the list?
unfoldable pub elem : String → List String → Bool
elem x [] = false
elem x (y ∷ ys) = ite (str_dec x y) true (elem x ys)

abbrev pub Distinct : List String → Type 0
Distinct [] = Unit {0}
Distinct (x ∷ xs) = (elem x xs ≡ false) × Distinct xs

abbrev pub Subset : List String → List String → Type 0
Subset xs ys = (x : String) → elem x xs ≡ true → elem x ys ≡ true

-- The list without the text.
unfoldable pub erase_all : String → List String → List String
erase_all x [] = []
erase_all x (y ∷ ys) = ite (str_dec x y) (erase_all x ys) (y ∷ erase_all x ys)

pub elem-append : (x : String) (xs ys : List String) → elem x (xs ++ ys) ≡ elem x xs || elem x ys
unfolding elem
elem-append x [] ys = refl
elem-append x (y ∷ xs) ys = ground (arith, elem-append x xs ys)

pub elem-erase_all :
    (x y : String) (ys : List String)
    → elem x (erase_all y ys) ≡ ite (str_dec x y) false (elem x ys)
unfolding elem erase_all
elem-erase_all x y [] = ground arith
elem-erase_all x y (z ∷ ys) = ground (arith, elem-erase_all x y ys)

length-erase_all : (x : String) (ys : List String) → length (erase_all x ys) ≤ length ys
unfolding erase_all
length-erase_all x [] = omega arith
length-erase_all x (y ∷ ys) = ground (arith, length-erase_all x ys)

length-erase_all_lt :
    (x : String) (ys : List String) → elem x ys ≡ true → length (erase_all x ys) < length ys
unfolding elem erase_all
length-erase_all_lt x [] h = absurd (ground arith)
length-erase_all_lt x (y ∷ ys) h = ground (arith, length-erase_all x ys, length-erase_all_lt x ys)

-- A list of distinct texts is no longer than a list that has them all.
pub length-le-of-Subset : (xs ys : List String) → Distinct xs → Subset xs ys → length xs ≤ length ys
unfolding elem
length-le-of-Subset [] ys d s = omega arith
length-le-of-Subset (x ∷ xs) ys d s =
    omega (arith, length-le-of-Subset xs (erase_all x ys) d.1 rest, length-erase_all_lt x ys here)
  where
    here : elem x ys ≡ true
    here = s x (if_pos (str_dec x x) refl _ _)

    rest : Subset xs (erase_all x ys)
    rest z h = ground (arith, elem-erase_all z x ys, s z)

pub Distinct-append :
    (xs ys : List String)
    → Distinct xs
    → Distinct ys
    → ((x : String) → elem x xs ≡ true → elem x ys ≡ false)
    → Distinct (xs ++ ys)
unfolding elem
Distinct-append [] ys dx dy apart = dy
Distinct-append (x ∷ xs) ys dx dy apart = (
  rw (elem-append x xs ys, dx.0) (apart x (if_pos (str_dec x x) refl _ _)),
  Distinct-append xs ys dx.1 dy (λ z h. apart z (ground arith)),
)

-- A text of the list stands at some place.
pub place_of_elem :
    (x : String) (xs : List String) → elem x xs ≡ true → (j : ℕ) × (get_elem? xs j ≡ some x)
unfolding elem
place_of_elem x [] h = absurd (ground arith)
place_of_elem x (y ∷ xs) h =
    elim (str_dec x y)
        as (λ d. ite d true (elem x xs) ≡ true → (j : ℕ) × (get_elem? (y ∷ xs) j ≡ some x)) [
          | yes e ↦ λ _. (0, ground arith)
          | no n ↦ λ h'. let (j, found) = place_of_elem x xs h' in (suc j, found)
        ]
      h

pub elem_of_place :
    (x : String) (xs : List String) (j : ℕ) → get_elem? xs j ≡ some x → elem x xs ≡ true
unfolding elem
elem_of_place x [] j h = absurd (ground arith)
elem_of_place x (y ∷ xs) zero h = ground arith
elem_of_place x (y ∷ xs) (suc j) h = ground (arith, elem_of_place x xs j h)
