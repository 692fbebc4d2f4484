-- ===== src/Common/Map.antt =====
-- A Go map with text keys, as an association list: a write keeps the place of a key that is
-- there, and a deletion drops every entry of the key.
use Prim.Native.Nat.{ℕ, suc}
use Prim.Native.String.{String}
use mathlib.Core.Path.{◌≡◌, refl}
use mathlib.Core.Logic.{ite}
use mathlib.Core.Bool.{Bool, true, false}
use mathlib.Core.List.{List, [], ◌∷◌}
use mathlib.Core.Option.{Option, none, some}
use native.Mathlib.Omega.{arith}
use container_advanced_netwo.Common.Tests.{str_dec}
use container_advanced_netwo.Common.Lists.{length, elem, Distinct}

abbrev pub Map {ℓ} : Type ℓ → Type ℓ
Map V = List (String × V)

module _ {ℓ} {V : Type ℓ} where
  unfoldable pub get : String → Map V → Option V
  get k [] = none
  get k ((j, v) ∷ m) = ite (str_dec k j) (some v) (get k m)

  unfoldable pub put : String → V → Map V → Map V
  put k v [] = (k, v) ∷ []
  put k v ((j, w) ∷ m) = ite (str_dec k j) ((k, v) ∷ m) ((j, w) ∷ put k v m)

  unfoldable pub delete : String → Map V → Map V
  delete k [] = []
  delete k ((j, w) ∷ m) = ite (str_dec k j) (delete k m) ((j, w) ∷ delete k m)

  unfoldable pub keys : Map V → List String
  keys [] = []
  keys ((j, w) ∷ m) = j ∷ keys m

  abbrev pub has : String → Map V → Bool
  has k m = elem k (keys m)

  abbrev pub size : Map V → ℕ
  size m = length m

  pub get-put :
      (j k : String) (v : V) (m : Map V) → get j (put k v m) ≡ ite (str_dec j k) (some v) (get j m)
  unfolding get put
  get-put j k v [] = refl
  get-put j k v ((i, w) ∷ m) = ground (arith, get-put j k v m)

  pub get-delete :
      (j k : String) (m : Map V) → get j (delete k m) ≡ ite (str_dec j k) none (get j m)
  unfolding get delete
  get-delete j k [] = ground arith
  get-delete j k ((i, w) ∷ m) = ground (arith, get-delete j k m)

  pub has-put :
      (j k : String) (v : V) (m : Map V) → has j (put k v m) ≡ ite (str_dec j k) true (has j m)
  unfolding put keys elem
  has-put j k v [] = refl
  has-put j k v ((i, w) ∷ m) = ground (arith, has-put j k v m)

  pub has-delete :
      (j k : String) (m : Map V) → has j (delete k m) ≡ ite (str_dec j k) false (has j m)
  unfolding delete keys elem
  has-delete j k [] = ground arith
  has-delete j k ((i, w) ∷ m) = ground (arith, has-delete j k m)

  -- A key is there exactly when a read finds a value.
  pub get_of_has : (k : String) (m : Map V) → has k m ≡ true → (v : V) × (get k m ≡ some v)
  unfolding get keys elem
  get_of_has k [] h = absurd (ground arith)
  get_of_has k ((j, w) ∷ m) h =
      elim (str_dec k j)
          as (λ d. ite d true (has k m) ≡ true → (v : V) × (ite d (some w) (get k m) ≡ some v)) [
            | yes e ↦ λ _. (w, refl)
            | no n ↦ λ h'. get_of_has k m h'
          ]
        h

  pub get-none : (k : String) (m : Map V) → has k m ≡ false → get k m ≡ none
  unfolding get keys elem
  get-none k [] h = refl
  get-none k ((j, w) ∷ m) h = ground (arith, get-none k m)

  pub has_of_get : (k : String) (m : Map V) (v : V) → get k m ≡ some v → has k m ≡ true
  unfolding get keys elem
  has_of_get k [] v h = absurd (ground arith)
  has_of_get k ((j, w) ∷ m) v h = ground (arith, has_of_get k m v)

  pub length-keys : (m : Map V) → length (keys m) ≡ size m
  unfolding keys
  length-keys [] = refl
  length-keys ((j, w) ∷ m) = ground (arith, length-keys m)

  pub put-Distinct :
      (k : String) (v : V) (m : Map V) → Distinct (keys m) → Distinct (keys (put k v m))
  unfolding put keys elem
  put-Distinct k v [] d = ground arith
  put-Distinct k v ((j, w) ∷ m) d = ground (arith, put-Distinct k v m, has-put j k v m)

  pub delete-Distinct : (k : String) (m : Map V) → Distinct (keys m) → Distinct (keys (delete k m))
  unfolding delete keys
  delete-Distinct k [] d = tt
  delete-Distinct k ((j, w) ∷ m) d = ground (arith, delete-Distinct k m, has-delete j k m)

  pub size-put_new :
      (k : String) (v : V) (m : Map V) → has k m ≡ false → size (put k v m) ≡ suc (size m)
  unfolding put keys elem
  size-put_new k v [] h = refl
  size-put_new k v ((j, w) ∷ m) h = ground (arith, size-put_new k v m)

  pub size-put_old : (k : String) (v : V) (m : Map V) → has k m ≡ true → size (put k v m) ≡ size m
  unfolding put keys elem
  size-put_old k v [] h = absurd (ground arith)
  size-put_old k v ((j, w) ∷ m) h = ground (arith, size-put_old k v m)

  pub delete_absent : (k : String) (m : Map V) → has k m ≡ false → delete k m ≡ m
  unfolding delete keys elem
  delete_absent k [] h = refl
  delete_absent k ((j, w) ∷ m) h = ground (arith, delete_absent k m)

  -- A new entry goes to the end, so that its deletion gives the map back.
  pub delete-put_new : (k : String) (v : V) (m : Map V) → has k m ≡ false → delete k (put k v m) ≡ m
  unfolding put delete keys elem
  delete-put_new k v [] h = ground arith
  delete-put_new k v ((j, w) ∷ m) h = ground (arith, delete-put_new k v m)
