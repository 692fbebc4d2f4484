-- ===== src/Ipam/Base.antt =====
-- Errors as values, and calls that change a state and may fail.
use container_advanced_netwo.Common.{
  ℕ, ◌≡◌, refl, ap, ◌⊎◌, inl, inr, Bool, true, false, Option, none, some, arith,
}

-- One constructor for each error that pkg/ipam makes. `panics` is a Go panic, `fails` an error that
-- a getter of the caller returned.
pub data Error : Type 0 where
  no_available_subnet not_found_subnet not_found_assigned_ip not_available_assigned_ip : Error
  not_found_network empty_subnet_name : Error
  empty_name empty_parent_network invalid_cidr small_cidr version_mismatch host_bits_set : Error
  gateway_outside start_outside end_outside : Error
  validation_fail unsupported_ip_family wrong_subnets_count no_ip_left wrong_suites_count : Error
  invalid_ip wrong_ip_family : Error
  panics unbounded : Error
  fails : ℕ → Error

pub data Result {ℓ} (A : Type ℓ) : Type ℓ where
  ok : A → Result A
  err : Error → Result A

-- A call on a state, which a failure leaves as far as the call had changed it.
abbrev pub M : Type 0 → Type 0 → Type 0
M S A = S → Result A × S

infixl 5 ◌>>=◌ ◌>>◌
unfoldable pub ◌>>=◌ : {S A B : Type 0} → M S A → (A → M S B) → M S B
◌>>=◌ m f s = let (r, s') = m s in elim r [ ok a ↦ f a s' | err e ↦ (err e, s') ]

abbrev pub ◌>>◌ : {S B : Type 0} → M S (Unit {0}) → M S B → M S B
◌>>◌ m k = ◌>>=◌ m (λ _. k)

abbrev pub return : {S A : Type 0} → A → M S A
return a s = (ok a, s)

abbrev pub raise : {S A : Type 0} → Error → M S A
raise e s = (err e, s)

abbrev pub guard : {S : Type 0} → Bool → Error → M S (Unit {0})
guard true e s = (ok tt, s)
guard false e s = (err e, s)

abbrev pub lift : {S A : Type 0} → Result A → M S A
lift r s = (r, s)

abbrev pub or_fail {ℓ} : {A : Type ℓ} → Option A → Error → Result A
or_fail none e = err e
or_fail (some a) e = ok a

pub not_ok : {A B : Type 0} (e : Error) (a : A) → err e ≡ ok a → B
not_ok e a h = absurd (ground (arith, h))

pub ok_inj : {A : Type 0} (a b : A) → ok a ≡ ok b → a ≡ b
ok_inj a b h = ap (λ r. elim r [ ok c ↦ c | err _ ↦ a ]) h

pub Result-cases :
    {A : Type 0} (r : Result A) → ((a : A) × (r ≡ ok a)) ⊎ ((e : Error) × (r ≡ err e))
Result-cases (ok a) = inl (a, refl)
Result-cases (err e) = inr (e, refl)
