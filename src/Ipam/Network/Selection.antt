-- ===== src/Ipam/Network/Selection.antt =====
-- What the lookups of a subnet by name or availability do to a network: they choose, and change no
-- subnet.
use container_advanced_netwo.Common.{
  ℕ, ◌+◌, ◌%◌, ◌≡◌, refl, ap, ◌∙◌, if◌then◌else◌, ◌⊎◌, inl, inr, Bool, true, false, String,
  Bool-cases, Option-cases, Option, none, some, get_elem?,
}
use container_advanced_netwo.Ipam.Base.{
  Result, ok, err, Error, lift, ◌>>=◌, panics, wrong_ip_family,
}
use container_advanced_netwo.Ipam.Types.{IpSet, Subnet, SubnetSlice, Network}
use container_advanced_netwo.Ipam.Subnet.{is_empty}
use container_advanced_netwo.Ipam.SubnetSlice.{get_available_subnet, get_subnet}
use container_advanced_netwo.Ipam.SubnetSlice.Rotation.{IsSlice, get_available_subnet_lem}
use container_advanced_netwo.Ipam.Network.{
  SubnetRef, slice_of, set_slice, ref, check_family, get_subnet_by_name_or_available,
}

-- The addresses in use of the subnet at a place.
abbrev pub using_of : Option Subnet → Option IpSet
using_of none = none
using_of (some s) = some s.using_ips

abbrev pub used : Bool → ℕ → Network → Option IpSet
used v6 i n = using_of (get_elem? (slice_of v6 n).subnets i)

-- Two networks that have the same addresses in use, subnet by subnet.
abbrev pub SameUsed : Network → Network → Type 0
SameUsed n n' = (v6 : Bool) (i : ℕ) → used v6 i n' ≡ used v6 i n

abbrev pub SameSubnets : Network → Network → Type 0
SameSubnets n n' = (v6 : Bool) → (slice_of v6 n').subnets ≡ (slice_of v6 n).subnets

pub SameSubnets-SameUsed : (n n' : Network) → SameSubnets n n' → SameUsed n n'
SameSubnets-SameUsed n n' same v6 i = ap (λ l. using_of (get_elem? l i)) (same v6)

pub slice_of-set_slice :
    (v6 : Bool) (s : SubnetSlice) (n : Network) → slice_of v6 (set_slice v6 s n) ≡ s
slice_of-set_slice true s n = refl
slice_of-set_slice false s n = refl

set_slice-SameSubnets :
    (v6 : Bool) (s : SubnetSlice) (n : Network)
    → s.subnets ≡ (slice_of v6 n).subnets
    → SameSubnets n (set_slice v6 s n)
set_slice-SameSubnets true s n e true = e
set_slice-SameSubnets true s n e false = refl
set_slice-SameSubnets false s n e true = refl
set_slice-SameSubnets false s n e false = e

abbrev pub ref_at : Bool → ℕ → SubnetRef
ref_at v6 i = record { is_v6 = v6; index = i }

-- A subnet of the network and of the family asked for is chosen, or none is.
abbrev pub Selected : Bool → Network → Result SubnetRef × Network → Type 0
Selected v6 n res =
    (n' : Network) × SameSubnets n n'
    × (((i : ℕ) × (subnet : Subnet) × (res ≡ (ok (ref_at v6 i), n'))
          × (get_elem? (slice_of v6 n').subnets i ≡ some subnet))
        ⊎ ((e : Error) × (res ≡ (err e, n'))))

abbrev matches : Bool → Bool → Bool
matches true b = b
matches false true = false
matches false false = true

check_family-there :
    (v6 : Bool) (i : ℕ) (n : Network) (s : Subnet)
    → get_elem? (slice_of v6 n).subnets i ≡ some s
    → check_family v6 (ref_at v6 i) n
      ≡ (if matches v6 s.ipv6 then ok (ref_at v6 i) else err wrong_ip_family, n)
unfolding check_family
check_family-there true i n s e = rw (e, check_family) refl
check_family-there false i n s e = elim (Bool-cases s.ipv6) [
  | inl f ↦ rw (e, f, check_family) refl
  | inr f ↦ rw (e, f, check_family) refl
]

named-Selected : (v6 : Bool) (i : ℕ) (n : Network) → Selected v6 n (check_family v6 (ref_at v6 i) n)
unfolding check_family
named-Selected v6 i n = elim (Option-cases (get_elem? (slice_of v6 n).subnets i)) [
  | inl e ↦ (n, λ b. refl, inr (panics, rw (e, check_family) refl))
  | inr (s, e) ↦
      let there = check_family-there v6 i n s e in
      elim (Bool-cases (matches v6 s.ipv6)) [
        | inl m ↦ (n, λ b. refl, inl (i, s, rw (there, m) refl, e))
        | inr m ↦ (n, λ b. refl, inr (wrong_ip_family, rw (there, m) refl))
      ]
]

available-Selected :
    (v6 : Bool) (n : Network)
    → IsSlice (slice_of v6 n)
    → let g = get_available_subnet (slice_of v6 n) in Selected v6 n (ref v6 g.0, set_slice v6 g.1 n)
available-Selected v6 n v = elim (get_available_subnet_lem (slice_of v6 n) v) [
  | inl c ↦ (
    set_slice v6 _ n,
    set_slice-SameSubnets v6 _ n refl,
    inl (
      _,
      c.subnet,
      ap (λ g. (ref v6 g.0, set_slice v6 g.1 n)) c.result,
      ap
            (λ s.
              get_elem? s.subnets
                (((slice_of v6 n).subnet_index + c.turns) % (slice_of v6 n).subnet_count))
            (slice_of-set_slice v6 _ n)
          ∙ c.found,
    ),
  )
  | inr (e, _) ↦ (
    set_slice v6 _ n,
    set_slice-SameSubnets v6 _ n refl,
    inr (_, ap (λ g. (ref v6 g.0, set_slice v6 g.1 n)) e),
  )
]

-- The lookup by name or availability chooses a subnet of the family asked for, or fails, and the
-- subnets stay as they are.
pub get_subnet_by_name_or_available-Selected :
    (v6 : Bool) (name : String) (n : Network)
    → IsSlice (slice_of v6 n)
    → Selected v6 n (get_subnet_by_name_or_available v6 name n)
unfolding get_subnet_by_name_or_available ◌>>=◌
get_subnet_by_name_or_available-Selected v6 name n v = elim (Bool-cases (is_empty name)) [
  | inl e ↦ rw e (available-Selected v6 n v)
  | inr e ↦ rw e (named (get_subnet name (slice_of v6 n)))
]
  where
    named : (r : Result ℕ) → Selected v6 n ((do x ← lift (ref v6 r); check_family v6 x) n)
    named (ok i) = named-Selected v6 i n
    named (err e) = (n, λ b. refl, inr (e, refl))
