-- ===== src/Ipam/Network/Calls.antt =====
-- That the calls on the subnets of a network keep each subnet well-formed, of its name and family.
use container_advanced_netwo.Common.{
  ℕ, refl, inl, inr, Bool, true, false, String, Bool-cases, Option-cases, ap,
}
use container_advanced_netwo.Net.{IpText}
use container_advanced_netwo.Ipam.Base.{Result, ok, err, ◌>>=◌, lift}
use container_advanced_netwo.Ipam.Subnet.{
  allocate_next, assign, release, reserve, is_reserved_ip, is_empty,
}
use container_advanced_netwo.Ipam.Subnet.Invariant.{
  allocate_next-IsValid, assign-IsValid, assign_changes, release-IsValid, reserve-IsValid,
}
use container_advanced_netwo.Ipam.Subnet.Outcome.{allocate_next-Outcome}
use container_advanced_netwo.Ipam.SubnetSlice.{get_subnet}
use container_advanced_netwo.Ipam.Network.{
  SubnetRef, slice_of, load, check_family, ref, get_subnet_by_name_or_available,
  get_dual_stack_subnets,
}
use container_advanced_netwo.Ipam.Network.Invariant.{
  IsNetwork, Keeps, Preserves, bind-Preserves, on_slice-Preserves,
}

module _ (t : IpText) where
  pub allocate_next-Keeps :
      (pod_name pod_namespace : String) → Keeps t (allocate_next t pod_name pod_namespace)
  allocate_next-Keeps pod_name pod_namespace s v =
      elim (allocate_next-Outcome t pod_name pod_namespace s v.ring) [
        | inl (ip, s', e, took) ↦ record {
          valid = allocate_next-IsValid t pod_name pod_namespace s v;
          same_name = rw (e, took.entered) refl;
          same_family = rw (e, took.entered) refl;
        }
        | inr (s', e, missed) ↦ record {
          valid = allocate_next-IsValid t pod_name pod_namespace s v;
          same_name = rw (e, missed.same) refl;
          same_family = rw (e, missed.same) refl;
        }
      ]

  pub assign-Keeps :
      (pod_name pod_namespace ip : String) (forced : Bool)
      → Keeps t (assign t pod_name pod_namespace ip forced)
  assign-Keeps pod_name pod_namespace ip forced s v =
      elim (assign_changes t pod_name pod_namespace ip forced s) [
        | inl e ↦ record {
          valid = assign-IsValid t pod_name pod_namespace ip forced s v;
          same_name = ap (λ x. x.name) e;
          same_family = ap (λ x. x.ipv6) e;
        }
        | inr (x, e) ↦ record {
          valid = assign-IsValid t pod_name pod_namespace ip forced s v;
          same_name = ap (λ x. x.name) e;
          same_family = ap (λ x. x.ipv6) e;
        }
      ]

  pub release-Keeps : (ip : String) → Keeps t {A = Unit {0}} (λ s. (ok tt, release t ip s))
  unfolding release
  release-Keeps ip s v = elim (Bool-cases (is_reserved_ip ip s)) [
    | inl e ↦ record {
      valid = release-IsValid t ip s v;
      same_name = rw e refl;
      same_family = rw e refl;
    }
    | inr e ↦ record {
      valid = release-IsValid t ip s v;
      same_name = rw e refl;
      same_family = rw e refl;
    }
  ]

  pub reserve-Keeps : (ip : String) → Keeps t {A = Unit {0}} (λ s. (ok tt, reserve t ip s))
  unfolding reserve
  reserve-Keeps ip s v = record {
    valid = reserve-IsValid t ip s v;
    same_name = refl;
    same_family = refl;
  }

  check_family-Preserves : (v6 : Bool) (r : SubnetRef) → Preserves t (check_family v6 r)
  unfolding check_family
  check_family-Preserves v6 r n v = elim (Option-cases (load r n)) [
    | inl e ↦ rw (e, check_family) v
    | inr (s, e) ↦ rw (e, check_family) v
  ]

  pub get_subnet_by_name_or_available-Preserves :
      (v6 : Bool) (name : String) → Preserves t (get_subnet_by_name_or_available v6 name)
  unfolding get_subnet_by_name_or_available ◌>>=◌
  get_subnet_by_name_or_available-Preserves v6 name n v = elim (Bool-cases (is_empty name)) [
    | inl e ↦ rw e (on_slice-Preserves t v6 n v)
    | inr e ↦ rw e (named (get_subnet name (slice_of v6 n)))
  ]
    where
      named : (r : Result ℕ) → IsNetwork t ((do x ← lift (ref v6 r); check_family v6 x) n).1
      named (ok i) = check_family-Preserves v6 _ n v
      named (err e) = v

  pub get_dual_stack_subnets-Preserves :
      (v4_name v6_name : String) → Preserves t (get_dual_stack_subnets v4_name v6_name)
  unfolding get_dual_stack_subnets
  get_dual_stack_subnets-Preserves v4_name v6_name =
      bind-Preserves t _ _ (get_subnet_by_name_or_available-Preserves false v4_name) (λ v4.
        bind-Preserves t _ _ (get_subnet_by_name_or_available-Preserves true v6_name) (λ v6 n v. v))
