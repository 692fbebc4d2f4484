-- ===== src/Ipam/Manager/Atomic.antt =====
-- That Allocate enters in the networks exactly the addresses that it returns, and none where it
-- fails.
use container_advanced_netwo.Common.{
  String, ℕ, ◌≡◌, refl, sym, ap, ◌∙◌, ◌⊎◌, inl, inr, Bool, not, List, [], ◌∷◌, get_elem?,
}
use container_advanced_netwo.Net.{IpText}
use container_advanced_netwo.Ipam.Base.{
  Result-cases, Result, ok, err, Error, ◌>>=◌, return, no_ip_left, lift,
}
use container_advanced_netwo.Ipam.Types.{Ip, Subnet, Network, PodInfo}
use container_advanced_netwo.Ipam.Network.{get_subnet_by_name_or_available}
use container_advanced_netwo.Ipam.Network.Invariant.{IsNetwork, slice_of-IsFamily}
use container_advanced_netwo.Ipam.Network.Selection.{
  used, SameUsed, SameSubnets, ref_at, get_subnet_by_name_or_available-Selected,
  SameSubnets-SameUsed,
}
use container_advanced_netwo.Ipam.Manager.{one_subnet, allocate_from, allocate_one}
use container_advanced_netwo.Ipam.Manager.Entries.{
  There, store-SameUsed, bind-ok, bind-err, store-Gave, Gave-same, allocate_from-From,
  used-store-not, Gave,
}

module _ (t : IpText) (pod : PodInfo) where
  -- The two ends of an allocation for one family.
  abbrev pub One : Bool → Network → Result (List Ip) × Network → Type 0
  One v6 n r =
      ((ip : Ip) × (r.0 ≡ ok (ip ∷ []))
        × Gave t pod v6 n r.1 ip
        × ((i : ℕ) → used (not v6) i r.1 ≡ used (not v6) i n))
      ⊎ ((e : Error) × (r.0 ≡ err e) × SameUsed n r.1)

  after_choice :
      (v6 : Bool) (i : ℕ) (s : Subnet) (n n' : Network) (r : Result (List Ip) × Network)
      → IsNetwork t n
      → SameSubnets n n'
      → There v6 i n' s
      → r ≡ (do ip ← allocate_from t pod (ref_at v6 i); return (ip ∷ [])) n'
      → One v6 n r
  after_choice v6 i s n n' r v same h run =
      let valid =
        ((slice_of-IsFamily t v6 n v).each i s (ap (λ l. get_elem? l i) (sym (same v6)) ∙ h)).0 in
      elim (allocate_from-From t pod v6 i s n' h valid) [
        | inl (ip, s', e, made) ↦
            let whole = run ∙ bind-ok _ _ _ n' _ made in
            inl (
              ip,
              ap (λ x. x.0) whole,
              rw whole (
                  Gave-same t pod v6 n' n _ _ ip (sym (same v6)) (λ _. refl)
                    (store-Gave t pod v6 i s s' ip n' valid h e)),
              λ j.
                  ap (λ x. used (not v6) j x.1) whole
                  ∙ used-store-not v6 i s' n' j
                  ∙ SameSubnets-SameUsed n n' same (not v6) j,
            )
        | inr (s', kept, made) ↦
            let whole = run ∙ bind-err _ _ _ n' _ made in
            inr (
              no_ip_left,
              ap (λ x. x.0) whole,
              λ b j.
                  ap (λ x. used b j x.1) whole
                  ∙ store-SameUsed v6 i s s' n' h kept b j
                  ∙ SameSubnets-SameUsed n n' same b j,
            )
      ]

  for_name :
      (v6 : Bool) (name : String) (n : Network) (r : Result (List Ip) × Network)
      → IsNetwork t n
      → r
        ≡ (do
          subnet ← get_subnet_by_name_or_available v6 name
          ip ← allocate_from t pod subnet
          return (ip ∷ []))
            n
      → One v6 n r
  for_name v6 name n r v run =
      let slice = (slice_of-IsFamily t v6 n v).slice in
      let (n', same, chosen) = get_subnet_by_name_or_available-Selected v6 name n slice in
      elim chosen [
        | inl (i, s, e, h) ↦ after_choice v6 i s n n' r v same h (run ∙ bind-ok _ _ _ n n' e)
        | inr (x, e) ↦
            let whole = run ∙ bind-err _ _ x n n' e in
            inr (
              x,
              ap (λ x. x.0) whole,
              λ b j. ap (λ x. used b j x.1) whole ∙ SameSubnets-SameUsed n n' same b j,
            )
      ]

  -- On a well-formed network, allocateIPv4 and allocateIPv6 either return one address, granted by
  -- one subnet of the family while no other entry of the network changes; or they return an error
  -- and no entry changes.
  pub allocate_one-One :
      (v6 : Bool) (subnets : List String) (n : Network)
      → IsNetwork t n
      → One v6 n (allocate_one t v6 pod subnets n)
  unfolding allocate_one
  allocate_one-One v6 subnets n v = elim (Result-cases (one_subnet subnets)) [
    | inl (name, e) ↦ for_name v6 name n _ v (bind-ok _ _ name n n (ap (λ r. (r, n)) e))
    | inr (x, e) ↦
        let whole = bind-err (lift (one_subnet subnets)) _ x n n (ap (λ r. (r, n)) e) in
        inr (x, ap (λ x. x.0) whole, λ b j. ap (λ x. used b j x.1) whole)
  ]
