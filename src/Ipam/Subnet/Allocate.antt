-- ===== src/Ipam/Subnet/Allocate.antt =====
-- What AllocateNext, Release and Assign promise on a well-formed subnet.
use container_advanced_netwo.Common.{
  ℕ, ◌+◌, ◌≤◌, ◌≡◌, sym, ap, ◌↔◌, inl, inr, true, false, none, some, ◌++◌, String, arith,
  length-append, elem, elem-append, Distinct, Subset, Distinct-append, length-le-of-Subset,
  place_of_elem, elem_of_place,
}
use container_advanced_netwo.Common.Map
use container_advanced_netwo.Net.{IpText}
use container_advanced_netwo.Ipam.Base.{ok}
use container_advanced_netwo.Ipam.Types.{Ip, Subnet, allocated}
use container_advanced_netwo.Ipam.Subnet.{
  is_available, is_reserved_ip, contains, make_ip, allocate_next, release,
}
use container_advanced_netwo.Ipam.Subnet.Outcome.{
  turn, Took, Missed, allocate_next-Outcome, allocate_next-Took, Missed-all,
}
use container_advanced_netwo.Ipam.Ip.Ring.{turned}
use container_advanced_netwo.Ipam.Subnet.Invariant.{IsValid}

module _ (t : IpText) where
  -- What the caller of AllocateNext learns of an address that it was given.
  pub record Granted (pod_name pod_namespace : String) (s s' : Subnet) (ip : Ip) : Type 0 where
    pub inside : contains t s ip.address.ip ≡ true
    pub was_free : Map.has (t.print_ip ip.address.ip) s.using_ips ≡ false
    pub not_reserved : elem (t.print_ip ip.address.ip) s.reserved_list ≡ false
    pub owner : (ip.pod_name ≡ pod_name) × (ip.pod_namespace ≡ pod_namespace)
    pub of_subnet : (ip.subnet ≡ s.name) × (ip.network ≡ s.parent_network) × (ip.status ≡ allocated)
    pub recorded : s'.using_ips ≡ Map.put (t.print_ip ip.address.ip) ip s.using_ips
    pub ring_kept : s'.available_ips.ips ≡ s.available_ips.ips

  Took-contains :
      (pod_name pod_namespace : String) (s s' : Subnet) (ip : Ip)
      → IsValid t s
      → (took : Took t pod_name pod_namespace s s' ip)
      → (contains t s (t.parse_ip took.key) ≡ true)
        × (t.print_ip (t.parse_ip took.key) ≡ took.key)
        × (elem took.key s.reserved_list ≡ false)
  Took-contains pod_name pod_namespace s s' ip v took =
      let ringed = elem_of_place took.key s.available_ips.ips took.place took.in_ring in
      let (inside, normal) = v.offered took.key ringed in (inside, normal, v.apart took.key ringed)

  Took-print_ip :
      (pod_name pod_namespace : String) (s s' : Subnet) (ip : Ip)
      → IsValid t s
      → (took : Took t pod_name pod_namespace s s' ip) → t.print_ip ip.address.ip ≡ took.key
  unfolding make_ip
  Took-print_ip pod_name pod_namespace s s' ip v took =
      rw took.record_made (Took-contains pod_name pod_namespace s s' ip v took).1

  Took-Granted :
      (pod_name pod_namespace : String) (s s' : Subnet) (ip : Ip)
      → IsValid t s
      → Took t pod_name pod_namespace s s' ip
      → Granted pod_name pod_namespace s s' ip
  unfolding make_ip
  Took-Granted pod_name pod_namespace s s' ip v took =
      let (inside, normal, apart) = Took-contains pod_name pod_namespace s s' ip v took in
      let same_key = Took-print_ip pod_name pod_namespace s s' ip v took in
      record {
        inside = rw took.record_made inside;
        was_free = rw same_key took.free;
        not_reserved = rw same_key apart;
        owner = (rw took.record_made, rw took.record_made);
        of_subnet = (rw took.record_made, rw took.record_made, rw took.record_made);
        recorded = rw took.entered (ap (λ k. Map.put k ip s.using_ips) (sym same_key));
        ring_kept = rw took.entered;
      }

  ring_room :
      (s : Subnet)
      → IsValid t s
      → Subset s.available_ips.ips (Map.keys s.using_ips)
      → s.available_ips.ip_count + s.reserved_ip_count ≤ Map.size s.using_ips
  ring_room s v all = omega (
    arith,
    length-le-of-Subset (s.available_ips.ips ++ s.reserved_list) (Map.keys s.using_ips) apart
        covered,
    length-append s.available_ips.ips s.reserved_list,
    Map.length-keys s.using_ips,
    v.ring.counted,
    v.counted,
  )
    where
      apart : Distinct (s.available_ips.ips ++ s.reserved_list)
      apart =
          Distinct-append s.available_ips.ips s.reserved_list v.distinct_ring v.distinct_reserved
            v.apart

      covered : Subset (s.available_ips.ips ++ s.reserved_list) (Map.keys s.using_ips)
      covered x h =
          ground
            (arith, elem-append x s.available_ips.ips s.reserved_list, all x, v.reserved_used x)

  Missed-Subset :
      (pod_name pod_namespace : String) (s s' : Subnet)
      → IsValid t s
      → Missed t pod_name pod_namespace s.available_ips.ip_count s s'
      → Subset s.available_ips.ips (Map.keys s.using_ips)
  Missed-Subset pod_name pod_namespace s s' v missed x h =
      let (j, found) = place_of_elem x s.available_ips.ips h in
      Missed-all t pod_name pod_namespace s s' v.ring missed j x found

  -- On a well-formed subnet that IsAvailable calls available, AllocateNext returns an address:
  -- one of the subnet, neither in use nor reserved before, recorded for the pod as the one entry
  -- that changes.
  pub allocate_next_progress :
      (pod_name pod_namespace : String) (s : Subnet)
      → IsValid t s
      → is_available s ≡ true
      → (ip : Ip) × (s' : Subnet) × (allocate_next t pod_name pod_namespace s ≡ (ok (some ip), s'))
        × Granted pod_name pod_namespace s s' ip
  unfolding is_available
  allocate_next_progress pod_name pod_namespace s v h =
      elim (allocate_next-Outcome t pod_name pod_namespace s v.ring) [
        | inl (ip, s', e, took) ↦ (ip, s', e, Took-Granted pod_name pod_namespace s s' ip v took)
        | inr (s', e, missed) ↦
            absurd
              (ground (arith, ring_room s v (Missed-Subset pod_name pod_namespace s s' v missed)))
      ]

  -- On a well-formed subnet, AllocateNext returns no address exactly where every address of the
  -- ring is in use.
  pub allocate_next-none :
      (pod_name pod_namespace : String) (s : Subnet)
      → IsValid t s
      → ((allocate_next t pod_name pod_namespace s).0 ≡ ok none)
        ↔ Subset s.available_ips.ips (Map.keys s.using_ips)
  allocate_next-none pod_name pod_namespace s v =
      elim (allocate_next-Outcome t pod_name pod_namespace s v.ring) [
        | inl (ip, s', e, took) ↦ (
          λ h. cc (ap (λ r. r.0) e),
          λ h. absurd (
              ground (
                arith,
                h took.key (elem_of_place took.key s.available_ips.ips took.place took.in_ring),
                took.free,
              )),
        )
        | inr (s', e, missed) ↦
            (λ h. Missed-Subset pod_name pod_namespace s s' v missed, λ h. ap (λ r. r.0) e)
      ]

  -- Every address that AllocateNext gives on a well-formed subnet lies in the subnet, was neither
  -- in use nor reserved, is recorded for the pod, and is the only entry that changes.
  pub allocate_next-Granted :
      (pod_name pod_namespace : String) (s s' : Subnet) (ip : Ip)
      → IsValid t s
      → allocate_next t pod_name pod_namespace s ≡ (ok (some ip), s')
      → Granted pod_name pod_namespace s s' ip
  allocate_next-Granted pod_name pod_namespace s s' ip v given =
      Took-Granted pod_name pod_namespace s s' ip v
        (allocate_next-Took t pod_name pod_namespace s s' ip v.ring given)

  -- On a well-formed subnet, Release of the address that AllocateNext gave leaves the subnet from
  -- before, but for the place of the ring.
  pub release-allocate_next :
      (pod_name pod_namespace : String) (s s' : Subnet) (ip : Ip)
      → IsValid t s
      → allocate_next t pod_name pod_namespace s ≡ (ok (some ip), s')
      → (j : ℕ) × (release t (t.print_ip ip.address.ip) s' ≡ turn s j)
  unfolding release is_reserved_ip
  release-allocate_next pod_name pod_namespace s s' ip v given =
      let took = allocate_next-Took t pod_name pod_namespace s s' ip v.ring given in
      let g = Took-Granted pod_name pod_namespace s s' ip v took in
      (
        took.place,
        back (t.print_ip ip.address.ip) took.key took.place
            (Took-print_ip pod_name pod_namespace s s' ip v took) took.entered g.not_reserved
            took.free,
      )
    where
      back :
          (k key : String) (j : ℕ)
          → k ≡ key
          → s' ≡ record s {
            available_ips = turned s.available_ips j;
            using_ips = Map.put key ip s.using_ips;
          }
          → elem k s.reserved_list ≡ false
          → Map.has key s.using_ips ≡ false
          → release t k s' ≡ turn s j
      back k key j e entered apart free =
          rw (entered, apart, e, Map.delete-put_new key ip s.using_ips free)
