-- ===== src/Ipam/Subnet/Invariant.antt =====
-- The well-formed subnets, and that each operation on the addresses in use keeps them so.
use container_advanced_netwo.Common.{
  ℕ, ◌≤◌, ◌≡◌, refl, ◌⊎◌, inl, inr, Bool, true, false, Bool-cases, Option-cases, Option, some,
  String, arith, length, elem, Distinct, Subset,
}
use container_advanced_netwo.Common.Map
use container_advanced_netwo.Net.{IpText}
use container_advanced_netwo.Ipam.Types.{Ip, IpSet, Subnet, Status, reserved}
use container_advanced_netwo.Ipam.Ip.{after, update, update_status}
use container_advanced_netwo.Ipam.Ip.Ring.{IsRing}
use container_advanced_netwo.Ipam.Subnet.{
  is_reserved_ip, is_black_ip, contains, allocate_next, release, reserve, assign, reassign,
}
use container_advanced_netwo.Ipam.Subnet.Outcome.{Took, Missed, allocate_next-Outcome}

module _ (t : IpText) where
  -- The ring offers distinct addresses of the subnet, in the text that IP.String gives, none of
  -- them reserved; the reserved ones are counted, and each of them is in use.
  pub record IsValid (s : Subnet) : Type 0 where
    pub ring : IsRing s.available_ips
    pub distinct_ring : Distinct s.available_ips.ips
    pub distinct_using : Distinct (Map.keys s.using_ips)
    pub distinct_reserved : Distinct s.reserved_list
    pub counted : s.reserved_ip_count ≡ length s.reserved_list
    pub reserved_used : Subset s.reserved_list (Map.keys s.using_ips)
    pub apart : (x : String) → elem x s.available_ips.ips ≡ true → elem x s.reserved_list ≡ false
    pub offered :
        (x : String)
        → elem x s.available_ips.ips ≡ true
        → (contains t s (t.parse_ip x) ≡ true) × (t.print_ip (t.parse_ip x) ≡ x)

  -- An operation that moves the place of the ring and rewrites the set in use.
  abbrev changed : Subnet → Option ℕ → IpSet → Subnet
  changed s i using = record s {
    available_ips = record s.available_ips { ip_index = i };
    using_ips = using;
  }

  changed-IsValid :
      (s : Subnet) (i : Option ℕ) (using : IpSet)
      → IsValid s
      → after i ≤ s.available_ips.ip_count
      → Distinct (Map.keys using)
      → Subset s.reserved_list (Map.keys using)
      → IsValid (changed s i using)
  unfolding contains is_black_ip
  changed-IsValid s i using v le d sub = record {
    ring = record { counted = v.ring.counted; placed = le };
    distinct_ring = v.distinct_ring;
    distinct_using = d;
    distinct_reserved = v.distinct_reserved;
    counted = v.counted;
    reserved_used = sub;
    apart = v.apart;
    offered = v.offered;
  }

  put-keeps :
      (k : String) (ip : Ip) (s : Subnet)
      → IsValid s
      → Subset s.reserved_list (Map.keys (Map.put k ip s.using_ips))
  put-keeps k ip s v x h = ground (arith, Map.has-put x k ip s.using_ips, v.reserved_used x h)

  put-IsValid :
      (k : String) (ip : Ip) (s : Subnet)
      → IsValid s
      → IsValid (record s { using_ips = Map.put k ip s.using_ips })
  put-IsValid k ip s v =
      changed-IsValid s s.available_ips.ip_index _ v v.ring.placed
        (Map.put-Distinct k ip s.using_ips v.distinct_using) (put-keeps k ip s v)

  Took-IsValid :
      (pod_name pod_namespace : String) (s s' : Subnet) (ip : Ip)
      → Took t pod_name pod_namespace s s' ip
      → IsValid s
      → IsValid s'
  Took-IsValid pod_name pod_namespace s s' ip took v = rw took.entered (
      changed-IsValid s (some took.place) _ v took.in_range
        (Map.put-Distinct took.key ip s.using_ips v.distinct_using) (put-keeps took.key ip s v))

  Missed-IsValid :
      (pod_name pod_namespace : String) (n : ℕ) (s s' : Subnet)
      → Missed t pod_name pod_namespace n s s'
      → IsValid s
      → IsValid s'
  Missed-IsValid pod_name pod_namespace n s s' missed v = rw missed.same (
      changed-IsValid s missed.place s.using_ips v missed.kept_range v.distinct_using
        v.reserved_used)

  update-IsValid :
      (ip pod_name pod_namespace : String) (status : Status) (s : Subnet)
      → IsValid s
      → IsValid (record s { using_ips = update ip pod_name pod_namespace status s.using_ips })
  unfolding update
  update-IsValid ip pod_name pod_namespace status s v =
      elim (Option-cases (Map.get ip s.using_ips)) [
        | inl e ↦ rw (e, update) v
        | inr (held, e) ↦ rw (e, update) (put-IsValid ip _ s v)
      ]

  -- Reserve keeps a subnet well-formed.
  pub reserve-IsValid : (ip : String) (s : Subnet) → IsValid s → IsValid (reserve t ip s)
  unfolding reserve update_status
  reserve-IsValid ip s v = elim (Option-cases (Map.get ip s.using_ips)) [
    | inl e ↦ rw (e, update_status) v
    | inr (held, e) ↦ rw (e, update_status) (put-IsValid ip _ s v)
  ]

  delete-IsValid :
      (ip : String) (s : Subnet)
      → elem ip s.reserved_list ≡ false
      → IsValid s
      → IsValid (record s { using_ips = Map.delete ip s.using_ips })
  delete-IsValid ip s h v =
      changed-IsValid s s.available_ips.ip_index _ v v.ring.placed
        (Map.delete-Distinct ip s.using_ips v.distinct_using)
        (λ x r. ground (arith, Map.has-delete x ip s.using_ips, v.reserved_used x r))

  -- Release keeps a subnet well-formed: a reserved address stays in use.
  pub release-IsValid : (ip : String) (s : Subnet) → IsValid s → IsValid (release t ip s)
  unfolding release is_reserved_ip
  release-IsValid ip s v = elim (Bool-cases (elem ip s.reserved_list)) [
    | inl e ↦ rw e (update-IsValid ip "" "" reserved s v)
    | inr e ↦ rw e (delete-IsValid ip s e v)
  ]

  -- Assign leaves the subnet as it was, or enters the address.
  pub assign_changes :
      (pod_name pod_namespace ip : String) (forced : Bool) (s : Subnet)
      → let s' = (assign t pod_name pod_namespace ip forced s).1 in
        (s' ≡ s) ⊎ ((x : Ip) × (s' ≡ record s { using_ips = Map.put ip x s.using_ips }))
  unfolding assign
  assign_changes pod_name pod_namespace ip forced s =
      elim (Bool-cases (contains t s (t.parse_ip ip))) [
        | inr e ↦ rw e (inl refl)
        | inl e ↦ elim (Option-cases (Map.get ip s.using_ips)) [
          | inl f ↦ rw (e, f, assign) (inr (_, refl))
          | inr (held, f) ↦ elim (Option-cases (reassign t pod_name pod_namespace forced held)) [
            | inl g ↦ rw (e, f, g, assign) (inl refl)
            | inr (taken, g) ↦ rw (e, f, g, assign) (inr (taken, refl))
          ]
        ]
      ]

  -- Assign keeps a subnet well-formed, whether it succeeds or not.
  pub assign-IsValid :
      (pod_name pod_namespace ip : String) (forced : Bool) (s : Subnet)
      → IsValid s
      → IsValid (assign t pod_name pod_namespace ip forced s).1
  assign-IsValid pod_name pod_namespace ip forced s v =
      elim (assign_changes pod_name pod_namespace ip forced s) [
        | inl e ↦ rw e v
        | inr (x, e) ↦ rw e (put-IsValid ip x s v)
      ]

  -- AllocateNext keeps a subnet well-formed, whether it finds an address or not.
  pub allocate_next-IsValid :
      (pod_name pod_namespace : String) (s : Subnet)
      → IsValid s
      → IsValid (allocate_next t pod_name pod_namespace s).1
  allocate_next-IsValid pod_name pod_namespace s v =
      elim (allocate_next-Outcome t pod_name pod_namespace s v.ring) [
        | inl (ip, s', e, took) ↦ rw e (Took-IsValid pod_name pod_namespace s s' ip took v)
        | inr (s', e, missed) ↦ rw e (Missed-IsValid pod_name pod_namespace _ s s' missed v)
      ]
