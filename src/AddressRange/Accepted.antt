-- ===== src/AddressRange/Accepted.antt =====
-- What a range that ValidateAddressRange accepts is known to be.
use container_advanced_netwo.Common.{
  ◌≡◌, refl, sym, subst, inl, inr, true, false, Option, Option-cases, none, some, List, [], ◌∷◌,
  String, arith, elem, str_dec,
}
use container_advanced_netwo.Net.{NetIp, is_nil, IpNet, to4, equal, in_net, IpText}
use container_advanced_netwo.Net.Cidr.{cmp, is_pos}
use container_advanced_netwo.AddressRange.{
  AddressRange, RangeError, invalid_reserved, reserved_outside, invalid_excluded, excluded_outside,
  is_empty, is_full, is_supported, wants_ipv6, same_bool, validate_ips, validate_gateway, or_else,
  validate_in, validate_address_range,
}

module _ (t : IpText) (parse_cidr : String → Option (NetIp × IpNet)) where
  -- A text that parses to an address of the network.
  abbrev pub Inside : IpNet → String → Type 0
  Inside cidr ip = (is_nil (t.parse_ip ip) ≡ false) × (in_net cidr (t.parse_ip ip) ≡ true)

  pub record Accepted (ar : AddressRange) : Type 0 where
    pub ip_of_cidr : NetIp
    pub cidr : IpNet
    pub parsed : parse_cidr ar.cidr ≡ some (ip_of_cidr, cidr)
    pub supported : is_supported ar.version ≡ true
    pub standard : equal cidr.ip ip_of_cidr ≡ true
    pub several : is_full cidr.mask ≡ false
    pub start_inside : is_empty ar.start ≡ false → Inside cidr ar.start
    pub end_inside : is_empty ar.end ≡ false → Inside cidr ar.end
    pub ordered :
        is_empty ar.start ≡ false
        → is_empty ar.end ≡ false
        → is_pos (cmp (t.parse_ip ar.start) (t.parse_ip ar.end)) ≡ false
    pub gateway_inside :
        is_empty ar.gateway ≡ false
        → Inside cidr ar.gateway
          × (same_bool (is_nil (to4 (t.parse_ip ar.gateway))) (wants_ipv6 ar.version) ≡ true)
    pub reserved_inside : (ip : String) → elem ip ar.reserved_ips ≡ true → Inside cidr ip
    pub excluded_inside : (ip : String) → elem ip ar.exclude_ips ≡ true → Inside cidr ip

  ips-Inside :
      (invalid outside : RangeError) (cidr : IpNet) (ips : List String)
      → validate_ips t parse_cidr invalid outside cidr ips ≡ none
      → (ip : String) → elem ip ips ≡ true
      → Inside cidr ip
  unfolding validate_ips elem
  ips-Inside invalid outside cidr [] h ip there = absurd (ground arith)
  ips-Inside invalid outside cidr (x ∷ ips) h ip there =
      let parsed : is_nil (t.parse_ip x) ≡ false = ground arith in
      let inside : in_net cidr (t.parse_ip x) ≡ true = ground arith in
      let rest : validate_ips t parse_cidr invalid outside cidr ips ≡ none = ground arith in
      elim (str_dec ip x) [
        | yes e ↦ subst (Inside cidr) (sym e) (parsed, inside)
        | no ne ↦ ips-Inside invalid outside cidr ips rest ip (ground arith)
      ]

  gateway_lem :
      (ar : AddressRange) (cidr : IpNet)
      → validate_gateway t parse_cidr ar cidr ≡ none
      → is_empty ar.gateway ≡ false
      → Inside cidr ar.gateway
        × (same_bool (is_nil (to4 (t.parse_ip ar.gateway))) (wants_ipv6 ar.version) ≡ true)
  unfolding validate_gateway
  gateway_lem ar cidr h given = ((ground arith, ground arith), ground arith)

  or_else-none :
      (a b : Option RangeError) → or_else t parse_cidr a b ≡ none → (a ≡ none) × (b ≡ none)
  or_else-none none b h = (refl, h)
  or_else-none (some e) b h = absurd (ground (arith, h))

  in_lem :
      (ar : AddressRange) (ip_of_cidr : NetIp) (cidr : IpNet)
      → parse_cidr ar.cidr ≡ some (ip_of_cidr, cidr)
      → is_supported ar.version ≡ true
      → (is_empty ar.start ≡ false → is_nil (t.parse_ip ar.start) ≡ false)
      → (is_empty ar.end ≡ false → is_nil (t.parse_ip ar.end) ≡ false)
      → validate_in t parse_cidr ar ip_of_cidr cidr ≡ none
      → Accepted ar
  unfolding validate_in
  in_lem ar ip_of_cidr cidr p v start end h =
      let tail : or_else t parse_cidr (validate_gateway t parse_cidr ar cidr) (
            or_else t parse_cidr
              (validate_ips t parse_cidr invalid_reserved reserved_outside cidr ar.reserved_ips)
              (validate_ips t parse_cidr invalid_excluded excluded_outside cidr ar.exclude_ips))
          ≡ none =
        ground (arith, h) in
      let (gateway, lists) = or_else-none _ _ tail in
      let (reserved, excluded) = or_else-none _ _ lists in
      record {
        ip_of_cidr = ip_of_cidr;
        cidr = cidr;
        parsed = p;
        supported = v;
        standard = ground (arith, h);
        several = ground (arith, h);
        start_inside = λ g. (start g, ground (arith, h, g));
        end_inside = λ g. (end g, ground (arith, h, g));
        ordered = λ f g. ground (arith, h, f, g);
        gateway_inside = gateway_lem ar cidr gateway;
        reserved_inside = ips-Inside _ _ cidr ar.reserved_ips reserved;
        excluded_inside = ips-Inside _ _ cidr ar.exclude_ips excluded;
      }

  -- A range that ValidateAddressRange accepts has a supported version and a network that parses,
  -- in standard form, with more than one address; its start, its end, its gateway, and each of
  -- its reserved and excluded addresses parse and lie in the network where they are given; the
  -- end does not come before the start, and the gateway is of the version.
  pub validate_address_range-Accepted :
      (ar : AddressRange) → validate_address_range t parse_cidr ar ≡ none → Accepted ar
  unfolding validate_address_range
  validate_address_range-Accepted ar h = elim (Option-cases (parse_cidr ar.cidr)) [
    | inl e ↦ absurd (ground (arith, e, h))
    | inr ((ip_of_cidr, cidr), e) ↦
        in_lem ar ip_of_cidr cidr e (ground (arith, e, h)) (λ g. ground (arith, e, h, g))
          (λ g. ground (arith, e, h, g)) (ground (arith, e, h))
  ]
