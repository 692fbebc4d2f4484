-- ===== src/AddressRange.antt =====
-- pkg/apis/networking/v1/utils.go: the rules on the address range of a Subnet object, and whether two
-- ranges meet. Texts of addresses and of networks, net.ParseIP and net.ParseCIDR, are parameters.
pub mod Accepted
mod Tests
use container_advanced_netwo.Common.{
  ℕ, zero, suc, Bool, true, false, not, ◌&&◌, ◌||◌, ◌==◌, if◌then◌else◌, ite, Option, none, some,
  List, [], ◌∷◌, String, str_dec, elem,
}
use container_advanced_netwo.Net.{
  NetIp, is_nil, IpNet, Mask, nil_mask, cidr_mask, to4, equal, in_net, IpText,
}
use container_advanced_netwo.Net.Cidr.{next_ip, cmp, is_pos, is_le, last_ip}

-- IPVersion, a text of which two values are named.
pub data IpVersion : Type 0 where
  ipv4 ipv6 : IpVersion
  other_version : String → IpVersion

-- AddressRange.
pub record AddressRange : Type 0 where
  pub version : IpVersion
  pub start : String
  pub end : String
  pub cidr : String
  pub gateway : String
  pub reserved_ips : List String
  pub exclude_ips : List String

-- One constructor for each error of ValidateAddressRange.
pub data RangeError : Type 0 where
  unsupported_version invalid_start invalid_end invalid_cidr not_standard single_address :
      RangeError
  start_outside end_outside no_address invalid_gateway family_mismatch gateway_outside : RangeError
  invalid_reserved reserved_outside invalid_excluded excluded_outside : RangeError

abbrev pub is_empty : String → Bool
is_empty s = ite (str_dec s "") true false

-- The prefix is as long as the mask.
abbrev pub is_full : Mask → Bool
is_full nil_mask = true
is_full (cidr_mask ones bits) = ones == bits

abbrev pub is_supported : IpVersion → Bool
is_supported ipv4 = true
is_supported ipv6 = true
is_supported (other_version _) = false

abbrev pub wants_ipv6 : IpVersion → Bool
wants_ipv6 ipv6 = true
wants_ipv6 _ = false

abbrev pub same_bool : Bool → Bool → Bool
same_bool true b = b
same_bool false b = not b

infixl 5 ◌>>=◌
abbrev pub ◌>>=◌ : {A B : Type 0} → Option A → (A → Option B) → Option B
none >>= f = none
some a >>= f = f a

module _ (t : IpText) (parse_cidr : String → Option (NetIp × IpNet)) where
  -- The loops over the reserved and the excluded addresses.
  unfoldable pub validate_ips : RangeError → RangeError → IpNet → List String → Option RangeError
  validate_ips invalid outside cidr [] = none
  validate_ips invalid outside cidr (ip ∷ ips) =
      let rest = validate_ips invalid outside cidr ips in
      if is_nil (t.parse_ip ip)
      then some invalid
      else if not (in_net cidr (t.parse_ip ip))
      then some outside
      else rest

  -- The rules on the gateway.
  unfoldable pub validate_gateway : AddressRange → IpNet → Option RangeError
  validate_gateway ar cidr =
      if is_empty ar.gateway
      then none
      else if is_nil (t.parse_ip ar.gateway)
      then some invalid_gateway
      else if not (same_bool (is_nil (to4 (t.parse_ip ar.gateway))) (wants_ipv6 ar.version))
      then some family_mismatch
      else if not (in_net cidr (t.parse_ip ar.gateway))
      then some gateway_outside
      else none

  abbrev pub or_else : Option RangeError → Option RangeError → Option RangeError
  or_else none rest = rest
  or_else (some e) rest = some e

  -- The rules once the network is parsed; `ip_of_cidr` is the address that its text spells.
  unfoldable pub validate_in : AddressRange → NetIp → IpNet → Option RangeError
  validate_in ar ip_of_cidr cidr =
      if not (equal cidr.ip ip_of_cidr)
      then some not_standard
      else if is_full cidr.mask
      then some single_address
      else if not (is_empty ar.start) && not (in_net cidr (t.parse_ip ar.start))
      then some start_outside
      else if not (is_empty ar.end) && not (in_net cidr (t.parse_ip ar.end))
      then some end_outside
      else if not (is_empty ar.start)
          && (not (is_empty ar.end) && is_pos (cmp (t.parse_ip ar.start) (t.parse_ip ar.end)))
      then some no_address
      else or_else (validate_gateway ar cidr) (
          or_else (validate_ips invalid_reserved reserved_outside cidr ar.reserved_ips)
            (validate_ips invalid_excluded excluded_outside cidr ar.exclude_ips))

  -- ValidateAddressRange: the first error, if any.
  unfoldable pub validate_address_range : AddressRange → Option RangeError
  validate_address_range ar =
      if not (is_supported ar.version)
      then some unsupported_version
      else if not (is_empty ar.start) && is_nil (t.parse_ip ar.start)
      then some invalid_start
      else if not (is_empty ar.end) && is_nil (t.parse_ip ar.end)
      then some invalid_end
      else elim (parse_cidr ar.cidr) [
        | none ↦ some invalid_cidr
        | some (ip_of_cidr, cidr) ↦ validate_in ar ip_of_cidr cidr
      ]

  -- The first and the last address of a range for Intersect; `none` is a panic.
  unfoldable pub range_start : AddressRange → IpNet → Option NetIp
  range_start ar cidr =
      if is_nil (t.parse_ip ar.start) then next_ip cidr.ip else some (t.parse_ip ar.start)

  unfoldable pub range_end : AddressRange → IpNet → Option NetIp
  range_end ar cidr = if is_nil (t.parse_ip ar.end) then last_ip cidr else some (t.parse_ip ar.end)

  -- The first loop of Intersect, on fuel: the texts of the range that are not excluded. `none` is a
  -- panic, or the fuel is used up.
  unfoldable pub range_texts : ℕ → NetIp → NetIp → List String → Option (List String)
  range_texts zero i end excluded = none
  range_texts (suc fuel) i end excluded = elim (is_le (cmp i end)) [
    | false ↦ some []
    | true ↦ elim (next_ip i) [
      | none ↦ none
      | some j ↦ elim (range_texts fuel j end excluded) [
        | none ↦ none
        | some texts ↦ some (if elem (t.print_ip i) excluded then texts else t.print_ip i ∷ texts)
      ]
    ]
  ]

  -- The second loop of Intersect, on fuel: it ends at the first text that is in the set.
  unfoldable pub meets : ℕ → NetIp → NetIp → List String → List String → Option Bool
  meets zero i end excluded texts = none
  meets (suc fuel) i end excluded texts = elim (is_le (cmp i end)) [
    | false ↦ some false
    | true ↦ elim (not (elem (t.print_ip i) excluded) && elem (t.print_ip i) texts) [
      | true ↦ some true
      | false ↦ elim (next_ip i) [ none ↦ none | some j ↦ meets fuel j end excluded texts ]
    ]
  ]

  abbrev pub same_version : IpVersion → IpVersion → Bool
  same_version ipv4 ipv4 = true
  same_version ipv6 ipv6 = true
  same_version (other_version a) (other_version b) = ite (str_dec a b) true false
  same_version _ _ = false

  -- Intersect once both networks are parsed.
  unfoldable pub intersect_in : ℕ → AddressRange → IpNet → AddressRange → IpNet → Option Bool
  intersect_in fuel a net_a b net_b =
      if not (in_net net_a net_b.ip) && not (in_net net_b net_a.ip) then some false else (do
        start_a ← range_start a net_a
        start_b ← range_start b net_b
        end_a ← range_end a net_a
        end_b ← range_end b net_b
        texts ← range_texts fuel start_a end_a a.exclude_ips
        meets fuel start_b end_b b.exclude_ips texts)

  -- Intersect; a network that does not parse is a nil pointer, a panic.
  unfoldable pub intersect : ℕ → AddressRange → AddressRange → Option Bool
  intersect fuel a b = if not (same_version a.version b.version) then some false else (do
    net_a ← parse_cidr a.cidr
    net_b ← parse_cidr b.cidr
    intersect_in fuel a net_a.1 b net_b.1)
