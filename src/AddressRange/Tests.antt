-- ===== src/AddressRange/Tests.antt =====
-- The theorem on address ranges at a concrete input: the network 10.0.0.0/24.
use container_advanced_netwo.Common.{
  ℕ, ◌+◌, ◌≡◌, refl, Option, none, some, [], ◌∷◌, String, str_dec,
}
use container_advanced_netwo.Net.{
  NetIp, ip4, IpNet, cidr_mask, normalize_ip, to4, to16, is_nil, equal, in_net,
}
use container_advanced_netwo.Net.Binary.{binary}
use container_advanced_netwo.Net.Cidr.{cmp}
use container_advanced_netwo.AddressRange.{
  AddressRange, ipv4, validate_ips, validate_gateway, validate_in, validate_address_range,
}
use container_advanced_netwo.AddressRange.Accepted.{Accepted, validate_address_range-Accepted}

abbrev base : ℕ
base = 0x0a000000

abbrev text : ℕ → String
text n = binary.print_ip (ip4 (base + n))

abbrev only_cidr : String → Option (NetIp × IpNet)
only_cidr _ = some (ip4 base, record { ip = ip4 base; mask = cidr_mask 24 32 })

abbrev ten : AddressRange
ten = record {
  version = ipv4;
  start = text 2;
  end = text 9;
  cidr = "10.0.0.0/24";
  gateway = text 1;
  reserved_ips = text 3 ∷ [];
  exclude_ips = text 4 ∷ [];
}

ten_valid : validate_address_range binary only_cidr ten ≡ none
unfolding binary str_dec is_nil to4 to16 normalize_ip equal in_net cmp validate_ips validate_gateway
    validate_in validate_address_range
ten_valid = refl

validate_address_range-Accepted_example : Accepted binary only_cidr ten
validate_address_range-Accepted_example =
    validate_address_range-Accepted binary only_cidr ten ten_valid
