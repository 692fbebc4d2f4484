-- ===== src/Ipam/Network.antt =====
-- pkg/ipam/types/network.go: a network with its IPv4 and its IPv6 subnets.
pub mod Invariant
pub mod Calls
pub mod Selection
use container_advanced_netwo.Common.{
  ℕ, ◌+◌, Bool, true, false, not, if◌then◌else◌, ltb, Option, none, some, String, get_elem?, set,
}
use container_advanced_netwo.Net.{IpText, is_nil, to4}
use container_advanced_netwo.Ipam.Base.{
  M, Result, ok, err, ◌>>=◌, return, lift, empty_subnet_name, invalid_ip, wrong_ip_family, panics,
}
use container_advanced_netwo.Ipam.Types.{
  Subnet, SubnetSlice, Network, NetworkType, NetworkUsage, IpSet,
}
use container_advanced_netwo.Ipam.Subnet.{is_empty}
use container_advanced_netwo.Ipam.SubnetSlice
use container_advanced_netwo.Ipam.SubnetSlice.{
  new_subnet_slice, add_subnet, get_subnet, get_available_subnet, get_subnet_by_ip, no_usage,
}

-- A *Subnet of a network: its family and its place.
pub record SubnetRef : Type 0 where
  pub is_v6 : Bool
  pub index : ℕ

-- NewNetwork.
unfoldable pub new_network : String → Option ℕ → String → String → NetworkType → Network
new_network name net_id last last6 network_type = record {
  name = name;
  net_id = net_id;
  network_type = network_type;
  ipv4_subnets = new_subnet_slice last;
  ipv6_subnets = new_subnet_slice last6;
}

abbrev pub slice_of : Bool → Network → SubnetSlice
slice_of true n = n.ipv6_subnets
slice_of false n = n.ipv4_subnets

abbrev pub set_slice : Bool → SubnetSlice → Network → Network
set_slice true s n = record n { ipv6_subnets = s }
set_slice false s n = record n { ipv4_subnets = s }

-- Network.AddSubnet.
unfoldable pub add_network_subnet : IpText → Subnet → IpSet → Network → Result Network
add_network_subnet t subnet ips n =
    elim (add_subnet t subnet n.net_id ips (slice_of subnet.ipv6 n)) [
      | err e ↦ err e
      | ok s ↦ ok (set_slice subnet.ipv6 s n)
    ]

abbrev pub ref : Bool → Result ℕ → Result SubnetRef
ref v6 (err e) = err e
ref v6 (ok i) = ok (record { is_v6 = v6; index = i })

-- GetSubnetByName. A panic of the first lookup is none of the second.
unfoldable pub get_subnet_by_name : String → Network → Result SubnetRef
get_subnet_by_name name n =
    if is_empty name then err empty_subnet_name else elim (get_subnet name n.ipv4_subnets) [
      | ok i ↦ ok (record { is_v6 = false; index = i })
      | err panics ↦ err panics
      | err _ ↦ ref true (get_subnet name n.ipv6_subnets)
    ]

-- GetSubnetByNameOrIP.
unfoldable pub get_subnet_by_name_or_ip : IpText → String → String → Network → Result SubnetRef
get_subnet_by_name_or_ip t name ip n =
    if not (is_empty name)
    then get_subnet_by_name name n
    else if is_nil (t.parse_ip ip)
    then err invalid_ip
    else if is_nil (to4 (t.parse_ip ip))
    then ref true (get_subnet_by_ip t ip n.ipv6_subnets)
    else ref false (get_subnet_by_ip t ip n.ipv4_subnets)

-- A call on one slice of the network.
abbrev pub on_slice {ℓ} :
    {A : Type ℓ} → Bool → (SubnetSlice → Result A × SubnetSlice) → Network → Result A × Network
on_slice v6 call n = let (r, s) = call (slice_of v6 n) in (r, set_slice v6 s n)

-- The subnet behind a reference.
abbrev pub load : SubnetRef → Network → Option Subnet
load r n = get_elem? (slice_of r.is_v6 n).subnets r.index

abbrev pub store : SubnetRef → Subnet → Network → Network
store r subnet n =
    let s = slice_of r.is_v6 n in
    set_slice r.is_v6 (record s { subnets = set s.subnets r.index subnet }) n

-- A method call on the subnet behind a reference.
unfoldable pub on_subnet : {A : Type 0} → SubnetRef → (Subnet → Result A × Subnet) → M Network A
on_subnet r call n = elim (load r n) [
  | none ↦ (err panics, n)
  | some subnet ↦ let (a, subnet') = call subnet in (a, store r subnet' n)
]

-- The check of the family of a subnet that is named, `sn.IsIPv6()`.
unfoldable pub check_family : Bool → SubnetRef → M Network SubnetRef
check_family v6 r n = elim (load r n) [
  | none ↦ (err panics, n)
  | some subnet ↦ (if same v6 subnet.ipv6 then ok r else err wrong_ip_family, n)
]
  where
    same : Bool → Bool → Bool
    same true b = b
    same false b = not b

-- GetIPv4SubnetByNameOrAvailable and GetIPv6SubnetByNameOrAvailable.
unfoldable pub get_subnet_by_name_or_available : Bool → String → M Network SubnetRef
get_subnet_by_name_or_available v6 name n =
    if not (is_empty name)
    then (do r ← lift (ref v6 (get_subnet name (slice_of v6 n))); check_family v6 r) n
    else (let (r, n') = on_slice v6 get_available_subnet n in (ref v6 r, n'))

-- GetDualStackSubnetsByNameOrAvailable.
unfoldable pub get_dual_stack_subnets : String → String → M Network (SubnetRef × SubnetRef)
get_dual_stack_subnets v4_name v6_name = do
  v4_subnet ← get_subnet_by_name_or_available false v4_name
  v6_subnet ← get_subnet_by_name_or_available true v6_name
  return (v4_subnet, v6_subnet)

-- Network.Usage: the dual stack usage has only its count of available addresses.
unfoldable pub usage : Network → Result NetworkUsage
usage n = elim (SubnetSlice.usage n.ipv4_subnets) [
  | err e ↦ err e
  | ok v4 ↦ elim (SubnetSlice.usage n.ipv6_subnets) [
    | err e ↦ err e
    | ok v6 ↦ ok (record {
      ipv4 = v4;
      ipv6 = v6;
      dual_stack = record no_usage { available = min_uint32 v4.available v6.available };
    })
  ]
]
  where
    min_uint32 : ℕ → ℕ → ℕ
    min_uint32 a b = if ltb b a then b else a

-- Network.SubnetCount.
unfoldable pub subnet_count : Network → ℕ
subnet_count n = n.ipv4_subnets.subnet_count + n.ipv6_subnets.subnet_count
