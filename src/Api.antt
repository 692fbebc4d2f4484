-- ===== src/Api.antt =====
-- pkg/apis/networking/v1: the Network, Subnet and IPInstance objects and what utils.go reads of
-- them. Of the metadata, the name, the namespace, the labels and the deletion mark are kept. An
-- int32 is the number that its bits spell: but for IsAvailable it is only compared for equality or turned into uint32.
pub mod Sort
pub mod Transform
use container_advanced_netwo.Common.{
  ℕ, Bool, true, false, not, ◌||◌, ◌&&◌, ltb, ◌-◌, ◌^◌, if◌then◌else◌, ite, Option, none, some,
  List, String, str_dec, length,
}
use container_advanced_netwo.Common.Map.{Map}
use container_advanced_netwo.Net.{NetIp, is_nil, IpNet, to4, IpText}
use container_advanced_netwo.Net.Cidr.{next_ip, last_ip, capacity}
use container_advanced_netwo.Ipam.Types.{NetworkType, underlay, overlay, global_bgp, other_type}
use container_advanced_netwo.AddressRange.{
  AddressRange, IpVersion, ipv4, ipv6, other_version, is_empty,
}

-- NetworkMode, a text of which four values are named.
pub data NetworkMode : Type 0 where
  mode_vxlan mode_vlan mode_bgp mode_global_bgp : NetworkMode
  other_mode : String → NetworkMode

pub record BgpPeer : Type 0 where
  pub asn : ℕ
  pub address : String

pub record Count : Type 0 where
  pub total : ℕ
  pub used : ℕ
  pub available : ℕ

-- Network; a missing node selector is the empty one, and a missing config `none`.
pub record NetworkObject : Type 0 where
  pub name : String
  pub node_selector : Map String
  pub net_id : Option ℕ
  pub spec_type : NetworkType
  pub spec_mode : NetworkMode
  pub config : Option (List BgpPeer)
  pub last_allocated_subnet : String
  pub last_allocated_ipv6_subnet : String
  pub node_list : List String
  pub statistics : Option Count
  pub ipv6_statistics : Option Count
  pub dual_stack_statistics : Option Count

pub record SubnetConfig : Type 0 where
  pub auto_nat_outgoing : Option Bool
  pub private : Option Bool

pub record SubnetObject : Type 0 where
  pub name : String
  pub range : AddressRange
  pub net_id : Option ℕ
  pub network : String
  pub config : Option SubnetConfig
  pub last_allocated_ip : String

pub record Address : Type 0 where
  pub version : IpVersion
  pub ip : String
  pub gateway : String
  pub net_id : Option ℕ
  pub mac : String

pub record Binding : Type 0 where
  pub referred_kind : String
  pub referred_name : String
  pub referred_uid : String
  pub node_name : String
  pub pod_uid : String
  pub pod_name : String
  pub stateful_index : Option ℕ

pub record InstanceStatus : Type 0 where
  pub status_node_name : String
  pub status_pod_name : String
  pub status_pod_namespace : String
  pub sandbox_id : String

-- The controller reference of an object.
pub record OwnerReference : Type 0 where
  pub kind : String
  pub name : String
  pub uid : String

pub record IpInstance : Type 0 where
  pub name : String
  pub namespace : String
  pub labels : Map String
  pub finalizers : List String
  pub deleted : Bool
  pub controller : Option OwnerReference
  pub network : String
  pub subnet : String
  pub address : Address
  pub binding : Binding
  pub status : InstanceStatus

-- GetNetworkType: the empty text means Underlay.
unfoldable pub type_or_default : NetworkType → NetworkType
type_or_default underlay = underlay
type_or_default overlay = overlay
type_or_default global_bgp = global_bgp
type_or_default (other_type s) = if is_empty s then underlay else other_type s

unfoldable pub get_network_type : NetworkObject → NetworkType
get_network_type n = type_or_default n.spec_type

is_empty_mode : NetworkMode → Bool
is_empty_mode (other_mode s) = is_empty s
is_empty_mode _ = false

-- The default of GetNetworkMode for a type.
unfoldable pub default_mode : NetworkType → NetworkMode → NetworkMode
default_mode underlay mode = mode_vlan
default_mode overlay mode = mode_vxlan
default_mode global_bgp mode = mode_global_bgp
default_mode (other_type _) mode = mode

-- GetNetworkMode.
unfoldable pub get_network_mode : NetworkObject → NetworkMode
unfolding is_empty_mode
get_network_mode n =
    if is_empty_mode n.spec_mode then default_mode (get_network_type n) n.spec_mode else n.spec_mode

unfoldable pub same_type : NetworkType → NetworkType → Bool
same_type underlay underlay = true
same_type overlay overlay = true
same_type global_bgp global_bgp = true
same_type (other_type a) (other_type b) = ite (str_dec a b) true false
same_type _ _ = false

unfoldable pub same_mode : NetworkMode → NetworkMode → Bool
same_mode mode_vxlan mode_vxlan = true
same_mode mode_vlan mode_vlan = true
same_mode mode_bgp mode_bgp = true
same_mode mode_global_bgp mode_global_bgp = true
same_mode (other_mode a) (other_mode b) = ite (str_dec a b) true false
same_mode _ _ = false

-- IsGlobalUniqueNetwork.
unfoldable pub is_global_unique_network : NetworkObject → Bool
is_global_unique_network n =
    same_type (get_network_type n) overlay || same_type (get_network_type n) global_bgp

-- IsPrivateSubnet and IsSubnetAutoNatOutgoing.
unfoldable pub is_private_subnet : SubnetObject → Bool
is_private_subnet s = elim s.config [
  | none ↦ false
  | some c ↦ elim c.private [ none ↦ false | some b ↦ b ]
]

unfoldable pub is_subnet_auto_nat_outgoing : SubnetObject → Bool
is_subnet_auto_nat_outgoing s = elim s.config [
  | none ↦ true
  | some c ↦ elim c.auto_nat_outgoing [ none ↦ true | some b ↦ b ]
]

-- IsAvailable of the statistics: the count is an int32, negative from 2^31 on.
unfoldable pub is_count_available : Option Count → Bool
is_count_available none = false
is_count_available (some c) = ltb 0 c.available && ltb c.available (2 ^ 31)

-- IsReserved of an IPInstance, and IsValidIPInstance.
unfoldable pub is_reserved_instance : IpInstance → Bool
is_reserved_instance i = is_empty i.binding.node_name

unfoldable pub is_valid_instance : IpInstance → Bool
is_valid_instance i = not (is_empty i.binding.referred_kind)

module _ (parse_cidr : String → Option (NetIp × IpNet)) where
  -- The address that the text of a network spells is one of IPv6.
  abbrev spells_ipv6 : String → Bool
  spells_ipv6 text = elim (parse_cidr text) [ none ↦ false | some (ip, _) ↦ is_nil (to4 ip) ]

  -- IsIPv6Subnet.
  unfoldable pub is_ipv6_subnet : SubnetObject → Bool
  is_ipv6_subnet s = elim s.range.version [
    | ipv6 ↦ true
    | _ ↦ elim (parse_cidr s.range.cidr) [ none ↦ false | some (_, cidr) ↦ is_nil (to4 cidr.ip) ]
  ]

  -- IsIPv6IPInstance.
  unfoldable pub is_ipv6_instance : IpInstance → Bool
  is_ipv6_instance i = elim i.address.version [
    | ipv4 ↦ false
    | ipv6 ↦ true
    | other_version _ ↦ spells_ipv6 i.address.ip
  ]

  -- CalculateCapacity, as a difference: the capacity of the range, and the excluded addresses. `none`
  -- is a panic.
  module _ (t : IpText) where
    unfoldable pub calculate_capacity : AddressRange → Option (ℕ × ℕ)
    calculate_capacity ar = elim (parse_cidr ar.cidr) [
      | none ↦ some (9223372036854775807, 0)
      | some (_, cidr) ↦
          elim (if is_nil (t.parse_ip ar.start)
            then next_ip cidr.ip
            else some (t.parse_ip ar.start)) [
              | none ↦ none
              | some start ↦
                  elim (if is_nil (t.parse_ip ar.end)
                    then last_ip cidr
                    else some (t.parse_ip ar.end)) [
                      | none ↦ none
                      | some end ↦ some (capacity start end, length ar.exclude_ips)
                    ]
            ]
    ]
