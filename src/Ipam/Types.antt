-- ===== src/Ipam/Types.antt =====
-- pkg/ipam/types/types.go, usage.go and the requests of manager.go and options.go.
use container_advanced_netwo.Common.{ℕ, Bool, Option, List, String}
use container_advanced_netwo.Common.Map.{Map}
use container_advanced_netwo.Net.{NetIp, IpNet}

-- IPStatusAllocated and IPStatusReserved.
pub data Status : Type 0 where
  allocated reserved : Status

pub record Ip : Type 0 where
  pub address : IpNet
  pub gateway : NetIp
  pub net_id : Option ℕ
  pub subnet : String
  pub network : String
  pub pod_name : String
  pub pod_namespace : String
  pub status : Status

abbrev pub IpSet : Type 0
IpSet = Map Ip

-- The index is -1 before the first allocation: that is `none`.
pub record IpSlice : Type 0 where
  pub ips : List String
  pub ip_count : ℕ
  pub ip_index : Option ℕ

-- The reserved and the black list are Go maps used as sets.
pub record Subnet : Type 0 where
  pub name : String
  pub parent_network : String
  pub net_id : Option ℕ
  pub start : NetIp
  pub end : NetIp
  pub cidr : IpNet
  pub gateway : NetIp
  pub reserved_list : List String
  pub black_list : List String
  pub last_allocated_ip : NetIp
  pub is_private : Bool
  pub ipv6 : Bool
  pub available_ips : IpSlice
  pub using_ips : IpSet
  pub reserved_ip_count : ℕ

pub record SubnetSlice : Type 0 where
  pub subnets : List Subnet
  pub subnet_index_map : Map ℕ
  pub subnet_index : ℕ
  pub subnet_count : ℕ
  pub last_allocated_subnet : String

-- NetworkType, a text of which three values are named.
pub data NetworkType : Type 0 where
  underlay overlay global_bgp : NetworkType
  other_type : String → NetworkType

pub record Network : Type 0 where
  pub name : String
  pub net_id : Option ℕ
  pub network_type : NetworkType
  pub ipv4_subnets : SubnetSlice
  pub ipv6_subnets : SubnetSlice

abbrev pub NetworkSet : Type 0
NetworkSet = Map Network

-- The counts are uint32.
pub record Usage : Type 0 where
  pub total : ℕ
  pub used : ℕ
  pub available : ℕ
  pub last_allocation : String

-- The usages by family: the map of the source has these three keys.
pub record NetworkUsage : Type 0 where
  pub ipv4 : Usage
  pub ipv6 : Usage
  pub dual_stack : Usage

-- IPFamilyMode, a text of which three values are named.
pub data IpFamilyMode : Type 0 where
  ipv4 ipv6 dual_stack : IpFamilyMode
  other_mode : String → IpFamilyMode

pub record PodInfo : Type 0 where
  pub name : String
  pub namespace : String
  pub ip_family : IpFamilyMode

pub record SubnetIpSuite : Type 0 where
  pub subnet : String
  pub ip : String
