-- ===== src/Api/Transform.antt =====
-- pkg/utils/transform/ipam.go: from the objects of the API to the types of the address manager.
use container_advanced_netwo.Common.{
  ℕ, Bool, if◌then◌else◌, Option, none, some, List, [], ◌∷◌, String, elem,
}
use container_advanced_netwo.Net.{NetIp, IpNet, IpText}
use container_advanced_netwo.Ipam.Types.{Ip, Subnet, Network, NetworkType, allocated, reserved}
use container_advanced_netwo.Ipam.Network.{new_network}
use container_advanced_netwo.Ipam.Ip.{new_ip_slice}
use container_advanced_netwo.Api.{
  NetworkObject, SubnetObject, IpInstance, get_network_type, is_private_subnet, is_ipv6_subnet,
  is_reserved_instance,
}

-- NewSubnet: the ring and the set in use are empty before Sync.
unfoldable pub new_subnet :
    (name network : String)
    → Option ℕ
    → (start end gateway : NetIp) → IpNet
    → (reserved_list black_list : List String) → NetIp
    → (private ipv6 : Bool) → Subnet
new_subnet name network net_id start end gateway cidr reserved_list black_list last private ipv6 =
    record {
      name = name;
      parent_network = network;
      net_id = net_id;
      start = start;
      end = end;
      cidr = cidr;
      gateway = gateway;
      reserved_list = reserved_list;
      black_list = black_list;
      last_allocated_ip = last;
      is_private = private;
      ipv6 = ipv6;
      available_ips = new_ip_slice;
      using_ips = [];
      reserved_ip_count = 0;
    }

-- TransferNetworkForIPAM; `parse_type` is ParseNetworkTypeFromString.
unfoldable pub transfer_network : (NetworkType → NetworkType) → NetworkObject → Network
transfer_network parse_type n =
    new_network n.name n.net_id n.last_allocated_subnet n.last_allocated_ipv6_subnet
      (parse_type (get_network_type n))

-- StringSliceToMap, as a list without repetitions.
unfoldable pub string_slice_to_map : List String → List String
string_slice_to_map [] = []
string_slice_to_map (x ∷ xs) =
    let rest = string_slice_to_map xs in if elem x rest then rest else x ∷ rest

module _ (t : IpText) (parse_cidr : String → Option (NetIp × IpNet)) where
  -- TransferSubnetForIPAM; `none` stands for a subnet whose CIDR is nil: its methods panic.
  unfoldable pub transfer_subnet : SubnetObject → Option Subnet
  transfer_subnet s = elim (parse_cidr s.range.cidr) [
    | none ↦ none
    | some (_, cidr) ↦ some (
        new_subnet s.name s.network s.net_id (t.parse_ip s.range.start) (t.parse_ip s.range.end)
          (t.parse_ip s.range.gateway) cidr (string_slice_to_map s.range.reserved_ips)
          (string_slice_to_map s.range.exclude_ips) (t.parse_ip s.last_allocated_ip)
          (is_private_subnet s) (is_ipv6_subnet parse_cidr s))
  ]

  -- TransferIPInstanceForIPAM; `none` is a panic of StringToIPNet.
  unfoldable pub transfer_ip_instance : IpInstance → Option Ip
  transfer_ip_instance i = elim (parse_cidr i.address.ip) [
    | none ↦ none
    | some (ip, cidr) ↦ some (record {
      address = record { ip = ip; mask = cidr.mask };
      gateway = t.parse_ip i.address.gateway;
      net_id = i.address.net_id;
      subnet = i.subnet;
      network = i.network;
      pod_name = i.binding.pod_name;
      pod_namespace = i.namespace;
      status = if is_reserved_instance i then reserved else allocated;
    })
  ]
