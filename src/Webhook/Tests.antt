-- ===== src/Webhook/Tests.antt =====
-- The theorems on the webhooks at concrete inputs: the creation of one overlay network and of the
-- subnet 10.0.0.0/24 in it.
use container_advanced_netwo.Common.{
  ℕ, ◌≡◌, refl, false, Option, none, some, [], ◌∷◌, elem, String, arith, str_dec, All, ◌==◌, ◌+◌,
}
use container_advanced_netwo.Common.Map
use container_advanced_netwo.Net.{
  NetIp, ip4, IpNet, cidr_mask, normalize_ip, to4, to16, is_nil, equal, in_net, apply_mask,
}
use container_advanced_netwo.Net.Binary.{binary}
use container_advanced_netwo.Net.Cidr.{cmp, capacity}
use container_advanced_netwo.Ipam.Types.{overlay, other_type}
use container_advanced_netwo.Ipam.Ip.{new_ip_slice}
use container_advanced_netwo.Ipam.Subnet.{
  canonicalize, validate, fill_start, fill_end, overlap, contains, is_reserved_ip, is_black_ip,
}
use container_advanced_netwo.AddressRange.{
  ipv4, validate_ips, validate_gateway, validate_in, validate_address_range,
}
use container_advanced_netwo.Api.{
  NetworkObject, SubnetObject, mode_bgp, other_mode, get_network_type, get_network_mode,
  type_or_default, default_mode, same_type, calculate_capacity, is_private_subnet, is_ipv6_subnet,
}
use container_advanced_netwo.Api.Transform.{new_subnet, transfer_subnet, string_slice_to_map}
use container_advanced_netwo.Webhook.Refusal.{Reads, found, not_found, panicked}
use container_advanced_netwo.Webhook.Network.{
  find_type, check_unique, create_type, create_mode, network_create, peers_of, create_peers,
  check_underlay, underlay_meets, active_names, meets_underlay, network_update,
}
use container_advanced_netwo.Webhook.Network.Rules.{
  Ruled, network_create-Ruled, network_update-panicked,
}
use container_advanced_netwo.Webhook.Subnet.{
  subnet_create, create_with, create_under, create_in, check_range, check_capacity, check_canonical,
  check_others, check_cidr, check_overlap, check_remote_subnets,
}
use container_advanced_netwo.Webhook.Subnet.Apart.{Created, subnet_create-Created}
use container_advanced_netwo.Webhook.Cluster.{
  Cluster, Sees, network_created, Steps, none_left, next_step, IsCluster,
}
use container_advanced_netwo.Webhook.Cluster.Invariant.{Steps-IsCluster}

abbrev base : ℕ
base = 0x0a000000

abbrev text : ℕ → String
text n = binary.print_ip (ip4 (base + n))

abbrev one_cidr : String → Option (NetIp × IpNet)
one_cidr _ = some (ip4 base, record { ip = ip4 base; mask = cidr_mask 24 32 })

abbrev pub big : NetworkObject
big = record {
  name = "big";
  node_selector = [];
  net_id = some 4;
  spec_type = overlay;
  spec_mode = other_mode "";
  config = none;
  last_allocated_subnet = "";
  last_allocated_ipv6_subnet = "";
  node_list = [];
  statistics = none;
  ipv6_statistics = none;
  dual_stack_statistics = none;
}

abbrev nothing_there : Reads
nothing_there = record {
  networks = some [];
  subnets = some [];
  network = λ _. not_found;
  subnet = λ _. not_found;
  nodes = λ _. some [];
  remote_clusters = some [];
  remote_subnets = some [];
  instances_of_node = λ _ _. some [];
  instances_of_subnet = λ _. some [];
  multi_cluster = false;
}

big_allowed : network_create binary nothing_there big ≡ none
unfolding network_create create_type create_mode check_unique find_type get_network_type
    type_or_default get_network_mode default_mode same_type str_dec
big_allowed = refl

network_create-Ruled_example :
    Ruled binary big
    × (get_network_mode big ≡ mode_bgp → All (λ p. (p.asn == 0) ≡ false) (peers_of big))
network_create-Ruled_example = network_create-Ruled binary nothing_there big big_allowed

abbrev empty_cluster : Cluster
empty_cluster = record { networks = []; subnets = [] }

Sees-nothing : Sees nothing_there empty_cluster
unfolding Map.get
Sees-nothing = record {
  networks_shown = λ l k n e h. absurd (ground (arith, h));
  subnets_shown = λ l k s e h. absurd (ground (arith, h));
  network_there = λ k n e. absurd (ground (arith, e));
}

empty-IsCluster : IsCluster binary one_cidr 1000 empty_cluster
unfolding Map.get
empty-IsCluster = record {
  named = λ k n h. absurd (ground (arith, h));
  ruled = λ k n h. absurd (ground (arith, h));
  unique = λ ty j k m n kind h. absurd (ground (arith, h));
  parented = λ k s h. absurd (ground (arith, h));
  apart = λ j k a b ne h. absurd (ground (arith, h));
}

fresh : Map.get big.name empty_cluster.networks ≡ none
unfolding Map.get
fresh = refl

abbrev with_big : Cluster
with_big = record { networks = Map.put "big" big []; subnets = [] }

one_step : Steps binary one_cidr 1000 empty_cluster with_big
one_step = next_step (network_created nothing_there big Sees-nothing fresh big_allowed) none_left

Steps-IsCluster_example : IsCluster binary one_cidr 1000 with_big
Steps-IsCluster_example = Steps-IsCluster binary one_cidr 1000 one_step empty-IsCluster

abbrev peered : NetworkObject
peered = record big {
  name = "peered";
  node_selector = ("rack", "r1") ∷ [];
  spec_type = other_type "";
  spec_mode = mode_bgp;
  config = some (record { asn = 65000; address = text 1 } ∷ []);
}

peered_allowed : network_create binary nothing_there peered ≡ none
unfolding network_create create_type create_mode create_peers check_underlay underlay_meets
    active_names meets_underlay get_network_type type_or_default get_network_mode default_mode
    same_type str_dec binary is_nil
peered_allowed = refl

peered_mode : get_network_mode peered ≡ mode_bgp
unfolding get_network_type type_or_default get_network_mode str_dec
peered_mode = refl

network_update-panicked_example :
    network_update binary peered (record peered { config = none }) ≡ some panicked
network_update-panicked_example =
    network_update-panicked binary peered
      (network_create-Ruled binary nothing_there peered peered_allowed).0 peered_mode

abbrev pub ten : SubnetObject
ten = record {
  name = "ten";
  range = record {
    version = ipv4;
    start = text 2;
    end = text 9;
    cidr = "10.0.0.0/24";
    gateway = text 1;
    reserved_ips = [];
    exclude_ips = text 4 ∷ [];
  };
  net_id = none;
  network = "big";
  config = none;
  last_allocated_ip = "";
}

-- The overlay network is there, and a subnet with the addresses from 20 to 29 of the same CIDR.
abbrev twenty : SubnetObject
twenty = record ten {
  name = "twenty";
  range = record {
    version = ipv4;
    start = text 20;
    end = text 29;
    cidr = "10.0.0.0/24";
    gateway = text 1;
    reserved_ips = [];
    exclude_ips = [];
  };
}

abbrev big_there : Reads
big_there = record nothing_there { network = λ _. found big; subnets = some (twenty ∷ []) }

ten_allowed : subnet_create binary one_cidr 1000 big_there ten ≡ none
unfolding subnet_create create_with create_under create_in check_range check_capacity
    check_canonical check_others check_cidr check_overlap check_remote_subnets get_network_type
    type_or_default get_network_mode default_mode str_dec binary is_nil to4 to16 normalize_ip equal
    in_net apply_mask cmp capacity validate_ips validate_gateway validate_in validate_address_range
    calculate_capacity transfer_subnet new_subnet new_ip_slice string_slice_to_map elem
    is_private_subnet is_ipv6_subnet canonicalize validate fill_start fill_end overlap contains
    is_reserved_ip is_black_ip
ten_allowed = refl

subnet_create-Created_example : Created binary one_cidr 1000 big_there ten
subnet_create-Created_example = subnet_create-Created binary one_cidr 1000 big_there ten ten_allowed
