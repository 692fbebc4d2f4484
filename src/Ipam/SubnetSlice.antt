-- ===== src/Ipam/SubnetSlice.antt =====
-- The subnets of one family of a network: SubnetSlice of pkg/ipam/types/subnet.go, and Usage.Add.
-- A *Subnet is its place in the slice.
pub mod Built
pub mod Rotation
use container_advanced_netwo.Common.{
  ℕ, zero, suc, ◌+◌, ◌-◌, ◌%◌, ◌^◌, Bool, true, false, ◌==◌, if◌then◌else◌, ite, Option, none, some,
  List, [], ◌∷◌, ◌++◌, String, str_dec, length, get_elem?,
}
use container_advanced_netwo.Common.Map
use container_advanced_netwo.Net.{NetIp, IpText}
use container_advanced_netwo.Ipam.Base.{
  Result, ok, err, no_available_subnet, not_found_subnet, panics, unbounded,
}
use container_advanced_netwo.Ipam.Types.{Subnet, SubnetSlice, IpSet, Usage}
use container_advanced_netwo.Ipam.Subnet
use container_advanced_netwo.Ipam.Subnet.{is_available, is_empty, contains, canonicalize, sync}

-- NewSubnetSlice.
unfoldable pub new_subnet_slice : String → SubnetSlice
new_subnet_slice last = record {
  subnets = [];
  subnet_index_map = [];
  subnet_index = 0;
  subnet_count = 0;
  last_allocated_subnet = last;
}

-- The end of AddSubnet, for a subnet that is synced.
unfoldable pub append_subnet : Subnet → SubnetSlice → SubnetSlice
append_subnet subnet s = record {
  subnets = s.subnets ++ subnet ∷ [];
  subnet_count = length (s.subnets ++ subnet ∷ []);
  subnet_index_map = Map.put subnet.name (length (s.subnets ++ subnet ∷ []) - 1) s.subnet_index_map;
  subnet_index =
      ite (str_dec subnet.name s.last_allocated_subnet) (length (s.subnets ++ subnet ∷ []) - 1)
        s.subnet_index;
  last_allocated_subnet = s.last_allocated_subnet;
}

-- AddSubnet.
unfoldable pub add_subnet : IpText → Subnet → Option ℕ → IpSet → SubnetSlice → Result SubnetSlice
add_subnet t subnet parent_net_id ips s = elim (canonicalize subnet) [
  | err e ↦ err e
  | ok subnet' ↦ elim (sync t parent_net_id ips subnet') [
    | err e ↦ err e
    | ok synced ↦ ok (append_subnet synced s)
  ]
]

-- The subnet at a place; an index out of range is a panic.
unfoldable pub at : ℕ → SubnetSlice → Result ℕ
at i s = elim (get_elem? s.subnets i) [ none ↦ err panics | some _ ↦ ok i ]

-- GetSubnet.
unfoldable pub get_subnet : String → SubnetSlice → Result ℕ
get_subnet name s = elim (Map.get name s.subnet_index_map) [
  | none ↦ err not_found_subnet
  | some i ↦ at i s
]

-- The loop of GetAvailableSubnet, on fuel.
unfoldable pub available_loop : ℕ → ℕ → SubnetSlice → Result ℕ × SubnetSlice
available_loop zero last s = (err unbounded, s)
available_loop (suc fuel) last s = elim (get_elem? s.subnets s.subnet_index) [
  | none ↦ (err panics, s)
  | some subnet ↦ elim (is_available subnet) [
    | true ↦ (ok s.subnet_index, s)
    | false ↦
        let next : ℕ = (s.subnet_index + 1) % s.subnet_count in
        let s' : SubnetSlice = record s { subnet_index = next } in
        elim (next == last) [
          | true ↦ (err no_available_subnet, s')
          | false ↦ available_loop fuel last s'
        ]
  ]
]

-- GetAvailableSubnet: as many rounds as there are subnets.
unfoldable pub get_available_subnet : SubnetSlice → Result ℕ × SubnetSlice
get_available_subnet s =
    if s.subnet_count == 0
    then (err no_available_subnet, s)
    else available_loop s.subnet_count s.subnet_index s

-- The loop of GetSubnetByIP; `i` is the place of the first subnet of the list.
unfoldable pub find_by_ip : IpText → NetIp → ℕ → List Subnet → Result ℕ
find_by_ip t a i [] = err not_found_subnet
find_by_ip t a i (subnet ∷ rest) = if contains t subnet a then ok i else find_by_ip t a (suc i) rest

-- GetSubnetByIP.
unfoldable pub get_subnet_by_ip : IpText → String → SubnetSlice → Result ℕ
get_subnet_by_ip t ip s = find_by_ip t (t.parse_ip ip) 0 s.subnets

-- CurrentSubnetName.
unfoldable pub current_subnet_name : SubnetSlice → Result String
current_subnet_name s =
    if s.subnet_count == 0 then ok "" else elim (get_elem? s.subnets s.subnet_index) [
      | none ↦ err panics
      | some subnet ↦ ok subnet.name
    ]

-- Usage.Add, on uint32 counts.
unfoldable pub add_usage : Usage → Usage → Usage
add_usage u v = record {
  total = (u.total + v.total) % 2 ^ 32;
  used = (u.used + v.used) % 2 ^ 32;
  available = (u.available + v.available) % 2 ^ 32;
  last_allocation = if is_empty u.last_allocation then v.last_allocation else u.last_allocation;
}

abbrev pub no_usage : Usage
no_usage = record { total = 0; used = 0; available = 0; last_allocation = "" }

-- The loop of SubnetSlice.Usage.
unfoldable pub sum_usage : Usage → List Subnet → Result Usage
sum_usage acc [] = ok acc
sum_usage acc (subnet ∷ rest) = elim (Subnet.usage subnet) [
  | err e ↦ err e
  | ok u ↦ sum_usage (add_usage acc u) rest
]

-- SubnetSlice.Usage.
unfoldable pub usage : SubnetSlice → Result Usage
usage s = elim (sum_usage no_usage s.subnets) [
  | err e ↦ err e
  | ok total ↦ elim (current_subnet_name s) [
    | err e ↦ err e
    | ok name ↦ ok (record total { last_allocation = name })
  ]
]
