-- ===== src/Ipam/Subnet.antt =====
-- pkg/ipam/types/subnet.go: one subnet, with its addresses in use and those to hand out. The text
-- of addresses is a parameter.
pub mod Assign
pub mod Outcome
pub mod Invariant
pub mod Allocate
pub mod Range
pub mod Sync
use container_advanced_netwo.Common.{
  ℕ, zero, suc, ◌+◌, ◌-◌, ◌%◌, ◌^◌, Bool, true, false, not, ◌&&◌, ◌||◌, ltb, ◌==◌, if◌then◌else◌,
  ite, Option, none, some, List, [], ◌∷◌, String, str_dec, elem, length,
}
use container_advanced_netwo.Common.Map
use container_advanced_netwo.Net.{
  NetIp, ip4, ip16, IpNet, Mask, nil_mask, cidr_mask, is_nil, normalize_ip, equal, in_net,
  apply_mask, IpText,
}
use container_advanced_netwo.Net.Cidr.{next_ip, cmp, is_neg, is_pos, is_le, last_ip}
use container_advanced_netwo.Ipam.Base.{
  Error, Result, ok, err, panics, unbounded, not_found_assigned_ip, not_available_assigned_ip,
  empty_name, empty_parent_network, invalid_cidr, small_cidr, version_mismatch, host_bits_set,
  gateway_outside, start_outside, end_outside,
}
use container_advanced_netwo.Ipam.Types.{
  Ip, IpSet, IpSlice, Subnet, Usage, Status, allocated, reserved,
}
use container_advanced_netwo.Ipam.Ip.{update, update_status, new_ip_slice, add, next, current}

-- IsReservedIP and IsBlackIP.
unfoldable pub is_reserved_ip : String → Subnet → Bool
is_reserved_ip ip s = elem ip s.reserved_list

unfoldable pub is_black_ip : String → Subnet → Bool
is_black_ip ip s = elem ip s.black_list

-- IsAvailable: the code compares ints, `Count() > UsingIPs.Count() - ReservedIPCount`.
unfoldable pub is_available : Subnet → Bool
is_available s =
    ltb (Map.size s.using_ips) (s.available_ips.ip_count + s.reserved_ip_count) && not s.is_private

-- uint32(a - b) for ints a and b.
unfoldable pub sub_uint32 : ℕ → ℕ → ℕ
sub_uint32 a b = (a % 2 ^ 32 + 2 ^ 32 - b % 2 ^ 32) % 2 ^ 32

-- Subnet.Usage. `panics` stands for an index out of range in Current.
unfoldable pub usage : Subnet → Result Usage
usage s = elim (current s.available_ips) [
  | none ↦ err panics
  | some last ↦ ok (record {
    total = s.available_ips.ip_count % 2 ^ 32;
    used = sub_uint32 (Map.size s.using_ips) s.reserved_ip_count;
    available = sub_uint32 (s.available_ips.ip_count + s.reserved_ip_count) (Map.size s.using_ips);
    last_allocation = last;
  })
]

-- len(IP) differs from len(Mask).
lengths_differ : NetIp → Mask → Bool
lengths_differ (ip4 n) (cidr_mask ones bits) = not (bits == 32)
lengths_differ (ip16 n) (cidr_mask ones bits) = not (bits == 128)
lengths_differ _ _ = true

is_nil_mask : Mask → Bool
is_nil_mask nil_mask = true
is_nil_mask (cidr_mask ones bits) = false

-- Mask.Size.
mask_ones : Mask → ℕ
mask_ones nil_mask = 0
mask_ones (cidr_mask ones bits) = ones

mask_bits : Mask → ℕ
mask_bits nil_mask = 0
mask_bits (cidr_mask ones bits) = bits

outside : IpNet → NetIp → Bool
outside c a = not (is_nil a) && not (in_net c a)

abbrev pub is_empty : String → Bool
is_empty s = ite (str_dec s "") true false

-- Validate: the first error of the ladder, if any. `ones > masklen - 2` compares ints.
unfoldable pub validate : Subnet → Option Error
unfolding lengths_differ is_nil_mask mask_ones mask_bits outside
validate s =
    if is_empty s.name
    then some empty_name
    else if is_empty s.parent_network
    then some empty_parent_network
    else if is_nil s.cidr.ip || is_nil_mask s.cidr.mask
    then some invalid_cidr
    else if ltb (mask_bits s.cidr.mask) (mask_ones s.cidr.mask + 2)
    then some small_cidr
    else if lengths_differ s.cidr.ip s.cidr.mask
    then some version_mismatch
    else if not (equal s.cidr.ip (apply_mask s.cidr.ip s.cidr.mask))
    then some host_bits_set
    else if outside s.cidr s.gateway
    then some gateway_outside
    else if outside s.cidr s.start
    then some start_outside
    else if outside s.cidr s.end
    then some end_outside
    else none

-- Canonicalize: a missing start is the address after that of the network, a missing end the last
-- address that LastIP gives.
unfoldable pub fill_start : Subnet → Result Subnet
fill_start s =
    if is_nil s.start
    then elim (next_ip s.cidr.ip) [ none ↦ err panics | some a ↦ ok (record s { start = a }) ]
    else ok s

unfoldable pub fill_end : Subnet → Result Subnet
fill_end s =
    if is_nil s.end
    then elim (last_ip s.cidr) [ none ↦ err panics | some a ↦ ok (record s { end = a }) ]
    else ok s

unfoldable pub canonicalize : Subnet → Result Subnet
canonicalize s = elim (validate s) [
  | some e ↦ err e
  | none ↦ elim (fill_start s) [ err e ↦ err e | ok s' ↦ fill_end s' ]
]

-- The address is allocated or reserved in this subnet: the IP record of AllocateNext, Assign and
-- Sync.
unfoldable pub make_ip : Subnet → NetIp → String → String → Status → Ip
make_ip s a pod_name pod_namespace status = record {
  address = record { ip = a; mask = s.cidr.mask };
  gateway = s.gateway;
  net_id = s.net_id;
  subnet = s.name;
  network = s.parent_network;
  pod_name = pod_name;
  pod_namespace = pod_namespace;
  status = status;
}

module _ (t : IpText) where
  -- Contains.
  unfoldable pub contains : Subnet → NetIp → Bool
  contains s a =
      if not (in_net s.cidr a)
      then false
      else if not (is_nil s.start) && is_neg (cmp a s.start)
      then false
      else if not (is_nil s.end) && is_pos (cmp a s.end)
      then false
      else if not (is_nil s.gateway) && equal s.gateway a
      then false
      else not (is_black_ip (t.print_ip a) s)

  -- Overlap.
  unfoldable pub overlap : Subnet → Subnet → Bool
  overlap s s1 =
      if not (same_family s.ipv6 s1.ipv6)
      then false
      else contains s s1.start || contains s s1.end || contains s1 s.start || contains s1 s.end
    where
      same_family : Bool → Bool → Bool
      same_family true b = b
      same_family false b = not b

  -- The loop of Sync that keeps the reserved texts that the subnet contains.
  unfoldable pub filter_reserved : Subnet → List String → List String
  filter_reserved s [] = []
  filter_reserved s (rip ∷ rips) =
      if contains s (t.parse_ip rip) then rip ∷ filter_reserved s rips else filter_reserved s rips

  -- The loop of Sync over the addresses in use.
  unfoldable pub sync_using : Subnet → IpSet → IpSet → IpSet
  sync_using s [] using = using
  sync_using s ((ip, content) ∷ rest) using = sync_using s rest (
      if ite (str_dec content.subnet s.name) true false && contains s content.address.ip
      then Map.put ip content using
      else using)

  -- The loop of Sync that enters the reserved addresses.
  unfoldable pub pre_assign : Subnet → List String → IpSet → IpSet
  pre_assign s [] using = using
  pre_assign s (rip ∷ rips) using = pre_assign s rips (
      if Map.has rip using
      then using
      else Map.put rip (make_ip s (t.parse_ip rip) "" "" reserved) using)

  -- One round of the loop of Sync over the range.
  unfoldable pub offer : Subnet → NetIp → IpSlice → IpSlice
  offer s i slice =
      if not (contains s i)
      then slice
      else if is_reserved_ip (t.print_ip i) s
      then slice
      else add (t.print_ip i) (equal i s.last_allocated_ip) slice

  -- The loop `for i := Start; Cmp(i, End) <= 0; i = NextIP(i)` on fuel.
  unfoldable pub offer_all : ℕ → Subnet → NetIp → IpSlice → Result IpSlice
  offer_all zero s i slice = err unbounded
  offer_all (suc fuel) s i slice = elim (is_le (cmp i s.end)) [
    | false ↦ ok slice
    | true ↦ elim (next_ip i) [ none ↦ err panics | some j ↦ offer_all fuel s j (offer s i slice) ]
  ]

  -- Two rounds more than the addresses of the range. A range over two families has no such bound:
  -- Cmp gives -2 on each of its addresses.
  unfoldable pub range_fuel : NetIp → NetIp → ℕ
  range_fuel (ip4 m) (ip4 n) = n - m + 2
  range_fuel (ip16 m) (ip16 n) = n - m + 2
  range_fuel _ _ = 0

  -- Sync before its last loop.
  unfoldable pub prepare : Option ℕ → IpSet → Subnet → Subnet
  prepare parent_net_id ip_set s =
      let s1 : Subnet = record s { net_id = inherit s.net_id } in
      let rips = filter_reserved s1 s.reserved_list in
      let s2 : Subnet = record s1 { reserved_list = rips; reserved_ip_count = length rips } in
      record s2 { using_ips = pre_assign s2 rips (sync_using s2 ip_set []) }
    where
      inherit : Option ℕ → Option ℕ
      inherit none = parent_net_id
      inherit (some n) = some n

  -- Sync.
  unfoldable pub sync : Option ℕ → IpSet → Subnet → Result Subnet
  sync parent_net_id ip_set s =
      let s2 = prepare parent_net_id ip_set s in
      elim (offer_all (range_fuel (normalize_ip s2.start) (normalize_ip s2.end)) s2 s2.start
        new_ip_slice) [ err e ↦ err e | ok slice ↦ ok (record s2 { available_ips = slice }) ]

  -- The loop of AllocateNext over the rounds that are left.
  unfoldable pub allocate_loop : ℕ → String → String → Subnet → Result (Option Ip) × Subnet
  allocate_loop zero pod_name pod_namespace s = (ok none, s)
  allocate_loop (suc rounds) pod_name pod_namespace s = elim (next s.available_ips) [
    | none ↦ (err panics, s)
    | some (slice, candidate) ↦ elim (Map.has candidate s.using_ips) [
      | true ↦ allocate_loop rounds pod_name pod_namespace (record s { available_ips = slice })
      | false ↦
          let ip = make_ip s (t.parse_ip candidate) pod_name pod_namespace allocated in
          (
            ok (some ip),
            record s { available_ips = slice; using_ips = Map.put candidate ip s.using_ips },
          )
    ]
  ]

  -- AllocateNext: nil is `none`.
  unfoldable pub allocate_next : String → String → Subnet → Result (Option Ip) × Subnet
  allocate_next pod_name pod_namespace s =
      allocate_loop s.available_ips.ip_count pod_name pod_namespace s

  -- Release.
  unfoldable pub release : String → Subnet → Subnet
  release ip s =
      if is_reserved_ip ip s
      then record s { using_ips = update ip "" "" reserved s.using_ips }
      else record s { using_ips = Map.delete ip s.using_ips }

  -- Reserve.
  unfoldable pub reserve : String → Subnet → Subnet
  reserve ip s = record s { using_ips = update_status ip reserved s.using_ips }

  -- The switch of Assign, at what is in use under the address: the new entry, or the refusal.
  unfoldable pub reassign : String → String → Bool → Ip → Option Ip
  reassign pod_name pod_namespace forced held =
      if ite (str_dec held.pod_namespace pod_namespace) true false
        && ite (str_dec held.pod_name pod_name) true false
      then some taken
      else if forced && is_reserved held.status
      then some taken
      else none
    where
      taken : Ip
      taken = record held { pod_name = pod_name; pod_namespace = pod_namespace; status = allocated }

      is_reserved : Status → Bool
      is_reserved allocated = false
      is_reserved reserved = true

  -- Assign.
  unfoldable pub assign : String → String → String → Bool → Subnet → Result Ip × Subnet
  assign pod_name pod_namespace ip forced s =
      if not (contains s (t.parse_ip ip))
      then (err not_found_assigned_ip, s)
      else elim (Map.get ip s.using_ips) [
        | none ↦
            let taken = make_ip s (t.parse_ip ip) pod_name pod_namespace allocated in
            (ok taken, record s { using_ips = Map.put ip taken s.using_ips })
        | some held ↦ elim (reassign pod_name pod_namespace forced held) [
          | none ↦ (err not_available_assigned_ip, s)
          | some taken ↦ (ok taken, record s { using_ips = Map.put ip taken s.using_ips })
        ]
      ]
