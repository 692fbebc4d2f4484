-- ===== src/Ipam/Tests.antt =====
-- The theorems on pkg/ipam at concrete inputs: the subnet 10.0.0.0/29 with the gateway 10.0.0.1 and
-- 10.0.0.3 reserved.
use container_advanced_netwo.Common.{
  ℕ, ◌+◌, ◌≡◌, refl, subst, ◌↔◌, ◌⊎◌, true, false, none, some, [], ◌∷◌, String, arith, str_dec,
  elem, Distinct, Subset,
}
use container_advanced_netwo.Common.Map
use container_advanced_netwo.Net.{
  nil_ip, ip4, cidr_mask, normalize_ip, to4, to16, is_nil, equal, in_net,
}
use container_advanced_netwo.Net.Cidr.{int_to_ip, next_ip, cmp}
use container_advanced_netwo.Ipam.Ip.{add, new_ip_slice, next, update, update_status}
use container_advanced_netwo.Net.Binary.{binary, binary-IsIpText}
use container_advanced_netwo.Ipam.Base.{Error, ok, err}
use container_advanced_netwo.Ipam.Types.{Ip, Subnet, allocated, reserved}
use container_advanced_netwo.Ipam.Subnet.{
  prepare, offer_all, offer, range_fuel, filter_reserved, pre_assign, sync_using, is_black_ip,
  is_reserved_ip, allocate_loop, reassign, is_available, make_ip, contains, sync, allocate_next,
  release, reserve, assign,
}
use container_advanced_netwo.Ipam.Subnet.Invariant.{IsValid}
use container_advanced_netwo.Ipam.Subnet.Outcome.{turn}
use container_advanced_netwo.Ipam.Subnet.Allocate.{
  Granted, allocate_next_progress, allocate_next-none, allocate_next-Granted, release-allocate_next,
}
use container_advanced_netwo.Ipam.Subnet.Assign.{MayTake, Owned, assign_lem}
use container_advanced_netwo.Ipam.Subnet.Sync.{IsRange, Offers, sync-IsValid}

abbrev pub base : ℕ
base = 0x0a000000

abbrev pub text : ℕ → String
text n = binary.print_ip (ip4 (base + n))

abbrev pub raw : Subnet
raw = record {
  name = "s1";
  parent_network = "n1";
  net_id = none;
  start = ip4 (base + 1);
  end = ip4 (base + 6);
  cidr = record { ip = ip4 base; mask = cidr_mask 29 32 };
  gateway = ip4 (base + 1);
  reserved_list = text 3 ∷ [];
  black_list = [];
  last_allocated_ip = nil_ip;
  is_private = false;
  ipv6 = false;
  available_ips = record { ips = []; ip_count = 0; ip_index = none };
  using_ips = [];
  reserved_ip_count = 0;
}

abbrev pub synced : Subnet
synced = record raw {
  using_ips = (text 3, make_ip raw (ip4 (base + 3)) "" "" reserved) ∷ [];
  reserved_ip_count = 1;
  available_ips = record {
    ips = text 2 ∷ text 4 ∷ text 5 ∷ text 6 ∷ [];
    ip_count = 4;
    ip_index = none;
  };
}

-- The functions that the tests run.
program : Unit {0}
unfolding binary str_dec elem Map.get Map.put Map.delete Map.keys is_nil to4 to16 normalize_ip equal
    in_net int_to_ip next_ip cmp add new_ip_slice next update update_status sync prepare offer_all
    offer range_fuel filter_reserved pre_assign sync_using contains is_black_ip is_reserved_ip
    make_ip is_available allocate_next allocate_loop release reserve assign reassign
program = tt

sync_runs : sync binary none [] raw ≡ ok synced
unfolding program
sync_runs = refl

raw_reserved : Distinct raw.reserved_list
unfolding program
raw_reserved = (refl, tt)

raw-IsRange : IsRange (normalize_ip raw.start) (normalize_ip raw.end)
unfolding program
raw-IsRange = (omega arith, omega arith)

sync-IsValid_example :
    (s' : Subnet) × (sync binary none [] raw ≡ ok s') × IsValid binary s' × Offers binary s'
sync-IsValid_example = sync-IsValid binary binary-IsIpText none [] raw raw-IsRange raw_reserved

pub synced-IsValid : IsValid binary synced
synced-IsValid =
    let (s', e, v, _) = sync-IsValid_example in
    let same : s' ≡ synced = cc sync_runs in subst (IsValid binary) same v

synced_available : is_available synced ≡ true
unfolding program
synced_available = refl

allocate_next_progress_example :
    (ip : Ip) × (s' : Subnet) × (allocate_next binary "p" "ns" synced ≡ (ok (some ip), s'))
    × Granted binary "p" "ns" synced s' ip
allocate_next_progress_example =
    allocate_next_progress binary "p" "ns" synced synced-IsValid synced_available

allocate_next-none_example :
    ((allocate_next binary "p" "ns" synced).0 ≡ ok none)
    ↔ Subset synced.available_ips.ips (Map.keys synced.using_ips)
allocate_next-none_example = allocate_next-none binary "p" "ns" synced synced-IsValid

abbrev first_ip : Ip
first_ip = make_ip synced (binary.parse_ip (text 2)) "p" "ns" allocated

abbrev after_first : Subnet
after_first = record (turn synced 0) { using_ips = Map.put (text 2) first_ip synced.using_ips }

first_runs : allocate_next binary "p" "ns" synced ≡ (ok (some first_ip), after_first)
unfolding program
first_runs = refl

allocate_next-Granted_example : Granted binary "p" "ns" synced after_first first_ip
allocate_next-Granted_example =
    allocate_next-Granted binary "p" "ns" synced after_first first_ip synced-IsValid first_runs

release-allocate_next_example :
    (j : ℕ) × (release binary (binary.print_ip first_ip.address.ip) after_first ≡ turn synced j)
release-allocate_next_example =
    release-allocate_next binary "p" "ns" synced after_first first_ip synced-IsValid first_runs

assign_lem_example :
    ((x : Ip) × (s' : Subnet) × (assign binary "p" "ns" (text 3) true synced ≡ (ok x, s'))
      × Owned binary "p" "ns" (text 3) true synced s' x)
    ⊎ ((e : Error) × (assign binary "p" "ns" (text 3) true synced ≡ (err e, synced))
        × ((contains binary synced (binary.parse_ip (text 3)) ≡ false)
            ⊎ ((held : Ip) × (Map.get (text 3) synced.using_ips ≡ some held)
                × (¬ MayTake binary "p" "ns" (text 3) true held))))
assign_lem_example = assign_lem binary "p" "ns" (text 3) true synced
