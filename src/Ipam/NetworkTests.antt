-- ===== src/Ipam/NetworkTests.antt =====
-- The theorems on networks and on the manager at concrete inputs: the network n1 with one IPv4
-- subnet.
use container_advanced_netwo.Common.{
  ℕ, zero, suc, ◌≡◌, ◌≢◌, refl, sym, ap, subst, ◌⊎◌, inl, str_dec, ite, true, false, none, some, [],
  ◌∷◌, String, List, arith, get_elem?, elem,
}
use package.text.Mathlib.TextEquality.{eq_iff}
use container_advanced_netwo.Common.Map
use container_advanced_netwo.Net.Binary.{binary}
use container_advanced_netwo.Ipam.Ip.{new_ip_slice}
use container_advanced_netwo.Net.Cidr.{cmp, next_ip}
use container_advanced_netwo.Net.{apply_mask, equal, in_net, is_nil}
use container_advanced_netwo.Ipam.Base.{Error, ok, err, no_available_subnet}
use container_advanced_netwo.Ipam.Types.{
  Subnet, SubnetSlice, Network, NetworkSet, underlay, reserved, PodInfo, SubnetIpSuite, dual_stack,
}
use container_advanced_netwo.Ipam.Subnet.Invariant.{IsValid}
use container_advanced_netwo.Ipam.SubnetSlice.{
  get_available_subnet, new_subnet_slice, add_subnet, append_subnet,
}
use container_advanced_netwo.Ipam.Subnet.{
  make_ip, canonicalize, fill_end, fill_start, filter_reserved, is_black_ip, is_reserved_ip, offer,
  offer_all, pre_assign, prepare, range_fuel, sync, sync_using, validate,
}
use container_advanced_netwo.Ipam.SubnetSlice.Built.{
  Addition, add_all, names, names_added, FindsLast, get_subnet-FindsLast,
}
use container_advanced_netwo.Ipam.SubnetSlice.Rotation.{
  IsSlice, Chosen, NoneAvailable, get_available_subnet_lem,
}
use container_advanced_netwo.Ipam.Network.Invariant.{IsFamily, IsNetwork}
use container_advanced_netwo.Ipam.Manager.Refresh.{refresh_network_lem}
use container_advanced_netwo.Ipam.Manager.{
  Getters, refresh_network, allocate_one, allocate_dual, allocate, assign_pod,
}
use container_advanced_netwo.Ipam.Manager.Invariant.{IsManager}
use container_advanced_netwo.Ipam.Manager.Ledger.{Held}
use container_advanced_netwo.Ipam.Manager.Refinement.{
  Booked, Allocates, families_of, book, allocate-Allocates,
}
use container_advanced_netwo.Ipam.Manager.Assignment.{Assigns, Rule, assign_pod-Assigns}
use container_advanced_netwo.Ipam.Manager.History.{
  Request, allocate_to, assign_to, release_from, run, run-IsManager, run-Held,
}
use container_advanced_netwo.Ipam.Manager.Atomic.{One, allocate_one-One}
use container_advanced_netwo.Ipam.Manager.Dual.{Two, allocate_dual-Two}
use container_advanced_netwo.Ipam.Tests.{text, raw, synced, synced-IsValid}

abbrev one_slice : SubnetSlice
one_slice = record {
  subnets = synced ∷ [];
  subnet_index_map = ("s1", 0) ∷ [];
  subnet_index = 0;
  subnet_count = 1;
  last_allocated_subnet = "";
}

abbrev no_slice : SubnetSlice
no_slice = record {
  subnets = [];
  subnet_index_map = [];
  subnet_index = 0;
  subnet_count = 0;
  last_allocated_subnet = "";
}

get_one :
    {V : Type 0} (k name : String) (v x : V)
    → Map.get name ((k, v) ∷ []) ≡ some x
    → (k ≡ name) × (v ≡ x)
unfolding Map.get
get_one k name v x h = pick (str_dec name k) h
  where
    pick : (d : Dec (name ≡ k)) → ite d (some v) none ≡ some x → (k ≡ name) × (v ≡ x)
    pick (yes e) g = (sym e, cc)
    pick (no ne) g = absurd (ground arith)

one_slice-IsSlice : IsSlice one_slice
one_slice-IsSlice = record { counted = refl; placed = omega arith; indexed = indexed }
  where
    indexed :
        (name : String) (i : ℕ)
        → Map.get name (("s1", 0) ∷ []) ≡ some i
        → (subnet : Subnet) × (get_elem? one_slice.subnets i ≡ some subnet) × (subnet.name ≡ name)
    indexed name i h =
        let (named, same) = get_one "s1" name 0 i h in (synced, rw (← same) refl, named)

one_slice-IsFamily : IsFamily binary false one_slice
one_slice-IsFamily = record { slice = one_slice-IsSlice; each = each }
  where
    each :
        (i : ℕ) (subnet : Subnet)
        → get_elem? one_slice.subnets i ≡ some subnet
        → IsValid binary subnet × (subnet.ipv6 ≡ false)
    each zero subnet h =
        let same : synced ≡ subnet = cc in
        (subst (IsValid binary) same synced-IsValid, ap (λ s. s.ipv6) (sym same))
    each (suc i) subnet h = absurd (ground (arith, h))

no_slice-IsFamily : IsFamily binary true no_slice
unfolding Map.get
no_slice-IsFamily = record {
  slice = record {
    counted = refl;
    placed = inl (refl, refl);
    indexed = λ name i h. absurd (ground (arith, h));
  };
  each = λ i s h. absurd (ground (arith, h));
}

abbrev one_network : Network
one_network = record {
  name = "n1";
  net_id = none;
  network_type = underlay;
  ipv4_subnets = one_slice;
  ipv6_subnets = no_slice;
}

one_network-IsNetwork : IsNetwork binary one_network
one_network-IsNetwork = record { v4 = one_slice-IsFamily; v6 = no_slice-IsFamily }

abbrev pub networks : NetworkSet
networks = ("n1", one_network) ∷ []

pub networks-IsManager : IsManager binary networks
networks-IsManager name n h =
    let (_, same) = get_one "n1" name one_network n h in
    subst (IsNetwork binary) same one_network-IsNetwork

abbrev pod : PodInfo
pod = record { name = "p"; namespace = "ns"; ip_family = dual_stack }

abbrev suite : SubnetIpSuite
suite = record { subnet = "s1"; ip = text 3 }

get_available_subnet_lem_example :
    Chosen one_slice 0 0 (get_available_subnet one_slice)
    ⊎ ((get_available_subnet one_slice ≡ (err no_available_subnet, one_slice))
        × NoneAvailable one_slice)
get_available_subnet_lem_example = get_available_subnet_lem one_slice one_slice-IsSlice

-- Two subnets, the second one of another name.
abbrev additions : List Addition
additions = (raw, none, []) ∷ ((record raw { name = "s2" }, none, []) ∷ [])

abbrev two_slice : SubnetSlice
two_slice = record {
  subnets =
      synced
      ∷ (record synced {
        name = "s2";
        using_ips =
            (text 3, make_ip (record raw { name = "s2" }) (binary.parse_ip (text 3)) "" "" reserved)
            ∷ [];
      }
          ∷ []);
  subnet_index_map = ("s1", 0) ∷ ("s2", 1) ∷ [];
  subnet_index = 0;
  subnet_count = 2;
  last_allocated_subnet = "";
}

additions_run : add_all binary additions (new_subnet_slice "") ≡ ok two_slice
unfolding add_all str_dec add_subnet canonicalize validate is_nil equal apply_mask in_net fill_start
    fill_end sync offer_all range_fuel prepare cmp next_ip append_subnet new_subnet_slice
    filter_reserved offer binary is_black_ip elem Map.keys sync_using is_reserved_ip make_ip
    container_advanced_netwo.Ipam.Ip.add new_ip_slice pre_assign Map.put
    container_advanced_netwo.Ipam.Subnet.contains
additions_run = refl

get_subnet-FindsLast_example :
    (names two_slice.subnets ≡ names_added additions) × ((name : String) → FindsLast name two_slice)
get_subnet-FindsLast_example = get_subnet-FindsLast binary "" additions two_slice additions_run

allocate_one-One_example :
    One binary pod false one_network (allocate_one binary false pod [] one_network)
allocate_one-One_example = allocate_one-One binary pod false [] one_network one_network-IsNetwork

allocate_dual-Two_example : Two binary pod one_network (allocate_dual binary pod [] one_network)
allocate_dual-Two_example = allocate_dual-Two binary pod [] one_network one_network-IsNetwork

allocate-Allocates_example :
    Booked "n1"
      (Allocates pod (families_of pod.ip_family))
      networks
      (allocate binary "n1" pod [] networks)
allocate-Allocates_example = allocate-Allocates binary pod "n1" [] networks networks-IsManager

assign_pod-Assigns_example :
    Booked "n1"
      (Assigns pod (Rule binary pod true))
      networks
      (assign_pod binary "n1" pod (suite ∷ []) true networks)
assign_pod-Assigns_example = assign_pod-Assigns binary pod true "n1" (suite ∷ []) networks

abbrev requests : List Request
requests =
    allocate_to "n1" pod []
    ∷ assign_to "n1" pod (suite ∷ []) true
    ∷ release_from "n2" (suite ∷ [])
    ∷ []

abbrev first_name : String
first_name = "n1"

abbrev second_name : String
second_name = "n2"

first-second : first_name ≢ second_name
first-second e = ground (arith, (eq_iff first_name second_name).1 e)

run-IsManager_example : IsManager binary (run binary requests networks)
run-IsManager_example = run-IsManager binary requests networks networks-IsManager

run-Held_example : Held (book "n1" networks) (book "n1" (run binary requests networks))
run-Held_example =
    run-Held binary "n1" requests networks networks-IsManager (tt, (tt, (first-second, tt)))

-- Getters that know no network.
abbrev empty_cluster : Getters
empty_cluster = record {
  network_getter = λ _. ok none;
  subnet_getter = λ _. ok [];
  ip_set_getter = λ _. ok [];
}

refresh_network_lem_example :
    ((e : Error)
      → (refresh_network binary empty_cluster "n1" networks).0 ≡ err e
      → (refresh_network binary empty_cluster "n1" networks).1 ≡ networks)
    × ((other : String)
        → other ≢ "n1"
        → Map.get other (refresh_network binary empty_cluster "n1" networks).1
          ≡ Map.get other networks)
    × (empty_cluster.network_getter "n1" ≡ ok none
        → Map.get "n1" (refresh_network binary empty_cluster "n1" networks).1 ≡ none)
refresh_network_lem_example = refresh_network_lem binary empty_cluster "n1" networks
