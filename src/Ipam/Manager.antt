-- ===== src/Ipam/Manager.antt =====
-- pkg/ipam/manager/manager.go: the address manager. Each of its calls holds the lock from its first
-- line to its return, so a history of calls is a sequence. The getters and the texts of addresses
-- are parameters.
pub mod Invariant
pub mod Atomic
pub mod Entries
pub mod Dual
pub mod Ledger
pub mod Refinement
pub mod Assignment
pub mod History
pub mod Refresh
use container_advanced_netwo.Common.{
  Bool, true, false, not, ◌||◌, if◌then◌else◌, Option, none, some, List, [], ◌∷◌, String,
}
use container_advanced_netwo.Common.Map
use container_advanced_netwo.Net.{IpText, is_nil, to4}
use container_advanced_netwo.Ipam.Base.{
  M, Result, ok, err, ◌>>=◌, ◌>>◌, return, raise, guard, lift, or_fail, validation_fail,
  not_found_network, unsupported_ip_family, wrong_subnets_count, no_ip_left, wrong_suites_count,
  invalid_ip, wrong_ip_family, empty_subnet_name, panics,
}
use container_advanced_netwo.Ipam.Types.{
  Ip, IpSet, Subnet, Network, NetworkSet, NetworkUsage, Usage, IpFamilyMode, ipv4, ipv6, dual_stack,
  other_mode, PodInfo, SubnetIpSuite,
}
use container_advanced_netwo.Ipam.Subnet
use container_advanced_netwo.Ipam.Subnet.{is_empty, allocate_next, assign, release, reserve}
use container_advanced_netwo.Ipam.Network
use container_advanced_netwo.Ipam.Network.{
  SubnetRef, on_subnet, load, add_network_subnet, get_subnet_by_name, get_subnet_by_name_or_ip,
  get_subnet_by_name_or_available, get_dual_stack_subnets,
}

-- NetworkGetter, SubnetGetter and IPSetGetter: what the manager reads of the cluster. A network
-- that is gone is `none`.
pub record Getters : Type 0 where
  pub network_getter : String → Result (Option Network)
  pub subnet_getter : String → Result (List Subnet)
  pub ip_set_getter : String → Result IpSet

is_empty_mode : IpFamilyMode → Bool
is_empty_mode ipv4 = false
is_empty_mode ipv6 = false
is_empty_mode dual_stack = false
is_empty_mode (other_mode s) = is_empty s

-- A call on the network of a name, which is changed in place.
unfoldable pub on_network : {A : Type 0} → String → M Network A → M NetworkSet A
on_network name call set = elim (Map.get name set) [
  | none ↦ (err not_found_network, set)
  | some n ↦ let (r, n') = call n in (r, Map.put name n' set)
]

-- The validation of Allocate and Assign.
unfoldable pub valid_request : String → PodInfo → Bool
unfolding is_empty_mode
valid_request network_name pod = not (
    is_empty network_name
    || is_empty pod.name
    || is_empty pod.namespace
    || is_empty_mode pod.ip_family)

-- ValidateIPv4 and ValidateIPv6 of pkg/utils/ip.go.
unfoldable pub validate_ipv4 : IpText → String → Result (Unit {0})
validate_ipv4 t ip =
    if is_nil (t.parse_ip ip)
    then err invalid_ip
    else if is_nil (to4 (t.parse_ip ip))
    then err wrong_ip_family
    else ok tt

unfoldable pub validate_ipv6 : IpText → String → Result (Unit {0})
validate_ipv6 t ip =
    if is_nil (t.parse_ip ip)
    then err invalid_ip
    else if not (is_nil (to4 (t.parse_ip ip)))
    then err wrong_ip_family
    else ok tt

-- The subnet name of a request for one address: the empty text means any available subnet.
unfoldable pub one_subnet : List String → Result String
one_subnet [] = ok ""
one_subnet (name ∷ []) = ok name
one_subnet (_ ∷ _ ∷ _) = err wrong_subnets_count

unfoldable pub two_subnets : List String → Result (String × String)
two_subnets [] = ok ("", "")
two_subnets (v4_name ∷ v6_name ∷ []) = ok (v4_name, v6_name)
two_subnets _ = err wrong_subnets_count

module _ (t : IpText) where
  -- AllocateNext on a subnet of the network, where nil is an error.
  unfoldable pub allocate_from : PodInfo → SubnetRef → M Network Ip
  allocate_from pod r = do
    ip ← on_subnet r (allocate_next t pod.name pod.namespace)
    lift (or_fail ip no_ip_left)

  -- allocateIPv4 and allocateIPv6, past the lookup of the network.
  unfoldable pub allocate_one : Bool → PodInfo → List String → M Network (List Ip)
  allocate_one v6 pod subnets = do
    name ← lift (one_subnet subnets)
    subnet ← get_subnet_by_name_or_available v6 name
    ip ← allocate_from pod subnet
    return (ip ∷ [])

  -- Subnet.Release as a call on a subnet of the network.
  unfoldable pub release_at : SubnetRef → String → M Network (Unit {0})
  release_at r ip = on_subnet r (λ s. (ok tt, release t ip s))

  -- The end of allocateDualStack: where there is no IPv6 address, the IPv4 one goes back.
  unfoldable pub finish_dual : SubnetRef → Ip → Option Ip → M Network (List Ip)
  finish_dual v4_subnet v4_ip none = do
    release_at v4_subnet (t.print_ip v4_ip.address.ip)
    raise no_ip_left
  finish_dual v4_subnet v4_ip (some ip) = return (v4_ip ∷ ip ∷ [])

  -- The IPv6 half of allocateDualStack.
  unfoldable pub allocate_second : PodInfo → SubnetRef → SubnetRef → Ip → M Network (List Ip)
  allocate_second pod v4_subnet v6_subnet v4_ip = do
    v6_ip ← on_subnet v6_subnet (allocate_next t pod.name pod.namespace)
    finish_dual v4_subnet v4_ip v6_ip

  -- allocateDualStack, past the lookup of the network.
  unfoldable pub allocate_dual : PodInfo → List String → M Network (List Ip)
  allocate_dual pod subnets = do
    names ← lift (two_subnets subnets)
    refs ← get_dual_stack_subnets names.0 names.1
    v4_ip ← allocate_from pod refs.0
    allocate_second pod refs.0 refs.1 v4_ip

  -- The switch of Allocate over the family.
  unfoldable pub allocate_family :
      PodInfo → List String → String → IpFamilyMode → M NetworkSet (List Ip)
  allocate_family pod subnets name ipv4 = on_network name (allocate_one false pod subnets)
  allocate_family pod subnets name ipv6 = on_network name (allocate_one true pod subnets)
  allocate_family pod subnets name dual_stack = on_network name (allocate_dual pod subnets)
  allocate_family pod subnets name (other_mode _) = raise unsupported_ip_family

  -- Allocate; `subnets` is the option AllocateSubnets.
  unfoldable pub allocate : String → PodInfo → List String → M NetworkSet (List Ip)
  allocate network_name pod subnets = do
    guard (valid_request network_name pod) validation_fail
    allocate_family pod subnets network_name pod.ip_family

  -- Subnet.Assign on a subnet of the network.
  unfoldable pub assign_at : PodInfo → Bool → SubnetRef → String → M Network Ip
  assign_at pod force r ip = on_subnet r (assign t pod.name pod.namespace ip force)

  unfoldable pub look_up : SubnetIpSuite → M Network SubnetRef
  look_up suite n = (get_subnet_by_name_or_ip t suite.subnet suite.ip n, n)

  -- assignIPv4 and assignIPv6, past the lookup of the network.
  unfoldable pub assign_one :
      (String → Result (Unit {0})) → PodInfo → List SubnetIpSuite → Bool → M Network (List Ip)
  assign_one validate pod (suite ∷ []) force = do
    lift (validate suite.ip)
    subnet ← look_up suite
    ip ← assign_at pod force subnet suite.ip
    return (ip ∷ [])
  assign_one validate pod _ force = raise wrong_suites_count

  -- assignDualStack, past the lookup of the network.
  unfoldable pub assign_dual : PodInfo → List SubnetIpSuite → Bool → M Network (List Ip)
  assign_dual pod (v4 ∷ v6 ∷ []) force = do
    lift (validate_ipv4 t v4.ip)
    lift (validate_ipv6 t v6.ip)
    v4_subnet ← look_up v4
    v6_subnet ← look_up v6
    v4_ip ← assign_at pod force v4_subnet v4.ip
    v6_ip ← assign_at pod force v6_subnet v6.ip
    return (v4_ip ∷ v6_ip ∷ [])
  assign_dual pod _ force = raise wrong_suites_count

  unfoldable pub assign_family :
      PodInfo → List SubnetIpSuite → Bool → String → IpFamilyMode → M NetworkSet (List Ip)
  assign_family pod suites force name ipv4 =
      on_network name (assign_one (validate_ipv4 t) pod suites force)
  assign_family pod suites force name ipv6 =
      on_network name (assign_one (validate_ipv6 t) pod suites force)
  assign_family pod suites force name dual_stack = on_network name (assign_dual pod suites force)
  assign_family pod suites force name (other_mode _) = raise unsupported_ip_family

  -- Assign (the manager's); `force` is the option AssignForce.
  unfoldable pub assign_pod : String → PodInfo → List SubnetIpSuite → Bool → M NetworkSet (List Ip)
  assign_pod network_name pod suites force = do
    guard (valid_request network_name pod) validation_fail
    assign_family pod suites force network_name pod.ip_family

  -- The loops of Release and Reserve, which stop at the first error and keep what they have done.
  unfoldable pub for_suites : (String → Subnet → Subnet) → List SubnetIpSuite → M Network (Unit {0})
  for_suites call [] = return tt
  for_suites call (suite ∷ suites) = do
    guard (not (is_empty suite.subnet)) empty_subnet_name
    subnet ← (λ n. (get_subnet_by_name suite.subnet n, n))
    on_subnet subnet (λ s. (ok tt, call suite.ip s))
    for_suites call suites

  -- Release.
  unfoldable pub release_all : String → List SubnetIpSuite → M NetworkSet (Unit {0})
  release_all network_name suites = do
    guard (not (is_empty network_name)) validation_fail
    on_network network_name (for_suites (release t) suites)

  -- Reserve.
  unfoldable pub reserve_all : String → List SubnetIpSuite → M NetworkSet (Unit {0})
  reserve_all network_name suites = do
    guard (not (is_empty network_name)) validation_fail
    on_network network_name (for_suites (reserve t) suites)

  module _ (g : Getters) where
    -- The loop of refreshNetwork over the subnets.
    unfoldable pub add_subnets : List Subnet → Network → Result Network
    add_subnets [] n = ok n
    add_subnets (subnet ∷ rest) n = elim (g.ip_set_getter subnet.name) [
      | err e ↦ err e
      | ok ips ↦ elim (add_network_subnet t subnet ips n) [
        | err e ↦ err e
        | ok n' ↦ add_subnets rest n'
      ]
    ]

    -- refreshNetwork.
    unfoldable pub refresh_network : String → M NetworkSet (Unit {0})
    refresh_network name set = elim (g.network_getter name) [
      | err e ↦ (err e, set)
      | ok none ↦ (ok tt, Map.delete name set)
      | ok (some n) ↦ elim (g.subnet_getter name) [
        | err e ↦ (err e, set)
        | ok subnets ↦ elim (add_subnets subnets n) [
          | err e ↦ (err e, set)
          | ok n' ↦ (ok tt, Map.put name n' set)
        ]
      ]
    ]

    unfoldable pub refresh_all : List String → M NetworkSet (Unit {0})
    refresh_all [] = return tt
    refresh_all (name ∷ names) = do refresh_network name; refresh_all names

    -- Refresh, with its options ForceAll and Networks.
    unfoldable pub refresh : Bool → List String → M NetworkSet (Unit {0})
    refresh force_all networks set = refresh_all (if force_all then Map.keys set else networks) set

    -- NewManager.
    unfoldable pub new_manager : List String → Result NetworkSet
    new_manager networks =
        let (r, set) = refresh false networks [] in elim r [ err e ↦ err e | ok _ ↦ ok set ]

  -- GetNetworkUsage.
  unfoldable pub get_network_usage : String → NetworkSet → Result NetworkUsage
  get_network_usage name set =
      if is_empty name
      then err validation_fail
      else elim (Map.get name set) [ none ↦ err not_found_network | some n ↦ Network.usage n ]

  -- GetSubnetUsage.
  unfoldable pub get_subnet_usage : String → String → NetworkSet → Result Usage
  get_subnet_usage name subnet_name set =
      if is_empty name || is_empty subnet_name
      then err validation_fail
      else elim (Map.get name set) [
        | none ↦ err not_found_network
        | some n ↦ elim (get_subnet_by_name subnet_name n) [
          | err e ↦ err e
          | ok r ↦ elim (load r n) [ none ↦ err panics | some s ↦ Subnet.usage s ]
        ]
      ]
