-- ===== src/Ipam/Manager/Invariant.antt =====
-- That every request to the manager keeps its networks well-formed.
use container_advanced_netwo.Common.{
  ◌≡◌, subst, sym, ◌∙◌, inl, inr, Bool, true, false, not, String, Option-cases, Option, none, some,
  List, [], ◌∷◌, str_dec, ite,
}
use container_advanced_netwo.Common.Map
use container_advanced_netwo.Net.{IpText}
use container_advanced_netwo.Ipam.Base.{M, Result, ok, ◌>>=◌, ◌>>◌, guard, Error, empty_subnet_name}
use container_advanced_netwo.Ipam.Types.{
  Ip, Subnet, Network, NetworkSet, PodInfo, SubnetIpSuite, IpFamilyMode, ipv4, ipv6, dual_stack,
  other_mode,
}
use container_advanced_netwo.Ipam.Subnet.{is_empty, release, reserve}
use container_advanced_netwo.Ipam.Network.{SubnetRef}
use container_advanced_netwo.Ipam.Network.Invariant.{
  IsNetwork, Keeps, Preserves, bind-Preserves, on_subnet-IsNetwork,
}
use container_advanced_netwo.Ipam.Network.Calls.{
  allocate_next-Keeps, assign-Keeps, release-Keeps, reserve-Keeps,
  get_subnet_by_name_or_available-Preserves, get_dual_stack_subnets-Preserves,
}
use container_advanced_netwo.Ipam.Manager.{
  on_network, validate_ipv4, validate_ipv6, allocate_from, allocate_one, release_at, finish_dual,
  allocate_second, allocate_dual, allocate_family, allocate, assign_at, look_up, assign_one,
  assign_dual, assign_family, assign_pod, for_suites, release_all, reserve_all,
}

module _ (t : IpText) where
  -- Every network that the manager holds is well-formed.
  abbrev pub IsManager : NetworkSet → Type 0
  IsManager set = (name : String) (n : Network) → Map.get name set ≡ some n → IsNetwork t n

  -- A request that keeps the networks well-formed, also where it fails.
  abbrev pub Serves : {A : Type 0} → M NetworkSet A → Type 0
  Serves m = (set : NetworkSet) → IsManager set → IsManager (m set).1

  put-IsManager :
      (name : String) (n : Network) (set : NetworkSet)
      → IsNetwork t n
      → IsManager set
      → IsManager (Map.put name n set)
  put-IsManager name n set good v other x h =
      pick (str_dec other name) (sym (Map.get-put other name n set) ∙ h)
    where
      pick : (d : Dec (other ≡ name)) → ite d (some n) (Map.get other set) ≡ some x → IsNetwork t x
      pick (yes e) g = let same : n ≡ x = cc in subst (IsNetwork t) same good
      pick (no ne) g = v other x g

  on_network-Serves :
      {A : Type 0} (name : String) (call : M Network A)
      → Preserves t call
      → Serves (on_network name call)
  unfolding on_network
  on_network-Serves name call keeps set v = elim (Option-cases (Map.get name set)) [
    | inl e ↦ rw (e, on_network) v
    | inr (n, e) ↦ rw (e, on_network) (put-IsManager name (call n).1 set (keeps n (v name n e)) v)
  ]

  guard-Preserves : (b : Bool) (e : Error) → Preserves t (guard b e)
  guard-Preserves true e n v = v
  guard-Preserves false e n v = v

  allocate_from-Preserves : (pod : PodInfo) (r : SubnetRef) → Preserves t (allocate_from t pod r)
  unfolding allocate_from
  allocate_from-Preserves pod r =
      bind-Preserves t _ _
        (λ n. on_subnet-IsNetwork t r _ n (allocate_next-Keeps t pod.name pod.namespace))
        (λ ip n v. v)

  allocate_one-Preserves :
      (v6 : Bool) (pod : PodInfo) (subnets : List String)
      → Preserves t (allocate_one t v6 pod subnets)
  unfolding allocate_one
  allocate_one-Preserves v6 pod subnets =
      bind-Preserves t _ _ (λ n v. v)
        (λ name.
          bind-Preserves t _ _ (get_subnet_by_name_or_available-Preserves t v6 name)
            (λ r. bind-Preserves t _ _ (allocate_from-Preserves pod r) (λ ip n v. v)))

  release_at-Preserves : (r : SubnetRef) (ip : String) → Preserves t (release_at t r ip)
  unfolding release_at
  release_at-Preserves r ip n = on_subnet-IsNetwork t r _ n (release-Keeps t ip)

  finish_dual-Preserves :
      (v4_subnet : SubnetRef) (v4_ip : Ip) (found : Option Ip)
      → Preserves t (finish_dual t v4_subnet v4_ip found)
  unfolding finish_dual
  finish_dual-Preserves v4_subnet v4_ip none =
      bind-Preserves t _ _ (release_at-Preserves v4_subnet _) (λ _ n v. v)
  finish_dual-Preserves v4_subnet v4_ip (some ip) = λ n v. v

  allocate_second-Preserves :
      (pod : PodInfo) (v4_subnet v6_subnet : SubnetRef) (v4_ip : Ip)
      → Preserves t (allocate_second t pod v4_subnet v6_subnet v4_ip)
  unfolding allocate_second
  allocate_second-Preserves pod v4_subnet v6_subnet v4_ip =
      bind-Preserves t _ _
        (λ n. on_subnet-IsNetwork t v6_subnet _ n (allocate_next-Keeps t pod.name pod.namespace))
        (finish_dual-Preserves v4_subnet v4_ip)

  allocate_dual-Preserves :
      (pod : PodInfo) (subnets : List String) → Preserves t (allocate_dual t pod subnets)
  unfolding allocate_dual
  allocate_dual-Preserves pod subnets =
      bind-Preserves t _ _ (λ n v. v)
        (λ names. bind-Preserves t _ _ (get_dual_stack_subnets-Preserves t names.0 names.1) (λ refs.
          bind-Preserves t _ _ (allocate_from-Preserves pod refs.0)
            (λ ip. allocate_second-Preserves pod refs.0 refs.1 ip)))

  look_up-Preserves : (suite : SubnetIpSuite) → Preserves t (look_up t suite)
  unfolding look_up
  look_up-Preserves suite n v = v

  assign_at-Preserves :
      (pod : PodInfo) (force : Bool) (r : SubnetRef) (ip : String)
      → Preserves t (assign_at t pod force r ip)
  unfolding assign_at
  assign_at-Preserves pod force r ip n =
      on_subnet-IsNetwork t r _ n (assign-Keeps t pod.name pod.namespace ip force)

  assign_one-Preserves :
      (validate : String → Result (Unit {0})) (pod : PodInfo) (suites : List SubnetIpSuite)
      (force : Bool)
      → Preserves t (assign_one t validate pod suites force)
  unfolding assign_one
  assign_one-Preserves validate pod [] force = λ n v. v
  assign_one-Preserves validate pod (_ ∷ _ ∷ _) force = λ n v. v
  assign_one-Preserves validate pod (suite ∷ []) force =
      bind-Preserves t _ _ (λ n v. v)
        (λ _.
          bind-Preserves t _ _ (look_up-Preserves suite)
            (λ r. bind-Preserves t _ _ (assign_at-Preserves pod force r suite.ip) (λ ip n v. v)))

  assign_dual-Preserves :
      (pod : PodInfo) (suites : List SubnetIpSuite) (force : Bool)
      → Preserves t (assign_dual t pod suites force)
  unfolding assign_dual
  assign_dual-Preserves pod [] force = λ n v. v
  assign_dual-Preserves pod (_ ∷ []) force = λ n v. v
  assign_dual-Preserves pod (_ ∷ _ ∷ _ ∷ _) force = λ n v. v
  assign_dual-Preserves pod (v4 ∷ v6 ∷ []) force =
      bind-Preserves t _ _ (λ n v. v)
        (λ _.
          bind-Preserves t _ _ (λ n v. v)
            (λ _. bind-Preserves t _ _ (look_up-Preserves v4) (λ r4.
              bind-Preserves t _ _ (look_up-Preserves v6) (λ r6.
                bind-Preserves t _ _ (assign_at-Preserves pod force r4 v4.ip) (λ _.
                  bind-Preserves t _ _ (assign_at-Preserves pod force r6 v6.ip) (λ _ n v. v))))))

  for_suites-Preserves :
      (call : String → Subnet → Subnet)
      → ((ip : String) → Keeps t {A = Unit {0}} (λ s. (ok tt, call ip s)))
      → (suites : List SubnetIpSuite) → Preserves t (for_suites t call suites)
  unfolding for_suites
  for_suites-Preserves call keeps [] = λ n v. v
  for_suites-Preserves call keeps (suite ∷ suites) =
      bind-Preserves t _ _ (guard-Preserves (not (is_empty suite.subnet)) empty_subnet_name) (λ _.
        bind-Preserves t _ _ (λ n v. v)
          (λ r.
            bind-Preserves t _ _ (λ n. on_subnet-IsNetwork t r _ n (keeps suite.ip))
              (λ _. for_suites-Preserves call keeps suites)))

  allocate_family-Serves :
      (pod : PodInfo) (subnets : List String) (name : String) (mode : IpFamilyMode)
      → Serves (allocate_family t pod subnets name mode)
  unfolding allocate_family
  allocate_family-Serves pod subnets name ipv4 =
      on_network-Serves name _ (allocate_one-Preserves false pod subnets)
  allocate_family-Serves pod subnets name ipv6 =
      on_network-Serves name _ (allocate_one-Preserves true pod subnets)
  allocate_family-Serves pod subnets name dual_stack =
      on_network-Serves name _ (allocate_dual-Preserves pod subnets)
  allocate_family-Serves pod subnets name (other_mode _) = λ set v. v

  assign_family-Serves :
      (pod : PodInfo) (suites : List SubnetIpSuite) (force : Bool) (name : String)
      (mode : IpFamilyMode)
      → Serves (assign_family t pod suites force name mode)
  unfolding assign_family
  assign_family-Serves pod suites force name ipv4 =
      on_network-Serves name _ (assign_one-Preserves (validate_ipv4 t) pod suites force)
  assign_family-Serves pod suites force name ipv6 =
      on_network-Serves name _ (assign_one-Preserves (validate_ipv6 t) pod suites force)
  assign_family-Serves pod suites force name dual_stack =
      on_network-Serves name _ (assign_dual-Preserves pod suites force)
  assign_family-Serves pod suites force name (other_mode _) = λ set v. v

  guarded-Serves :
      {A : Type 0} (b : Bool) (e : Error) (call : M NetworkSet A)
      → Serves call
      → Serves (guard b e >> call)
  unfolding ◌>>=◌
  guarded-Serves true e call serves set v = serves set v
  guarded-Serves false e call serves set v = v

  -- Allocate of the manager keeps its networks well-formed, on every request and where it fails.
  pub allocate-Serves :
      (network_name : String) (pod : PodInfo) (subnets : List String) (set : NetworkSet)
      → IsManager set
      → IsManager (allocate t network_name pod subnets set).1
  unfolding allocate
  allocate-Serves network_name pod subnets =
      guarded-Serves _ _ _ (allocate_family-Serves pod subnets network_name pod.ip_family)

  -- Assign of the manager keeps its networks well-formed, on every request and where it fails.
  pub assign_pod-Serves :
      (network_name : String) (pod : PodInfo) (suites : List SubnetIpSuite) (force : Bool)
      (set : NetworkSet)
      → IsManager set
      → IsManager (assign_pod t network_name pod suites force set).1
  unfolding assign_pod
  assign_pod-Serves network_name pod suites force =
      guarded-Serves _ _ _ (assign_family-Serves pod suites force network_name pod.ip_family)

  -- Release of the manager keeps its networks well-formed, on every request and where it fails.
  pub release_all-Serves :
      (network_name : String) (suites : List SubnetIpSuite) (set : NetworkSet)
      → IsManager set
      → IsManager (release_all t network_name suites set).1
  unfolding release_all
  release_all-Serves network_name suites =
      guarded-Serves _ _ _ (
        on_network-Serves network_name _
          (for_suites-Preserves (release t) (release-Keeps t) suites))

  -- Reserve of the manager keeps its networks well-formed, on every request and where it fails.
  pub reserve_all-Serves :
      (network_name : String) (suites : List SubnetIpSuite) (set : NetworkSet)
      → IsManager set
      → IsManager (reserve_all t network_name suites set).1
  unfolding reserve_all
  reserve_all-Serves network_name suites =
      guarded-Serves _ _ _ (
        on_network-Serves network_name _
          (for_suites-Preserves (reserve t) (reserve-Keeps t) suites))
