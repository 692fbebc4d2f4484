-- ===== src/Pods/Strategy/Invariant.antt =====
-- That the strategies of an allocation keep the networks of the manager well-formed.
use container_advanced_netwo.Common.{
  inl, inr, Bool, true, false, if◌then◌else◌, Option, some, List, [], ◌∷◌, String, Bool-cases,
}
use container_advanced_netwo.Net.{NetIp, IpNet, IpText}
use container_advanced_netwo.AddressRange.{is_empty}
use container_advanced_netwo.Ipam.Base.{Result-cases, M, Result}
use container_advanced_netwo.Ipam.Types.{IpFamilyMode}
use container_advanced_netwo.Api.{IpInstance, OwnerReference}
use container_advanced_netwo.Pods.Texts.{Texts}
use container_advanced_netwo.Pods.Types.{Pod, Client, annotation}
use container_advanced_netwo.Pods.Store.{CoupleOptions}
use container_advanced_netwo.Pods.Controller.{World, allocated_instances}
use container_advanced_netwo.Pods.Strategy.{
  Lookups, check_mac_address_collision, add_finalizer, remove_finalizer, stateful_mac, reallocate,
  reuse, stateful_branch, stateful_branches, stateful_allocate, vm_allocate,
}
use container_advanced_netwo.Pods.Invariant.{
  Always, bind-Always, Safe, allocate-Safe, allocated_of_pod-Safe, release_instances-Safe,
  assign-Safe,
}

module _ (t : IpText) (x : Texts) (look : Lookups) (kinds : List String) {S : Type 0}
    (client : Client S) (generated : String) (parse_cidr : String → Option (NetIp × IpNet))
    (raw_bytes : NetIp → String) where
  -- Both branches of a test.
  pub either :
      (b : Bool) (m k : M (World S) (Unit {0}))
      → Always (Safe t x) m
      → Always (Safe t x) k
      → Always (Safe t x) (if b then m else k)
  either true m k f g = f
  either false m k f g = g

  pub same : {A : Type 0} (f : World S → Result A) → Always (Safe t x) (λ w. (f w, w))
  same f w h = h

  add_finalizer-Safe :
      (pod : Pod)
      → Always (Safe t x) (add_finalizer t x look kinds client generated parse_cidr raw_bytes pod)
  unfolding add_finalizer
  add_finalizer-Safe pod = either pod.has_finalizer _ _ (λ w h. h) (λ w h. h)

  pub remove_finalizer-Safe :
      (pod : Pod)
      → Always
          (Safe t x)
          (remove_finalizer t x look kinds client generated parse_cidr raw_bytes pod)
  unfolding remove_finalizer
  remove_finalizer-Safe pod = either pod.has_finalizer _ _ (λ w h. h) (λ w h. h)

  check_mac_address_collision-Safe :
      (pod : Pod) (network mac : String)
      → Always (Safe t x) (
          check_mac_address_collision t x look kinds client generated parse_cidr raw_bytes pod
            network mac)
  unfolding check_mac_address_collision
  check_mac_address_collision-Safe pod network mac w h =
      elim (Result-cases (client.instances_of_mac network mac w.api)) [
        | inl (l, e) ↦ rw (e, check_mac_address_collision) h
        | inr (y, e) ↦ rw (e, check_mac_address_collision) h
      ]

  stateful_mac-Safe :
      (pod : Pod) (network : String)
      → Always
          (Safe t x)
          (stateful_mac t x look kinds client generated parse_cidr raw_bytes pod network)
  unfolding stateful_mac
  stateful_mac-Safe pod network =
      elim (Bool-cases (is_empty (annotation "networking.alibaba.com/mac-pool" pod))) [
        | inl e ↦ rw (e, stateful_mac) (λ w h. h)
        | inr e ↦
            rw (e, stateful_mac)
              (bind-Always (Safe t x) _ _ (λ w h. h)
                (λ mac.
                  bind-Always (Safe t x) _ _ (check_mac_address_collision-Safe pod network mac)
                    (λ _ w h. h)))
      ]

  reallocate-Safe :
      (pod : Pod) (network subnets : String) (handled : Bool) (family : IpFamilyMode)
      (options : CoupleOptions)
      → Always (Safe t x) (
          reallocate t x look kinds client generated parse_cidr raw_bytes pod network subnets
            handled family options)
  unfolding reallocate
  reallocate-Safe pod network subnets handled family options =
      bind-Always (Safe t x) _ _ (allocated_of_pod-Safe t x kinds client generated pod) (λ l.
        bind-Always (Safe t x) _ _
          (release_instances-Safe t x kinds client generated parse_cidr raw_bytes pod (some l))
          (λ _.
            allocate-Safe t x kinds client generated pod network subnets family handled options))

  reuse-Safe :
      (pod : Pod) (network subnets : String) (handled : Bool) (family : IpFamilyMode)
      (options : CoupleOptions) (force : Bool) (l : List IpInstance)
      → Always (Safe t x) (
          reuse t x look kinds client generated parse_cidr raw_bytes pod network subnets handled
            family options force l)
  unfolding reuse
  reuse-Safe pod network subnets handled family options force [] =
      allocate-Safe t x kinds client generated pod network subnets family handled options
  reuse-Safe pod network subnets handled family options force (i ∷ is) =
      assign-Safe t x kinds client generated parse_cidr raw_bytes pod network _ force family options

  stateful_branch-Safe :
      (retain pre_assign : Bool) (pod : Pod) (network subnets : String) (handled : Bool)
      (family : IpFamilyMode) (options : CoupleOptions)
      → Always (Safe t x) (
          stateful_branch t x look kinds client generated parse_cidr raw_bytes retain pre_assign pod
            network subnets handled family options)
  unfolding stateful_branch
  stateful_branch-Safe false false pod network subnets handled family options =
      reallocate-Safe pod network subnets handled family options
  stateful_branch-Safe true false pod network subnets handled family options =
      bind-Always (Safe t x) _ _ (allocated_of_pod-Safe t x kinds client generated pod)
        (λ l. reuse-Safe pod network subnets handled family options false l)
  stateful_branch-Safe false true pod network subnets handled family options =
      bind-Always (Safe t x) _ _ (λ w h. h)
        (λ candidates.
          assign-Safe t x kinds client generated parse_cidr raw_bytes pod network candidates true
            family options)
  stateful_branch-Safe true true pod network subnets handled family options =
      bind-Always (Safe t x) _ _ (λ w h. h)
        (λ candidates.
          assign-Safe t x kinds client generated parse_cidr raw_bytes pod network candidates true
            family options)

  pub stateful_allocate-Safe :
      (pod : Pod) (network subnets : String) (handled : Bool) (family : IpFamilyMode)
      → Always (Safe t x) (
          stateful_allocate t x look kinds client generated parse_cidr raw_bytes pod network subnets
            handled family)
  unfolding stateful_allocate stateful_branches
  stateful_allocate-Safe pod network subnets handled family =
      bind-Always (Safe t x) _ _ (add_finalizer-Safe pod) (λ _.
        bind-Always (Safe t x) _ _ (stateful_mac-Safe pod network)
          (λ mac. stateful_branch-Safe _ _ pod network subnets handled family _))

  pub vm_allocate-Safe :
      (pod : Pod) (vm : OwnerReference) (network subnets : String) (handled : Bool)
      (family : IpFamilyMode)
      → Always (Safe t x) (
          vm_allocate t x look kinds client generated parse_cidr raw_bytes pod vm network subnets
            handled family)
  unfolding vm_allocate
  vm_allocate-Safe pod vm network subnets handled family =
      bind-Always (Safe t x) _ _ (add_finalizer-Safe pod) (λ _.
        bind-Always (Safe t x) _ _ (λ w h. h)
          (λ l. reuse-Safe pod network subnets handled family _ true (allocated_instances l)))
