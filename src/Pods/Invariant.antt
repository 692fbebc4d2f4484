-- ===== src/Pods/Invariant.antt =====
-- That whatever is done for a pod keeps the networks of the manager well-formed.
use container_advanced_netwo.Common.{
  inl, inr, Bool, true, false, Option, none, some, List, [], ◌∷◌, String, Option-cases,
}
use container_advanced_netwo.Net.{NetIp, IpNet, IpText}
use container_advanced_netwo.Ipam.Base.{Result-cases, M, Result, ok, err, ◌>>=◌}
use container_advanced_netwo.Ipam.Types.{Ip, IpFamilyMode}
use container_advanced_netwo.Ipam.Manager
use container_advanced_netwo.Ipam.Manager.{assign_pod}
use container_advanced_netwo.Ipam.Manager.Invariant.{
  IsManager, allocate-Serves, assign_pod-Serves, release_all-Serves,
}
use container_advanced_netwo.Api.{IpInstance}
use container_advanced_netwo.Pods.Texts.{Texts, transfer_pod_name_for_label_value}
use container_advanced_netwo.Pods.Types.{Pod, Client}
use container_advanced_netwo.Pods.Store.{CoupleOptions}
use container_advanced_netwo.Pods.Controller.{
  World, IpCandidate, pod_info, specified_subnets, ip_candidate_to_assign_suite,
  ip_to_release_suite, give_back, settle, allocate, release, allocated_of_pod, transfer_instances,
  release_instances, recycle_non_candidates, assign_candidates, assign,
}

-- A call that keeps a predicate on the state, also where it fails.
abbrev pub Always : {S A : Type 0} → (S → Type 0) → M S A → Type 0
Always Q m = (s : _) → Q s → Q (m s).1

pub bind-Always :
    {S A B : Type 0} (Q : S → Type 0) (m : M S A) (f : A → M S B)
    → Always Q m
    → ((a : A) → Always Q (f a))
    → Always Q (m >>= f)
unfolding ◌>>=◌
bind-Always Q m f first rest s h = elim (Result-cases (m s).0) [
  | inl (a, e) ↦ rw (e, ◌>>=◌) (rest a (m s).1 (first s h))
  | inr (x, e) ↦ rw (e, ◌>>=◌) (first s h)
]

module _ (t : IpText) (x : Texts) {S : Type 0} where
  abbrev pub Safe : World S → Type 0
  Safe w = IsManager t w.networks

  give_back-Safe :
      (network : String) (ips : List Ip) (w : World S) → Safe w → Safe (give_back t x network ips w)
  unfolding give_back
  give_back-Safe network ips w h =
      release_all-Serves t network (ip_to_release_suite t x ips) w.networks h

  settle-Safe :
      (network : String) (pod : Pod) (ips : List Ip) (r : Result (Unit {0})) (w : World S)
      → Safe w
      → Safe (settle t x network pod ips (r, w)).1
  unfolding settle
  settle-Safe network pod ips (err e) w h = give_back-Safe network ips w h
  settle-Safe network pod ips (ok _) w h = h

  module _ (kinds : List String) (client : Client S) (generated : String) where
    pub allocate-Safe :
        (pod : Pod) (network subnets : String) (family : IpFamilyMode) (handled : Bool)
        (options : CoupleOptions)
        → Always Safe
            (allocate t x kinds client generated pod network subnets family handled options)
    unfolding allocate
    allocate-Safe pod network subnets family handled options w h =
        let named = specified_subnets t x pod subnets handled in
        let good = allocate-Serves t network (pod_info pod family) named w.networks h in
        elim (Result-cases (Manager.allocate t network (pod_info pod family) named w.networks).0) [
          | inr (y, e) ↦ rw (e, allocate) good
          | inl (ips, e) ↦ rw (e, allocate) (settle-Safe network pod ips _ _ good)
        ]

    release-Safe :
        (pod : Pod) (ips : List Ip) → Always Safe (release t x kinds client generated pod ips)
    unfolding release
    release-Safe pod [] = λ w h. h
    release-Safe pod (ip ∷ ips) = bind-Always Safe _ _ (λ w h. h) (λ _. release-Safe pod ips)

    pub allocated_of_pod-Safe :
        (pod : Pod) → Always Safe (allocated_of_pod t x kinds client generated pod)
    unfolding allocated_of_pod
    allocated_of_pod-Safe pod w h =
        elim (Result-cases (
          client.instances_of_pod (transfer_pod_name_for_label_value x pod.name) pod.namespace
            w.api)) [
              | inl (l, e) ↦ rw (e, allocated_of_pod) h
              | inr (y, e) ↦ rw (e, allocated_of_pod) h
            ]

    module _ (parse_cidr : String → Option (NetIp × IpNet)) (raw_bytes : NetIp → String) where
      pub release_instances-Safe :
          (pod : Pod) (l : Option (List IpInstance))
          → Always Safe (release_instances t x kinds client generated parse_cidr raw_bytes pod l)
      unfolding release_instances
      release_instances-Safe pod none w h = h
      release_instances-Safe pod (some is) w h =
          elim (Option-cases
            (transfer_instances t x kinds client generated parse_cidr raw_bytes is)) [
              | inl e ↦ rw (e, release_instances) h
              | inr (ips, e) ↦ rw (e, release_instances) (release-Safe pod ips w h)
            ]

      recycle_non_candidates-Safe :
          (pod : Pod) (candidates : List IpCandidate)
          → Always Safe (
              recycle_non_candidates t x kinds client generated parse_cidr raw_bytes pod candidates)
      unfolding recycle_non_candidates
      recycle_non_candidates-Safe pod candidates =
          bind-Always Safe _ _ (allocated_of_pod-Safe pod) (λ l. release_instances-Safe pod _)

      assign_candidates-Safe :
          (pod : Pod) (network : String) (candidates : List IpCandidate) (force : Bool)
          (family : IpFamilyMode) (options : CoupleOptions)
          → Always Safe (
              assign_candidates t x kinds client generated parse_cidr raw_bytes pod network
                candidates force family options)
      unfolding assign_candidates
      assign_candidates-Safe pod network candidates force family options w h =
          let suites = ip_candidate_to_assign_suite candidates in
          let good = assign_pod-Serves t network (pod_info pod family) suites force w.networks h in
          elim (Result-cases
            (assign_pod t network (pod_info pod family) suites force w.networks).0) [
              | inr (y, e) ↦ rw (e, assign_candidates) good
              | inl (ips, e) ↦ rw (e, assign_candidates) (settle-Safe network pod ips _ _ good)
            ]

      pub assign-Safe :
          (pod : Pod) (network : String) (candidates : List IpCandidate) (force : Bool)
          (family : IpFamilyMode) (options : CoupleOptions)
          → Always Safe (
              assign t x kinds client generated parse_cidr raw_bytes pod network candidates force
                family options)
      unfolding assign
      assign-Safe pod network candidates false family options =
          bind-Always Safe _ _ (λ w h. h)
            (λ _. assign_candidates-Safe pod network candidates false family options)
      assign-Safe pod network candidates true family options =
          bind-Always Safe _ _ (recycle_non_candidates-Safe pod candidates)
            (λ _. assign_candidates-Safe pod network candidates true family options)
