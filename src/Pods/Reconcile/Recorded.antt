-- ===== src/Pods/Reconcile/Recorded.antt =====
-- That a reconciliation that gives addresses to a pod records it, so that the next one does nothing.
use container_advanced_netwo.Common.{
  ◌≡◌, refl, sym, ap, subst, ◌∙◌, inl, inr, Bool, true, false, ◌||◌, ite, Option, List, [], ◌∷◌,
  String, Bool-cases, Option-cases, arith, str_dec,
}
use container_advanced_netwo.Net.{NetIp, IpNet, IpText}
use container_advanced_netwo.Ipam.Base.{Result-cases, M, Result, ok, err, Error, ◌>>=◌}
use container_advanced_netwo.Ipam.Types.{Ip, IpFamilyMode}
use container_advanced_netwo.Ipam.Manager
use container_advanced_netwo.Ipam.Manager.{assign_pod}
use container_advanced_netwo.Api.{IpInstance, OwnerReference}
use container_advanced_netwo.Caches.PodIpCache.{get_pod}
use container_advanced_netwo.Caches.PodIpCache.Records.{get_pod-record_pod}
use container_advanced_netwo.Webhook.Refusal.{found}
use container_advanced_netwo.Pods.Texts.{Texts, same_text, parse_bool_or_default}
use container_advanced_netwo.Pods.Types.{
  Pod, Client, annotation, own_by_stateful_workload, pod_is_evicted, pod_is_completed,
  pod_is_scheduled,
}
use container_advanced_netwo.Pods.Store.{CoupleOptions, no_options}
use container_advanced_netwo.Pods.Controller.{
  World, IpCandidate, pod_info, specified_subnets, ip_candidate_to_assign_suite,
  ip_to_ip_instance_name, settle, allocate, assign_candidates, assign, allocated_instances,
}
use container_advanced_netwo.Pods.Strategy.{
  Lookups, select_network, vm_of_pod, reallocate, reuse, stateful_branch, stateful_branches,
  stateful_allocate, vm_allocate,
}
use container_advanced_netwo.Pods.Reconcile.{
  is_recorded, allocate_by_vm, allocate_by_strategy, config_of, provide, reconcile,
}

-- A call after whose success a predicate holds of the state.
abbrev Ends : {S A : Type 0} → (S → Type 0) → M S A → Type 0
Ends {A = A} Q m = (s : _) (a : A) → (m s).0 ≡ ok a → Q (m s).1

failed_never : {A : Type 0} (e : Error) (a : A) → err e ≡ ok a → ⊥
failed_never e a h = ground (arith, h)

bind-Ends :
    {S A B : Type 0} (Q : S → Type 0) (m : M S A) (f : A → M S B)
    → ((a : A) → Ends Q (f a))
    → Ends Q (m >>= f)
unfolding ◌>>=◌
bind-Ends {A = A} {B = B} Q m f rest s b = elim (Result-cases (m s).0) [
  | inl (a, e) ↦ rw (e, ◌>>=◌) (rest a (m s).1 b)
  | inr (x, e) ↦ rw (e, ◌>>=◌) (λ h. absurd (failed_never x b h))
]

same_text_refl : (a : String) → same_text a a ≡ true
same_text_refl a = elim (str_dec a a) as (λ d. ite d true false ≡ true) [
  | yes _ ↦ refl
  | no ne ↦ absurd (ne refl)
]

module _ {S : Type 0} where
  -- The cache has the pod with its UID.
  abbrev pub Recorded : Pod → World S → Type 0
  Recorded pod w = is_recorded (get_pod pod.name pod.namespace w.cache) pod.uid ≡ true

  module _ (t : IpText) (x : Texts) where
    settle-Recorded :
        (network : String) (pod : Pod) (ips : List Ip) (r : Result (Unit {0})) (w : World S)
        → (settle t x network pod ips (r, w)).0 ≡ ok tt
        → Recorded pod (settle t x network pod ips (r, w)).1
    unfolding settle
    settle-Recorded network pod ips (err e) w h = absurd (failed_never e tt h)
    settle-Recorded network pod ips (ok _) w h =
        let names = ip_to_ip_instance_name t x ips in
        ap (λ o. is_recorded o pod.uid)
          (get_pod-record_pod pod.uid pod.name pod.namespace "" "" names w.cache).0
        ∙ same_text_refl pod.uid

    module _ (kinds : List String) (client : Client S) (generated : String) where
      allocate-Recorded :
          (pod : Pod) (network subnets : String) (family : IpFamilyMode) (handled : Bool)
          (options : CoupleOptions)
          → Ends
              (Recorded pod)
              (allocate t x kinds client generated pod network subnets family handled options)
      unfolding allocate
      allocate-Recorded pod network subnets family handled options w u =
          let named = specified_subnets t x pod subnets handled in
          elim (Result-cases
            (Manager.allocate t network (pod_info pod family) named w.networks).0) [
              | inr (y, e) ↦ rw (e, allocate) (λ h. absurd (failed_never y u h))
              | inl (ips, e) ↦ rw (e, allocate) (settle-Recorded network pod ips _ _)
            ]

      module _ (parse_cidr : String → Option (NetIp × IpNet)) (raw_bytes : NetIp → String) where
        assign_candidates-Recorded :
            (pod : Pod) (network : String) (candidates : List IpCandidate) (force : Bool)
            (family : IpFamilyMode) (options : CoupleOptions)
            → Ends (Recorded pod) (
                assign_candidates t x kinds client generated parse_cidr raw_bytes pod network
                  candidates force family options)
        unfolding assign_candidates
        assign_candidates-Recorded pod network candidates force family options w u =
            let suites = ip_candidate_to_assign_suite candidates in
            elim (Result-cases
              (assign_pod t network (pod_info pod family) suites force w.networks).0) [
                | inr (y, e) ↦ rw (e, assign_candidates) (λ h. absurd (failed_never y u h))
                | inl (ips, e) ↦ rw (e, assign_candidates) (settle-Recorded network pod ips _ _)
              ]

        assign-Recorded :
            (pod : Pod) (network : String) (candidates : List IpCandidate) (force : Bool)
            (family : IpFamilyMode) (options : CoupleOptions)
            → Ends (Recorded pod) (
                assign t x kinds client generated parse_cidr raw_bytes pod network candidates force
                  family options)
        unfolding assign
        assign-Recorded pod network candidates force family options =
            bind-Ends (Recorded pod) _ _
              (λ _. assign_candidates-Recorded pod network candidates force family options)

        module _ (look : Lookups) where
          reuse-Recorded :
              (pod : Pod) (network subnets : String) (handled : Bool) (family : IpFamilyMode)
              (options : CoupleOptions) (force : Bool) (l : List IpInstance)
              → Ends (Recorded pod) (
                  reuse t x look kinds client generated parse_cidr raw_bytes pod network subnets
                    handled family options force l)
          unfolding reuse
          reuse-Recorded pod network subnets handled family options force [] =
              allocate-Recorded pod network subnets family handled options
          reuse-Recorded pod network subnets handled family options force (i ∷ is) =
              assign-Recorded pod network _ force family options

          stateful_branch-Recorded :
              (retain pre_assign : Bool) (pod : Pod) (network subnets : String) (handled : Bool)
              (family : IpFamilyMode) (options : CoupleOptions)
              → Ends (Recorded pod) (
                  stateful_branch t x look kinds client generated parse_cidr raw_bytes retain
                    pre_assign pod network subnets handled family options)
          unfolding stateful_branch reallocate
          stateful_branch-Recorded false false pod network subnets handled family options =
              bind-Ends (Recorded pod) _ _ (λ l.
                bind-Ends (Recorded pod) _ _
                  (λ _. allocate-Recorded pod network subnets family handled options))
          stateful_branch-Recorded true false pod network subnets handled family options =
              bind-Ends (Recorded pod) _ _
                (λ l. reuse-Recorded pod network subnets handled family options false l)
          stateful_branch-Recorded false true pod network subnets handled family options =
              bind-Ends (Recorded pod) _ _
                (λ candidates. assign-Recorded pod network candidates true family options)
          stateful_branch-Recorded true true pod network subnets handled family options =
              bind-Ends (Recorded pod) _ _
                (λ candidates. assign-Recorded pod network candidates true family options)

          stateful_allocate-Recorded :
              (pod : Pod) (network subnets : String) (handled : Bool) (family : IpFamilyMode)
              → Ends (Recorded pod) (
                  stateful_allocate t x look kinds client generated parse_cidr raw_bytes pod network
                    subnets handled family)
          unfolding stateful_allocate stateful_branches
          stateful_allocate-Recorded pod network subnets handled family =
              bind-Ends (Recorded pod) _ _ (λ _.
                bind-Ends (Recorded pod) _ _
                  (λ mac. stateful_branch-Recorded _ _ pod network subnets handled family _))

          vm_allocate-Recorded :
              (pod : Pod) (vm : OwnerReference) (network subnets : String) (handled : Bool)
              (family : IpFamilyMode)
              → Ends (Recorded pod) (
                  vm_allocate t x look kinds client generated parse_cidr raw_bytes pod vm network
                    subnets handled family)
          unfolding vm_allocate
          vm_allocate-Recorded pod vm network subnets handled family =
              bind-Ends (Recorded pod) _ _ (λ _. bind-Ends (Recorded pod) _ _ (λ l.
                reuse-Recorded pod network subnets handled family _ true (allocated_instances l)))

          allocate_by_vm-Recorded :
              (retain : Bool) (pod : Pod) (network subnets : String) (handled : Bool)
              (family : IpFamilyMode)
              → Ends (Recorded pod) (
                  allocate_by_vm t x look kinds client generated parse_cidr raw_bytes retain pod
                    network subnets handled family)
          unfolding allocate_by_vm
          allocate_by_vm-Recorded false pod network subnets handled family w u =
              allocate-Recorded pod network subnets family handled no_options w u
          allocate_by_vm-Recorded true pod network subnets handled family w u =
              elim (Result-cases (vm_of_pod look pod)) [
                | inr (y, e) ↦ rw (e, allocate_by_vm) (λ h. absurd (failed_never y u h))
                | inl (o, e) ↦ elim (Option-cases o) [
                  | inl f ↦
                      rw (e, f, allocate_by_vm)
                        (allocate-Recorded pod network subnets family handled no_options w u)
                  | inr (vm, f) ↦
                      rw (e, f, allocate_by_vm)
                        (vm_allocate-Recorded pod vm network subnets handled family w u)
                ]
              ]

          allocate_by_strategy-Recorded :
              (pod : Pod) (network subnets : String) (handled : Bool) (family : IpFamilyMode)
              → Ends (Recorded pod) (
                  allocate_by_strategy t x look kinds client generated parse_cidr raw_bytes pod
                    network subnets handled family)
          unfolding allocate_by_strategy
          allocate_by_strategy-Recorded pod network subnets handled family =
              elim (Bool-cases (own_by_stateful_workload kinds pod.controller)) [
                | inl e ↦
                    rw (e, allocate_by_strategy)
                      (stateful_allocate-Recorded pod network subnets handled family)
                | inr e ↦
                    rw (e, allocate_by_strategy)
                      (allocate_by_vm-Recorded look.vm_ip_retain pod network subnets handled family)
              ]

          provide-Recorded :
              (pod : Pod)
              → Ends
                  (Recorded pod)
                  (provide t x look kinds client generated parse_cidr raw_bytes pod)
          unfolding provide
          provide-Recorded pod w u =
              let handled =
                parse_bool_or_default x (annotation "networking.alibaba.com/handled-by-webhook" pod)
                  false in
              elim (Result-cases (
                config_of t x look kinds client generated parse_cidr raw_bytes pod handled w.api)) [
                  | inr (y, e) ↦ rw (e, provide) (λ h. absurd (failed_never y u h))
                  | inl ((network, subnets, type, family), e) ↦
                      elim (Bool-cases
                        (is_recorded (get_pod pod.name pod.namespace w.cache) pod.uid)) [
                          | inl f ↦ rw (e, f, provide) (λ _. f)
                          | inr f ↦
                              elim (Result-cases (select_network x look pod handled network type)) [
                                | inr (y, g) ↦
                                    rw (e, f, g, provide) (λ h. absurd (failed_never y u h))
                                | inl (name, g) ↦
                                    rw (e, f, g, provide)
                                      (allocate_by_strategy-Recorded pod name subnets handled family
                                        w u)
                              ]
                        ]
                ]

          -- For a scheduled pod that the webhook has handled, and that is neither deleted nor
          -- evicted nor completed: where Reconcile succeeds, the cache has the pod with its UID
          -- afterwards, and the next Reconcile of the same pod, with whatever generated MAC
          -- address, succeeds and changes nothing.
          pub reconcile-Recorded :
              (pod : Pod) (w : World S) (next : String)
              → (pod.deleted || (pod_is_evicted pod || pod_is_completed pod)) ≡ false
              → pod_is_scheduled pod ≡ true
              → parse_bool_or_default x
                  (annotation "networking.alibaba.com/handled-by-webhook" pod)
                  false
                ≡ true
              → (reconcile t x look kinds client generated parse_cidr raw_bytes (found pod) w).0
                ≡ ok tt
              → let w1 =
                  (reconcile t x look kinds client generated parse_cidr raw_bytes
                    (found pod)
                    w).1 in
                Recorded pod w1
                × (reconcile t x look kinds client next parse_cidr raw_bytes (found pod) w1
                    ≡ (ok tt, w1))
          unfolding reconcile provide config_of
          reconcile-Recorded pod w next alive scheduled handled h = (recorded, whole)
            where
              w1 : World S
              w1 = (reconcile t x look kinds client generated parse_cidr raw_bytes (found pod) w).1

              step :
                  reconcile t x look kinds client generated parse_cidr raw_bytes (found pod) w
                  ≡ provide t x look kinds client generated parse_cidr raw_bytes pod w
              step = rw (alive, scheduled, reconcile) refl

              recorded : Recorded pod w1
              recorded =
                  subst (λ r. Recorded pod r.1) (sym step)
                    (provide-Recorded pod w tt (subst (λ r. r.0 ≡ ok tt) step h))

              whole :
                  reconcile t x look kinds client next parse_cidr raw_bytes (found pod) w1
                  ≡ (ok tt, w1)
              whole = rw (alive, scheduled, handled, recorded, reconcile, provide) refl
