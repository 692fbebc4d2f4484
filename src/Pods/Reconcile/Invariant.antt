-- ===== src/Pods/Reconcile/Invariant.antt =====
-- That a reconciliation keeps the networks of the manager well-formed, whatever the pod and the answers
-- of the API server are.
use container_advanced_netwo.Common.{
  ◌≡◌, refl, inl, inr, Bool, true, false, not, ◌||◌, Option, some, List, [], ◌∷◌, String,
  Bool-cases, Option-cases,
}
use container_advanced_netwo.Net.{NetIp, IpNet, IpText}
use container_advanced_netwo.Ipam.Base.{Result-cases, ok}
use container_advanced_netwo.Ipam.Types.{IpFamilyMode}
use container_advanced_netwo.Ipam.Manager.Invariant.{reserve_all-Serves}
use container_advanced_netwo.Api.{IpInstance, OwnerReference}
use container_advanced_netwo.Caches.PodIpCache.{get_pod, release_pod}
use container_advanced_netwo.Webhook.Refusal.{Read, found, not_found, failed}
use container_advanced_netwo.Pods.Texts.{
  Texts, parse_bool_or_default, transfer_pod_name_for_label_value,
}
use container_advanced_netwo.Pods.Types.{
  Pod, Client, annotation, pod_is_evicted, pod_is_completed, pod_is_scheduled, pod_is_not_running,
  own_by_stateful_workload,
}
use container_advanced_netwo.Pods.Store.{no_options}
use container_advanced_netwo.Pods.Controller.{World, allocated_instances, decouple_pod, reserve_pod}
use container_advanced_netwo.Pods.Strategy.{Lookups, select_network, vm_of_pod, first_controlled}
use container_advanced_netwo.Pods.Reconcile.{
  Owned, owner_reference, is_recorded, owned_object, reserve_instances, end_normal, keep_vm, end_vm,
  vm_of_owned, end_stateful, end_by_vm, end_owned, terminate, allocate_by_vm, allocate_by_strategy,
  config_of, provide, reconcile,
}
use container_advanced_netwo.Pods.Invariant.{Always, bind-Always, Safe, allocate-Safe}
use container_advanced_netwo.Pods.Strategy.Invariant.{
  either, same, remove_finalizer-Safe, stateful_allocate-Safe, vm_allocate-Safe,
}

module _ (t : IpText) (x : Texts) (look : Lookups) (kinds : List String) {S : Type 0}
    (client : Client S) (generated : String) (parse_cidr : String → Option (NetIp × IpNet))
    (raw_bytes : NetIp → String) where
  owned_object-Safe :
      (pod : Pod)
      → Always (Safe t x) (owned_object t x look kinds client generated parse_cidr raw_bytes pod)
  unfolding owned_object
  owned_object-Safe pod w h = elim (Option-cases pod.controller) [
    | inr (o, e) ↦ rw (e, owned_object) h
    | inl e ↦
        elim (Result-cases (
          client.instances_of_pod (transfer_pod_name_for_label_value x pod.name) pod.namespace
            w.api)) [
              | inr (y, f) ↦ rw (e, f, owned_object) h
              | inl (l, f) ↦ elim (Option-cases (first_controlled l)) [
                | inl g ↦ rw (e, f, g, owned_object) h
                | inr (o, g) ↦ rw (e, f, g, owned_object) h
              ]
            ]
  ]

  reserve_instances-Safe :
      (l : List IpInstance)
      → Always (Safe t x) (reserve_instances t x look kinds client generated parse_cidr raw_bytes l)
  unfolding reserve_instances
  reserve_instances-Safe [] = λ w h. h
  reserve_instances-Safe (i ∷ is) =
      bind-Always (Safe t x) _ _ (λ w h. reserve_all-Serves t i.network _ w.networks h)
        (λ _. reserve_instances-Safe is)

  decouple_pod-Safe : (pod : Pod) → Always (Safe t x) (decouple_pod t x kinds client generated pod)
  unfolding decouple_pod
  decouple_pod-Safe pod w h = h

  reserve_pod-Safe :
      (pod : Pod) (drop : Bool)
      → Always (Safe t x) (reserve_pod t x kinds client generated pod drop)
  unfolding reserve_pod
  reserve_pod-Safe pod drop w h = h

  forget :
      (pod : Pod)
      → Always {S = World S} {A = Unit {0}}
          (Safe t x)
          (λ w. (ok tt, record w { cache = release_pod pod.name pod.namespace w.cache }))
  forget pod w h = h

  end_normal-Safe :
      (pod : Pod)
      → Always (Safe t x) (end_normal t x look kinds client generated parse_cidr raw_bytes pod)
  unfolding end_normal
  end_normal-Safe pod = elim (Bool-cases (pod_is_evicted pod || pod_is_completed pod)) [
    | inl e ↦ rw (e, end_normal) (decouple_pod-Safe pod)
    | inr e ↦ rw (e, end_normal) (λ w h. h)
  ]

  keep_vm-Safe :
      (pod : Pod) (vm : String)
      → Always (Safe t x) (keep_vm t x look kinds client generated parse_cidr raw_bytes pod vm)
  unfolding keep_vm
  keep_vm-Safe pod vm = elim (Bool-cases (pod_is_not_running pod)) [
    | inr e ↦ rw (e, keep_vm) (λ w h. h)
    | inl e ↦
        rw (e, keep_vm)
          (bind-Always (Safe t x) _ _ (reserve_pod-Safe pod true) (λ _.
            bind-Always (Safe t x) _ _
              (same t x look kinds client generated parse_cidr raw_bytes
                (λ w. client.instances_of_vm vm pod.namespace w.api))
              (λ l.
                bind-Always (Safe t x) _ _ (reserve_instances-Safe (allocated_instances l)) (λ _.
                  bind-Always (Safe t x) _ _ (forget pod) (λ _.
                    remove_finalizer-Safe t x look kinds client generated parse_cidr raw_bytes
                      pod)))))
  ]

  end_vm-Safe :
      (pod : Pod) (vm : OwnerReference)
      → Always (Safe t x) (end_vm t x look kinds client generated parse_cidr raw_bytes pod vm)
  unfolding end_vm
  end_vm-Safe pod vm w h = go (look.vm_deleted pod.namespace vm.name) refl
    where
      go :
          (r : Read Bool)
          → look.vm_deleted pod.namespace vm.name ≡ r
          → Safe t x (end_vm t x look kinds client generated parse_cidr raw_bytes pod vm w).1
      go failed e = rw (e, end_vm) h
      go not_found e =
          rw (e, end_vm)
            (remove_finalizer-Safe t x look kinds client generated parse_cidr raw_bytes pod w h)
      go (found true) e =
          rw (e, end_vm)
            (remove_finalizer-Safe t x look kinds client generated parse_cidr raw_bytes pod w h)
      go (found false) e = rw (e, end_vm) (keep_vm-Safe pod vm.name w h)

  end_stateful-Safe :
      (pod : Pod)
      → Always (Safe t x) (end_stateful t x look kinds client generated parse_cidr raw_bytes pod)
  unfolding end_stateful
  end_stateful-Safe pod = elim (Bool-cases (pod_is_not_running pod)) [
    | inr e ↦ rw (e, end_stateful) (λ w h. h)
    | inl e ↦
        rw (e, end_stateful)
          (bind-Always (Safe t x) _ _ (reserve_pod-Safe pod false)
            (λ _. remove_finalizer-Safe t x look kinds client generated parse_cidr raw_bytes pod))
  ]

  end_by_vm-Safe :
      (retain : Bool) (pod : Pod) (owned : Owned)
      → Always
          (Safe t x)
          (end_by_vm t x look kinds client generated parse_cidr raw_bytes retain pod owned)
  unfolding end_by_vm
  end_by_vm-Safe false pod owned w h = end_normal-Safe pod w h
  end_by_vm-Safe true pod owned w h =
      elim (Result-cases
        (vm_of_owned t x look kinds client generated parse_cidr raw_bytes pod owned)) [
          | inr (y, e) ↦ rw (e, end_by_vm) h
          | inl (o, e) ↦ elim (Option-cases o) [
            | inl f ↦ rw (e, f, end_by_vm) (end_normal-Safe pod w h)
            | inr (vm, f) ↦ rw (e, f, end_by_vm) (end_vm-Safe pod vm w h)
          ]
        ]

  end_owned-Safe :
      (pod : Pod) (owned : Owned)
      → Always (Safe t x) (end_owned t x look kinds client generated parse_cidr raw_bytes pod owned)
  unfolding end_owned
  end_owned-Safe pod owned =
      either t x look kinds client generated parse_cidr raw_bytes
        (own_by_stateful_workload kinds (some (owner_reference owned))) _ _ (end_stateful-Safe pod)
        (end_by_vm-Safe look.vm_ip_retain pod owned)

  terminate-Safe :
      (pod : Pod)
      → Always (Safe t x) (terminate t x look kinds client generated parse_cidr raw_bytes pod)
  unfolding terminate
  terminate-Safe pod w h =
      let good = owned_object-Safe pod w h in
      elim (Result-cases
        (owned_object t x look kinds client generated parse_cidr raw_bytes pod w).0) [
          | inr (y, e) ↦ rw (e, terminate) good
          | inl (o, e) ↦ elim (Option-cases o) [
            | inl f ↦
                rw (e, f, terminate)
                  (remove_finalizer-Safe t x look kinds client generated parse_cidr raw_bytes pod _
                    good)
            | inr (owned, f) ↦ rw (e, f, terminate) (end_owned-Safe pod owned _ good)
          ]
        ]

  allocate_by_vm-Safe :
      (retain : Bool) (pod : Pod) (network subnets : String) (handled : Bool)
      (family : IpFamilyMode)
      → Always (Safe t x) (
          allocate_by_vm t x look kinds client generated parse_cidr raw_bytes retain pod network
            subnets handled family)
  unfolding allocate_by_vm
  allocate_by_vm-Safe false pod network subnets handled family w h =
      allocate-Safe t x kinds client generated pod network subnets family handled no_options w h
  allocate_by_vm-Safe true pod network subnets handled family w h =
      elim (Result-cases (vm_of_pod look pod)) [
        | inr (y, e) ↦ rw (e, allocate_by_vm) h
        | inl (o, e) ↦ elim (Option-cases o) [
          | inl f ↦
              rw (e, f, allocate_by_vm)
                (allocate-Safe t x kinds client generated pod network subnets family handled
                  no_options w h)
          | inr (vm, f) ↦
              rw (e, f, allocate_by_vm)
                (vm_allocate-Safe t x look kinds client generated parse_cidr raw_bytes pod vm
                  network subnets handled family w h)
        ]
      ]

  allocate_by_strategy-Safe :
      (pod : Pod) (network subnets : String) (handled : Bool) (family : IpFamilyMode)
      → Always (Safe t x) (
          allocate_by_strategy t x look kinds client generated parse_cidr raw_bytes pod network
            subnets handled family)
  unfolding allocate_by_strategy
  allocate_by_strategy-Safe pod network subnets handled family =
      either t x look kinds client generated parse_cidr raw_bytes
        (own_by_stateful_workload kinds pod.controller) _ _
        (stateful_allocate-Safe t x look kinds client generated parse_cidr raw_bytes pod network
          subnets handled family)
        (allocate_by_vm-Safe look.vm_ip_retain pod network subnets handled family)

  provide-Safe :
      (pod : Pod)
      → Always (Safe t x) (provide t x look kinds client generated parse_cidr raw_bytes pod)
  unfolding provide
  provide-Safe pod w h =
      let handled =
        parse_bool_or_default x (annotation "networking.alibaba.com/handled-by-webhook" pod)
          false in
      elim (Result-cases
        (config_of t x look kinds client generated parse_cidr raw_bytes pod handled w.api)) [
          | inr (y, e) ↦ rw (e, provide) h
          | inl ((network, subnets, type, family), e) ↦
              elim (Bool-cases (is_recorded (get_pod pod.name pod.namespace w.cache) pod.uid)) [
                | inl f ↦ rw (e, f, provide) h
                | inr f ↦ elim (Result-cases (select_network x look pod handled network type)) [
                  | inr (y, g) ↦ rw (e, f, g, provide) h
                  | inl (name, g) ↦
                      rw (e, f, g, provide)
                        (allocate_by_strategy-Safe pod name subnets handled family w h)
                ]
              ]
        ]

  -- Whatever the pod is, and whatever the API server answers, a Reconcile of well-formed networks
  -- leaves every network of the manager well-formed, also where it fails.
  pub reconcile-Safe :
      (pod : Read Pod) (w : World S)
      → Safe t x w
      → Safe t x (reconcile t x look kinds client generated parse_cidr raw_bytes pod w).1
  unfolding reconcile
  reconcile-Safe failed = λ w h. h
  reconcile-Safe not_found = λ w h. h
  reconcile-Safe (found pod) =
      either t x look kinds client generated parse_cidr raw_bytes
        (pod.deleted || (pod_is_evicted pod || pod_is_completed pod)) _ _ (terminate-Safe pod)
        (either t x look kinds client generated parse_cidr raw_bytes (not (pod_is_scheduled pod)) _
          _ (λ w h. h) (provide-Safe pod))
