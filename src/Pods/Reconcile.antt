-- ===== src/Pods/Reconcile.antt =====
-- pkg/controllers/networking/pod_controller.go: Reconcile, from the pod that was read to what is done
-- for it.
pub mod Invariant
pub mod Recorded
use container_advanced_netwo.Common.{
  Bool, true, false, not, ◌||◌, if◌then◌else◌, Option, none, some, List, [], ◌∷◌, String,
}
use container_advanced_netwo.Net.{NetIp, IpNet, IpText}
use container_advanced_netwo.Ipam.Base.{M, Result, ok, err, ◌>>=◌, ◌>>◌, return, raise, fails}
use container_advanced_netwo.Ipam.Types.{NetworkType, other_type, IpFamilyMode}
use container_advanced_netwo.Ipam.Manager.{reserve_all}
use container_advanced_netwo.Api.{IpInstance, OwnerReference}
use container_advanced_netwo.Caches.PodIpCache.{PodAllocatedInfo, get_pod, release_pod}
use container_advanced_netwo.Webhook.Refusal.{Read, found, not_found, failed}
use container_advanced_netwo.Pods.Texts.{
  Texts, same_text, to_ip_format, transfer_pod_name_for_label_value, parse_bool_or_default,
  parse_ip_family_from_string,
}
use container_advanced_netwo.Pods.Types.{
  Pod, Client, annotation, pod_is_evicted, pod_is_completed, pod_is_scheduled, pod_is_not_running,
  own_by_stateful_workload,
}
use container_advanced_netwo.Pods.Store.{no_options}
use container_advanced_netwo.Pods.Controller.{
  World, allocated_instances, on_manager, allocate, decouple_pod, reserve_pod,
}
use container_advanced_netwo.Pods.Config.{parse_network_config_of_pod_by_priority}
use container_advanced_netwo.Pods.Strategy.{
  Lookups, select_network, vm_of_controller, vm_of_pod, first_controlled, remove_finalizer,
  stateful_allocate, vm_allocate,
}

-- The object that a terminating pod goes by: the pod, or an instance of it with a controller.
pub data Owned : Type 0 where
  by_pod by_instance : OwnerReference → Owned

abbrev pub owner_reference : Owned → OwnerReference
owner_reference (by_pod o) = o
owner_reference (by_instance o) = o

-- The cache has the pod with the same UID.
abbrev pub is_recorded : Option PodAllocatedInfo → String → Bool
is_recorded none uid = false
is_recorded (some info) uid = same_text info.pod_uid uid

module _ (t : IpText) (x : Texts) (look : Lookups) (kinds : List String) {S : Type 0}
    (client : Client S) (generated : String) (parse_cidr : String → Option (NetIp × IpNet))
    (raw_bytes : NetIp → String) where
  -- The owner of a terminating pod.
  unfoldable pub owned_object : Pod → M (World S) (Option Owned)
  owned_object pod w = elim pod.controller [
    | some o ↦ (ok (some (by_pod o)), w)
    | none ↦
        elim (client.instances_of_pod (transfer_pod_name_for_label_value x pod.name) pod.namespace
          w.api) [
            | err e ↦ (err e, w)
            | ok l ↦ elim (first_controlled l) [
              | none ↦ (ok none, w)
              | some o ↦ (ok (some (by_instance o)), w)
            ]
          ]
  ]

  -- The loop that reserves the addresses of a VM in the manager.
  unfoldable pub reserve_instances : List IpInstance → M (World S) (Unit {0})
  reserve_instances [] = return tt
  reserve_instances (i ∷ is) = do
    on_manager
        (reserve_all t i.network (record { subnet = i.subnet; ip = to_ip_format t x i.name } ∷ []))
    reserve_instances is

  abbrev done_with : Pod → M (World S) (Unit {0})
  done_with pod = remove_finalizer t x look kinds client generated parse_cidr raw_bytes pod

  -- The end of a terminating pod that belongs to no workload that keeps addresses.
  unfoldable pub end_normal : Pod → M (World S) (Unit {0})
  end_normal pod =
      if pod_is_evicted pod || pod_is_completed pod
      then decouple_pod t x kinds client generated pod
      else return tt

  -- The end of a pod of a VM that is there.
  unfoldable pub keep_vm : Pod → String → M (World S) (Unit {0})
  keep_vm pod vm = if not (pod_is_not_running pod) then return tt else (do
    reserve_pod t x kinds client generated pod true
    instances ← (λ w. (client.instances_of_vm vm pod.namespace w.api, w))
    reserve_instances (allocated_instances instances)
    (λ w. (ok tt, record w { cache = release_pod pod.name pod.namespace w.cache }))
    done_with pod)

  -- The end of a pod of a VM: a VM that is gone, or going, keeps nothing.
  unfoldable pub end_vm : Pod → OwnerReference → M (World S) (Unit {0})
  end_vm pod vm w = elim (look.vm_deleted pod.namespace vm.name) [
    | failed ↦ (err (fails 12), w)
    | not_found ↦ done_with pod w
    | found true ↦ done_with pod w
    | found false ↦ keep_vm pod vm.name w
  ]

  -- OwnByVirtualMachine of the owned object.
  unfoldable pub vm_of_owned : Pod → Owned → Result (Option OwnerReference)
  vm_of_owned pod (by_pod o) = vm_of_pod look pod
  vm_of_owned pod (by_instance o) = ok (vm_of_controller (some o))

  unfoldable pub end_stateful : Pod → M (World S) (Unit {0})
  end_stateful pod =
      if not (pod_is_not_running pod)
      then return tt
      else (do reserve_pod t x kinds client generated pod false; done_with pod)

  -- The end of a pod of another owner, where the addresses of VMs are retained or not.
  unfoldable pub end_by_vm : (retain : Bool) → Pod → Owned → M (World S) (Unit {0})
  end_by_vm false pod owned w = end_normal pod w
  end_by_vm true pod owned w = elim (vm_of_owned pod owned) [
    | err e ↦ (err e, w)
    | ok none ↦ end_normal pod w
    | ok (some vm) ↦ end_vm pod vm w
  ]

  unfoldable pub end_owned : Pod → Owned → M (World S) (Unit {0})
  end_owned pod owned =
      if own_by_stateful_workload kinds (some (owner_reference owned))
      then end_stateful pod
      else end_by_vm look.vm_ip_retain pod owned

  -- The branch of Reconcile for a terminating, evicted or completed pod.
  unfoldable pub terminate : Pod → M (World S) (Unit {0})
  terminate pod w =
      let (r, w1) = owned_object pod w in
      elim r [
        | err e ↦ (err e, w1)
        | ok none ↦ done_with pod w1
        | ok (some owned) ↦ end_owned pod owned w1
      ]

  -- The allocation for a pod of another owner, where the addresses of VMs are retained or not.
  unfoldable pub allocate_by_vm :
      (retain : Bool) → Pod → String → String → Bool → IpFamilyMode → M (World S) (Unit {0})
  allocate_by_vm false pod network subnets handled family w =
      allocate t x kinds client generated pod network subnets family handled no_options w
  allocate_by_vm true pod network subnets handled family w = elim (vm_of_pod look pod) [
    | err e ↦ (err e, w)
    | ok none ↦ allocate t x kinds client generated pod network subnets family handled no_options w
    | ok (some vm) ↦
        vm_allocate t x look kinds client generated parse_cidr raw_bytes pod vm network subnets
          handled family w
  ]

  -- The strategies: a stateful workload, a virtual machine, and any other pod.
  unfoldable pub allocate_by_strategy :
      Pod → String → String → Bool → IpFamilyMode → M (World S) (Unit {0})
  allocate_by_strategy pod network subnets handled family =
      if own_by_stateful_workload kinds pod.controller
      then stateful_allocate t x look kinds client generated parse_cidr raw_bytes pod network
          subnets handled family
      else allocate_by_vm look.vm_ip_retain pod network subnets handled family

  -- The network config of the pod, which is read where the webhook has not handled it.
  unfoldable pub config_of : Pod → Bool → S → Result (String × String × NetworkType × IpFamilyMode)
  config_of pod false s =
      elim (parse_network_config_of_pod_by_priority x look kinds parse_cidr
        (λ name ns. client.instances_of_pod name ns s) (λ name ns. client.instances_of_vm name ns s)
        pod) [ err e ↦ err e | ok c ↦ ok (c.network, c.subnets, c.type, c.family) ]
  config_of pod true s = ok (
    "",
    "",
    other_type "",
    parse_ip_family_from_string x (annotation "networking.alibaba.com/ip-family" pod),
  )

  -- The branch for a scheduled pod: nothing is done for one that the cache has.
  unfoldable pub provide : Pod → M (World S) (Unit {0})
  provide pod w =
      let handled =
        parse_bool_or_default x (annotation "networking.alibaba.com/handled-by-webhook" pod)
          false in
      elim (config_of pod handled w.api) [
        | err e ↦ (err e, w)
        | ok (network, subnets, type, family) ↦
            if is_recorded (get_pod pod.name pod.namespace w.cache) pod.uid
            then (ok tt, w)
            else elim (select_network x look pod handled network type) [
              | err e ↦ (err e, w)
              | ok name ↦ allocate_by_strategy pod name subnets handled family w
            ]
      ]

  -- Reconcile, of the pod that was read.
  unfoldable pub reconcile : Read Pod → M (World S) (Unit {0})
  reconcile failed = raise (fails 13)
  reconcile not_found = return tt
  reconcile (found pod) =
      if pod.deleted || (pod_is_evicted pod || pod_is_completed pod)
      then terminate pod
      else if not (pod_is_scheduled pod)
      then return tt
      else provide pod
