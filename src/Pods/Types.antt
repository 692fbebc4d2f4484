-- ===== src/Pods/Types.antt =====
-- The pods that the controllers read, and the client of the API server.
use container_advanced_netwo.Common.{
  Bool, true, false, not, ◌&&◌, ◌||◌, if◌then◌else◌, ite, Option, none, some, List, [], ◌∷◌, String,
  str_dec, elem,
}
use container_advanced_netwo.Common.Map
use container_advanced_netwo.Common.Map.{Map}
use container_advanced_netwo.Ipam.Base.{M, Result}
use container_advanced_netwo.AddressRange.{is_empty}
use container_advanced_netwo.Api.{IpInstance, OwnerReference}
use container_advanced_netwo.Webhook.Refusal.{Read}

-- The phases of a pod that the controllers ask for.
pub data Phase : Type 0 where
  phase_failed phase_succeeded other_phase : Phase

pub record ContainerStatus : Type 0 where
  pub name : String
  pub running : Bool

pub record Pod : Type 0 where
  pub name : String
  pub namespace : String
  pub uid : String
  pub node_name : String
  pub annotations : Map String
  pub labels : Map String
  pub controller : Option OwnerReference
  pub deleted : Bool
  pub has_finalizer : Bool
  pub phase : Phase
  pub reason : String
  pub containers : List String
  pub container_statuses : List ContainerStatus

-- The client of the API server, on the objects that it keeps. The lists are by the label of the pod,
-- of the virtual machine, and by the network and the MAC address.
pub record Client (S : Type 0) : Type 0 where
  pub create : IpInstance → M S (Unit {0})
  pub delete : String → String → M S (Unit {0})
  pub get : String → String → S → Read IpInstance
  pub create_or_patch : String → String → (IpInstance → Result IpInstance) → M S (Unit {0})
  pub remove_finalizers : String → String → M S (Unit {0})
  pub instances_of_pod : String → String → S → Result (List IpInstance)
  pub instances_of_vm : String → String → S → Result (List IpInstance)
  pub instances_of_mac : String → String → S → Result (List IpInstance)
  pub add_pod_finalizer : Pod → M S (Unit {0})
  pub remove_pod_finalizer : Pod → M S (Unit {0})

-- A missing key has the empty text.
abbrev pub value_of : String → Map String → String
value_of key m = elim (Map.get key m) [ none ↦ "" | some v ↦ v ]

abbrev pub annotation : String → Pod → String
annotation key pod = value_of key pod.annotations

abbrev pub label : String → Pod → String
label key pod = value_of key pod.labels

-- PickFirstNonEmptyString of two texts.
unfoldable pub first_of : String → String → String
first_of a b = if is_empty a then b else a

-- PodIsEvicted.
unfoldable pub pod_is_evicted : Pod → Bool
pod_is_evicted pod = elim pod.phase [
  | phase_failed ↦ ite (str_dec pod.reason "Evicted") true false
  | _ ↦ false
]

unfoldable pub has_status : String → List ContainerStatus → Bool
has_status name [] = false
has_status name (s ∷ ss) = ite (str_dec s.name name) true false || has_status name ss

unfoldable pub all_known : List String → List ContainerStatus → Bool
all_known [] statuses = true
all_known (c ∷ cs) statuses = has_status c statuses && all_known cs statuses

-- PodIsCompleted: the count of unknown containers is 0.
unfoldable pub pod_is_completed : Pod → Bool
pod_is_completed pod = elim pod.phase [
  | phase_succeeded ↦ all_known pod.containers pod.container_statuses
  | _ ↦ false
]

-- PodIsScheduled.
unfoldable pub pod_is_scheduled : Pod → Bool
pod_is_scheduled pod = not (is_empty pod.node_name)

unfoldable pub none_running : List ContainerStatus → Bool
none_running [] = true
none_running (s ∷ ss) = not s.running && none_running ss

-- PodIsNotRunning.
unfoldable pub pod_is_not_running : Pod → Bool
pod_is_not_running pod = none_running pod.container_statuses

-- OwnByStatefulWorkload of pkg/ipam/strategy, of a controller reference.
unfoldable pub own_by_stateful_workload : List String → Option OwnerReference → Bool
own_by_stateful_workload kinds none = false
own_by_stateful_workload kinds (some owner) = elem owner.kind kinds

-- GetKnownOwnReference.
unfoldable pub get_known_own_reference : List String → Pod → Option OwnerReference
get_known_own_reference kinds pod =
    if own_by_stateful_workload kinds pod.controller then pod.controller else none
