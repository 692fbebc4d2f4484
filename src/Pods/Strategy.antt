-- ===== src/Pods/Strategy.antt =====
-- pkg/controllers/networking/pod_controller.go: the choice of a network, and the allocation for pods of
-- stateful workloads and of virtual machines. The reads of the cluster are a parameter.
pub mod Invariant
use container_advanced_netwo.Common.{
  Bool, true, false, not, ◌&&◌, ◌||◌, if◌then◌else◌, Option, none, some, List, [], ◌∷◌, String,
  get_elem?,
}
use container_advanced_netwo.Common.Map.{Map}
use container_advanced_netwo.Net.{NetIp, IpNet, is_nil, IpText}
use container_advanced_netwo.Ipam.Base.{M, Result, ok, err, ◌>>=◌, ◌>>◌, return, fails}
use container_advanced_netwo.Ipam.Types.{
  NetworkType, underlay, overlay, global_bgp, other_type, IpFamilyMode,
}
use container_advanced_netwo.AddressRange.{is_empty}
use container_advanced_netwo.Api.{IpInstance, OwnerReference, NetworkObject, SubnetObject}
use container_advanced_netwo.Api.Sort.{sort_ip_instances}
use container_advanced_netwo.Webhook.Refusal.{Read, found, not_found, failed}
use container_advanced_netwo.Pods.Texts.{
  Texts, same_text, to_ip_format, get_index_from_name, normalize_mac, parse_bool_or_default,
  parse_network_type_from_string,
}
use container_advanced_netwo.Pods.Types.{Pod, Client, annotation, label, first_of}
use container_advanced_netwo.Pods.Store.{CoupleOptions, no_options}
use container_advanced_netwo.Pods.Controller.{
  World, IpCandidate, allocated_instances, on_api, allocate, allocated_of_pod, release_instances,
  assign,
}

-- The annotations and the labels of an object.
pub record Metadata : Type 0 where
  pub annotations : Map String
  pub labels : Map String

-- What a reconciliation reads of the cluster: networks by name and by the index of nodes, subnets and
-- namespaces by name, the BGP label of a node, the controllers of VM instances, whether a VM is being
-- deleted, and the flags of the process.
pub record Lookups : Type 0 where
  pub network : String → Read NetworkObject
  pub networks_of_node : String → Result (List String)
  pub subnet : String → Read SubnetObject
  pub namespace : String → Read Metadata
  pub node_attached : String → Result Bool
  pub vmi_controller : String → String → Result (Option OwnerReference)
  pub vm_deleted : String → String → Read Bool
  pub default_ip_retain : Bool
  pub vm_ip_retain : Bool

-- getNetworkByNodeNameIndexer: the first network of the index, or the empty text.
unfoldable pub get_network_by_node_name_indexer : Lookups → String → Result String
get_network_by_node_name_indexer look node = elim (look.networks_of_node node) [
  | err e ↦ err e
  | ok [] ↦ ok ""
  | ok (name ∷ _) ↦ ok name
]

-- The network of an index, which is to be there.
unfoldable pub indexed_network : Lookups → String → Result String
indexed_network look node = elim (get_network_by_node_name_indexer look node) [
  | err e ↦ err e
  | ok name ↦ if is_empty name then err (fails 2) else ok name
]

-- The check that the node of a global BGP pod is attached, where the webhook has not made it.
unfoldable pub attached_network : Lookups → Pod → Bool → String → Result String
attached_network look pod handled name =
    if handled then ok name else elim (look.node_attached pod.node_name) [
      | err e ↦ err e
      | ok b ↦ if b then ok name else err (fails 3)
    ]

-- The switch of selectNetwork over the type.
unfoldable pub network_of_type : Lookups → Pod → Bool → NetworkType → Result String
network_of_type look pod handled underlay = indexed_network look pod.node_name
network_of_type look pod handled overlay = indexed_network look "c3e6699d28e7"
network_of_type look pod handled global_bgp = elim (indexed_network look "d7afdca2c149") [
  | err e ↦ err e
  | ok name ↦ attached_network look pod handled name
]
network_of_type look pod handled (other_type _) = err (fails 4)

-- The network that the webhook would specify is to be there.
unfoldable pub check_specified : Lookups → String → Result (Unit {0})
check_specified look network = if is_empty network then ok tt else elim (look.network network) [
  | found _ ↦ ok tt
  | not_found ↦ err (fails 5)
  | failed ↦ err (fails 5)
]

-- The selection where the webhook has not handled the pod.
unfoldable pub select_unhandled : Lookups → Pod → String → NetworkType → Result String
select_unhandled look pod network type = elim (check_specified look network) [
  | err e ↦ err e
  | ok _ ↦ elim (network_of_type look pod false type) [
    | err e ↦ err e
    | ok name ↦
        if not (is_empty network) && not (same_text network name) then err (fails 6) else ok name
  ]
]

-- selectNetwork.
unfoldable pub select_network : Texts → Lookups → Pod → Bool → String → NetworkType → Result String
select_network x look pod false network type = select_unhandled look pod network type
select_network x look pod true network type =
    let specified =
      first_of (annotation "networking.alibaba.com/specified-network" pod)
        (label "networking.alibaba.com/specified-network" pod) in
    if not (is_empty specified)
    then ok specified
    else network_of_type look pod true (
        parse_network_type_from_string x (
          first_of (annotation "networking.alibaba.com/network-type" pod)
            (label "networking.alibaba.com/network-type" pod)))

-- OwnByVirtualMachine, of a pod: through the VM instance that controls it.
unfoldable pub vm_of_controller : Option OwnerReference → Option OwnerReference
vm_of_controller none = none
vm_of_controller (some owner) = if same_text owner.kind "VirtualMachine" then some owner else none

unfoldable pub vm_of_pod : Lookups → Pod → Result (Option OwnerReference)
vm_of_pod look pod = elim pod.controller [
  | none ↦ ok none
  | some owner ↦
      if not (same_text owner.kind "VirtualMachineInstance")
      then ok none
      else elim (look.vmi_controller pod.namespace owner.name) [
        | err e ↦ err e
        | ok o ↦ ok (vm_of_controller o)
      ]
]

-- The first instance that is not being deleted and has a controller.
unfoldable pub first_controlled : List IpInstance → Option OwnerReference
first_controlled [] = none
first_controlled (i ∷ is) =
    let rest = first_controlled is in
    if i.deleted then rest else elim i.controller [ none ↦ rest | some owner ↦ some owner ]

-- The candidates of the instances of a pod or a VM.
unfoldable pub candidates_of : IpText → Texts → List IpInstance → List IpCandidate
candidates_of t x [] = []
candidates_of t x (i ∷ is) =
    record { subnet = i.subnet; ip = to_ip_format t x i.name } ∷ candidates_of t x is

module _ (t : IpText) (x : Texts) where
  -- The candidates of one entry of an IP pool; an address that does not parse is an error.
  unfoldable pub pool_candidates : List String → Result (List IpCandidate)
  pool_candidates [] = ok []
  pool_candidates (ip ∷ ips) =
      if is_nil (t.parse_ip ip) then err (fails 7) else elim (pool_candidates ips) [
        | err e ↦ err e
        | ok rest ↦ ok (record { subnet = ""; ip = ip } ∷ rest)
      ]

  -- The entry of the pool for a pod, by the index in its name.
  unfoldable pub pool_entry : Pod → String → Result String
  pool_entry pod pool = elim (get_elem? (x.split pool ",") (get_index_from_name x pod.name)) [
    | none ↦ err (fails 8)
    | some entry ↦ if is_empty entry then err (fails 9) else ok entry
  ]

  unfoldable pub pre_assigned : Pod → Result (List IpCandidate)
  pre_assigned pod = elim (pool_entry pod (annotation "networking.alibaba.com/ip-pool" pod)) [
    | err e ↦ err e
    | ok entry ↦ pool_candidates (x.split entry "/")
  ]

  -- parseSpecifiedMACAddressOption.
  unfoldable pub parse_specified_mac_address_option : Pod → Result String
  parse_specified_mac_address_option pod =
      if is_empty (annotation "networking.alibaba.com/mac-pool" pod)
      then ok ""
      else elim (pool_entry pod (annotation "networking.alibaba.com/mac-pool" pod)) [
        | err e ↦ err e
        | ok entry ↦
            if is_empty (normalize_mac x entry) then err (fails 10) else ok (normalize_mac x entry)
      ]

  -- The loop of checkMACAddressCollision.
  unfoldable pub collides : Pod → List IpInstance → Bool
  collides pod [] = false
  collides pod (i ∷ is) =
      (not i.deleted
        && (not (same_text i.namespace pod.namespace)
            || not (same_text i.binding.pod_name pod.name)))
      || collides pod is

  module _ (look : Lookups) (kinds : List String) {S : Type 0} (client : Client S)
      (generated : String) (parse_cidr : String → Option (NetIp × IpNet))
      (raw_bytes : NetIp → String) where
    -- checkMACAddressCollision.
    unfoldable pub check_mac_address_collision : Pod → String → String → M (World S) (Unit {0})
    check_mac_address_collision pod network mac w =
        elim (client.instances_of_mac network mac w.api) [
          | err e ↦ (err e, w)
          | ok l ↦ (if collides pod l then err (fails 11) else ok tt, w)
        ]

    -- addFinalizer and removeFinalizer.
    unfoldable pub add_finalizer : Pod → M (World S) (Unit {0})
    add_finalizer pod =
        if pod.has_finalizer then return tt else on_api (client.add_pod_finalizer pod)

    unfoldable pub remove_finalizer : Pod → M (World S) (Unit {0})
    remove_finalizer pod =
        if pod.has_finalizer then on_api (client.remove_pod_finalizer pod) else return tt

    -- The MAC address of the options of statefulAllocate.
    unfoldable pub stateful_mac : Pod → String → M (World S) String
    stateful_mac pod network =
        if is_empty (annotation "networking.alibaba.com/mac-pool" pod) then return "" else (do
          mac ← (λ w. (parse_specified_mac_address_option pod, w))
          check_mac_address_collision pod network mac
          return mac)

    -- The branch of statefulAllocate that gives up what the pod has.
    unfoldable pub reallocate :
        Pod → String → String → Bool → IpFamilyMode → CoupleOptions → M (World S) (Unit {0})
    reallocate pod network subnets handled family options = do
      instances ← allocated_of_pod t x kinds client generated pod
      release_instances t x kinds client generated parse_cidr raw_bytes pod (some instances)
      allocate t x kinds client generated pod network subnets family handled options

    -- The branch that reuses the addresses of the pod, or allocates for the first time.
    unfoldable pub reuse :
        Pod
        → String
        → String
        → Bool
        → IpFamilyMode
        → CoupleOptions
        → Bool
        → List IpInstance
        → M (World S) (Unit {0})
    reuse pod network subnets handled family options force [] =
        allocate t x kinds client generated pod network subnets family handled options
    reuse pod network subnets handled family options force (i ∷ is) =
        assign t x kinds client generated parse_cidr raw_bytes pod network
          (candidates_of t x (sort_ip_instances parse_cidr (i ∷ is))) force family options

    -- The branches of statefulAllocate: whether the addresses are retained, and whether they are assigned
    -- in advance.
    unfoldable pub stateful_branch :
        (retain pre_assign : Bool)
        → Pod
        → String
        → String
        → Bool
        → IpFamilyMode
        → CoupleOptions
        → M (World S) (Unit {0})
    stateful_branch false false pod network subnets handled family options =
        reallocate pod network subnets handled family options
    stateful_branch true false pod network subnets handled family options = do
      instances ← allocated_of_pod t x kinds client generated pod
      reuse pod network subnets handled family options false instances
    stateful_branch _ true pod network subnets handled family options = do
      candidates ← (λ w. (pre_assigned pod, w))
      assign t x kinds client generated parse_cidr raw_bytes pod network candidates true family
          options

    -- The branches of statefulAllocate, past the finalizer and the MAC address.
    unfoldable pub stateful_branches :
        Pod → String → String → Bool → IpFamilyMode → CoupleOptions → M (World S) (Unit {0})
    stateful_branches pod =
        stateful_branch
          (parse_bool_or_default x (annotation "networking.alibaba.com/ip-retain" pod)
            look.default_ip_retain)
          (not (is_empty (annotation "networking.alibaba.com/ip-pool" pod))) pod

    -- statefulAllocate.
    unfoldable pub stateful_allocate :
        Pod → String → String → Bool → IpFamilyMode → M (World S) (Unit {0})
    stateful_allocate pod network subnets handled family = do
      add_finalizer pod
      mac ← stateful_mac pod network
      stateful_branches pod network subnets handled family
          (record no_options { specified_mac = mac })

    -- vmAllocate.
    unfoldable pub vm_allocate :
        Pod → OwnerReference → String → String → Bool → IpFamilyMode → M (World S) (Unit {0})
    vm_allocate pod vm network subnets handled family = do
      add_finalizer pod
      instances ← (λ w. (client.instances_of_vm vm.name pod.namespace w.api, w))
      reuse pod network subnets handled family
          (record no_options {
            additional_labels = ("networking.alibaba.com/vm", vm.name) ∷ [];
            owner_reference = some vm;
          })
          true (allocated_instances instances)
