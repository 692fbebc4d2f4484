-- ===== src/Pods/Controller.antt =====
-- pkg/controllers/networking/pod_controller.go: what the controller does for a pod. Its state is what
-- the API server keeps, the networks of the manager and the pod cache. Events, metrics and the texts of
-- errors have no model.
use container_advanced_netwo.Common.{
  Bool, if◌then◌else◌, Option, none, some, List, [], ◌∷◌, String, elem,
}
use container_advanced_netwo.Net.{NetIp, IpNet, IpText}
use container_advanced_netwo.Ipam.Base.{M, Result, ok, err, ◌>>=◌, ◌>>◌, return, raise, panics}
use container_advanced_netwo.Ipam.Types.{Ip, NetworkSet, PodInfo, SubnetIpSuite, IpFamilyMode}
use container_advanced_netwo.Ipam.Manager
use container_advanced_netwo.Ipam.Manager.{assign_pod, release_all, reserve_all}
use container_advanced_netwo.AddressRange.{is_empty}
use container_advanced_netwo.Api.{IpInstance}
use container_advanced_netwo.Api.Transform.{transfer_ip_instance}
use container_advanced_netwo.Caches.PodIpCache.{PodIpCache, record_pod}
use container_advanced_netwo.Pods.Texts.{Texts, to_dns_format, transfer_pod_name_for_label_value}
use container_advanced_netwo.Pods.Types.{Pod, Client, annotation, label, first_of}
use container_advanced_netwo.Pods.Store.{
  CoupleOptions, couple, recouple, decouple, ip_reserve, ip_recycle,
}

-- The state that a reconciliation reads and writes.
pub record World (S : Type 0) : Type 0 where
  pub api : S
  pub networks : NetworkSet
  pub cache : PodIpCache

-- ipCandidate.
pub record IpCandidate : Type 0 where
  pub subnet : String
  pub ip : String

-- ListAllocatedIPInstances: the instances that are not being deleted.
unfoldable pub allocated_instances : List IpInstance → List IpInstance
allocated_instances [] = []
allocated_instances (i ∷ is) =
    let rest = allocated_instances is in if i.deleted then rest else i ∷ rest

-- The call of the store or of the client, the manager, and the cache.
abbrev pub on_api : {S A : Type 0} → M S A → M (World S) A
on_api call w = let (r, s) = call w.api in (r, record w { api = s })

abbrev pub on_manager : {S A : Type 0} → M NetworkSet A → M (World S) A
on_manager call w = let (r, n) = call w.networks in (r, record w { networks = n })

-- The switch of ipCandidateToAssignSuite makes one suite in both cases: AssignIP has no subnet.
unfoldable pub ip_candidate_to_assign_suite : List IpCandidate → List SubnetIpSuite
ip_candidate_to_assign_suite [] = []
ip_candidate_to_assign_suite (c ∷ cs) =
    record { subnet = c.subnet; ip = c.ip } ∷ ip_candidate_to_assign_suite cs

unfoldable pub pod_info : Pod → IpFamilyMode → PodInfo
pod_info pod family = record { name = pod.name; namespace = pod.namespace; ip_family = family }

module _ (t : IpText) (x : Texts) where
  -- ipToReleaseSuite and ipToIPInstanceName.
  unfoldable pub ip_to_release_suite : List Ip → List SubnetIpSuite
  ip_to_release_suite [] = []
  ip_to_release_suite (ip ∷ ips) =
      record { subnet = ip.subnet; ip = t.print_ip ip.address.ip } ∷ ip_to_release_suite ips

  unfoldable pub ip_to_ip_instance_name : List Ip → List String
  ip_to_ip_instance_name [] = []
  ip_to_ip_instance_name (ip ∷ ips) = to_dns_format t x ip.address.ip ∷ ip_to_ip_instance_name ips

  -- The deferred release of allocate and of assign: its error is dropped.
  unfoldable pub give_back : {S : Type 0} → String → List Ip → World S → World S
  give_back network ips w = record w {
    networks = (release_all t network (ip_to_release_suite ips) w.networks).1;
  }

  -- The end of allocate and of assign: the cache is written where the store has kept the addresses,
  -- and the addresses go back where it has not.
  unfoldable pub settle :
      {S : Type 0}
      → String
      → Pod
      → List Ip
      → Result (Unit {0}) × World S
      → Result (Unit {0}) × World S
  settle network pod ips (err e, w) = (err e, give_back network ips w)
  settle network pod ips (ok _, w) = (
    ok tt,
    record w {
      cache = record_pod pod.uid pod.name pod.namespace (ip_to_ip_instance_name ips) w.cache;
    },
  )

  -- The names of the subnets of a pod, as the webhook or the annotations have them.
  unfoldable pub specified_subnets : Pod → String → Bool → List String
  specified_subnets pod from_webhook handled =
      let text =
        if handled
        then first_of (annotation "networking.alibaba.com/specified-subnet" pod)
            (label "networking.alibaba.com/specified-subnet" pod)
        else from_webhook in
      if is_empty text then [] else x.split text "/"

  module _ (kinds : List String) {S : Type 0} (client : Client S) (generated : String) where
    -- allocate.
    unfoldable pub allocate :
        Pod → String → String → IpFamilyMode → Bool → CoupleOptions → M (World S) (Unit {0})
    allocate pod network from_webhook family handled options w =
        let (r, networks) =
          Manager.allocate t network (pod_info pod family)
            (specified_subnets pod from_webhook handled) w.networks in
        let w1 = record w { networks = networks } in
        elim r [
          | err e ↦ (err e, w1)
          | ok ips ↦
              settle network pod ips (on_api (couple t x kinds client generated pod ips options) w1)
        ]

    -- The loop of release.
    unfoldable pub release : Pod → List Ip → M (World S) (Unit {0})
    release pod [] = return tt
    release pod (ip ∷ ips) = do
      on_api (ip_recycle t x kinds client pod.namespace ip)
      release pod ips

    -- decouple and reserve.
    unfoldable pub decouple_pod : Pod → M (World S) (Unit {0})
    decouple_pod pod = on_api (decouple t x kinds client pod)

    unfoldable pub reserve_pod : Pod → Bool → M (World S) (Unit {0})
    reserve_pod pod drop_pod_name = on_api (ip_reserve t x kinds client pod drop_pod_name)

    -- ListAllocatedIPInstancesOfPod.
    unfoldable pub allocated_of_pod : Pod → M (World S) (List IpInstance)
    allocated_of_pod pod w =
        elim (client.instances_of_pod (transfer_pod_name_for_label_value x pod.name) pod.namespace
          w.api) [ err e ↦ (err e, w) | ok l ↦ (ok (allocated_instances l), w) ]

    module _ (parse_cidr : String → Option (NetIp × IpNet)) (raw_bytes : NetIp → String) where
      -- TransferIPInstancesForIPAM; `none` is a panic.
      unfoldable pub transfer_instances : List IpInstance → Option (List Ip)
      transfer_instances [] = some []
      transfer_instances (i ∷ is) = elim (transfer_ip_instance t parse_cidr i) [
        | none ↦ none
        | some ip ↦ elim (transfer_instances is) [ none ↦ none | some ips ↦ some (ip ∷ ips) ]
      ]

      -- The loop of recycleNonCandidateReservedIPs: the set of candidates is asked for the raw bytes of
      -- an address, `string(ip)`.
      unfoldable pub to_release : List String → List IpInstance → Option (List IpInstance)
      to_release stay [] = some []
      to_release stay (i ∷ is) = elim (parse_cidr i.address.ip) [
        | none ↦ none
        | some (ip, _) ↦ elim (to_release stay is) [
          | none ↦ none
          | some rest ↦ some (if elem (raw_bytes ip) stay then rest else i ∷ rest)
        ]
      ]

      unfoldable pub candidate_ips : List IpCandidate → List String
      candidate_ips [] = []
      candidate_ips (c ∷ cs) = c.ip ∷ candidate_ips cs

      -- release of the addresses of instances.
      unfoldable pub release_instances : Pod → Option (List IpInstance) → M (World S) (Unit {0})
      release_instances pod none = raise panics
      release_instances pod (some is) = elim (transfer_instances is) [
        | none ↦ raise panics
        | some ips ↦ release pod ips
      ]

      -- recycleNonCandidateReservedIPs.
      unfoldable pub recycle_non_candidates : Pod → List IpCandidate → M (World S) (Unit {0})
      recycle_non_candidates pod candidates = do
        instances ← allocated_of_pod pod
        release_instances pod (to_release (candidate_ips candidates) instances)

      -- assign, past the recycling.
      unfoldable pub assign_candidates :
          Pod
          → String
          → List IpCandidate
          → Bool
          → IpFamilyMode
          → CoupleOptions
          → M (World S) (Unit {0})
      assign_candidates pod network candidates force family options w =
          let (r, networks) =
            assign_pod t network (pod_info pod family) (ip_candidate_to_assign_suite candidates)
              force w.networks in
          let w1 = record w { networks = networks } in
          elim r [
            | err e ↦ (err e, w1)
            | ok ips ↦
                settle network pod ips
                  (on_api (recouple t x kinds client generated pod ips options) w1)
          ]

      -- assign.
      unfoldable pub assign :
          Pod
          → String
          → List IpCandidate
          → Bool
          → IpFamilyMode
          → CoupleOptions
          → M (World S) (Unit {0})
      assign pod network candidates force family options = do
        (if force then recycle_non_candidates pod candidates else return tt)
        assign_candidates pod network candidates force family options
