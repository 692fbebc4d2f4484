-- ===== src/Caches/PodIpCache.antt =====
-- pkg/controllers/networking/pod_ip_cache.go: the IP instances recorded for each pod.
pub mod Records
use Prim.Native.String.{◌++◌ as str_append}
use container_advanced_netwo.Common.{
  Bool, true, false, ite, if◌then◌else◌, Option, none, some, List, [], ◌∷◌, ◌++◌, String, str_dec,
}
use container_advanced_netwo.Common.Map
use container_advanced_netwo.Common.Map.{Map}

-- podAllocatedInfo.
pub record PodAllocatedInfo : Type 0 where
  pub pod_uid : String
  pub ip_instance_names : List String

-- podIPCache, less its lock and its logger.
pub record PodIpCache : Type 0 where
  pub pod_to_ip : Map PodAllocatedInfo
  pub ip_to_pod : Map String

-- namespacedKey.
unfoldable pub namespaced_key : String → String → String
namespaced_key name namespace = str_append namespace (String.◌∷◌ "/" name)

-- What NewPodIPCache reads of an IP instance: an empty pod name means that none is bound.
pub record IpInstance : Type 0 where
  pub name : String
  pub namespace : String
  pub is_valid : Bool
  pub binding_pod_name : String
  pub binding_pod_uid : String

unfoldable pub names_of : Option PodAllocatedInfo → List String
names_of none = []
names_of (some info) = info.ip_instance_names

-- One instance of the loop of NewPodIPCache.
unfoldable pub load_instance : IpInstance → PodIpCache → PodIpCache
load_instance ip c =
    let pod_key = namespaced_key ip.binding_pod_name ip.namespace in
    ite (str_dec ip.binding_pod_name "") c (record {
      pod_to_ip =
          Map.put pod_key
            (record {
              pod_uid = ip.binding_pod_uid;
              ip_instance_names = names_of (Map.get pod_key c.pod_to_ip) ++ ip.name ∷ [];
            })
            c.pod_to_ip;
      ip_to_pod = Map.put (namespaced_key ip.name ip.namespace) ip.binding_pod_name c.ip_to_pod;
    })

-- The loop of NewPodIPCache; `none` is its error at an instance of the legacy model.
unfoldable pub load_all : List IpInstance → PodIpCache → Option PodIpCache
load_all [] c = some c
load_all (ip ∷ rest) c = if ip.is_valid then load_all rest (load_instance ip c) else none

-- NewPodIPCache, from the list of instances.
unfoldable pub new_pod_ip_cache : List IpInstance → Option PodIpCache
new_pod_ip_cache ips = load_all ips (record { pod_to_ip = []; ip_to_pod = [] })

-- The loop of Record.
unfoldable pub bind_all : String → String → List String → Map String → Map String
bind_all pod_name namespace [] m = m
bind_all pod_name namespace (ip ∷ ips) m =
    bind_all pod_name namespace ips (Map.put (namespaced_key ip namespace) pod_name m)

-- Record.
unfoldable pub record_pod : String → String → String → List String → PodIpCache → PodIpCache
record_pod pod_uid pod_name namespace ips c = record {
  pod_to_ip =
      Map.put (namespaced_key pod_name namespace)
        (record { pod_uid = pod_uid; ip_instance_names = ips }) c.pod_to_ip;
  ip_to_pod = bind_all pod_name namespace ips c.ip_to_pod;
}

-- The loop of ReleaseIP: the first occurrence goes.
unfoldable pub remove_first : String → List String → List String
remove_first ip [] = []
remove_first ip (name ∷ names) = ite (str_dec name ip) names (name ∷ remove_first ip names)

abbrev pub is_none : List String → Bool
is_none [] = true
is_none (_ ∷ _) = false

-- The rest of ReleaseIP, once the pod of the address is known.
unfoldable pub release_from : String → String → Map PodAllocatedInfo → Map PodAllocatedInfo
release_from ip pod_key pods = elim (Map.get pod_key pods) [
  | none ↦ pods
  | some info ↦
      let names = remove_first ip info.ip_instance_names in
      if is_none names
      then Map.delete pod_key pods
      else Map.put pod_key (record info { ip_instance_names = names }) pods
]

-- ReleaseIP.
unfoldable pub release_ip : String → String → PodIpCache → PodIpCache
release_ip ip namespace c = elim (Map.get (namespaced_key ip namespace) c.ip_to_pod) [
  | none ↦ c
  | some pod_name ↦ record {
    pod_to_ip = release_from ip (namespaced_key pod_name namespace) c.pod_to_ip;
    ip_to_pod = Map.delete (namespaced_key ip namespace) c.ip_to_pod;
  }
]

-- The loop of ReleasePod.
unfoldable pub unbind_all : String → List String → Map String → Map String
unbind_all namespace [] m = m
unbind_all namespace (ip ∷ ips) m =
    unbind_all namespace ips (Map.delete (namespaced_key ip namespace) m)

-- ReleasePod.
unfoldable pub release_pod : String → String → PodIpCache → PodIpCache
release_pod pod_name namespace c = elim (Map.get (namespaced_key pod_name namespace) c.pod_to_ip) [
  | none ↦ c
  | some info ↦ record {
    pod_to_ip = Map.delete (namespaced_key pod_name namespace) c.pod_to_ip;
    ip_to_pod = unbind_all namespace info.ip_instance_names c.ip_to_pod;
  }
]

-- Get: `none` is the answer false.
unfoldable pub get_pod : String → String → PodIpCache → Option PodAllocatedInfo
get_pod pod_name namespace c = Map.get (namespaced_key pod_name namespace) c.pod_to_ip
