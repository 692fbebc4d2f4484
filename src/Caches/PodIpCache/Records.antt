-- ===== src/Caches/PodIpCache/Records.antt =====
-- What Get answers after Record, ReleaseIP and ReleasePod.
use text.Mathlib.TextLemmas.{append_cancel_left, tail-eq_of_cons-eq}
use container_advanced_netwo.Common.{
  ◌≡◌, ◌≢◌, ◌⊎◌, inl, true, none, some, List, [], ◌∷◌, String, arith, elem, Distinct,
}
use container_advanced_netwo.Common.Map
use container_advanced_netwo.Common.Map.{Map}
use container_advanced_netwo.Caches.PodIpCache.{
  PodAllocatedInfo, PodIpCache, namespaced_key, bind_all, record_pod, remove_first, release_from,
  release_ip, unbind_all, release_pod, get_pod,
}

-- Within a namespace the key tells the names apart.
namespaced_key-injective :
    (namespace a b : String) → namespaced_key a namespace ≡ namespaced_key b namespace → a ≡ b
unfolding namespaced_key
namespaced_key-injective namespace a b h = tail-eq_of_cons-eq (append_cancel_left namespace _ _ h)

get-bind_all :
    (pod namespace x : String) (ips : List String) (m : Map String)
    → (elem x ips ≡ true) ⊎ (Map.get (namespaced_key x namespace) m ≡ some pod)
    → Map.get (namespaced_key x namespace) (bind_all pod namespace ips m) ≡ some pod
unfolding bind_all elem
get-bind_all pod namespace x [] m h = ground arith
get-bind_all pod namespace x (ip ∷ ips) m h =
    get-bind_all pod namespace x ips _
      (ground (arith, Map.get-put (namespaced_key x namespace) (namespaced_key ip namespace) pod m))

get-unbind_all :
    (namespace x : String) (ips : List String) (m : Map String)
    → (elem x ips ≡ true) ⊎ (Map.get (namespaced_key x namespace) m ≡ none)
    → Map.get (namespaced_key x namespace) (unbind_all namespace ips m) ≡ none
unfolding unbind_all elem
get-unbind_all namespace x [] m h = ground arith
get-unbind_all namespace x (ip ∷ ips) m h =
    get-unbind_all namespace x ips _
      (ground (arith, Map.get-delete (namespaced_key x namespace) (namespaced_key ip namespace) m))

-- After Record, Get answers what was recorded for the pod, each of the addresses is bound to it,
-- and Get answers as before for the other pods of the namespace.
pub get_pod-record_pod :
    (uid pod namespace other x : String) (ips : List String) (c : PodIpCache)
    → let c' = record_pod uid pod namespace ips c in
      (get_pod pod namespace c' ≡ some (record { pod_uid = uid; ip_instance_names = ips }))
      × (elem x ips ≡ true → Map.get (namespaced_key x namespace) c'.ip_to_pod ≡ some pod)
      × (other ≢ pod → get_pod other namespace c' ≡ get_pod other namespace c)
unfolding get_pod record_pod
get_pod-record_pod uid pod namespace other x ips c = (
  ground (arith, Map.get-put key key info c.pod_to_ip),
  λ h. get-bind_all pod namespace x ips c.ip_to_pod (inl h),
  λ ne. ground (
    arith,
    Map.get-put (namespaced_key other namespace) key info c.pod_to_ip,
    namespaced_key-injective namespace other pod,
  ),
)
  where
    key : String
    key = namespaced_key pod namespace

    info : PodAllocatedInfo
    info = record { pod_uid = uid; ip_instance_names = ips }

-- After ReleasePod of a pod that is recorded, Get finds nothing for the pod, none of its
-- addresses is bound, and Get answers as before for the other pods of the namespace.
pub get_pod-release_pod :
    (pod namespace other x : String) (info : PodAllocatedInfo) (c : PodIpCache)
    → get_pod pod namespace c ≡ some info
    → let c' = release_pod pod namespace c in
      (get_pod pod namespace c' ≡ none)
      × (elem x info.ip_instance_names ≡ true
          → Map.get (namespaced_key x namespace) c'.ip_to_pod ≡ none)
      × (other ≢ pod → get_pod other namespace c' ≡ get_pod other namespace c)
unfolding get_pod release_pod
get_pod-release_pod pod namespace other x info c found =
    rw (found, release_pod)
      (
        ground (arith, Map.get-delete key key c.pod_to_ip),
        λ h. get-unbind_all namespace x info.ip_instance_names c.ip_to_pod (inl h),
        λ ne. ground (
          arith,
          Map.get-delete (namespaced_key other namespace) key c.pod_to_ip,
          namespaced_key-injective namespace other pod,
        ),
      )
  where
    key : String
    key = namespaced_key pod namespace

-- ReleaseIP of each of a list of addresses.
unfoldable pub release_each : String → List String → PodIpCache → PodIpCache
release_each namespace [] c = c
release_each namespace (ip ∷ ips) c = release_each namespace ips (release_ip ip namespace c)

-- The pod has these addresses, and they are bound to it.
record Holds (pod namespace uid : String) (ips : List String) (c : PodIpCache) : Type 0 where
  recorded : get_pod pod namespace c ≡ some (record { pod_uid = uid; ip_instance_names = ips })
  bound :
      (x : String) → elem x ips ≡ true → Map.get (namespaced_key x namespace) c.ip_to_pod ≡ some pod

release_ip-Holds :
    (pod namespace uid ip next : String) (ips : List String) (c : PodIpCache)
    → Distinct (ip ∷ next ∷ ips)
    → Holds pod namespace uid (ip ∷ next ∷ ips) c
    → Holds pod namespace uid (next ∷ ips) (release_ip ip namespace c)
unfolding release_ip release_from remove_first get_pod elem
release_ip-Holds pod namespace uid ip next ips c d h =
    let b : Map.get (namespaced_key ip namespace) c.ip_to_pod ≡ some pod =
      h.bound ip (ground arith) in
    record {
      recorded = ground (
        arith,
        b,
        h.recorded,
        Map.get-put (namespaced_key pod namespace) (namespaced_key pod namespace)
            (record { pod_uid = uid; ip_instance_names = next ∷ ips }) c.pod_to_ip,
      );
      bound = λ x there.
          let old : Map.get (namespaced_key x namespace) c.ip_to_pod ≡ some pod =
            h.bound x (ground arith) in
          ground (
            arith,
            b,
            old,
            Map.get-delete (namespaced_key x namespace) (namespaced_key ip namespace) c.ip_to_pod,
            namespaced_key-injective namespace x ip,
          );
    }

release_ip_last :
    (pod namespace uid ip : String) (c : PodIpCache)
    → Holds pod namespace uid (ip ∷ []) c
    → get_pod pod namespace (release_ip ip namespace c) ≡ none
unfolding release_ip release_from remove_first get_pod elem
release_ip_last pod namespace uid ip c h =
    let b : Map.get (namespaced_key ip namespace) c.ip_to_pod ≡ some pod =
      h.bound ip (ground arith) in
    ground (
      arith,
      b,
      h.recorded,
      Map.get-delete (namespaced_key pod namespace) (namespaced_key pod namespace) c.pod_to_ip,
    )

release_each_last :
    (pod namespace uid ip : String) (ips : List String) (c : PodIpCache)
    → Distinct (ip ∷ ips)
    → Holds pod namespace uid (ip ∷ ips) c
    → get_pod pod namespace (release_each namespace (ip ∷ ips) c) ≡ none
unfolding release_each
release_each_last pod namespace uid ip [] c d h = release_ip_last pod namespace uid ip c h
release_each_last pod namespace uid ip (next ∷ ips) c d h =
    release_each_last pod namespace uid next ips (release_ip ip namespace c) d.1
      (release_ip-Holds pod namespace uid ip next ips c d h)

-- A pod that was recorded with some distinct addresses is gone once ReleaseIP was called for each
-- of them, whatever the table held before.
pub release_each-record_pod :
    (uid pod namespace ip : String) (ips : List String) (c : PodIpCache)
    → Distinct (ip ∷ ips)
    → get_pod pod namespace
        (release_each namespace (ip ∷ ips) (record_pod uid pod namespace (ip ∷ ips) c))
      ≡ none
release_each-record_pod uid pod namespace ip ips c d =
    release_each_last pod namespace uid ip ips (record_pod uid pod namespace (ip ∷ ips) c) d
      (record {
        recorded = (get_pod-record_pod uid pod namespace pod ip (ip ∷ ips) c).0;
        bound = λ x there. (get_pod-record_pod uid pod namespace pod x (ip ∷ ips) c).1 there;
      })
