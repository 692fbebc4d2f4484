-- ===== src/Caches/Tests.antt =====
-- The theorems on the shared tables at concrete inputs.
use container_advanced_netwo.Common.{
  List, ℕ, ◌+◌, ◌≡◌, ◌≢◌, ◌↔◌, refl, ap, ite, true, false, if◌then◌else◌, none, some, [], ◌∷◌, ◌++◌,
  String, arith, str_dec, elem, erase_all, Distinct,
}
use package.text.Mathlib.TextEquality.{eq_iff}
use container_advanced_netwo.Net.{ip4}
use container_advanced_netwo.Net.Binary.{binary}
use container_advanced_netwo.Common.Map
use container_advanced_netwo.Caches.UuidMutex.{
  locked, already_locked, new_uuid_mutex, lock, unlock, forget, get_latest_uuid, get_uuids, Call,
  locks, unlocks, step, run,
}
use container_advanced_netwo.Caches.UuidMutex.Holders.{
  get_latest_uuid-held, lock_exclusive, get_uuids-elem, unlock-lock,
}
use container_advanced_netwo.Caches.PodIpCache.{
  PodIpCache, namespaced_key, record_pod, release_pod, bind_all, get_pod,
}
use container_advanced_netwo.Caches.PodIpCache.Records.{
  release_each, get_pod-record_pod, get_pod-release_pod, release_each-record_pod,
}
use container_advanced_netwo.Caches.NodeIpCache.{
  VtepInfo, NodeInfo, add_vtep, add_node, add_nodes, add_remote, add_remotes, set_all,
  update_node_ips, search_ip,
}
use container_advanced_netwo.Caches.NodeIpCache.Searches.{
  without, update_node_ips-without, search_ip_last,
}
use container_advanced_netwo.Caches.CallbackSet.{CallbackSet, insert, delete, has, call_back}
use container_advanced_netwo.Caches.CallbackSet.Calls.{insert-delete, delete-insert}

-- The functions that the tests run.
program : Unit {0}
unfolding str_dec elem erase_all binary Map.get Map.put Map.delete Map.keys new_uuid_mutex lock
    unlock forget get_latest_uuid step run namespaced_key record_pod bind_all get_pod add_vtep
    add_node add_nodes add_remote add_remotes set_all update_node_ips has
program = tt

abbrev first_id : String
first_id = "u1"

abbrev other_name : String
other_name = "c2"

abbrev other_pod : String
other_pod = "q"

not_empty : first_id ≢ ""
unfolding program
not_empty = λ e. absurd_bool (ap (λ x. ite (str_dec x "") true false) e)
  where
    absurd_bool : false ≡ true → ⊥
    absurd_bool h = ground (arith, h)

latest_runs : get_latest_uuid "c1" (run new_uuid_mutex (locks "u1" "c1" ∷ [])) ≡ some "u1"
unfolding program
latest_runs = refl

get_latest_uuid-held_example :
    Map.get "u1" (run new_uuid_mutex (locks "u1" "c1" ∷ [])).id_name_map ≡ some "c1"
get_latest_uuid-held_example = get_latest_uuid-held (locks "u1" "c1" ∷ []) "c1" "u1" latest_runs

abbrev first_holder : String
first_holder = "c1"

abbrev other_id : String
other_id = "u2"

other-first_holder : other_name ≢ first_holder
other-first_holder e = ground (arith, (eq_iff other_name first_holder).1 e)

other-first_id : other_id ≢ first_id
other-first_id e = ground (arith, (eq_iff other_id first_id).1 e)

abbrev between : List Call
between = locks "u1" "c2" ∷ locks "u2" "c1" ∷ unlocks "u2" ∷ []

lock_runs : (lock "u1" "c1" new_uuid_mutex).0 ≡ locked true
unfolding program
lock_runs = refl

lock_exclusive_example :
    let u' = run (lock "u1" "c1" new_uuid_mutex).1 between in
    (lock "u1" "c2" u' ≡ (already_locked "c1", u')) × ((lock "u1" "c1" u').0 ≡ locked false)
lock_exclusive_example =
    lock_exclusive "u1" "c1" "c2" new_uuid_mutex true between lock_runs
      (tt, (tt, (other-first_id, tt))) other-first_holder

get_uuids-elem_example :
    (elem "u1" (get_uuids "c1" (run new_uuid_mutex (locks "u1" "c1" ∷ []))) ≡ true)
    ↔ (Map.get "u1" (run new_uuid_mutex (locks "u1" "c1" ∷ [])).id_name_map ≡ some "c1")
get_uuids-elem_example = get_uuids-elem (locks "u1" "c1" ∷ []) "u1" "c1"

new_free : Map.has "u1" new_uuid_mutex.id_name_map ≡ false
unfolding program
new_free = refl

unlock-lock_example :
    ((unlock "u1" (lock "u1" "c1" new_uuid_mutex).1).0 ≡ true)
    × ((unlock "u1" (lock "u1" "c1" new_uuid_mutex).1).1.id_name_map ≡ new_uuid_mutex.id_name_map)
    × (get_latest_uuid "c2" (unlock "u1" (lock "u1" "c1" new_uuid_mutex).1).1
        ≡ ite (str_dec "c2" "c1") none (get_latest_uuid "c2" new_uuid_mutex))
unlock-lock_example = unlock-lock "u1" "c1" "c2" new_uuid_mutex not_empty new_free

abbrev no_pods : PodIpCache
no_pods = record { pod_to_ip = []; ip_to_pod = [] }

abbrev one_pod : PodIpCache
one_pod = record_pod "uid" "p" "ns" ("ip1" ∷ []) no_pods

get_pod-record_pod_example :
    (get_pod "p" "ns" one_pod ≡ some (record { pod_uid = "uid"; ip_instance_names = "ip1" ∷ [] }))
    × (elem "ip1" ("ip1" ∷ []) ≡ true
        → Map.get (namespaced_key "ip1" "ns") one_pod.ip_to_pod ≡ some "p")
    × (other_pod ≢ "p" → get_pod "q" "ns" one_pod ≡ get_pod "q" "ns" no_pods)
get_pod-record_pod_example = get_pod-record_pod "uid" "p" "ns" "q" "ip1" ("ip1" ∷ []) no_pods

one_pod_found :
    get_pod "p" "ns" one_pod ≡ some (record { pod_uid = "uid"; ip_instance_names = "ip1" ∷ [] })
unfolding program
one_pod_found = refl

get_pod-release_pod_example :
    (get_pod "p" "ns" (release_pod "p" "ns" one_pod) ≡ none)
    × (elem "ip1" ("ip1" ∷ []) ≡ true
        → Map.get (namespaced_key "ip1" "ns") (release_pod "p" "ns" one_pod).ip_to_pod ≡ none)
    × (other_pod ≢ "p" → get_pod "q" "ns" (release_pod "p" "ns" one_pod) ≡ get_pod "q" "ns" one_pod)
get_pod-release_pod_example =
    get_pod-release_pod "p" "ns" "q" "ip1"
      (record { pod_uid = "uid"; ip_instance_names = "ip1" ∷ [] }) one_pod one_pod_found

two-Distinct : Distinct ("ip1" ∷ "ip2" ∷ [])
unfolding program
two-Distinct = (refl, (refl, tt))

release_each-record_pod_example :
    get_pod "p" "ns" (
      release_each "ns"
        ("ip1" ∷ "ip2" ∷ [])
        (record_pod "uid" "p" "ns" ("ip1" ∷ "ip2" ∷ []) one_pod))
    ≡ none
release_each-record_pod_example =
    release_each-record_pod "uid" "p" "ns" "ip1" ("ip2" ∷ []) one_pod two-Distinct

abbrev vtep : VtepInfo
vtep = record { ip = binary.print_ip (ip4 9); mac = "aa"; local_ips = binary.print_ip (ip4 9) ∷ [] }

abbrev node : NodeInfo
node = record { name = "me"; vtep_info = some vtep }

update_node_ips-without_example :
    update_node_ips some (node ∷ []) "me" []
    ≡ update_node_ips some (without "me" (node ∷ [])) "me" []
update_node_ips-without_example = update_node_ips-without some (node ∷ []) "me" []

nodes_run : (update_node_ips some (node ∷ []) "me" []).1 ≡ true
unfolding program
nodes_run = refl

vtep_there : elem (binary.print_ip (ip4 9)) vtep.local_ips ≡ true
unfolding program
vtep_there = refl

search_ip_last_example :
    ((update_node_ips some (node ∷ []) "me" ([] ++ vtep ∷ [])).1 ≡ true)
    × (search_ip some binary (ip4 9) (update_node_ips some (node ∷ []) "me" ([] ++ vtep ∷ [])).0
        ≡ some "aa")
search_ip_last_example =
    search_ip_last some binary (node ∷ []) "me" [] vtep "aa" (ip4 9) nodes_run refl vtep_there

abbrev counter : CallbackSet ℕ
counter = record { items = []; callback = some (λ n. n + 1) }

insert-delete_example :
    (has "b" (insert "a" (counter, 0)).0 ≡ ite (str_dec "b" "a") true (has "b" counter))
    × ((insert "a" (counter, 0)).1 ≡ (if has "a" counter then 0 else call_back counter.callback 0))
    × (has "b" (delete "a" (counter, 0)).0 ≡ ite (str_dec "b" "a") false (has "b" counter))
    × ((delete "a" (counter, 0)).1 ≡ (if has "a" counter then call_back counter.callback 0 else 0))
insert-delete_example = insert-delete "a" counter 0 "b"

counter_free : has "a" counter ≡ false
unfolding program
counter_free = refl

delete-insert_example :
    delete "a" (insert "a" (counter, 0))
    ≡ (counter, call_back counter.callback (call_back counter.callback 0))
delete-insert_example = delete-insert "a" counter 0 counter_free
