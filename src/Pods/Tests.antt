-- ===== src/Pods/Tests.antt =====
-- The theorems on the pods at concrete inputs: a client that keeps its objects in a function.
use container_advanced_netwo.Common.{
  ◌||◌, ◌≡◌, ◌≢◌, refl, sym, ap, ◌∙◌, ◌⊎◌, inl, inr, ℕ, true, false, Option, none, some, [], ◌∷◌,
  String, arith, str_dec,
}
use container_advanced_netwo.Net.{ip4, cidr_mask}
use container_advanced_netwo.Net.Binary.{binary}
use container_advanced_netwo.Ipam.Base.{Result, ok, err, Error, fails}
use container_advanced_netwo.Ipam.Types.{Ip, allocated, ipv4}
use container_advanced_netwo.Api.{IpInstance}
use container_advanced_netwo.Webhook.Refusal.{Read, found, not_found}
use container_advanced_netwo.Pods.Texts.{to_dns_format, Texts}
use container_advanced_netwo.Pods.Types.{Pod, Client, other_phase, annotation}
use container_advanced_netwo.Ipam.Manager.Invariant.{IsManager}
use container_advanced_netwo.Ipam.NetworkTests.{networks, networks-IsManager}
use container_advanced_netwo.Pods.Controller.{World, allocate}
use container_advanced_netwo.Pods.Strategy.{Lookups}
use container_advanced_netwo.Pods.Reconcile.{reconcile}
use container_advanced_netwo.Pods.Reconcile.Invariant.{reconcile-Safe}
use container_advanced_netwo.Pods.Store.{bare_instance, no_options, couple}
use container_advanced_netwo.Pods.Store.Deletion.{Objects, IsClient}
use container_advanced_netwo.Pods.Store.Rollback.{Coupled, couple-Undone}
use container_advanced_netwo.Caches.PodIpCache.{get_pod}
use container_advanced_netwo.Common.Map
use container_advanced_netwo.Common.Map.{keys}
use container_advanced_netwo.Common.{elem}
use container_advanced_netwo.Ipam.Base.{◌>>=◌}
use container_advanced_netwo.Ipam.Manager.{
  allocate_family, allocate_from, allocate_one, on_network, one_subnet, valid_request,
}
use container_advanced_netwo.Ipam.Network.{get_subnet_by_name_or_available, on_subnet}
use container_advanced_netwo.Ipam.Subnet.{allocate_loop, allocate_next, is_available}
use container_advanced_netwo.Ipam.SubnetSlice.{available_loop, get_available_subnet}
use container_advanced_netwo.Pods.Controller.{pod_info, settle, specified_subnets}
use container_advanced_netwo.Pods.Reconcile.{
  allocate_by_strategy, allocate_by_vm, config_of, provide,
}
use container_advanced_netwo.Pods.Store.{create_all, create_ip_instance}
use container_advanced_netwo.Pods.Strategy.{
  get_network_by_node_name_indexer, indexed_network, network_of_type, select_network,
}
use container_advanced_netwo.Pods.Texts.{
  parse_bool_or_default, parse_ip_family_from_string, parse_network_type_from_env,
  parse_network_type_from_string,
}
use container_advanced_netwo.Pods.Types.{
  first_of, own_by_stateful_workload, pod_is_completed, pod_is_evicted, pod_is_scheduled,
}
use container_advanced_netwo.Pods.Reconcile.Recorded.{Recorded, reconcile-Recorded}

-- Where both texts are the same, the new value; elsewhere the old one.
choose :
    {a b c d : String}
    → Dec (a ≡ b)
    → Dec (c ≡ d)
    → Option IpInstance
    → Option IpInstance
    → Option IpInstance
choose (yes _) (yes _) new old = new
choose (yes _) (no _) new old = old
choose (no _) _ new old = old

put : String → String → Option IpInstance → Objects → Objects
put ns name o s ns' name' = choose (str_dec ns' ns) (str_dec name' name) o (s ns' name')

choose_new :
    {a b : String} (p : Dec (a ≡ a)) (q : Dec (b ≡ b)) (new old : Option IpInstance)
    → choose p q new old ≡ new
unfolding choose
choose_new (yes _) (yes _) new old = refl
choose_new (yes _) (no ne) new old = absurd (ne refl)
choose_new (no ne) _ new old = absurd (ne refl)

choose_old :
    {a b c d : String} (p : Dec (a ≡ b)) (q : Dec (c ≡ d)) (new old : Option IpInstance)
    → (a ≢ b) ⊎ (c ≢ d)
    → choose p q new old ≡ old
unfolding choose
choose_old (yes e) (yes f) new old (inl ne) = absurd (ne e)
choose_old (yes e) (yes f) new old (inr ne) = absurd (ne f)
choose_old (yes _) (no _) new old away = refl
choose_old (no _) _ new old away = refl

put_same : (ns name : String) (o : Option IpInstance) (s : Objects) → put ns name o s ns name ≡ o
unfolding put
put_same ns name o s = choose_new (str_dec ns ns) (str_dec name name) o (s ns name)

put_other :
    (ns name : String) (o : Option IpInstance) (s : Objects) (ns' name' : String)
    → (ns' ≢ ns) ⊎ (name' ≢ name)
    → put ns name o s ns' name' ≡ s ns' name'
unfolding put
put_other ns name o s ns' name' away =
    choose_old (str_dec ns' ns) (str_dec name' name) o (s ns' name') away

not_both : {A : Type 0} (r : Result A) (a : A) (e : Error) → r ≡ ok a → r ≡ err e → ⊥
not_both r a e h h' = ground (arith, h, h')

create_at : IpInstance → Objects → Option IpInstance → Result (Unit {0}) × Objects
create_at i s none = (ok tt, put i.namespace i.name (some i) s)
create_at i s (some _) = (err (fails 0), s)

patch_at :
    String
    → String
    → (IpInstance → Result IpInstance)
    → Objects
    → Option IpInstance
    → Result (Unit {0}) × Objects
patch_at name ns change s none = (err (fails 1), s)
patch_at name ns change s (some i) = elim (change i) [
  | err e ↦ (err e, s)
  | ok j ↦ (ok tt, put ns name (some j) s)
]

read_at : Option IpInstance → Read IpInstance
read_at none = not_found
read_at (some i) = found i

abbrev server : Client Objects
server = record {
  create = λ i s. create_at i s (s i.namespace i.name);
  delete = λ ns name s. (ok tt, put ns name none s);
  get = λ ns name s. read_at (s ns name);
  create_or_patch = λ name ns change s. patch_at name ns change s (s ns name);
  remove_finalizers = λ _ _ s. (ok tt, s);
  instances_of_pod = λ _ _ _. ok [];
  instances_of_vm = λ _ _ _. ok [];
  instances_of_mac = λ _ _ _. ok [];
  add_pod_finalizer = λ _ s. (ok tt, s);
  remove_pod_finalizer = λ _ s. (ok tt, s);
}

create_at_created :
    (i : IpInstance) (s s' : Objects) (o : Option IpInstance)
    → create_at i s o ≡ (ok tt, s')
    → (o ≡ none) × (s' i.namespace i.name ≡ some i)
unfolding create_at
create_at_created i s s' none e =
    (refl, ap (λ r. r.1 i.namespace i.name) (sym e) ∙ put_same i.namespace i.name (some i) s)
create_at_created i s s' (some j) e =
    absurd (not_both (err (fails 0)) tt (fails 0) (ap (λ r. r.0) e) refl)

create_at_elsewhere :
    (i : IpInstance) (s : Objects) (o : Option IpInstance) (ns name : String)
    → (ns ≢ i.namespace) ⊎ (name ≢ i.name)
    → (create_at i s o).1 ns name ≡ s ns name
unfolding create_at
create_at_elsewhere i s none ns name away = put_other i.namespace i.name (some i) s ns name away
create_at_elsewhere i s (some j) ns name away = refl

create_at_failed :
    (i : IpInstance) (s s' : Objects) (o : Option IpInstance) (e : Error)
    → create_at i s o ≡ (err e, s')
    → (ns name : String) → s' ns name ≡ s ns name
unfolding create_at
create_at_failed i s s' none e h ns name = absurd (not_both (ok tt) tt e refl (ap (λ r. r.0) h))
create_at_failed i s s' (some j) e h ns name = ap (λ r. r.1 ns name) (sym h)

server_IsClient : IsClient server (λ s. s)
server_IsClient = record {
  created = λ i s s' e. create_at_created i s s' (s i.namespace i.name) e;
  not_created =
      λ i s s' e h. inl (create_at_failed i s s' (s i.namespace i.name) e h i.namespace i.name);
  create_elsewhere =
      λ i s ns name away. create_at_elsewhere i s (s i.namespace i.name) ns name away;
  deleted = λ ns name s _. inl (put_same ns name none s);
  not_deleted = λ ns name s e _. inr (inl (put_same ns name none s));
  delete_elsewhere = λ ns name s ns' name' away. put_other ns name none s ns' name' away;
}

abbrev pub texts : Texts
texts = record {
  split = λ a _. a ∷ [];
  count = λ _ _. 0;
  replace_all = λ a _ _. a;
  to_lower = λ a. a;
  atoi = λ _. none;
  parse_bool = λ a. elim (str_dec a "true") [ yes _ ↦ some true | no _ ↦ none ];
  parse_mac = λ a. some a;
  print_net = λ i _. binary.print_ip i;
  text_length = λ _. 0;
  hash_from = λ _ a. a;
  default_ip_family = "";
  default_network_type = "";
}

abbrev pub web : Pod
web = record {
  name = "web-0";
  namespace = "default";
  uid = "u1";
  node_name = "node1";
  annotations =
      ("networking.alibaba.com/handled-by-webhook", "true")
      ∷ (("networking.alibaba.com/ip-family", "IPv4") ∷ []);
  labels = [];
  controller = none;
  deleted = false;
  has_finalizer = false;
  phase = other_phase;
  reason = "";
  containers = [];
  container_statuses = [];
}

abbrev address_of : ℕ → Ip
address_of n = record {
  address = record { ip = ip4 n; mask = cidr_mask 24 32 };
  gateway = ip4 1;
  net_id = none;
  subnet = "s1";
  network = "n1";
  pod_name = "web-0";
  pod_namespace = "default";
  status = allocated;
}

-- The second address has an instance already.
abbrev half_taken : Objects
half_taken =
    put "default" (to_dns_format binary texts (address_of 6).address.ip)
      (some (bare_instance "other" "default")) (λ _ _. none)

couple-Undone_example :
    Coupled binary texts [] server
      (λ s. s)
      server_IsClient
      "m"
      web
      (address_of 5 ∷ (address_of 6 ∷ []))
      no_options
      half_taken
couple-Undone_example =
    couple-Undone binary texts [] server (λ s. s) server_IsClient "m" web
      (address_of 5 ∷ (address_of 6 ∷ [])) no_options half_taken

-- A cluster of one network and one node.
abbrev pub cluster : Lookups
cluster = record {
  network = λ _. not_found;
  networks_of_node = λ _. ok ("n1" ∷ []);
  subnet = λ _. not_found;
  namespace = λ _. not_found;
  node_attached = λ _. ok true;
  vmi_controller = λ _ _. ok none;
  vm_deleted = λ _ _. not_found;
  default_ip_retain = true;
  vm_ip_retain = false;
}

abbrev world : World Objects
world = record {
  api = λ _ _. none;
  networks = networks;
  cache = record { pod_to_ip = []; ip_to_pod = [] };
}

abbrev reconciled : Result (Unit {0}) × World Objects
reconciled = reconcile binary texts cluster [] server "m" (λ _. none) (λ _. "") (found web) world

reconcile-Safe_example : IsManager binary reconciled.1.networks
reconcile-Safe_example =
    reconcile-Safe binary texts cluster [] server "m" (λ _. none) (λ _. "") (found web) world
      networks-IsManager

web_allocates :
    reconciled ≡ allocate binary texts [] server "m" web "n1" "" ipv4 true no_options world
unfolding reconcile pod_is_evicted pod_is_completed pod_is_scheduled provide config_of
    parse_bool_or_default get_pod Map.get select_network first_of network_of_type
    parse_network_type_from_string parse_network_type_from_env indexed_network
    get_network_by_node_name_indexer allocate_by_strategy own_by_stateful_workload allocate_by_vm
    parse_ip_family_from_string str_dec
web_allocates = refl

web_granted : (allocate binary texts [] server "m" web "n1" "" ipv4 true no_options world).0 ≡ ok tt
unfolding allocate str_dec container_advanced_netwo.Ipam.Manager.allocate ◌>>=◌ valid_request
    pod_info allocate_family on_network Map.get allocate_one one_subnet specified_subnets first_of
    get_subnet_by_name_or_available get_available_subnet available_loop is_available allocate_from
    on_subnet container_advanced_netwo.Ipam.Ip.next elem keys binary settle couple create_all
    create_ip_instance create_at allocate_next allocate_loop
web_granted = refl

web_alive : (web.deleted || (pod_is_evicted web || pod_is_completed web)) ≡ false
unfolding pod_is_evicted pod_is_completed str_dec
web_alive = refl

web_scheduled : pod_is_scheduled web ≡ true
unfolding pod_is_scheduled str_dec
web_scheduled = refl

web_handled :
    parse_bool_or_default texts (annotation "networking.alibaba.com/handled-by-webhook" web) false
    ≡ true
unfolding parse_bool_or_default Map.get str_dec
web_handled = refl

reconcile-Recorded_example :
    Recorded web reconciled.1
    × (reconcile binary texts cluster [] server "m2" (λ _. none) (λ _. "") (found web) reconciled.1
        ≡ (ok tt, reconciled.1))
reconcile-Recorded_example =
    reconcile-Recorded binary texts [] server "m" (λ _. none) (λ _. "") cluster web world "m2"
      web_alive web_scheduled web_handled (ap (λ r. r.0) web_allocates ∙ web_granted)
