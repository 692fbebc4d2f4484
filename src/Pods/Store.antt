-- ===== src/Pods/Store.antt =====
-- pkg/ipam/store/store.go: the IP instances of a pod, written through the client. The functions of
-- AggregateGoroutines are run one after the other, all of them, and the first error is returned.
pub mod Creation
pub mod Deletion
pub mod Rollback
use container_advanced_netwo.Common.{
  ℕ, Bool, true, false, not, ltb, if◌then◌else◌, Option, none, some, List, [], ◌∷◌, String, length,
}
use container_advanced_netwo.Common.Map
use container_advanced_netwo.Common.Map.{Map}
use container_advanced_netwo.Net.{NetIp, is_nil, IpText, nil_mask, cidr_mask, Mask}
use container_advanced_netwo.Ipam.Base.{
  M, Result, ok, err, Error, ◌>>=◌, ◌>>◌, return, raise, fails,
}
use container_advanced_netwo.Ipam.Types.{Ip}
use container_advanced_netwo.Ipam.Ip.{is_ipv6}
use container_advanced_netwo.AddressRange.{is_empty, IpVersion, ipv4, ipv6, other_version}
use container_advanced_netwo.Api.{OwnerReference, IpInstance, Address, Binding, InstanceStatus}
use container_advanced_netwo.Webhook.Refusal.{Read, found, not_found, failed}
use container_advanced_netwo.Pods.Texts.{
  Texts, same_text, to_dns_format, to_ip_format, get_index_from_name,
  transfer_pod_name_for_label_value, normalize_mac, parse_bool_or_default,
  parse_ip_family_from_string, parse_network_type_from_string,
}
use container_advanced_netwo.Pods.Types.{
  Pod, Client, own_by_stateful_workload, get_known_own_reference,
}

-- CoupleOptions and ReCoupleOptions. `generated` are the MAC addresses that GenerateMAC makes.
pub record CoupleOptions : Type 0 where
  pub additional_labels : Map String
  pub specified_mac : String
  pub owner_reference : Option OwnerReference

abbrev pub no_options : CoupleOptions
no_options = record { additional_labels = []; specified_mac = ""; owner_reference = none }

abbrev pub empty_status : InstanceStatus
empty_status = record {
  status_node_name = "";
  status_pod_name = "";
  status_pod_namespace = "";
  sandbox_id = "";
}

-- The instance of a name and a namespace, with no more than these.
abbrev pub bare_instance : String → String → IpInstance
bare_instance name namespace = record {
  name = name;
  namespace = namespace;
  labels = [];
  finalizers = [];
  deleted = false;
  controller = none;
  network = "";
  subnet = "";
  address = record { version = other_version ""; ip = ""; gateway = ""; net_id = none; mac = "" };
  binding = record {
    referred_kind = "";
    referred_name = "";
    referred_uid = "";
    node_name = "";
    pod_uid = "";
    pod_name = "";
    stateful_index = none;
  };
  status = empty_status;
}

-- The loop over the additional labels.
unfoldable pub put_all : Map String → Map String → Map String
put_all [] m = m
put_all ((k, v) ∷ more) m = put_all more (Map.put k v m)

abbrev pub mask_ones : Mask → ℕ
mask_ones nil_mask = 0
mask_ones (cidr_mask ones bits) = ones

module _ (t : IpText) (x : Texts) (kinds : List String) where
  -- The owner of an instance: the one of the options, the stateful workload, or the pod.
  unfoldable pub owner_of : Pod → Option OwnerReference → OwnerReference
  owner_of pod (some owner) = owner
  owner_of pod none = elim (get_known_own_reference kinds pod) [
    | some owner ↦ owner
    | none ↦ record { kind = "Pod"; name = pod.name; uid = pod.uid }
  ]

  -- The address of an instance that has none yet. GenerateMAC is not called: no caller hands over an
  -- empty MAC address.
  unfoldable pub assemble_address : Ip → String → Address → Address
  assemble_address ip mac old = if not (is_empty old.ip) then old else (record {
    version = if is_ipv6 ip then ipv6 else ipv4;
    ip = x.print_net ip.address.ip (mask_ones ip.address.mask);
    gateway = if is_nil ip.gateway then "" else t.print_ip ip.gateway;
    net_id = ip.net_id;
    mac = mac;
  })

  -- assembleIPInstance.
  unfoldable pub assemble_ip_instance : Ip → Pod → String → CoupleOptions → IpInstance → IpInstance
  assemble_ip_instance ip pod mac options old =
      let owner = owner_of pod options.owner_reference in
      record old {
        finalizers = "networking.alibaba.com/ip-allocated" ∷ [];
        labels = put_all options.additional_labels (
            Map.put "networking.alibaba.com/pod-uid" pod.uid (
              Map.put "networking.alibaba.com/pod" (transfer_pod_name_for_label_value x pod.name) (
                Map.put "networking.alibaba.com/node" pod.node_name (
                  Map.put "networking.alibaba.com/network" ip.network (
                    Map.put "networking.alibaba.com/subnet" ip.subnet
                      (Map.put "networking.alibaba.com/version" "v1.2" old.labels))))));
        controller = some owner;
        network = ip.network;
        subnet = ip.subnet;
        address = assemble_address ip mac old.address;
        binding = record {
          referred_kind = owner.kind;
          referred_name = owner.name;
          referred_uid = owner.uid;
          node_name = pod.node_name;
          pod_uid = pod.uid;
          pod_name = pod.name;
          stateful_index =
              if own_by_stateful_workload kinds pod.controller
              then some (get_index_from_name x pod.name)
              else none;
        };
      }

  module _ {S : Type 0} (client : Client S) where
    -- createIPInstance.
    unfoldable pub create_ip_instance : Pod → String → CoupleOptions → Ip → M S (Unit {0})
    create_ip_instance pod mac options ip = client.create (
        assemble_ip_instance ip pod mac options
          (bare_instance (to_dns_format t x ip.address.ip) pod.namespace))

    -- The loop of Couple: the names that were created, also where it fails.
    unfoldable pub create_all :
        Pod → String → CoupleOptions → List Ip → S → Result (Unit {0}) × List String × S
    create_all pod mac options [] s = (ok tt, [], s)
    create_all pod mac options (ip ∷ ips) s =
        let (r, s1) = create_ip_instance pod mac options ip s in
        let (r', names, s2) = create_all pod mac options ips s1 in
        elim r [
          | err e ↦ (err e, [], s1)
          | ok _ ↦ (r', to_dns_format t x ip.address.ip ∷ names, s2)
        ]

    -- The deferred loop of Couple, which drops the errors.
    unfoldable pub delete_each : String → List String → S → S
    delete_each namespace [] s = s
    delete_each namespace (name ∷ names) s =
        delete_each namespace names (client.delete namespace name s).1

    -- The MAC address of a call: the one of the options, or a generated one.
    unfoldable pub unified_mac : String → String → String
    unified_mac generated specified = if is_empty specified then generated else specified

    -- Couple.
    unfoldable pub couple : String → Pod → List Ip → CoupleOptions → M S (Unit {0})
    couple generated pod ips options s =
        let (r, names, s') =
          create_all pod (unified_mac generated options.specified_mac) options ips s in
        elim r [ ok _ ↦ (ok tt, s') | err e ↦ (err e, delete_each pod.namespace names s') ]

    -- The search of ReCouple for a MAC address to reuse: that of the first instance that is there.
    unfoldable pub reused_mac : Pod → List Ip → S → Result String
    reused_mac pod [] s = ok ""
    reused_mac pod (ip ∷ ips) s =
        elim (client.get pod.namespace (to_dns_format t x ip.address.ip) s) [
          | found i ↦ ok i.address.mac
          | not_found ↦ reused_mac pod ips s
          | failed ↦ err (fails 0)
        ]

    -- The choice of the MAC address of ReCouple.
    unfoldable pub recouple_mac : Pod → List Ip → CoupleOptions → S → Result String
    recouple_mac pod ips options s =
        if not (is_empty options.specified_mac)
        then ok options.specified_mac
        else if ltb 1 (length ips)
        then reused_mac pod ips s
        else ok ""

    -- createOrUpdateIPInstance; an instance that is being deleted is an error.
    unfoldable pub create_or_update_ip_instance : Pod → String → CoupleOptions → Ip → M S (Unit {0})
    create_or_update_ip_instance pod mac options ip =
        client.create_or_patch (to_dns_format t x ip.address.ip) pod.namespace (λ old.
          if old.deleted then err (fails 1) else ok (assemble_ip_instance ip pod mac options old))

    unfoldable pub create_or_update_all : Pod → String → CoupleOptions → List Ip → M S (Unit {0})
    create_or_update_all pod mac options [] = return tt
    create_or_update_all pod mac options (ip ∷ ips) = do
      create_or_update_ip_instance pod mac options ip
      create_or_update_all pod mac options ips

    -- ReCouple.
    unfoldable pub recouple : String → Pod → List Ip → CoupleOptions → M S (Unit {0})
    recouple generated pod ips options = do
      mac ← (λ s. (recouple_mac pod ips options s, s))
      create_or_update_all pod (unified_mac generated mac) options ips

    -- AggregateGoroutines over a list.
    unfoldable pub run_each : (IpInstance → M S (Unit {0})) → List IpInstance → M S (Unit {0})
    run_each call [] s = (ok tt, s)
    run_each call (i ∷ is) s =
        let (r, s1) = call i s in
        let (r', s2) = run_each call is s1 in elim r [ err e ↦ (err e, s2) | ok _ ↦ (r', s2) ]

    -- DeCouple.
    unfoldable pub decouple : Pod → M S (Unit {0})
    decouple pod = do
      instances ← (λ s. (
        client.instances_of_pod (transfer_pod_name_for_label_value x pod.name) pod.namespace s,
        s,
      ))
      run_each (λ i. client.delete pod.namespace i.name) instances

    -- The change of reserveIPInstance.
    unfoldable pub reserved_instance : Bool → IpInstance → IpInstance
    reserved_instance drop_pod_name i =
        if i.deleted
        then i
        else (let labels =
              Map.delete "networking.alibaba.com/pod-uid"
                (Map.delete "networking.alibaba.com/node" i.labels) in
            record i {
              binding = record i.binding {
                node_name = "";
                pod_uid = "";
                pod_name = if drop_pod_name then "" else i.binding.pod_name;
              };
              labels =
                  if drop_pod_name then Map.delete "networking.alibaba.com/pod" labels else labels;
              status = empty_status;
            })

    -- reserveIPInstance, for an instance that is not being deleted.
    unfoldable pub reserve_ip_instance : Bool → IpInstance → M S (Unit {0})
    reserve_ip_instance drop_pod_name i =
        if i.deleted
        then return tt
        else client.create_or_patch i.name i.namespace
            (λ old. ok (reserved_instance drop_pod_name old))

    -- IPReserve.
    unfoldable pub ip_reserve : Pod → Bool → M S (Unit {0})
    ip_reserve pod drop_pod_name = do
      instances ← (λ s. (
        client.instances_of_pod (transfer_pod_name_for_label_value x pod.name) pod.namespace s,
        s,
      ))
      run_each (reserve_ip_instance drop_pod_name) instances

    -- IPRecycle and IPUnBind.
    unfoldable pub ip_recycle : String → Ip → M S (Unit {0})
    ip_recycle namespace ip = client.delete namespace (to_dns_format t x ip.address.ip)

    unfoldable pub ip_unbind : String → String → M S (Unit {0})
    ip_unbind namespace name = client.remove_finalizers namespace name
