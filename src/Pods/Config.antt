-- ===== src/Pods/Config.antt =====
-- pkg/webhook/utils/utils.go: the network config of a pod, from its instances, from the pod, or from its
-- namespace. The texts of the errors have no model.
pub mod Chosen
use container_advanced_netwo.Common.{
  ℕ, zero, suc, Bool, true, false, not, ◌&&◌, ◌||◌, ◌==◌, ltb, if◌then◌else◌, Option, none, some,
  List, [], ◌∷◌, String, length,
}
use container_advanced_netwo.Common.Map.{Map}
use container_advanced_netwo.Net.{NetIp, IpNet}
use container_advanced_netwo.Ipam.Base.{Result, ok, err, fails}
use container_advanced_netwo.Ipam.Types.{
  NetworkType, underlay, overlay, global_bgp, other_type, IpFamilyMode, dual_stack, other_mode,
}
use container_advanced_netwo.Ipam.Types
use container_advanced_netwo.AddressRange.{is_empty, IpVersion, ipv4, ipv6}
use container_advanced_netwo.Api.{
  IpInstance, NetworkObject, get_network_type, same_type, is_ipv6_instance,
}
use container_advanced_netwo.Webhook.Refusal.{found, not_found, failed}
use container_advanced_netwo.Pods.Texts.{
  Texts, same_text, transfer_pod_name_for_label_value, parse_bool_or_default,
  parse_ip_family_from_string, parse_network_type_from_string,
}
use container_advanced_netwo.Pods.Types.{Pod, value_of, first_of, own_by_stateful_workload}
use container_advanced_netwo.Pods.Controller.{allocated_instances}
use container_advanced_netwo.Pods.Strategy.{Metadata, Lookups, vm_of_pod}

-- What ParseNetworkConfigOfPodByPriority returns.
pub record NetworkConfig : Type 0 where
  pub network : String
  pub subnets : String
  pub type : NetworkType
  pub family : IpFamilyMode
  pub node_selector : Map String
  pub retained : Bool

-- What is known of the config before the defaults: the empty text, or none, where nothing is.
pub record Elected : Type 0 where
  pub network : String
  pub subnets : String
  pub type_text : String
  pub family_text : String

abbrev pub nothing_elected : Elected
nothing_elected = record { network = ""; subnets = ""; type_text = ""; family_text = "" }

unfoldable pub elected : Elected → Bool
elected e =
    not (is_empty e.network)
    || not (is_empty e.subnets)
    || not (is_empty e.type_text)
    || not (is_empty e.family_text)

-- IsValidFamilyMode and IsValidNetworkType.
unfoldable pub is_valid_family_mode : IpFamilyMode → Bool
is_valid_family_mode (other_mode _) = false
is_valid_family_mode _ = true

unfoldable pub is_valid_network_type : NetworkType → Bool
is_valid_network_type (other_type _) = false
is_valid_network_type _ = true

-- The version that a subnet is to have at its place in a list of two.
unfoldable pub has_version : ℕ → IpVersion → Bool
has_version zero ipv4 = true
has_version zero _ = false
has_version (suc _) ipv6 = true
has_version (suc _) _ = false

-- The one network of the subnets.
unfoldable pub join_network : String → String → Result String
join_network known network =
    if is_empty known
    then ok network
    else if same_text known network
    then ok known
    else err (fails 20)

module _ (x : Texts) (look : Lookups) where
  -- specifiedSubnetStrToSubnetNames.
  unfoldable pub specified_subnet_str_to_subnet_names : String → List String
  specified_subnet_str_to_subnet_names text = if is_empty text then [] else x.split text "/"

  -- SubnetNameBelongsToSpecifiedSubnets.
  unfoldable pub is_among : String → List String → Bool
  is_among name [] = false
  is_among name (n ∷ ns) = same_text name n || is_among name ns

  unfoldable pub subnet_name_belongs_to_specified_subnets : String → String → Bool
  subnet_name_belongs_to_specified_subnets name text =
      is_among name (specified_subnet_str_to_subnet_names text)

  -- The loop over the subnets of SelectNetworkAndSubnetFromObject.
  unfoldable pub network_of_subnets : Bool → ℕ → List String → String → Result String
  network_of_subnets two index [] known = ok known
  network_of_subnets two index (name ∷ names) known = elim (look.subnet name) [
    | not_found ↦ err (fails 21)
    | failed ↦ err (fails 21)
    | found s ↦
        if two && not (has_version index s.range.version)
        then err (fails 22)
        else elim (join_network known s.network) [
          | err e ↦ err e
          | ok known' ↦ network_of_subnets two (suc index) names known'
        ]
  ]

  -- The network of an object and that of its subnets.
  unfoldable pub agree : String → String → Result String
  agree network from_subnets =
      if is_empty from_subnets then ok network else join_network network from_subnets

  -- SelectNetworkAndSubnetFromObject.
  unfoldable pub select_network_and_subnet_from_object : Metadata → Result (String × String)
  select_network_and_subnet_from_object m =
      let network =
        first_of (value_of "networking.alibaba.com/specified-network" m.annotations)
          (value_of "networking.alibaba.com/specified-network" m.labels) in
      let subnets =
        first_of (value_of "networking.alibaba.com/specified-subnet" m.annotations)
          (value_of "networking.alibaba.com/specified-subnet" m.labels) in
      let names = specified_subnet_str_to_subnet_names subnets in
      if ltb 2 (length names)
      then err (fails 23)
      else elim (network_of_subnets (length names == 2) 0 names "") [
        | err e ↦ err e
        | ok from_subnets ↦ elim (agree network from_subnets) [
          | err e ↦ err e
          | ok name ↦ ok (name, subnets)
        ]
      ]

  -- What fetchFromObject sets.
  abbrev pub fetched : Metadata → String → String → Elected
  fetched m network subnets = record {
    network = network;
    subnets = subnets;
    type_text =
        first_of (value_of "networking.alibaba.com/network-type" m.annotations)
          (value_of "networking.alibaba.com/network-type" m.labels);
    family_text = value_of "networking.alibaba.com/ip-family" m.annotations;
  }

  -- fetchFromObject.
  unfoldable pub fetch_from_object : Metadata → Result Elected
  fetch_from_object m = elim (select_network_and_subnet_from_object m) [
    | err e ↦ err e
    | ok (network, subnets) ↦ ok (fetched m network subnets)
  ]

  -- The second and the third priority.
  unfoldable pub fetch_by_priority : Pod → Result Elected
  fetch_by_priority pod =
      elim (fetch_from_object (record { annotations = pod.annotations; labels = pod.labels })) [
        | err e ↦ err e
        | ok e ↦ if elected e then ok e else elim (look.namespace pod.namespace) [
          | found m ↦ fetch_from_object m
          | not_found ↦ err (fails 24)
          | failed ↦ err (fails 24)
        ]
      ]

  -- The family: that of the instances, or the one of the text.
  unfoldable pub family_of : Option IpFamilyMode → String → IpFamilyMode
  family_of (some family) text = family
  family_of none text = parse_ip_family_from_string x text

  -- ParseNetworkTypeFromString of the text of a type.
  unfoldable pub type_of_network : NetworkType → NetworkType
  type_of_network (other_type s) = parse_network_type_from_string x s
  type_of_network underlay = parse_network_type_from_string x "Underlay"
  type_of_network overlay = parse_network_type_from_string x "Overlay"
  type_of_network global_bgp = parse_network_type_from_string x "GlobalBGP"

  -- The type is that of the network.
  unfoldable pub matching : NetworkType → NetworkObject → Result NetworkType
  matching type n = if same_type type (get_network_type n) then ok type else err (fails 25)

  -- The type, where a network is named: an empty text means the type of the network.
  unfoldable pub type_of : String → NetworkObject → Result NetworkType
  type_of text n =
      matching
        (if is_empty text
          then type_of_network (get_network_type n)
          else parse_network_type_from_string x text)
        n

  -- The checks at the end.
  unfoldable pub valid_config : NetworkConfig → Result NetworkConfig
  valid_config c =
      if not (is_valid_family_mode c.family)
      then err (fails 26)
      else if not (is_valid_network_type c.type)
      then err (fails 27)
      else ok c

  -- The config of what is elected, before the network is read.
  abbrev pub config_from : Elected → Option IpFamilyMode → Bool → NetworkConfig
  config_from e family retained = record {
    network = e.network;
    subnets = e.subnets;
    type = parse_network_type_from_string x e.type_text;
    family = family_of family e.family_text;
    node_selector = [];
    retained = retained;
  }

  -- From what is elected to the config.
  unfoldable pub complete : Elected → Option IpFamilyMode → Bool → Result NetworkConfig
  complete e family retained =
      if is_empty e.network
      then valid_config (config_from e family retained)
      else elim (look.network e.network) [
        | not_found ↦ err (fails 28)
        | failed ↦ err (fails 28)
        | found n ↦ elim (type_of e.type_text n) [
          | err y ↦ err y
          | ok type ↦ valid_config (record (config_from e family retained) {
            type = type;
            node_selector = n.node_selector;
          })
        ]
      ]

  module _ (kinds : List String) (parse_cidr : String → Option (NetIp × IpNet)) where
    -- The network of the last instance of a list.
    unfoldable pub last_network : List IpInstance → String
    last_network [] = ""
    last_network (i ∷ []) = i.network
    last_network (i ∷ (j ∷ is)) = last_network (j ∷ is)

    -- The switch of parseNetworkConfigByExistIPInstances over the number of the instances.
    unfoldable pub family_of_instances : List IpInstance → Result (Option IpFamilyMode)
    family_of_instances [] = ok none
    family_of_instances (i ∷ []) =
        ok (some (if is_ipv6_instance parse_cidr i then Types.ipv6 else Types.ipv4))
    family_of_instances (i ∷ (j ∷ [])) =
        if is_ipv6_instance parse_cidr i
        then (if is_ipv6_instance parse_cidr j then err (fails 29) else ok (some dual_stack))
        else (if is_ipv6_instance parse_cidr j then ok (some dual_stack) else err (fails 29))
    family_of_instances (i ∷ (j ∷ (k ∷ is))) = err (fails 30)

    -- parseNetworkConfigByExistIPInstances, of the list that was read.
    unfoldable pub config_of_instances :
        Result (List IpInstance) → Result (String × Option IpFamilyMode)
    config_of_instances (err e) = err e
    config_of_instances (ok l) = elim (family_of_instances (allocated_instances l)) [
      | err e ↦ err e
      | ok family ↦ ok (last_network (allocated_instances l), family)
    ]

    module _ (of_pod of_vm : String → String → Result (List IpInstance)) where
      -- The first priority: the instances of a stateful pod, or of a VM.
      unfoldable pub retained_config : Pod → Result (String × Option IpFamilyMode)
      retained_config pod =
          if own_by_stateful_workload kinds pod.controller
          then (if parse_bool_or_default x
                (value_of "networking.alibaba.com/ip-retain" pod.annotations) look.default_ip_retain
              then config_of_instances
                  (of_pod (transfer_pod_name_for_label_value x pod.name) pod.namespace)
              else ok ("", none))
          else if not look.vm_ip_retain
          then ok ("", none)
          else elim (vm_of_pod look pod) [
            | err e ↦ err e
            | ok none ↦ ok ("", none)
            | ok (some vm) ↦ config_of_instances (of_vm vm.name pod.namespace)
          ]

      -- ParseNetworkConfigOfPodByPriority.
      unfoldable pub parse_network_config_of_pod_by_priority : Pod → Result NetworkConfig
      parse_network_config_of_pod_by_priority pod = elim (retained_config pod) [
        | err e ↦ err e
        | ok (network, family) ↦
            if not (is_empty network)
            then complete (record nothing_elected { network = network }) family true
            else elim (fetch_by_priority pod) [ err e ↦ err e | ok e ↦ complete e family false ]
      ]
