-- ===== src/Webhook/Network.antt =====
-- pkg/webhook/validating/network.go: creation, update and deletion of a Network object.
pub mod Rules
use container_advanced_netwo.Common.{
  ℕ, Bool, true, false, not, ◌&&◌, ◌||◌, ◌==◌, Option, none, some, List, [], ◌∷◌, String, elem, ite,
  str_dec,
}
use container_advanced_netwo.Common.Map.{Map}
use container_advanced_netwo.Net.{is_nil, IpText}
use container_advanced_netwo.Ipam.Types.{NetworkType, underlay, overlay, global_bgp, other_type}
use container_advanced_netwo.Api.{
  NetworkObject, SubnetObject, BgpPeer, NetworkMode, mode_vxlan, mode_vlan, mode_bgp,
  mode_global_bgp, other_mode, get_network_type, get_network_mode, same_type, same_mode,
}
use container_advanced_netwo.Webhook.Refusal.{
  Refusal, errored, panicked, no_node_selector, underlay_overlapped, second_overlay,
  second_global_bgp, node_selector_set, no_net_id, net_id_set, unknown_type, wrong_mode,
  unknown_mode, no_bgp_router, invalid_peer, no_asn, type_changed, mode_changed, net_id_changed,
  has_child_subnet, has_remote_cluster, global_bgp_in_use, Reads, Read, found, not_found, failed,
  ◌then_check◌, refuse_if,
}

abbrev pub is_none {ℓ} : {A : Type ℓ} → Option A → Bool
is_none none = true
is_none (some _) = false

abbrev pub no_items {ℓ} : {A : Type ℓ} → List A → Bool
no_items [] = true
no_items (_ ∷ _) = false

abbrev pub same_text : String → String → Bool
same_text a b = ite (str_dec a b) true false

-- The loop of checkNetworkTypeExist: the name of the first network of the type.
unfoldable pub find_type : NetworkType → List NetworkObject → Option String
find_type ty [] = none
find_type ty (n ∷ ns) =
    let rest = find_type ty ns in
    elim (same_type (get_network_type n) ty) [ true ↦ some n.name | false ↦ rest ]

-- ListActiveNodesToNames: a node that is being deleted leaves an empty name.
unfoldable pub active_names : List (String × Bool) → List String
active_names [] = []
active_names ((name, deleted) ∷ nodes) =
    (elim deleted [ true ↦ "" | false ↦ name ]) ∷ active_names nodes

unfoldable pub any_elem : List String → List String → Bool
any_elem [] names = false
any_elem (x ∷ xs) names = elem x names || any_elem xs names

-- The loop of checkUnderlayNetworkOverlapped.
unfoldable pub meets_underlay : String → List String → List NetworkObject → Bool
meets_underlay name nodes [] = false
meets_underlay name nodes (n ∷ ns) =
    (same_type (get_network_type n) underlay
      && (not (same_text n.name name) && any_elem n.node_list nodes))
    || meets_underlay name nodes ns

-- checkUnderlayNetworkOverlapped, `none` where a read fails.
unfoldable pub underlay_meets : Reads → NetworkObject → Option Bool
underlay_meets r n = elim r.networks [
  | none ↦ none
  | some networks ↦ elim (r.nodes n.node_selector) [
    | none ↦ none
    | some nodes ↦ some (meets_underlay n.name (active_names nodes) networks)
  ]
]

-- The check that no network of the type is there.
unfoldable pub check_unique : Reads → NetworkType → Refusal → Option Refusal
check_unique r ty refusal = elim r.networks [
  | none ↦ some errored
  | some networks ↦ elim (find_type ty networks) [ none ↦ none | some _ ↦ some refusal ]
]

unfoldable pub check_underlay : Reads → NetworkObject → Option Refusal
check_underlay r n = elim (underlay_meets r n) [
  | none ↦ some errored
  | some b ↦ refuse_if b underlay_overlapped
]

-- The switch of NetworkCreateValidation over the type.
unfoldable pub create_type : Reads → NetworkObject → NetworkType → Option Refusal
create_type r n underlay =
    refuse_if (no_items n.node_selector) no_node_selector then_check check_underlay r n
create_type r n overlay =
    check_unique r overlay second_overlay
    then_check refuse_if (not (no_items n.node_selector)) node_selector_set
    then_check refuse_if (is_none n.net_id) no_net_id
create_type r n global_bgp =
    check_unique r global_bgp second_global_bgp
    then_check refuse_if (not (no_items n.node_selector)) node_selector_set
    then_check refuse_if (not (is_none n.net_id)) net_id_set
create_type r n (other_type _) = some unknown_type

-- The peers, `none` where the config is nil.
abbrev pub peers_of : NetworkObject → List BgpPeer
peers_of n = elim n.config [ none ↦ [] | some peers ↦ peers ]

-- The switch of NetworkUpdateValidation over the type.
unfoldable pub update_type : NetworkObject → NetworkType → Option Refusal
update_type n underlay = refuse_if (no_items n.node_selector) no_node_selector
update_type n overlay = refuse_if (not (no_items n.node_selector)) node_selector_set
update_type n global_bgp = refuse_if (not (no_items n.node_selector)) node_selector_set
update_type n (other_type _) = some unknown_type

unfoldable pub same_net_id : Option ℕ → Option ℕ → Bool
same_net_id none none = true
same_net_id (some a) (some b) = a == b
same_net_id none (some _) = false
same_net_id (some _) none = false

unfoldable pub has_child : String → List SubnetObject → Bool
has_child name [] = false
has_child name (s ∷ ss) = same_text s.network name || has_child name ss

unfoldable pub check_children : Reads → NetworkObject → Option Refusal
check_children r n = elim r.subnets [
  | none ↦ some errored
  | some subnets ↦ refuse_if (has_child n.name subnets) has_child_subnet
]

unfoldable pub check_remote : Reads → NetworkObject → Option Refusal
check_remote r n = elim (same_type (get_network_type n) overlay && r.multi_cluster) [
  | false ↦ none
  | true ↦ elim r.remote_clusters [
    | none ↦ some errored
    | some clusters ↦ refuse_if (not (no_items clusters)) has_remote_cluster
  ]
]

-- The loop over the nodes of a BGP network that is to be deleted.
unfoldable pub check_nodes : Reads → String → List String → Option Refusal
check_nodes r global [] = none
check_nodes r global (node ∷ nodes) =
    (elim (r.instances_of_node node global) [
      | none ↦ some errored
      | some instances ↦ refuse_if (not (no_items instances)) global_bgp_in_use
    ])
    then_check check_nodes r global nodes

unfoldable pub check_global_bgp : Reads → NetworkObject → NetworkMode → Option Refusal
check_global_bgp r n mode_bgp = elim r.networks [
  | none ↦ some errored
  | some networks ↦ elim (find_type global_bgp networks) [
    | none ↦ none
    | some global ↦ check_nodes r global n.node_list
  ]
]
check_global_bgp r n _ = none

-- The read of the network that is to be deleted.
unfoldable pub delete_with : Reads → Read NetworkObject → Option Refusal
delete_with r (found n) =
    check_children r n
    then_check check_remote r n
    then_check check_global_bgp r n (get_network_mode n)
delete_with r not_found = some errored
delete_with r failed = some errored

-- NetworkDeleteValidation.
unfoldable pub network_delete : Reads → String → Option Refusal
network_delete r name = delete_with r (r.network name)

module _ (t : IpText) where
  -- The loop over the BGP peers of a creation.
  unfoldable pub create_peers : List BgpPeer → Option Refusal
  create_peers [] = none
  create_peers (p ∷ ps) =
      refuse_if (is_nil (t.parse_ip p.address)) invalid_peer
      then_check refuse_if (p.asn == 0) no_asn
      then_check create_peers ps

  -- The switch of NetworkCreateValidation over the mode.
  unfoldable pub create_mode : NetworkObject → NetworkMode → Option Refusal
  create_mode n mode_bgp =
      refuse_if (not (same_type (get_network_type n) underlay)) wrong_mode
      then_check refuse_if (is_none n.net_id) no_net_id
      then_check refuse_if (no_items (peers_of n)) no_bgp_router
      then_check create_peers (peers_of n)
  create_mode n mode_vlan = refuse_if (not (same_type (get_network_type n) underlay)) wrong_mode
  create_mode n mode_vxlan = refuse_if (not (same_type (get_network_type n) overlay)) wrong_mode
  create_mode n mode_global_bgp =
      refuse_if (not (same_type (get_network_type n) global_bgp)) wrong_mode
  create_mode n (other_mode _) = some unknown_mode

  -- NetworkCreateValidation.
  unfoldable pub network_create : Reads → NetworkObject → Option Refusal
  network_create r n =
      create_type r n (get_network_type n) then_check create_mode n (get_network_mode n)

  unfoldable pub update_peers : List BgpPeer → Option Refusal
  update_peers [] = none
  update_peers (p ∷ ps) =
      refuse_if (is_nil (t.parse_ip p.address)) invalid_peer then_check update_peers ps

  -- The switch over the mode: the config is used without a test for nil.
  unfoldable pub update_mode : NetworkObject → NetworkMode → Option Refusal
  update_mode n mode_bgp = elim n.config [
    | none ↦ some panicked
    | some peers ↦ refuse_if (no_items peers) no_bgp_router then_check update_peers peers
  ]
  update_mode n mode_vlan = none
  update_mode n mode_vxlan = none
  update_mode n mode_global_bgp = none
  update_mode n (other_mode _) = some unknown_mode

  -- NetworkUpdateValidation.
  unfoldable pub network_update : NetworkObject → NetworkObject → Option Refusal
  network_update old new =
      refuse_if (not (same_type (get_network_type old) (get_network_type new))) type_changed
      then_check update_type new (get_network_type new)
      then_check refuse_if (not (same_mode old.spec_mode new.spec_mode)) mode_changed
      then_check update_mode new (get_network_mode new)
      then_check refuse_if (not (same_net_id old.net_id new.net_id)) net_id_changed
