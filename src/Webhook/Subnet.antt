-- ===== src/Webhook/Subnet.antt =====
-- pkg/webhook/validating/subnet.go: creation, update and deletion of a Subnet object; and
-- remotesubnet.go.
pub mod Apart
use container_advanced_netwo.Common.{
  ℕ, zero, suc, ◌+◌, Bool, true, false, not, ◌&&◌, ◌||◌, ◌==◌, ltb, Option, none, some, List, [],
  ◌∷◌, String, elem,
}
use container_advanced_netwo.Net.{NetIp, IpNet, IpText}
use container_advanced_netwo.Ipam.Base.{Error, ok, err, panics}
use container_advanced_netwo.Ipam.Types.{Subnet}
use container_advanced_netwo.Ipam.Subnet.{canonicalize, overlap}
use container_advanced_netwo.AddressRange.{
  AddressRange, other_version, is_empty, validate_address_range, intersect,
}
use container_advanced_netwo.Api.{
  NetworkObject, SubnetObject, SubnetConfig, NetworkMode, mode_vxlan, mode_vlan, mode_bgp,
  mode_global_bgp, other_mode, get_network_mode, calculate_capacity,
}
use container_advanced_netwo.Api.Transform.{transfer_subnet}
use container_advanced_netwo.Webhook.Refusal.{
  Refusal, errored, panicked, no_net_id, net_id_set, no_parent, parent_not_found,
  inconsistent_net_id, auto_nat_set, no_gateway, invalid_range, too_large, cidr_overlapped,
  same_cidr_elsewhere, overlapped, remote_overlapped, not_canonical, parent_changed, start_changed,
  end_changed, gateway_changed, cidr_changed, excluded_changed, net_id_changed, still_used, Reads,
  Read, found, not_found, failed, ◌then_check◌, refuse_if,
}
use container_advanced_netwo.Webhook.Network.{is_none, no_items, same_text, same_net_id}

-- subnet.Spec.Config.AutoNatOutgoing is set.
abbrev pub sets_auto_nat : SubnetObject → Bool
sets_auto_nat s = elim s.config [ none ↦ false | some c ↦ not (is_none c.auto_nat_outgoing) ]

-- The tests on the net IDs of a subnet in a VLAN network.
unfoldable pub check_vlan_net_id : Option ℕ → Option ℕ → Option Refusal
check_vlan_net_id none none = some no_net_id
check_vlan_net_id none (some _) = none
check_vlan_net_id (some _) none = none
check_vlan_net_id (some a) (some b) = refuse_if (not (a == b)) inconsistent_net_id

-- The switch of SubnetCreateValidation over the mode of the parent network.
unfoldable pub create_in : NetworkMode → NetworkObject → SubnetObject → Option Refusal
create_in mode_vlan n s =
    check_vlan_net_id s.net_id n.net_id
    then_check refuse_if (sets_auto_nat s) auto_nat_set
    then_check refuse_if (is_empty s.range.gateway) no_gateway
create_in mode_bgp n s =
    refuse_if (not (is_none s.net_id)) net_id_set
    then_check refuse_if (sets_auto_nat s) auto_nat_set
create_in mode_global_bgp n s =
    refuse_if (not (is_none s.net_id)) net_id_set
    then_check refuse_if (sets_auto_nat s) auto_nat_set
create_in mode_vxlan n s = refuse_if (not (is_none s.net_id)) net_id_set
create_in (other_mode _) n s = none

-- The switch of SubnetUpdateValidation over the mode of the parent network.
unfoldable pub update_in : NetworkMode → SubnetObject → SubnetObject → Option Refusal
update_in mode_vlan old new =
    refuse_if (not (same_net_id old.net_id new.net_id)) net_id_changed
    then_check refuse_if (sets_auto_nat new) auto_nat_set
update_in mode_vxlan old new = refuse_if (not (is_none new.net_id)) net_id_set
update_in mode_bgp old new =
    refuse_if (not (is_none new.net_id)) net_id_set
    then_check refuse_if (sets_auto_nat new) auto_nat_set
update_in mode_global_bgp old new =
    refuse_if (not (is_none new.net_id)) net_id_set
    then_check refuse_if (sets_auto_nat new) auto_nat_set
update_in (other_mode _) old new = none

-- The first removal of a text from a list.
unfoldable pub remove_one : String → List String → Option (List String)
remove_one x [] = none
remove_one x (y ∷ ys) = elim (same_text x y) [
  | true ↦ some ys
  | false ↦ elim (remove_one x ys) [ none ↦ none | some rest ↦ some (y ∷ rest) ]
]

-- DeepEqualStringSlice of pkg/utils/slice.go: equal once sorted, which is to have the same texts as
-- often.
unfoldable pub deep_equal_string_slice : List String → List String → Bool
deep_equal_string_slice [] [] = true
deep_equal_string_slice [] (_ ∷ _) = false
deep_equal_string_slice (x ∷ xs) ys = elim (remove_one x ys) [
  | none ↦ false
  | some rest ↦ deep_equal_string_slice xs rest
]

-- MaxSubnetCapacity.
abbrev pub max_subnet_capacity : ℕ
max_subnet_capacity = 65536

-- An address range with no more than a CIDR.
abbrev pub only_cidr : String → AddressRange
only_cidr text = record {
  version = other_version "";
  start = "";
  end = "";
  cidr = text;
  gateway = "";
  reserved_ips = [];
  exclude_ips = [];
}

-- A failure of Canonicalize of the new subnet, and of an existing one; a panic is one of the handler.
unfoldable pub canonical_refusal : Error → Refusal
canonical_refusal panics = panicked
canonical_refusal e = not_canonical e

unfoldable pub skip_unless_panic : Error → Option Refusal
skip_unless_panic panics = some panicked
skip_unless_panic _ = none

-- `fuel` bounds the loops of Intersect: where they do not end within it, the answer counts as a
-- panic.
module _ (t : IpText) (parse_cidr : String → Option (NetIp × IpNet)) (fuel : ℕ) where
  unfoldable pub check_range : AddressRange → Option Refusal
  check_range range = elim (validate_address_range t parse_cidr range) [
    | none ↦ none
    | some e ↦ some (invalid_range e)
  ]

  unfoldable pub check_capacity : AddressRange → Option Refusal
  check_capacity range = elim (calculate_capacity parse_cidr t range) [
    | none ↦ some panicked
    | some (size, excluded) ↦ refuse_if (ltb (max_subnet_capacity + excluded) size) too_large
  ]

  -- Intersect as a check, with the refusal where the ranges meet.
  unfoldable pub check_apart : AddressRange → AddressRange → Refusal → Option Refusal
  check_apart a b refusal = elim (intersect t parse_cidr fuel a b) [
    | none ↦ some panicked
    | some meet ↦ refuse_if meet refusal
  ]

  -- The comparison of two CIDRs with the one text or with another.
  unfoldable pub check_cidr : SubnetObject → SubnetObject → Option Refusal
  check_cidr s other = elim (same_text s.range.cidr other.range.cidr) [
    | true ↦ refuse_if (not (same_text s.network other.network)) same_cidr_elsewhere
    | false ↦ check_apart (only_cidr s.range.cidr) (only_cidr other.range.cidr) cidr_overlapped
  ]

  -- The comparison with an existing subnet, where that one can be made canonical.
  unfoldable pub check_overlap : Subnet → SubnetObject → Option Refusal
  check_overlap ipam other = elim (transfer_subnet t parse_cidr other) [
    | none ↦ some panicked
    | some compared ↦ elim (canonicalize compared) [
      | ok c ↦ refuse_if (overlap t c ipam) overlapped
      | err e ↦ skip_unless_panic e
    ]
  ]

  -- The loop of SubnetCreateValidation over the existing subnets.
  unfoldable pub check_others : SubnetObject → Subnet → List SubnetObject → Option Refusal
  check_others s ipam [] = none
  check_others s ipam (other ∷ others) =
      check_cidr s other then_check check_overlap ipam other then_check check_others s ipam others

  unfoldable pub check_remotes : AddressRange → List AddressRange → Option Refusal
  check_remotes range [] = none
  check_remotes range (other ∷ others) =
      check_apart range other remote_overlapped then_check check_remotes range others

  unfoldable pub check_remote_subnets : Reads → SubnetObject → Option Refusal
  check_remote_subnets r s = elim r.multi_cluster [
    | false ↦ none
    | true ↦ elim r.remote_subnets [
      | none ↦ some errored
      | some others ↦ check_remotes s.range others
    ]
  ]

  unfoldable pub check_canonical : Reads → SubnetObject → Option Refusal
  check_canonical r s = elim (transfer_subnet t parse_cidr s) [
    | none ↦ some panicked
    | some raw ↦ elim (canonicalize raw) [
      | err e ↦ some (canonical_refusal e)
      | ok ipam ↦ elim r.subnets [ none ↦ some errored | some others ↦ check_others s ipam others ]
    ]
  ]

  -- SubnetCreateValidation, past the read of the parent network.
  unfoldable pub create_under : Reads → SubnetObject → NetworkObject → Option Refusal
  create_under r s n =
      create_in (get_network_mode n) n s
      then_check check_range s.range
      then_check check_capacity s.range
      then_check check_canonical r s
      then_check check_remote_subnets r s

  -- The read of the parent network.
  unfoldable pub create_with : Reads → SubnetObject → Read NetworkObject → Option Refusal
  create_with r s (found n) = create_under r s n
  create_with r s not_found = some parent_not_found
  create_with r s failed = some errored

  -- SubnetCreateValidation.
  unfoldable pub subnet_create : Reads → SubnetObject → Option Refusal
  subnet_create r s =
      refuse_if (is_empty s.network) no_parent then_check create_with r s (r.network s.network)

  -- The last tests of SubnetUpdateValidation: the range stays.
  unfoldable pub same_range : AddressRange → AddressRange → Option Refusal
  same_range old new =
      refuse_if (not (same_text old.start new.start)) start_changed
      then_check refuse_if (not (same_text old.end new.end)) end_changed
      then_check refuse_if (not (same_text old.gateway new.gateway)) gateway_changed
      then_check refuse_if (not (same_text old.cidr new.cidr)) cidr_changed
      then_check refuse_if (not (deep_equal_string_slice old.exclude_ips new.exclude_ips))
          excluded_changed

  -- SubnetUpdateValidation.
  unfoldable pub subnet_update : Reads → SubnetObject → SubnetObject → Option Refusal
  subnet_update r old new =
      refuse_if (not (same_text old.network new.network)) parent_changed
      then_check (elim (r.network new.network) [
        | found n ↦ update_in (get_network_mode n) old new
        | _ ↦ some errored
      ])
      then_check check_range new.range
      then_check same_range old.range new.range

  -- SubnetDeleteValidation.
  unfoldable pub subnet_delete : Reads → String → Option Refusal
  subnet_delete r name = elim (r.subnet name) [
    | found s ↦ elim (r.instances_of_subnet s.name) [
      | none ↦ some errored
      | some instances ↦ refuse_if (not (no_items instances)) still_used
    ]
    | _ ↦ some errored
  ]

  -- The loop of RemoteSubnetCreateValidation over the subnets of the cluster.
  unfoldable pub check_locals : AddressRange → List SubnetObject → Option Refusal
  check_locals range [] = none
  check_locals range (s ∷ ss) =
      check_apart range s.range overlapped then_check check_locals range ss

  -- RemoteSubnetCreateValidation of remotesubnet.go.
  unfoldable pub remote_subnet_create : Reads → AddressRange → Option Refusal
  remote_subnet_create r range =
      (elim r.subnets [ none ↦ some errored | some locals ↦ check_locals range locals ])
      then_check (elim r.remote_subnets [
        | none ↦ some errored
        | some others ↦ check_remotes range others
      ])
