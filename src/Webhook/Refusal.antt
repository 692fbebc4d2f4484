-- ===== src/Webhook/Refusal.antt =====
-- The answers of the validating webhooks, and what their handlers read of the cluster.
use container_advanced_netwo.Common.{
  Bool, true, false, Option, none, some, List, String, ◌≡◌, refl, arith,
}
use container_advanced_netwo.Common.Map.{Map}
use container_advanced_netwo.AddressRange.{AddressRange, RangeError}
use container_advanced_netwo.Ipam.Base.{Error}
use container_advanced_netwo.Api.{NetworkObject, SubnetObject}

-- One constructor for each refusal, a failed read of the cluster (`errored`) and a Go panic.
pub data Refusal : Type 0 where
  errored panicked : Refusal
  no_node_selector underlay_overlapped second_overlay second_global_bgp node_selector_set : Refusal
  no_net_id net_id_set unknown_type wrong_mode unknown_mode no_bgp_router : Refusal
  invalid_peer no_asn : Refusal
  type_changed mode_changed net_id_changed : Refusal
  has_child_subnet has_remote_cluster global_bgp_in_use : Refusal
  no_parent parent_not_found inconsistent_net_id auto_nat_set no_gateway : Refusal
  invalid_range : RangeError → Refusal
  too_large cidr_overlapped same_cidr_elsewhere overlapped remote_overlapped : Refusal
  not_canonical : Error → Refusal
  parent_changed start_changed end_changed gateway_changed cidr_changed excluded_changed : Refusal
  still_used : Refusal

-- An object that is read by its name.
pub data Read {ℓ} (A : Type ℓ) : Type ℓ where
  found : A → Read A
  not_found failed : Read A

-- The client of the handlers: what each read returns, `none` where it fails.
pub record Reads : Type 0 where
  pub networks : Option (List NetworkObject)
  pub subnets : Option (List SubnetObject)
  pub network : String → Read NetworkObject
  pub subnet : String → Read SubnetObject
  -- The nodes with the labels: the name, and whether the node is being deleted.
  pub nodes : Map String → Option (List (String × Bool))
  pub remote_clusters : Option (List String)
  pub remote_subnets : Option (List AddressRange)
  -- The names of the IP instances of a node in a network, and those of a subnet.
  pub instances_of_node : String → String → Option (List String)
  pub instances_of_subnet : String → Option (List String)
  pub multi_cluster : Bool

-- The answer of a handler is its first refusal; none means that the request is allowed.
infixr 6 ◌then_check◌
abbrev pub ◌then_check◌ : Option Refusal → Option Refusal → Option Refusal
none then_check rest = rest
some r then_check rest = some r

abbrev pub refuse_if : Bool → Refusal → Option Refusal
refuse_if true r = some r
refuse_if false r = none

pub refuse_if-none : (b : Bool) (r : Refusal) → refuse_if b r ≡ none → b ≡ false
refuse_if-none true r h = absurd (ground (arith, h))
refuse_if-none false r h = refl

-- Both checks passed.
pub then_check-none : (a b : Option Refusal) → (a then_check b) ≡ none → (a ≡ none) × (b ≡ none)
then_check-none none b h = (refl, h)
then_check-none (some r) b h = absurd (ground (arith, h))
