-- ===== src/Webhook/Cluster.antt =====
-- The Network and Subnet objects that the API server keeps, over any history of requests that the
-- webhooks allow. A request is checked against the objects that are there, one at a time.
pub mod Invariant
use container_advanced_netwo.Common.{
  ◌≡◌, ◌≢◌, refl, sym, subst, ap, ◌∙◌, ◌⊎◌, inl, inr, Bool, true, false, Option, none, some, List,
  [], ◌∷◌, String, arith, str_dec, if_pos, if_neg, ite, Bool-cases, Option-cases, ℕ,
}
use container_advanced_netwo.Common.Map
use container_advanced_netwo.Common.Map.{Map}
use container_advanced_netwo.Net.{NetIp, IpNet, IpText}
use container_advanced_netwo.Ipam.Types.{NetworkType, overlay, global_bgp}
use container_advanced_netwo.Api.{NetworkObject, SubnetObject, get_network_type, get_network_mode}
use container_advanced_netwo.Webhook.Refusal.{Reads, found}
use container_advanced_netwo.Webhook.Network.{
  network_create, network_update, network_delete, has_child,
}
use container_advanced_netwo.Webhook.Network.Rules.{
  Member, Ruled, Keeps, network_create-Ruled, network_update-Ruled, network_update-Keeps,
  network_create_unique, find_type-none,
}
use container_advanced_netwo.Webhook.Subnet.{subnet_create, subnet_update, subnet_delete}
use container_advanced_netwo.Webhook.Subnet.Apart.{
  Listed, CidrApart, Kept, Created, subnet_create-Created, subnet_update-Kept,
}

-- The objects by their names.
pub record Cluster : Type 0 where
  pub networks : Map NetworkObject
  pub subnets : Map SubnetObject

-- The objects differ in their statuses at most.
abbrev pub SameSpec : NetworkObject → NetworkObject → Type 0
SameSpec old n = n ≡ record old {
  last_allocated_subnet = n.last_allocated_subnet;
  last_allocated_ipv6_subnet = n.last_allocated_ipv6_subnet;
  node_list = n.node_list;
  statistics = n.statistics;
  ipv6_statistics = n.ipv6_statistics;
  dual_stack_statistics = n.dual_stack_statistics;
}

-- A read that succeeds shows every object, and no network that is not there.
pub record Sees (r : Reads) (c : Cluster) : Type 0 where
  pub networks_shown :
      (l : List NetworkObject) (k : String) (n : NetworkObject)
      → r.networks ≡ some l
      → Map.get k c.networks ≡ some n
      → Member n l
  pub subnets_shown :
      (l : List SubnetObject) (k : String) (s : SubnetObject)
      → r.subnets ≡ some l
      → Map.get k c.subnets ≡ some s
      → Listed s l
  pub network_there :
      (k : String) (n : NetworkObject) → r.network k ≡ found n → Map.get k c.networks ≡ some n

module _ (t : IpText) (parse_cidr : String → Option (NetIp × IpNet)) (fuel : ℕ) where
  -- A request that the webhooks allow, or an update of a status, which they do not see.
  pub data Step : Cluster → Cluster → Type 0 where
    network_created :
        {c : Cluster} (r : Reads) (n : NetworkObject)
        → Sees r c
        → Map.get n.name c.networks ≡ none
        → network_create t r n ≡ none
        → Step c (record c { networks = Map.put n.name n c.networks })
    network_updated :
        {c : Cluster} (old n : NetworkObject)
        → Map.get n.name c.networks ≡ some old
        → network_update t old n ≡ none
        → Step c (record c { networks = Map.put n.name n c.networks })
    network_status :
        {c : Cluster} (old n : NetworkObject)
        → Map.get n.name c.networks ≡ some old
        → SameSpec old n
        → Step c (record c { networks = Map.put n.name n c.networks })
    network_deleted :
        {c : Cluster} (r : Reads) (name : String)
        → Sees r c
        → network_delete r name ≡ none
        → Step c (record c { networks = Map.delete name c.networks })
    subnet_created :
        {c : Cluster} (r : Reads) (s : SubnetObject)
        → Sees r c
        → Map.get s.name c.subnets ≡ none
        → subnet_create t parse_cidr fuel r s ≡ none
        → Step c (record c { subnets = Map.put s.name s c.subnets })
    subnet_updated :
        {c : Cluster} (r : Reads) (old s : SubnetObject)
        → Map.get s.name c.subnets ≡ some old
        → subnet_update t parse_cidr fuel r old s ≡ none
        → Step c (record c { subnets = Map.put s.name s c.subnets })
    subnet_deleted :
        {c : Cluster} (r : Reads) (name : String)
        → subnet_delete t parse_cidr fuel r name ≡ none
        → Step c (record c { subnets = Map.delete name c.subnets })

  pub data Steps : Cluster → Cluster → Type 0 where
    none_left : {c : Cluster} → Steps c c
    next_step : {a b c : Cluster} → Step a b → Steps b c → Steps a c

  -- The well-formed clusters: each network meets the rules of its type and mode, there is at most one
  -- overlay and one global BGP network, the parent of a subnet is there, and two subnets are apart.
  pub record IsCluster (c : Cluster) : Type 0 where
    pub named : (k : String) (n : NetworkObject) → Map.get k c.networks ≡ some n → n.name ≡ k
    pub ruled : (k : String) (n : NetworkObject) → Map.get k c.networks ≡ some n → Ruled t n
    pub unique :
        (ty : NetworkType) (j k : String) (m n : NetworkObject)
        → (ty ≡ overlay) ⊎ (ty ≡ global_bgp)
        → Map.get j c.networks ≡ some m
        → Map.get k c.networks ≡ some n
        → get_network_type m ≡ ty
        → get_network_type n ≡ ty
        → j ≡ k
    pub parented :
        (k : String) (s : SubnetObject)
        → Map.get k c.subnets ≡ some s
        → (n : NetworkObject) × (Map.get s.network c.networks ≡ some n)
    pub apart :
        (j k : String) (a b : SubnetObject)
        → j ≢ k
        → Map.get j c.subnets ≡ some a
        → Map.get k c.subnets ≡ some b
        → CidrApart t parse_cidr fuel a b ⊎ CidrApart t parse_cidr fuel b a
