-- ===== src/Webhook/Cluster/Invariant.antt =====
-- That every history of requests which the webhooks allow keeps the cluster well-formed.
use container_advanced_netwo.Common.{
  ◌≡◌, ◌≢◌, refl, sym, subst, ap, ◌∙◌, ◌⊎◌, inl, inr, false, Option, none, some, List, [], ◌∷◌,
  String, arith, str_dec, if_pos, if_neg, ite, Option-cases, ℕ, All,
}
use container_advanced_netwo.Common.Map
use container_advanced_netwo.Common.Map.{Map}
use container_advanced_netwo.Net.{NetIp, IpNet, IpText}
use container_advanced_netwo.Ipam.Types.{NetworkType, underlay, overlay, global_bgp, other_type}
use container_advanced_netwo.Api.{NetworkObject, SubnetObject, get_network_type, get_network_mode}
use container_advanced_netwo.Webhook.Refusal.{
  Reads, found, has_child_subnet, refuse_if, ◌then_check◌, refuse_if-none, then_check-none,
}
use container_advanced_netwo.Webhook.Network.{
  network_create, network_delete, delete_with, check_children, check_remote, check_global_bgp,
  has_child, is_none, no_items, peers_of,
}
use container_advanced_netwo.Webhook.Network.Rules.{
  TypeRules, Parses, Ruled, network_create-Ruled, network_update-Ruled, network_update-Keeps,
  network_create_unique, find_type-none,
}
use container_advanced_netwo.Webhook.Subnet.{subnet_create, subnet_update}
use container_advanced_netwo.Webhook.Subnet.Apart.{
  Read-cases, Listed, CidrApart, subnet_create-Created, subnet_update-Kept,
}
use container_advanced_netwo.Webhook.Cluster.{
  Cluster, SameSpec, Sees, Step, network_created, network_updated, network_status, network_deleted,
  subnet_created, subnet_updated, subnet_deleted, Steps, none_left, next_step, IsCluster,
}

put_cases :
    {V : Type 0} (k name : String) (v x : V) (m : Map V)
    → Map.get k (Map.put name v m) ≡ some x
    → ((k ≡ name) × (v ≡ x)) ⊎ ((k ≢ name) × (Map.get k m ≡ some x))
put_cases {V} k name v x m h = pick (str_dec k name) (sym (Map.get-put k name v m) ∙ h)
  where
    pick :
        (d : Dec (k ≡ name))
        → ite d (some v) (Map.get k m) ≡ some x
        → ((k ≡ name) × (v ≡ x)) ⊎ ((k ≢ name) × (Map.get k m ≡ some x))
    pick (yes e) g = inl (e, cc)
    pick (no ne) g = inr (ne, g)

delete_cases :
    {V : Type 0} (k name : String) (x : V) (m : Map V)
    → Map.get k (Map.delete name m) ≡ some x
    → (k ≢ name) × (Map.get k m ≡ some x)
delete_cases {V} k name x m h = pick (str_dec k name) (sym (Map.get-delete k name m) ∙ h)
  where
    pick :
        (d : Dec (k ≡ name))
        → ite d none (Map.get k m) ≡ some x
        → (k ≢ name) × (Map.get k m ≡ some x)
    pick (yes e) g = absurd (ground (arith, g))
    pick (no ne) g = (ne, g)

-- A child of a network is found by the check of its deletion.
has_child-false :
    (name : String) (l : List SubnetObject) (s : SubnetObject)
    → has_child name l ≡ false
    → Listed s l
    → s.network ≢ name
unfolding has_child
has_child-false name [] s h there e = elim there [ ]
has_child-false name (x ∷ xs) s h there e = elim there [
  | inl here ↦ absurd (hit (ap (λ o. o.network) (sym here) ∙ e))
  | inr later ↦ has_child-false name xs s (ground (arith, h)) later e
]
  where
    hit : x.network ≡ name → ⊥
    hit same = ground (arith, h, same)

TypeRules-same :
    (ty : NetworkType) (old n : NetworkObject)
    → n.node_selector ≡ old.node_selector
    → n.net_id ≡ old.net_id
    → TypeRules ty old
    → TypeRules ty n
TypeRules-same underlay old n same_selector same_id v = ap no_items same_selector ∙ v
TypeRules-same overlay old n same_selector same_id v =
    (ap no_items same_selector ∙ v.0, ap is_none same_id ∙ v.1)
TypeRules-same global_bgp old n same_selector same_id v =
    (ap no_items same_selector ∙ v.0, ap is_none same_id ∙ v.1)
TypeRules-same (other_type _) old n same_selector same_id v = v

-- A network that may be deleted has no child in the list that was read.
network_delete-childless :
    (r : Reads) (name : String)
    → network_delete r name ≡ none
    → (n : NetworkObject) × (r.network name ≡ found n)
      × (l : List SubnetObject) × (r.subnets ≡ some l)
      × (has_child n.name l ≡ false)
unfolding network_delete delete_with check_children
network_delete-childless r name h = elim (Read-cases (r.network name)) [
  | inr (inl e) ↦ absurd (ground (arith, e, h))
  | inr (inr e) ↦ absurd (ground (arith, e, h))
  | inl (n, e) ↦
      let run : delete_with r (found n) ≡ none = subst (λ o. delete_with r o ≡ none) e h in
      let (a, _) =
        then_check-none (check_children r n)
          (check_remote r n then_check check_global_bgp r n (get_network_mode n)) run in
      elim (Option-cases r.subnets) [
        | inl f ↦ absurd (ground (arith, f, a))
        | inr (l, f) ↦
            let checked : check_children r n ≡ refuse_if (has_child n.name l) has_child_subnet =
              rw (f, check_children) refl in
            (n, e, l, f, refuse_if-none _ has_child_subnet (sym checked ∙ a))
      ]
]

module _ (t : IpText) (parse_cidr : String → Option (NetIp × IpNet)) (fuel : ℕ) where
  CidrApart-same :
      (a b a' b' : SubnetObject)
      → a'.range.cidr ≡ a.range.cidr
      → a'.network ≡ a.network
      → b'.range.cidr ≡ b.range.cidr
      → b'.network ≡ b.network
      → CidrApart t parse_cidr fuel a b
      → CidrApart t parse_cidr fuel a' b'
  CidrApart-same a b a' b' ca na cb nb apart = rw (ca, na, cb, nb) apart

  -- A network is put in: it meets the rules, and no other one is of its type where that is to be the
  -- only one.
  put_network-IsCluster :
      (c : Cluster) (n : NetworkObject)
      → IsCluster t parse_cidr fuel c
      → Ruled t n
      → ((ty : NetworkType) (j : String) (m : NetworkObject)
          → (ty ≡ overlay) ⊎ (ty ≡ global_bgp)
          → j ≢ n.name
          → Map.get j c.networks ≡ some m
          → get_network_type m ≡ ty
          → get_network_type n ≡ ty
          → ⊥)
      → IsCluster t parse_cidr fuel (record c { networks = Map.put n.name n c.networks })
  put_network-IsCluster c n v good alone = record {
    named = λ k m h. elim (put_cases k n.name n m c.networks h) [
      | inl (e, same) ↦ ap (λ o. o.name) (sym same) ∙ sym e
      | inr (_, old) ↦ v.named k m old
    ];
    ruled = λ k m h. elim (put_cases k n.name n m c.networks h) [
      | inl (_, same) ↦ subst (Ruled t) same good
      | inr (_, old) ↦ v.ruled k m old
    ];
    unique = unique;
    parented = λ k s h.
        let (m, there) = v.parented k s h in
        elim (str_dec s.network n.name) [
          | yes e ↦ (
            n,
            Map.get-put s.network n.name n c.networks ∙ if_pos (str_dec s.network n.name) e _ _,
          )
          | no ne ↦ (
            m,
            Map.get-put s.network n.name n c.networks
                ∙ if_neg (str_dec s.network n.name) ne _ _
                ∙ there,
          )
        ];
    apart = v.apart;
  }
    where
      unique :
          (ty : NetworkType) (j k : String) (a b : NetworkObject)
          → (ty ≡ overlay) ⊎ (ty ≡ global_bgp)
          → Map.get j (Map.put n.name n c.networks) ≡ some a
          → Map.get k (Map.put n.name n c.networks) ≡ some b
          → get_network_type a ≡ ty
          → get_network_type b ≡ ty
          → j ≡ k
      unique ty j k a b kind ha hb ea eb = elim (put_cases j n.name n a c.networks ha) [
        | inl (ej, na) ↦ elim (put_cases k n.name n b c.networks hb) [
          | inl (ek, nb) ↦ ej ∙ sym ek
          | inr (ne, old) ↦ absurd (alone ty k b kind ne old eb (ap get_network_type na ∙ ea))
        ]
        | inr (ne, old) ↦ elim (put_cases k n.name n b c.networks hb) [
          | inl (ek, nb) ↦ absurd (alone ty j a kind ne old ea (ap get_network_type nb ∙ eb))
          | inr (ne', old') ↦ v.unique ty j k a b kind old old' ea eb
        ]
      ]

  -- An object of the same type in the place of another.
  replaced_alone :
      (c : Cluster) (old n : NetworkObject)
      → IsCluster t parse_cidr fuel c
      → Map.get n.name c.networks ≡ some old
      → get_network_type n ≡ get_network_type old
      → (ty : NetworkType) (j : String) (m : NetworkObject) → (ty ≡ overlay) ⊎ (ty ≡ global_bgp)
      → j ≢ n.name
      → Map.get j c.networks ≡ some m
      → get_network_type m ≡ ty
      → get_network_type n ≡ ty
      → ⊥
  replaced_alone c old n v there same ty j m kind ne h em en =
      ne (v.unique ty j n.name m old kind h there em (sym same ∙ en))

  put_subnet-IsCluster :
      (c : Cluster) (s : SubnetObject)
      → IsCluster t parse_cidr fuel c
      → (n : NetworkObject) × (Map.get s.network c.networks ≡ some n)
      → ((k : String) (b : SubnetObject)
          → k ≢ s.name
          → Map.get k c.subnets ≡ some b
          → CidrApart t parse_cidr fuel s b ⊎ CidrApart t parse_cidr fuel b s)
      → IsCluster t parse_cidr fuel (record c { subnets = Map.put s.name s c.subnets })
  put_subnet-IsCluster c s v parent away = record {
    named = v.named;
    ruled = v.ruled;
    unique = v.unique;
    parented = λ k x h. elim (put_cases k s.name s x c.subnets h) [
      | inl (_, same) ↦
          subst (λ o. (n : NetworkObject) × (Map.get o.network c.networks ≡ some n)) same parent
      | inr (_, old) ↦ v.parented k x old
    ];
    apart = apart;
  }
    where
      apart :
          (j k : String) (a b : SubnetObject)
          → j ≢ k
          → Map.get j (Map.put s.name s c.subnets) ≡ some a
          → Map.get k (Map.put s.name s c.subnets) ≡ some b
          → CidrApart t parse_cidr fuel a b ⊎ CidrApart t parse_cidr fuel b a
      apart j k a b ne ha hb = elim (put_cases j s.name s a c.subnets ha) [
        | inl (ej, sa) ↦ elim (put_cases k s.name s b c.subnets hb) [
          | inl (ek, sb) ↦ absurd (ne (ej ∙ sym ek))
          | inr (nk, old) ↦
              subst (λ o. CidrApart t parse_cidr fuel o b ⊎ CidrApart t parse_cidr fuel b o) sa
                (away k b nk old)
        ]
        | inr (nj, old) ↦ elim (put_cases k s.name s b c.subnets hb) [
          | inl (ek, sb) ↦
              subst (λ o. CidrApart t parse_cidr fuel a o ⊎ CidrApart t parse_cidr fuel o a) sb
                (swap (away j a nj old))
          | inr (nk, old') ↦ v.apart j k a b ne old old'
        ]
      ]
        where
          swap : {P Q : Type 0} → P ⊎ Q → Q ⊎ P
          swap (inl p) = inr p
          swap (inr q) = inl q

  status-type : (old n : NetworkObject) → SameSpec old n → get_network_type n ≡ get_network_type old
  unfolding get_network_type
  status-type old n e = ap get_network_type e

  status-mode : (old n : NetworkObject) → SameSpec old n → get_network_mode n ≡ get_network_mode old
  unfolding get_network_type get_network_mode
  status-mode old n e = ap get_network_mode e

  -- A status does not change what the rules speak of.
  status-Ruled : (old n : NetworkObject) → SameSpec old n → Ruled t old → Ruled t n
  status-Ruled old n e v =
      let ty : get_network_type n ≡ get_network_type old = status-type old n e in
      let mode : get_network_mode n ≡ get_network_mode old = status-mode old n e in
      let id : n.net_id ≡ old.net_id = ap (λ o. o.net_id) e in
      let config : peers_of n ≡ peers_of old = ap peers_of e in
      record {
        mode_fits = rw (ty, mode) v.mode_fits;
        type_rules =
            subst (λ k. TypeRules k n) (sym ty)
              (TypeRules-same (get_network_type old) old n (ap (λ o. o.node_selector) e) id
                v.type_rules);
        bgp_net_id = λ f. ap is_none id ∙ v.bgp_net_id (sym mode ∙ f);
        bgp_peers = λ f.
            subst (λ l. (no_items l ≡ false) × All (Parses t) l) (sym config)
              (v.bgp_peers (sym mode ∙ f));
      }

  created_alone :
      (c : Cluster) (r : Reads) (n : NetworkObject)
      → Sees r c
      → network_create t r n ≡ none
      → (ty : NetworkType) (j : String) (m : NetworkObject) → (ty ≡ overlay) ⊎ (ty ≡ global_bgp)
      → j ≢ n.name
      → Map.get j c.networks ≡ some m
      → get_network_type m ≡ ty
      → get_network_type n ≡ ty
      → ⊥
  created_alone c r n sees ok ty j m kind ne h em en =
      let (l, e, free) =
        network_create_unique t r n (subst (λ k. (k ≡ overlay) ⊎ (k ≡ global_bgp)) (sym en) kind)
          ok in
      find_type-none (get_network_type n) l m free (sees.networks_shown l j m e h) (em ∙ sym en)

  delete_network-IsCluster :
      (c : Cluster) (name : String)
      → IsCluster t parse_cidr fuel c
      → ((k : String) (s : SubnetObject) → Map.get k c.subnets ≡ some s → s.network ≢ name)
      → IsCluster t parse_cidr fuel (record c { networks = Map.delete name c.networks })
  delete_network-IsCluster c name v childless = record {
    named = λ k m h. v.named k m (delete_cases k name m c.networks h).1;
    ruled = λ k m h. v.ruled k m (delete_cases k name m c.networks h).1;
    unique = λ ty j k a b kind ha hb.
        v.unique ty j k a b kind (delete_cases j name a c.networks ha).1
          (delete_cases k name b c.networks hb).1;
    parented = λ k s h.
        let (m, there) = v.parented k s h in
        (
          m,
          Map.get-delete s.network name c.networks
              ∙ if_neg (str_dec s.network name) (childless k s h) _ _
              ∙ there,
        );
    apart = v.apart;
  }

  deleted_childless :
      (c : Cluster) (r : Reads) (name : String)
      → IsCluster t parse_cidr fuel c
      → Sees r c
      → network_delete r name ≡ none
      → (k : String) (s : SubnetObject) → Map.get k c.subnets ≡ some s
      → s.network ≢ name
  deleted_childless c r name v sees ok k s h e =
      let (n, there, l, listed, no_child) = network_delete-childless r name ok in
      has_child-false n.name l s no_child (sees.subnets_shown l k s listed h)
        (e ∙ sym (v.named name n (sees.network_there name n there)))

  delete_subnet-IsCluster :
      (c : Cluster) (name : String)
      → IsCluster t parse_cidr fuel c
      → IsCluster t parse_cidr fuel (record c { subnets = Map.delete name c.subnets })
  delete_subnet-IsCluster c name v = record {
    named = v.named;
    ruled = v.ruled;
    unique = v.unique;
    parented = λ k s h. v.parented k s (delete_cases k name s c.subnets h).1;
    apart = λ j k a b ne ha hb.
        v.apart j k a b ne (delete_cases j name a c.subnets ha).1
          (delete_cases k name b c.subnets hb).1;
  }

  update_subnet-IsCluster :
      (c : Cluster) (r : Reads) (old s : SubnetObject)
      → Map.get s.name c.subnets ≡ some old
      → subnet_update t parse_cidr fuel r old s ≡ none
      → IsCluster t parse_cidr fuel c
      → IsCluster t parse_cidr fuel (record c { subnets = Map.put s.name s c.subnets })
  update_subnet-IsCluster c r old s there ok v =
      let ((same_network, _, _, _, same_cidr), _) =
        subnet_update-Kept t parse_cidr fuel r old s ok in
      put_subnet-IsCluster c s v
        (subst (λ k. (n : NetworkObject) × (Map.get k c.networks ≡ some n)) (sym same_network)
          (v.parented s.name old there))
        (λ k b ne h. elim (v.apart s.name k old b (λ e. ne (sym e)) there h) [
          | inl p ↦ inl (CidrApart-same old b s b same_cidr same_network refl refl p)
          | inr p ↦ inr (CidrApart-same b old b s refl refl same_cidr same_network p)
        ])

  create_subnet-IsCluster :
      (c : Cluster) (r : Reads) (s : SubnetObject)
      → Sees r c
      → subnet_create t parse_cidr fuel r s ≡ none
      → IsCluster t parse_cidr fuel c
      → IsCluster t parse_cidr fuel (record c { subnets = Map.put s.name s c.subnets })
  create_subnet-IsCluster c r s sees ok v =
      let created = subnet_create-Created t parse_cidr fuel r s ok in
      let (n, read, _) = created.parent in
      let (l, listed, away) = created.others in
      put_subnet-IsCluster c s v (n, sees.network_there s.network n read)
        (λ k b ne h. inl (away b (sees.subnets_shown l k b listed h)).0)

  Step-IsCluster :
      {c c' : Cluster}
      → Step t parse_cidr fuel c c'
      → IsCluster t parse_cidr fuel c
      → IsCluster t parse_cidr fuel c'
  Step-IsCluster {c} (network_created r n sees fresh ok) v =
      put_network-IsCluster c n v (network_create-Ruled t r n ok).0 (created_alone c r n sees ok)
  Step-IsCluster {c} (network_updated old n there ok) v =
      put_network-IsCluster c n v (network_update-Ruled t old n (v.ruled n.name old there) ok)
        (replaced_alone c old n v there (network_update-Keeps t old n ok).0)
  Step-IsCluster {c} (network_status old n there e) v =
      put_network-IsCluster c n v (status-Ruled old n e (v.ruled n.name old there))
        (replaced_alone c old n v there (status-type old n e))
  Step-IsCluster {c} (network_deleted r name sees ok) v =
      delete_network-IsCluster c name v (deleted_childless c r name v sees ok)
  Step-IsCluster {c} (subnet_created r s sees fresh ok) v = create_subnet-IsCluster c r s sees ok v
  Step-IsCluster {c} (subnet_updated r old s there ok) v =
      update_subnet-IsCluster c r old s there ok v
  Step-IsCluster {c} (subnet_deleted r name ok) v = delete_subnet-IsCluster c name v

  -- Over every history of creations, updates and deletions of Network and Subnet objects that the
  -- webhooks allow, each checked against the objects that are there, and of changes of the status
  -- of a network, a well-formed cluster stays so: each network has the mode, the node selector
  -- and the net ID that its type asks for, and a BGP network peers whose addresses parse; there
  -- is at most one overlay and at most one global BGP network; the parent network of each subnet
  -- is there; and of two subnets with one CIDR the network is the same, while two different CIDRs
  -- have no address in common for Intersect.
  pub Steps-IsCluster :
      {c c' : Cluster}
      → Steps t parse_cidr fuel c c'
      → IsCluster t parse_cidr fuel c
      → IsCluster t parse_cidr fuel c'
  Steps-IsCluster none_left v = v
  Steps-IsCluster (next_step step rest) v = Steps-IsCluster rest (Step-IsCluster step v)
