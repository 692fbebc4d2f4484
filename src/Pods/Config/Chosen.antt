-- ===== src/Pods/Config/Chosen.antt =====
-- What holds of the network config that ParseNetworkConfigOfPodByPriority returns.
use container_advanced_netwo.Common.{
  ℕ, suc, ◌≡◌, refl, sym, ap, subst, ◌∙◌, ◌⊎◌, inl, inr, Bool, true, false, not, ◌&&◌, ◌==◌, ltb,
  ite, Option, List, [], ◌∷◌, String, length, Bool-cases, arith, str_dec,
}
use container_advanced_netwo.Net.{NetIp, IpNet}
use container_advanced_netwo.Ipam.Base.{Result-cases, not_ok, ok_inj, Result, ok, fails}
use container_advanced_netwo.Ipam.Types.{IpFamilyMode, NetworkType}
use container_advanced_netwo.AddressRange.{is_empty}
use container_advanced_netwo.Api.{
  IpInstance, NetworkObject, SubnetObject, get_network_type, same_type,
}
use container_advanced_netwo.Webhook.Refusal.{Read, found, not_found, failed}
use container_advanced_netwo.Pods.Texts.{Texts, same_text}
use container_advanced_netwo.Pods.Types.{Pod, first_of, value_of}
use container_advanced_netwo.Pods.Strategy.{Metadata, Lookups}
use container_advanced_netwo.Pods.Config.{
  NetworkConfig, Elected, nothing_elected, elected, is_valid_family_mode, is_valid_network_type,
  has_version, join_network, specified_subnet_str_to_subnet_names, network_of_subnets, agree,
  select_network_and_subnet_from_object, fetch_from_object, fetch_by_priority, fetched, config_from,
  matching, type_of, valid_config, complete, retained_config,
  parse_network_config_of_pod_by_priority,
}

Read-cases :
    {A : Type 0} (r : Read A) → ((a : A) × (r ≡ found a)) ⊎ ((r ≡ not_found) ⊎ (r ≡ failed))
Read-cases (found a) = inl (a, refl)
Read-cases not_found = inr (inl refl)
Read-cases failed = inr (inr refl)

-- The network is the empty text, or this one.
abbrev Fits : String → String → Type 0
Fits known network = (is_empty known ≡ true) ⊎ (known ≡ network)

untrue : false ≡ true → ⊥
untrue h = ground (arith, h)

same_text-eq : (a b : String) → same_text a b ≡ true → a ≡ b
same_text-eq a b h = go (str_dec a b) refl
  where
    go : (d : Dec (a ≡ b)) → str_dec a b ≡ d → a ≡ b
    go (yes e) _ = e
    go (no ne) f = absurd (untrue (subst (λ d. ite d true false ≡ true) f h))

-- Both texts fit what join_network returns.
join_network-Fits :
    (known network result : String)
    → join_network known network ≡ ok result
    → Fits known result × Fits network result
unfolding join_network
join_network-Fits known network result h = elim (Bool-cases (is_empty known)) [
  | inl e ↦ (
    inl e,
    inr (ok_inj network result (subst (λ r. r ≡ ok result) (rw (e, join_network) refl) h)),
  )
  | inr e ↦ elim (Bool-cases (same_text known network)) [
    | inr f ↦ not_ok (fails 20) result (subst (λ r. r ≡ ok result) (rw (e, f, join_network) refl) h)
    | inl f ↦
        let same =
          ok_inj known result (subst (λ r. r ≡ ok result) (rw (e, f, join_network) refl) h) in
        (inr same, inr (sym (same_text-eq known network f) ∙ same))
  ]
]

module _ (x : Texts) (look : Lookups) where
  -- A subnet that is there, of the network, and where there are two of the version of its place.
  abbrev pub SubnetOf : Bool → ℕ → String → String → Type 0
  SubnetOf two index network name =
      (s : SubnetObject) × (look.subnet name ≡ found s)
      × Fits s.network network
      × (two ≡ true → has_version index s.range.version ≡ true)

  abbrev pub SubnetsOf : Bool → ℕ → String → List String → Type 0
  SubnetsOf two index network [] = Unit {0}
  SubnetsOf two index network (name ∷ names) =
      SubnetOf two index network name × SubnetsOf two (suc index) network names

  not_found-never :
      (two : Bool) (index : ℕ) (name : String) (names : List String) (known result : String)
      → (look.subnet name ≡ not_found) ⊎ (look.subnet name ≡ failed)
      → network_of_subnets x look two index (name ∷ names) known ≡ ok result
      → ⊥
  unfolding network_of_subnets
  not_found-never two index name names known result (inl e) h =
      not_ok (fails 21) result (subst (λ r. r ≡ ok result) (rw (e, network_of_subnets) refl) h)
  not_found-never two index name names known result (inr e) h =
      not_ok (fails 21) result (subst (λ r. r ≡ ok result) (rw (e, network_of_subnets) refl) h)

  network_of_subnets-Fits :
      (two : Bool) (index : ℕ) (names : List String) (known result : String)
      → network_of_subnets x look two index names known ≡ ok result
      → Fits known result × SubnetsOf two index result names
  unfolding network_of_subnets
  network_of_subnets-Fits two index [] known result h = (inr (ok_inj known result h), tt)
  network_of_subnets-Fits two index (name ∷ names) known result h =
      elim (Read-cases (look.subnet name)) [
        | inr missing ↦ absurd (not_found-never two index name names known result missing h)
        | inl (s, e) ↦ elim (Bool-cases (two && not (has_version index s.range.version))) [
          | inl f ↦
              not_ok (fails 22) result
                (subst (λ r. r ≡ ok result) (rw (e, f, network_of_subnets) refl) h)
          | inr f ↦ elim (Result-cases (join_network known s.network)) [
            | inr (y, g) ↦
                not_ok y result
                  (subst (λ r. r ≡ ok result) (rw (e, f, g, network_of_subnets) refl) h)
            | inl (next, g) ↦
                let (first, second) = join_network-Fits known s.network next g in
                let (link, rest) =
                  network_of_subnets-Fits two (suc index) names next result
                    (subst (λ r. r ≡ ok result) (rw (e, f, g, network_of_subnets) refl) h) in
                (
                  follow known next result first link,
                  (
                    (
                      s,
                      e,
                      follow s.network next result second link,
                      at_place two (has_version index s.range.version) f,
                    ),
                    rest,
                  ),
                )
          ]
        ]
      ]
    where
      follow : (a b c : String) → Fits a b → Fits b c → Fits a c
      follow a b c (inl e) _ = inl e
      follow a b c (inr e) (inr f) = inr (e ∙ f)
      follow a b c (inr e) (inl f) = inl (ap is_empty e ∙ f)

      at_place : (p q : Bool) → (p && not q) ≡ false → p ≡ true → q ≡ true
      at_place p true f h = refl
      at_place true false f h = absurd (untrue (sym f))
      at_place false false f h = absurd (untrue h)

  -- The network and the subnets of a selection belong together.
  abbrev pub Selected : String → String → Type 0
  Selected network subnets =
      let names = specified_subnet_str_to_subnet_names x look subnets in
      (ltb 2 (length names) ≡ false) × SubnetsOf (length names == 2) 0 network names

  onward :
      (two : Bool) (index : ℕ) (a b : String) (names : List String)
      → Fits a b
      → SubnetsOf two index a names
      → SubnetsOf two index b names
  onward two index a b [] link rest = tt
  onward two index a b (name ∷ names) link ((s, e, inl f, v), rest) =
      ((s, e, inl f, v), onward two (suc index) a b names link rest)
  onward two index a b (name ∷ names) (inl g) ((s, e, inr f, v), rest) =
      ((s, e, inl (ap is_empty f ∙ g), v), onward two (suc index) a b names (inl g) rest)
  onward two index a b (name ∷ names) (inr g) ((s, e, inr f, v), rest) =
      ((s, e, inr (f ∙ g), v), onward two (suc index) a b names (inr g) rest)

  agree-Fits : (network from name : String) → agree x look network from ≡ ok name → Fits from name
  unfolding agree
  agree-Fits network from name h = elim (Bool-cases (is_empty from)) [
    | inl e ↦ inl e
    | inr e ↦
        (join_network-Fits network from name (subst (λ r. r ≡ ok name) (rw (e, agree) refl) h)).1
  ]

  select-Selected :
      (m : Metadata) (network subnets : String)
      → select_network_and_subnet_from_object x look m ≡ ok (network, subnets)
      → Selected network subnets
  unfolding select_network_and_subnet_from_object
  select-Selected m network subnets h = elim (Bool-cases (ltb 2 (length names))) [
    | inl e ↦
        not_ok (fails 23) (network, subnets)
          (subst (λ r. r ≡ ok (network, subnets))
            (rw (e, select_network_and_subnet_from_object) refl) h)
    | inr e ↦ elim (Result-cases (network_of_subnets x look (length names == 2) 0 names "")) [
      | inr (y, f) ↦
          not_ok y (network, subnets)
            (subst (λ r. r ≡ ok (network, subnets))
              (rw (e, f, select_network_and_subnet_from_object) refl) h)
      | inl (from, f) ↦ elim (Result-cases (agree x look own from)) [
        | inr (y, g) ↦
            not_ok y (network, subnets)
              (subst (λ r. r ≡ ok (network, subnets))
                (rw (e, f, g, select_network_and_subnet_from_object) refl) h)
        | inl (name, g) ↦
            let same : (name, text) ≡ (network, subnets) =
              ok_inj (name, text) (network, subnets)
                (subst (λ r. r ≡ ok (network, subnets))
                  (rw (e, f, g, select_network_and_subnet_from_object) refl) h) in
            subst (λ p. Selected p.0 p.1) same
              (
                e,
                onward (length names == 2) 0 from name names (agree-Fits own from name g)
                    (network_of_subnets-Fits (length names == 2) 0 names "" from f).1,
              )
      ]
    ]
  ]
    where
      own : String
      own =
          first_of (value_of "networking.alibaba.com/specified-network" m.annotations)
            (value_of "networking.alibaba.com/specified-network" m.labels)

      text : String
      text =
          first_of (value_of "networking.alibaba.com/specified-subnet" m.annotations)
            (value_of "networking.alibaba.com/specified-subnet" m.labels)

      names : List String
      names = specified_subnet_str_to_subnet_names x look text

  fetch-Selected :
      (m : Metadata) (e : Elected)
      → fetch_from_object x look m ≡ ok e
      → Selected e.network e.subnets
  unfolding fetch_from_object
  fetch-Selected m e h = elim (Result-cases (select_network_and_subnet_from_object x look m)) [
    | inr (y, f) ↦ not_ok y e (subst (λ r. r ≡ ok e) (rw (f, fetch_from_object) refl) h)
    | inl ((network, subnets), f) ↦
        let made =
          ok_inj (fetched x look m network subnets) e
            (subst (λ r. r ≡ ok e) (rw (f, fetch_from_object) refl) h) in
        subst (λ a. Selected a.network a.subnets) made (select-Selected m network subnets f)
  ]

  fetch_by_priority-Selected :
      (pod : Pod) (e : Elected) → fetch_by_priority x look pod ≡ ok e → Selected e.network e.subnets
  unfolding fetch_by_priority
  fetch_by_priority-Selected pod e h = elim (Result-cases (fetch_from_object x look own)) [
    | inr (y, f) ↦ not_ok y e (subst (λ r. r ≡ ok e) (rw (f, fetch_by_priority) refl) h)
    | inl (e1, f) ↦ elim (Bool-cases (elected e1)) [
      | inl g ↦
          subst (λ a. Selected a.network a.subnets)
            (ok_inj e1 e (subst (λ r. r ≡ ok e) (rw (f, g, fetch_by_priority) refl) h))
            (fetch-Selected own e1 f)
      | inr g ↦ elim (Read-cases (look.namespace pod.namespace)) [
        | inl (m, k) ↦
            fetch-Selected m e (subst (λ r. r ≡ ok e) (rw (f, g, k, fetch_by_priority) refl) h)
        | inr (inl k) ↦
            not_ok (fails 24) e (subst (λ r. r ≡ ok e) (rw (f, g, k, fetch_by_priority) refl) h)
        | inr (inr k) ↦
            not_ok (fails 24) e (subst (λ r. r ≡ ok e) (rw (f, g, k, fetch_by_priority) refl) h)
      ]
    ]
  ]
    where
      own : Metadata
      own = record { annotations = pod.annotations; labels = pod.labels }

  -- A network that is named is there, has the type of the config, and gives the node selector.
  abbrev pub Backed : NetworkConfig → Type 0
  Backed c =
      (is_empty c.network ≡ true)
      ⊎ ((n : NetworkObject) × (look.network c.network ≡ found n)
          × (same_type c.type (get_network_type n) ≡ true)
          × (c.node_selector ≡ n.node_selector))

  -- What holds of a config.
  abbrev pub Chosen : NetworkConfig → Type 0
  Chosen c =
      (is_valid_family_mode c.family ≡ true)
      × (is_valid_network_type c.type ≡ true)
      × Selected c.network c.subnets
      × Backed c
      × (c.retained ≡ true → is_empty c.network ≡ false)

  valid_config-Chosen :
      (c c' : NetworkConfig)
      → Selected c.network c.subnets
      → Backed c
      → (c.retained ≡ true → is_empty c.network ≡ false)
      → valid_config x look c ≡ ok c'
      → Chosen c'
  unfolding valid_config
  valid_config-Chosen c c' selected backed kept h =
      elim (Bool-cases (is_valid_family_mode c.family)) [
        | inr e ↦ not_ok (fails 26) c' (subst (λ r. r ≡ ok c') (rw (e, valid_config) refl) h)
        | inl e ↦ elim (Bool-cases (is_valid_network_type c.type)) [
          | inr f ↦ not_ok (fails 27) c' (subst (λ r. r ≡ ok c') (rw (e, f, valid_config) refl) h)
          | inl f ↦
              subst Chosen (ok_inj c c' (subst (λ r. r ≡ ok c') (rw (e, f, valid_config) refl) h))
                (e, f, selected, backed, kept)
        ]
      ]

  matching-same_type :
      (type : NetworkType) (n : NetworkObject) (type' : NetworkType)
      → matching x look type n ≡ ok type'
      → same_type type' (get_network_type n) ≡ true
  unfolding matching
  matching-same_type type n type' h = elim (Bool-cases (same_type type (get_network_type n))) [
    | inl e ↦
        subst (λ y. same_type y (get_network_type n) ≡ true)
          (ok_inj type type' (subst (λ r. r ≡ ok type') (rw (e, matching) refl) h)) e
    | inr e ↦ not_ok (fails 25) type' (subst (λ r. r ≡ ok type') (rw (e, matching) refl) h)
  ]

  type_of-same_type :
      (text : String) (n : NetworkObject) (type : NetworkType)
      → type_of x look text n ≡ ok type
      → same_type type (get_network_type n) ≡ true
  unfolding type_of
  type_of-same_type text n type h = matching-same_type _ n type h

  complete-Chosen :
      (e : Elected) (family : Option IpFamilyMode) (retained : Bool) (c : NetworkConfig)
      → Selected e.network e.subnets
      → (retained ≡ true → is_empty e.network ≡ false)
      → complete x look e family retained ≡ ok c
      → Chosen c
  unfolding complete
  complete-Chosen e family retained c selected kept h = elim (Bool-cases (is_empty e.network)) [
    | inl f ↦
        valid_config-Chosen (config_from x look e family retained) c selected (inl f) kept
          (subst (λ r. r ≡ ok c) (rw (f, complete) refl) h)
    | inr f ↦ elim (Read-cases (look.network e.network)) [
      | inr (inl g) ↦ not_ok (fails 28) c (subst (λ r. r ≡ ok c) (rw (f, g, complete) refl) h)
      | inr (inr g) ↦ not_ok (fails 28) c (subst (λ r. r ≡ ok c) (rw (f, g, complete) refl) h)
      | inl (n, g) ↦ elim (Result-cases (type_of x look e.type_text n)) [
        | inr (y, k) ↦ not_ok y c (subst (λ r. r ≡ ok c) (rw (f, g, k, complete) refl) h)
        | inl (type, k) ↦
            valid_config-Chosen
              (record (config_from x look e family retained) {
                type = type;
                node_selector = n.node_selector;
              })
              c selected (inr (n, g, type_of-same_type e.type_text n type k, refl)) kept
              (subst (λ r. r ≡ ok c) (rw (f, g, k, complete) refl) h)
      ]
    ]
  ]

  no_subnets : (network : String) → Selected network ""
  unfolding specified_subnet_str_to_subnet_names str_dec
  no_subnets network = (refl, tt)

  module _ (kinds : List String) (parse_cidr : String → Option (NetIp × IpNet))
      (of_pod of_vm : String → String → Result (List IpInstance)) where
    -- A network config that ParseNetworkConfigOfPodByPriority returns has a valid family and a
    -- valid type. It names at most two subnets; each is there, and names no network or the
    -- network of the config, and of two the first is IPv4 and the second IPv6. A network that it
    -- names is there, has the type of the config, and gives the node selector. It has retained
    -- addresses only where it names a network.
    pub parse_network_config_of_pod_by_priority-Chosen :
        (pod : Pod) (c : NetworkConfig)
        → parse_network_config_of_pod_by_priority x look kinds parse_cidr of_pod of_vm pod ≡ ok c
        → Chosen c
    unfolding parse_network_config_of_pod_by_priority
    parse_network_config_of_pod_by_priority-Chosen pod c h =
        elim (Result-cases (retained_config x look kinds parse_cidr of_pod of_vm pod)) [
          | inr (y, e) ↦
              not_ok y c
                (subst (λ r. r ≡ ok c) (rw (e, parse_network_config_of_pod_by_priority) refl) h)
          | inl ((network, family), e) ↦ elim (Bool-cases (is_empty network)) [
            | inr f ↦
                complete-Chosen (record nothing_elected { network = network }) family true c
                  (no_subnets network) (λ _. f)
                  (subst (λ r. r ≡ ok c) (rw (e, f, parse_network_config_of_pod_by_priority) refl)
                    h)
            | inl f ↦ elim (Result-cases (fetch_by_priority x look pod)) [
              | inr (y, g) ↦ not_ok y c (
                  subst (λ r. r ≡ ok c) (rw (e, f, g, parse_network_config_of_pod_by_priority) refl)
                    h)
              | inl (e1, g) ↦
                  complete-Chosen e1 family false c (fetch_by_priority-Selected pod e1 g)
                    (λ k. absurd (untrue k))
                    (subst (λ r. r ≡ ok c)
                      (rw (e, f, g, parse_network_config_of_pod_by_priority) refl) h)
            ]
          ]
        ]
