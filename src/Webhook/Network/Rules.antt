-- ===== src/Webhook/Network/Rules.antt =====
-- What a Network object that is created or updated is known to be.
use container_advanced_netwo.Common.{
  ℕ, ◌≡◌, ◌≢◌, refl, sym, subst, ap, ◌∙◌, ◌⊎◌, inl, inr, Bool, true, false, not, ◌==◌, Option, none,
  some, List, [], ◌∷◌, arith, Bool-cases, Option-cases, str_dec, All,
}
use container_advanced_netwo.Net.{is_nil, IpText}
use container_advanced_netwo.Ipam.Types.{NetworkType, underlay, overlay, global_bgp, other_type}
use container_advanced_netwo.Api.{
  NetworkObject, BgpPeer, NetworkMode, mode_vxlan, mode_vlan, mode_bgp, mode_global_bgp, other_mode,
  get_network_type, get_network_mode, same_type, same_mode,
}
use container_advanced_netwo.Webhook.Refusal.{
  Refusal, panicked, no_node_selector, second_overlay, second_global_bgp, node_selector_set,
  no_net_id, net_id_set, wrong_mode, no_bgp_router, type_changed, mode_changed, net_id_changed,
  Reads, ◌then_check◌, refuse_if, refuse_if-none, then_check-none,
}
use container_advanced_netwo.Webhook.Network.{
  is_none, no_items, find_type, check_unique, create_type, peers_of, create_peers, create_mode,
  network_create, update_type, update_peers, update_mode, same_net_id, network_update,
}

-- The type that a mode goes with.
abbrev pub ModeFits : NetworkMode → NetworkType → Type 0
ModeFits mode_bgp ty = ty ≡ underlay
ModeFits mode_vlan ty = ty ≡ underlay
ModeFits mode_vxlan ty = ty ≡ overlay
ModeFits mode_global_bgp ty = ty ≡ global_bgp
ModeFits (other_mode _) ty = ⊥

-- The node selector and the net ID that a type asks for.
abbrev pub TypeRules : NetworkType → NetworkObject → Type 0
TypeRules underlay n = no_items n.node_selector ≡ false
TypeRules overlay n = (no_items n.node_selector ≡ true) × (is_none n.net_id ≡ false)
TypeRules global_bgp n = (no_items n.node_selector ≡ true) × (is_none n.net_id ≡ true)
TypeRules (other_type _) n = ⊥

pub same_type-eq : (a b : NetworkType) → same_type a b ≡ true → a ≡ b
unfolding same_type
same_type-eq underlay underlay h = refl
same_type-eq overlay overlay h = refl
same_type-eq global_bgp global_bgp h = refl
same_type-eq (other_type a) (other_type b) h = elim (str_dec a b) [
  | yes e ↦ ap other_type e
  | no ne ↦ absurd (ground (arith, h, ne))
]
same_type-eq a b h = absurd (ground (arith, h))

pub same_type_refl : (a : NetworkType) → same_type a a ≡ true
unfolding same_type
same_type_refl underlay = refl
same_type_refl overlay = refl
same_type_refl global_bgp = refl
same_type_refl (other_type a) = ground (arith, str_dec a a)

same_mode-eq : (a b : NetworkMode) → same_mode a b ≡ true → a ≡ b
unfolding same_mode
same_mode-eq mode_vxlan mode_vxlan h = refl
same_mode-eq mode_vlan mode_vlan h = refl
same_mode-eq mode_bgp mode_bgp h = refl
same_mode-eq mode_global_bgp mode_global_bgp h = refl
same_mode-eq (other_mode a) (other_mode b) h = elim (str_dec a b) [
  | yes e ↦ ap other_mode e
  | no ne ↦ absurd (ground (arith, h, ne))
]
same_mode-eq a b h = absurd (ground (arith, h))

same_mode_refl : (a : NetworkMode) → same_mode a a ≡ true
unfolding same_mode
same_mode_refl mode_vxlan = refl
same_mode_refl mode_vlan = refl
same_mode_refl mode_bgp = refl
same_mode_refl mode_global_bgp = refl
same_mode_refl (other_mode a) = ground (arith, str_dec a a)

not-false : {b : Bool} → not b ≡ false → b ≡ true
not-false h = ground (arith, h)

pub not_refused : (b : Bool) (r : Refusal) → refuse_if (not b) r ≡ none → b ≡ true
not_refused b r h = not-false (refuse_if-none (not b) r h)

same_net_id-eq : (a b : Option ℕ) → same_net_id a b ≡ true → a ≡ b
unfolding same_net_id
same_net_id-eq none none h = refl
same_net_id-eq (some a) (some b) h = ground (arith, h)
same_net_id-eq a b h = absurd (ground (arith, h))

-- A network of the list of a read.
abbrev pub Member : NetworkObject → List NetworkObject → Type 0
Member n [] = ⊥
Member n (x ∷ xs) = (n ≡ x) ⊎ Member n xs

pub find_type-none :
    (ty : NetworkType) (l : List NetworkObject) (n : NetworkObject)
    → find_type ty l ≡ none
    → Member n l
    → get_network_type n ≢ ty
unfolding find_type
find_type-none ty [] n h there e = elim there [ ]
find_type-none ty (x ∷ xs) n h there e = elim (Bool-cases (same_type (get_network_type x) ty)) [
  | inl same ↦ absurd (ground (arith, same, h))
  | inr other ↦ elim there [
    | inr rest ↦ find_type-none ty xs n (ground (arith, other, h)) rest e
    | inl here ↦ absurd (
        clash (
          sym other
          ∙ ap (λ a. same_type a ty) (ap get_network_type (sym here) ∙ e)
          ∙ same_type_refl ty))
  ]
]
  where
    clash : false ≡ true → ⊥
    clash p = ground (arith, p)

-- No network of the type is read.
pub check_unique-none :
    (r : Reads) (ty : NetworkType) (refusal : Refusal)
    → check_unique r ty refusal ≡ none
    → (l : List NetworkObject) × (r.networks ≡ some l) × (find_type ty l ≡ none)
unfolding check_unique
check_unique-none r ty refusal h = elim (Option-cases r.networks) [
  | inl e ↦ absurd (ground (arith, e, h))
  | inr (l, e) ↦ elim (Option-cases (find_type ty l)) [
    | inl f ↦ (l, e, f)
    | inr (x, f) ↦ absurd (ground (arith, e, f, h))
  ]
]

module _ (t : IpText) where
  abbrev pub Parses : BgpPeer → Type 0
  Parses p = is_nil (t.parse_ip p.address) ≡ false

  -- A BGP network has a net ID, and at least one peer; the addresses of its peers parse.
  pub record Ruled (n : NetworkObject) : Type 0 where
    pub mode_fits : ModeFits (get_network_mode n) (get_network_type n)
    pub type_rules : TypeRules (get_network_type n) n
    pub bgp_net_id : get_network_mode n ≡ mode_bgp → is_none n.net_id ≡ false
    pub bgp_peers :
        get_network_mode n ≡ mode_bgp → (no_items (peers_of n) ≡ false) × All Parses (peers_of n)

  create_peers-All :
      (ps : List BgpPeer)
      → create_peers t ps ≡ none
      → All Parses ps × All (λ p. (p.asn == 0) ≡ false) ps
  unfolding create_peers
  create_peers-All [] h = (tt, tt)
  create_peers-All (p ∷ ps) h =
      let (a, rest) = then_check-none _ _ h in
      let (b, c) = then_check-none _ _ rest in
      let (xs, ys) = create_peers-All ps c in
      ((refuse_if-none _ _ a, xs), (refuse_if-none _ _ b, ys))

  update_peers-All : (ps : List BgpPeer) → update_peers t ps ≡ none → All Parses ps
  unfolding update_peers
  update_peers-All [] h = tt
  update_peers-All (p ∷ ps) h =
      let (a, rest) = then_check-none _ _ h in (refuse_if-none _ _ a, update_peers-All ps rest)

  create_type-TypeRules :
      (r : Reads) (n : NetworkObject) (ty : NetworkType)
      → create_type r n ty ≡ none
      → TypeRules ty n
  unfolding create_type
  create_type-TypeRules r n underlay h =
      let (a, _) = then_check-none _ _ h in refuse_if-none _ no_node_selector a
  create_type-TypeRules r n overlay h =
      let (_, rest) = then_check-none _ _ h in
      let (a, b) = then_check-none _ _ rest in
      (not_refused _ node_selector_set a, refuse_if-none _ no_net_id b)
  create_type-TypeRules r n global_bgp h =
      let (_, rest) = then_check-none _ _ h in
      let (a, b) = then_check-none _ _ rest in
      (not_refused _ node_selector_set a, not_refused _ net_id_set b)
  create_type-TypeRules r n (other_type _) h = absurd (ground (arith, h))

  create_mode-ModeFits :
      (n : NetworkObject) (mode : NetworkMode)
      → create_mode t n mode ≡ none
      → ModeFits mode (get_network_type n)
  unfolding create_mode
  create_mode-ModeFits n mode_bgp h =
      let (a, _) = then_check-none _ _ h in same_type-eq _ _ (not_refused _ wrong_mode a)
  create_mode-ModeFits n mode_vlan h = same_type-eq _ _ (not_refused _ wrong_mode h)
  create_mode-ModeFits n mode_vxlan h = same_type-eq _ _ (not_refused _ wrong_mode h)
  create_mode-ModeFits n mode_global_bgp h = same_type-eq _ _ (not_refused _ wrong_mode h)
  create_mode-ModeFits n (other_mode _) h = absurd (ground (arith, h))

  -- The rules of a BGP network at its creation.
  abbrev BgpRules : NetworkObject → Type 0
  BgpRules n =
      (is_none n.net_id ≡ false)
      × (no_items (peers_of n) ≡ false)
      × All Parses (peers_of n)
      × All (λ p. (p.asn == 0) ≡ false) (peers_of n)

  create_mode-bgp : (n : NetworkObject) → create_mode t n mode_bgp ≡ none → BgpRules n
  unfolding create_mode
  create_mode-bgp n h =
      let (_, rest) = then_check-none _ _ h in
      let (a, rest') = then_check-none _ _ rest in
      let (b, c) = then_check-none _ _ rest' in
      let (xs, ys) = create_peers-All _ c in
      (refuse_if-none _ no_net_id a, refuse_if-none _ no_bgp_router b, xs, ys)

  -- A network that NetworkCreateValidation allows has the mode, the node selector and the net ID
  -- that its type asks for; a BGP network has a net ID and at least one peer, and each peer an
  -- address that parses and an AS number that is not 0.
  pub network_create-Ruled :
      (r : Reads) (n : NetworkObject)
      → network_create t r n ≡ none
      → Ruled n × (get_network_mode n ≡ mode_bgp → All (λ p. (p.asn == 0) ≡ false) (peers_of n))
  unfolding network_create
  network_create-Ruled r n h =
      let (a, b) = then_check-none _ _ h in
      let bgp : get_network_mode n ≡ mode_bgp → BgpRules n =
        λ e. create_mode-bgp n (subst (λ m. create_mode t n m ≡ none) e b) in
      (
        record {
          mode_fits = create_mode-ModeFits n (get_network_mode n) b;
          type_rules = create_type-TypeRules r n (get_network_type n) a;
          bgp_net_id = λ e. let (has_id, _, _, _) = bgp e in has_id;
          bgp_peers = λ e. let (_, some_peers, parse, _) = bgp e in (some_peers, parse);
        },
        λ e. let (_, _, _, asns) = bgp e in asns,
      )

  update_type-TypeRules :
      (old n : NetworkObject) (ty : NetworkType)
      → n.net_id ≡ old.net_id
      → TypeRules ty old
      → update_type n ty ≡ none
      → TypeRules ty n
  unfolding update_type
  update_type-TypeRules old n underlay e v h = refuse_if-none _ no_node_selector h
  update_type-TypeRules old n overlay e v h =
      (not_refused _ node_selector_set h, ap is_none e ∙ v.1)
  update_type-TypeRules old n global_bgp e v h =
      (not_refused _ node_selector_set h, ap is_none e ∙ v.1)
  update_type-TypeRules old n (other_type _) e v h = absurd v

  update_mode-bgp :
      (n : NetworkObject)
      → update_mode t n mode_bgp ≡ none
      → (no_items (peers_of n) ≡ false) × All Parses (peers_of n)
  unfolding update_mode
  update_mode-bgp n h = elim (Option-cases n.config) [
    | inl e ↦ absurd (ground (arith, e, h))
    | inr (peers, e) ↦
        let checked : (refuse_if (no_items peers) no_bgp_router then_check update_peers t peers)
            ≡ none =
          sym (rw (e, update_mode) refl) ∙ h in
        let (a, b) = then_check-none _ _ checked in
        rw e (refuse_if-none _ no_bgp_router a, update_peers-All peers b)
  ]

  -- What an update keeps of a network: its type, its mode and its net ID.
  abbrev pub Keeps : NetworkObject → NetworkObject → Type 0
  Keeps old new =
      (get_network_type new ≡ get_network_type old)
      × (get_network_mode new ≡ get_network_mode old)
      × (new.net_id ≡ old.net_id)

  pub network_update-Keeps :
      (old new : NetworkObject) → network_update t old new ≡ none → Keeps old new
  unfolding network_update get_network_mode
  network_update-Keeps old new h =
      let (a, h1) = then_check-none _ _ h in
      let (_, h2) = then_check-none _ _ h1 in
      let (c, h3) = then_check-none _ _ h2 in
      let (_, d) = then_check-none _ _ h3 in
      let ty : get_network_type new ≡ get_network_type old =
        sym (same_type-eq _ _ (not_refused _ type_changed a)) in
      let mode : new.spec_mode ≡ old.spec_mode =
        sym (same_mode-eq _ _ (not_refused _ mode_changed c)) in
      (
        ty,
        rw (ty, mode) refl,
        sym (same_net_id-eq old.net_id new.net_id (not_refused _ net_id_changed d)),
      )

  -- A network that may be updated still meets the rules.
  pub network_update-Ruled :
      (old new : NetworkObject) → Ruled old → network_update t old new ≡ none → Ruled new
  unfolding network_update
  network_update-Ruled old new v h =
      let (_, h1) = then_check-none _ _ h in
      let (b, h2) = then_check-none _ _ h1 in
      let (_, h3) = then_check-none _ _ h2 in
      let (mode_ok, _) = then_check-none _ _ h3 in
      let (ty, mode, id) = network_update-Keeps old new h in
      record {
        mode_fits = rw (ty, mode) v.mode_fits;
        type_rules =
            subst (λ k. TypeRules k new) (sym ty)
              (update_type-TypeRules old new _ id v.type_rules
                (subst (λ k. update_type new k ≡ none) ty b));
        bgp_net_id = λ e. ap is_none id ∙ v.bgp_net_id (sym mode ∙ e);
        bgp_peers = λ e. update_mode-bgp new (subst (λ m. update_mode t new m ≡ none) e mode_ok);
      }

  create_type_unique :
      (r : Reads) (n : NetworkObject) (ty : NetworkType)
      → (ty ≡ overlay) ⊎ (ty ≡ global_bgp)
      → create_type r n ty ≡ none
      → (l : List NetworkObject) × (r.networks ≡ some l) × (find_type ty l ≡ none)
  unfolding create_type
  create_type_unique r n underlay kind h = absurd (ground (arith, kind))
  create_type_unique r n overlay kind h =
      let (a, _) = then_check-none _ _ h in check_unique-none r overlay second_overlay a
  create_type_unique r n global_bgp kind h =
      let (a, _) = then_check-none _ _ h in check_unique-none r global_bgp second_global_bgp a
  create_type_unique r n (other_type _) kind h = absurd (ground (arith, kind))

  -- Where an overlay or a global BGP network may be created, the list that was read has none.
  pub network_create_unique :
      (r : Reads) (n : NetworkObject)
      → (get_network_type n ≡ overlay) ⊎ (get_network_type n ≡ global_bgp)
      → network_create t r n ≡ none
      → (l : List NetworkObject) × (r.networks ≡ some l) × (find_type (get_network_type n) l ≡ none)
  unfolding network_create
  network_create_unique r n kind h =
      let (a, _) = then_check-none _ _ h in create_type_unique r n (get_network_type n) kind a

  bare_type :
      (old : NetworkObject) → get_network_type (record old { config = none }) ≡ get_network_type old
  unfolding get_network_type
  bare_type old = refl

  bare_mode :
      (old : NetworkObject) → get_network_mode (record old { config = none }) ≡ get_network_mode old
  unfolding get_network_mode get_network_type
  bare_mode old = refl

  bare_update :
      (old : NetworkObject)
      → get_network_type old ≡ underlay
      → get_network_mode old ≡ mode_bgp
      → no_items old.node_selector ≡ false
      → network_update t old (record old { config = none }) ≡ some panicked
  unfolding network_update update_mode update_type
  bare_update old ty bgp selected =
      rw
        (
          bare_type old,
          bare_mode old,
          ty,
          bgp,
          same_type_refl underlay,
          selected,
          same_mode_refl old.spec_mode,
          update_type,
          update_mode,
        )
        refl

  -- An update that takes the config from a BGP network that meets the rules, and changes nothing
  -- else, makes NetworkUpdateValidation panic.
  pub network_update-panicked :
      (old : NetworkObject)
      → Ruled old
      → get_network_mode old ≡ mode_bgp
      → network_update t old (record old { config = none }) ≡ some panicked
  network_update-panicked old v bgp =
      let ty : get_network_type old ≡ underlay =
        subst (λ m. ModeFits m (get_network_type old)) bgp v.mode_fits in
      bare_update old ty bgp (subst (λ k. TypeRules k old) ty v.type_rules)
