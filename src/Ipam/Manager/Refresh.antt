-- ===== src/Ipam/Manager/Refresh.antt =====
-- What refreshing one network does to the others, and to all of them where it fails.
use container_advanced_netwo.Common.{
  ◌≡◌, ◌≢◌, refl, ◌∙◌, ap, ◌⊎◌, inl, inr, none, some, Option-cases, String, arith, str_dec, if_pos,
  if_neg,
}
use container_advanced_netwo.Common.Map
use container_advanced_netwo.Net.{IpText}
use container_advanced_netwo.Ipam.Base.{Result-cases, Error, Result, ok, err}
use container_advanced_netwo.Ipam.Types.{Network, NetworkSet}
use container_advanced_netwo.Ipam.Manager.{Getters, add_subnets, refresh_network}

module _ (t : IpText) (g : Getters) (name : String) (set : NetworkSet) where
  -- The ends of a refresh: nothing has changed, the network is gone, or it is replaced.
  abbrev pub Refreshed : Result (Unit {0}) × NetworkSet → Type 0
  Refreshed r =
      ((e : Error) × (r ≡ (err e, set)))
      ⊎ (((g.network_getter name ≡ ok none) × (r ≡ (ok tt, Map.delete name set)))
          ⊎ ((n : Network) × (n' : Network) × (g.network_getter name ≡ ok (some n))
              × (r ≡ (ok tt, Map.put name n' set))))

  pub refresh_network-Refreshed : Refreshed (refresh_network t g name set)
  unfolding refresh_network
  refresh_network-Refreshed = elim (Result-cases (g.network_getter name)) [
    | inr (e, h) ↦ inl (e, rw (h, refresh_network) refl)
    | inl (found, h) ↦ elim (Option-cases found) [
      | inl gone ↦ inr (inl (h ∙ ap ok gone, rw (h ∙ ap ok gone, refresh_network) refl))
      | inr (n, there) ↦ elim (Result-cases (g.subnet_getter name)) [
        | inr (e, k) ↦ inl (e, rw (h ∙ ap ok there, k, refresh_network) refl)
        | inl (subnets, k) ↦ elim (Result-cases (add_subnets t g subnets n)) [
          | inr (e, l) ↦ inl (e, rw (h ∙ ap ok there, k, l, refresh_network) refl)
          | inl (n', l) ↦
              inr (inr (n, n', h ∙ ap ok there, rw (h ∙ ap ok there, k, l, refresh_network) refl))
        ]
      ]
    ]
  ]

  changed_one :
      (s' : NetworkSet)
      → refresh_network t g name set ≡ (ok tt, s')
      → (e : Error) → (refresh_network t g name set).0 ≡ err e
      → (refresh_network t g name set).1 ≡ set
  changed_one s' r e h = absurd (ground (arith, ap (λ x. x.0) r, h))

  gone_runs : g.network_getter name ≡ ok none → Map.get name (refresh_network t g name set).1 ≡ none
  unfolding refresh_network
  gone_runs h =
      rw (h, refresh_network)
        (Map.get-delete name name set ∙ if_pos (str_dec name name) refl none (Map.get name set))

  -- Where refreshNetwork fails it leaves all networks as they were; in every case it leaves the
  -- networks of other names as they were; and where the getter finds no such network, the name
  -- has none afterwards.
  pub refresh_network_lem :
      ((e : Error)
        → (refresh_network t g name set).0 ≡ err e
        → (refresh_network t g name set).1 ≡ set)
      × ((other : String)
          → other ≢ name
          → Map.get other (refresh_network t g name set).1 ≡ Map.get other set)
      × (g.network_getter name ≡ ok none → Map.get name (refresh_network t g name set).1 ≡ none)
  refresh_network_lem = elim refresh_network-Refreshed [
    | inl (x, r) ↦ (λ e h. ap (λ y. y.1) r, λ other ne. ap (λ y. Map.get other y.1) r, gone_runs)
    | inr done ↦ elim done [
      | inl (_, r) ↦ (
        changed_one (Map.delete name set) r,
        λ other ne.
            ap (λ y. Map.get other y.1) r
            ∙ Map.get-delete other name set
            ∙ if_neg (str_dec other name) ne none (Map.get other set),
        gone_runs,
      )
      | inr (n, n', _, r) ↦ (
        changed_one (Map.put name n' set) r,
        λ other ne.
            ap (λ y. Map.get other y.1) r
            ∙ Map.get-put other name n' set
            ∙ if_neg (str_dec other name) ne (some n') (Map.get other set),
        gone_runs,
      )
    ]
  ]
