-- ===== src/Ipam/Subnet/Assign.antt =====
-- What Assign does to the entry of the address that it is asked for.
use container_advanced_netwo.Common.{
  ◌≡◌, ◌≢◌, refl, sym, subst, ◌∙◌, ◌⊎◌, inl, inr, Bool, true, false, Bool-cases, Option-cases, none,
  some, String, arith, str_dec, if_pos, if_neg,
}
use container_advanced_netwo.Common.Map
use container_advanced_netwo.Net.{IpText}
use container_advanced_netwo.Ipam.Base.{
  Error, ok, err, not_found_assigned_ip, not_available_assigned_ip,
}
use container_advanced_netwo.Ipam.Types.{Ip, Subnet, Status, allocated, reserved}
use container_advanced_netwo.Ipam.Subnet.{contains, make_ip, assign, reassign}

module _ (t : IpText) (pod_name pod_namespace ip : String) (forced : Bool) where
  -- An entry that the pod may take over: its own, or a reserved one by force.
  abbrev pub MayTake : Ip → Type 0
  MayTake held =
      ((held.pod_name ≡ pod_name) × (held.pod_namespace ≡ pod_namespace))
      ⊎ ((forced ≡ true) × (held.status ≡ reserved))

  -- The address is the pod's in the subnet from after, where no other entry has changed.
  pub record Owned (s s' : Subnet) (x : Ip) : Type 0 where
    pub inside : contains t s (t.parse_ip ip) ≡ true
    pub owner : (x.pod_name ≡ pod_name) × (x.pod_namespace ≡ pod_namespace) × (x.status ≡ allocated)
    pub entered : Map.get ip s'.using_ips ≡ some x
    pub elsewhere : (k : String) → k ≢ ip → Map.get k s'.using_ips ≡ Map.get k s.using_ips
    pub allowed : (held : Ip) → Map.get ip s.using_ips ≡ some held → MayTake held

  abbrev mine : Ip → Ip
  mine held = record held { pod_name = pod_name; pod_namespace = pod_namespace; status = allocated }

  Status-cases : (st : Status) → (st ≡ allocated) ⊎ (st ≡ reserved)
  Status-cases allocated = inl refl
  Status-cases reserved = inr refl

  abbrev Reassigned : Ip → Type 0
  Reassigned held =
      ((reassign t pod_name pod_namespace forced held ≡ some (mine held)) × MayTake held)
      ⊎ ((reassign t pod_name pod_namespace forced held ≡ none) × (¬ MayTake held))

  by_force :
      (held : Ip)
      → ((held.pod_namespace ≢ pod_namespace) ⊎ (held.pod_name ≢ pod_name))
      → Reassigned held
  unfolding reassign
  by_force held other = elim (Bool-cases forced) [
    | inl f ↦ elim (Status-cases held.status) [
      | inr g ↦ inl (ground (arith, other), inr (f, g))
      | inl g ↦ inr (ground (arith, other), λ may. ground (arith, other, may))
    ]
    | inr f ↦ inr (ground (arith, other), λ may. ground (arith, other, may))
  ]

  reassign_lem : (held : Ip) → Reassigned held
  unfolding reassign
  reassign_lem held = elim (str_dec held.pod_namespace pod_namespace) [
    | yes e ↦ elim (str_dec held.pod_name pod_name) [
      | yes f ↦ inl (ground arith, inl (f, e))
      | no nf ↦ by_force held (inr nf)
    ]
    | no ne ↦ by_force held (inl ne)
  ]

  enter :
      (s : Subnet) (x : Ip)
      → contains t s (t.parse_ip ip) ≡ true
      → (x.pod_name ≡ pod_name) × (x.pod_namespace ≡ pod_namespace) × (x.status ≡ allocated)
      → ((held : Ip) → Map.get ip s.using_ips ≡ some held → MayTake held)
      → Owned s (record s { using_ips = Map.put ip x s.using_ips }) x
  enter s x inside owner allowed = record {
    inside = inside;
    owner = owner;
    entered =
        Map.get-put ip ip x s.using_ips
        ∙ if_pos (str_dec ip ip) refl (some x) (Map.get ip s.using_ips);
    elsewhere = λ k ne.
        Map.get-put k ip x s.using_ips ∙ if_neg (str_dec k ip) ne (some x) (Map.get k s.using_ips);
    allowed = allowed;
  }

  -- Assign enters the address for the pod where it lies in the subnet and is free, the pod's own,
  -- or reserved and asked for by force, and no other entry changes; in every other case it
  -- returns an error and leaves the subnet as it was.
  pub assign_lem :
      (s : Subnet)
      → ((x : Ip) × (s' : Subnet) × (assign t pod_name pod_namespace ip forced s ≡ (ok x, s'))
          × Owned s s' x)
        ⊎ ((e : Error) × (assign t pod_name pod_namespace ip forced s ≡ (err e, s))
            × ((contains t s (t.parse_ip ip) ≡ false)
                ⊎ ((held : Ip) × (Map.get ip s.using_ips ≡ some held) × (¬ MayTake held))))
  unfolding assign make_ip
  assign_lem s = elim (Bool-cases (contains t s (t.parse_ip ip))) [
    | inr e ↦ inr (not_found_assigned_ip, rw e refl, inl e)
    | inl e ↦ elim (Option-cases (Map.get ip s.using_ips)) [
      | inl f ↦
          let x = make_ip s (t.parse_ip ip) pod_name pod_namespace allocated in
          inl (
            x,
            record s { using_ips = Map.put ip x s.using_ips },
            rw (e, f, assign) refl,
            enter s x e (refl, refl, refl) (λ held g. absurd (ground (arith, f, g))),
          )
      | inr (held, f) ↦ elim (reassign_lem held) [
        | inl (g, may) ↦ inl (
          mine held,
          record s { using_ips = Map.put ip (mine held) s.using_ips },
          rw (e, f, g, assign) refl,
          enter s (mine held) e (refl, refl, refl)
              (λ other h.
                let both : some held ≡ some other = sym f ∙ h in
                let same : held ≡ other = cc in subst MayTake same may),
        )
        | inr (g, may) ↦
            inr (not_available_assigned_ip, rw (e, f, g, assign) refl, inr (held, f, may))
      ]
    ]
  ]
