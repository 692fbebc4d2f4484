-- ===== src/Ipam/Manager/Assignment.antt =====
-- pkg/ipam/manager/manager.go: Assign against the ledger of the manager.
use container_advanced_netwo.Common.{
  ℕ, ◌≡◌, ◌≢◌, refl, sym, subst, ap, ◌∙◌, ◌⊎◌, inl, inr, Bool, true, String, some, List, [], ◌∷◌,
  Option-cases, str_dec, get_elem?, arith, ℕ_discrete,
}
use container_advanced_netwo.Net.{IpText}
use container_advanced_netwo.Ipam.Base.{
  M, Error, Result, ok, err, ◌>>=◌, return, validation_fail, wrong_suites_count,
  unsupported_ip_family, panics,
}
use container_advanced_netwo.Ipam.Types.{
  Ip, Subnet, Network, NetworkSet, PodInfo, SubnetIpSuite, IpFamilyMode, ipv4, ipv6, dual_stack,
  other_mode, allocated, reserved,
}
use container_advanced_netwo.Ipam.Subnet.Assign.{Owned, assign_lem}
use container_advanced_netwo.Ipam.Network.{SubnetRef, slice_of, load, store, on_subnet}
use container_advanced_netwo.Ipam.Network.Selection.{using_of, ref_at}
use container_advanced_netwo.Ipam.Manager.{
  valid_request, validate_ipv4, validate_ipv6, assign_at, look_up, assign_one, assign_dual,
  assign_family, assign_pod,
}
use container_advanced_netwo.Ipam.Manager.Entries.{
  bind-ok, bind-err, store-SameUsed, used-store_ne, used-store-not, store-There,
}
use container_advanced_netwo.Ipam.Manager.Ledger.{
  bool_dec, in_set, entry, Ledger, view, Same, SameUsed-Same, Held, Same-Held, Held-trans, Take,
  Take-Held,
}
use container_advanced_netwo.Ipam.Manager.Refinement.{
  book, Booked, refl-Same, other_family, on_network-Booked, guarded-Booked,
}

-- The steps of an assignment: each address goes to the pod by the rule.
pub data Takes (pod : PodInfo) (may : Ip → Type 0) : List Ip → Ledger → Ledger → Type 0 where
  nothing : {l l' : Ledger} → Same l l' → Takes pod may [] l l'
  take :
      {ip : Ip} {ips : List Ip} {l m l' : Ledger}
      → Take pod may ip l m
      → Takes pod may ips m l'
      → Takes pod may (ip ∷ ips) l l'

-- An assignment: it takes the addresses that it returns, or fails after at most one was taken.
abbrev pub Assigns : PodInfo → (Ip → Type 0) → Ledger → Result (List Ip) → Ledger → Type 0
Assigns pod may l r l' =
    ((ips : List Ip) × (r ≡ ok ips) × Takes pod may ips l l')
    ⊎ ((e : Error) × (r ≡ err e) × (Same l l' ⊎ ((ip : Ip) × Takes pod may (ip ∷ []) l l')))

failed-Assigns :
    (pod : PodInfo) (may : Ip → Type 0) (e : Error) (l : Ledger) → Assigns pod may l (err e) l
failed-Assigns pod may e l = inr (e, refl, inl (refl-Same l))

module _ (t : IpText) (pod : PodInfo) (force : Bool) where
  -- What the pod may take: a free address, its own, or a reserved one by force.
  abbrev pub Rule : Ip → Type 0
  Rule held =
      ((held.pod_name ≡ pod.name) × (held.pod_namespace ≡ pod.namespace))
      ⊎ ((force ≡ true) × (held.status ≡ reserved))

  -- The ends of one assignment in a network.
  abbrev At : Network → Result Ip × Network → Type 0
  At n r =
      ((x : Ip) × (n' : Network) × (r ≡ (ok x, n')) × Take pod Rule x (view n) (view n'))
      ⊎ ((e : Error) × (n' : Network) × (r ≡ (err e, n')) × Same (view n) (view n'))

  store-Take :
      (v6 : Bool) (i : ℕ) (ip : String) (s s' : Subnet) (x : Ip) (n : Network)
      → get_elem? (slice_of v6 n).subnets i ≡ some s
      → Owned t pod.name pod.namespace ip force s s' x
      → Take pod Rule x (view n) (view (store (ref_at v6 i) s' n))
  store-Take v6 i ip s s' x n there own = record {
    v6 = v6;
    place = i;
    key = ip;
    owner = own.owner;
    allowed = λ held e. own.allowed held (ap (λ u. in_set ip (using_of u)) (sym there) ∙ e);
    entered = ap (in_set ip) (ap using_of (store-There v6 i s s' n there)) ∙ own.entered;
    elsewhere = away;
  }
    where
      same_place : (k : String) → k ≢ ip → entry v6 i k (store (ref_at v6 i) s' n) ≡ entry v6 i k n
      same_place k ne =
          ap (in_set k) (ap using_of (store-There v6 i s s' n there))
          ∙ own.elsewhere k ne
          ∙ ap (λ u. in_set k (using_of u)) (sym there)

      within :
          (j : ℕ) (k : String)
          → (j ≢ i) ⊎ (k ≢ ip)
          → entry v6 j k (store (ref_at v6 i) s' n) ≡ entry v6 j k n
      within j k other = elim (ℕ_discrete i j) [
        | no ne ↦ ap (in_set k) (used-store_ne v6 i j s' n ne)
        | yes e ↦ elim other [
          | inl ne ↦ absurd (ne (sym e))
          | inr ne ↦
              subst (λ a. entry v6 a k (store (ref_at v6 i) s' n) ≡ entry v6 a k n) e
                (same_place k ne)
        ]
      ]

      beyond :
          (b : Bool) (j : ℕ) (k : String)
          → b ≢ v6
          → entry b j k (store (ref_at v6 i) s' n) ≡ entry b j k n
      beyond b j k ne =
          subst (λ c. entry c j k (store (ref_at v6 i) s' n) ≡ entry c j k n)
            (sym (other_family b v6 ne)) (ap (in_set k) (used-store-not v6 i s' n j))

      away :
          (b : Bool) (j : ℕ) (k : String)
          → (b ≢ v6) ⊎ ((j ≢ i) ⊎ (k ≢ ip))
          → entry b j k (store (ref_at v6 i) s' n) ≡ entry b j k n
      away b j k (inl ne) = beyond b j k ne
      away b j k (inr other) = elim (bool_dec b v6) [
        | no ne ↦ beyond b j k ne
        | yes e ↦
            subst (λ c. entry c j k (store (ref_at v6 i) s' n) ≡ entry c j k n) (sym e)
              (within j k other)
      ]

  assign_at-At : (r : SubnetRef) (ip : String) (n : Network) → At n (assign_at t pod force r ip n)
  unfolding assign_at on_subnet
  assign_at-At r ip n = elim (Option-cases (load r n)) [
    | inl e ↦ inr (panics, n, rw (e, on_subnet) refl, refl-Same (view n))
    | inr (s, e) ↦ elim (assign_lem t pod.name pod.namespace ip force s) [
      | inr (x, f, why) ↦ inr (
        x,
        store r s n,
        rw (e, f, on_subnet) refl,
        SameUsed-Same n (store r s n) (store-SameUsed r.is_v6 r.index s s n e refl),
      )
      | inl (x, s', f, own) ↦
          inl (
            x,
            store r s' n,
            rw (e, f, on_subnet) refl,
            store-Take r.is_v6 r.index ip s s' x n e own,
          )
    ]
  ]

  -- The end of an assignment of one address.
  one-Assigns :
      (r : SubnetRef) (ip : String) (n : Network)
      → let res = (do x ← assign_at t pod force r ip; return (x ∷ [])) n in
        Assigns pod Rule (view n) res.0 (view res.1)
  one-Assigns r ip n = elim (assign_at-At r ip n) [
    | inl (x, n', e, took) ↦
        rw (bind-ok (assign_at t pod force r ip) (λ y. return (y ∷ [])) x n n' e)
          (inl (x ∷ [], refl, take took (nothing (refl-Same (view n')))))
    | inr (x, n', e, same) ↦
        rw (bind-err (assign_at t pod force r ip) (λ y. return (y ∷ [])) x n n' e)
          (inr (x, refl, inl same))
  ]

  second-Assigns :
      (r4 r6 : SubnetRef) (v4 v6 : String) (n : Network)
      → let res =
          (do x ← assign_at t pod force r4 v4; y ← assign_at t pod force r6 v6; return (x ∷ y ∷ []))
            n in
        Assigns pod Rule (view n) res.0 (view res.1)
  second-Assigns r4 r6 v4 v6 n = elim (assign_at-At r4 v4 n) [
    | inr (e, n', f, same) ↦
        rw (bind-err (assign_at t pod force r4 v4) _ e n n' f) (inr (e, refl, inl same))
    | inl (x, n', f, took) ↦ elim (assign_at-At r6 v6 n') [
      | inl (y, n'', g, took') ↦
          rw
            (
              bind-ok (assign_at t pod force r4 v4) _ x n n' f,
              bind-ok (assign_at t pod force r6 v6) (λ y. return (x ∷ y ∷ [])) y n' n'' g,
            )
            (inl (x ∷ y ∷ [], refl, take took (take took' (nothing (refl-Same (view n''))))))
      | inr (e, n'', g, same) ↦
          rw
            (
              bind-ok (assign_at t pod force r4 v4) _ x n n' f,
              bind-err (assign_at t pod force r6 v6) (λ y. return (x ∷ y ∷ [])) e n' n'' g,
            )
            (inr (e, refl, inr (x, take took (nothing same))))
    ]
  ]

  -- A step that only reads the network, before an assignment.
  read-Assigns :
      {A : Type 0} (m : M Network A) (f : A → M Network (List Ip)) (r : Result A) (n : Network)
      → m n ≡ (r, n)
      → ((a : A) → Assigns pod Rule (view n) (f a n).0 (view (f a n).1))
      → Assigns pod Rule (view n) ((m >>= f) n).0 (view ((m >>= f) n).1)
  read-Assigns m f (ok a) n e rest = rw (bind-ok m f a n n e) (rest a)
  read-Assigns m f (err x) n e rest = rw (bind-err m f x n n e) (failed-Assigns pod Rule x (view n))

  assign_one-Assigns :
      (validate : String → Result (Unit {0})) (suites : List SubnetIpSuite) (n : Network)
      → let res = assign_one t validate pod suites force n in
        Assigns pod Rule (view n) res.0 (view res.1)
  unfolding assign_one look_up
  assign_one-Assigns validate [] n = failed-Assigns pod Rule wrong_suites_count (view n)
  assign_one-Assigns validate (_ ∷ _ ∷ _) n = failed-Assigns pod Rule wrong_suites_count (view n)
  assign_one-Assigns validate (suite ∷ []) n =
      read-Assigns _ _ _ n refl
        (λ _. read-Assigns (look_up t suite) _ _ n refl (λ r. one-Assigns r suite.ip n))

  assign_dual-Assigns :
      (suites : List SubnetIpSuite) (n : Network)
      → let res = assign_dual t pod suites force n in Assigns pod Rule (view n) res.0 (view res.1)
  unfolding assign_dual look_up
  assign_dual-Assigns [] n = failed-Assigns pod Rule wrong_suites_count (view n)
  assign_dual-Assigns (_ ∷ []) n = failed-Assigns pod Rule wrong_suites_count (view n)
  assign_dual-Assigns (_ ∷ _ ∷ _ ∷ _) n = failed-Assigns pod Rule wrong_suites_count (view n)
  assign_dual-Assigns (v4 ∷ v6 ∷ []) n = read-Assigns _ _ _ n refl (λ _.
      read-Assigns _ _ _ n refl (λ _.
        read-Assigns (look_up t v4) _ _ n refl (λ r4.
          read-Assigns (look_up t v6) _ _ n refl (λ r6. second-Assigns r4 r6 v4.ip v6.ip n))))

  assign_family-Booked :
      (suites : List SubnetIpSuite) (name : String) (mode : IpFamilyMode) (set : NetworkSet)
      → Booked name (Assigns pod Rule) set (assign_family t pod suites force name mode set)
  unfolding assign_family
  assign_family-Booked suites name ipv4 set =
      on_network-Booked name _ (Assigns pod Rule) set (failed-Assigns pod Rule)
        (λ n _. assign_one-Assigns (validate_ipv4 t) suites n)
  assign_family-Booked suites name ipv6 set =
      on_network-Booked name _ (Assigns pod Rule) set (failed-Assigns pod Rule)
        (λ n _. assign_one-Assigns (validate_ipv6 t) suites n)
  assign_family-Booked suites name dual_stack set =
      on_network-Booked name _ (Assigns pod Rule) set (failed-Assigns pod Rule)
        (λ n _. assign_dual-Assigns suites n)
  assign_family-Booked suites name (other_mode _) set =
      (failed-Assigns pod Rule unsupported_ip_family (book name set), λ other ne b i k. refl)

  -- Assign of the manager refines its ledger: where it returns addresses, the ledger of the
  -- network takes one step for each of them, which enters the address for the pod where it was
  -- free, its own, or reserved and asked for by force, and changes no other entry; where it
  -- fails, at most one such step was made. The entries of the other networks never change.
  pub assign_pod-Assigns :
      (name : String) (suites : List SubnetIpSuite) (set : NetworkSet)
      → Booked name (Assigns pod Rule) set (assign_pod t name pod suites force set)
  unfolding assign_pod
  assign_pod-Assigns name suites set =
      guarded-Booked name (valid_request name pod) validation_fail _ (Assigns pod Rule) set
        (failed-Assigns pod Rule) (assign_family-Booked suites name pod.ip_family set)

  Rule-own :
      (held : Ip)
      → Rule held
      → held.status ≡ allocated
      → (held.pod_name ≡ pod.name) × (held.pod_namespace ≡ pod.namespace)
  Rule-own held may st = ground (arith, may, st)

  Takes-Held : (ips : List Ip) (l l' : Ledger) → Takes pod Rule ips l l' → Held l l'
  Takes-Held [] l l' (nothing same) = Same-Held l l' same
  Takes-Held (ip ∷ ips) l l' (take {m = m} took rest) =
      Held-trans l m l' (Take-Held pod Rule ip l m Rule-own took) (Takes-Held ips m l' rest)

  -- No Assign of the manager takes an allocated address from its pod.
  pub assign_pod-Held :
      (name : String) (suites : List SubnetIpSuite) (set : NetworkSet) (other : String)
      → Held (book other set) (book other (assign_pod t name pod suites force set).1)
  assign_pod-Held name suites set other =
      let (here, others) = assign_pod-Assigns name suites set in
      elim (str_dec other name) [
        | no ne ↦ Same-Held _ _ (others other ne)
        | yes e ↦
            subst (λ o. Held (book o set) (book o (assign_pod t name pod suites force set).1))
              (sym e)
              (elim here [
                | inl (ips, _, took) ↦ Takes-Held ips _ _ took
                | inr (x, _, inl same) ↦ Same-Held _ _ same
                | inr (x, _, inr (ip, took)) ↦ Takes-Held (ip ∷ []) _ _ took
              ])
      ]
