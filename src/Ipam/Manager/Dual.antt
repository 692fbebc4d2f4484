-- ===== src/Ipam/Manager/Dual.antt =====
-- The dual stack allocation: both addresses are entered, or none.
use container_advanced_netwo.Common.{
  String, ℕ, ◌≡◌, refl, sym, subst, ap, ◌∙◌, ◌⊎◌, inl, inr, Bool, true, false, List, [], ◌∷◌, none,
  some, get_elem?,
}
use container_advanced_netwo.Net.{IpText}
use container_advanced_netwo.Ipam.Base.{
  Result-cases, Result, ok, err, Error, ◌>>=◌, no_ip_left, lift,
}
use container_advanced_netwo.Ipam.Types.{Ip, Subnet, Network, PodInfo}
use container_advanced_netwo.Ipam.Subnet.{allocate_next, release}
use container_advanced_netwo.Ipam.Subnet.Invariant.{IsValid}
use container_advanced_netwo.Ipam.Subnet.Allocate.{release-allocate_next}
use container_advanced_netwo.Ipam.Network.{
  get_subnet_by_name_or_available, get_dual_stack_subnets, SubnetRef, slice_of, store, on_subnet,
}
use container_advanced_netwo.Ipam.Network.Invariant.{IsNetwork, slice_of-IsFamily}
use container_advanced_netwo.Ipam.Network.Calls.{get_subnet_by_name_or_available-Preserves}
use container_advanced_netwo.Ipam.Network.Selection.{
  used, using_of, SameUsed, SameSubnets, ref_at, get_subnet_by_name_or_available-Selected,
  SameSubnets-SameUsed,
}
use container_advanced_netwo.Ipam.Manager.{
  two_subnets, allocate_from, release_at, finish_dual, allocate_second, allocate_dual,
}
use container_advanced_netwo.Ipam.Manager.Entries.{
  There, store-There, used-store_ne, used-store_same, store-SameUsed, SameUsed-trans, bind-ok,
  bind-err, used-store_to, on_subnet-Turn, store-Gave, Gave-same, allocate_from-From, Gave,
}

module _ (t : IpText) (pod : PodInfo) where
  -- The two ends of a dual stack allocation.
  abbrev pub Two : Network → Result (List Ip) × Network → Type 0
  Two n r =
      ((v4_ip : Ip) × (v6_ip : Ip) × (r.0 ≡ ok (v4_ip ∷ v6_ip ∷ []))
        × Gave t pod false n r.1 v4_ip
        × Gave t pod true n r.1 v6_ip)
      ⊎ ((e : Error) × (r.0 ≡ err e) × SameUsed n r.1)

  finish_runs :
      (i : ℕ) (s' : Subnet) (v4_ip : Ip) (n : Network)
      → There false i n s'
      → finish_dual t (ref_at false i) v4_ip none n
        ≡ (err no_ip_left, store (ref_at false i) (release t (t.print_ip v4_ip.address.ip) s') n)
  unfolding finish_dual release_at on_subnet
  finish_runs i s' v4_ip n h = bind-ok _ _ tt n _ (rw (h, on_subnet) refl)

  -- The IPv4 address goes back: the entries are those from before it was taken.
  given_back :
      (i : ℕ) (s s' : Subnet) (v4_ip : Ip) (n n' : Network)
      → IsValid t s
      → There false i n s
      → allocate_next t pod.name pod.namespace s ≡ (ok (some v4_ip), s')
      → slice_of false n' ≡ slice_of false (store (ref_at false i) s' n)
      → let r = finish_dual t (ref_at false i) v4_ip none n' in
        (r.0 ≡ err no_ip_left)
        × ((j : ℕ) → used false j r.1 ≡ used false j n)
        × (slice_of true r.1 ≡ slice_of true n')
  given_back i s s' v4_ip n n' v h e same =
      let ip = t.print_ip v4_ip.address.ip in
      let there : There false i n' s' =
        ap (λ x. get_elem? x.subnets i) same ∙ store-There false i s s' n h in
      let (k, back) = release-allocate_next t pod.name pod.namespace s s' v4_ip v e in
      rw (finish_runs i s' v4_ip n' there) (
        refl,
        used-store_to false i s' (release t ip s') n' n there
            (ap using_of h ∙ sym (ap (λ x. some x.using_ips) back))
            (λ j ne.
              ap (λ x. using_of (get_elem? x.subnets j)) same ∙ used-store_ne false i j s' n ne),
        refl,
      )

  second_Two :
      (i j : ℕ) (s4 s4' s6 : Subnet) (v4_ip : Ip) (n : Network) (r : Result (List Ip) × Network)
      → IsValid t s4
      → IsValid t s6
      → There false i n s4
      → There true j n s6
      → allocate_next t pod.name pod.namespace s4 ≡ (ok (some v4_ip), s4')
      → r
        ≡ allocate_second t pod
            (ref_at false i)
            (ref_at true j)
            v4_ip
            (store (ref_at false i) s4' n)
      → Two n r
  unfolding allocate_second finish_dual
  second_Two i j s4 s4' s6 v4_ip n r v4 v6 h4 h6 e4 run =
      let n' = store (ref_at false i) s4' n in
      elim (on_subnet-Turn t pod true j s6 n' h6 v6) [
        | inl (v6_ip, s6', e6, made) ↦
            let whole = run ∙ bind-ok _ _ _ n' _ made in
            inl (
              v4_ip,
              v6_ip,
              ap (λ x. x.0) whole,
              rw whole (
                  Gave-same t pod false n n n' _ v4_ip refl (λ _. refl)
                    (store-Gave t pod false i s4 s4' v4_ip n v4 h4 e4)),
              rw whole (
                  Gave-same t pod true n' n _ _ v6_ip refl (λ _. refl)
                    (store-Gave t pod true j s6 s6' v6_ip n' v6 h6 e6)),
            )
        | inr (s6', kept, made) ↦
            let n'' = store (ref_at true j) s6' n' in
            let whole = run ∙ bind-ok _ _ _ n' n'' made in
            let (failed, v4_same, v6_same) = given_back i s4 s4' v4_ip n n'' v4 h4 e4 refl in
            inr (
              no_ip_left,
              ap (λ x. x.0) whole ∙ failed,
              both s6' kept (λ x. ap (λ y. used false x y.1) whole ∙ v4_same x)
                  (ap (λ y. slice_of true y.1) whole ∙ v6_same),
            )
      ]
    where
      both :
          (s6' : Subnet)
          → s6'.using_ips ≡ s6.using_ips
          → ((x : ℕ) → used false x r.1 ≡ used false x n)
          → slice_of true r.1 ≡ slice_of true (store (ref_at true j) s6' n)
          → SameUsed n r.1
      both s6' kept v4_same v6_same false x = v4_same x
      both s6' kept v4_same v6_same true x =
          ap (λ s. using_of (get_elem? s.subnets x)) v6_same
          ∙ used-store_same true j s6 s6' n h6 kept x

  Two-SameSubnets :
      (n n' : Network) (r : Result (List Ip) × Network) → SameSubnets n n' → Two n' r → Two n r
  Two-SameSubnets n n' r same two = elim two [
    | inl (v4_ip, v6_ip, e, v4, v6) ↦ inl (
      v4_ip,
      v6_ip,
      e,
      Gave-same t pod false n' n _ _ v4_ip (sym (same false)) (λ _. refl) v4,
      Gave-same t pod true n' n _ _ v6_ip (sym (same true)) (λ _. refl) v6,
    )
    | inr (x, e, kept) ↦ inr (x, e, SameUsed-trans n n' r.1 (SameSubnets-SameUsed n n' same) kept)
  ]

  -- The lookup of both subnets chooses one of each family, or fails, and changes no subnet.
  abbrev Pair : Network → Result (SubnetRef × SubnetRef) × Network → Type 0
  Pair n res =
      (n' : Network) × SameSubnets n n'
      × (((i : ℕ) × (j : ℕ) × (s4 : Subnet) × (s6 : Subnet) × (res
              ≡ (ok (ref_at false i, ref_at true j), n'))
            × There false i n' s4
            × There true j n' s6)
          ⊎ ((e : Error) × (res ≡ (err e, n'))))

  get_dual_stack_subnets-Pair :
      (v4_name v6_name : String) (n : Network)
      → IsNetwork t n
      → Pair n (get_dual_stack_subnets v4_name v6_name n)
  unfolding get_dual_stack_subnets
  get_dual_stack_subnets-Pair v4_name v6_name n v =
      let (n1, same1, first) =
        get_subnet_by_name_or_available-Selected false v4_name n v.v4.slice in
      elim first [
        | inr (x, e) ↦ (n1, same1, inr (x, bind-err _ _ x n n1 e))
        | inl (i, s4, e, h4) ↦
            let v1 : IsNetwork t n1 =
              subst (λ r. IsNetwork t r.1) e
                (get_subnet_by_name_or_available-Preserves t false v4_name n v) in
            let (n2, same2, second) =
              get_subnet_by_name_or_available-Selected true v6_name n1 v1.v6.slice in
            let whole = bind-ok (get_subnet_by_name_or_available false v4_name) _ _ n n1 e in
            elim second [
              | inr (x, f) ↦ (n2, λ b. same2 b ∙ same1 b, inr (x, whole ∙ bind-err _ _ x n1 n2 f))
              | inl (j, s6, f, h6) ↦ (
                n2,
                λ b. same2 b ∙ same1 b,
                inl (
                  i,
                  j,
                  s4,
                  s6,
                  whole ∙ bind-ok _ _ _ n1 n2 f,
                  ap (λ l. get_elem? l i) (same2 false) ∙ h4,
                  h6,
                ),
              )
            ]
      ]

  There-IsValid :
      (b : Bool) (i : ℕ) (s : Subnet) (n n' : Network)
      → IsNetwork t n
      → SameSubnets n n'
      → There b i n' s
      → IsValid t s
  There-IsValid b i s n n' v same h =
      ((slice_of-IsFamily t b n v).each i s (ap (λ l. get_elem? l i) (sym (same b)) ∙ h)).0

  paired_Two :
      (i j : ℕ) (s4 s6 : Subnet) (n : Network) (r : Result (List Ip) × Network)
      → IsValid t s4
      → IsValid t s6
      → There false i n s4
      → There true j n s6
      → r
        ≡ (do
          v4_ip ← allocate_from t pod (ref_at false i)
          allocate_second t pod (ref_at false i) (ref_at true j) v4_ip)
            n
      → Two n r
  paired_Two i j s4 s6 n r v4 v6 h4 h6 run = elim (allocate_from-From t pod false i s4 n h4 v4) [
    | inl (v4_ip, s4', e, made) ↦
        second_Two i j s4 s4' s6 v4_ip n r v4 v6 h4 h6 e (run ∙ bind-ok _ _ _ n _ made)
    | inr (s4', kept, made) ↦
        let whole = run ∙ bind-err _ _ _ n _ made in
        inr (
          no_ip_left,
          ap (λ x. x.0) whole,
          λ b x. ap (λ y. used b x y.1) whole ∙ store-SameUsed false i s4 s4' n h4 kept b x,
        )
  ]

  -- On a well-formed network, allocateDualStack either returns one IPv4 and one IPv6 address,
  -- each granted by one subnet of its family while no other entry of the network changes; or it
  -- returns an error and no entry of the network changes, the IPv4 address taken before a missing
  -- IPv6 one included.
  pub allocate_dual-Two :
      (subnets : List String) (n : Network) → IsNetwork t n → Two n (allocate_dual t pod subnets n)
  unfolding allocate_dual
  allocate_dual-Two subnets n v = elim (Result-cases (two_subnets subnets)) [
    | inr (x, e) ↦
        let whole = bind-err (lift (two_subnets subnets)) _ x n n (ap (λ r. (r, n)) e) in
        inr (x, ap (λ x. x.0) whole, λ b j. ap (λ x. used b j x.1) whole)
    | inl (names, e) ↦
        let whole = bind-ok (lift (two_subnets subnets)) _ names n n (ap (λ r. (r, n)) e) in
        let (n', same, chosen) = get_dual_stack_subnets-Pair names.0 names.1 n v in
        elim chosen [
          | inr (x, f) ↦
              let run = whole ∙ bind-err _ _ x n n' f in
              inr (
                x,
                ap (λ x. x.0) run,
                λ b j. ap (λ x. used b j x.1) run ∙ SameSubnets-SameUsed n n' same b j,
              )
          | inl (i, j, s4, s6, f, h4, h6) ↦ Two-SameSubnets n n' _ same (
              paired_Two i j s4 s6 n' _ (There-IsValid false i s4 n n' v same h4)
                (There-IsValid true j s6 n n' v same h6) h4 h6 (whole ∙ bind-ok _ _ _ n n' f))
        ]
  ]
