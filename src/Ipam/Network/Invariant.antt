-- ===== src/Ipam/Network/Invariant.antt =====
-- The well-formed networks, and that the calls on their subnets keep them so.
use container_advanced_netwo.Common.{
  ℕ, ◌≡◌, sym, ◌∙◌, ap, subst, inl, inr, Bool, true, false, Option-cases, some, String, arith,
  ℕ_discrete, length-set, get_elem?, get_elem?-set_self, get_elem?-set_ne, lt-of-get_elem?, set,
}
use container_advanced_netwo.Common.Map
use container_advanced_netwo.Net.{IpText}
use container_advanced_netwo.Ipam.Base.{M, Result, ok, err, ◌>>=◌}
use container_advanced_netwo.Ipam.Types.{Subnet, SubnetSlice, Network}
use container_advanced_netwo.Ipam.Subnet.Invariant.{IsValid}
use container_advanced_netwo.Ipam.SubnetSlice.{get_available_subnet}
use container_advanced_netwo.Ipam.SubnetSlice.Rotation.{IsSlice, get_available_subnet_lem}
use container_advanced_netwo.Ipam.Network.{
  SubnetRef, slice_of, set_slice, load, on_slice, on_subnet,
}

module _ (t : IpText) where
  -- The slice is well-formed, and so is each of its subnets, which are of its family.
  pub record IsFamily (v6 : Bool) (s : SubnetSlice) : Type 0 where
    pub slice : IsSlice s
    pub each :
        (i : ℕ) (subnet : Subnet)
        → get_elem? s.subnets i ≡ some subnet
        → IsValid t subnet × (subnet.ipv6 ≡ v6)

  pub record IsNetwork (n : Network) : Type 0 where
    pub v4 : IsFamily false n.ipv4_subnets
    pub v6 : IsFamily true n.ipv6_subnets

  pub slice_of-IsFamily : (b : Bool) (n : Network) → IsNetwork n → IsFamily b (slice_of b n)
  slice_of-IsFamily true n v = v.v6
  slice_of-IsFamily false n v = v.v4

  pub set_slice-IsNetwork :
      (b : Bool) (s : SubnetSlice) (n : Network)
      → IsNetwork n
      → IsFamily b s
      → IsNetwork (set_slice b s n)
  set_slice-IsNetwork true s n v f = record { v4 = v.v4; v6 = f }
  set_slice-IsNetwork false s n v f = record { v4 = f; v6 = v.v6 }

  -- A call on a subnet that keeps it well-formed, with its name and its family.
  pub record Stays (s s' : Subnet) : Type 0 where
    pub valid : IsValid t s'
    pub same_name : s'.name ≡ s.name
    pub same_family : s'.ipv6 ≡ s.ipv6

  abbrev pub Keeps : {A : Type 0} → (Subnet → Result A × Subnet) → Type 0
  Keeps call = (s : Subnet) → IsValid t s → Stays s (call s).1

  store-IsFamily :
      (b : Bool) (s : SubnetSlice) (i : ℕ) (old new : Subnet)
      → IsFamily b s
      → get_elem? s.subnets i ≡ some old
      → Stays old new
      → IsFamily b (record s { subnets = set s.subnets i new })
  store-IsFamily b s i old new f found stays = record {
    slice = record {
      counted = rw length-set f.slice.counted;
      placed = f.slice.placed;
      indexed = indexed;
    };
    each = each;
  }
    where
      self : get_elem? (set s.subnets i new) i ≡ some new
      self = get_elem?-set_self s.subnets i new (lt-of-get_elem? s.subnets i found)

      indexed :
          (name : String) (j : ℕ)
          → Map.get name s.subnet_index_map ≡ some j
          → (sn : Subnet) × (get_elem? (set s.subnets i new) j ≡ some sn) × (sn.name ≡ name)
      indexed name j h =
          let (sn, at, named) = f.slice.indexed name j h in
          elim (ℕ_discrete i j) [
            | yes e ↦
                let same : old ≡ sn = ground arith in
                (new, rw (← e) self, stays.same_name ∙ ap (λ x. x.name) same ∙ named)
            | no ne ↦ (sn, get_elem?-set_ne s.subnets new ne ∙ at, named)
          ]

      each :
          (j : ℕ) (sn : Subnet)
          → get_elem? (set s.subnets i new) j ≡ some sn
          → IsValid t sn × (sn.ipv6 ≡ b)
      each j sn at = elim (ℕ_discrete i j) [
        | yes e ↦
            let here : some new ≡ some sn =
              sym self ∙ ap (get_elem? (set s.subnets i new)) e ∙ at in
            let same : new ≡ sn = cc in
            (
              subst (IsValid t) same stays.valid,
              ap (λ x. x.ipv6) (sym same) ∙ stays.same_family ∙ (f.each i old found).1,
            )
        | no ne ↦ f.each j sn (sym (get_elem?-set_ne s.subnets new ne) ∙ at)
      ]

  pub on_subnet-IsNetwork :
      {A : Type 0} (r : SubnetRef) (call : Subnet → Result A × Subnet) (n : Network)
      → Keeps call
      → IsNetwork n
      → IsNetwork (on_subnet r call n).1
  unfolding on_subnet
  on_subnet-IsNetwork r call n keeps v = elim (Option-cases (load r n)) [
    | inl e ↦ rw (e, on_subnet) v
    | inr (subnet, e) ↦
        let f = slice_of-IsFamily r.is_v6 n v in
        rw (e, on_subnet)
          (set_slice-IsNetwork r.is_v6 _ n v (
            store-IsFamily r.is_v6 (slice_of r.is_v6 n) r.index subnet (call subnet).1 f e
              (keeps subnet (f.each r.index subnet e).0)))
  ]

  get_available_subnet-IsFamily :
      (b : Bool) (s : SubnetSlice) → IsFamily b s → IsFamily b (get_available_subnet s).1
  get_available_subnet-IsFamily b s f = elim (get_available_subnet_lem s f.slice) [
    | inl c ↦ rw c.result (record {
      slice = record {
        counted = f.slice.counted;
        placed = inr (omega (arith, f.slice.counted, lt-of-get_elem? s.subnets _ c.found));
        indexed = f.slice.indexed;
      };
      each = f.each;
    })
    | inr (e, _) ↦ rw e f
  ]

  -- A call on the network that keeps it well-formed, also where it fails.
  abbrev pub Preserves : {A : Type 0} → M Network A → Type 0
  Preserves m = (n : Network) → IsNetwork n → IsNetwork (m n).1

  bind_at :
      {A B : Type 0} (f : A → M Network B) (r : Result A) (n : Network)
      → ((a : A) → Preserves (f a))
      → IsNetwork n
      → IsNetwork (elim r as (λ _. Result B × Network) [ ok a ↦ f a n | err e ↦ (err e, n) ]).1
  bind_at f (ok a) n each v = each a n v
  bind_at f (err e) n each v = v

  pub bind-Preserves :
      {A B : Type 0} (m : M Network A) (f : A → M Network B)
      → Preserves m
      → ((a : A) → Preserves (f a))
      → Preserves (m >>= f)
  unfolding ◌>>=◌
  bind-Preserves m f first each n v = bind_at f (m n).0 (m n).1 each (first n v)

  pub on_slice-Preserves : (b : Bool) → Preserves (on_slice b get_available_subnet)
  on_slice-Preserves b n v =
      set_slice-IsNetwork b _ n v
        (get_available_subnet-IsFamily b (slice_of b n) (slice_of-IsFamily b n v))
