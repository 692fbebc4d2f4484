-- ===== src/Ipam/SubnetSlice/Built.antt =====
-- What GetSubnet finds in a slice that calls of AddSubnet have built.
use container_advanced_netwo.Common.{
  ℕ, zero, suc, ◌+◌, ◌-◌, ◌<◌, ◌≡◌, ◌≢◌, refl, sym, ◌∙◌, ap, subst, ◌⊎◌, inl, inr, Option, none,
  some, List, [], ◌∷◌, ◌++◌, String, arith, str_dec, length, length-append, get_elem?,
  get_elem?-append, get_elem?-append_last, lt-of-get_elem?, Option-cases,
}
use container_advanced_netwo.Common.Map
use container_advanced_netwo.Net.{IpText}
use container_advanced_netwo.Ipam.Base.{
  Result, ok, err, not_ok, ok_inj, Result-cases, not_found_subnet,
}
use container_advanced_netwo.Ipam.Types.{Subnet, SubnetSlice, IpSet}
use container_advanced_netwo.Ipam.Subnet.{
  validate, fill_start, fill_end, canonicalize, prepare, sync,
}
use container_advanced_netwo.Ipam.SubnetSlice.{
  new_subnet_slice, append_subnet, add_subnet, get_subnet, at,
}

-- The subnets that are added, each with the net ID of its network and the addresses in use.
abbrev pub Addition : Type 0
Addition = Subnet × Option ℕ × IpSet

-- Calls of AddSubnet, one after the other.
unfoldable pub add_all : IpText → List Addition → SubnetSlice → Result SubnetSlice
add_all t [] s = ok s
add_all t ((subnet, parent_net_id, ips) ∷ more) s = elim (add_subnet t subnet parent_net_id ips s) [
  | err e ↦ err e
  | ok s' ↦ add_all t more s'
]

unfoldable pub names : List Subnet → List String
names [] = []
names (s ∷ ss) = s.name ∷ names ss

unfoldable pub names_added : List Addition → List String
names_added [] = []
names_added ((s, _, _) ∷ more) = s.name ∷ names_added more

fill_start_name : (s s' : Subnet) → fill_start s ≡ ok s' → s'.name ≡ s.name
unfolding fill_start
fill_start_name s s' h = ground arith

fill_end_name : (s s' : Subnet) → fill_end s ≡ ok s' → s'.name ≡ s.name
unfolding fill_end
fill_end_name s s' h = ground arith

canonicalize_name : (s s' : Subnet) → canonicalize s ≡ ok s' → s'.name ≡ s.name
unfolding canonicalize
canonicalize_name s s' h = elim (Option-cases (validate s)) [
  | inr (e, f) ↦ not_ok e s' (subst (λ r. r ≡ ok s') (rw (f, canonicalize) refl) h)
  | inl f ↦ elim (Result-cases (fill_start s)) [
    | inr (e, g) ↦ not_ok e s' (subst (λ r. r ≡ ok s') (rw (f, g, canonicalize) refl) h)
    | inl (s1, g) ↦
        fill_end_name s1 s' (subst (λ r. r ≡ ok s') (rw (f, g, canonicalize) refl) h)
        ∙ fill_start_name s s1 g
  ]
]

sync_name :
    (t : IpText) (parent : Option ℕ) (ips : IpSet) (s s' : Subnet)
    → sync t parent ips s ≡ ok s'
    → s'.name ≡ s.name
unfolding sync prepare
sync_name t parent ips s s' h = ground arith

-- An element of a list that has grown by one.
grown :
    (l : List Subnet) (x y : Subnet) (i : ℕ)
    → get_elem? (l ++ x ∷ []) i ≡ some y
    → (get_elem? l i ≡ some y) ⊎ ((i ≡ length l) × (y ≡ x))
grown [] x y zero h = inr (refl, ground (arith, h))
grown [] x y (suc i) h = absurd (ground (arith, h))
grown (a ∷ l) x y zero h = inl h
grown (a ∷ l) x y (suc i) h = elim (grown l x y i h) [
  | inl e ↦ inl e
  | inr (e, f) ↦ inr (ap suc e, f)
]

-- What the index map knows of a name: no subnet has it, or the last one that has it stands at the place.
abbrev Indexed : String → SubnetSlice → Type 0
Indexed name s =
    ((Map.get name s.subnet_index_map ≡ none)
      × ((i : ℕ) (sn : Subnet) → get_elem? s.subnets i ≡ some sn → sn.name ≢ name))
    ⊎ ((i : ℕ) × (sn : Subnet) × (Map.get name s.subnet_index_map ≡ some i)
        × (get_elem? s.subnets i ≡ some sn)
        × (sn.name ≡ name)
        × ((j : ℕ) (sn' : Subnet) → i < j → get_elem? s.subnets j ≡ some sn' → sn'.name ≢ name))

append_subnet-last :
    (subnet : Subnet) (s : SubnetSlice)
    → Map.get subnet.name (append_subnet subnet s).subnet_index_map ≡ some (length s.subnets)
unfolding append_subnet
append_subnet-last subnet s =
    let longer : length (s.subnets ++ subnet ∷ []) ≡ length s.subnets + 1 =
      length-append s.subnets (subnet ∷ []) in
    let place : length (s.subnets ++ subnet ∷ []) - 1 ≡ length s.subnets = omega (arith, longer) in
    ground (
      arith,
      place,
      Map.get-put subnet.name subnet.name (length (s.subnets ++ subnet ∷ []) - 1)
          s.subnet_index_map,
    )

append_subnet-before :
    (name : String) (subnet : Subnet) (s : SubnetSlice)
    → name ≢ subnet.name
    → Map.get name (append_subnet subnet s).subnet_index_map ≡ Map.get name s.subnet_index_map
unfolding append_subnet
append_subnet-before name subnet s ne =
    ground (
      arith,
      Map.get-put name subnet.name (length (s.subnets ++ subnet ∷ []) - 1) s.subnet_index_map,
    )

append_subnet-grown :
    (subnet : Subnet) (s : SubnetSlice) (i : ℕ) (sn : Subnet)
    → get_elem? (append_subnet subnet s).subnets i ≡ some sn
    → (get_elem? s.subnets i ≡ some sn) ⊎ ((i ≡ length s.subnets) × (sn ≡ subnet))
unfolding append_subnet
append_subnet-grown subnet s i sn h = grown s.subnets subnet sn i h

append_subnet-keeps :
    (subnet : Subnet) (s : SubnetSlice) (i : ℕ) (sn : Subnet)
    → get_elem? s.subnets i ≡ some sn
    → get_elem? (append_subnet subnet s).subnets i ≡ some sn
unfolding append_subnet
append_subnet-keeps subnet s i sn h =
    get_elem?-append s.subnets (subnet ∷ []) i (lt-of-get_elem? s.subnets i h) ∙ h

append_subnet-Indexed :
    (name : String) (subnet : Subnet) (s : SubnetSlice)
    → Indexed name s
    → Indexed name (append_subnet subnet s)
append_subnet-Indexed name subnet s v = elim (str_dec name subnet.name) [
  | yes e ↦ inr (
    length s.subnets,
    subnet,
    ap (λ a. Map.get a (append_subnet subnet s).subnet_index_map) e ∙ append_subnet-last subnet s,
    unfold append_subnet in get_elem?-append_last s.subnets subnet,
    sym e,
    λ j sn' later found. absurd (
        unfold append_subnet in
        (omega (
          arith,
          later,
          lt-of-get_elem? (s.subnets ++ subnet ∷ []) j found,
          length-append s.subnets (subnet ∷ []),
        ))),
  )
  | no ne ↦ other ne v
]
  where
    other : name ≢ subnet.name → Indexed name s → Indexed name (append_subnet subnet s)
    other ne (inl (missing, no_one)) = inl (
      append_subnet-before name subnet s ne ∙ missing,
      λ i sn found. elim (append_subnet-grown subnet s i sn found) [
        | inl old ↦ no_one i sn old
        | inr (_, e) ↦ λ same. ne (sym same ∙ ap (λ x. x.name) e)
      ],
    )
    other ne (inr (i, sn, placed, found, named, last)) = inr (
      i,
      sn,
      append_subnet-before name subnet s ne ∙ placed,
      append_subnet-keeps subnet s i sn found,
      named,
      λ j sn' later found'. elim (append_subnet-grown subnet s j sn' found') [
        | inl old ↦ last j sn' later old
        | inr (_, e) ↦ λ same. ne (sym same ∙ ap (λ x. x.name) e)
      ],
    )

-- AddSubnet appends the subnet of the name.
add_subnet-appends :
    (t : IpText) (subnet : Subnet) (parent : Option ℕ) (ips : IpSet) (s s' : SubnetSlice)
    → add_subnet t subnet parent ips s ≡ ok s'
    → (sn : Subnet) × (sn.name ≡ subnet.name) × (append_subnet sn s ≡ s')
unfolding add_subnet
add_subnet-appends t subnet parent ips s s' h = elim (Result-cases (canonicalize subnet)) [
  | inr (e, f) ↦ not_ok e s' (subst (λ r. r ≡ ok s') (rw (f, add_subnet) refl) h)
  | inl (s1, f) ↦ elim (Result-cases (sync t parent ips s1)) [
    | inr (e, g) ↦ not_ok e s' (subst (λ r. r ≡ ok s') (rw (f, g, add_subnet) refl) h)
    | inl (s2, g) ↦ (
      s2,
      sync_name t parent ips s1 s2 g ∙ canonicalize_name subnet s1 f,
      ok_inj (append_subnet s2 s) s' (subst (λ r. r ≡ ok s') (rw (f, g, add_subnet) refl) h),
    )
  ]
]

names-append :
    (l : List Subnet) (x : Subnet) (rest : List String)
    → names (l ++ x ∷ []) ++ rest ≡ names l ++ (x.name ∷ rest)
unfolding names
names-append [] x rest = refl
names-append (a ∷ l) x rest = ap (λ k. a.name ∷ k) (names-append l x rest)

names-append_subnet :
    (x : Subnet) (s : SubnetSlice) (rest : List String)
    → names (append_subnet x s).subnets ++ rest ≡ names s.subnets ++ (x.name ∷ rest)
unfolding append_subnet
names-append_subnet x s rest = names-append s.subnets x rest

append_nil : (l : List String) → l ++ [] ≡ l
append_nil [] = refl
append_nil (a ∷ l) = ap (λ k. a ∷ k) (append_nil l)

add_all-Indexed :
    (t : IpText) (more : List Addition) (s s' : SubnetSlice)
    → ((name : String) → Indexed name s)
    → add_all t more s ≡ ok s'
    → ((name : String) → Indexed name s') × (names s'.subnets ≡ names s.subnets ++ names_added more)
unfolding add_all names_added
add_all-Indexed t [] s s' v h =
    let same = ok_inj s s' h in
    (
      subst (λ x. (name : String) → Indexed name x) same v,
      subst (λ x. names x.subnets ≡ names s.subnets ++ []) same
          (sym (append_nil (names s.subnets))),
    )
add_all-Indexed t ((subnet, parent, ips) ∷ more) s s' v h =
    elim (Result-cases (add_subnet t subnet parent ips s)) [
      | inr (e, f) ↦ not_ok e s' (subst (λ r. r ≡ ok s') (rw (f, add_all) refl) h)
      | inl (s1, f) ↦
          let (sn, named, grew) = add_subnet-appends t subnet parent ips s s1 f in
          let v1 : (name : String) → Indexed name s1 =
            subst (λ x. (name : String) → Indexed name x) grew
              (λ name. append_subnet-Indexed name sn s (v name)) in
          let (v', all) =
            add_all-Indexed t more s1 s' v1 (subst (λ r. r ≡ ok s') (rw (f, add_all) refl) h) in
          (
            v',
            all
                ∙ ap (λ x. names x.subnets ++ names_added more) (sym grew)
                ∙ names-append_subnet sn s (names_added more)
                ∙ ap (λ a. names s.subnets ++ (a ∷ names_added more)) named,
          )
    ]

-- GetSubnet answers the last place of the name, or that no subnet has it.
abbrev pub FindsLast : String → SubnetSlice → Type 0
FindsLast name s =
    ((get_subnet name s ≡ err not_found_subnet)
      × ((i : ℕ) (sn : Subnet) → get_elem? s.subnets i ≡ some sn → sn.name ≢ name))
    ⊎ ((i : ℕ) × (sn : Subnet) × (get_subnet name s ≡ ok i)
        × (get_elem? s.subnets i ≡ some sn)
        × (sn.name ≡ name)
        × ((j : ℕ) (sn' : Subnet) → i < j → get_elem? s.subnets j ≡ some sn' → sn'.name ≢ name))

Indexed-FindsLast : (name : String) (s : SubnetSlice) → Indexed name s → FindsLast name s
unfolding get_subnet at
Indexed-FindsLast name s (inl (missing, no_one)) = inl (rw (missing, get_subnet) refl, no_one)
Indexed-FindsLast name s (inr (i, sn, placed, found, named, last)) =
    inr (i, sn, rw (placed, get_subnet, found, at) refl, found, named, last)

new-Indexed : (last name : String) → Indexed name (new_subnet_slice last)
unfolding new_subnet_slice Map.get
new-Indexed last name = inl (refl, λ i sn h. absurd (ground (arith, h)))

-- After calls of AddSubnet on a new slice, each without an error, the subnets of the slice have
-- the names of those that were added, in their order; and GetSubnet of a name returns the place
-- of the last subnet that has it, or, where no subnet has it, that none is found.
pub get_subnet-FindsLast :
    (t : IpText) (last : String) (more : List Addition) (s : SubnetSlice)
    → add_all t more (new_subnet_slice last) ≡ ok s
    → (names s.subnets ≡ names_added more) × ((name : String) → FindsLast name s)
unfolding new_subnet_slice names
get_subnet-FindsLast t last more s h =
    let (v, all) = add_all-Indexed t more (new_subnet_slice last) s (new-Indexed last) h in
    (all, λ name. Indexed-FindsLast name s (v name))
