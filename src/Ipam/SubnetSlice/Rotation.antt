-- ===== src/Ipam/SubnetSlice/Rotation.antt =====
-- GetAvailableSubnet goes round the subnets: its loop ends, and finds a subnet if one is available.
use native.Mathlib.Nat.{mod-add-mod, mod-eq_of_lt, add-zero, mod-eq-sub-mod}
use container_advanced_netwo.Common.{
  ℕ, zero, suc, ◌+◌, ◌-◌, ◌%◌, ◌≤◌, ◌<◌, ◌≡◌, ◌≢◌, refl, sym, ◌∙◌, ap, subst, ◌⊎◌, inl, inr, true,
  false, ◌==◌, Bool-cases, some, [], ◌∷◌, ◌++◌, String, arith, dec_lt, ite, str_dec, length,
  length-append, get_elem?, get_elem?-lt, get_elem?-append, get_elem?-append_last, lt-of-get_elem?,
}
use container_advanced_netwo.Common.Map
use container_advanced_netwo.Ipam.Base.{Result, ok, err, no_available_subnet}
use container_advanced_netwo.Ipam.Types.{Subnet, SubnetSlice}
use container_advanced_netwo.Ipam.Ip.Ring.{place_onto}
use container_advanced_netwo.Ipam.Subnet.{is_available}
use container_advanced_netwo.Ipam.SubnetSlice.{
  new_subnet_slice, append_subnet, available_loop, get_available_subnet,
}

-- The count is that of the subnets, the current one is in range, and every name of the index map
-- leads to a subnet of that name.
pub record IsSlice (s : SubnetSlice) : Type 0 where
  pub counted : s.subnet_count ≡ length s.subnets
  pub placed : ((s.subnet_count ≡ 0) × (s.subnet_index ≡ 0)) ⊎ (s.subnet_index < s.subnet_count)
  pub indexed :
      (name : String) (i : ℕ)
      → Map.get name s.subnet_index_map ≡ some i
      → (subnet : Subnet) × (get_elem? s.subnets i ≡ some subnet) × (subnet.name ≡ name)

pub new_subnet_slice-IsSlice : (last : String) → IsSlice (new_subnet_slice last)
unfolding new_subnet_slice Map.get
new_subnet_slice-IsSlice last = record {
  counted = refl;
  placed = inl (refl, refl);
  indexed = λ name i h. absurd (ground arith);
}

pub append_subnet-IsSlice :
    (subnet : Subnet) (s : SubnetSlice) → IsSlice s → IsSlice (append_subnet subnet s)
unfolding append_subnet
append_subnet-IsSlice subnet s v = record { counted = refl; placed = inr placed; indexed = indexed }
  where
    longer : length (s.subnets ++ subnet ∷ []) ≡ length s.subnets + 1
    longer = length-append s.subnets (subnet ∷ [])

    placed :
        ite
          (str_dec subnet.name s.last_allocated_subnet)
          (length (s.subnets ++ subnet ∷ []) - 1)
          s.subnet_index
        < length (s.subnets ++ subnet ∷ [])
    placed = ground (arith, longer, v.counted, v.placed)

    indexed :
        (name : String) (i : ℕ)
        → Map.get name
            (Map.put subnet.name (length (s.subnets ++ subnet ∷ []) - 1) s.subnet_index_map)
          ≡ some i
        → (sn : Subnet) × (get_elem? (s.subnets ++ subnet ∷ []) i ≡ some sn) × (sn.name ≡ name)
    indexed name i h = elim (str_dec name subnet.name) [
      | yes p ↦
          let last : i ≡ length s.subnets = ground (
            arith,
            longer,
            Map.get-put name subnet.name (length (s.subnets ++ subnet ∷ []) - 1) s.subnet_index_map,
          ) in
          (subnet, rw last (get_elem?-append_last s.subnets subnet), sym p)
      | no p ↦
          let old : Map.get name s.subnet_index_map ≡ some i = ground (
            arith,
            Map.get-put name subnet.name (length (s.subnets ++ subnet ∷ []) - 1) s.subnet_index_map,
          ) in
          let (sn, found, named) = v.indexed name i old in
          (
            sn,
            get_elem?-append s.subnets (subnet ∷ []) i (lt-of-get_elem? s.subnets i found) ∙ found,
            named,
          )
    ]

abbrev pub moved : SubnetSlice → ℕ → SubnetSlice
moved s i = record s { subnet_index = i }

-- No subnet at the places `last + d` is available, for d from `k` on and below `stop`.
abbrev pub NoneAt : SubnetSlice → ℕ → ℕ → ℕ → Type 0
NoneAt s last k stop =
    (d : ℕ) (subnet : Subnet)
    → k ≤ d
    → d < stop
    → get_elem? s.subnets ((last + d) % s.subnet_count) ≡ some subnet
    → is_available subnet ≡ false

-- The first available subnet from the place `last + k` on, round the end, with its result.
pub record Chosen (s : SubnetSlice) (last k : ℕ) (r : Result ℕ × SubnetSlice) : Type 0 where
  pub turns : ℕ
  pub subnet : Subnet
  pub at_least : k ≤ turns
  pub at_most : turns < s.subnet_count
  pub found : get_elem? s.subnets ((last + turns) % s.subnet_count) ≡ some subnet
  pub available : is_available subnet ≡ true
  pub passed : NoneAt s last k turns
  pub result : r ≡ (ok ((last + turns) % s.subnet_count), moved s ((last + turns) % s.subnet_count))

-- The loop finds such a subnet, or it comes back to the place `last` with every subnet seen.
abbrev pub Ends : SubnetSlice → ℕ → ℕ → Result ℕ × SubnetSlice → Type 0
Ends s last k r =
    Chosen s last k r
    ⊎ ((r ≡ (err no_available_subnet, moved s last)) × NoneAt s last k s.subnet_count)

none_more :
    (s : SubnetSlice) (last k stop : ℕ) (subnet : Subnet)
    → get_elem? s.subnets ((last + k) % s.subnet_count) ≡ some subnet
    → is_available subnet ≡ false
    → NoneAt s last (suc k) stop
    → NoneAt s last k stop
none_more s last k stop subnet found busy rest d sn l u at = elim (dec_lt k d) [
  | yes p ↦ rest d sn p u at
  | no p ↦
      let same : d ≡ k = omega arith in
      let e : some sn ≡ some subnet =
        sym at ∙ ap (λ x. get_elem? s.subnets ((last + x) % s.subnet_count)) same ∙ found in
      let e' : sn ≡ subnet = cc in rw e' busy
]

step_place : (last k n : ℕ) → ((last + k) % n + 1) % n ≡ (last + suc k) % n
step_place last k n =
    let e : last + k + 1 ≡ last + suc k = omega arith in
    mod-add-mod (last + k) n 1 ∙ ap (λ x. x % n) e

back_home : (last k n : ℕ) → last < n → suc k ≡ n → (last + suc k) % n ≡ last
back_home last k n h e = rw e (grind arith)

not_home : (last k n : ℕ) → last < n → 0 < k → k < n → (last + k) % n ≢ last
not_home last k n h p q = elim (dec_lt (last + k) n) [
  | yes l ↦ rw (mod-eq_of_lt l) (omega arith)
  | no l ↦
      let l' : n ≤ last + k = omega arith in
      let m : last + k - n < n = omega arith in rw (mod-eq-sub-mod l', mod-eq_of_lt m) (omega arith)
]

eq-true : (a b : ℕ) → a ≡ b → (a == b) ≡ true
eq-true a b h = ground arith

eq-false : (a b : ℕ) → a ≢ b → (a == b) ≡ false
eq-false a b h = ground arith

-- One round of the loop, in its three branches.
module _ (rounds last : ℕ) (s : SubnetSlice) (subnet : Subnet)
    (found : get_elem? s.subnets s.subnet_index ≡ some subnet) where
  step_free :
      is_available subnet ≡ true → available_loop (suc rounds) last s ≡ (ok s.subnet_index, s)
  unfolding available_loop
  step_free free = rw (found, free, available_loop)

  step_home :
      is_available subnet ≡ false
      → (s.subnet_index + 1) % s.subnet_count ≡ last
      → available_loop (suc rounds) last s ≡ (err no_available_subnet, moved s last)
  unfolding available_loop
  step_home busy e = rw (found, busy, available_loop) (ground arith)

  step_on :
      is_available subnet ≡ false
      → (s.subnet_index + 1) % s.subnet_count ≢ last
      → available_loop (suc rounds) last s
        ≡ available_loop rounds last (moved s ((s.subnet_index + 1) % s.subnet_count))
  unfolding available_loop
  step_on busy h =
      rw (found, busy, available_loop, eq-false ((s.subnet_index + 1) % s.subnet_count) last h)

module _ (s : SubnetSlice) (v : IsSlice s) (last : ℕ) (home : last < s.subnet_count) where
  later_Ends :
      (k : ℕ) (subnet : Subnet) (r : Result ℕ × SubnetSlice)
      → get_elem? s.subnets ((last + k) % s.subnet_count) ≡ some subnet
      → is_available subnet ≡ false
      → Ends s last (suc k) r
      → Ends s last k r
  later_Ends k subnet r found busy (inl c) = inl (record {
    turns = c.turns;
    subnet = c.subnet;
    at_least = omega arith;
    at_most = c.at_most;
    found = c.found;
    available = c.available;
    passed = none_more s last k c.turns subnet found busy c.passed;
    result = c.result;
  })
  later_Ends k subnet r found busy (inr (e, rest)) =
      inr (e, none_more s last k s.subnet_count subnet found busy rest)

  stop_here :
      (k : ℕ) (subnet : Subnet)
      → k < s.subnet_count
      → get_elem? s.subnets ((last + k) % s.subnet_count) ≡ some subnet
      → is_available subnet ≡ true
      → Chosen s last k (ok ((last + k) % s.subnet_count), moved s ((last + k) % s.subnet_count))
  stop_here k subnet h found free = record {
    turns = k;
    subnet = subnet;
    at_least = omega arith;
    at_most = h;
    found = found;
    available = free;
    passed = λ d sn l u at. absurd (omega arith);
    result = refl;
  }

  place_at :
      (k : ℕ)
      → (subnet : Subnet) × (get_elem? s.subnets ((last + k) % s.subnet_count) ≡ some subnet)
  place_at k = get_elem?-lt s.subnets ((last + k) % s.subnet_count) (omega (arith, v.counted))

  loop-Ends :
      (rounds k : ℕ)
      → k + suc rounds ≡ s.subnet_count
      → Ends s last k (available_loop (suc rounds) last (moved s ((last + k) % s.subnet_count)))
  loop-Ends zero k e =
      let (sn, found) = place_at k in
      elim (Bool-cases (is_available sn)) [
        | inl free ↦
            rw (step_free 0 last (moved s ((last + k) % s.subnet_count)) sn found free)
              (inl (stop_here k sn (omega arith) found free))
        | inr busy ↦
            rw
              (step_home 0 last (moved s ((last + k) % s.subnet_count)) sn found busy (
                step_place last k s.subnet_count
                ∙ back_home last k s.subnet_count home (omega arith)))
              (inr (
                refl,
                none_more s last k s.subnet_count sn found busy
                    (λ d x l u at. absurd (omega arith)),
              ))
      ]
  loop-Ends (suc rounds) k e =
      let (sn, found) = place_at k in
      let rest = loop-Ends rounds (suc k) (omega arith) in
      elim (Bool-cases (is_available sn)) [
        | inl free ↦
            rw (step_free (suc rounds) last (moved s ((last + k) % s.subnet_count)) sn found free)
              (inl (stop_here k sn (omega arith) found free))
        | inr busy ↦
            subst (Ends s last k)
              (sym (
                step_on (suc rounds) last (moved s ((last + k) % s.subnet_count)) sn found busy
                  (away k rounds e)
                ∙ ap (λ i. available_loop (suc rounds) last (moved s i))
                    (step_place last k s.subnet_count)))
              (later_Ends k sn _ found busy rest)
      ]
    where
      away :
          (k rounds : ℕ)
          → k + suc (suc rounds) ≡ s.subnet_count
          → ((last + k) % s.subnet_count + 1) % s.subnet_count ≢ last
      away k rounds e =
          rw (step_place last k s.subnet_count)
            (not_home last (suc k) s.subnet_count home (omega arith) (omega arith))

available_loop-Ends :
    (s : SubnetSlice)
    → IsSlice s
    → s.subnet_index < s.subnet_count
    → Ends s s.subnet_index 0 (available_loop s.subnet_count s.subnet_index s)
available_loop-Ends s v home =
    let rounds = s.subnet_count - 1 in
    let all : suc rounds ≡ s.subnet_count = omega arith in
    let here : (s.subnet_index + 0) % s.subnet_count ≡ s.subnet_index =
      rw add-zero (mod-eq_of_lt home) in
    subst (Ends s s.subnet_index 0)
      (ap (λ i. available_loop (suc rounds) s.subnet_index (moved s i)) here
        ∙ ap (λ f. available_loop f s.subnet_index s) all)
      (loop-Ends s v s.subnet_index home rounds 0 (omega arith))

abbrev pub NoneAvailable : SubnetSlice → Type 0
NoneAvailable s =
    (i : ℕ) (subnet : Subnet) → get_elem? s.subnets i ≡ some subnet → is_available subnet ≡ false

none_anywhere :
    (s : SubnetSlice)
    → IsSlice s
    → s.subnet_index < s.subnet_count
    → NoneAt s s.subnet_index 0 s.subnet_count
    → NoneAvailable s
none_anywhere s v home seen i subnet found =
    let lt : i < s.subnet_count = rw v.counted (lt-of-get_elem? s.subnets i found) in
    let (d, l, e) = place_onto s.subnet_index i s.subnet_count (omega arith) lt in
    seen d subnet (omega arith) l (rw e found)

-- On a well-formed slice GetAvailableSubnet ends and does not panic: it chooses the first
-- available subnet from the current one on, round the end, and makes it the current one; or no
-- subnet is available, and it reports so and leaves the slice as it was.
pub get_available_subnet_lem :
    (s : SubnetSlice)
    → IsSlice s
    → Chosen s s.subnet_index 0 (get_available_subnet s)
      ⊎ ((get_available_subnet s ≡ (err no_available_subnet, s)) × NoneAvailable s)
unfolding get_available_subnet
get_available_subnet_lem s v = elim v.placed [
  | inl (empty, _) ↦ inr (
    rw (eq-true s.subnet_count 0 empty),
    λ i subnet found. absurd (omega (arith, v.counted, lt-of-get_elem? s.subnets i found)),
  )
  | inr home ↦ rw (eq-false s.subnet_count 0 (omega arith)) (elim (available_loop-Ends s v home) [
    | inl c ↦ inl c
    | inr (e, seen) ↦ inr (e, none_anywhere s v home seen)
  ])
]
