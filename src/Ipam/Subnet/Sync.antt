-- ===== src/Ipam/Subnet/Sync.antt =====
-- Sync makes a subnet well-formed, and its loop over the range ends.
use container_advanced_netwo.Common.{
  ℕ, suc, ◌+◌, ◌-◌, ◌^◌, ◌≤◌, ◌<◌, ◌≡◌, refl, sym, ◌∙◌, ap, ◌↔◌, true, false, Option, List, [], ◌∷◌,
  String, arith, length, elem, Distinct, Subset, if◌then◌else◌,
}
use container_advanced_netwo.Common.Map
use container_advanced_netwo.Net.{NetIp, nil_ip, ip4, ip16, IsIp, IpText, IsIpText, normalize_ip}
use container_advanced_netwo.Net.Cidr.Normal.{print-normal}
use container_advanced_netwo.Net.Cidr.{cmp, next_ip, ip_to_int}
use container_advanced_netwo.Ipam.Base.{ok}
use container_advanced_netwo.Ipam.Types.{IpSet, IpSlice, Subnet, reserved}
use container_advanced_netwo.Ipam.Ip.{new_ip_slice}
use container_advanced_netwo.Ipam.Subnet.{
  is_black_ip, contains, make_ip, filter_reserved, sync_using, pre_assign, offer_all, range_fuel,
  prepare, sync,
}
use container_advanced_netwo.Ipam.Subnet.Invariant.{IsValid}
use container_advanced_netwo.Ipam.Subnet.Range.{Counts, Filled, offer_all-Filled, contains-normal}

-- A range of one family on which NextIP counts by one, its end not the last address of all.
abbrev pub IsRange : NetIp → NetIp → Type 0
IsRange (ip4 m) (ip4 n) = (m ≤ n) × (n + 1 < 2 ^ 32)
IsRange (ip16 m) (ip16 n) = (2 ^ 48 ≤ m) × (m ≤ n) × (n + 1 < 2 ^ 128)
IsRange _ _ = ⊥

module _ (t : IpText) where
  filter_reserved-elem :
      (s : Subnet) (x : String) (rips : List String)
      → elem x rips ≡ false
      → elem x (filter_reserved t s rips) ≡ false
  unfolding filter_reserved elem
  filter_reserved-elem s x [] h = refl
  filter_reserved-elem s x (rip ∷ rips) h = ground (arith, filter_reserved-elem s x rips)

  filter_reserved-Distinct :
      (s : Subnet) (rips : List String) → Distinct rips → Distinct (filter_reserved t s rips)
  unfolding filter_reserved
  filter_reserved-Distinct s [] d = tt
  filter_reserved-Distinct s (rip ∷ rips) d =
      ground (arith, filter_reserved-Distinct s rips, filter_reserved-elem s rip rips)

  sync_using-Distinct :
      (s : Subnet) (set using : IpSet)
      → Distinct (Map.keys using)
      → Distinct (Map.keys (sync_using t s set using))
  unfolding sync_using
  sync_using-Distinct s [] using d = d
  sync_using-Distinct s ((ip, content) ∷ rest) using d =
      sync_using-Distinct s rest _ (ground (arith, Map.put-Distinct ip content using))

  pre_assign-Distinct :
      (s : Subnet) (rips : List String) (using : IpSet)
      → Distinct (Map.keys using)
      → Distinct (Map.keys (pre_assign t s rips using))
  unfolding pre_assign
  pre_assign-Distinct s [] using d = d
  pre_assign-Distinct s (rip ∷ rips) using d =
      pre_assign-Distinct s rips _
        (ground (arith, Map.put-Distinct rip (make_ip s (t.parse_ip rip) "" "" reserved) using))

  pre_assign-keeps :
      (s : Subnet) (x : String) (rips : List String) (using : IpSet)
      → Map.has x using ≡ true
      → Map.has x (pre_assign t s rips using) ≡ true
  unfolding pre_assign
  pre_assign-keeps s x [] using h = h
  pre_assign-keeps s x (rip ∷ rips) using h =
      pre_assign-keeps s x rips _
        (ground (arith, Map.has-put x rip (make_ip s (t.parse_ip rip) "" "" reserved) using))

  -- Every reserved address is in use after the loop that enters them.
  pre_assign-Subset :
      (s : Subnet) (rips : List String) (using : IpSet)
      → Subset rips (Map.keys (pre_assign t s rips using))
  unfolding pre_assign elem
  pre_assign-Subset s [] using x h = absurd (ground arith)
  pre_assign-Subset s (rip ∷ rips) using x h = ground (
    arith,
    pre_assign-keeps s x rips (
        if Map.has rip using
        then using
        else Map.put rip (make_ip s (t.parse_ip rip) "" "" reserved) using),
    pre_assign-Subset s rips
        (if Map.has rip using
          then using
          else Map.put rip (make_ip s (t.parse_ip rip) "" "" reserved) using)
        x,
    Map.has-put x rip (make_ip s (t.parse_ip rip) "" "" reserved) using,
  )

counts4 : (lo hi : ℕ) (e : NetIp) → normalize_ip e ≡ ip4 hi → hi + 1 < 2 ^ 32 → Counts ip4 lo hi e
unfolding next_ip cmp normalize_ip
counts4 lo hi e norm h = record {
  steps = λ n l u. ground arith;
  before = λ n l u. rw norm (ground arith);
  past = rw norm (ground arith);
  is_ip = λ n l u. omega arith;
  normal = λ n l u. refl;
  injective = λ m n same. ground arith;
}

normal16 : (n : ℕ) → 2 ^ 48 ≤ n → normalize_ip (ip16 n) ≡ ip16 n
unfolding normalize_ip
normal16 n h = ground arith

counts16 :
    (lo hi : ℕ) (e : NetIp)
    → normalize_ip e ≡ ip16 hi
    → 2 ^ 48 ≤ lo
    → lo ≤ hi
    → hi + 1 < 2 ^ 128
    → Counts ip16 lo hi e
unfolding next_ip cmp
counts16 lo hi e norm low le h = record {
  steps = λ n l u. rw (normal16 n (omega arith)) (ground arith);
  before = λ n l u. rw (normal16 n (omega arith), norm) (ground arith);
  past = rw (normal16 (suc hi) (omega arith), norm) (ground arith);
  is_ip = λ n l u. omega arith;
  normal = λ n l u. normal16 n (omega arith);
  injective = λ m n same. ground arith;
}

-- The address with a number, of the family of another.
unfoldable pub like : NetIp → ℕ → NetIp
like nil_ip n = nil_ip
like (ip4 _) n = ip4 n
like (ip16 _) n = ip16 n

-- Of the addresses from the start to the end the subnet offers exactly those that it contains and
-- has not reserved.
abbrev pub Offers : IpText → Subnet → Type 0
Offers t s =
    let a = normalize_ip s.start in
    (n : ℕ)
    → ip_to_int a ≤ n
    → n ≤ ip_to_int (normalize_ip s.end)
    → (elem (t.print_ip (like a n)) s.available_ips.ips ≡ true)
      ↔ ((contains t s (like a n) ≡ true) × (elem (t.print_ip (like a n)) s.reserved_list ≡ false))

module _ (t : IpText) (law : IsIpText t) where
  -- The loop of Sync on a range of one family.
  Filled-range :
      (s : Subnet)
      → (a b : NetIp) → normalize_ip s.start ≡ a
      → normalize_ip s.end ≡ b
      → IsRange a b
      → (slice : IpSlice) × (offer_all t (range_fuel t a b) s s.start new_ip_slice ≡ ok slice)
        × Filled t law s (like a) (ip_to_int a) (suc (ip_to_int b)) slice
  unfolding range_fuel like ip_to_int
  Filled-range s (ip4 m) (ip4 n) ea eb (le, h) =
      offer_all-Filled t law s ip4 m n s.end (counts4 m n s.end eb h) refl s.start (n - m + 2) ea le
        (omega arith)
  Filled-range s (ip16 m) (ip16 n) ea eb (low, le, h) =
      offer_all-Filled t law s ip16 m n s.end (counts16 m n s.end eb low le h) refl s.start
        (n - m + 2) ea le (omega arith)
  Filled-range s nil_ip b ea eb h = absurd h
  Filled-range s (ip4 m) _ ea eb h = absurd h
  Filled-range s (ip16 m) _ ea eb h = absurd h

  -- What Sync's first three loops establish.
  record Prepared (s : Subnet) : Type 0 where
    distinct_using : Distinct (Map.keys s.using_ips)
    distinct_reserved : Distinct s.reserved_list
    counted : s.reserved_ip_count ≡ length s.reserved_list
    reserved_used : Subset s.reserved_list (Map.keys s.using_ips)

  prepare-Prepared :
      (parent_net_id : Option ℕ) (ip_set : IpSet) (s : Subnet)
      → Distinct s.reserved_list
      → Prepared (prepare t parent_net_id ip_set s)
  unfolding prepare
  prepare-Prepared parent_net_id ip_set s d = record {
    distinct_using =
        pre_assign-Distinct t _ _ _ (sync_using-Distinct t _ ip_set [] (unfold Map.keys in tt));
    distinct_reserved = filter_reserved-Distinct t _ s.reserved_list d;
    counted = refl;
    reserved_used = pre_assign-Subset t _ _ _;
  }

  Filled-IsValid :
      (s : Subnet) (slice : IpSlice) (f : ℕ → NetIp) (lo n : ℕ)
      → Prepared s
      → ((k : ℕ) → k < n → IsIp (f k))
      → Filled t law s f lo n slice
      → IsValid t (record s { available_ips = slice })
  unfolding contains is_black_ip
  Filled-IsValid s slice f lo n p is_ip filled = record {
    ring = filled.ring;
    distinct_ring = filled.distinct;
    distinct_using = p.distinct_using;
    distinct_reserved = p.distinct_reserved;
    counted = p.counted;
    reserved_used = p.reserved_used;
    apart = λ x h. let (_, _, _, _, _, r) = filled.listed x h in r;
    offered = offered;
  }
    where
      offered :
          (x : String)
          → elem x slice.ips ≡ true
          → (contains t s (t.parse_ip x) ≡ true) × (t.print_ip (t.parse_ip x) ≡ x)
      offered x h =
          let (k, _, u, ex, c, _) = filled.listed x h in
          let same : normalize_ip (t.parse_ip x) ≡ normalize_ip (f k) =
            rw ex (law.parse-print (f k) (is_ip k u)) in
          (
            contains-normal t law s (t.parse_ip x) (f k) same ∙ c,
            print-normal t law (t.parse_ip x) (f k) same ∙ sym ex,
          )

  range-IsIp : (a b : NetIp) → IsRange a b → (k : ℕ) → k < suc (ip_to_int b) → IsIp (like a k)
  unfolding like ip_to_int
  range-IsIp (ip4 m) (ip4 n) r k u = omega arith
  range-IsIp (ip16 m) (ip16 n) r k u = omega arith
  range-IsIp nil_ip b r k u = absurd r
  range-IsIp (ip4 m) _ r k u = absurd r
  range-IsIp (ip16 m) _ r k u = absurd r

  Filled-Offers :
      (s : Subnet) (slice : IpSlice)
      → (let a = normalize_ip s.start in
          Filled t law s (like a) (ip_to_int a) (suc (ip_to_int (normalize_ip s.end))) slice)
      → ((k : ℕ) → k < suc (ip_to_int (normalize_ip s.end)) → IsIp (like (normalize_ip s.start) k))
      → Offers t (record s { available_ips = slice })
  unfolding contains is_black_ip
  Filled-Offers s slice filled is_ip n l u = (
    λ h.
        let (k, _, w, e, c, r) = filled.listed _ h in
        let same : normalize_ip (like a n) ≡ normalize_ip (like a k) =
          sym (law.parse-print (like a n) (is_ip n (omega arith)))
          ∙ ap (λ x. normalize_ip (t.parse_ip x)) e
          ∙ law.parse-print (like a k) (is_ip k w) in
        (contains-normal t law s (like a n) (like a k) same ∙ c, r),
    λ h. filled.complete n l (omega arith) h.0 h.1,
  )
    where
      a : NetIp
      a = normalize_ip s.start

  prepare-range :
      (parent_net_id : Option ℕ) (ip_set : IpSet) (s : Subnet)
      → ((prepare t parent_net_id ip_set s).start ≡ s.start)
        × ((prepare t parent_net_id ip_set s).end ≡ s.end)
  unfolding prepare
  prepare-range parent_net_id ip_set s = (refl, refl)

  -- On a range of one family that ends before the last address of all (and, for IPv6, starts at
  -- 2^48 or later), with distinct reserved texts, Sync ends without an error: the subnet is
  -- well-formed, and it offers exactly the addresses of the range that it contains and has not
  -- reserved.
  pub sync-IsValid :
      (parent_net_id : Option ℕ) (ip_set : IpSet) (s : Subnet)
      → IsRange (normalize_ip s.start) (normalize_ip s.end)
      → Distinct s.reserved_list
      → (s' : Subnet) × (sync t parent_net_id ip_set s ≡ ok s') × IsValid t s' × Offers t s'
  unfolding sync
  sync-IsValid parent_net_id ip_set s r d =
      let s2 = prepare t parent_net_id ip_set s in
      let (es, ee) = prepare-range parent_net_id ip_set s in
      let r2 : IsRange (normalize_ip s2.start) (normalize_ip s2.end) = rw (es, ee) r in
      let (slice, run, filled) =
        Filled-range s2 (normalize_ip s2.start) (normalize_ip s2.end) refl refl r2 in
      (
        record s2 { available_ips = slice },
        rw (run, sync),
        Filled-IsValid s2 slice _ _ _ (prepare-Prepared parent_net_id ip_set s d)
            (range-IsIp _ _ r2) filled,
        Filled-Offers s2 slice filled (range-IsIp _ _ r2),
      )
