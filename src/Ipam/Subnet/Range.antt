-- ===== src/Ipam/Subnet/Range.antt =====
-- The loop of Sync over the range: it ends, and it offers exactly the addresses of the range that
-- the subnet contains and has not reserved.
use container_advanced_netwo.Common.{
  ℕ, zero, suc, ◌-◌, ◌≤◌, ◌<◌, ◌≡◌, refl, sym, ◌∙◌, ap, subst, ◌⊎◌, inl, inr, if_neg, Bool, true,
  false, Bool-cases, some, [], ◌∷◌, ◌++◌, String, arith, str_dec, dec_lt, elem, elem-append,
  Distinct, Distinct-append,
}
use container_advanced_netwo.Net.{NetIp, IsIp, IpText, IsIpText, normalize_ip, equal}
use container_advanced_netwo.Net.Cidr.{cmp, is_le, next_ip}
use container_advanced_netwo.Net.Cidr.Normal.{
  print-normal, cmp-normal, next_ip-normal, equal-normal, equal-normal_right, in_net-normal,
}
use container_advanced_netwo.Ipam.Base.{ok}
use container_advanced_netwo.Ipam.Types.{IpSlice, Subnet}
use container_advanced_netwo.Ipam.Ip.{add, new_ip_slice}
use container_advanced_netwo.Ipam.Ip.Ring.{IsRing, add-IsRing, new_ip_slice-IsRing}
use container_advanced_netwo.Ipam.Subnet.{is_reserved_ip, contains, offer, offer_all}

-- Addresses that NextIP counts through, from `lo` to `hi`, where the last one is `e`.
pub record Counts (f : ℕ → NetIp) (lo hi : ℕ) (e : NetIp) : Type 0 where
  pub steps : (n : ℕ) → lo ≤ n → n ≤ hi → next_ip (f n) ≡ some (f (suc n))
  pub before : (n : ℕ) → lo ≤ n → n ≤ hi → is_le (cmp (f n) e) ≡ true
  pub past : is_le (cmp (f (suc hi)) e) ≡ false
  pub is_ip : (n : ℕ) → lo ≤ n → n ≤ hi → IsIp (f n)
  pub normal : (n : ℕ) → lo ≤ n → n ≤ hi → normalize_ip (f n) ≡ f n
  pub injective : (m n : ℕ) → f m ≡ f n → m ≡ n

module _ (t : IpText) (law : IsIpText t) (s : Subnet) where
  pub contains-normal :
      (a b : NetIp) → normalize_ip a ≡ normalize_ip b → contains t s a ≡ contains t s b
  unfolding contains
  contains-normal a b e = rw (
    in_net-normal a b e s.cidr,
    cmp-normal a b e s.start,
    cmp-normal a b e s.end,
    equal-normal_right a b e s.gateway,
    print-normal t law a b e,
  )

  offer-normal :
      (a b : NetIp) (slice : IpSlice)
      → normalize_ip a ≡ normalize_ip b
      → offer t s a slice ≡ offer t s b slice
  unfolding offer
  offer-normal a b slice e =
      rw (contains-normal a b e, equal-normal a b e s.last_allocated_ip, print-normal t law a b e)

  -- The slice offers the addresses from `lo` up to, and without, `n`.
  pub record Filled (f : ℕ → NetIp) (lo n : ℕ) (slice : IpSlice) : Type 0 where
    pub ring : IsRing slice
    pub distinct : Distinct slice.ips
    pub listed :
        (x : String)
        → elem x slice.ips ≡ true
        → (k : ℕ) × (lo ≤ k)
          × (k < n)
          × (x ≡ t.print_ip (f k))
          × (contains t s (f k) ≡ true)
          × (elem x s.reserved_list ≡ false)
    pub complete :
        (k : ℕ)
        → lo ≤ k
        → k < n
        → contains t s (f k) ≡ true
        → elem (t.print_ip (f k)) s.reserved_list ≡ false
        → elem (t.print_ip (f k)) slice.ips ≡ true

  none_yet : (f : ℕ → NetIp) (lo : ℕ) → Filled f lo lo new_ip_slice
  unfolding new_ip_slice elem
  none_yet f lo = record {
    ring = new_ip_slice-IsRing;
    distinct = tt;
    listed = λ x h. absurd (ground arith);
    complete = λ k l u c r. absurd (omega arith);
  }

  offer_all-normal :
      (a b : NetIp) (fuel : ℕ) (slice : IpSlice)
      → normalize_ip a ≡ normalize_ip b
      → offer_all t fuel s a slice ≡ offer_all t fuel s b slice
  unfolding offer_all
  offer_all-normal a b zero slice e = refl
  offer_all-normal a b (suc fuel) slice e =
      ground (arith, cmp-normal a b e s.end, next_ip-normal a b e, offer-normal a b slice e)

  module _ (f : ℕ → NetIp) (lo hi : ℕ) (e : NetIp) (counts : Counts f lo hi e) where
    print-injective :
        (m n : ℕ) → lo ≤ m → m ≤ hi → lo ≤ n → n ≤ hi → t.print_ip (f m) ≡ t.print_ip (f n) → m ≡ n
    print-injective m n lm hm ln hn h = counts.injective m n (
        sym (counts.normal m lm hm)
        ∙ sym (law.parse-print (f m) (counts.is_ip m lm hm))
        ∙ ap (λ x. normalize_ip (t.parse_ip x)) h
        ∙ law.parse-print (f n) (counts.is_ip n ln hn)
        ∙ counts.normal n ln hn)

    skip-Filled :
        (n : ℕ) (slice : IpSlice)
        → (contains t s (f n) ≡ false) ⊎ (elem (t.print_ip (f n)) s.reserved_list ≡ true)
        → Filled f lo n slice
        → Filled f lo (suc n) slice
    skip-Filled n slice skip filled = record {
      ring = filled.ring;
      distinct = filled.distinct;
      listed = λ x h. let (k, l, u, ex, c, r) = filled.listed x h in (k, l, omega arith, ex, c, r);
      complete = done;
    }
      where
        done :
            (k : ℕ)
            → lo ≤ k
            → k < suc n
            → contains t s (f k) ≡ true
            → elem (t.print_ip (f k)) s.reserved_list ≡ false
            → elem (t.print_ip (f k)) slice.ips ≡ true
        done k l u c r = elim (dec_lt k n) [
          | yes p ↦ filled.complete k l p c r
          | no p ↦ let same : k ≡ n = omega arith in absurd (ground arith)
        ]

    add-Filled :
        (n : ℕ) (slice : IpSlice) (d : Bool)
        → lo ≤ n
        → n ≤ hi
        → contains t s (f n) ≡ true
        → elem (t.print_ip (f n)) s.reserved_list ≡ false
        → Filled f lo n slice
        → Filled f lo (suc n) (add (t.print_ip (f n)) d slice)
    unfolding add elem
    add-Filled n slice d l h c r filled = record {
      ring = add-IsRing x d slice filled.ring;
      distinct = Distinct-append slice.ips (x ∷ []) filled.distinct (refl, tt) fresh;
      listed = listed;
      complete = complete;
    }
      where
        x : String
        x = t.print_ip (f n)

        fresh : (y : String) → elem y slice.ips ≡ true → elem y (x ∷ []) ≡ false
        fresh y old =
            let (k, lk, uk, ey, _, _) = filled.listed y old in
            if_neg (str_dec y x)
              (λ p. absurd (
                let same : k ≡ n = print-injective k n lk (omega arith) l h (sym ey ∙ p) in
                omega arith))
              _ _

        listed :
            (y : String)
            → elem y (slice.ips ++ x ∷ []) ≡ true
            → (k : ℕ) × (lo ≤ k)
              × (k < suc n)
              × (y ≡ t.print_ip (f k))
              × (contains t s (f k) ≡ true)
              × (elem y s.reserved_list ≡ false)
        listed y there = elim (Bool-cases (elem y slice.ips)) [
          | inl old ↦
              let (k, lk, uk, ey, cy, ry) = filled.listed y old in (k, lk, omega arith, ey, cy, ry)
          | inr new ↦
              let last : y ≡ x = ground (arith, elem-append y slice.ips (x ∷ [])) in
              (n, l, omega arith, last, c, rw last r)
        ]

        complete :
            (k : ℕ)
            → lo ≤ k
            → k < suc n
            → contains t s (f k) ≡ true
            → elem (t.print_ip (f k)) s.reserved_list ≡ false
            → elem (t.print_ip (f k)) (slice.ips ++ x ∷ []) ≡ true
        complete k lk uk ck rk = elim (dec_lt k n) [
          | yes p ↦
              rw (elem-append (t.print_ip (f k)) slice.ips (x ∷ []), filled.complete k lk p ck rk)
                refl
          | no p ↦
              let same : k ≡ n = omega arith in
              ground (arith, elem-append (t.print_ip (f k)) slice.ips (x ∷ []))
        ]

    offer-Filled :
        (n : ℕ) (slice : IpSlice)
        → lo ≤ n
        → n ≤ hi
        → Filled f lo n slice
        → Filled f lo (suc n) (offer t s (f n) slice)
    unfolding offer is_reserved_ip
    offer-Filled n slice l h filled = elim (Bool-cases (contains t s (f n))) [
      | inr c ↦ rw c (skip-Filled n slice (inl c) filled)
      | inl c ↦ elim (Bool-cases (elem (t.print_ip (f n)) s.reserved_list)) [
        | inl r ↦ rw (c, r) (skip-Filled n slice (inr r) filled)
        | inr r ↦ rw (c, r) (add-Filled n slice (equal (f n) s.last_allocated_ip) l h c r filled)
      ]
    ]

    module _ (ends : s.end ≡ e) where
      offer_all_from :
          (fuel n : ℕ) (slice : IpSlice)
          → lo ≤ n
          → n ≤ suc hi
          → suc hi - n < fuel
          → Filled f lo n slice
          → (slice' : IpSlice) × (offer_all t fuel s (f n) slice ≡ ok slice')
            × Filled f lo (suc hi) slice'
      unfolding offer_all
      offer_all_from zero n slice l h m filled = absurd (omega arith)
      offer_all_from (suc fuel) n slice l h m filled = elim (dec_lt hi n) [
        | yes p ↦
            let same : n ≡ suc hi = omega arith in
            (
              slice,
              rw (same, ends, counts.past, offer_all),
              subst (λ k. Filled f lo k slice) same filled,
            )
        | no p ↦
            let below : n ≤ hi = omega arith in
            let (slice', run, full) =
              offer_all_from fuel (suc n) (offer t s (f n) slice) (omega arith) (omega arith)
                (omega arith) (offer-Filled n slice l below filled) in
            (
              slice',
              rw (ends, counts.before n l below, counts.steps n l below, offer_all) run,
              full,
            )
      ]

      -- The whole loop, from the start as the subnet has it.
      pub offer_all-Filled :
          (a : NetIp) (fuel : ℕ)
          → normalize_ip a ≡ f lo
          → lo ≤ hi
          → suc hi - lo < fuel
          → (slice : IpSlice) × (offer_all t fuel s a new_ip_slice ≡ ok slice)
            × Filled f lo (suc hi) slice
      offer_all-Filled a fuel norm le enough =
          let same_normal : normalize_ip a ≡ normalize_ip (f lo) =
            norm ∙ sym (counts.normal lo (omega arith) le) in
          let (slice, run, full) =
            offer_all_from fuel lo new_ip_slice (omega arith) (omega arith) enough
              (none_yet f lo) in
          (slice, offer_all-normal a (f lo) fuel new_ip_slice same_normal ∙ run, full)
