-- ===== src/Ipam/Subnet/Outcome.antt =====
-- What AllocateNext does to a subnet: the two ways in which its loop ends.
use native.Mathlib.Nat.{add-zero}
use container_advanced_netwo.Common.{
  ℕ, zero, suc, ◌+◌, ◌%◌, ◌≤◌, ◌<◌, ◌≡◌, refl, subst, ◌⊎◌, inl, inr, true, false, Bool-cases,
  Option, none, some, String, arith, dec_lt, get_elem?, lt-of-get_elem?,
}
use container_advanced_netwo.Common.Map
use container_advanced_netwo.Net.{IpText}
use container_advanced_netwo.Ipam.Base.{Result, ok}
use container_advanced_netwo.Ipam.Types.{Ip, Subnet, allocated}
use container_advanced_netwo.Ipam.Ip.{after}
use container_advanced_netwo.Ipam.Ip.Ring.{IsRing, turned, next_lem, place-suc, place_onto}
use container_advanced_netwo.Ipam.Subnet.{make_ip, allocate_loop, allocate_next}

-- The subnet after a turn of its ring.
abbrev pub turn : Subnet → ℕ → Subnet
turn s j = record s { available_ips = turned s.available_ips j }

module _ (t : IpText) (pod_name pod_namespace : String) where
  -- A free address of the ring has been taken: it is entered as in use, and nothing else changes
  -- but the place of the ring.
  pub record Took (s s' : Subnet) (ip : Ip) : Type 0 where
    pub place : ℕ
    pub key : String
    pub in_ring : get_elem? s.available_ips.ips place ≡ some key
    pub in_range : place < s.available_ips.ip_count
    pub free : Map.has key s.using_ips ≡ false
    pub record_made : ip ≡ make_ip s (t.parse_ip key) pod_name pod_namespace allocated
    pub entered : s' ≡ record s {
      available_ips = turned s.available_ips place;
      using_ips = Map.put key ip s.using_ips;
    }

  -- The places that `rounds` turns read are all in use, and nothing changes but the place.
  pub record Missed (rounds : ℕ) (s s' : Subnet) : Type 0 where
    pub place : Option ℕ
    pub kept_range : after place ≤ s.available_ips.ip_count
    pub same : s' ≡ record s { available_ips = record s.available_ips { ip_index = place } }
    pub all_used :
        (d : ℕ) (key : String)
        → d < rounds
        → get_elem? s.available_ips.ips
            ((after s.available_ips.ip_index + d) % s.available_ips.ip_count)
          ≡ some key
        → Map.has key s.using_ips ≡ true

  abbrev pub Outcome : ℕ → Subnet → Result (Option Ip) × Subnet → Type 0
  Outcome rounds s r =
      ((ip : Ip) × (s' : Subnet) × (r ≡ (ok (some ip), s')) × Took s s' ip)
      ⊎ ((s' : Subnet) × (r ≡ (ok none, s')) × Missed rounds s s')

  turn-Took :
      (s : Subnet) (j : ℕ) (key : String)
      → get_elem? s.available_ips.ips j ≡ some key
      → j < s.available_ips.ip_count
      → Map.has key s.using_ips ≡ false
      → let ip = make_ip s (t.parse_ip key) pod_name pod_namespace allocated in
        Took s
          (record s {
            available_ips = turned s.available_ips j;
            using_ips = Map.put key ip s.using_ips;
          })
          ip
  turn-Took s j key found h free = record {
    place = j;
    key = key;
    in_ring = found;
    in_range = h;
    free = free;
    record_made = refl;
    entered = refl;
  }

  later :
      (rounds : ℕ) (s : Subnet) (key : String) {r : Result (Option Ip) × Subnet}
      → let j = after s.available_ips.ip_index % s.available_ips.ip_count in
        get_elem? s.available_ips.ips j ≡ some key
        → Map.has key s.using_ips ≡ true
        → Outcome rounds (turn s j) r
        → Outcome (suc rounds) s r
  unfolding make_ip
  later rounds s key found used (inl (ip, s', e, took)) = inl (
    ip,
    s',
    e,
    record {
      place = took.place;
      key = took.key;
      in_ring = took.in_ring;
      in_range = took.in_range;
      free = took.free;
      record_made = took.record_made;
      entered = took.entered;
    },
  )
  later rounds s key found used (inr (s', e, missed)) = inr (
    s',
    e,
    record {
      place = missed.place;
      kept_range = missed.kept_range;
      same = missed.same;
      all_used = used_from;
    },
  )
    where
      used_from :
          (d : ℕ) (k : String)
          → d < suc rounds
          → get_elem? s.available_ips.ips
              ((after s.available_ips.ip_index + d) % s.available_ips.ip_count)
            ≡ some k
          → Map.has k s.using_ips ≡ true
      used_from zero k l e0 = cc (add-zero (after s.available_ips.ip_index))
      used_from (suc d) k l e0 = missed.all_used d k (omega arith) (rw place-suc e0)

  pub allocate_loop-Outcome :
      (rounds : ℕ) (s : Subnet)
      → IsRing s.available_ips
      → 0 < s.available_ips.ip_count
      → Outcome rounds s (allocate_loop t rounds pod_name pod_namespace s)
  unfolding allocate_loop
  allocate_loop-Outcome zero s ring h = inr (
    s,
    refl,
    record {
      place = s.available_ips.ip_index;
      kept_range = ring.placed;
      same = refl;
      all_used = λ d key l. absurd (omega arith);
    },
  )
  allocate_loop-Outcome (suc rounds) s ring h =
      let (key, found, turns, lt) = next_lem s.available_ips ring h in
      elim (Bool-cases (Map.has key s.using_ips)) [
        | inl used ↦
            rw (turns, used, allocate_loop)
              (later rounds s key found used (allocate_loop-Outcome rounds _ (omega arith) h))
        | inr free ↦
            rw (turns, free, allocate_loop) (inl (_, _, refl, turn-Took s _ key found lt free))
      ]

  empty-Outcome :
      (rounds : ℕ) (s : Subnet)
      → IsRing s.available_ips
      → ¬ (0 < rounds)
      → Outcome rounds s (allocate_loop t rounds pod_name pod_namespace s)
  unfolding allocate_loop
  empty-Outcome zero s ring h = inr (
    s,
    refl,
    record {
      place = s.available_ips.ip_index;
      kept_range = ring.placed;
      same = refl;
      all_used = λ d k l. absurd (omega arith);
    },
  )
  empty-Outcome (suc rounds) s ring h = absurd (omega arith)

  -- AllocateNext ends in one of the two ways; a failure has seen every address of the ring in use.
  pub allocate_next-Outcome :
      (s : Subnet)
      → IsRing s.available_ips
      → Outcome s.available_ips.ip_count s (allocate_next t pod_name pod_namespace s)
  unfolding allocate_next
  allocate_next-Outcome s ring = elim (dec_lt 0 s.available_ips.ip_count) [
    | yes p ↦ allocate_loop-Outcome s.available_ips.ip_count s ring p
    | no p ↦ empty-Outcome s.available_ips.ip_count s ring p
  ]

  -- Every address of the ring is in use where the loop has missed them all.
  pub Missed-all :
      (s s' : Subnet)
      → IsRing s.available_ips
      → Missed s.available_ips.ip_count s s'
      → (j : ℕ) (key : String) → get_elem? s.available_ips.ips j ≡ some key
      → Map.has key s.using_ips ≡ true
  Missed-all s s' ring missed j key found =
      let lt : j < s.available_ips.ip_count =
        rw ring.counted (lt-of-get_elem? s.available_ips.ips j found) in
      let (d, l, e) =
        place_onto (after s.available_ips.ip_index) j s.available_ips.ip_count ring.placed lt in
      missed.all_used d key l (rw e found)

  pub Outcome-Took :
      (n : ℕ) (s s' : Subnet) (ip : Ip) (r : Result (Option Ip) × Subnet)
      → Outcome n s r
      → r ≡ (ok (some ip), s')
      → Took s s' ip
  Outcome-Took n s s' ip r (inl (ip0, s0, e, took)) given =
      let same_ip : ip0 ≡ ip = cc in
      let same_state : s0 ≡ s' = cc in
      subst (λ x. Took s x ip) same_state (subst (λ y. Took s s0 y) same_ip took)
  Outcome-Took n s s' ip r (inr (s0, e, missed)) given = absurd (cc)

  -- A successful call has taken an address of the ring.
  pub allocate_next-Took :
      (s s' : Subnet) (ip : Ip)
      → IsRing s.available_ips
      → allocate_next t pod_name pod_namespace s ≡ (ok (some ip), s')
      → Took s s' ip
  allocate_next-Took s s' ip ring given =
      Outcome-Took s.available_ips.ip_count s s' ip _ (allocate_next-Outcome s ring) given
