-- ===== src/Ipam/Ip/Ring.antt =====
-- The ring of addresses that Next turns: its invariant, and which place each turn reads.
use native.Mathlib.Nat.{mod-add-mod, mod-eq_of_lt}
use container_advanced_netwo.Common.{
  ℕ, suc, ◌+◌, ◌-◌, ◌%◌, ◌≤◌, ◌<◌, ◌≡◌, Bool, some, ◌∷◌, [], String, arith, dec_le, length,
  get_elem?, get_elem?-lt, length-append,
}
use container_advanced_netwo.Ipam.Types.{IpSlice}
use container_advanced_netwo.Ipam.Ip.{next, add, new_ip_slice, after}

-- The count is that of the addresses, and the index, if there is one, is in range.
pub record IsRing (s : IpSlice) : Type 0 where
  pub counted : s.ip_count ≡ length s.ips
  pub placed : after s.ip_index ≤ s.ip_count

pub new_ip_slice-IsRing : IsRing new_ip_slice
unfolding new_ip_slice
new_ip_slice-IsRing = omega arith

pub add-IsRing : (ip : String) (d : Bool) (s : IpSlice) → IsRing s → IsRing (add ip d s)
unfolding add
add-IsRing ip d s h = ground (arith, length-append s.ips (ip ∷ []))

-- The ring after a turn that read place `j`.
abbrev pub turned : IpSlice → ℕ → IpSlice
turned s j = record s { ip_index = some j }

-- A turn of a ring that is not empty reads the place after the last one, round the end.
pub next_lem :
    (s : IpSlice)
    → IsRing s
    → 0 < s.ip_count
    → let j = after s.ip_index % s.ip_count in
      (ip : String) × (get_elem? s.ips j ≡ some ip)
      × (next s ≡ some (turned s j, ip))
      × (j < s.ip_count)
unfolding next
next_lem s r h =
    let (ip, found) = get_elem?-lt s.ips (after s.ip_index % s.ip_count) (omega arith) in
    (ip, found, ground arith, omega arith)

-- The places that the next turns read, one after the other.
pub place-suc : (c d n : ℕ) → (suc (c % n) + d) % n ≡ (c + suc d) % n
place-suc c d n =
    let e : suc (c % n) + d ≡ c % n + suc d = omega arith in rw e (mod-add-mod c n (suc d))

place_wrap : (j n : ℕ) → j < n → (j + n) % n ≡ j
place_wrap j n h = grind arith

-- The turns of one full round read every place.
pub place_onto : (c j n : ℕ) → c ≤ n → j < n → (d : ℕ) × (d < n) × ((c + d) % n ≡ j)
place_onto c j n hc hj = elim (dec_le c j) [
  | yes p ↦ (j - c, omega arith, let e : c + (j - c) ≡ j = omega arith in rw e (mod-eq_of_lt hj))
  | no p ↦ (
    j + n - c,
    omega arith,
    let e : c + (j + n - c) ≡ j + n = omega arith in rw e (place_wrap j n hj),
  )
]
