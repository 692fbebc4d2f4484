-- ===== src/Net/Cidr/Bounds.antt =====
-- What the address arithmetic of pkg/utils/cidr.go promises, and where it does not hold.
use container_advanced_netwo.Common.{
  ℕ, ◌+◌, ◌^◌, ◌≤◌, ◌<◌, ◌≡◌, refl, ◌≢◌, ◌↔◌, ◌==◌, Bool, true, false, none, some, arith,
}
use container_advanced_netwo.Net.{NetIp, nil_ip, ip4, ip16, IsIp, normalize_ip, equal}
use container_advanced_netwo.Net.Cidr.{next_ip, prev_ip, cmp, capacity, less, same, ip_to_int}

pub normalize_again : (a : NetIp) → normalize_ip (normalize_ip a) ≡ normalize_ip a
unfolding normalize_ip
normalize_again nil_ip = refl
normalize_again (ip4 n) = refl
normalize_again (ip16 n) = ground arith

-- The addresses of one family in counting order, the mapped ones aside: where NextIP and PrevIP
-- move by one. The 16-byte numbers below 2^48 are those that intToIP can take for IPv4.
abbrev pub IsPlain : NetIp → Type 0
IsPlain nil_ip = ⊥
IsPlain (ip4 n) = n < 2 ^ 32
IsPlain (ip16 n) = (2 ^ 48 ≤ n) × (n < 2 ^ 128)

-- The first address past those of the family.
abbrev pub top : NetIp → ℕ
top nil_ip = 0
top (ip4 n) = 2 ^ 32
top (ip16 n) = 2 ^ 128

abbrev pub Neighbours : NetIp → NetIp → Type 0
Neighbours a b = (next_ip a ≡ some b) × (prev_ip b ≡ some a) × (cmp a b ≡ less) × (capacity a b ≡ 2)

-- On a plain address below the last one of its family NextIP counts up by one: PrevIP comes back,
-- Cmp puts the address first, and Capacity counts two addresses.
pub next_ip-IsPlain :
    (a : NetIp)
    → IsPlain a
    → ip_to_int a + 1 < top a
    → (b : NetIp) × Neighbours a b × (ip_to_int b ≡ ip_to_int a + 1)
unfolding next_ip prev_ip normalize_ip cmp capacity ip_to_int
next_ip-IsPlain nil_ip p h = elim p [ ]
next_ip-IsPlain (ip4 n) p h =
    (ip4 (n + 1), (ground arith, ground arith, ground arith, ground arith), refl)
next_ip-IsPlain (ip16 n) p h =
    (ip16 (n + 1), (ground arith, ground arith, ground arith, ground arith), refl)

unfoldable pub is_last : NetIp → Bool
is_last nil_ip = false
is_last (ip4 n) = n + 1 == 2 ^ 32
is_last (ip16 n) = n + 1 == 2 ^ 128

-- On an address within the bounds of its length, NextIP panics exactly where its normal form is
-- the last one of a family, 255.255.255.255 or ff..ff.
pub next_ip-none : (a : NetIp) → IsIp a → (next_ip a ≡ none) ↔ (is_last (normalize_ip a) ≡ true)
unfolding next_ip normalize_ip is_last
next_ip-none nil_ip h = ((λ e. ground arith), (λ e. ground arith))
next_ip-none (ip4 n) h = ((λ e. ground arith), (λ e. ground arith))
next_ip-none (ip16 n) h = ((λ e. ground arith), (λ e. ground arith))

-- A 16-byte address whose number has 4 bytes, as ::1.0.0.0, is followed by an IPv4 address.
pub next_ip_leaves_family :
    (n : ℕ) → 2 ^ 24 ≤ n + 1 → n + 1 < 2 ^ 32 → next_ip (ip16 n) ≡ some (ip4 (n + 1))
unfolding next_ip normalize_ip
next_ip_leaves_family n l h = ground arith

-- Where the first address is not nil, Cmp finds two addresses the same exactly where Equal does.
pub cmp-same : (a b : NetIp) → normalize_ip a ≢ nil_ip → (cmp a b ≡ same) ↔ (equal a b ≡ true)
unfolding cmp equal normalize_ip
cmp-same a b h = ((λ e. ground arith), (λ e. ground arith))
