-- ===== src/Net/Cidr.antt =====
-- pkg/utils/cidr.go and LastIP of pkg/utils/ip.go: arithmetic on addresses.
pub mod Bounds
pub mod Normal
use container_advanced_netwo.Common.{
  ℕ, ◌+◌, ◌-◌, ◌*◌, ◌/◌, ◌%◌, ◌^◌, Bool, true, false, ◌==◌, ltb, leb, ◌&&◌, ◌||◌, if◌then◌else◌,
  Option, none, some,
}
use container_advanced_netwo.Net.{
  NetIp, nil_ip, ip4, ip16, IpNet, Mask, nil_mask, cidr_mask, normalize_ip, is_nil, apply_mask, to4,
}

-- big.Int.Bytes() has exactly k bytes.
abbrev has_bytes : ℕ → ℕ → Bool
has_bytes k i = leb (256 ^ (k - 1)) i && ltb i (256 ^ k)

-- ipToInt.
unfoldable pub ip_to_int : NetIp → ℕ
ip_to_int nil_ip = 0
ip_to_int (ip4 n) = n
ip_to_int (ip16 n) = n

-- intToIP. `none` is a panic: the bytes do not fit and make() is called with a negative length.
-- A number of exactly 4 or 16 bytes is taken as it is, whatever the family.
unfoldable pub int_to_ip : ℕ → Bool → Option NetIp
int_to_ip i is_ipv6 =
    if has_bytes 4 i
    then some (ip4 i)
    else (if has_bytes 16 i
        then some (ip16 i)
        else (if is_ipv6
            then (if ltb i (2 ^ 128) then some (ip16 i) else none)
            else (if ltb i (2 ^ 32) then some (ip4 i) else none)))

step_int : (ℕ → ℕ) → NetIp → Option NetIp
unfolding int_to_ip
step_int f nil_ip = some nil_ip
step_int f (ip4 n) = int_to_ip (f n) false
step_int f (ip16 n) = int_to_ip (f n) true

-- NextIP.
unfoldable pub next_ip : NetIp → Option NetIp
unfolding step_int
next_ip ip = step_int (λ i. i + 1) (normalize_ip ip)

-- PrevIP. The bytes of -1 are those of its absolute value.
unfoldable pub prev_ip : NetIp → Option NetIp
unfolding step_int
prev_ip ip = step_int (λ i. if i == 0 then 1 else i - 1) (normalize_ip ip)

-- The result of Cmp: -1, 0, 1 and -2.
pub data Order : Type 0 where
  less same more incomparable : Order

of_compare : ℕ → ℕ → Order
of_compare m n = if ltb m n then less else if m == n then same else more

cmp_normal : NetIp → NetIp → Order
unfolding of_compare
cmp_normal (ip4 m) (ip4 n) = of_compare m n
cmp_normal (ip16 m) (ip16 n) = of_compare m n
cmp_normal _ _ = incomparable

-- Cmp.
unfoldable pub cmp : NetIp → NetIp → Order
unfolding cmp_normal
cmp a b = cmp_normal (normalize_ip a) (normalize_ip b)

-- The tests `< 0`, `> 0`, `<= 0` and `>= 0` on a result of Cmp.
abbrev pub is_neg : Order → Bool
is_neg less = true
is_neg incomparable = true
is_neg _ = false

abbrev pub is_pos : Order → Bool
is_pos more = true
is_pos _ = false

abbrev pub is_le : Order → Bool
is_le more = false
is_le _ = true

abbrev pub is_ge : Order → Bool
is_ge same = true
is_ge more = true
is_ge _ = false

-- |b - a| + 1.
span : ℕ → ℕ → ℕ
span a b = (b - a) + (a - b) + 1

capacity_normal : NetIp → NetIp → ℕ
unfolding span
capacity_normal (ip4 m) (ip4 n) = span m n
capacity_normal (ip16 m) (ip16 n) = span m n
capacity_normal _ _ = 0

-- Capacity.
unfoldable pub capacity : NetIp → NetIp → ℕ
unfolding capacity_normal
capacity a b = capacity_normal (normalize_ip a) (normalize_ip b)

-- Network: `none` is nil.
unfoldable pub network : Option IpNet → Option IpNet
network none = none
network (some ipn) =
    if is_nil (apply_mask ipn.ip ipn.mask)
    then none
    else some (record { ip = apply_mask ipn.ip ipn.mask; mask = ipn.mask })

-- An IPv4 end address with its last byte taken down by one, as a byte.
broadcast_off : ℕ → ℕ
broadcast_off n = if n % 256 == 0 then n + 255 else n - 1

-- The 4th of the 16 bytes taken down by one, as a byte.
fourth_off : ℕ → ℕ
fourth_off n = if n / 2 ^ 96 % 256 == 0 then n + 255 * 2 ^ 96 else n - 2 ^ 96

-- n or-ed with h low bits.
fill : ℕ → ℕ → ℕ
fill n h = n / 2 ^ h * 2 ^ h + (2 ^ h - 1)

-- LastIP: the bytes of the address or-ed with those of the inverted mask, and `end[3]--` if the
-- address is an IPv4 address. `none` is a panic, an index out of the mask's range.
last_of : NetIp → Mask → Option NetIp
unfolding broadcast_off fourth_off fill to4 is_nil
last_of nil_ip _ = some nil_ip
last_of (ip4 n) nil_mask = none
last_of (ip4 n) (cidr_mask ones bits) = some (ip4 (broadcast_off (fill n (32 - ones))))
last_of (ip16 n) nil_mask = none
last_of (ip16 n) (cidr_mask ones bits) =
    if bits == 128
    then (if is_nil (to4 (ip16 n))
        then some (ip16 (fill n (128 - ones)))
        else some (ip16 (fourth_off (fill n (128 - ones)))))
    else none

unfoldable pub last_ip : IpNet → Option NetIp
unfolding last_of
last_ip c = last_of c.ip c.mask
