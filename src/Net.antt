-- ===== src/Net.antt =====
-- Go's package net, as far as the repository uses it: addresses, masks and networks. A slice of
-- 4 or 16 bytes is the number that its bytes spell, first byte first; a slice of another length
-- does not occur, but for nil. Texts of addresses are read and written by a parameter.
pub mod Cidr
pub mod Binary
mod Tests
use Prim.Native.Nat.{min}
use container_advanced_netwo.Common.{
  ℕ, ◌+◌, ◌-◌, ◌*◌, ◌/◌, ◌%◌, ◌^◌, ◌<◌, ◌≡◌, Bool, true, false, ◌==◌, leb, if◌then◌else◌, String,
}

-- net.IP.
pub data NetIp : Type 0 where
  nil_ip : NetIp
  ip4 ip16 : ℕ → NetIp

-- The number fits into its bytes.
abbrev pub IsIp : NetIp → Type 0
IsIp nil_ip = Unit {0}
IsIp (ip4 n) = n < 2 ^ 32
IsIp (ip16 n) = n < 2 ^ 128

-- IP.To4: the bytes ::ffff:0:0/96 are an IPv4 address.
unfoldable pub to4 : NetIp → NetIp
to4 nil_ip = nil_ip
to4 (ip4 n) = ip4 n
to4 (ip16 n) = if n / 2 ^ 32 == 0xffff then ip4 (n % 2 ^ 32) else nil_ip

-- IP.To16.
unfoldable pub to16 : NetIp → NetIp
to16 nil_ip = nil_ip
to16 (ip4 n) = ip16 (0xffff * 2 ^ 32 + n)
to16 (ip16 n) = ip16 n

unfoldable pub is_nil : NetIp → Bool
is_nil nil_ip = true
is_nil (ip4 n) = false
is_nil (ip16 n) = false

-- The 4-byte form if there is one, else the 16-byte form: the first step of IP.Equal and of
-- IPNet.Contains, and normalizeIP of pkg/utils/cidr.go.
unfoldable pub normalize_ip : NetIp → NetIp
unfolding to4 to16
normalize_ip ip = elim (to4 ip) [ nil_ip ↦ to16 ip | ip4 n ↦ ip4 n | ip16 n ↦ ip16 n ]

same_bytes : NetIp → NetIp → Bool
same_bytes nil_ip nil_ip = true
same_bytes (ip4 m) (ip4 n) = m == n
same_bytes (ip16 m) (ip16 n) = m == n
same_bytes _ _ = false

-- IP.Equal: an IPv4 address and its 16-byte form are equal.
unfoldable pub equal : NetIp → NetIp → Bool
unfolding same_bytes normalize_ip
equal a b = same_bytes (normalize_ip a) (normalize_ip b)

-- net.IPMask: nil, or the mask CIDRMask(ones, bits), with bits 32 or 128.
pub data Mask : Type 0 where
  nil_mask : Mask
  cidr_mask : ℕ → ℕ → Mask

-- net.IPNet.
pub record IpNet : Type 0 where
  pub ip : NetIp
  pub mask : Mask

-- networkNumberAndMask: nil where address and mask do not go together.
number_under : NetIp → Mask → NetIp
number_under nil_ip _ = nil_ip
number_under (ip4 n) nil_mask = nil_ip
number_under (ip4 n) (cidr_mask ones bits) = ip4 n
number_under (ip16 n) nil_mask = nil_ip
number_under (ip16 n) (cidr_mask ones bits) = if bits == 128 then ip16 n else nil_ip

-- The size of a block: a 16-byte mask over an IPv4 number counts by its last 4 bytes.
block4 : Mask → ℕ
block4 nil_mask = 1
block4 (cidr_mask ones bits) = 2 ^ min 32 (bits - ones)

block16 : Mask → ℕ
block16 nil_mask = 1
block16 (cidr_mask ones bits) = 2 ^ (bits - ones)

same_block : Mask → NetIp → NetIp → Bool
same_block m nil_ip nil_ip = true
same_block m (ip4 a) (ip4 b) = a / block4 m == b / block4 m
same_block m (ip16 a) (ip16 b) = a / block16 m == b / block16 m
same_block _ _ _ = false

-- IPNet.Contains.
unfoldable pub in_net : IpNet → NetIp → Bool
unfolding number_under block4 block16 same_block normalize_ip
in_net c a = same_block c.mask (number_under (normalize_ip c.ip) c.mask) (normalize_ip a)

-- IP.Mask.
unfoldable pub apply_mask : NetIp → Mask → NetIp
unfolding to4
apply_mask _ nil_mask = nil_ip
apply_mask nil_ip (cidr_mask ones bits) = nil_ip
apply_mask (ip4 n) (cidr_mask ones bits) =
    if bits == 32
    then ip4 (n / 2 ^ (32 - ones) * 2 ^ (32 - ones))
    else (if leb 96 ones then ip4 (n / 2 ^ (128 - ones) * 2 ^ (128 - ones)) else nil_ip)
apply_mask (ip16 n) (cidr_mask ones bits) =
    if bits == 128
    then ip16 (n / 2 ^ (128 - ones) * 2 ^ (128 - ones))
    else (elim (to4 (ip16 n)) [ ip4 m ↦ ip4 (m / 2 ^ (32 - ones) * 2 ^ (32 - ones)) | _ ↦ nil_ip ])

-- net.ParseIP and IP.String: the text of an address is not modelled.
pub record IpText : Type 0 where
  pub parse_ip : String → NetIp
  pub print_ip : NetIp → String

-- What the package documents: a text is made from the shortest form of the address, and is read
-- back to an equal address.
pub record IsIpText (t : IpText) : Type 0 where
  pub print_normal : (a : NetIp) → t.print_ip (normalize_ip a) ≡ t.print_ip a
  pub parse-print : (a : NetIp) → IsIp a → normalize_ip (t.parse_ip (t.print_ip a)) ≡ normalize_ip a
