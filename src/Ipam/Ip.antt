-- ===== src/Ipam/Ip.antt =====
-- pkg/ipam/types/ip.go: the set of addresses in use and the ring of those to hand out.
pub mod Ring
use mathlib.Core.Option
use container_advanced_netwo.Common.{
  ℕ, suc, ◌%◌, Bool, false, ◌==◌, if◌then◌else◌, Option, none, some, [], ◌∷◌, ◌++◌, String, length,
  get_elem?,
}
use container_advanced_netwo.Common.Map
use container_advanced_netwo.Net.{to4, is_nil}
use container_advanced_netwo.Ipam.Types.{Status, Ip, IpSet, IpSlice}

-- Update: nothing happens to an address that is not there.
unfoldable pub update : String → String → String → Status → IpSet → IpSet
update ip pod_name pod_namespace status s = elim (Map.get ip s) [
  | none ↦ s
  | some content ↦
      Map.put ip
        (record content { pod_name = pod_name; pod_namespace = pod_namespace; status = status }) s
]

-- UpdateStatus.
unfoldable pub update_status : String → Status → IpSet → IpSet
update_status ip status s = elim (Map.get ip s) [
  | none ↦ s
  | some content ↦ Map.put ip (record content { status = status }) s
]

-- NewIPSlice.
unfoldable pub new_ip_slice : IpSlice
new_ip_slice = record { ips = []; ip_count = 0; ip_index = none }

-- IPSlice.Add.
unfoldable pub add : String → Bool → IpSlice → IpSlice
add ip is_default s = record {
  ips = s.ips ++ ip ∷ [];
  ip_count = length (s.ips ++ ip ∷ []);
  ip_index = if is_default then some (length s.ips) else s.ip_index;
}

-- IPIndex + 1.
abbrev pub after : Option ℕ → ℕ
after none = 0
after (some i) = suc i

-- IPSlice.Next. `none` is a panic: a division by zero, or an index out of range.
unfoldable pub next : IpSlice → Option (IpSlice × String)
next s =
    if s.ip_count == 0
    then none
    else Option.map (λ ip. (record s { ip_index = some (after s.ip_index % s.ip_count) }, ip))
        (get_elem? s.ips (after s.ip_index % s.ip_count))

-- IPSlice.Current: the empty text before the first allocation.
unfoldable pub current : IpSlice → Option String
current s = elim s.ip_index [ none ↦ some "" | some i ↦ get_elem? s.ips i ]

-- IP.IsIPv6.
unfoldable pub is_ipv6 : Ip → Bool
is_ipv6 i = if is_nil i.address.ip then false else is_nil (to4 i.address.ip)
