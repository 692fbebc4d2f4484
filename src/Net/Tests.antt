-- ===== src/Net/Tests.antt =====
-- The theorems on the address arithmetic at concrete inputs.
use container_advanced_netwo.Common.{◌+◌, ◌≡◌, ◌≢◌, ◌↔◌, true, none, arith}
use container_advanced_netwo.Net.{NetIp, nil_ip, ip4, ip16, normalize_ip, equal}
use container_advanced_netwo.Net.Cidr.{next_ip, cmp, same, ip_to_int}
use container_advanced_netwo.Net.Cidr.Bounds.{
  Neighbours, next_ip-IsPlain, is_last, next_ip-none, cmp-same,
}

next_ip-IsPlain_example :
    (b : NetIp) × Neighbours (ip4 0x0a0000ff) b × (ip_to_int b ≡ ip_to_int (ip4 0x0a0000ff) + 1)
unfolding ip_to_int
next_ip-IsPlain_example = next_ip-IsPlain (ip4 0x0a0000ff) (omega arith) (omega arith)

next_ip-none_example :
    (next_ip (ip4 0xffffffff) ≡ none) ↔ (is_last (normalize_ip (ip4 0xffffffff)) ≡ true)
next_ip-none_example = next_ip-none (ip4 0xffffffff) (omega arith)

not_nil : normalize_ip (ip4 1) ≢ nil_ip
unfolding normalize_ip
not_nil = λ e. ground (arith, e)

cmp-same_example :
    (cmp (ip4 1) (ip16 0xffff00000001) ≡ same) ↔ (equal (ip4 1) (ip16 0xffff00000001) ≡ true)
cmp-same_example = cmp-same (ip4 1) (ip16 0xffff00000001) not_nil
