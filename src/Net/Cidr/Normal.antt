-- ===== src/Net/Cidr/Normal.antt =====
-- The address arithmetic sees an address only through its normal form.
use container_advanced_netwo.Common.{◌≡◌, sym, ap, ◌∙◌}
use container_advanced_netwo.Net.{NetIp, IpNet, IpText, IsIpText, normalize_ip, equal, in_net}
use container_advanced_netwo.Net.Cidr.{cmp, next_ip}

pub print-normal :
    (t : IpText) (law : IsIpText t) (a b : NetIp)
    → normalize_ip a ≡ normalize_ip b
    → t.print_ip a ≡ t.print_ip b
print-normal t law a b e = sym (law.print_normal a) ∙ ap t.print_ip e ∙ law.print_normal b

module _ (a b : NetIp) (e : normalize_ip a ≡ normalize_ip b) where
  pub cmp-normal : (c : NetIp) → cmp a c ≡ cmp b c
  unfolding cmp
  cmp-normal c = rw e

  pub next_ip-normal : next_ip a ≡ next_ip b
  unfolding next_ip
  next_ip-normal = rw e

  pub equal-normal : (c : NetIp) → equal a c ≡ equal b c
  unfolding equal
  equal-normal c = rw e

  pub equal-normal_right : (c : NetIp) → equal c a ≡ equal c b
  unfolding equal
  equal-normal_right c = rw e

  pub in_net-normal : (c : IpNet) → in_net c a ≡ in_net c b
  unfolding in_net
  in_net-normal c = rw e
