-- ===== src/Ipam/Manager/Entries.antt =====
-- The addresses in use before and after the calls that Allocate makes on a network.
use container_advanced_netwo.Common.{
  ℕ, ◌≡◌, ◌≢◌, refl, sym, ap, ◌∙◌, ◌⊎◌, inl, inr, Bool, true, false, not, Option, none, some,
  get_elem?, set, get_elem?-set_self, get_elem?-set_ne, lt-of-get_elem?, ℕ_discrete,
}
use container_advanced_netwo.Net.{IpText}
use container_advanced_netwo.Ipam.Base.{M, Result, ok, err, Error, ◌>>=◌, no_ip_left}
use container_advanced_netwo.Ipam.Types.{Ip, Subnet, Network, PodInfo}
use container_advanced_netwo.Ipam.Subnet.{allocate_next}
use container_advanced_netwo.Ipam.Subnet.Invariant.{IsValid}
use container_advanced_netwo.Ipam.Subnet.Outcome.{allocate_next-Outcome}
use container_advanced_netwo.Ipam.Subnet.Allocate.{Granted, allocate_next-Granted}
use container_advanced_netwo.Ipam.Network.{slice_of, store, on_subnet}
use container_advanced_netwo.Ipam.Network.Selection.{used, using_of, SameUsed, ref_at}
use container_advanced_netwo.Ipam.Manager.{allocate_from}

pub slice_of-store :
    (b : Bool) (i : ℕ) (s : Subnet) (n : Network)
    → (slice_of b (store (ref_at b i) s n)).subnets ≡ set (slice_of b n).subnets i s
slice_of-store true i s n = refl
slice_of-store false i s n = refl

pub slice_of-store-not :
    (b : Bool) (i : ℕ) (s : Subnet) (n : Network)
    → slice_of (not b) (store (ref_at b i) s n) ≡ slice_of (not b) n
slice_of-store-not true i s n = refl
slice_of-store-not false i s n = refl

-- The subnet at a place is in the network.
abbrev pub There : Bool → ℕ → Network → Subnet → Type 0
There b i n s = get_elem? (slice_of b n).subnets i ≡ some s

pub store-There :
    (b : Bool) (i : ℕ) (s s' : Subnet) (n : Network)
    → There b i n s
    → There b i (store (ref_at b i) s' n) s'
store-There b i s s' n h =
    ap (λ l. get_elem? l i) (slice_of-store b i s' n)
    ∙ get_elem?-set_self (slice_of b n).subnets i s' (lt-of-get_elem? (slice_of b n).subnets i h)

pub used-store_ne :
    (b : Bool) (i j : ℕ) (s : Subnet) (n : Network)
    → i ≢ j
    → used b j (store (ref_at b i) s n) ≡ used b j n
used-store_ne b i j s n ne =
    ap (λ l. using_of (get_elem? l j)) (slice_of-store b i s n)
    ∙ ap using_of (get_elem?-set_ne (slice_of b n).subnets s ne)

pub used-store_same :
    (b : Bool) (i : ℕ) (s s' : Subnet) (n : Network)
    → There b i n s
    → s'.using_ips ≡ s.using_ips
    → (j : ℕ) → used b j (store (ref_at b i) s' n) ≡ used b j n
used-store_same b i s s' n h same j = elim (ℕ_discrete i j) [
  | yes e ↦
      ap (λ k. used b k (store (ref_at b i) s' n)) (sym e)
      ∙ ap using_of (store-There b i s s' n h)
      ∙ ap some same
      ∙ sym (ap using_of h)
      ∙ ap (λ k. used b k n) e
  | no ne ↦ used-store_ne b i j s' n ne
]

-- A subnet is written back with the same addresses in use.
pub store-SameUsed :
    (b : Bool) (i : ℕ) (s s' : Subnet) (n : Network)
    → There b i n s
    → s'.using_ips ≡ s.using_ips
    → SameUsed n (store (ref_at b i) s' n)
store-SameUsed true i s s' n h same true j = used-store_same true i s s' n h same j
store-SameUsed true i s s' n h same false j = refl
store-SameUsed false i s s' n h same true j = refl
store-SameUsed false i s s' n h same false j = used-store_same false i s s' n h same j

pub SameUsed-trans : (a b c : Network) → SameUsed a b → SameUsed b c → SameUsed a c
SameUsed-trans a b c f g v6 i = g v6 i ∙ f v6 i

pub bind-ok :
    {A B : Type 0} (m : M Network A) (f : A → M Network B) (a : A) (n n' : Network)
    → m n ≡ (ok a, n')
    → (m >>= f) n ≡ f a n'
unfolding ◌>>=◌
bind-ok {B = B} m f a n n' e =
    ap (λ r. elim r.0 as (λ _. Result B × Network) [ ok x ↦ f x r.1 | err x ↦ (err x, r.1) ]) e

pub bind-err :
    {A B : Type 0} (m : M Network A) (f : A → M Network B) (e : Error) (n n' : Network)
    → m n ≡ (err e, n')
    → (m >>= f) n ≡ (err e, n')
unfolding ◌>>=◌
bind-err {B = B} m f e n n' h =
    ap (λ r. elim r.0 as (λ _. Result B × Network) [ ok x ↦ f x r.1 | err x ↦ (err x, r.1) ]) h

pub used-store_to :
    (b : Bool) (i : ℕ) (s s' : Subnet) (n n0 : Network)
    → There b i n s
    → used b i n0 ≡ some s'.using_ips
    → ((j : ℕ) → i ≢ j → used b j n ≡ used b j n0)
    → (j : ℕ) → used b j (store (ref_at b i) s' n) ≡ used b j n0
used-store_to b i s s' n n0 h same others j = elim (ℕ_discrete i j) [
  | yes e ↦
      ap (λ k. used b k (store (ref_at b i) s' n)) (sym e)
      ∙ ap using_of (store-There b i s s' n h)
      ∙ sym same
      ∙ ap (λ k. used b k n0) e
  | no ne ↦ used-store_ne b i j s' n ne ∙ others j ne
]

pub used-store-not :
    (v6 : Bool) (i : ℕ) (s : Subnet) (n : Network) (j : ℕ)
    → used (not v6) j (store (ref_at v6 i) s n) ≡ used (not v6) j n
used-store-not v6 i s n j = ap (λ x. using_of (get_elem? x.subnets j)) (slice_of-store-not v6 i s n)

module _ (t : IpText) (pod : PodInfo) where
  -- A subnet of one family has given the address to the pod, and its addresses in use are those
  -- from after; every other subnet of the family has those from before.
  pub record Gave (v6 : Bool) (n n' : Network) (ip : Ip) : Type 0 where
    pub place : ℕ
    pub before : Subnet
    pub after : Subnet
    pub there : get_elem? (slice_of v6 n).subnets place ≡ some before
    pub granted : Granted t pod.name pod.namespace before after ip
    pub entered : used v6 place n' ≡ some after.using_ips
    pub elsewhere : (i : ℕ) → place ≢ i → used v6 i n' ≡ used v6 i n

  -- The call of AllocateNext on a subnet that is there.
  abbrev pub Turn : Bool → ℕ → Subnet → Network → Result (Option Ip) × Network → Type 0
  Turn v6 i s n r =
      ((ip : Ip) × (s' : Subnet) × (allocate_next t pod.name pod.namespace s ≡ (ok (some ip), s'))
        × (r ≡ (ok (some ip), store (ref_at v6 i) s' n)))
      ⊎ ((s' : Subnet) × (s'.using_ips ≡ s.using_ips) × (r ≡ (ok none, store (ref_at v6 i) s' n)))

  pub on_subnet-Turn :
      (v6 : Bool) (i : ℕ) (s : Subnet) (n : Network)
      → There v6 i n s
      → IsValid t s
      → Turn v6 i s n (on_subnet (ref_at v6 i) (allocate_next t pod.name pod.namespace) n)
  unfolding on_subnet
  on_subnet-Turn v6 i s n h v = elim (allocate_next-Outcome t pod.name pod.namespace s v.ring) [
    | inl (ip, s', e, took) ↦ inl (ip, s', e, rw (h, e, on_subnet) refl)
    | inr (s', e, missed) ↦ inr (s', ap (λ x. x.using_ips) missed.same, rw (h, e, on_subnet) refl)
  ]

  pub store-Gave :
      (v6 : Bool) (i : ℕ) (s s' : Subnet) (ip : Ip) (n : Network)
      → IsValid t s
      → There v6 i n s
      → allocate_next t pod.name pod.namespace s ≡ (ok (some ip), s')
      → Gave v6 n (store (ref_at v6 i) s' n) ip
  store-Gave v6 i s s' ip n v h e = record {
    place = i;
    before = s;
    after = s';
    there = h;
    granted = allocate_next-Granted t pod.name pod.namespace s s' ip v e;
    entered = ap using_of (store-There v6 i s s' n h);
    elsewhere = λ j ne. used-store_ne v6 i j s' n ne;
  }

  pub Gave-same :
      (v6 : Bool) (a a' b b' : Network) (ip : Ip)
      → (slice_of v6 a').subnets ≡ (slice_of v6 a).subnets
      → ((i : ℕ) → used v6 i b' ≡ used v6 i b)
      → Gave v6 a b ip
      → Gave v6 a' b' ip
  Gave-same v6 a a' b b' ip same after g = record {
    place = g.place;
    before = g.before;
    after = g.after;
    there = ap (λ l. get_elem? l g.place) same ∙ g.there;
    granted = g.granted;
    entered = after g.place ∙ g.entered;
    elsewhere = λ j ne. after j ∙ g.elsewhere j ne ∙ sym (ap (λ l. using_of (get_elem? l j)) same);
  }

  -- The call of allocate_from on a subnet that is there.
  abbrev pub From : Bool → ℕ → Subnet → Network → Result Ip × Network → Type 0
  From v6 i s n r =
      ((ip : Ip) × (s' : Subnet) × (allocate_next t pod.name pod.namespace s ≡ (ok (some ip), s'))
        × (r ≡ (ok ip, store (ref_at v6 i) s' n)))
      ⊎ ((s' : Subnet) × (s'.using_ips ≡ s.using_ips)
          × (r ≡ (err no_ip_left, store (ref_at v6 i) s' n)))

  pub allocate_from-From :
      (v6 : Bool) (i : ℕ) (s : Subnet) (n : Network)
      → There v6 i n s
      → IsValid t s
      → From v6 i s n (allocate_from t pod (ref_at v6 i) n)
  unfolding allocate_from
  allocate_from-From v6 i s n h v = elim (on_subnet-Turn v6 i s n h v) [
    | inl (ip, s', e, r) ↦ inl (ip, s', e, bind-ok _ _ _ n _ r)
    | inr (s', same, r) ↦ inr (s', same, bind-ok _ _ _ n _ r)
  ]
