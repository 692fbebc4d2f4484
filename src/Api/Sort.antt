-- ===== src/Api/Sort.antt =====
-- pkg/apis/networking/v1/sort.go: IPv4 instances before IPv6 ones, each in the order that they had.
use container_advanced_netwo.Common.{
  ◌≡◌, refl, sym, subst, ap, ◌∙◌, inl, inr, Bool, true, false, not, ◌&&◌, if◌then◌else◌, Option,
  List, [], ◌∷◌, ◌++◌, String, Bool-cases,
}
use container_advanced_netwo.Net.{NetIp, IpNet}
use container_advanced_netwo.Api.{IpInstance, is_ipv6_instance}

module _ (parse_cidr : String → Option (NetIp × IpNet)) where
  -- Less, of two pointers that are not nil.
  unfoldable pub less : IpInstance → IpInstance → Bool
  less i j = not (is_ipv6_instance parse_cidr i) && is_ipv6_instance parse_cidr j

  unfoldable pub insert_instance : IpInstance → List IpInstance → List IpInstance
  insert_instance i [] = i ∷ []
  insert_instance i (j ∷ js) =
      let rest = insert_instance i js in if less j i then j ∷ rest else i ∷ (j ∷ js)

  -- SortIPInstancePointerSlice: sort.Stable is an insertion sort.
  unfoldable pub sort_ip_instances : List IpInstance → List IpInstance
  sort_ip_instances [] = []
  sort_ip_instances (i ∷ is) = insert_instance i (sort_ip_instances is)

  -- The instances of one family, in their order.
  unfoldable pub of_family : Bool → List IpInstance → List IpInstance
  of_family six [] = []
  of_family six (i ∷ is) =
      let rest = of_family six is in
      if is_ipv6_instance parse_cidr i
      then (if six then i ∷ rest else rest)
      else (if six then rest else i ∷ rest)

  insert_stays :
      (i j : IpInstance) (js : List IpInstance)
      → less j i ≡ false
      → insert_instance i (j ∷ js) ≡ i ∷ (j ∷ js)
  unfolding insert_instance
  insert_stays i j js e = rw (e, insert_instance) refl

  insert_passes :
      (i j : IpInstance) (js : List IpInstance)
      → less j i ≡ true
      → insert_instance i (j ∷ js) ≡ j ∷ insert_instance i js
  unfolding insert_instance
  insert_passes i j js e = rw (e, insert_instance) refl

  less-after_v6 : (i j : IpInstance) → is_ipv6_instance parse_cidr i ≡ true → less i j ≡ false
  unfolding less
  less-after_v6 i j e = rw e refl

  insert-before_v6 :
      (i : IpInstance) (m : List IpInstance)
      → insert_instance i (of_family true m) ≡ i ∷ of_family true m
  unfolding insert_instance of_family
  insert-before_v6 i [] = refl
  insert-before_v6 i (j ∷ js) = elim (Bool-cases (is_ipv6_instance parse_cidr j)) [
    | inl e ↦
        let head : of_family true (j ∷ js) ≡ j ∷ of_family true js = rw (e, of_family) refl in
        subst (λ l. insert_instance i l ≡ i ∷ l) (sym head)
          (insert_stays i j _ (less-after_v6 j i e))
    | inr e ↦
        let head : of_family true (j ∷ js) ≡ of_family true js = rw (e, of_family) refl in
        subst (λ l. insert_instance i l ≡ i ∷ l) (sym head) (insert-before_v6 i js)
  ]

  less_lem :
      (i j : IpInstance)
      → is_ipv6_instance parse_cidr i ≡ false
      → is_ipv6_instance parse_cidr j ≡ true
      → less i j ≡ true
  unfolding less
  less_lem i j e f = rw (e, f) refl

  insert-after_v4 :
      (i : IpInstance) (l m : List IpInstance)
      → is_ipv6_instance parse_cidr i ≡ true
      → insert_instance i (of_family false l ++ of_family true m)
        ≡ of_family false l ++ (i ∷ of_family true m)
  unfolding of_family
  insert-after_v4 i [] m six = insert-before_v6 i m
  insert-after_v4 i (j ∷ js) m six = elim (Bool-cases (is_ipv6_instance parse_cidr j)) [
    | inl e ↦
        let head : of_family false (j ∷ js) ≡ of_family false js = rw (e, of_family) refl in
        subst (λ l. insert_instance i (l ++ of_family true m) ≡ l ++ (i ∷ of_family true m))
          (sym head) (insert-after_v4 i js m six)
    | inr e ↦
        let head : of_family false (j ∷ js) ≡ j ∷ of_family false js = rw (e, of_family) refl in
        subst (λ l. insert_instance i (l ++ of_family true m) ≡ l ++ (i ∷ of_family true m))
          (sym head)
          (insert_passes i j _ (less_lem j i e six) ∙ ap (λ k. j ∷ k) (insert-after_v4 i js m six))
  ]

  less-before_v4 : (i j : IpInstance) → is_ipv6_instance parse_cidr j ≡ false → less i j ≡ false
  unfolding less
  less-before_v4 i j e = elim (Bool-cases (is_ipv6_instance parse_cidr i)) [
    | inl f ↦ rw f refl
    | inr f ↦ rw (f, e) refl
  ]

  insert_v4 :
      (i : IpInstance) (l : List IpInstance)
      → is_ipv6_instance parse_cidr i ≡ false
      → insert_instance i l ≡ i ∷ l
  unfolding insert_instance
  insert_v4 i [] four = refl
  insert_v4 i (j ∷ js) four = insert_stays i j js (less-before_v4 j i four)

  -- The sorted instances are those of IPv4 and then those of IPv6, each in their order.
  pub sort_ip_instances-of_family :
      (l : List IpInstance) → sort_ip_instances l ≡ of_family false l ++ of_family true l
  unfolding sort_ip_instances of_family
  sort_ip_instances-of_family [] = refl
  sort_ip_instances-of_family (i ∷ is) = elim (Bool-cases (is_ipv6_instance parse_cidr i)) [
    | inl e ↦
        let four : of_family false (i ∷ is) ≡ of_family false is = rw (e, of_family) refl in
        let six : of_family true (i ∷ is) ≡ i ∷ of_family true is = rw (e, of_family) refl in
        ap (insert_instance i) (sort_ip_instances-of_family is)
        ∙ (insert-after_v4 i is is e
            ∙ (ap (λ l. l ++ (i ∷ of_family true is)) (sym four)
                ∙ ap (λ l. of_family false (i ∷ is) ++ l) (sym six)))
    | inr e ↦
        let four : of_family false (i ∷ is) ≡ i ∷ of_family false is = rw (e, of_family) refl in
        let six : of_family true (i ∷ is) ≡ of_family true is = rw (e, of_family) refl in
        insert_v4 i (sort_ip_instances is) e
        ∙ (ap (λ k. i ∷ k) (sort_ip_instances-of_family is)
            ∙ (ap (λ l. l ++ of_family true is) (sym four)
                ∙ ap (λ l. of_family false (i ∷ is) ++ l) (sym six)))
  ]
