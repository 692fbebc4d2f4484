-- ===== src/Webhook/Subnet/Apart.antt =====
-- What a Subnet object that is created or updated is known to be: its range, its size, and how it
-- stands to the other subnets.
use container_advanced_netwo.Common.{
  ℕ, ◌+◌, ◌≤◌, ◌≡◌, ◌≢◌, refl, sym, subst, ap, ◌∙◌, ◌⊎◌, inl, inr, true, false, not, ltb, Option,
  none, some, List, [], ◌∷◌, String, arith, Option-cases, str_dec,
}
use container_advanced_netwo.Net.{NetIp, IpNet, IpText}
use container_advanced_netwo.Ipam.Base.{Result-cases, Result, ok}
use container_advanced_netwo.Ipam.Types.{Subnet}
use container_advanced_netwo.Ipam.Subnet.{canonicalize, overlap}
use container_advanced_netwo.AddressRange.{
  AddressRange, is_empty, validate_address_range, intersect,
}
use container_advanced_netwo.AddressRange.Accepted.{Accepted, validate_address_range-Accepted}
use container_advanced_netwo.Api.{NetworkObject, SubnetObject, get_network_mode, calculate_capacity}
use container_advanced_netwo.Api.Transform.{transfer_subnet}
use container_advanced_netwo.Webhook.Refusal.{
  Refusal, no_parent, parent_changed, start_changed, end_changed, gateway_changed, cidr_changed,
  too_large, cidr_overlapped, same_cidr_elsewhere, overlapped, Reads, Read, found, not_found,
  failed, refuse_if, refuse_if-none, then_check-none,
}
use container_advanced_netwo.Webhook.Network.{same_text}
use container_advanced_netwo.Webhook.Network.Rules.{not_refused}
use container_advanced_netwo.Webhook.Subnet.{
  only_cidr, max_subnet_capacity, check_range, check_capacity, check_apart, check_cidr,
  check_overlap, check_others, check_canonical, create_in, create_under, create_with, subnet_create,
  same_range, subnet_update,
}

pub same_text-eq : (a b : String) → same_text a b ≡ true → a ≡ b
same_text-eq a b h = elim (str_dec a b) [ yes e ↦ e | no ne ↦ absurd (ground (arith, h, ne)) ]

abbrev pub Listed : SubnetObject → List SubnetObject → Type 0
Listed s [] = ⊥
Listed s (x ∷ xs) = (s ≡ x) ⊎ Listed s xs

pub Read-cases :
    {A : Type 0} (r : Read A) → ((a : A) × (r ≡ found a)) ⊎ ((r ≡ not_found) ⊎ (r ≡ failed))
Read-cases (found a) = inl (a, refl)
Read-cases not_found = inr (inl refl)
Read-cases failed = inr (inr refl)

module _ (t : IpText) (parse_cidr : String → Option (NetIp × IpNet)) (fuel : ℕ) where
  -- One CIDR is in one network, and two CIDRs have no address in common.
  abbrev pub CidrApart : SubnetObject → SubnetObject → Type 0
  CidrApart s other =
      ((s.range.cidr ≡ other.range.cidr) × (s.network ≡ other.network))
      ⊎ ((s.range.cidr ≢ other.range.cidr)
          × (intersect t parse_cidr fuel (only_cidr s.range.cidr) (only_cidr other.range.cidr)
              ≡ some false))

  -- The ranges do not overlap, where both subnets can be made canonical.
  abbrev pub RangeApart : SubnetObject → SubnetObject → Type 0
  RangeApart s other =
      (raw raw' ipam c : Subnet)
      → transfer_subnet t parse_cidr s ≡ some raw
      → canonicalize raw ≡ ok ipam
      → transfer_subnet t parse_cidr other ≡ some raw'
      → canonicalize raw' ≡ ok c
      → overlap t c ipam ≡ false

  check_apart-none :
      (a b : AddressRange) (refusal : Refusal)
      → check_apart t parse_cidr fuel a b refusal ≡ none
      → intersect t parse_cidr fuel a b ≡ some false
  unfolding check_apart
  check_apart-none a b refusal h = elim (Option-cases (intersect t parse_cidr fuel a b)) [
    | inl e ↦ absurd (ground (arith, e, h))
    | inr (true, e) ↦ absurd (ground (arith, e, h))
    | inr (false, e) ↦ e
  ]

  check_cidr-CidrApart :
      (s other : SubnetObject) → check_cidr t parse_cidr fuel s other ≡ none → CidrApart s other
  unfolding check_cidr
  check_cidr-CidrApart s other h = elim (str_dec s.range.cidr other.range.cidr) [
    | yes e ↦
        let same : same_text s.range.cidr other.range.cidr ≡ true = ground (arith, e) in
        let checked : refuse_if (not (same_text s.network other.network)) same_cidr_elsewhere
            ≡ none =
          sym (rw (same, check_cidr) refl) ∙ h in
        inl (e, same_text-eq _ _ (not_refused _ same_cidr_elsewhere checked))
    | no ne ↦
        let other_text : same_text s.range.cidr other.range.cidr ≡ false = ground (arith, ne) in
        let checked : check_apart t parse_cidr fuel (only_cidr s.range.cidr)
              (only_cidr other.range.cidr) cidr_overlapped
            ≡ none =
          sym (rw (other_text, check_cidr) refl) ∙ h in
        inr (ne, check_apart-none _ _ cidr_overlapped checked)
  ]

  check_overlap-false :
      (ipam : Subnet) (other : SubnetObject) (raw' c : Subnet)
      → check_overlap t parse_cidr fuel ipam other ≡ none
      → transfer_subnet t parse_cidr other ≡ some raw'
      → canonicalize raw' ≡ ok c
      → overlap t c ipam ≡ false
  unfolding check_overlap
  check_overlap-false ipam other raw' c h e f =
      let run : check_overlap t parse_cidr fuel ipam other
          ≡ refuse_if (overlap t c ipam) overlapped =
        rw (e, f, check_overlap) refl in
      refuse_if-none _ overlapped (sym run ∙ h)

  check_others-apart :
      (s : SubnetObject) (ipam : Subnet) (l : List SubnetObject)
      → check_others t parse_cidr fuel s ipam l ≡ none
      → (other : SubnetObject) → Listed other l
      → CidrApart s other × (check_overlap t parse_cidr fuel ipam other ≡ none)
  unfolding check_others
  check_others-apart s ipam [] h other there = elim there [ ]
  check_others-apart s ipam (x ∷ xs) h other there =
      let (a, rest) = then_check-none _ _ h in
      let (b, c) = then_check-none _ _ rest in
      elim there [
        | inr later ↦ check_others-apart s ipam xs c other later
        | inl here ↦
            subst (λ o. CidrApart s o × (check_overlap t parse_cidr fuel ipam o ≡ none)) (sym here)
              (check_cidr-CidrApart s x a, b)
      ]

  -- A subnet that is created.
  pub record Created (r : Reads) (s : SubnetObject) : Type 0 where
    pub parent :
        (n : NetworkObject) × (r.network s.network ≡ found n)
        × (create_in (get_network_mode n) n s ≡ none)
    pub accepted : Accepted t parse_cidr s.range
    pub size :
        (total : ℕ) × (excluded : ℕ) × (calculate_capacity parse_cidr t s.range
          ≡ some (total, excluded))
        × (total ≤ max_subnet_capacity + excluded)
    pub others :
        (l : List SubnetObject) × (r.subnets ≡ some l)
        × ((other : SubnetObject) → Listed other l → CidrApart s other × RangeApart s other)

  check_canonical-others :
      (r : Reads) (s : SubnetObject)
      → check_canonical t parse_cidr fuel r s ≡ none
      → (l : List SubnetObject) × (r.subnets ≡ some l)
        × ((other : SubnetObject) → Listed other l → CidrApart s other × RangeApart s other)
  unfolding check_canonical
  check_canonical-others r s h = elim (Option-cases (transfer_subnet t parse_cidr s)) [
    | inl e ↦ absurd (ground (arith, e, h))
    | inr (raw, e) ↦ elim (Result-cases (canonicalize raw)) [
      | inr (x, f) ↦ absurd (ground (arith, e, f, h))
      | inl (ipam, f) ↦ elim (Option-cases r.subnets) [
        | inl g ↦ absurd (ground (arith, e, f, g, h))
        | inr (l, g) ↦
            let run : check_canonical t parse_cidr fuel r s
                ≡ check_others t parse_cidr fuel s ipam l =
              rw (e, f, g, check_canonical) refl in
            (
              l,
              g,
              λ other there.
                  let (apart, checked) = check_others-apart s ipam l (sym run ∙ h) other there in
                  (
                    apart,
                    λ raw1 raw' ipam1 c e1 f1 e2 f2.
                        let same_raw : some raw ≡ some raw1 = sym e ∙ e1 in
                        let raws : raw ≡ raw1 = cc in
                        let same_ipam : Result.ok ipam ≡ ok ipam1 =
                          sym f ∙ ap canonicalize raws ∙ f1 in
                        let ipams : ipam ≡ ipam1 = cc in
                        ap (overlap t c) (sym ipams)
                        ∙ check_overlap-false ipam other raw' c checked e2 f2,
                  ),
            )
      ]
    ]
  ]

  check_range-Accepted :
      (range : AddressRange)
      → check_range t parse_cidr fuel range ≡ none
      → Accepted t parse_cidr range
  unfolding check_range
  check_range-Accepted range h = elim (Option-cases (validate_address_range t parse_cidr range)) [
    | inl e ↦ validate_address_range-Accepted t parse_cidr range e
    | inr (x, e) ↦ absurd (ground (arith, e, h))
  ]

  le_of_ltb : (a b : ℕ) → ltb a b ≡ false → b ≤ a
  le_of_ltb a b h = ground (arith, h)

  check_capacity-le :
      (range : AddressRange)
      → check_capacity t parse_cidr fuel range ≡ none
      → (total : ℕ) × (excluded : ℕ) × (calculate_capacity parse_cidr t range
          ≡ some (total, excluded))
        × (total ≤ max_subnet_capacity + excluded)
  unfolding check_capacity
  check_capacity-le range h = elim (Option-cases (calculate_capacity parse_cidr t range)) [
    | inl e ↦ absurd (ground (arith, e, h))
    | inr ((total, excluded), e) ↦
        let run : check_capacity t parse_cidr fuel range
            ≡ refuse_if (ltb (max_subnet_capacity + excluded) total) too_large =
          rw (e, check_capacity) refl in
        (total, excluded, e, le_of_ltb _ _ (refuse_if-none _ too_large (sym run ∙ h)))
  ]

  -- A subnet that SubnetCreateValidation allows has a parent network that was read, and keeps the
  -- rules of its mode; its range is one that ValidateAddressRange accepts, with at most 65536
  -- addresses besides the excluded ones; and for each subnet that was read, the CIDRs are the
  -- same and so are the networks, or they differ and Intersect finds no common address, and the
  -- ranges do not overlap where both subnets can be made canonical.
  pub subnet_create-Created :
      (r : Reads) (s : SubnetObject) → subnet_create t parse_cidr fuel r s ≡ none → Created r s
  unfolding subnet_create create_under create_with
  subnet_create-Created r s h =
      let (_, parented) =
        then_check-none (refuse_if (is_empty s.network) no_parent)
          (create_with t parse_cidr fuel r s (r.network s.network)) h in
      elim (Read-cases (r.network s.network)) [
        | inr (inl e) ↦
            absurd
              (ground (arith, subst (λ o. create_with t parse_cidr fuel r s o ≡ none) e parented))
        | inr (inr e) ↦
            absurd
              (ground (arith, subst (λ o. create_with t parse_cidr fuel r s o ≡ none) e parented))
        | inl (n, e) ↦
            let run : create_with t parse_cidr fuel r s (found n) ≡ none =
              subst (λ o. create_with t parse_cidr fuel r s o ≡ none) e parented in
            let (a, h1) = then_check-none _ _ run in
            let (b, h2) = then_check-none _ _ h1 in
            let (c, h3) = then_check-none _ _ h2 in
            let (d, _) = then_check-none _ _ h3 in
            record {
              parent = (n, e, a);
              accepted = check_range-Accepted s.range b;
              size = check_capacity-le s.range c;
              others = check_canonical-others r s d;
            }
      ]

  -- What an update keeps of a subnet.
  abbrev pub Kept : SubnetObject → SubnetObject → Type 0
  Kept old new =
      (new.network ≡ old.network)
      × (new.range.start ≡ old.range.start)
      × (new.range.end ≡ old.range.end)
      × (new.range.gateway ≡ old.range.gateway)
      × (new.range.cidr ≡ old.range.cidr)

  pub subnet_update-Kept :
      (r : Reads) (old new : SubnetObject)
      → subnet_update t parse_cidr fuel r old new ≡ none
      → Kept old new × Accepted t parse_cidr new.range
  unfolding subnet_update same_range
  subnet_update-Kept r old new h =
      let (parent, h1) = then_check-none _ _ h in
      let (_, h2) = then_check-none _ _ h1 in
      let (range, h3) = then_check-none _ _ h2 in
      let (start, h4) = then_check-none _ _ h3 in
      let (end, h5) = then_check-none _ _ h4 in
      let (gateway, h6) = then_check-none _ _ h5 in
      let (cidr, _) = then_check-none _ _ h6 in
      (
        (
          sym (same_text-eq _ _ (not_refused _ parent_changed parent)),
          sym (same_text-eq _ _ (not_refused _ start_changed start)),
          sym (same_text-eq _ _ (not_refused _ end_changed end)),
          sym (same_text-eq _ _ (not_refused _ gateway_changed gateway)),
          sym (same_text-eq _ _ (not_refused _ cidr_changed cidr)),
        ),
        check_range-Accepted new.range range,
      )
