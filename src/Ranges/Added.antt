-- ===== src/Ranges/Added.antt =====
-- That the excluded addresses are those of the ranges and the added ones, for IPv4.
use container_advanced_netwo.Common.{
  ℕ, ◌+◌, ◌-◌, dec_lt, leb, ◌==◌, if◌then◌else◌, ◌&&◌, ◌^◌, ◌≤◌, ◌<◌, ◌≡◌, refl, ap, ◌∙◌, ◌↔◌, ◌⊎◌,
  inl, inr, Bool, true, false, arith, List, [], ◌∷◌, ◌++◌, none, some,
}
use Prim.Native.Nat.{min, max}
use container_advanced_netwo.Net.{NetIp, ip4, normalize_ip, equal, is_nil}
use container_advanced_netwo.Net.Cidr.{next_ip, prev_ip, cmp}
use container_advanced_netwo.Ranges.{
  IpRange, Result, ok, try_add_ip, try_ranges, exclude_ips, create_ip_range,
}

-- A range of IPv4 addresses, with room on both sides.
abbrev pub range4 : ℕ → ℕ → IpRange
range4 s e = record { start = ip4 s; end = ip4 e }

prev4 : (s : ℕ) → 0 < s → s < 2 ^ 32 → prev_ip (ip4 s) ≡ some (ip4 (s - 1))
unfolding prev_ip normalize_ip
prev4 s h l = ground arith

next4 : (e : ℕ) → e + 1 < 2 ^ 32 → next_ip (ip4 e) ≡ some (ip4 (e + 1))
unfolding next_ip normalize_ip
next4 e h = ground arith

-- TryAddIP with the arithmetic done.
abbrev tried : ℕ → ℕ → ℕ → Result (Bool × IpRange)
tried s e a =
    if a == s - 1
    then ok (true, range4 a e)
    else if a == e + 1
    then ok (true, range4 s a)
    else ok (leb s a && leb a e, range4 s e)

try_add_ip4 :
    (s e a : ℕ) → 0 < s → s ≤ e → e + 1 < 2 ^ 32 → try_add_ip (ip4 a) (range4 s e) ≡ tried s e a
unfolding try_add_ip normalize_ip equal cmp
try_add_ip4 s e a h1 h2 h3 = rw (prev4 s h1 (omega arith), next4 e h3) (ground arith)

-- TryAddIP on an IPv4 range that leaves out the first and the last address of all takes the
-- address exactly where it is in the range or next to one of its ends, and then the range from
-- after has the addresses from before and this one; otherwise the range is as it was.
pub try_add_ip_lem :
    (s e a : ℕ)
    → 0 < s
    → s ≤ e
    → e + 1 < 2 ^ 32
    → a < 2 ^ 32
    → ((s' : ℕ) × (e' : ℕ) × (try_add_ip (ip4 a) (range4 s e) ≡ ok (true, range4 s' e'))
        × ((x : ℕ) → ((s' ≤ x) × (x ≤ e')) ↔ (((s ≤ x) × (x ≤ e)) ⊎ (x ≡ a))))
      ⊎ ((try_add_ip (ip4 a) (range4 s e) ≡ ok (false, range4 s e)) × ((a + 1 < s) ⊎ (e + 1 < a)))
try_add_ip_lem s e a h1 h2 h3 h4 = rw (try_add_ip4 s e a h1 h2 h3) (elim (dec_lt (a + 1) s) [
  | yes p ↦ inr (ground arith, inl p)
  | no p ↦ elim (dec_lt (e + 1) a) [
    | yes q ↦ inr (ground arith, inr q)
    | no q ↦ inl (min a s, max a e, ground arith, λ x. (λ h. ground arith, λ h. ground arith))
  ]
])

-- A range by its two numbers.
abbrev pub Span : Type 0
Span = ℕ × ℕ

abbrev pub ranges4 : List Span → List IpRange
ranges4 [] = []
ranges4 ((s, e) ∷ rs) = range4 s e ∷ ranges4 rs

abbrev pub ips4 : List ℕ → List NetIp
ips4 [] = []
ips4 (a ∷ rest) = ip4 a ∷ ips4 rest

-- Every range is in order and leaves out the first and the last address of all.
abbrev pub Inner : List Span → Type 0
Inner [] = Unit
Inner ((s, e) ∷ rs) = (0 < s) × (s ≤ e) × (e + 1 < 2 ^ 32) × Inner rs

abbrev pub InnerIps : List ℕ → Type 0
InnerIps [] = Unit
InnerIps (a ∷ rest) = (0 < a) × (a + 1 < 2 ^ 32) × InnerIps rest

-- The address is in one of the ranges.
abbrev pub Covered : ℕ → List Span → Type 0
Covered x [] = ⊥
Covered x ((s, e) ∷ rs) = ((s ≤ x) × (x ≤ e)) ⊎ Covered x rs

abbrev pub OneOf : ℕ → List ℕ → Type 0
OneOf x [] = ⊥
OneOf x (a ∷ rest) = (x ≡ a) ⊎ OneOf x rest

shift_left : {P P' Q R : Type 0} → P' ↔ (P ⊎ R) → (P' ⊎ Q) ↔ ((P ⊎ Q) ⊎ R)
shift_left {P = P} {P' = P'} {Q = Q} {R = R} (f, g) = (to, from)
  where
    to : P' ⊎ Q → (P ⊎ Q) ⊎ R
    to (inl p) = elim (f p) [ inl q ↦ inl (inl q) | inr r ↦ inr r ]
    to (inr q) = inl (inr q)

    from : (P ⊎ Q) ⊎ R → P' ⊎ Q
    from (inl (inl p)) = inl (g (inl p))
    from (inl (inr q)) = inr q
    from (inr r) = inl (g (inr r))

shift_right : {P Q Q' R : Type 0} → Q' ↔ (Q ⊎ R) → (P ⊎ Q') ↔ ((P ⊎ Q) ⊎ R)
shift_right {P = P} {Q = Q} {Q' = Q'} {R = R} (f, g) = (to, from)
  where
    to : P ⊎ Q' → (P ⊎ Q) ⊎ R
    to (inl p) = inl (inl p)
    to (inr q) = elim (f q) [ inl x ↦ inl (inr x) | inr r ↦ inr r ]

    from : (P ⊎ Q) ⊎ R → P ⊎ Q'
    from (inl (inl p)) = inl p
    from (inl (inr q)) = inr (g (inl q))
    from (inr r) = inr (g (inr r))

Inner-widened :
    (s e s' e' a : ℕ) (rs : List Span)
    → 0 < a
    → a + 1 < 2 ^ 32
    → 0 < s
    → s ≤ e
    → e + 1 < 2 ^ 32
    → Inner rs
    → ((x : ℕ) → ((s' ≤ x) × (x ≤ e')) ↔ (((s ≤ x) × (x ≤ e)) ⊎ (x ≡ a)))
    → Inner ((s', e') ∷ rs)
Inner-widened s e s' e' a rs p q h1 h2 h3 rest covers =
    let (l, u) = (covers a).1 (inr refl) in
    let low = (covers s').0 (omega arith, omega arith) in
    let high = (covers e').0 (omega arith, omega arith) in
    (ground (arith, low), omega arith, ground (arith, high), rest)

try_ranges_lem :
    (a : ℕ) (rs : List Span)
    → Inner rs
    → 0 < a
    → a + 1 < 2 ^ 32
    → ((rs' : List Span) × (try_ranges (ip4 a) (ranges4 rs) ≡ ok (some (ranges4 rs')))
        × Inner rs'
        × ((x : ℕ) → Covered x rs' ↔ (Covered x rs ⊎ (x ≡ a))))
      ⊎ (try_ranges (ip4 a) (ranges4 rs) ≡ ok none)
unfolding try_ranges
try_ranges_lem a [] _ p q = inr refl
try_ranges_lem a ((s, e) ∷ rs) (h1, h2, h3, rest) p q =
    elim (try_add_ip_lem s e a h1 h2 h3 (omega arith)) [
      | inl (s', e', run, covers) ↦ inl (
        (s', e') ∷ rs,
        rw run refl,
        Inner-widened s e s' e' a rs p q h1 h2 h3 rest covers,
        λ x. shift_left (covers x),
      )
      | inr (run, _) ↦ elim (try_ranges_lem a rs rest p q) [
        | inl (rs', later, inner, covers) ↦
            inl
              ((s, e) ∷ rs', rw (run, later) refl, (h1, h2, h3, inner), λ x. shift_right (covers x))
        | inr later ↦ inr (rw (run, later) refl)
      ]
    ]

-- An address that no range takes gets a range of its own.
ranges4-single :
    (rs : List Span) (a : ℕ) → ranges4 rs ++ range4 a a ∷ [] ≡ ranges4 (rs ++ (a, a) ∷ [])
ranges4-single [] a = refl
ranges4-single ((s, e) ∷ rs) a = ap (λ l. range4 s e ∷ l) (ranges4-single rs a)

Inner-single :
    (rs : List Span) (a : ℕ) → Inner rs → 0 < a → a + 1 < 2 ^ 32 → Inner (rs ++ (a, a) ∷ [])
Inner-single [] a _ p q = (p, omega arith, q, tt)
Inner-single ((s, e) ∷ rs) a (h1, h2, h3, rest) p q = (h1, h2, h3, Inner-single rs a rest p q)

Covered-single :
    (x : ℕ) (rs : List Span) (a : ℕ) → Covered x (rs ++ (a, a) ∷ []) ↔ (Covered x rs ⊎ (x ≡ a))
Covered-single x [] a = (λ h. ground (arith, h), λ h. ground (arith, h))
Covered-single x ((s, e) ∷ rs) a = shift_right (Covered-single x rs a)

create_single : (a : ℕ) → create_ip_range (ip4 a) (ip4 a) ≡ ok (some (range4 a a))
unfolding create_ip_range cmp normalize_ip is_nil
create_single a = ground arith

exclude_one :
    (a : ℕ) (rest : List NetIp) (rs : List Span)
    → Inner rs
    → 0 < a
    → a + 1 < 2 ^ 32
    → (rs' : List Span) × (exclude_ips (ip4 a ∷ rest) (ranges4 rs) ≡ exclude_ips rest (ranges4 rs'))
      × Inner rs'
      × ((x : ℕ) → Covered x rs' ↔ (Covered x rs ⊎ (x ≡ a)))
unfolding exclude_ips
exclude_one a rest rs inner p q = elim (try_ranges_lem a rs inner p q) [
  | inl (rs', run, inner', covers) ↦ (rs', rw run refl, inner', covers)
  | inr run ↦ (
    rs ++ (a, a) ∷ [],
    rw (run, create_single a, ranges4-single rs a) refl,
    Inner-single rs a inner p q,
    λ x. Covered-single x rs a,
  )
]

none_left : (ranges : List IpRange) → exclude_ips [] ranges ≡ ok ranges
unfolding exclude_ips
none_left ranges = refl

-- Where the ranges and the addresses are IPv4 and leave out the first and the last address of
-- all, the loop of FindSubnetExcludeIPBlocks over the excluded addresses ends without an error,
-- and the ranges from after have exactly the addresses of those from before and the excluded
-- ones.
pub exclude_ips_lem :
    (ips : List ℕ) (rs : List Span)
    → InnerIps ips
    → Inner rs
    → (rs' : List Span) × (exclude_ips (ips4 ips) (ranges4 rs) ≡ ok (ranges4 rs'))
      × Inner rs'
      × ((x : ℕ) → Covered x rs' ↔ (Covered x rs ⊎ OneOf x ips))
exclude_ips_lem [] rs _ inner =
    (rs, none_left (ranges4 rs), inner, λ x. (inl, λ h. elim h [ inl c ↦ c | inr o ↦ absurd o ]))
exclude_ips_lem (a ∷ rest) rs (p, q, others) inner =
    let (rs1, run1, inner1, covers1) = exclude_one a (ips4 rest) rs inner p q in
    let (rs2, run2, inner2, covers2) = exclude_ips_lem rest rs1 others inner1 in
    (rs2, run1 ∙ run2, inner2, λ x. join (covers2 x) (covers1 x))
  where
    join : {P P' Q R S : Type 0} → P ↔ (P' ⊎ S) → P' ↔ (Q ⊎ R) → P ↔ (Q ⊎ (R ⊎ S))
    join (f, g) (f', g') = (
      λ h. elim (f h) [
        | inl p' ↦ elim (f' p') [ inl q ↦ inl q | inr r ↦ inr (inl r) ]
        | inr s ↦ inr (inr s)
      ],
      λ h. elim h [
        | inl q ↦ g (inl (g' (inl q)))
        | inr o ↦ elim o [ inl r ↦ g (inl (g' (inr r))) | inr s ↦ g (inr s) ]
      ],
    )
