-- ===== src/Ranges/Tests.antt =====
-- The theorems on ranges at concrete inputs.
use container_advanced_netwo.Common.{
  ℕ, ◌+◌, ◌≤◌, ◌<◌, ◌≡◌, ◌↔◌, ◌⊎◌, true, false, arith, List, [], ◌∷◌,
}
use container_advanced_netwo.Net.{ip4}
use container_advanced_netwo.Ranges.{ok, try_add_ip, exclude_ips}
use container_advanced_netwo.Ranges.Added.{
  Span, range4, ranges4, ips4, Inner, Covered, OneOf, try_add_ip_lem, exclude_ips_lem,
}

try_add_ip_lem_example :
    ((s' : ℕ) × (e' : ℕ) × (try_add_ip (ip4 9) (range4 4 8) ≡ ok (true, range4 s' e'))
      × ((x : ℕ) → ((s' ≤ x) × (x ≤ e')) ↔ (((4 ≤ x) × (x ≤ 8)) ⊎ (x ≡ 9))))
    ⊎ ((try_add_ip (ip4 9) (range4 4 8) ≡ ok (false, range4 4 8)) × ((9 + 1 < 4) ⊎ (8 + 1 < 9)))
try_add_ip_lem_example =
    try_add_ip_lem 4 8 9 (omega arith) (omega arith) (omega arith) (omega arith)

exclude_ips_lem_example :
    (rs' : List Span) × (exclude_ips (ips4 (9 ∷ 20 ∷ [])) (ranges4 ((4, 8) ∷ []))
      ≡ ok (ranges4 rs'))
    × Inner rs'
    × ((x : ℕ) → Covered x rs' ↔ (Covered x ((4, 8) ∷ []) ⊎ OneOf x (9 ∷ 20 ∷ [])))
exclude_ips_lem_example =
    exclude_ips_lem (9 ∷ 20 ∷ []) ((4, 8) ∷ [])
      (omega arith, omega arith, (omega arith, omega arith, tt))
      (omega arith, omega arith, omega arith, tt)
