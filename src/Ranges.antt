-- ===== src/Ranges.antt =====
-- pkg/daemon/utils/ip_range.go: the ranges of a subnet that are not included, cut into blocks. LastIP
-- there asks the package ipaddr for the last address of a block, a parameter.
pub mod Added
mod Tests
use container_advanced_netwo.Common.{
  ℕ, zero, suc, ◌-◌, ◌++◌, Bool, true, false, not, ◌||◌, ◌&&◌, leb, if◌then◌else◌, Option, none,
  some, List, [], ◌∷◌,
}
use container_advanced_netwo.Net.{
  NetIp, is_nil, IpNet, Mask, nil_mask, cidr_mask, apply_mask, to4, equal, in_net,
}
use container_advanced_netwo.Net.Cidr.{next_ip, prev_ip, cmp, is_neg, is_pos, is_le, is_ge}

-- `panics` is a Go panic; `unbounded` is a loop whose fuel is used up.
pub data RangeError : Type 0 where
  nil_bounds out_of_cidr overlapped panics unbounded : RangeError

pub data Result {ℓ} (A : Type ℓ) : Type ℓ where
  ok : A → Result A
  err : RangeError → Result A

infixl 5 ◌>>=◌
abbrev pub ◌>>=◌ {ℓ κ} : {A : Type ℓ} {B : Type κ} → Result A → (A → Result B) → Result B
ok a >>= f = f a
err e >>= f = err e

abbrev step : Option NetIp → Result NetIp
step none = err panics
step (some a) = ok a

-- IPRange.
pub record IpRange : Type 0 where
  pub start : NetIp
  pub end : NetIp

-- CreateIPRange; `none` is a nil pointer.
unfoldable pub create_ip_range : NetIp → NetIp → Result (Option IpRange)
create_ip_range start end =
    if is_nil start || is_nil end
    then err nil_bounds
    else if is_pos (cmp start end)
    then ok none
    else ok (some (record { start = start; end = end }))

-- TryAddIP, with the range from after.
unfoldable pub try_add_ip : NetIp → IpRange → Result (Bool × IpRange)
try_add_ip ip_addr r = do
  before ← step (prev_ip r.start)
  if equal ip_addr before then ok (true, record r { start = ip_addr }) else (do
    after ← step (next_ip r.end)
    if equal ip_addr after
        then ok (true, record r { end = ip_addr })
        else ok (is_ge (cmp ip_addr r.start) && is_le (cmp ip_addr r.end), r))

-- sort.Slice by the start of the range.
insert_range : IpRange → List IpRange → List IpRange
insert_range r [] = r ∷ []
insert_range r (s ∷ rest) =
    let later = insert_range r rest in
    if is_neg (cmp s.start r.start) then s ∷ later else r ∷ s ∷ rest

unfoldable pub sort_ranges : List IpRange → List IpRange
unfolding insert_range
sort_ranges [] = []
sort_ranges (r ∷ rest) = insert_range r (sort_ranges rest)

abbrev prepend : Option IpRange → List IpRange → List IpRange
prepend none rs = rs
prepend (some r) rs = r ∷ rs

-- The range up to the first included one.
abbrev first_gap : NetIp → IpRange → Result (Option IpRange)
first_gap cidr_start r = do before ← step (prev_ip r.start); create_ip_range cidr_start before

-- The end of the gap after a range: before the next one, or the end of the block.
abbrev gap_end : NetIp → List IpRange → Result NetIp
gap_end cidr_end [] = ok cidr_end
gap_end cidr_end (next ∷ _) = step (prev_ip next.start)

abbrev meets_next : IpRange → List IpRange → Bool
meets_next r [] = false
meets_next r (next ∷ _) = is_ge (cmp r.end next.start)

-- The loop of FindSubnetExcludeIPBlocks over the included ranges; `first` is the test that the
-- index is 0.
unfoldable pub gaps : NetIp → NetIp → Bool → List IpRange → Result (List IpRange)
gaps cidr_start cidr_end first [] = ok []
gaps cidr_start cidr_end first (r ∷ rest) =
    let later = gaps cidr_start cidr_end false rest in
    if is_neg (cmp r.start cidr_start) || is_pos (cmp r.end cidr_end)
    then err out_of_cidr
    else if meets_next r rest
    then err overlapped
    else (do
      head ← if first then first_gap cidr_start r else ok none
      stop ← gap_end cidr_end rest
      start ← step (next_ip r.end)
      gap ← create_ip_range start stop
      others ← later
      ok (prepend head (prepend gap others)))

-- The inner loop over the ranges: the first one that takes the address, `none` if no one does.
unfoldable pub try_ranges : NetIp → List IpRange → Result (Option (List IpRange))
try_ranges ip_addr [] = ok none
try_ranges ip_addr (r ∷ rest) =
    let later = try_ranges ip_addr rest in
    do
      tried ← try_add_ip ip_addr r
      if tried.0
          then ok (some (tried.1 ∷ rest))
          else (do more ← later; ok (elim more [ none ↦ none | some rs ↦ some (tried.1 ∷ rs) ]))

-- The labelled loop over the excluded addresses.
unfoldable pub exclude_ips : List NetIp → List IpRange → Result (List IpRange)
exclude_ips [] ranges = ok ranges
exclude_ips (ip_addr ∷ rest) ranges = do
  tried ← try_ranges ip_addr ranges
  ranges' ← elim tried [
    | some rs ↦ ok rs
    | none ↦ (do
      single ← create_ip_range ip_addr ip_addr
      elim single [ none ↦ err panics | some r ↦ ok (ranges ++ r ∷ []) ])
  ]
  exclude_ips rest ranges'

abbrev mask_bits : NetIp → ℕ
mask_bits ip = if is_nil (to4 ip) then 128 else 32

-- net.CIDRMask.
abbrev make_mask : ℕ → ℕ → Mask
make_mask ones bits = if leb ones bits then cidr_mask ones bits else nil_mask

-- The loop of calculateIPLastZeroBits.
unfoldable pub zero_bits_loop : ℕ → NetIp → ℕ → Result ℕ
zero_bits_loop zero ip zero_bits = err unbounded
zero_bits_loop (suc fuel) ip zero_bits =
    let rest = zero_bits_loop fuel ip (suc zero_bits) in
    if equal (apply_mask ip (make_mask zero_bits (mask_bits ip))) ip then ok zero_bits else rest

-- calculateIPLastZeroBits: as many rounds as the masks have lengths.
unfoldable pub last_zero_bits : NetIp → Result ℕ
last_zero_bits ip = do
  zero_bits ← zero_bits_loop (suc (mask_bits ip)) ip 0
  ok (mask_bits ip - zero_bits)

module _ (last_ip : IpNet → NetIp) where
  -- The loop of findTheFirstLargestCidr; the second result is `none` for nil.
  unfoldable pub largest_loop : ℕ → NetIp → NetIp → ℕ → Result (IpNet × Option NetIp)
  largest_loop zero start end len = err unbounded
  largest_loop (suc fuel) start end len =
      let block : IpNet = record { ip = start; mask = make_mask len (mask_bits start) } in
      let longer = largest_loop fuel start end (suc len) in
      if equal (last_ip block) end
      then ok (block, none)
      else if in_net block end
      then longer
      else (do next ← step (next_ip (last_ip block)); ok (block, some next))

  -- findTheFirstLargestCidr.
  unfoldable pub first_largest_cidr : NetIp → NetIp → Result (IpNet × Option NetIp)
  first_largest_cidr start end = do
    zero_bits ← last_zero_bits start
    largest_loop (suc (mask_bits start)) start end (mask_bits start - zero_bits)

  -- splitIPRangeToIPBlocks, on fuel; a next start that is the nil slice ends the loop as nil does.
  unfoldable pub split_loop : ℕ → NetIp → NetIp → Result (List IpNet)
  split_loop zero next end = err unbounded
  split_loop (suc fuel) next end = if is_nil next then ok [] else (do
    found ← first_largest_cidr next end
    rest ← elim found.1 [ none ↦ ok [] | some after ↦ split_loop fuel after end ]
    ok (found.0 ∷ rest))

  unfoldable pub split_ip_range : ℕ → IpRange → Result (List IpNet)
  split_ip_range fuel r = split_loop fuel r.start r.end

  unfoldable pub split_all : ℕ → List IpRange → Result (List IpNet)
  split_all fuel [] = ok []
  split_all fuel (r ∷ rest) = do
    blocks ← split_ip_range fuel r
    others ← split_all fuel rest
    ok (blocks ++ others)

  abbrev with_gateway : List NetIp → NetIp → List NetIp
  with_gateway ips gateway = if is_nil gateway then ips else ips ++ gateway ∷ []

  -- FindSubnetExcludeIPBlocks; `fuel` bounds the blocks of one range.
  unfoldable pub find_subnet_exclude_ip_blocks :
      ℕ → IpNet → List IpRange → NetIp → List NetIp → Result (List IpNet)
  find_subnet_exclude_ip_blocks fuel cidr included gateway exclude = do
    ranges ← gaps cidr.ip (last_ip cidr) true (sort_ranges included)
    excluded ← exclude_ips (with_gateway exclude gateway) ranges
    split_all fuel excluded
