-- ===== src/Net/Binary.antt =====
-- One way to write addresses as texts that meets the laws of `IsIpText`: the family's digit, then the
-- binary digits of the number, the low one first. The tests run on it.
use Prim.Native.Char.{Char, code}
use native.Mathlib.Nat.{pow-suc}
use container_advanced_netwo.Common.{
  ℕ, zero, suc, ◌+◌, ◌*◌, ◌/◌, ◌%◌, ◌^◌, ◌<◌, ◌≡◌, refl, sym, ◌==◌, if◌then◌else◌, String, arith,
  ap, ◌∙◌, subst, ◌⊎◌, inl, inr, Bool-cases,
}
use container_advanced_netwo.Net.Cidr.Bounds.{normalize_again}
use container_advanced_netwo.Net.{NetIp, nil_ip, ip4, ip16, IsIp, normalize_ip, IpText, IsIpText}

digit : ℕ → Char
digit n = if n == 0 then "0" else "1"

digits : ℕ → ℕ → String
digits zero n = ""
digits (suc fuel) n = String.◌∷◌ (digit (n % 2)) (digits fuel (n / 2))

bit : Char → ℕ
bit c = if code c == b'1' then 1 else 0

bit-digit : (m : ℕ) → m < 2 → bit (digit m) ≡ m
unfolding bit digit
bit-digit zero h = refl
bit-digit (suc zero) h = refl
bit-digit (suc (suc m)) h = absurd (omega arith)

value : String → ℕ
unfolding bit
value String.[] = 0
value (String.◌∷◌ c s) = bit c + 2 * value s

value-digits : (fuel n : ℕ) → n < 2 ^ fuel → value (digits fuel n) ≡ n
unfolding digits value
value-digits zero n h = ground arith
value-digits (suc fuel) n h = omega (
  arith,
  bit-digit (n % 2) (omega arith),
  value-digits fuel (n / 2) (omega (arith, pow-suc 2 fuel)),
)

write : NetIp → String
unfolding digits digit
write nil_ip = ""
write (ip4 n) = String.◌∷◌ "4" (digits 32 n)
write (ip16 n) = String.◌∷◌ "6" (digits 128 n)

read : String → NetIp
unfolding value
read String.[] = nil_ip
read (String.◌∷◌ c s) = if code c == b'4' then ip4 (value s) else ip16 (value s)

unfoldable pub binary : IpText
unfolding write read normalize_ip
binary = record { parse_ip = read; print_ip = λ a. write (normalize_ip a) }

read-write : (a : NetIp) → IsIp a → read (write a) ≡ a
unfolding read write
read-write nil_ip h = refl
read-write (ip4 n) h = rw (value-digits 32 n h)
read-write (ip16 n) h = rw (value-digits 128 n h)

normal_cases :
    (n : ℕ) → (normalize_ip (ip16 n) ≡ ip4 (n % 2 ^ 32)) ⊎ (normalize_ip (ip16 n) ≡ ip16 n)
unfolding normalize_ip
normal_cases n = elim (Bool-cases (n / 2 ^ 32 == 0xffff)) [
  | inl e ↦ inl (ground arith)
  | inr e ↦ inr (ground arith)
]

normal-IsIp : (a : NetIp) → IsIp a → IsIp (normalize_ip a)
unfolding normalize_ip
normal-IsIp nil_ip h = tt
normal-IsIp (ip4 n) h = h
normal-IsIp (ip16 n) h = elim (normal_cases n) [
  | inl e ↦ subst IsIp (sym e) (omega arith)
  | inr e ↦ subst IsIp (sym e) h
]

pub binary-IsIpText : IsIpText binary
unfolding binary
binary-IsIpText = record {
  print_normal = λ a. ap write (normalize_again a);
  parse-print =
      λ a h. ap normalize_ip (read-write (normalize_ip a) (normal-IsIp a h)) ∙ normalize_again a;
}
