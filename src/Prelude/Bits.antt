-- ===== src/Prelude/Bits.antt =====
-- The masks that the program applies to a byte, as arithmetic, and `|` of disjoint bits as `+`.
use Prim.Native.Nat.{
  ℕ, zero, suc, ◌+◌, ◌*◌, ◌/◌, ◌%◌, ◌^◌, ◌≤◌, ◌<◌, max, bit_and, bit_or, digits, bit_or-bitwise,
}
use mathlib.Core.Path.{◌≡◌, refl, ap}
use mathlib.Core.Bool.{Bool, true, false}
use native.Mathlib.Omega.{arith}
use native.Mathlib.Nat.{pow-suc}
use dns_over_minecraft.Prelude.Tests.{◌==◌, if◌then◌else◌}

-- Two functions that agree below a bound, by evaluation.
module _ (f g : ℕ → ℕ) where
  same_below : ℕ → Bool
  same_below zero = true
  same_below (suc n) = if f n == g n then same_below n else false

  same_below-eq : (n : ℕ) → same_below n ≡ true → (i : ℕ) → i < n → f i ≡ g i
  unfolding same_below
  same_below-eq zero e i h = absurd (omega arith)
  same_below-eq (suc n) e i h = ground (arith, same_below-eq n (ground arith) i)

pub bit_and_0x7f : (b : ℕ) → b < 256 → bit_and b 0x7f ≡ b % 128
unfolding same_below
bit_and_0x7f = same_below-eq (λ b. bit_and b 0x7f) (λ b. b % 128) 256 refl

pub bit_and_0x80 : (b : ℕ) → b < 256 → bit_and b 0x80 ≡ b / 128 * 128
unfolding same_below
bit_and_0x80 = same_below-eq (λ b. bit_and b 0x80) (λ b. b / 128 * 128) 256 refl

pub bit_or_0x80 : (b : ℕ) → b < 256 → bit_or b 0x80 ≡ b % 128 + 128
unfolding same_below
bit_or_0x80 = same_below-eq (λ b. bit_or b 0x80) (λ b. b % 128 + 128) 256 refl

abbrev or_digits : ℕ → ℕ → ℕ → ℕ
or_digits n a b = digits (λ b. b) max n a b

or_digits_fuel : (n m a b : ℕ) → a ≤ n → a ≤ m → or_digits n a b ≡ or_digits m a b
or_digits_fuel zero zero a b p q = refl
or_digits_fuel zero (suc m) zero b p q = refl
or_digits_fuel zero (suc m) (suc a) b p q = absurd (omega arith)
or_digits_fuel (suc n) zero zero b p q = refl
or_digits_fuel (suc n) zero (suc a) b p q = absurd (omega arith)
or_digits_fuel (suc n) (suc m) zero b p q = refl
or_digits_fuel (suc n) (suc m) (suc a) b p q =
    omega (arith, or_digits_fuel n m (suc a / 2) (b / 2) (omega arith) (omega arith))

pub zero-bit_or : (b : ℕ) → bit_or 0 b ≡ b
zero-bit_or b = bit_or-bitwise 0 b

bit_or_step : (a b : ℕ) → bit_or a b ≡ bit_or (a / 2) (b / 2) * 2 + max (a % 2) (b % 2)
bit_or_step zero b = omega (arith, zero-bit_or b, zero-bit_or (b / 2))
bit_or_step (suc a) b = omega (
  arith,
  bit_or-bitwise (suc a) b,
  bit_or-bitwise (suc a / 2) (b / 2),
  or_digits_fuel a (suc a / 2) (suc a / 2) (b / 2) (omega arith) (omega arith),
)

double_half : (t : ℕ) → (t * 2) / 2 ≡ t
double_half t = omega arith

-- Low bits joined to a number shifted past them.
pub bit_or_shift : (s a x : ℕ) → a < 2 ^ s → bit_or a (x * 2 ^ s) ≡ a + x * 2 ^ s
bit_or_shift zero zero x h = omega (arith, zero-bit_or (x * 2 ^ 0))
bit_or_shift zero (suc a) x h = absurd (omega arith)
bit_or_shift (suc s) a x h =
    let even : x * 2 ^ suc s ≡ (x * 2 ^ s) * 2 = rw pow-suc (omega arith) in
    let small : a / 2 < 2 ^ s = omega (arith, pow-suc 2 s) in
    let half : x * 2 ^ suc s / 2 ≡ x * 2 ^ s = rw even (double_half (x * 2 ^ s)) in
    omega (
      arith,
      even,
      bit_or_step a (x * 2 ^ suc s),
      ap (bit_or (a / 2)) half,
      bit_or_shift s (a / 2) x small,
    )

bit_or-zero_fuel : (n a : ℕ) → a ≤ n → bit_or a 0 ≡ a
bit_or-zero_fuel n zero h = refl
bit_or-zero_fuel zero (suc a) h = absurd (omega arith)
bit_or-zero_fuel (suc n) (suc a) h =
    omega (arith, bit_or_step (suc a) 0, bit_or-zero_fuel n (suc a / 2) (omega arith))

-- High bits joined to a number below them.
pub high_bit_or : (s x a : ℕ) → a < 2 ^ s → bit_or (x * 2 ^ s) a ≡ x * 2 ^ s + a
high_bit_or zero x zero h = omega (arith, bit_or-zero_fuel (x * 2 ^ 0) (x * 2 ^ 0) (omega arith))
high_bit_or zero x (suc a) h = absurd (omega arith)
high_bit_or (suc s) x a h =
    let even : x * 2 ^ suc s ≡ (x * 2 ^ s) * 2 = rw pow-suc (omega arith) in
    let small : a / 2 < 2 ^ s = omega (arith, pow-suc 2 s) in
    let half : x * 2 ^ suc s / 2 ≡ x * 2 ^ s = rw even (double_half (x * 2 ^ s)) in
    omega (
      arith,
      even,
      bit_or_step (x * 2 ^ suc s) a,
      ap (λ (t : ℕ). bit_or t (a / 2)) half,
      high_bit_or s x (a / 2) small,
    )
