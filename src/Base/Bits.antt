-- ===== src/Base/Bits.antt =====
-- Laws of `bit_or` and `bit_and` at variables, from the digit recursion that they stand for.
use Prim.Native.Nat.{
  ℕ, zero, suc, ◌+◌, ◌-◌, ◌*◌, ◌/◌, ◌%◌, ◌^◌, ◌≤◌, ◌<◌, min, max, bit_and, bit_or, digits,
  bit_and-bitwise, bit_or-bitwise,
}
use mathlib.Core.Path.{◌≡◌, refl, ◌∙◌, ap}
use native.Mathlib.Nat.{pow-suc}
use native.Mathlib.Omega.{arith}

-- A round of the recursion that finds no digit changes nothing.
module _ (stop : ℕ → ℕ) (join : ℕ → ℕ → ℕ) where
  round_to_spare :
      (rounds a b : ℕ)
      → a ≤ rounds
      → digits stop join (suc rounds) a b ≡ digits stop join rounds a b
  round_to_spare zero zero b h = refl
  round_to_spare zero (suc a) b h = absurd (omega arith)
  round_to_spare (suc rounds) zero b h = refl
  round_to_spare (suc rounds) (suc a) b h =
      ap (λ (high : ℕ). high * 2 + join (suc a % 2) (b % 2))
        (round_to_spare rounds (suc a / 2) (b / 2) (omega arith))

  rounds_to_spare :
      (spare rounds all a b : ℕ)
      → all ≡ spare + rounds
      → a ≤ rounds
      → digits stop join all a b ≡ digits stop join rounds a b
  rounds_to_spare zero rounds all a b e h = ap (λ (n : ℕ). digits stop join n a b) (omega arith)
  rounds_to_spare (suc spare) rounds all a b e h =
      let longer : all ≡ suc (spare + rounds) = omega arith in
      ap (λ (n : ℕ). digits stop join n a b) longer
      ∙ round_to_spare (spare + rounds) a b (omega arith)
      ∙ rounds_to_spare spare rounds (spare + rounds) a b refl h

  lowest_digit :
      (a b : ℕ)
      → digits stop join (suc a) (suc a) b
        ≡ digits stop join (suc a / 2) (suc a / 2) (b / 2) * 2 + join (suc a % 2) (b % 2)
  lowest_digit a b =
      ap (λ (high : ℕ). high * 2 + join (suc a % 2) (b % 2))
        (rounds_to_spare (a - suc a / 2) (suc a / 2) a (suc a / 2) (b / 2) (omega arith)
          (omega arith))

pub zero-bit_or : (b : ℕ) → bit_or 0 b ≡ b
zero-bit_or b = bit_or-bitwise 0 b

zero-bit_and : (y : ℕ) → bit_and zero y ≡ zero
zero-bit_and = bit_and-bitwise zero

pub bit_and_step : (x y : ℕ) → bit_and x y ≡ min (x % 2) (y % 2) + 2 * bit_and (x / 2) (y / 2)
bit_and_step zero y = omega (arith, zero-bit_and (y / 2), zero-bit_and y)
bit_and_step (suc x) y = omega (
  arith,
  lowest_digit (λ t. 0) min x y,
  bit_and-bitwise (suc x / 2) (y / 2),
  bit_and-bitwise (suc x) y,
)

pub bit_or_step : (x y : ℕ) → bit_or x y ≡ max (x % 2) (y % 2) + 2 * bit_or (x / 2) (y / 2)
bit_or_step zero y = omega (arith, zero-bit_or (y / 2), zero-bit_or y)
bit_or_step (suc x) y = omega (
  arith,
  lowest_digit (λ t. t) max x y,
  bit_or-bitwise (suc x / 2) (y / 2),
  bit_or-bitwise (suc x) y,
)

bit_and_nothing : (bound a : ℕ) → a ≤ bound → bit_and a 0 ≡ 0
bit_and_nothing bound zero h = zero-bit_and 0
bit_and_nothing zero (suc a) h = absurd (omega arith)
bit_and_nothing (suc bound) (suc a) h =
    let half = bit_and_nothing bound (suc a / 2) (omega arith) in
    omega (arith, half, bit_and_step (suc a) 0)

pub bit_and-zero : (a : ℕ) → bit_and a 0 ≡ 0
bit_and-zero a = bit_and_nothing a a (omega arith)

-- The mask of the low seven bits, and the eighth bit.
and_low1 : (a : ℕ) → bit_and a 1 ≡ a % 2
and_low1 a = omega (arith, bit_and_step a 1, bit_and-zero (a / 2))

and_low2 : (a : ℕ) → bit_and a 3 ≡ a % 4
and_low2 a = omega (arith, bit_and_step a 3, and_low1 (a / 2))

and_low3 : (a : ℕ) → bit_and a 7 ≡ a % 8
and_low3 a = omega (arith, bit_and_step a 7, and_low2 (a / 2))

and_low4 : (a : ℕ) → bit_and a 15 ≡ a % 16
and_low4 a = omega (arith, bit_and_step a 15, and_low3 (a / 2))

and_low5 : (a : ℕ) → bit_and a 31 ≡ a % 32
and_low5 a = omega (arith, bit_and_step a 31, and_low4 (a / 2))

and_low6 : (a : ℕ) → bit_and a 63 ≡ a % 64
and_low6 a = omega (arith, bit_and_step a 63, and_low5 (a / 2))

pub bit_and_low7 : (a : ℕ) → bit_and a 127 ≡ a % 128
bit_and_low7 a = omega (arith, bit_and_step a 127, and_low6 (a / 2))

bit_and_even : (a b : ℕ) → bit_and a (b * 2) ≡ bit_and (a / 2) b * 2
bit_and_even a b =
    let half : b * 2 / 2 ≡ b = omega arith in
    omega (arith, bit_and_step a (b * 2), ap (λ (t : ℕ). bit_and (a / 2) t) half)

bit_or_even : (a b : ℕ) → bit_or a (b * 2) ≡ bit_or (a / 2) b * 2 + a % 2
bit_or_even a b =
    let half : b * 2 / 2 ≡ b = omega arith in
    omega (arith, bit_or_step a (b * 2), ap (λ (t : ℕ). bit_or (a / 2) t) half)

and_bit1 : (a : ℕ) → bit_and a 2 ≡ a / 2 % 2 * 2
and_bit1 a = omega (arith, bit_and_even a 1, and_low1 (a / 2))

and_bit2 : (a : ℕ) → bit_and a 4 ≡ a / 4 % 2 * 4
and_bit2 a = omega (arith, bit_and_even a 2, and_bit1 (a / 2))

and_bit3 : (a : ℕ) → bit_and a 8 ≡ a / 8 % 2 * 8
and_bit3 a = omega (arith, bit_and_even a 4, and_bit2 (a / 2))

and_bit4 : (a : ℕ) → bit_and a 16 ≡ a / 16 % 2 * 16
and_bit4 a = omega (arith, bit_and_even a 8, and_bit3 (a / 2))

and_bit5 : (a : ℕ) → bit_and a 32 ≡ a / 32 % 2 * 32
and_bit5 a = omega (arith, bit_and_even a 16, and_bit4 (a / 2))

and_bit6 : (a : ℕ) → bit_and a 64 ≡ a / 64 % 2 * 64
and_bit6 a = omega (arith, bit_and_even a 32, and_bit5 (a / 2))

pub bit_and_top : (a : ℕ) → bit_and a 128 ≡ a / 128 % 2 * 128
bit_and_top a = omega (arith, bit_and_even a 64, and_bit6 (a / 2))

-- The low byte of `a | 128`.
or_bit0 : (a : ℕ) → bit_or a 1 % 2 ≡ 1
or_bit0 a = omega (arith, bit_or_step a 1)

or_bit1 : (a : ℕ) → bit_or a 2 % 4 ≡ a % 2 + 2
or_bit1 a = omega (arith, bit_or_even a 1, or_bit0 (a / 2))

or_bit2 : (a : ℕ) → bit_or a 4 % 8 ≡ a % 4 + 4
or_bit2 a = omega (arith, bit_or_even a 2, or_bit1 (a / 2))

or_bit3 : (a : ℕ) → bit_or a 8 % 16 ≡ a % 8 + 8
or_bit3 a = omega (arith, bit_or_even a 4, or_bit2 (a / 2))

or_bit4 : (a : ℕ) → bit_or a 16 % 32 ≡ a % 16 + 16
or_bit4 a = omega (arith, bit_or_even a 8, or_bit3 (a / 2))

or_bit5 : (a : ℕ) → bit_or a 32 % 64 ≡ a % 32 + 32
or_bit5 a = omega (arith, bit_or_even a 16, or_bit4 (a / 2))

or_bit6 : (a : ℕ) → bit_or a 64 % 128 ≡ a % 64 + 64
or_bit6 a = omega (arith, bit_or_even a 32, or_bit5 (a / 2))

pub bit_or_top : (a : ℕ) → bit_or a 128 % 256 ≡ a % 128 + 128
bit_or_top a = omega (arith, bit_or_even a 64, or_bit6 (a / 2))

-- Bits that do not overlap add up.
pub bit_or_disjoint : (s a b : ℕ) → a < 2 ^ s → bit_or a (b * 2 ^ s) ≡ a + b * 2 ^ s
bit_or_disjoint zero zero b h = zero-bit_or (b * 1) ∙ omega arith
bit_or_disjoint zero (suc a) b h = absurd (omega arith)
bit_or_disjoint (suc s) a b h =
    let half : b * 2 ^ suc s ≡ b * 2 ^ s * 2 = omega (arith, ap (λ (t : ℕ). b * t) (pow-suc 2 s)) in
    let even : b * 2 ^ suc s / 2 ≡ b * 2 ^ s = omega arith in
    let under : a / 2 < 2 ^ s = omega (arith, pow-suc 2 s) in
    let ih : bit_or (a / 2) (b * 2 ^ suc s / 2) ≡ a / 2 + b * 2 ^ s =
      ap (λ (t : ℕ). bit_or (a / 2) t) even ∙ bit_or_disjoint s (a / 2) b under in
    omega (arith, bit_or_step a (b * 2 ^ suc s), ih)

-- A disjunction stays within the width of its parts.
pub bit_or_bound : (s a b : ℕ) → a < 2 ^ s → b < 2 ^ s → bit_or a b < 2 ^ s
bit_or_bound zero zero zero ha hb = omega (arith, zero-bit_or 0)
bit_or_bound zero zero (suc b) ha hb = absurd (omega arith)
bit_or_bound zero (suc a) b ha hb = absurd (omega arith)
bit_or_bound (suc s) a b ha hb =
    let pa : a / 2 < 2 ^ s = omega (arith, pow-suc 2 s) in
    let pb : b / 2 < 2 ^ s = omega (arith, pow-suc 2 s) in
    omega (arith, pow-suc 2 s, bit_or_step a b, bit_or_bound s (a / 2) (b / 2) pa pb)

bit_or-zero_fuel : (n a : ℕ) → a ≤ n → bit_or a 0 ≡ a
bit_or-zero_fuel n zero h = refl
bit_or-zero_fuel zero (suc a) h = absurd (omega arith)
bit_or-zero_fuel (suc n) (suc a) h =
    omega (arith, bit_or_step (suc a) 0, bit_or-zero_fuel n (suc a / 2) (omega arith))

-- The same with the high bits on the left.
pub bit_or_disjoint_left : (s a b : ℕ) → a < 2 ^ s → bit_or (b * 2 ^ s) a ≡ b * 2 ^ s + a
bit_or_disjoint_left zero zero b h = bit_or-zero_fuel (b * 1) (b * 1) (omega arith) ∙ omega arith
bit_or_disjoint_left zero (suc a) b h = absurd (omega arith)
bit_or_disjoint_left (suc s) a b h =
    let half : b * 2 ^ suc s ≡ b * 2 ^ s * 2 = omega (arith, ap (λ (t : ℕ). b * t) (pow-suc 2 s)) in
    let even : b * 2 ^ suc s / 2 ≡ b * 2 ^ s = omega arith in
    let under : a / 2 < 2 ^ s = omega (arith, pow-suc 2 s) in
    let ih : bit_or (b * 2 ^ suc s / 2) (a / 2) ≡ b * 2 ^ s + a / 2 =
      ap (λ (t : ℕ). bit_or t (a / 2)) even ∙ bit_or_disjoint_left s (a / 2) b under in
    omega (arith, bit_or_step (b * 2 ^ suc s) a, ih)
