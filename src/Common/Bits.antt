-- ===== src/Common/Bits.antt =====
-- Fields of bits as arithmetic: a mask of low ones keeps a remainder, and numbers whose bits do not
-- meet are joined by their sum.
use Prim.Native.Nat.{
  ℕ, zero, suc, ◌+◌, ◌*◌, ◌/◌, ◌%◌, ◌≤◌, ◌<◌, min, max, bit_and, bit_or, digits, bit_and-bitwise,
  bit_or-bitwise,
}
use mathlib.Core.Path.{◌≡◌, refl, ◌∙◌}
use native.Mathlib.Omega.{arith}

-- `n << k` and `1 << k`
abbrev pub shl : (k n : ℕ) → ℕ
shl zero n = n
shl (suc k) n = shl k n * 2

-- `(1 << k) - 1`
abbrev pub ones : ℕ → ℕ
ones zero = 0
ones (suc k) = ones k * 2 + 1

-- the low `k` bits
abbrev pub low : (k n : ℕ) → ℕ
low zero n = 0
low (suc k) n = low k (n / 2) * 2 + n % 2

low_of_zero : (k : ℕ) → low k 0 ≡ 0
low_of_zero zero = refl
low_of_zero (suc k) = omega (arith, low_of_zero k)

half_ones : (k : ℕ) → (ones k * 2 + 1) / 2 ≡ ones k
half_ones k = omega arith

and_ones : (fuel k a : ℕ) → a ≤ fuel → digits (λ b. 0) min fuel a (ones k) ≡ low k a
and_ones zero k zero h = omega (arith, low_of_zero k)
and_ones zero k (suc a) h = absurd (omega arith)
and_ones (suc fuel) k zero h = omega (arith, low_of_zero k)
and_ones (suc fuel) zero (suc a) h =
    let rest : digits (λ b. 0) min fuel (suc a / 2) 0 ≡ 0 =
      and_ones fuel zero (suc a / 2) (omega arith) in
    omega (arith, rest)
and_ones (suc fuel) (suc k) (suc a) h =
    let rest : digits (λ b. 0) min fuel (suc a / 2) (ones k) ≡ low k (suc a / 2) =
      and_ones fuel k (suc a / 2) (omega arith) in
    rw (half_ones k, rest) (omega arith)

pub bit_and-ones : (k a : ℕ) → bit_and a (ones k) ≡ low k a
bit_and-ones k a = bit_and-bitwise a (ones k) ∙ and_ones a k a (omega arith)

or_above :
    (fuel k x y : ℕ) → y ≤ fuel → y < shl k 1 → digits (λ b. b) max fuel y (shl k x) ≡ y + shl k x
or_above zero k x zero h l = omega arith
or_above zero k x (suc y) h l = absurd (omega arith)
or_above (suc fuel) k x zero h l = omega arith
or_above (suc fuel) zero x (suc y) h l = absurd (omega arith)
or_above (suc fuel) (suc k) x (suc y) h l =
    let rest : digits (λ b. b) max fuel (suc y / 2) (shl k x) ≡ suc y / 2 + shl k x =
      or_above fuel k x (suc y / 2) (omega arith) (omega arith) in
    let half : shl k x * 2 / 2 ≡ shl k x = omega arith in rw (half, rest) (omega arith)

or_below :
    (fuel k x y a : ℕ) → a ≤ fuel → a ≡ shl k x → y < shl k 1 → digits (λ b. b) max fuel a y ≡ a + y
or_below zero k x y zero h e l = omega arith
or_below zero k x y (suc a) h e l = absurd (omega arith)
or_below (suc fuel) k x y zero h e l = omega arith
or_below (suc fuel) zero x y (suc a) h e l =
    let none_ : y ≡ 0 = omega arith in
    let rest : digits (λ b. b) max fuel (suc a / 2) 0 ≡ suc a / 2 + 0 =
      or_below fuel zero (suc a / 2) 0 (suc a / 2) (omega arith) refl (omega arith) in
    rw none_ (omega (arith, rest))
or_below (suc fuel) (suc k) x y (suc a) h e l =
    let rest : digits (λ b. b) max fuel (suc a / 2) (y / 2) ≡ suc a / 2 + y / 2 =
      or_below fuel k x (y / 2) (suc a / 2) (omega arith) (omega arith) (omega arith) in
    rw rest (omega arith)

-- Numbers whose bits do not meet.
pub bit_or-shl : (k x a y : ℕ) → a ≡ shl k x → y < shl k 1 → bit_or a y ≡ a + y
bit_or-shl k x a y e l = bit_or-bitwise a y ∙ or_below a k x y a (omega arith) e l

pub bit_or-low : (k x a y : ℕ) → a ≡ shl k x → y < shl k 1 → bit_or y a ≡ y + a
bit_or-low k x a y e l = rw e (bit_or-bitwise y (shl k x) ∙ or_above y k x y (omega arith) l)

-- A mask whose lowest bit is 0.
and_double :
    (m : ℕ) (g : ℕ → ℕ)
    → ((fuel a : ℕ) → a ≤ fuel → digits (λ b. 0) min fuel a m ≡ g a)
    → (fuel a : ℕ) → a ≤ fuel
    → digits (λ b. 0) min fuel a (m * 2) ≡ g (a / 2) * 2
and_double m g H zero zero h = omega (arith, H 0 0 (omega arith))
and_double m g H zero (suc a) h = absurd (omega arith)
and_double m g H (suc fuel) zero h = omega (arith, H 0 0 (omega arith))
and_double m g H (suc fuel) (suc a) h =
    let half : m * 2 / 2 ≡ m = omega arith in
    rw (half, H fuel (suc a / 2) (omega arith)) (omega arith)

-- `n & 0xFFFF`, `n & 0xFF`, `n & 0x0F` and `n & 0xF0`
pub and_0xFFFF : (n : ℕ) → bit_and n 0xFFFF ≡ n % 0x10000
and_0xFFFF n = bit_and-ones 16 n ∙ omega arith

pub and_0xFF : (n : ℕ) → bit_and n 0xFF ≡ n % 0x100
and_0xFF n = bit_and-ones 8 n ∙ omega arith

pub and_0x0F : (n : ℕ) → bit_and n 0x0F ≡ n % 0x10
and_0x0F n = bit_and-ones 4 n ∙ omega arith

pub and_0xF0 : (n : ℕ) → bit_and n 0xF0 ≡ n / 0x10 % 0x10 * 0x10
and_0xF0 n =
    let one = and_double 0x0F (λ a. low 4 a) (λ f a h. and_ones f 4 a h) in
    let two = and_double 0x1E (λ a. low 4 (a / 2) * 2) one in
    let three = and_double 0x3C (λ a. low 4 (a / 2 / 2) * 2 * 2) two in
    let four = and_double 0x78 (λ a. low 4 (a / 2 / 2 / 2) * 2 * 2 * 2) three in
    bit_and-bitwise n 0xF0 ∙ four n n (omega arith) ∙ omega arith
