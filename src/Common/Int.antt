-- ===== src/Common/Int.antt =====
-- The C type `int` as integers over the native numbers (the library's ℤ stands on another ℕ).
use Prim.Native.Nat.{ℕ, zero, suc, ◌+◌, ◌-◌, ◌^◌, ◌≤◌}
use mathlib.Core.Path.{◌≡◌}
use mathlib.Core.Bool.{Bool, true, false}
use native.Mathlib.Omega.{arith}
use canalotus.Common.Tests.{ltb, ◌==◌, if◌then◌else◌}

-- `negsuc n` is -(n + 1).
pub data ℤ : Type 0 where
  pos : ℕ → ℤ
  negsuc : ℕ → ℤ

abbrev pub eq_ℤ : ℤ → ℤ → Bool
eq_ℤ (pos a) (pos b) = a == b
eq_ℤ (pos a) (negsuc b) = false
eq_ℤ (negsuc a) (pos b) = false
eq_ℤ (negsuc a) (negsuc b) = a == b

abbrev pub ltb_ℤ : ℤ → ℤ → Bool
ltb_ℤ (pos a) (pos b) = ltb a b
ltb_ℤ (pos a) (negsuc b) = false
ltb_ℤ (negsuc a) (pos b) = true
ltb_ℤ (negsuc a) (negsuc b) = ltb b a

infix 50 ◌≤ℤ◌
abbrev pub ◌≤ℤ◌ : ℤ → ℤ → Type 0
pos a ≤ℤ pos b = a ≤ b
pos a ≤ℤ negsuc b = ⊥
negsuc a ≤ℤ pos b = Unit
negsuc a ≤ℤ negsuc b = b ≤ a

-- `x++` and `x--` on an `int` of 32 bits, which wrap at the ends of the range.
abbrev pub inc_int : ℤ → ℤ
inc_int (pos n) = if n == 2 ^ 31 - 1 then negsuc (2 ^ 31 - 1) else pos (n + 1)
inc_int (negsuc zero) = pos 0
inc_int (negsuc (suc n)) = negsuc n

abbrev pub dec_int : ℤ → ℤ
dec_int (pos zero) = negsuc 0
dec_int (pos (suc n)) = pos n
dec_int (negsuc n) = if n == 2 ^ 31 - 1 then pos (2 ^ 31 - 1) else negsuc (n + 1)

pub eq_ℤ→eq : (a b : ℤ) → eq_ℤ a b ≡ true → a ≡ b
eq_ℤ→eq a b h = ground arith
