-- ===== src/Common/Below.antt =====
-- Lists of numbers with no number twice, and how long they can be.
use Prim.Native.Nat.{ℕ, zero, suc, ◌≤◌, ◌<◌}
use mathlib.Core.Path.{◌≡◌, refl}
use mathlib.Core.Logic.{inl, inr}
use mathlib.Core.Bool.{Bool, false, ◌||◌}
use mathlib.Core.List.{List, [], ◌∷◌, ◌++◌}
use native.Mathlib.Omega.{arith}
use canalotus.Common.Tests.{◌==◌, if◌then◌else◌, Bool-cases}
use canalotus.Common.Lists.{length}

abbrev pub has : ℕ → List ℕ → Bool
has a [] = false
has a (x ∷ xs) = (x == a) || has a xs

abbrev pub Distinct : List ℕ → Type 0
Distinct [] = Unit
Distinct (x ∷ xs) = (has x xs ≡ false) × Distinct xs

abbrev pub AllBelow : ℕ → List ℕ → Type 0
AllBelow n [] = Unit
AllBelow n (x ∷ xs) = (x < n) × AllBelow n xs

-- every occurrence of `a` left out
abbrev pub without : ℕ → List ℕ → List ℕ
without a [] = []
without a (x ∷ xs) = let rest = without a xs in if x == a then rest else x ∷ rest

has-without : (a b : ℕ) (xs : List ℕ) → has a xs ≡ false → has a (without b xs) ≡ false
has-without a b [] h = refl
has-without a b (x ∷ xs) h = ground (arith, has-without a b xs)

pub without_of_not_has : (a : ℕ) (xs : List ℕ) → has a xs ≡ false → without a xs ≡ xs
without_of_not_has a [] h = refl
without_of_not_has a (x ∷ xs) h = ground (arith, without_of_not_has a xs)

Distinct-without : (b : ℕ) (xs : List ℕ) → Distinct xs → Distinct (without b xs)
Distinct-without b [] d = tt
Distinct-without b (x ∷ xs) d = elim (Bool-cases (x == b)) [
  | inl e ↦ rw e (Distinct-without b xs d.1)
  | inr e ↦ rw e (has-without x b xs d.0, Distinct-without b xs d.1)
]

length-without : (b : ℕ) (xs : List ℕ) → Distinct xs → length xs ≤ suc (length (without b xs))
length-without b [] d = omega arith
length-without b (x ∷ xs) d = ground (arith, length-without b xs d.1, without_of_not_has b xs)

AllBelow-without : (n : ℕ) (xs : List ℕ) → AllBelow (suc n) xs → AllBelow n (without n xs)
AllBelow-without n [] h = tt
AllBelow-without n (x ∷ xs) h = elim (Bool-cases (x == n)) [
  | inl e ↦ rw e (AllBelow-without n xs h.1)
  | inr e ↦ rw e (ground arith, AllBelow-without n xs h.1)
]

none_below_zero : (xs : List ℕ) → AllBelow 0 xs → length xs ≡ 0
none_below_zero [] h = refl
none_below_zero (x ∷ xs) h = absurd (omega (arith, h.0))

-- At most `n` numbers are below `n`.
pub Distinct-length : (n : ℕ) (xs : List ℕ) → Distinct xs → AllBelow n xs → length xs ≤ n
Distinct-length zero xs d h = omega (arith, none_below_zero xs h)
Distinct-length (suc n) xs d h = omega (
  arith,
  length-without n xs d,
  Distinct-length n (without n xs) (Distinct-without n xs d) (AllBelow-without n xs h),
)

pub has-append : (a : ℕ) (xs ys : List ℕ) → has a (xs ++ ys) ≡ (has a xs || has a ys)
has-append a [] ys = refl
has-append a (x ∷ xs) ys = ground (arith, has-append a xs ys)

pub Distinct-append_one :
    (a : ℕ) (xs : List ℕ) → Distinct xs → has a xs ≡ false → Distinct (xs ++ a ∷ [])
Distinct-append_one a [] d h = (refl, tt)
Distinct-append_one a (x ∷ xs) d h =
    (ground (arith, has-append x xs (a ∷ [])), Distinct-append_one a xs d.1 (ground arith))
