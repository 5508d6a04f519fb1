-- ===== src/Itoa/Digits.antt =====
-- The digits that `itoa` (src/lib/klib.c) writes, read back.
use canalotus.Common.{
  ℕ, zero, suc, ◌+◌, ◌-◌, ◌*◌, ◌/◌, ◌%◌, ◌^◌, ◌≤◌, ◌<◌, ◌≡◌, refl, ◌∙◌, ap, ◌≢◌, ◌⊎◌, inl, inr,
  Bool, true, false, ◌||◌, ◌==◌, ltb, if◌then◌else◌, Bool-cases, eq_cases, ==_of_ne, List, [], ◌∷◌,
  length, bit_and, arith,
}
use mathlib.Core.Path.{subst}
use canalotus.Common.{bit_and-ones}
use canalotus.Format.Digits.{read, digit_value}
use canalotus.Itoa.{hex_digit, itoa_loop, itoa}

hex_digit-value : (m : ℕ) → m < 16 → digit_value (hex_digit m) ≡ m
unfolding hex_digit
hex_digit-value m h = ground (arith, h)

nibble : (n : ℕ) → bit_and n 0xF ≡ n % 16
nibble n = bit_and-ones 4 n ∙ omega arith

read_digit :
    (acc m : ℕ) (xs : List ℕ) → m < 16 → read 16 acc (hex_digit m ∷ xs) ≡ read 16 (acc * 16 + m) xs
read_digit acc m xs h = ap (λ v. read 16 (acc * 16 + v) xs) (hex_digit-value m h)

-- One round: `acc` is the value of the digits so far, none if `flag` is not set.
round :
    (left i num acc : ℕ) (flag : Bool)
    → (flag ≡ false → acc ≡ 0)
    → ((flag' : Bool)
        → (flag' ≡ false → acc * 16 + num / 2 ^ i % 16 ≡ 0)
        → read 16 (acc * 16 + num / 2 ^ i % 16) (itoa_loop left (i - 4) num flag') ≡ num)
    → read 16 acc (itoa_loop (suc left) i num flag) ≡ num
unfolding itoa_loop
round left i num acc flag start rest =
    let ch = num / 2 ^ i % 16 in
    elim (Bool-cases (flag || ltb 0 ch)) [
      | inl shown ↦
          rw (nibble (num / 2 ^ i), shown)
            (read_digit acc ch (itoa_loop left (i - 4) num true) (omega arith)
              ∙ rest true (λ e. absurd (ground (arith, e))))
      | inr hidden ↦
          let unset : flag ≡ false = ground (arith, hidden) in
          let none_ : ch ≡ 0 = ground (arith, hidden) in
          let same : acc * 16 + ch ≡ acc = omega (arith, start unset, none_) in
          rw (nibble (num / 2 ^ i), hidden)
            (subst (λ a. read 16 a (itoa_loop left (i - 4) num flag) ≡ num) same
              (rest flag (λ e. omega (arith, start unset, none_))))
    ]

loop_value : (num : ℕ) → num < 2 ^ 32 → read 16 0 (itoa_loop 8 28 num false) ≡ num
unfolding itoa_loop
loop_value num h =
    round 7 28 num 0 false (λ _. refl)
      (λ f z. round 6 24 num _ f z (λ f z. round 5 20 num _ f z (λ f z. round 4 16 num _ f z (λ f z.
        round 3 12 num _ f z (λ f z.
          round 2 8 num _ f z
            (λ f z. round 1 4 num _ f z (λ f z. round 0 0 num _ f z (λ f z. omega arith))))))))

loop-length : (left i num : ℕ) (flag : Bool) → length (itoa_loop left i num flag) ≤ left
unfolding itoa_loop
loop-length zero i num flag = omega arith
loop-length (suc left) i num flag = elim (Bool-cases (flag || ltb 0 (bit_and (num / 2 ^ i) 0xF))) [
  | inl e ↦ rw e (omega (arith, loop-length left (i - 4) num true))
  | inr e ↦ rw e (omega (arith, loop-length left (i - 4) num flag))
]

-- The first digit is not '0'.
abbrev pub NoLeadingZero : List ℕ → Type 0
NoLeadingZero [] = Unit
NoLeadingZero (c ∷ cs) = c ≢ b'0'

some_digit : (m : ℕ) → 0 < m → hex_digit m ≢ b'0'
unfolding hex_digit
some_digit m h e = ground (arith, h, e)

loop_first : (left i num : ℕ) → NoLeadingZero (itoa_loop left i num false)
unfolding itoa_loop
loop_first zero i num = tt
loop_first (suc left) i num = elim (Bool-cases (ltb 0 (bit_and (num / 2 ^ i) 0xF))) [
  | inl e ↦ rw e (some_digit (bit_and (num / 2 ^ i) 0xF) (ground (arith, e)))
  | inr e ↦ rw e (loop_first left (i - 4) num)
]

itoa_shape :
    (num : ℕ) → itoa num ≡ b'0' ∷ b'x' ∷ (if num == 0 then b'0' ∷ [] else itoa_loop 8 28 num false)
unfolding itoa
itoa_shape num = refl

-- For every word `itoa` writes 0x and at most eight digits that read back as the word in base 16:
-- one 0 for 0, and otherwise no leading zero.
pub itoa_lem :
    (num : ℕ)
    → num < 2 ^ 32
    → (ds : List ℕ) × (itoa num ≡ b'0' ∷ b'x' ∷ ds)
      × (read 16 0 ds ≡ num)
      × (length ds ≤ 8)
      × (((num ≡ 0) × (ds ≡ b'0' ∷ [])) ⊎ NoLeadingZero ds)
itoa_lem num h = elim (eq_cases num 0) [
  | inl e ↦ (b'0' ∷ [], itoa_shape num ∙ (rw e refl), omega (arith, e), omega arith, inl (e, refl))
  | inr n ↦
      let other : (num == 0) ≡ false = ==_of_ne num 0 n in
      (
        itoa_loop 8 28 num false,
        itoa_shape num ∙ (rw other refl),
        loop_value num h,
        loop-length 8 28 num false,
        inr (loop_first 8 28 num),
      )
]
