-- ===== src/Format/Digits.antt =====
-- The digits that `i2a` writes, read back.
use canalotus.Common.{
  ℕ, zero, suc, ◌+◌, ◌-◌, ◌*◌, ◌/◌, ◌%◌, ◌^◌, ◌≤◌, ◌<◌, ◌≡◌, refl, ◌∙◌, ap, ◌≢◌, ◌⊎◌, inl, inr,
  true, false, ◌==◌, ltb, if◌then◌else◌, Bool-cases, lt→ltb, ltb→lt, ℤ, pos, negsuc, some, List, [],
  ◌∷◌, ◌++◌, length, has, arith,
}
use native.Mathlib.Nat.{pow-suc}
use mathlib.Core.Path.{subst}
use mathlib.Core.Option
use canalotus.Format.{
  digit, i2a_digits, i2a, decimal, int_of, convert, field, format, vsprintf, padding,
}

-- The value of a digit, and of digits after those that gave `acc`.
abbrev pub digit_value : ℕ → ℕ
digit_value c = if ltb c b'A' then c - b'0' else c - b'A' + 10

abbrev pub read : ℕ → ℕ → List ℕ → ℕ
read base acc [] = acc
read base acc (c ∷ cs) = read base (acc * base + digit_value c) cs

read-append :
    (base acc : ℕ) (xs : List ℕ) (c : ℕ)
    → read base acc (xs ++ c ∷ []) ≡ read base acc xs * base + digit_value c
read-append base acc [] c = refl
read-append base acc (x ∷ xs) c = read-append base (acc * base + digit_value x) xs c

digit_value-digit : (m : ℕ) → m < 16 → digit_value (digit false m) ≡ m
unfolding digit
digit_value-digit m h = ground (arith, h)

-- One digit more, in base 10 and in base 16.
read_step :
    (base n : ℕ) (xs : List ℕ)
    → (base ≡ 10) ⊎ (base ≡ 16)
    → read base 0 xs ≡ n / base
    → read base 0 ((if n / base == 0 then [] else xs) ++ digit false (n % base) ∷ []) ≡ n
read_step base n xs (inl b) h = rw b (
    ground (
      arith,
      read-append 10 0 xs (digit false (n % 10)),
      digit_value-digit (n % 10) (omega arith),
      subst (λ z. read z 0 xs ≡ n / z) b h,
    ))
read_step base n xs (inr b) h = rw b (
    ground (
      arith,
      read-append 16 0 xs (digit false (n % 16)),
      digit_value-digit (n % 16) (omega arith),
      subst (λ z. read z 0 xs ≡ n / z) b h,
    ))

smaller : (base n fuel : ℕ) → (base ≡ 10) ⊎ (base ≡ 16) → n < 2 ^ suc fuel → n / base < 2 ^ fuel
smaller base n fuel (inl b) h = rw b (omega (arith, h, pow-suc 2 fuel))
smaller base n fuel (inr b) h = rw b (omega (arith, h, pow-suc 2 fuel))

pub read_digits :
    (base fuel n : ℕ)
    → (base ≡ 10) ⊎ (base ≡ 16)
    → n < 2 ^ fuel
    → read base 0 (i2a_digits fuel false base n) ≡ n
unfolding i2a_digits
read_digits base zero n b h = omega (arith, h)
read_digits base (suc fuel) n b h =
    read_step base n (i2a_digits fuel false base (n / base)) b
      (read_digits base fuel (n / base) b (smaller base n fuel b h))

-- characters from '0' on
abbrev Plain : List ℕ → Type 0
Plain [] = Unit
Plain (c ∷ cs) = (b'0' ≤ c) × Plain cs

Plain-append : (xs : List ℕ) (c : ℕ) → Plain xs → b'0' ≤ c → Plain (xs ++ c ∷ [])
Plain-append [] c p h = (h, tt)
Plain-append (x ∷ xs) c p h = (p.0, Plain-append xs c p.1 h)

digit_plain : (m : ℕ) → b'0' ≤ digit false m
unfolding digit
digit_plain m = ground arith

digits-Plain : (fuel n : ℕ) → Plain (i2a_digits fuel false 10 n)
unfolding i2a_digits
digits-Plain zero n = tt
digits-Plain (suc fuel) n = elim (Bool-cases (n / 10 == 0)) [
  | inl e ↦ rw e (digit_plain (n % 10), tt)
  | inr e ↦ rw e (
      Plain-append (i2a_digits fuel false 10 (n / 10)) (digit false (n % 10))
        (digits-Plain fuel (n / 10)) (digit_plain (n % 10)))
]

abbrev negative : ℕ → ℤ
negative zero = pos 0
negative (suc n) = negsuc n

-- An `int` read from its sign and decimal digits.
abbrev pub read_int : List ℕ → ℤ
read_int [] = pos 0
read_int (c ∷ cs) = if c == b'-' then negative (read 10 0 cs) else pos (read 10 0 (c ∷ cs))

read_int-Plain : (xs : List ℕ) → Plain xs → read_int xs ≡ pos (read 10 0 xs)
read_int-Plain [] p = refl
read_int-Plain (c ∷ cs) p = let e : (c == b'-') ≡ false = ground (arith, p.0) in rw e refl

read_decimal_pos : (n : ℕ) → n < 2 ^ 31 → read_int (decimal (pos n)) ≡ pos n
unfolding decimal i2a
read_decimal_pos n h =
    read_int-Plain (i2a_digits 32 false 10 n) (digits-Plain 32 n)
    ∙ ap pos (read_digits 10 32 n (inl refl) (omega (arith, h)))

read_decimal_negsuc : (n : ℕ) → n < 2 ^ 31 - 1 → read_int (decimal (negsuc n)) ≡ negsuc n
unfolding decimal i2a
read_decimal_negsuc n h =
    let e : (n == 2 ^ 31 - 1) ≡ false = ground (arith, h) in
    let s : n + 1 ≡ suc n = omega arith in
    rw e (ap negative (read_digits 10 32 (n + 1) (inl refl) (omega (arith, h)) ∙ s))

append_nil : (xs : List ℕ) → xs ++ [] ≡ xs
append_nil [] = refl
append_nil (x ∷ xs) = ap (λ l. x ∷ l) (append_nil xs)

-- A field of no given width is not padded.
unpadded : (xs : List ℕ) → some (padding (0 - length xs) b' ' ++ xs ++ []) ≡ some xs
unfolding padding
unpadded xs = let none_left : 0 - length xs ≡ 0 = omega arith in rw (none_left, append_nil xs) refl

-- What `vsprintf` writes for the format "%x" and a word below 2 ^ 31 reads back, in base 16, as the
-- word.
pub vsprintf_hex :
    (string_at : ℕ → List ℕ) (w : ℕ)
    → w < 2 ^ 31
    → (out : List ℕ) × (vsprintf string_at (b'%' ∷ b'x' ∷ []) (w ∷ []) ≡ some out)
      × (read 16 0 out ≡ w)
unfolding vsprintf format field convert padding i2a
vsprintf_hex string_at w h =
    let e : ltb w (2 ^ 31) ≡ true = lt→ltb w (2 ^ 31) h in
    rw e (
      i2a_digits 32 false 16 w,
      unpadded (i2a_digits 32 false 16 w),
      read_digits 16 32 w (inr refl) (omega (arith, h)),
    )

-- What `vsprintf` writes for the format "%d" and a word of 32 bits is the word's value as an `int`
-- in decimal, with its sign: reading it gives the value back, for every word but the least `int`.
pub vsprintf_decimal :
    (string_at : ℕ → List ℕ) (w : ℕ)
    → w < 2 ^ 32
    → w ≢ 2 ^ 31
    → (out : List ℕ) × (vsprintf string_at (b'%' ∷ b'd' ∷ []) (w ∷ []) ≡ some out)
      × (read_int out ≡ int_of w)
unfolding vsprintf format field convert padding
vsprintf_decimal string_at w h ne = (
  decimal (int_of w),
  unpadded (decimal (int_of w)),
  elim (Bool-cases (ltb w (2 ^ 31))) [
    | inl e ↦ rw e (read_decimal_pos w (ltb→lt w (2 ^ 31) e))
    | inr e ↦ rw e (read_decimal_negsuc (2 ^ 32 - 1 - w) (ground (arith, e, h, ne)))
  ],
)

-- A format without '%' is written as it is, and uses no argument.
pub vsprintf_text :
    (string_at : ℕ → List ℕ) (fmt args : List ℕ)
    → has b'%' fmt ≡ false
    → vsprintf string_at fmt args ≡ some fmt
unfolding vsprintf format
vsprintf_text string_at [] args h = refl
vsprintf_text string_at (c ∷ fmt) args h =
    let e : (c == b'%') ≡ false = ground (arith, h) in
    rw e (ap (Option.map (λ out. c ∷ out)) (vsprintf_text string_at fmt args (ground (arith, h))))
