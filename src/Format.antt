-- ===== src/Format.antt =====
-- Formatting (src/lib/vsprintf.c). A text is the list of its characters, without the final 0. The
-- arguments are the words of 32 bits from `p_next_arg` on, and `string_at` gives the text at an
-- address. `none` stands for what the code does not bound: a format that ends inside a directive,
-- a missing argument, a string that does not fit `inner_buf`, and a width beyond an `int`.
pub mod Digits
use mathlib.Core.Option
use canalotus.Common.{
  Option, ◌||◌, ℕ, zero, suc, ◌+◌, ◌-◌, ◌*◌, ◌/◌, ◌%◌, ◌^◌, Bool, true, false, ◌&&◌, none, some,
  List, [], ◌∷◌, ◌++◌, ◌==◌, ltb, leb, if◌then◌else◌, length, ℤ, pos, negsuc,
}

-- The digit `m` of `i2a`, where `m` is negative for a negative number.
unfoldable pub digit : Bool → ℕ → ℕ
digit negative m = if negative then b'0' - m else if ltb m 10 then m + b'0' else m - 10 + b'A'

-- `i2a` on the magnitude of its number: C divides towards 0, and the remainder has the number's
-- sign.
unfoldable pub i2a_digits : ℕ → Bool → (base magnitude : ℕ) → List ℕ
unfolding digit
i2a_digits zero negative base n = []
i2a_digits (suc fuel) negative base n =
    let rest = i2a_digits fuel negative base (n / base) in
    (if n / base == 0 then [] else rest) ++ digit negative (n % base) ∷ []

unfoldable pub i2a : ℤ → ℕ → List ℕ
unfolding i2a_digits
i2a (pos n) base = i2a_digits 32 false base n
i2a (negsuc n) base = i2a_digits 32 true base (n + 1)

-- A word of 32 bits as an `int`.
abbrev pub int_of : ℕ → ℤ
int_of w = if ltb w (2 ^ 31) then pos w else negsuc (2 ^ 32 - 1 - w)

-- `m *= -1` below 0, which leaves the least `int` as it is
abbrev pub negated : ℕ → ℤ
negated n = if n == 2 ^ 31 - 1 then negsuc n else pos (n + 1)

-- the case 'd' of the `switch`
unfoldable pub decimal : ℤ → List ℕ
unfolding i2a
decimal (pos n) = i2a (pos n) 10
decimal (negsuc n) = b'-' ∷ i2a (negated n) 10

-- What the `switch` leaves in `inner_buf`, and the arguments that follow.
unfoldable pub convert : (ℕ → List ℕ) → ℕ → List ℕ → Option (List ℕ × List ℕ)
unfolding i2a decimal
convert string_at c args =
    if (c == b'c') || (c == b'x') || (c == b'd') || (c == b's')
    then elim args [
      | [] ↦ none
      | w ∷ later ↦
          if c == b'c'
          then some (if w % 256 == 0 then [] else w % 256 ∷ [], later)
          else if c == b'x'
          then some (i2a (int_of w) 16, later)
          else if c == b'd'
          then some (decimal (int_of w), later)
          else if ltb (length (string_at w)) 1024
          then some (string_at w, later)
          else none
    ]
    else some ([], args)

unfoldable pub padding : ℕ → ℕ → List ℕ
padding zero cs = []
padding (suc n) cs = cs ∷ padding n cs

-- Where the loop over the format stands: in the text, after a '%', or in the width.
pub data Mode : Type 0 where
  in_text after_percent : Mode
  in_width : (cs align_nr : ℕ) → Mode

-- The width's next character, or the conversion. `rest` is the loop from the next character on.
unfoldable pub field :
    (ℕ → List ℕ)
    → (cs align_nr c : ℕ) → (Mode → List ℕ → Option (List ℕ))
    → List ℕ
    → Option (List ℕ)
unfolding convert padding
field string_at cs n c rest args =
    if leb b'0' c && leb c b'9'
    then (if ltb (n * 10 + (c - b'0')) (2 ^ 31)
        then rest (in_width cs (n * 10 + (c - b'0'))) args
        else none)
    else elim (convert string_at c args) [
      | none ↦ none
      | some r ↦ Option.map (λ out. padding (n - length r.0) cs ++ r.0 ++ out) (rest in_text r.1)
    ]

-- The loop over the format.
unfoldable pub format : (ℕ → List ℕ) → List ℕ → Mode → List ℕ → Option (List ℕ)
unfolding field
format string_at [] in_text args = some []
format string_at [] after_percent args = none
format string_at [] (in_width cs n) args = none
format string_at (c ∷ fmt) in_text args =
    let rest = format string_at fmt in
    if c == b'%' then rest after_percent args else Option.map (λ out. c ∷ out) (rest in_text args)
format string_at (c ∷ fmt) after_percent args =
    let rest = format string_at fmt in
    if c == b'%'
    then Option.map (λ out. c ∷ out) (rest in_text args)
    else if c == b'0'
    then rest (in_width b'0' 0) args
    else field string_at b' ' 0 c rest args
format string_at (c ∷ fmt) (in_width cs n) args = field string_at cs n c (format string_at fmt) args

unfoldable pub vsprintf : (ℕ → List ℕ) → List ℕ → List ℕ → Option (List ℕ)
unfolding format
vsprintf string_at fmt args = format string_at fmt in_text args
