-- ===== src/Itoa.antt =====
-- `itoa` (src/lib/klib.c): a word of 32 bits in hexadecimal. The shifts of an `int` keep its sign,
-- but the four bits that are taken out are the word's.
pub mod Digits
use canalotus.Common.{
  ℕ, zero, suc, ◌+◌, ◌-◌, ◌/◌, ◌^◌, Bool, true, false, ◌||◌, List, [], ◌∷◌, ◌==◌, ltb,
  if◌then◌else◌, bit_and,
}

-- `ch += '0'; if (ch > '9') ch += 7;`
unfoldable pub hex_digit : ℕ → ℕ
hex_digit ch = let c = ch + b'0' in if ltb b'9' c then c + 7 else c

-- The loop, with the shift `i`.
unfoldable pub itoa_loop : (left i num : ℕ) → (flag : Bool) → List ℕ
unfolding hex_digit
itoa_loop zero i num flag = []
itoa_loop (suc left) i num flag =
    let ch = bit_and (num / 2 ^ i) 0xF in
    let shown = itoa_loop left (i - 4) num true in
    let hidden = itoa_loop left (i - 4) num flag in
    if flag || ltb 0 ch then hex_digit ch ∷ shown else hidden

unfoldable pub itoa : ℕ → List ℕ
unfolding itoa_loop
itoa num = b'0' ∷ b'x' ∷ (if num == 0 then b'0' ∷ [] else itoa_loop 8 28 num false)
