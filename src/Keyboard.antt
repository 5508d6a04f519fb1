-- ===== src/Keyboard.antt =====
-- The keyboard (src/kernel/keyboard.c): the ring buffer of scan codes that the interrupt handler
-- fills, and `keyboard_read`, which turns scan codes into keys. `p_head` and `p_tail` are positions
-- in `buf`. `incoming` holds the scan codes of the interrupts that come while a read waits for a
-- byte; a wait for one that never comes is `none`. What `set_leds` sends to the controller stands newest
-- first; Controller has its polling.
pub mod Keys
pub mod Keymap
pub mod Buffer
pub mod Decode
pub mod Controller
use canalotus.Common.{
  ℕ, ◌+◌, ◌-◌, ◌*◌, ◌≤◌, Bool, true, false, not, ◌&&◌, ◌||◌, Option, none, some, List, [], ◌∷◌,
  ◌==◌, ltb, leb, if◌then◌else◌, update, advance, get_or, bit_and, bit_or,
}
use canalotus.Keyboard.Keys.*
use canalotus.Keyboard.Keymap.{keymap}

pub record Keyboard : Type 0 where
  pub p_head : ℕ
  pub p_tail : ℕ
  pub count : ℕ
  pub buf : ℕ → ℕ
  pub code_e0 : Bool
  pub left_shift : Bool
  pub right_shift : Bool
  pub left_alt : Bool
  pub right_alt : Bool
  pub left_ctrl : Bool
  pub right_ctrl : Bool
  pub caps_on : Bool
  pub num_on : Bool
  pub scroll_on : Bool
  pub column : ℕ
  pub incoming : List ℕ
  pub sent : List ℕ

abbrev pub K : Type 0 → Type 0
K A = Keyboard → Option (A × Keyboard)

abbrev pub pure : {A : Type 0} → A → K A
pure a s = some (a, s)

infixl 5 ◌>>=◌ ◌>>◌
abbrev pub ◌>>=◌ : {A B : Type 0} → K A → (A → K B) → K B
◌>>=◌ m f s = elim (m s) [ none ↦ none | some r ↦ f r.0 r.1 ]

abbrev pub ◌>>◌ : {A B : Type 0} → K A → K B → K B
m >> n = m >>= λ _. n

abbrev pub bit : Bool → ℕ
bit b = if b then 1 else 0

abbrev pub has_bits : ℕ → ℕ → Bool
has_bits n flag = not (bit_and n flag == 0)

-- LED_CODE and the byte of `leds`
unfoldable pub set_leds : Keyboard → Keyboard
set_leds s = record s {
  sent = bit_or (bit_or (bit s.caps_on * 4) (bit s.num_on * 2)) (bit s.scroll_on) ∷ 0xED ∷ s.sent;
}

unfoldable pub init_keyboard : Keyboard → Keyboard
unfolding set_leds
init_keyboard s = set_leds (record s {
  count = 0;
  p_head = 0;
  p_tail = 0;
  left_shift = false;
  right_shift = false;
  left_alt = false;
  right_alt = false;
  left_ctrl = false;
  right_ctrl = false;
  caps_on = false;
  num_on = false;
  scroll_on = false;
})

-- The handler of an interrupt that brings `scan_code`.
unfoldable pub keyboard_handler : ℕ → Keyboard → Keyboard
keyboard_handler scan_code s =
    if ltb s.count kbd_in_bytes
    then record s {
      buf = update s.buf s.p_head scan_code;
      p_head = advance kbd_in_bytes s.p_head;
      count = s.count + 1;
    }
    else s

abbrev pub take_byte : K ℕ
take_byte s =
    some (s.buf s.p_tail, record s { p_tail = advance kbd_in_bytes s.p_tail; count = s.count - 1 })

-- The wait for a byte goes on until an interrupt brings one.
unfoldable pub get_byte_from_kbdbuf : K ℕ
unfolding keyboard_handler
get_byte_from_kbdbuf s = if ltb 0 s.count then take_byte s else elim s.incoming [
  | [] ↦ none
  | x ∷ later ↦ take_byte (keyboard_handler x (record s { incoming = later }))
]

-- Whether the next bytes are the given ones; the first that is not ends the comparison.
unfoldable pub next_bytes : List ℕ → K Bool
unfolding get_byte_from_kbdbuf
next_bytes [] = pure true
next_bytes (c ∷ cs) =
    let rest = next_bytes cs in get_byte_from_kbdbuf >>= λ b. if b == c then rest else pure false

-- The bytes of a key that sends several, after the first one: the scan code to decode, and the key
-- when it is known already or 0.
unfoldable pub read_prefix : ℕ → K (ℕ × ℕ)
unfolding next_bytes get_byte_from_kbdbuf
read_prefix code =
    if code == 0xE1
    then (next_bytes (0x1D ∷ 0x45 ∷ 0xE1 ∷ 0x9D ∷ 0xC5 ∷ []) >>= λ is_pausebreak.
        pure (code, if is_pausebreak then pausebreak else 0))
    else if code == 0xE0
    then (get_byte_from_kbdbuf >>= λ code.
        (if code == 0x2A
          then next_bytes (0xE0 ∷ 0x37 ∷ [])
          else if code == 0xB7
          then next_bytes (0xE0 ∷ 0xAA ∷ [])
          else pure false)
        >>= λ found. λ s.
          if found
          then pure (code, printscreen) s
          else pure (code, 0) (record s { code_e0 = true }))
    else pure (code, 0)

-- The first `switch`: modifiers and locks.
unfoldable pub press : ℕ → Bool → Keyboard → Keyboard
unfolding set_leds
press key make s =
    if key == lshift
    then record s { left_shift = make }
    else if key == rshift
    then record s { right_shift = make }
    else if key == lctrl
    then record s { left_ctrl = make }
    else if key == rctrl
    then record s { right_ctrl = make }
    else if key == lalt
    then record s { left_alt = make }
    else if key == ralt
    then record s { right_alt = make }
    else if key == caps_lock
    then (if make then set_leds (record s { caps_on = not s.caps_on }) else s)
    else if key == num_lock
    then (if make then set_leds (record s { num_on = not s.num_on }) else s)
    else if key == scroll_lock
    then (if make then set_leds (record s { scroll_on = not s.scroll_on }) else s)
    else s

abbrev pub is_pad : ℕ → Bool
is_pad key = leb pad_slash key && leb key pad_9

-- The second `switch`: the number pad.
unfoldable pub pad_key : Bool → ℕ → ℕ
pad_key num_on key =
    if key == pad_slash
    then b'/'
    else if key == pad_star
    then b'*'
    else if key == pad_minus
    then b'-'
    else if key == pad_plus
    then b'+'
    else if key == pad_enter
    then enter
    else if num_on && leb pad_0 key && leb key pad_9
    then key - pad_0 + b'0'
    else if num_on && (key == pad_dot)
    then b'.'
    else if key == pad_home
    then home
    else if key == pad_up
    then up_key
    else if key == pad_pageup
    then pageup
    else if key == pad_left
    then left_key
    else if key == pad_right
    then right_key
    else if key == pad_end
    then end_key
    else if key == pad_down
    then down_key
    else if key == pad_pagedown
    then pagedown
    else if key == pad_ins
    then insert
    else if key == pad_del
    then delete
    else key

abbrev pub flag : Bool → ℕ → ℕ → ℕ
flag b f key = bit_or key (if b then f else 0)

unfoldable pub with_flags : Keyboard → Bool → ℕ → ℕ
with_flags s pad key = flag pad flag_pad (
    flag s.right_alt flag_ralt (
      flag s.left_alt flag_lalt (
        flag s.right_ctrl flag_rctrl (
          flag s.left_ctrl flag_lctrl
            (flag s.right_shift flag_rshift (flag s.left_shift flag_lshift key))))))

-- The column of the key map.
unfoldable pub column_of : ℕ → Keyboard → ℕ
column_of row s =
    let shift = s.left_shift || s.right_shift in
    let first = get_or keymap row 0 in
    let caps = if s.caps_on && leb b'a' first && leb first b'z' then not shift else shift in
    if s.code_e0 then 2 else if caps then 1 else 0

-- A scan code's key; `some` is the one given to `in_process`.
unfoldable pub decode : ℕ → K (Option ℕ)
unfolding column_of press pad_key with_flags
decode code s =
    let make = not (has_bits code flag_break) in
    let row = bit_and code 0x7F * map_cols in
    let col = column_of row s in
    let key = get_or keymap (row + col) 0 in
    let s' = press key make (record s { column = col }) in
    pure (if make then some (with_flags s' (is_pad key) (pad_key s'.num_on key)) else none) s'

unfoldable pub keyboard_read : K (Option ℕ)
unfolding get_byte_from_kbdbuf read_prefix decode
keyboard_read s =
    if ltb 0 s.count
    then (get_byte_from_kbdbuf >>= λ code. read_prefix code >>= λ r.
          if (r.1 == pausebreak) || (r.1 == printscreen) then pure none else decode r.0)
        (record s { code_e0 = false })
    else pure none s
