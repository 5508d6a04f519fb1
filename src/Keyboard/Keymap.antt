-- ===== src/Keyboard/Keymap.antt =====
-- The characters and key codes of scan codes (src/include/sys/keymap.h): a row for each scan code,
-- with its key, the one with shift, and the one after 0xE0.
use canalotus.Common.{ℕ, List, [], ◌∷◌, ◌++◌}
use canalotus.Keyboard.Keys.{
  apps, backspace, caps_lock, delete, down_key, end_key, enter, esc, f1, f10, f11, f12, f2, f3, f4,
  f5, f6, f7, f8, f9, home, insert, lalt, lctrl, left_key, lgui, lshift, num_lock, pad_0, pad_1,
  pad_2, pad_3, pad_4, pad_5, pad_6, pad_7, pad_8, pad_9, pad_dot, pad_enter, pad_minus, pad_plus,
  pad_slash, pagedown, pageup, ralt, rctrl, rgui, right_key, rshift, scroll_lock, tab, up_key,
}

abbrev rows_00 : List ℕ
rows_00 =
    0 ∷ 0 ∷ 0 ∷ esc ∷ esc ∷ 0 ∷ b'1' ∷ b'!' ∷ 0 ∷ b'2' ∷ b'@' ∷ 0 ∷ b'3' ∷ b'#' ∷ 0 ∷ b'4' ∷ b'$'
    ∷ 0 ∷ b'5' ∷ b'%' ∷ 0 ∷ b'6' ∷ b'^' ∷ 0 ∷ b'7' ∷ b'&' ∷ 0 ∷ b'8' ∷ b'*' ∷ 0 ∷ b'9' ∷ b'(' ∷ 0
    ∷ b'0' ∷ b')' ∷ 0 ∷ b'-' ∷ b'_' ∷ 0 ∷ b'=' ∷ b'+' ∷ 0 ∷ backspace ∷ backspace ∷ 0 ∷ tab ∷ tab
    ∷ 0 ∷ b'q' ∷ b'Q' ∷ 0 ∷ b'w' ∷ b'W' ∷ 0 ∷ b'e' ∷ b'E' ∷ 0 ∷ b'r' ∷ b'R' ∷ 0 ∷ b't' ∷ b'T' ∷ 0
    ∷ b'y' ∷ b'Y' ∷ 0 ∷ b'u' ∷ b'U' ∷ 0 ∷ b'i' ∷ b'I' ∷ 0 ∷ b'o' ∷ b'O' ∷ 0 ∷ b'p' ∷ b'P' ∷ 0 ∷ b'['
    ∷ b'{' ∷ 0 ∷ b']' ∷ b'}' ∷ 0 ∷ enter ∷ enter ∷ pad_enter ∷ lctrl ∷ lctrl ∷ rctrl ∷ b'a' ∷ b'A'
    ∷ 0 ∷ b's' ∷ b'S' ∷ 0 ∷ []

abbrev rows_20 : List ℕ
rows_20 =
    b'd' ∷ b'D' ∷ 0 ∷ b'f' ∷ b'F' ∷ 0 ∷ b'g' ∷ b'G' ∷ 0 ∷ b'h' ∷ b'H' ∷ 0 ∷ b'j' ∷ b'J' ∷ 0 ∷ b'k'
    ∷ b'K' ∷ 0 ∷ b'l' ∷ b'L' ∷ 0 ∷ b';' ∷ b':' ∷ 0 ∷ 0x27 ∷ 0x22 ∷ 0 ∷ b'`' ∷ b'~' ∷ 0 ∷ lshift
    ∷ lshift ∷ 0 ∷ 0x5c ∷ b'|' ∷ 0 ∷ b'z' ∷ b'Z' ∷ 0 ∷ b'x' ∷ b'X' ∷ 0 ∷ b'c' ∷ b'C' ∷ 0 ∷ b'v'
    ∷ b'V' ∷ 0 ∷ b'b' ∷ b'B' ∷ 0 ∷ b'n' ∷ b'N' ∷ 0 ∷ b'm' ∷ b'M' ∷ 0 ∷ b',' ∷ b'<' ∷ 0 ∷ b'.' ∷ b'>'
    ∷ 0 ∷ b'/' ∷ b'?' ∷ pad_slash ∷ rshift ∷ rshift ∷ 0 ∷ b'*' ∷ b'*' ∷ 0 ∷ lalt ∷ lalt ∷ ralt
    ∷ b' ' ∷ b' ' ∷ 0 ∷ caps_lock ∷ caps_lock ∷ 0 ∷ f1 ∷ f1 ∷ 0 ∷ f2 ∷ f2 ∷ 0 ∷ f3 ∷ f3 ∷ 0 ∷ f4
    ∷ f4 ∷ 0 ∷ f5 ∷ f5 ∷ 0 ∷ []

abbrev rows_40 : List ℕ
rows_40 =
    f6 ∷ f6 ∷ 0 ∷ f7 ∷ f7 ∷ 0 ∷ f8 ∷ f8 ∷ 0 ∷ f9 ∷ f9 ∷ 0 ∷ f10 ∷ f10 ∷ 0 ∷ num_lock ∷ num_lock ∷ 0
    ∷ scroll_lock ∷ scroll_lock ∷ 0 ∷ pad_7 ∷ 0 ∷ home ∷ pad_8 ∷ 0 ∷ up_key ∷ pad_9 ∷ 0 ∷ pageup
    ∷ pad_minus ∷ 0 ∷ 0 ∷ pad_4 ∷ 0 ∷ left_key ∷ pad_5 ∷ 0 ∷ 0 ∷ pad_6 ∷ 0 ∷ right_key ∷ pad_plus
    ∷ 0 ∷ 0 ∷ pad_1 ∷ 0 ∷ end_key ∷ pad_2 ∷ 0 ∷ down_key ∷ pad_3 ∷ 0 ∷ pagedown ∷ pad_0 ∷ 0 ∷ insert
    ∷ pad_dot ∷ 0 ∷ delete ∷ 0 ∷ 0 ∷ 0 ∷ 0 ∷ 0 ∷ 0 ∷ 0 ∷ 0 ∷ 0 ∷ f11 ∷ f11 ∷ 0 ∷ f12 ∷ f12 ∷ 0 ∷ 0
    ∷ 0 ∷ 0 ∷ 0 ∷ 0 ∷ 0 ∷ 0 ∷ 0 ∷ lgui ∷ 0 ∷ 0 ∷ rgui ∷ 0 ∷ 0 ∷ apps ∷ 0 ∷ 0 ∷ 0 ∷ 0 ∷ 0 ∷ 0 ∷ []

abbrev rows_60 : List ℕ
rows_60 =
    0 ∷ 0 ∷ 0 ∷ 0 ∷ 0 ∷ 0 ∷ 0 ∷ 0 ∷ 0 ∷ 0 ∷ 0 ∷ 0 ∷ 0 ∷ 0 ∷ 0 ∷ 0 ∷ 0 ∷ 0 ∷ 0 ∷ 0 ∷ 0 ∷ 0 ∷ 0 ∷ 0
    ∷ 0 ∷ 0 ∷ 0 ∷ 0 ∷ 0 ∷ 0 ∷ 0 ∷ 0 ∷ 0 ∷ 0 ∷ 0 ∷ 0 ∷ 0 ∷ 0 ∷ 0 ∷ 0 ∷ 0 ∷ 0 ∷ 0 ∷ 0 ∷ 0 ∷ 0 ∷ 0 ∷ 0
    ∷ 0 ∷ 0 ∷ 0 ∷ 0 ∷ 0 ∷ 0 ∷ 0 ∷ 0 ∷ 0 ∷ 0 ∷ 0 ∷ 0 ∷ 0 ∷ 0 ∷ 0 ∷ 0 ∷ 0 ∷ 0 ∷ 0 ∷ 0 ∷ 0 ∷ 0 ∷ 0 ∷ 0
    ∷ 0 ∷ 0 ∷ 0 ∷ 0 ∷ 0 ∷ 0 ∷ 0 ∷ 0 ∷ 0 ∷ 0 ∷ 0 ∷ 0 ∷ 0 ∷ 0 ∷ 0 ∷ 0 ∷ 0 ∷ 0 ∷ 0 ∷ 0 ∷ 0 ∷ 0 ∷ 0 ∷ 0
    ∷ []

abbrev pub keymap : List ℕ
keymap = rows_00 ++ rows_20 ++ rows_40 ++ rows_60
