-- ===== src/Examples/Devices.antt =====
-- The theorems on the console, the keyboard and the terminals, applied.
use canalotus.Common.{ℕ, ltb, ◌*◌, refl, ◌≡◌, inl, false, if◌then◌else◌, none, some, [], ◌∷◌, arith}
use canalotus.Console.{Console, Display, out_char, init_screen}
use canalotus.Console.Bounds.{Printed, out_char_lem, init_screen-IsValid, scrolled-IsValid}
use canalotus.Console.Bounds
use canalotus.Keyboard.{
  Keyboard, init_keyboard, keyboard_handler, get_byte_from_kbdbuf, decode, has_bits, is_pad,
  pad_key,
}
use canalotus.Keyboard.Keys.{flag_break}
use canalotus.Keyboard.Buffer.{
  IsBuffer, queue, pending, Taken, keyboard_handler_lem, init_keyboard-IsBuffer, get_byte_lem,
}
use canalotus.Keyboard.Decode.{IsKey, key_of, decode_lem}
use canalotus.Keyboard.Controller.{Controller}
use canalotus.Tty
use canalotus.Tty.{Tty, Terminals, put_key, tty_do_write, in_process}
use canalotus.Tty.Ready.{AreReady}
use canalotus.Tty.Buffer.{keys, Written, put_key_lem, tty_do_write_lem}

abbrev pub blank : Display
blank = record {
  console_table =
      λ _. record { current_start_addr = 0; original_addr = 0; vmem_limit = 0; cursor = 0 };
  nr_current_console = 0;
  disp_pos = 160;
  vmem = λ _. 0;
  ports = [];
}

abbrev pub screen : Display
screen = init_screen 0 blank

pub screen-IsValid : Bounds.IsValid 0 (screen.console_table 0)
screen-IsValid = init_screen-IsValid 0 blank (omega arith) (λ _. omega arith)

out_char_lem_example : (t : Display) × (out_char 0 65 screen ≡ some t) × Printed 0 65 screen t
out_char_lem_example = out_char_lem 0 65 screen screen-IsValid

abbrev quiet : Keyboard
quiet = init_keyboard (record {
  p_head = 0;
  p_tail = 0;
  count = 0;
  buf = λ _. 0;
  code_e0 = false;
  left_shift = false;
  right_shift = false;
  left_alt = false;
  right_alt = false;
  left_ctrl = false;
  right_ctrl = false;
  caps_on = false;
  num_on = false;
  scroll_on = false;
  column = 0;
  incoming = 0x1E ∷ [];
  sent = [];
})

quiet-IsBuffer : IsBuffer quiet
quiet-IsBuffer = (init_keyboard-IsBuffer _).0

-- A controller that is busy at first.
abbrev slow : Controller
slow = record { status = λ n. if ltb n 3 then 2 else 0; data_port = λ _. 0xFA }

keyboard_handler_lem_example :
    IsBuffer (keyboard_handler 0x1E quiet) × (queue (keyboard_handler 0x1E quiet) ≡ 0x1E ∷ [])
unfolding init_keyboard
keyboard_handler_lem_example = keyboard_handler_lem 0x1E quiet quiet-IsBuffer

get_byte_lem_example : Taken (pending quiet) (get_byte_from_kbdbuf quiet)
get_byte_lem_example = get_byte_lem quiet quiet-IsBuffer

decode_lem_example :
    (s' : Keyboard) × (k : ℕ) × (decode 0x1E quiet
      ≡ some (if has_bits 0x1E flag_break then none else some k, s'))
    × IsKey s' (is_pad (key_of 0x1E quiet)) (pad_key s'.num_on (key_of 0x1E quiet)) k
decode_lem_example = decode_lem 0x1E quiet

abbrev one_key : Tty
one_key = record { in_buf = λ _. 65; p_inbuf_head = 1; p_inbuf_tail = 0; inbuf_count = 1 }

one_key-IsBuffer : Tty.Buffer.IsBuffer one_key
one_key-IsBuffer = record {
  head_below = omega arith;
  tail_below = omega arith;
  count_le = omega arith;
  distance = inl (omega arith);
}

put_key_lem_example :
    Tty.Buffer.IsBuffer (put_key 66 one_key) × (keys (put_key 66 one_key) ≡ 65 ∷ 66 ∷ [])
put_key_lem_example = put_key_lem 66 one_key one_key-IsBuffer

abbrev console_of : ℕ → Console
console_of n = record {
  current_start_addr = n * 5461;
  original_addr = n * 5461;
  vmem_limit = 5461;
  cursor = n * 5461;
}

abbrev terminals : Terminals
terminals = record {
  tty_table = λ _. one_key;
  display = record blank { console_table = console_of };
  keyboard = quiet;
}

terminals-AreReady : AreReady terminals
terminals-AreReady = record {
  buffers = λ m h. one_key-IsBuffer;
  consoles = λ m h. record {
    in_table = h;
    original = refl;
    limit = refl;
    cursor_from = omega arith;
    cursor_below = omega arith;
    start_from = omega arith;
    lines = omega arith;
    start_below = omega arith;
  };
}

tty_do_write_lem_example : Written 0 (65 ∷ []) terminals (tty_do_write 0 terminals)
tty_do_write_lem_example =
    tty_do_write_lem 0 terminals one_key-IsBuffer (terminals-AreReady.consoles 0 (omega arith))
