-- ===== src/Tty.antt =====
-- The terminals (src/kernel/tty.c): the ring buffer of keys between `in_process` and `out_char`, and
-- the two steps that `sys_tty` takes for each terminal in turn. The console of terminal `n` is entry
-- `n` of `console_table`. `none` is a wait or a loop that does not end.
pub mod Buffer
pub mod Ready
pub mod Start
pub mod Loop
use canalotus.Common.{
  List, [], ◌∷◌, ℕ, zero, suc, ◌+◌, ◌-◌, ◌%◌, ◌^◌, ◌≤◌, Bool, true, false, not, ◌&&◌, ◌||◌, Option,
  none, some, ◌==◌, ltb, leb, if◌then◌else◌, update, advance, bit_and,
}
use canalotus.Console.{
  nr_consoles, Display, Direction, up, down, is_current_console, scroll_screen, select_console,
  out_char, init_screen,
}
use canalotus.Keyboard.{Keyboard, keyboard_handler, keyboard_read, init_keyboard, has_bits}
use canalotus.Keyboard.Keys.{
  flag_ext, flag_lshift, flag_rshift, flag_lalt, flag_ralt, mask_raw, up_key, down_key, f1, f12,
  enter, backspace,
}

abbrev pub tty_in_bytes : ℕ
tty_in_bytes = 256

pub record Tty : Type 0 where
  pub in_buf : ℕ → ℕ
  pub p_inbuf_head : ℕ
  pub p_inbuf_tail : ℕ
  pub inbuf_count : ℕ

-- What `sys_tty` works on.
pub record Terminals : Type 0 where
  pub tty_table : ℕ → Tty
  pub display : Display
  pub keyboard : Keyboard

unfoldable pub put_key : ℕ → Tty → Tty
put_key key t =
    if ltb t.inbuf_count tty_in_bytes
    then record t {
      in_buf = update t.in_buf t.p_inbuf_head (key % 2 ^ 16);
      p_inbuf_head = advance tty_in_bytes t.p_inbuf_head;
      inbuf_count = t.inbuf_count + 1;
    }
    else t

abbrev pub set_tty : ℕ → (Tty → Tty) → Terminals → Terminals
set_tty n f s = record s { tty_table = update s.tty_table n (f (s.tty_table n)) }

abbrev pub set_display : (Display → Display) → Terminals → Terminals
set_display f s = record s { display = f s.display }

-- What a key of terminal `n` does: characters, and ENTER and BACKSPACE, are put into its buffer;
-- shift with UP or DOWN scrolls, and alt with a function key selects a console.
unfoldable pub in_process : ℕ → ℕ → Terminals → Terminals
unfolding put_key scroll_screen select_console
in_process n key s =
    let raw = bit_and key mask_raw in
    let shift = has_bits key flag_lshift || has_bits key flag_rshift in
    let alt = has_bits key flag_lalt || has_bits key flag_ralt in
    if not (has_bits key flag_ext)
    then set_tty n (put_key key) s
    else if raw == up_key
    then (if shift then set_display (scroll_screen n up) s else s)
    else if raw == down_key
    then (if shift then set_display (scroll_screen n down) s else s)
    else if leb f1 raw && leb raw f12
    then (if alt then set_display (select_console (raw - f1)) s else s)
    else if raw == enter
    then set_tty n (put_key 10) s
    else if raw == backspace
    then set_tty n (put_key 8) s
    else s

unfoldable pub init_tty : ℕ → Terminals → Terminals
unfolding init_screen
init_tty n s =
    set_display (init_screen n)
      (set_tty n (λ t. record t { inbuf_count = 0; p_inbuf_head = 0; p_inbuf_tail = 0 }) s)

unfoldable pub tty_do_read : ℕ → Terminals → Option Terminals
unfolding keyboard_read in_process
tty_do_read n s =
    if is_current_console n s.display
    then elim (keyboard_read s.keyboard) [
      | none ↦ none
      | some r ↦ elim r.0 [
        | none ↦ some (record s { keyboard = r.1 })
        | some key ↦ some (in_process n key (record s { keyboard = r.1 }))
      ]
    ]
    else some s

-- The next character of the buffer is a `char`.
unfoldable pub tty_do_write : ℕ → Terminals → Option Terminals
unfolding out_char
tty_do_write n s =
    let t = s.tty_table n in
    if t.inbuf_count == 0
    then some s
    else elim (out_char n (t.in_buf t.p_inbuf_tail % 256) s.display) [
      | none ↦ none
      | some d ↦
          some
            (record (set_tty n
              (λ t. record t {
                p_inbuf_tail = advance tty_in_bytes t.p_inbuf_tail;
                inbuf_count = t.inbuf_count - 1;
              })
              s) { display = d })
    ]

-- `sys_tty` before its endless loop.
unfoldable pub start_terminals : Terminals → Terminals
unfolding init_keyboard init_tty select_console
start_terminals s =
    set_display (select_console 0)
      (init_tty 2 (init_tty 1 (init_tty 0 (record s { keyboard = init_keyboard s.keyboard }))))

-- The `for` of the endless loop, from terminal `n` on.
unfoldable pub serve_terminals : (left n : ℕ) → Terminals → Option Terminals
serve_terminals zero n s = some s
serve_terminals (suc left) n s = elim (tty_do_read n s) [
  | none ↦ none
  | some t ↦ elim (tty_do_write n t) [ none ↦ none | some u ↦ serve_terminals left (n + 1) u ]
]

-- The keyboard's interrupts that bring `codes`, the first first.
unfoldable pub interrupted : List ℕ → Keyboard → Keyboard
unfolding keyboard_handler
interrupted [] s = s
interrupted (c ∷ codes) s = interrupted codes (keyboard_handler c s)

-- A round of the endless loop for each entry of `arrivals`: the scan codes of the interrupts that come
-- before the terminals are served in that round.
unfoldable pub terminal_loop : (arrivals : List (List ℕ)) → Terminals → Option Terminals
unfolding interrupted
terminal_loop [] s = some s
terminal_loop (codes ∷ arrivals) s =
    let t = record s { keyboard = interrupted codes s.keyboard } in
    elim (serve_terminals nr_consoles 0 t) [ none ↦ none | some u ↦ terminal_loop arrivals u ]

-- `sys_tty` up to the end of a round.
unfoldable pub sys_tty : (arrivals : List (List ℕ)) → Terminals → Option Terminals
sys_tty arrivals s = terminal_loop arrivals (start_terminals s)
