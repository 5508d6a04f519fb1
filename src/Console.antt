-- ===== src/Console.antt =====
-- The consoles (src/kernel/console.c): `out_char`, `scroll_screen`, `select_console`, `init_screen`.
-- A console is an entry of `console_table`, named by its number; video memory is a function of the
-- byte's offset from `VMEM_BASE`. What `flush` tells the display controller is a log of register
-- writes, newest first. An address is a `u32`.
pub mod Bounds
use mathlib.Core.Option
use canalotus.Common.{
  ℕ, zero, suc, ◌+◌, ◌-◌, ◌*◌, ◌/◌, ◌%◌, ◌^◌, Option, none, some, Bool, true, false, not, ◌&&◌,
  ◌||◌, ◌==◌, ltb, leb, if◌then◌else◌, update, List, [], ◌∷◌, ◌++◌, bit_and,
}

abbrev pub screen_width : ℕ
screen_width = 80

abbrev pub screen_size : ℕ
screen_size = 80 * 25

abbrev pub nr_consoles : ℕ
nr_consoles = 3

abbrev pub vmem_size : ℕ
vmem_size = 0x8000

-- WHITE | BRIGHT
abbrev pub default_char_color : ℕ
default_char_color = 0x0f

pub record Console : Type 0 where
  pub current_start_addr : ℕ
  pub original_addr : ℕ
  pub vmem_limit : ℕ
  pub cursor : ℕ

pub record Display : Type 0 where
  pub console_table : ℕ → Console
  pub nr_current_console : ℕ
  pub disp_pos : ℕ
  pub vmem : ℕ → ℕ
  pub ports : List (ℕ × ℕ)

abbrev pub u32 : ℕ → ℕ
u32 n = n % 2 ^ 32

abbrev pub crtc_addr_reg : ℕ
crtc_addr_reg = 0x3D4

abbrev pub crtc_data_reg : ℕ
crtc_data_reg = 0x3D5

-- `out_byte` to the controller's index and data registers
unfoldable pub set_register : (high low value : ℕ) → Display → Display
set_register high low value s = record s {
  ports =
      (crtc_data_reg, value % 256)
      ∷ (crtc_addr_reg, low)
      ∷ (crtc_data_reg, value / 256 % 256)
      ∷ (crtc_addr_reg, high)
      ∷ s.ports;
}

unfoldable pub set_cursor : ℕ → Display → Display
unfolding set_register
set_cursor p s = set_register 0xE 0xF p s

unfoldable pub set_video_start_addr : ℕ → Display → Display
unfolding set_register
set_video_start_addr addr s = set_register 0xC 0xD addr s

abbrev pub is_current_console : ℕ → Display → Bool
is_current_console c s = c == s.nr_current_console

unfoldable pub flush : ℕ → Display → Display
flush c s =
    let con = s.console_table c in
    if is_current_console c s
    then set_video_start_addr con.current_start_addr (set_cursor con.cursor s)
    else s

abbrev pub set_console : ℕ → (Console → Console) → Display → Display
set_console c f s = record s { console_table = update s.console_table c (f (s.console_table c)) }

pub data Direction : Type 0 where
  up down : Direction

-- `scroll_screen` on the console's fields.
unfoldable pub scrolled : Direction → Console → Console
scrolled up c =
    if ltb c.original_addr c.current_start_addr
    then record c { current_start_addr = u32 (c.current_start_addr + 2 ^ 32 - screen_width) }
    else c
scrolled down c =
    if ltb (u32 (c.current_start_addr + screen_size)) (u32 (c.original_addr + c.vmem_limit))
    then record c { current_start_addr = u32 (c.current_start_addr + screen_width) }
    else c

unfoldable pub scroll_screen : ℕ → Direction → Display → Display
scroll_screen c d s = flush c (set_console c (scrolled d) s)

-- The `switch` of `out_char` on the console's fields.
unfoldable pub advanced : ℕ → Console → Console
advanced ch c =
    if ch == 10
    then (if ltb c.cursor (u32 (u32 (c.original_addr + c.vmem_limit) + 2 ^ 32 - screen_width))
        then record c {
          cursor = u32 (
              c.original_addr
              + u32
                  (screen_width * (u32 (c.cursor + 2 ^ 32 - c.original_addr) / screen_width + 1)));
        }
        else c)
    else if ch == 8
    then (if ltb c.original_addr c.cursor
        then record c { cursor = u32 (c.cursor + 2 ^ 32 - 1) }
        else c)
    else (if ltb c.cursor (u32 (u32 (c.original_addr + c.vmem_limit) + 2 ^ 32 - 1))
        then record c { cursor = u32 (c.cursor + 1) }
        else c)

-- The writes of `out_char` to video memory: a character or a blank, with its colour.
unfoldable pub drawn : ℕ → Console → (ℕ → ℕ) → ℕ → ℕ
drawn ch c vmem =
    let at = c.cursor * 2 in
    if ch == 10
    then vmem
    else if ch == 8
    then (if ltb c.original_addr c.cursor
        then update (update vmem (at - 2) b' ') (at - 1) default_char_color
        else vmem)
    else (if ltb c.cursor (u32 (u32 (c.original_addr + c.vmem_limit) + 2 ^ 32 - 1))
        then update (update vmem at ch) (at + 1) default_char_color
        else vmem)

-- `while (cursor >= current_start_addr + SCREEN_SIZE) scroll_screen(…, SCREEN_DOWN);`, where
-- `none` is a loop that runs on.
unfoldable pub scroll_to_cursor : ℕ → ℕ → Display → Option Display
scroll_to_cursor zero c s = none
scroll_to_cursor (suc fuel) c s =
    let con = s.console_table c in
    elim (leb (u32 (con.current_start_addr + screen_size)) con.cursor) [
      | true ↦ scroll_to_cursor fuel c (scroll_screen c down s)
      | false ↦ some s
    ]

unfoldable pub out_char : ℕ → ℕ → Display → Option Display
out_char c ch s =
    let con = s.console_table c in
    Option.map (flush c) (
      scroll_to_cursor (suc con.vmem_limit) c
        (record (set_console c (advanced ch) s) { vmem = drawn ch con s.vmem }))

-- The console of terminal `n` gets its third of video memory; the first goes on where the kernel's
-- own output stopped.
unfoldable pub init_screen : ℕ → Display → Display
init_screen n s =
    let size = vmem_size / 2 / nr_consoles in
    let start = n * size in
    let con : Console = record {
      current_start_addr = start;
      original_addr = start;
      vmem_limit = size;
      cursor = if n == 0 then s.disp_pos / 2 else start;
    } in
    set_cursor con.cursor
      (record (set_console n (λ _. con) s) { disp_pos = if n == 0 then 0 else s.disp_pos })

unfoldable pub select_console : ℕ → Display → Display
select_console n s = if leb nr_consoles n then s else flush n (record s { nr_current_console = n })
