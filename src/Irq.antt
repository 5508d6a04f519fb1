-- ===== src/Irq.antt =====
-- The interrupt controller and the table of interrupt handlers: src/kernel/i8259.c, `init_clock` of
-- src/kernel/clock.c, what `init_keyboard` (src/kernel/keyboard.c) and `init_hd` (src/kernel/hd.c) do
-- with them, and `disable_irq` and `enable_irq` of src/lib/kliba.asm. The bytes
-- written to ports are a log, the newest first; a mask register that is read gives the byte that was
-- last written to its port.
pub mod Lines
use canalotus.Common.{
  ◌==◌, ◌-◌, ◌^◌, bit_and, bit_or, ℕ, zero, suc, ◌+◌, ◌/◌, ◌%◌, Bool, true, false, if◌then◌else◌,
  ltb, update, List, [], ◌∷◌, ◌++◌,
}
use canalotus.Protect.{int_vector_irq0}
use canalotus.Disk.{hz}

pub data Handler : Type 0 where
  spurious_irq clock_handler keyboard_handler hd_handler : Handler

pub record Irqs : Type 0 where
  pub irq_table : ℕ → Handler
  pub ports : List (ℕ × ℕ)

abbrev pub nr_irq : ℕ
nr_irq = 16

abbrev pub int_m_ctl : ℕ
int_m_ctl = 0x20

abbrev pub int_m_ctlmask : ℕ
int_m_ctlmask = 0x21

abbrev pub int_s_ctl : ℕ
int_s_ctl = 0xA0

abbrev pub int_s_ctlmask : ℕ
int_s_ctlmask = 0xA1

abbrev pub int_vector_irq8 : ℕ
int_vector_irq8 = 0x28

abbrev pub clock_irq : ℕ
clock_irq = 0

abbrev pub keyboard_irq : ℕ
keyboard_irq = 1

abbrev pub cascade_irq : ℕ
cascade_irq = 2

abbrev pub at_wini_irq : ℕ
at_wini_irq = 14

abbrev pub out_byte : (port value : ℕ) → Irqs → Irqs
out_byte port value s = record s { ports = (port, value % 256) ∷ s.ports }

-- The loop of `init_8259A` over the table.
unfoldable pub all_spurious : (left i : ℕ) → (ℕ → Handler) → ℕ → Handler
all_spurious zero i t = t
all_spurious (suc left) i t = all_spurious left (i + 1) (update t i spurious_irq)

-- The byte last written to a port, 0 where there is none.
abbrev pub last_byte : (port : ℕ) → List (ℕ × ℕ) → ℕ
last_byte port [] = 0
last_byte port (w ∷ ws) = if w.0 == port then w.1 else last_byte port ws

-- the mask register of a line's controller, and the line's bit in it
abbrev pub mask_port : (irq : ℕ) → ℕ
mask_port irq = if ltb irq 8 then int_m_ctlmask else int_s_ctlmask

abbrev pub line_bit : (irq : ℕ) → ℕ
line_bit irq = 2 ^ (irq % 8)

unfoldable pub init_8259a : Irqs → Irqs
unfolding all_spurious
init_8259a s =
    let s1 = out_byte int_s_ctl 0x11 (out_byte int_m_ctl 0x11 s) in
    let s2 = out_byte int_s_ctlmask int_vector_irq8 (out_byte int_m_ctlmask int_vector_irq0 s1) in
    let s3 = out_byte int_s_ctlmask 0x02 (out_byte int_m_ctlmask 0x04 s2) in
    let s4 = out_byte int_s_ctlmask 0x01 (out_byte int_m_ctlmask 0x01 s3) in
    let s5 = out_byte int_s_ctlmask 0xFF (out_byte int_m_ctlmask 0xFF s4) in
    record s5 { irq_table = all_spurious nr_irq 0 s5.irq_table }

unfoldable pub disable_irq : ℕ → Irqs → Irqs
disable_irq irq s =
    let al = last_byte (mask_port irq) s.ports in
    if bit_and al (line_bit irq) == 0
    then out_byte (mask_port irq) (bit_or al (line_bit irq)) s
    else s

unfoldable pub enable_irq : ℕ → Irqs → Irqs
enable_irq irq s =
    out_byte (mask_port irq) (bit_and (last_byte (mask_port irq) s.ports) (0xFF - line_bit irq)) s

unfoldable pub put_irq_handler : ℕ → Handler → Irqs → Irqs
unfolding disable_irq
put_irq_handler irq h s =
    let s' = disable_irq irq s in record s' { irq_table = update s'.irq_table irq h }

abbrev pub timer0 : ℕ
timer0 = 0x40

abbrev pub timer_mode : ℕ
timer_mode = 0x43

abbrev pub rate_generator : ℕ
rate_generator = 0x34

abbrev pub timer_frequency : ℕ
timer_frequency = 1193182

unfoldable pub init_clock : Irqs → Irqs
unfolding put_irq_handler enable_irq
init_clock s =
    let s1 = out_byte timer_mode rate_generator s in
    let s2 = out_byte timer0 (timer_frequency / hz) s1 in
    let s3 = out_byte timer0 (timer_frequency / hz / 256) s2 in
    enable_irq clock_irq (put_irq_handler clock_irq clock_handler s3)

-- the end of `init_keyboard`
unfoldable pub enable_keyboard : Irqs → Irqs
unfolding put_irq_handler enable_irq
enable_keyboard s = enable_irq keyboard_irq (put_irq_handler keyboard_irq keyboard_handler s)

-- the end of `init_hd`
unfoldable pub enable_disk : Irqs → Irqs
unfolding put_irq_handler enable_irq
enable_disk s =
    enable_irq at_wini_irq (enable_irq cascade_irq (put_irq_handler at_wini_irq hd_handler s))
