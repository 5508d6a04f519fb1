-- ===== src/Print.antt =====
-- The kernel's output as text: `syscall_printx` (src/kernel/tty.c), which the call `printx` enters,
-- `printf` (src/lib/printf.c), `assertion_failure` (src/lib/misc.c) and `panic` (src/kernel/main.c).
-- Text is read from memory, a function from addresses to bytes. The writes of `out_char` to video
-- memory are those of the display, where no text is read from. Loops run on fuel.
pub mod Filling
pub mod Typing
pub mod Panic
use Prim.Native.String.{String}
use Prim.Native.Char.{code}
use canalotus.Common.{
  leb, length, ℕ, zero, suc, ◌+◌, ◌-◌, ◌%◌, ◌<◌, Bool, true, false, not, ◌&&◌, ◌||◌, Option, none,
  some, ◌==◌, ltb, if◌then◌else◌, update, ℤ, pos, negsuc, List, [], ◌∷◌, ◌++◌,
}
use canalotus.State.{Kernel, ok, stopped, nr_sysu_procs}
use canalotus.Ipc.{va2la}
use canalotus.Console.{Display, vmem_size, out_char}
use canalotus.Format.{vsprintf}

abbrev pub mag_ch_panic : ℕ
mag_ch_panic = 2

abbrev pub mag_ch_assert : ℕ
mag_ch_assert = 3

abbrev pub vmem_base : ℕ
vmem_base = 0xB8000

abbrev pub red : ℕ
red = 0x4

-- MAKE_COLOR(BRIGHT, BLACK)
abbrev pub blank_color : ℕ
blank_color = 0x8

abbrev pub Bytes : Type 0
Bytes = ℕ → ℕ

-- `((int)v - VMEM_BASE) % (SCREEN_WIDTH * 16)` is 0, on either side of the base
abbrev pub at_line_start : ℕ → Bool
at_line_start v = (if ltb v vmem_base then vmem_base - v else v - vmem_base) % 1280 == 0

-- Where the kernel's code begins in memory (src/Makefile), with its data and its stacks behind it.
abbrev pub kernel_begin : ℕ
kernel_begin = 0x30400

-- A call returns 0 with the display as it is, halts the processor with memory as it is, comes to
-- write over the kernel's own code, data and stacks with memory as it is before, fails an assertion,
-- or has run out of fuel.
pub data Ending : Type 0 where
  returned : Display → Ending
  halted overwrites : Bytes → Ending
  fails runs_on : Ending

-- The inner `while`, with `v` and the memory; it ends as well where the kernel begins.
unfoldable pub skip_line : ℕ → ℕ → Bytes → Option (ℕ × Bytes)
skip_line zero v m = none
skip_line (suc fuel) v m =
    let rest = skip_line fuel (v + 2) (update m (v + 1) blank_color) in
    if at_line_start v || leb kernel_begin v then some (v, m) else rest

-- The outer `while` of a panic, where `p` is the start of the text.
unfoldable pub fill_screen : ℕ → (p v q : ℕ) → Bytes → Ending
fill_screen zero p v q m = runs_on
fill_screen (suc fuel) p v q m =
    let m' = update (update m v (m q)) (v + 1) red in
    if not (ltb v (vmem_base + vmem_size))
    then halted m
    else if leb kernel_begin v
    then overwrites m
    else if m' (q + 1) == 0
    then elim (skip_line 1280 (v + 2) m') [
      | none ↦ runs_on
      | some (v', m'') ↦ fill_screen fuel p v' (p + 1) m''
    ]
    else fill_screen fuel p (v + 2) (q + 1) m'

-- The last `while`, on console `c`.
unfoldable pub print_loop : ℕ → Bytes → (p c : ℕ) → Display → Option Display
print_loop zero m p c s = none
print_loop (suc fuel) m p c s =
    let rest = print_loop fuel m (p + 1) c in
    if m p == 0
    then some s
    else if (m p == mag_ch_panic) || (m p == mag_ch_assert)
    then rest s
    else elim (out_char c (m p) s) [ none ↦ none | some t ↦ rest t ]

-- a text and its final 0, put at an address
unfoldable pub put_text : List ℕ → ℕ → Bytes → Bytes
put_text [] a m = update m a 0
put_text (c ∷ cs) a m = put_text cs (a + 1) (update m a c)

abbrev pub codes : String → List ℕ
codes String.[] = []
codes (String.◌∷◌ c s) = code c ∷ codes s

-- `reenter_err` with its first character replaced
abbrev pub reenter_err : List ℕ
reenter_err = mag_ch_panic ∷ codes " k_reenter is incorrect for unknown reason"

-- The address that the text is read from, with the memory: the local array, at the address `err`,
-- is put there where it is read. `none` is a failed assertion. `k_reenter` is a `u32`.
unfoldable pub text_of : (s p_proc err : ℕ) → Kernel → Bytes → Option (ℕ × Bytes)
unfolding put_text
text_of s p_proc err k m =
    if k.k_reenter == 0
    then elim (va2la p_proc s k) [ ok la k' ↦ some (la, m) | stopped why ↦ none ]
    else if ltb 0 k.k_reenter
    then some (s, m)
    else some (err, put_text reenter_err err m)

-- the test for a text that halts the processor, by its first character
abbrev pub is_fatal : Kernel → ℕ → Bool
is_fatal k ch = (ch == mag_ch_panic) || ((ch == mag_ch_assert) && ltb k.p_proc_ready nr_sysu_procs)

unfoldable pub syscall_printx : ℕ → (s p_proc err : ℕ) → Kernel → Bytes → Display → Ending
syscall_printx fuel s p_proc err k m d = elim (text_of s p_proc err k m) [
  | none ↦ fails
  | some (p, m') ↦
      if is_fatal k (m' p)
      then fill_screen fuel p vmem_size (p + 1) m'
      else elim (print_loop fuel m' p (k.proc_table p_proc).nr_tty d) [
        | none ↦ runs_on
        | some d' ↦ returned d'
      ]
]

-- The bytes of the local array of `printf` and of `panic`; a text and its 0 that do not fit are
-- written over what stands behind it.
abbrev pub buf_size : ℕ
buf_size = 256

-- `printf`, whose buffer is at `buf`, as the running process calls it; `none` is a format that
-- `vsprintf` does not bound, or a text that does not fit.
unfoldable pub printf :
    ℕ
    → (buf err : ℕ) → (ℕ → List ℕ)
    → (fmt args : List ℕ) → Kernel
    → Bytes
    → Display
    → Option Ending
unfolding syscall_printx put_text
printf fuel buf err string_at fmt args k m d = elim (vsprintf string_at fmt args) [
  | none ↦ none
  | some out ↦
      if ltb (length out) buf_size
      then some (syscall_printx fuel buf k.p_proc_ready err k (put_text out buf m) d)
      else none
]

abbrev pub panic_format : List ℕ
panic_format = codes "%c panic!! %s"

-- `panic`: the arguments of its `printf` are a character and the address `text` of its own buffer,
-- where the text that `vsprintf` wrote there stands. Then comes an instruction that is not valid.
unfoldable pub panic :
    ℕ
    → (buf text err : ℕ) → (ℕ → List ℕ)
    → (fmt args : List ℕ) → Kernel
    → Bytes
    → Display
    → Option Ending
unfolding printf
panic fuel buf text err string_at fmt args k m d = elim (vsprintf string_at fmt args) [
  | none ↦ none
  | some out ↦
      if ltb (length out) buf_size
      then printf fuel buf err (update string_at text out) panic_format (mag_ch_panic ∷ text ∷ []) k
          m d
      else none
]

abbrev pub assertion_format : List ℕ
assertion_format = codes "%c  assert(%s) failed: file: %s, line: %d"

-- `assertion_failure` up to the call of `spin`, which prints and then loops for ever.
unfoldable pub assertion_failure :
    ℕ
    → (buf err : ℕ) → (ℕ → List ℕ)
    → (exp file line : ℕ) → Kernel
    → Bytes
    → Display
    → Option Ending
unfolding printf
assertion_failure fuel buf err string_at exp file line k m d =
    printf fuel buf err string_at assertion_format (mag_ch_assert ∷ exp ∷ file ∷ line ∷ []) k m d
