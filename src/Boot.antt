-- ===== src/Boot.antt =====
-- The start of the kernel (src/kernel/main.c, `kernel_main`; the tables of src/kernel/global.c).
-- Where the linker puts the processes' code and stacks is a parameter: `code i` is the function of
-- process `i`, and `task_stack` the array's address. `init_clock` and `init_keyboard` come after
-- what is modelled here, and `restart` starts process 0.
pub mod Filled
pub mod Started
use canalotus.Common.{
  ℕ, zero, suc, ◌+◌, ◌-◌, ◌*◌, ◌/◌, ◌%◌, ◌^◌, ◌≤◌, ◌<◌, ◌≡◌, refl, sym, ◌∙◌, ap, ◌≢◌, ◌↔◌, ◌⊎◌, inl,
  inr, Bool, true, false, not, ◌&&◌, ◌||◌, ◌==◌, ltb, leb, if◌then◌else◌, Bool-cases, Option-cases,
  eq_cases, ==_refl, ==_of_ne, ==→eq, lt→ltb, ltb→lt, update, ℤ, pos, negsuc, eq_ℤ, ltb_ℤ, eq_ℤ→eq,
  inc_int, dec_int, Option, none, some, List, [], ◌∷◌, ◌++◌, map, length, get_or, length-append,
  has, has-append, Distinct, AllBelow, Distinct-length, Distinct-append_one, without,
  without_of_not_has, bit_and, bit_or, arith,
}
use mathlib.Core.Path.{subst, fun_ext}
use canalotus.State.{
  nr_sysu_procs, Descriptor, Process, Message, Table, Kernel, Run, ok, stopped, Stop, assert_failed,
  panicked, out_of_table, looping, M, pure, stop, ◌>>=◌, ◌>>◌, assert, proc, set_proc, entry,
  globals, set_globals, nr_procs, sending, receiving, interrupt, hard_int, no_proc, any, has_flag,
  clear_flag, is_idle, is_sending_to, is_null, points_at,
}
use canalotus.Protect.{selector_kernel_ds}

-- `struct task` without its name
pub record Task : Type 0 where
  pub initial_eip : ℕ
  pub stacksize : ℕ

-- The registers of `struct stackframe` that are set.
pub record Registers : Type 0 where
  pub cs : ℕ
  pub ds : ℕ
  pub es : ℕ
  pub fs : ℕ
  pub ss : ℕ
  pub gs : ℕ
  pub eip : ℕ
  pub esp : ℕ
  pub eflags : ℕ

abbrev pub stack_size : ℕ
stack_size = 0x8000

-- STACK_SIZE_TOTAL
abbrev pub stack_size_total : ℕ
stack_size_total = stack_size * 7

abbrev pub sysu_proc_table : (ℕ → ℕ) → ℕ → Task
sysu_proc_table code i = record { initial_eip = code i; stacksize = stack_size }

abbrev pub user_proc_table : (ℕ → ℕ) → ℕ → Task
user_proc_table code i = record { initial_eip = code (nr_sysu_procs + i); stacksize = stack_size }

abbrev pub da_c : ℕ
da_c = 0x98

abbrev pub da_drw : ℕ
da_drw = 0x92

abbrev pub selector_kernel_gs : ℕ
selector_kernel_gs = 0x1B

-- a selector of the process's own table: `(index & SA_RPL_MASK & SA_TI_MASK) | SA_TIL | rpl`
abbrev pub local_selector : (index rpl : ℕ) → ℕ
local_selector index rpl = bit_or (bit_or (bit_and (bit_and index 0xFFFC) 0xFFFB) 4) rpl

-- What `kernel_main` sets up: the process table, the registers, and the globals.
pub record Start : Type 0 where
  pub kernel : Kernel
  pub regs : ℕ → Registers

-- The variables that the branches of the loop choose.
pub record Choice : Type 0 where
  pub task : Task
  pub privilege : ℕ
  pub rpl : ℕ
  pub eflags : ℕ
  pub prio : ℕ

abbrev pub choose : (ℕ → ℕ) → ℕ → Choice
choose code i =
    if ltb i nr_sysu_procs
    then record {
      task = sysu_proc_table code i;
      privilege = 1;
      rpl = 1;
      eflags = 0x1202;
      prio = 15;
    }
    else record {
      task = user_proc_table code (i - nr_sysu_procs);
      privilege = 3;
      rpl = 3;
      eflags = 0x202;
      prio = 5;
    }

-- What one round makes of an entry of `proc_table`.
unfoldable pub filled : (ℕ → Descriptor) → Choice → (i selector_ldt : ℕ) → Process → Process
filled gdt c i selector_ldt p = record p {
  pid = i;
  ldt_sel = selector_ldt;
  ldts =
      update
        (update p.ldts 0
          (record (gdt (0x08 / 2 ^ 3)) { attr1 = bit_or da_c (c.privilege * 2 ^ 5) }))
        1
        (record (gdt (selector_kernel_ds / 2 ^ 3)) { attr1 = bit_or da_drw (c.privilege * 2 ^ 5) });
  nr_tty = 0;
  p_flags = 0;
  p_msg = 0;
  p_recvfrom = no_proc;
  p_sendto = no_proc;
  has_int_msg = 0;
  q_sending = none;
  next_sending = none;
  ticks = pos c.prio;
  priority = pos c.prio;
}

unfoldable pub start_registers : Choice → (p_task_stack : ℕ) → Registers
start_registers c p_task_stack = record {
  cs = local_selector 0 c.rpl;
  ds = local_selector 8 c.rpl;
  es = local_selector 8 c.rpl;
  fs = local_selector 8 c.rpl;
  ss = local_selector 8 c.rpl;
  gs = bit_or (bit_and selector_kernel_gs 0xFFFC) c.rpl;
  eip = c.task.initial_eip;
  esp = p_task_stack;
  eflags = c.eflags;
}

-- The loop, from round `i` on.
unfoldable pub fill_loop :
    (ℕ → Descriptor) → (ℕ → ℕ) → (left i p_task_stack selector_ldt : ℕ) → Start → Start
unfolding filled start_registers
fill_loop gdt code zero i p_task_stack selector_ldt s = s
fill_loop gdt code (suc left) i p_task_stack selector_ldt s =
    let c = choose code i in
    let t = s.kernel.proc_table in
    fill_loop gdt code left (i + 1) (p_task_stack - c.task.stacksize) (selector_ldt + 2 ^ 3)
      (record s {
        kernel = record s.kernel { proc_table = update t i (filled gdt c i selector_ldt (t i)) };
        regs = update s.regs i (start_registers c p_task_stack);
      })

-- `kernel_main` up to the set-up of the clock.
unfoldable pub kernel_main : (ℕ → Descriptor) → (ℕ → ℕ) → (task_stack : ℕ) → Start → Start
unfolding fill_loop
kernel_main gdt code task_stack s =
    let s' = fill_loop gdt code nr_procs 0 (task_stack + stack_size_total) 0x28 s in
    record s' { kernel = record s'.kernel { k_reenter = 0; ticks = pos 0; p_proc_ready = 0 } }
