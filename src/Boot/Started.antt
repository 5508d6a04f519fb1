-- ===== src/Boot/Started.antt =====
-- What `kernel_main` (src/kernel/main.c) starts: every entry of the process table waits for nothing,
-- with a code segment, a stack and a priority of its own.
use canalotus.Common.{
  ℕ, ◌+◌, ◌-◌, ◌*◌, ◌%◌, ◌^◌, ◌≤◌, ◌<◌, ◌≡◌, refl, sym, ◌∙◌, ap, inl, Bool, true, false, ltb,
  if◌then◌else◌, none, List, [], ◌∷◌, arith,
}
use mathlib.Core.Path.{subst}
use canalotus.State.{Descriptor, Process, Table, Kernel, nr_procs, is_idle}
use canalotus.State.{nr_sysu_procs}
use canalotus.Protect.{seg2phys, selector_kernel_ds, init_descriptors}
use canalotus.Protect.Tables.{init_descriptors_lem}
use canalotus.Ipc.{ldt_seg_linear, index_ldt_rw}
use canalotus.Ipc.Walk.{is_sending, end}
use canalotus.Ipc.Valid.{IsValid}
use canalotus.System.{IsRunning}
use canalotus.System.Steps.{Reach, Reach-IsRunning}
use canalotus.Boot.{
  Registers, Start, Choice, stack_size, stack_size_total, choose, filled, start_registers,
  kernel_main,
}
use canalotus.Boot.Filled.{fill_loop-filled}

-- The entry that `kernel_main` leaves at `p`.
started :
    (gdt : ℕ → Descriptor) (code : ℕ → ℕ) (task_stack : ℕ) (s : Start) (p : ℕ)
    → p < nr_procs
    → ((kernel_main gdt code task_stack s).kernel.proc_table p
        ≡ filled gdt (choose code p) p (0x28 + p * 8) (s.kernel.proc_table p))
      × ((kernel_main gdt code task_stack s).regs p
          ≡ start_registers (choose code p) (task_stack + stack_size_total - p * stack_size))
unfolding kernel_main
started gdt code task_stack s p h =
    fill_loop-filled gdt code nr_procs 0 (task_stack + stack_size_total) 0x28 s p p h (omega arith)

filled-flat :
    (gdt : ℕ → Descriptor) (c : Choice) (i sel : ℕ) (p : Process)
    → ldt_seg_linear (filled gdt c i sel p) index_ldt_rw ≡ seg2phys gdt selector_kernel_ds
unfolding filled ldt_seg_linear seg2phys
filled-flat gdt c i sel p = refl

-- What message passing sees of an entry that is filled.
record IsFresh (p : Process) : Type 0 where
  idle : is_idle p ≡ true
  not_sending : is_sending p ≡ false
  message : p.p_msg ≡ 0
  queue : p.q_sending ≡ none

filled-IsFresh :
    (gdt : ℕ → Descriptor) (c : Choice) (i sel : ℕ) (p : Process) → IsFresh (filled gdt c i sel p)
unfolding filled
filled-IsFresh gdt c i sel p = record {
  idle = refl;
  not_sending = refl;
  message = refl;
  queue = refl;
}

fresh-IsValid :
    (t : Table)
    → ((p : ℕ) → p < nr_procs → IsFresh (t p))
    → ((p : ℕ) → p < nr_procs → ldt_seg_linear (t p) index_ldt_rw ≡ 0)
    → IsValid t (λ _. [])
fresh-IsValid t fresh flat = record {
  flat = flat;
  small = λ p h. rw (fresh p h).message (omega arith);
  mode = λ p h. inl (fresh p h).idle;
  chain = λ d h. (fresh d h).queue;
  distinct = λ d h. tt;
  queued = λ d p h e. absurd (ground (arith, e));
  sender = λ d p hd hp e. let f = (fresh p hp).idle in ground arith;
  acyclic = λ p h. (p ∷ [], end (fresh p h).not_sending);
}

module _ (gdt : ℕ → Descriptor) (code : ℕ → ℕ) (task_stack : ℕ) (s : Start) where
  fresh : (p : ℕ) → p < nr_procs → IsFresh ((kernel_main gdt code task_stack s).kernel.proc_table p)
  fresh p h =
      subst IsFresh (sym (started gdt code task_stack s p h).0)
        (filled-IsFresh gdt (choose code p) p (0x28 + p * 8) (s.kernel.proc_table p))

  flat :
      seg2phys gdt selector_kernel_ds ≡ 0
      → (p : ℕ) → p < nr_procs
      → ldt_seg_linear ((kernel_main gdt code task_stack s).kernel.proc_table p) index_ldt_rw ≡ 0
  flat zero_ p h =
      ap (λ q. ldt_seg_linear q index_ldt_rw) (started gdt code task_stack s p h).0
      ∙ filled-flat gdt (choose code p) p (0x28 + p * 8) (s.kernel.proc_table p)
      ∙ zero_

  pub kernel_main-IsRunning :
      seg2phys gdt selector_kernel_ds ≡ 0
      → IsRunning (kernel_main gdt code task_stack s).kernel (λ _. [])
  unfolding kernel_main
  kernel_main-IsRunning zero_ = record {
    valid = fresh-IsValid (kernel_main gdt code task_stack s).kernel.proc_table fresh (flat zero_);
    in_table = omega arith;
    idle = (fresh 0 (omega arith)).idle;
    outer = refl;
  }

-- From the state that `kernel_main` sets up, whatever the memory held before, with a kernel data
-- segment that starts at 0: every history of writes, system calls, ticks and interrupts keeps the
-- kernel's invariant for some queues of senders.
pub kernel_main-Reach :
    (gdt : ℕ → Descriptor) (code : ℕ → ℕ) (task_stack : ℕ) (s : Start) (k' : Kernel)
    → seg2phys gdt selector_kernel_ds ≡ 0
    → Reach (kernel_main gdt code task_stack s).kernel k'
    → (qs : ℕ → List ℕ) × IsRunning k' qs
kernel_main-Reach gdt code task_stack s k' zero_ r =
    Reach-IsRunning (λ _. []) (kernel_main-IsRunning gdt code task_stack s zero_) r

-- The ring that process `p` runs in.
abbrev pub ring : ℕ → ℕ
ring p = if ltb p nr_sysu_procs then 1 else 3

-- How process `p` starts.
pub record StartsIn (code : ℕ → ℕ) (task_stack p : ℕ) (r : Registers) (q : Process) : Type 0 where
  pub entry_point : r.eip ≡ code p
  -- the stacks lie one below the other from the array's end on, the last one inside it too
  pub stack : r.esp + p * stack_size ≡ task_stack + stack_size_total
  pub room : task_stack + stack_size ≤ r.esp
  -- both selectors point into the process's own table, with its ring as requested level
  pub code_selector : r.cs ≡ 4 + ring p
  pub data_selector : r.ss ≡ 12 + ring p
  -- the segments of that table have the same level
  pub code_level : (q.ldts 0).attr1 ≡ 0x98 + 0x20 * ring p
  pub data_level : (q.ldts 1).attr1 ≡ 0x92 + 0x20 * ring p
  pub own_table : q.ldt_sel ≡ 0x28 + 8 * p
  pub own_pid : q.pid ≡ p
  -- interrupts are on; a system process may also use ports
  pub flags : r.eflags ≡ (if ltb p nr_sysu_procs then 0x1202 else 0x202)
  pub time : q.ticks ≡ q.priority

start-StartsIn :
    (gdt : ℕ → Descriptor) (code : ℕ → ℕ) (task_stack p : ℕ) (q : Process) (b : Bool)
    → p < nr_procs
    → ltb p nr_sysu_procs ≡ b
    → StartsIn code task_stack p
        (start_registers (choose code p) (task_stack + stack_size_total - p * stack_size))
        (filled gdt (choose code p) p (0x28 + p * 8) q)
unfolding filled start_registers
start-StartsIn gdt code task_stack p q true h e = record {
  entry_point = rw e refl;
  stack = omega arith;
  room = omega arith;
  code_selector = rw e refl;
  data_selector = rw e refl;
  code_level = rw e refl;
  data_level = rw e refl;
  own_table = omega arith;
  own_pid = refl;
  flags = rw e refl;
  time = refl;
}
start-StartsIn gdt code task_stack p q false h e = record {
  entry_point = rw e (ap code (ground arith));
  stack = omega arith;
  room = omega arith;
  code_selector = rw e refl;
  data_selector = rw e refl;
  code_level = rw e refl;
  data_level = rw e refl;
  own_table = omega arith;
  own_pid = refl;
  flags = rw e refl;
  time = refl;
}

-- Every process of the table starts at its own function, in the ring of its kind, with interrupts
-- on, segments of its own table, and a stack of its own inside the array.
pub kernel_main-StartsIn :
    (gdt : ℕ → Descriptor) (code : ℕ → ℕ) (task_stack : ℕ) (s : Start) (p : ℕ)
    → p < nr_procs
    → let s' = kernel_main gdt code task_stack s in
      StartsIn code task_stack p (s'.regs p) (s'.kernel.proc_table p)
kernel_main-StartsIn gdt code task_stack s p h =
    let (a, b) = started gdt code task_stack s p h in
    let own : StartsIn code task_stack p
        (start_registers (choose code p) (task_stack + stack_size_total - p * stack_size))
        (filled gdt (choose code p) p (0x28 + p * 8) (s.kernel.proc_table p)) =
      start-StartsIn gdt code task_stack p (s.kernel.proc_table p) (ltb p nr_sysu_procs) h refl in
    rw (a, b) own

-- After `init_prot` and `kernel_main` the selector in each process's entry names a descriptor that
-- starts at that process's own table of segments, and the data segment of that table starts where
-- the kernel's data segment does.
pub kernel_main-init_descriptors :
    (tss : ℕ) (ldts : ℕ → ℕ) (gdt : ℕ → Descriptor) (code : ℕ → ℕ) (task_stack : ℕ) (s : Start)
    (p : ℕ)
    → p < nr_procs
    → let gdt' = init_descriptors tss ldts gdt in
      let q = (kernel_main gdt' code task_stack s).kernel.proc_table p in
      (seg2phys gdt' q.ldt_sel ≡ (seg2phys gdt selector_kernel_ds + ldts p) % 2 ^ 32)
      × (ldt_seg_linear q index_ldt_rw ≡ seg2phys gdt selector_kernel_ds)
unfolding filled
kernel_main-init_descriptors tss ldts gdt code task_stack s p h =
    let gdt' = init_descriptors tss ldts gdt in
    let (same, task, own) = init_descriptors_lem tss ldts gdt in
    let (at, regs) = started gdt' code task_stack s p h in
    (
      ap (λ q. seg2phys gdt' q.ldt_sel) at ∙ own p h,
      ap (λ q. ldt_seg_linear q index_ldt_rw) at
          ∙ filled-flat gdt' (choose code p) p (0x28 + p * 8) (s.kernel.proc_table p)
          ∙ same,
    )
