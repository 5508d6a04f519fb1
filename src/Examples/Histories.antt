-- ===== src/Examples/Histories.antt =====
-- The theorems on the start of the kernel and on its steps, applied.
use canalotus.Common.{[], some, ℕ, ◌+◌, ◌*◌, ◌%◌, ◌^◌, ◌≤◌, ◌≡◌, refl, pos, List, arith}
use canalotus.State.{Descriptor, Kernel, ok, nr_procs}
use canalotus.Protect.{Gate, Handlers, seg2phys, selector_kernel_ds, init_gates, init_descriptors}
use canalotus.Irq.{Irqs, spurious_irq, init_8259a}
use canalotus.Irq.Lines.{
  started, own_handler, vector_of, is_masked, stays_masked, started_lem, init_8259a-init_gates,
}
use canalotus.Protect.Fields.{OpensAt}
use canalotus.Protect.Gates.{Reaches, handler_of, level, init_gates_lem}
use canalotus.Ipc.{ldt_seg_linear, index_ldt_rw}
use canalotus.Ipc.Interrupt.Laws.{tick, clock_handler_stays}
use canalotus.Ipc.Syscall.{send, syscall_sendrec}
use canalotus.Boot.{Start, kernel_main}
use canalotus.Boot.Started.{
  StartsIn, kernel_main-Reach, kernel_main-StartsIn, kernel_main-init_descriptors,
}
use canalotus.System.{IsRunning, Ends, Resumes}
use canalotus.System.Call.{CallStops, syscall_sendrec-Ends}
use canalotus.System.Steps.{here, next, ticks, writes}
use canalotus.System.Fairness.{ticking, time_of_others, clock_handler-reaches}
use canalotus.Examples.{idle_table, idle_table-IsValid, kernel_of, no_queues}

abbrev flat_gdt : ℕ → Descriptor
flat_gdt _ = record {
  limit_low = 0xFFFF;
  base_low = 0;
  base_mid = 0;
  attr1 = 0x92;
  limit_high_attr2 = 0xCF;
  base_high = 0;
}

abbrev functions : ℕ → ℕ
functions i = 0x1000 + i * 0x100

abbrev power_on : Start
power_on = record {
  kernel = kernel_of idle_table;
  regs =
      λ _. record { cs = 0; ds = 0; es = 0; fs = 0; ss = 0; gs = 0; eip = 0; esp = 0; eflags = 0 };
}

abbrev first_kernel : Kernel
unfolding kernel_main
first_kernel = (kernel_main flat_gdt functions 0x100000 power_on).kernel

-- One tick of the clock, and a write.
abbrev second_kernel : Kernel
unfolding kernel_main
second_kernel = record (tick first_kernel) { mem = (tick first_kernel).mem }

kernel_main-Reach_example : (qs : ℕ → List ℕ) × IsRunning second_kernel qs
unfolding kernel_main seg2phys
kernel_main-Reach_example =
    kernel_main-Reach flat_gdt functions 0x100000 power_on second_kernel refl (
      next (next here (ticks (clock_handler_stays first_kernel refl)))
        (writes (tick first_kernel).mem))

idle_IsRunning : IsRunning (kernel_of idle_table) no_queues
idle_IsRunning = record {
  valid = idle_table-IsValid;
  in_table = omega arith;
  idle = refl;
  outer = refl;
}

syscall_sendrec-Ends_example :
    Ends
      (CallStops (kernel_of idle_table) send (pos 2))
      Resumes
      (syscall_sendrec send (pos 2) 100 0 (kernel_of idle_table))
syscall_sendrec-Ends_example =
    syscall_sendrec-Ends (kernel_of idle_table) no_queues send (pos 2) 100 idle_IsRunning
      (omega arith) (omega arith)

kernel_main-StartsIn_example :
    let s' = kernel_main flat_gdt functions 0x100000 power_on in
    StartsIn functions 0x100000 5 (s'.regs 5) (s'.kernel.proc_table 5)
kernel_main-StartsIn_example =
    kernel_main-StartsIn flat_gdt functions 0x100000 power_on 5 (omega arith)

kernel_main-init_descriptors_example :
    let gdt' = init_descriptors 0x5000 (λ p. 0x6000 + p * 0x80) flat_gdt in
    let q = (kernel_main gdt' functions 0x100000 power_on).kernel.proc_table 3 in
    (seg2phys gdt' q.ldt_sel ≡ (seg2phys flat_gdt selector_kernel_ds + 0x6180) % 2 ^ 32)
    × (ldt_seg_linear q index_ldt_rw ≡ seg2phys flat_gdt selector_kernel_ds)
kernel_main-init_descriptors_example =
    kernel_main-init_descriptors 0x5000 (λ p. 0x6000 + p * 0x80) flat_gdt functions 0x100000
      power_on 3 (omega arith)

abbrev handlers : Handlers
handlers = record {
  exception = λ v. 0x30000 + v * 0x10;
  hwint = λ i. 0x31000 + i * 0x10;
  syscall = 0x32000;
}

abbrev no_gates : ℕ → Gate
no_gates _ = record { offset_low = 0; selector = 0; dcount = 0; attr = 0; offset_high = 0 }

init_gates_lem_example :
    Reaches
      (handler_of handlers 0x21)
      (level 0x21)
      (no_gates 0x21)
      (init_gates handlers no_gates 0x21)
init_gates_lem_example = init_gates_lem handlers no_gates 0x21 (λ a e. ground (arith, e))

clock_handler-reaches_example :
    (n : ℕ) × (k' : Kernel) × (n ≤ time_of_others idle_table 3 nr_procs)
    × (ticking n (kernel_of idle_table) ≡ ok tt k')
    × (k'.p_proc_ready ≡ 3)
clock_handler-reaches_example = clock_handler-reaches (kernel_of idle_table) 3 (record {
  outer = refl;
  in_table = omega arith;
  ready = refl;
  time = refl;
  running = omega arith;
  running_time = refl;
})

abbrev silent : Irqs
silent = record { irq_table = λ _. spurious_irq; ports = [] }

started_lem_example :
    ((started silent).irq_table 14 ≡ own_handler 14)
    × (is_masked 14 (started silent).ports ≡ stays_masked 14)
started_lem_example = started_lem silent 14 (omega arith)

init_8259a-init_gates_example :
    (v : ℕ) × (vector_of 14 (init_8259a silent).ports ≡ some v)
    × OpensAt (handlers.hwint 14) 0 (init_gates handlers no_gates v)
init_8259a-init_gates_example =
    init_8259a-init_gates handlers no_gates silent 14 refl (omega arith) (omega arith)
