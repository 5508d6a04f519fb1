-- ===== src/Boot/Filled.antt =====
-- What the loop of `kernel_main` (src/kernel/main.c) leaves in the process table and in the registers.
use canalotus.Common.{
  ℕ, zero, suc, ◌+◌, ◌-◌, ◌*◌, ◌^◌, ◌<◌, ◌≡◌, refl, ◌∙◌, ap, inl, inr, false, ◌==◌, ltb, Bool-cases,
  ==_refl, ==_of_ne, update, arith,
}
use canalotus.State.{Descriptor}
use canalotus.State.{nr_sysu_procs}
use canalotus.Boot.{Start, stack_size, choose, filled, start_registers, fill_loop}

choose-stacksize : (code : ℕ → ℕ) (i : ℕ) → (choose code i).task.stacksize ≡ stack_size
choose-stacksize code i = elim (Bool-cases (ltb i nr_sysu_procs)) [
  | inl e ↦ rw e refl
  | inr e ↦ rw e refl
]

-- The entries below `i` are not touched by the rounds from `i` on.
fill_loop-below :
    (gdt : ℕ → Descriptor) (code : ℕ → ℕ) (left i stack ldt : ℕ) (s : Start) (j : ℕ)
    → j < i
    → ((fill_loop gdt code left i stack ldt s).kernel.proc_table j ≡ s.kernel.proc_table j)
      × ((fill_loop gdt code left i stack ldt s).regs j ≡ s.regs j)
unfolding fill_loop
fill_loop-below gdt code zero i stack ldt s j h = (refl, refl)
fill_loop-below gdt code (suc left) i stack ldt s j h =
    let c = choose code i in
    let t = s.kernel.proc_table in
    let s' : Start = record s {
      kernel = record s.kernel { proc_table = update t i (filled gdt c i ldt (t i)) };
      regs = update s.regs i (start_registers c stack);
    } in
    let (a, b) =
      fill_loop-below gdt code left (i + 1) (stack - c.task.stacksize) (ldt + 2 ^ 3) s' j
        (omega arith) in
    let ne : (j == i) ≡ false = ==_of_ne j i (omega arith) in (a ∙ (rw ne refl), b ∙ (rw ne refl))

-- The globals other than the table stay.
pub fill_loop-mem :
    (gdt : ℕ → Descriptor) (code : ℕ → ℕ) (left i stack ldt : ℕ) (s : Start)
    → (fill_loop gdt code left i stack ldt s).kernel.mem ≡ s.kernel.mem
unfolding fill_loop
fill_loop-mem gdt code zero i stack ldt s = refl
fill_loop-mem gdt code (suc left) i stack ldt s = fill_loop-mem gdt code left (i + 1) _ _ _

-- One round.
abbrev round : (ℕ → Descriptor) → (ℕ → ℕ) → (i stack ldt : ℕ) → Start → Start
round gdt code i stack ldt s = record s {
  kernel = record s.kernel {
    proc_table =
        update s.kernel.proc_table i (filled gdt (choose code i) i ldt (s.kernel.proc_table i));
  };
  regs = update s.regs i (start_registers (choose code i) stack);
}

round-regs :
    (gdt : ℕ → Descriptor) (code : ℕ → ℕ) (i stack ldt : ℕ) (s : Start) (j : ℕ)
    → j ≡ i
    → (round gdt code i stack ldt s).regs j ≡ start_registers (choose code j) stack
round-regs gdt code i stack ldt s j here = rw (here, ==_refl i) refl

plus_nothing : (n : ℕ) → n + 0 * 8 ≡ n
plus_nothing n = omega arith

-- Round `n` from `i` on fills entry `i + n`.
pub fill_loop-filled :
    (gdt : ℕ → Descriptor) (code : ℕ → ℕ) (left i stack ldt : ℕ) (s : Start) (n j : ℕ)
    → n < left
    → j ≡ i + n
    → ((fill_loop gdt code left i stack ldt s).kernel.proc_table j
        ≡ filled gdt (choose code j) j (ldt + n * 8) (s.kernel.proc_table j))
      × ((fill_loop gdt code left i stack ldt s).regs j
          ≡ start_registers (choose code j) (stack - n * stack_size))
unfolding fill_loop
fill_loop-filled gdt code zero i stack ldt s n j h e = absurd (omega arith)
fill_loop-filled gdt code (suc left) i stack ldt s zero j h e =
    let here : j ≡ i = omega arith in
    let (a, b) =
      fill_loop-below gdt code left (i + 1) (stack - (choose code i).task.stacksize) (ldt + 2 ^ 3)
        (round gdt code i stack ldt s) j (omega arith) in
    (
      a ∙ (rw (here, ==_refl i, plus_nothing ldt) refl),
      b
          ∙ round-regs gdt code i stack ldt s j here
          ∙ ap (start_registers (choose code j)) (omega arith),
    )
fill_loop-filled gdt code (suc left) i stack ldt s (suc n) j h e =
    let c = choose code i in
    let (a, b) =
      fill_loop-filled gdt code left (i + 1) (stack - c.task.stacksize) (ldt + 2 ^ 3)
        (round gdt code i stack ldt s) n j (omega arith) (omega arith) in
    let ne : (j == i) ≡ false = ==_of_ne j i (omega arith) in
    let stacks : stack - c.task.stacksize - n * stack_size ≡ stack - suc n * stack_size =
      rw (choose-stacksize code i) (omega arith) in
    let ldts : ldt + 2 ^ 3 + n * 8 ≡ ldt + suc n * 8 = omega arith in
    (a ∙ (rw (ne, ldts) refl), b ∙ (ap (start_registers (choose code j)) stacks))
