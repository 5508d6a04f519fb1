-- ===== src/Schedule.antt =====
-- `schedule` (src/kernel/proc.c). The loops over `proc_table` count the entries left; the outer
-- `while` runs on fuel, and two rounds are enough (`Schedule.Choice`).
pub mod Scan
pub mod Choice
use canalotus.Common.{
  ℕ, zero, suc, ◌+◌, Bool, ◌&&◌, Option, none, some, ◌==◌, if◌then◌else◌, update, ℤ, pos, eq_ℤ,
  ltb_ℤ,
}
use canalotus.State.{Process, Table, nr_procs, Kernel, ok, stopped, looping, M}

-- `p->p_flags == 0`
abbrev pub is_ready : Process → Bool
is_ready p = p.p_flags == 0

-- both tests of the first inner loop
abbrev pub is_better : ℤ → Process → Bool
is_better greatest_ticks p = is_ready p && ltb_ℤ greatest_ticks p.ticks

-- The first inner loop, from entry `p`: the greatest ticks of a ready process, and `p_proc_ready`.
unfoldable pub pick : Table → (left p : ℕ) → ℤ → ℕ → ℤ × ℕ
pick t zero p greatest_ticks ready = (greatest_ticks, ready)
pick t (suc left) p greatest_ticks ready =
    let better : Bool = is_better greatest_ticks (t p) in
    pick t left (p + 1) (if better then (t p).ticks else greatest_ticks)
      (if better then p else ready)

-- `if (p->p_flags == 0) p->ticks = p->priority;`
abbrev pub refill_one : Process → Process
refill_one p = if is_ready p then record p { ticks = p.priority } else p

-- The second inner loop.
unfoldable pub refill : (left p : ℕ) → Table → Table
refill zero p t = t
refill (suc left) p t = refill left (p + 1) (update t p (refill_one (t p)))

unfoldable pub schedule_loop : ℕ → Table → ℕ → Option (Table × ℕ)
schedule_loop zero t ready = none
schedule_loop (suc fuel) t ready =
    let (greatest_ticks, ready') = pick t nr_procs 0 (pos 0) ready in
    let rest = schedule_loop fuel (refill nr_procs 0 t) ready' in
    if eq_ℤ greatest_ticks (pos 0) then rest else some (t, ready')

unfoldable pub schedule : M (Unit {0})
schedule k = elim (schedule_loop 2 k.proc_table k.p_proc_ready) [
  | none ↦ stopped looping
  | some (t, ready) ↦ ok tt (record k { proc_table = t; p_proc_ready = ready })
]
