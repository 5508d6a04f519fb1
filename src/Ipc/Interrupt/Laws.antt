-- ===== src/Ipc/Interrupt/Laws.antt =====
-- What the interrupt handlers do to the processes.
use canalotus.Common.{
  ℕ, Bool, ◌<◌, ◌≡◌, refl, inl, inr, true, false, not, ◌||◌, ◌==◌, if◌then◌else◌, Bool-cases,
  ==_refl, update, pos, ltb_ℤ, inc_int, dec_int, List, arith,
}
use mathlib.Core.Path.{subst}
use canalotus.State.{
  Process, Table, Kernel, ok, ◌>>=◌, ◌>>◌, nr_procs, receiving, interrupt, hard_int, no_proc,
  is_idle,
}
use canalotus.Ipc.{unblock}
use canalotus.Ipc.Valid.{IsValid, Mode, is_receiving}
use canalotus.Schedule.Choice.{CanRun, Scheduled, schedule_lem}
use canalotus.Ipc.Interrupt.{awaits_interrupt, wake_by_interrupt, inform_int, clock_handler}
use canalotus.Ipc.Change.{Alike, IsValid-update}
use canalotus.Ipc.Send.HandOver.{unblock-ok}

-- a process that was told of an interrupt
abbrev pub roused : Process → Process
roused p = record p { p_msg = 0; has_int_msg = 0; p_flags = 0; p_recvfrom = no_proc }

-- the kernel after `inform_int` found the process waiting
abbrev pub rouse : Kernel → ℕ → Kernel
rouse k p = record k {
  proc_table = update k.proc_table p (roused (k.proc_table p));
  mem =
      update k.mem (k.proc_table p).p_msg
        (record (k.mem (k.proc_table p).p_msg) { source = interrupt; msg_type = hard_int });
}

-- the kernel after `inform_int` found the process busy
abbrev pub remember : Kernel → ℕ → Kernel
remember k p = record k {
  proc_table = update k.proc_table p (record (k.proc_table p) { has_int_msg = 1 });
}

waiting_of_flag : (p : Process) → Mode p → awaits_interrupt p ≡ true → is_receiving p ≡ true
waiting_of_flag p m h = ground (arith, m)

wake_by_interrupt-ok :
    (k : Kernel) (p : ℕ)
    → is_receiving (k.proc_table p) ≡ true
    → wake_by_interrupt p k ≡ ok tt (rouse k p)
unfolding wake_by_interrupt
wake_by_interrupt-ok k p rec =
    let flags : (k.proc_table p).p_flags ≡ receiving = ground arith in
    let free : unblock p (rouse k p) ≡ ok tt (rouse k p) =
      unblock-ok p (rouse k p) (ground arith) in
    let idle : is_idle ((rouse k p).proc_table p) ≡ true = ground arith in
    rw flags (rw (free, ◌>>=◌, ◌>>◌) (rw idle))

roused-Alike : (p : Process) → is_receiving p ≡ true → Alike p (roused p)
roused-Alike p h = record {
  segments = refl;
  first = refl;
  next = refl;
  flag = ground arith;
  target = refl;
  sends = λ e. ground arith;
}

roused-Mode : (p : Process) → is_receiving p ≡ true → Mode (roused p)
roused-Mode p h = inl (ground arith)

pub noted_Alike : (p : Process) → Alike p (record p { has_int_msg = 1 })
noted_Alike p = record {
  segments = refl;
  first = refl;
  next = refl;
  flag = refl;
  target = refl;
  sends = λ e. refl;
}

-- Under the invariant `inform_int` fails no assertion: a process that waits for an interrupt or
-- for anything gets its message and is ready, for any other the interrupt is pending, nothing else
-- changes, and the invariant is kept with the same queues.
pub inform_int_lem :
    (k : Kernel) (qs : ℕ → List ℕ) (p : ℕ)
    → IsValid k.proc_table qs
    → p < nr_procs
    → let k' = if awaits_interrupt (k.proc_table p) then rouse k p else remember k p in
      (inform_int p k ≡ ok tt k') × IsValid k'.proc_table qs
unfolding inform_int
inform_int_lem k qs p v h = elim (Bool-cases (awaits_interrupt (k.proc_table p))) [
  | inl e ↦
      let rec = waiting_of_flag (k.proc_table p) (v.mode p h) e in
      rw e (
        wake_by_interrupt-ok k p rec,
        IsValid-update v (roused-Alike (k.proc_table p) rec) (omega arith)
            (roused-Mode (k.proc_table p) rec),
      )
  | inr e ↦ rw e (refl, IsValid-update v (noted_Alike (k.proc_table p)) (v.small p h) (v.mode p h))
]

-- The same, for an answer to whether the process waits.
pub informs :
    (k : Kernel) (qs : ℕ → List ℕ) (p : ℕ) (b : Bool)
    → IsValid k.proc_table qs
    → p < nr_procs
    → awaits_interrupt (k.proc_table p) ≡ b
    → let k' = if b then rouse k p else remember k p in
      (inform_int p k ≡ ok tt k') × IsValid k'.proc_table qs
informs k qs p b v h e =
    subst
      (λ b.
        let k' = if b then rouse k p else remember k p in
        (inform_int p k ≡ ok tt k') × IsValid k'.proc_table qs)
      e (inform_int_lem k qs p v h)

-- the running process after a tick
abbrev pub ticked : Process → Process
ticked p = record p { ticks = dec_int p.ticks }

-- the kernel after a tick, before the scheduler
abbrev pub tick : Kernel → Kernel
tick k = record k {
  ticks = inc_int k.ticks;
  proc_table = update k.proc_table k.p_proc_ready (ticked (k.proc_table k.p_proc_ready));
}

-- A tick keeps the running process while it has time, or where the kernel was interrupted.
pub clock_handler_stays :
    (k : Kernel)
    → (not (k.k_reenter == 0) || ltb_ℤ (pos 0) (dec_int (k.proc_table k.p_proc_ready).ticks)) ≡ true
    → clock_handler k ≡ ok tt (tick k)
unfolding clock_handler
clock_handler_stays k h = rw (==_refl k.p_proc_ready) (rw h)

-- A tick that uses up the running process's time, from outside the kernel, and with a process that
-- can run, counts the ticks and then chooses as `schedule` does.
pub clock_handler_switches :
    (k : Kernel) (q : ℕ)
    → (k.k_reenter == 0) ≡ true
    → ltb_ℤ (pos 0) (dec_int (k.proc_table k.p_proc_ready).ticks) ≡ false
    → q < nr_procs
    → CanRun ((tick k).proc_table q)
    → (t' : Table) × (r : ℕ) × (clock_handler k
        ≡ ok tt (record (tick k) { proc_table = t'; p_proc_ready = r }))
      × Scheduled (tick k).proc_table t' r
unfolding clock_handler
clock_handler_switches k q outer spent hq can =
    let (t', r, e, s) = schedule_lem (tick k) q hq can in
    (t', r, rw (==_refl k.p_proc_ready) (rw (outer, spent) e), s)
