-- ===== src/Calls/Interrupts/Waiting.antt =====
-- The two orders in which the drive's interrupt and the driver's `interrupt_wait` can come
-- (src/kernel/hd.c).
use canalotus.Common.{
  ℕ, ◌^◌, ◌<◌, ◌≡◌, refl, sym, ap, ◌∙◌, ◌≢◌, inl, true, false, ◌==◌, ==_refl, ==_of_ne, List, arith,
}
use mathlib.Core.Path.{subst}
use canalotus.State.{Kernel, ok, nr_procs, interrupt, is_idle}
use canalotus.Ipc.{reset_msg}
use canalotus.Ipc.Interrupt.Laws.{rouse, remember, informs}
use canalotus.Ipc.Receive.Wait.{int_msg, told, msg_receive_pending, msg_receive_blocks}
use canalotus.Ipc.Receive.{msg_receive}
use canalotus.Ipc.Syscall.{receive, syscall_sendrec}
use canalotus.Ipc.Syscall.Laws.{signed, syscall_sendrec_lem}
use canalotus.Schedule.Choice.{CanRun, Scheduled-same}
use canalotus.System.{IsRunning, Blocked-IsRunning}
use canalotus.Calls.{Code, ◌>>=◌, steps}
use canalotus.Calls.Instructions.{steps-alters, steps-sendrec, steps-none}
use canalotus.Calls.Asking.{writing}
use canalotus.Calls.Ticks.{same_kernel}
use canalotus.Disk.Handler.{sysproc_hd, hd_handler, handled}
use canalotus.Calls.Interrupts.{interrupt_wait_code, Awaits, Quiet, Quiet-Awaits}

-- The handler finds the driver waiting.
hd_handler-wakes :
    (k : Kernel) (qs : ℕ → List ℕ) (msg status : ℕ)
    → IsRunning k qs
    → Awaits k sysproc_hd msg
    → (hd_handler status k ≡ ok status (rouse k sysproc_hd))
      × IsRunning (rouse k sysproc_hd) qs
      × (is_idle ((rouse k sysproc_hd).proc_table sysproc_hd) ≡ true)
hd_handler-wakes k qs msg status run a =
    let (e, v) =
      informs k qs sysproc_hd true run.valid (omega arith) (ground (arith, a.waits, a.from)) in
    let away : k.p_proc_ready ≢ sysproc_hd = λ z. absurd (ground (arith, z, a.waits, run.idle)) in
    (
      handled k (rouse k sysproc_hd) status e,
      record {
        valid = v;
        in_table = run.in_table;
        idle = rw (==_of_ne k.p_proc_ready sysproc_hd away) run.idle;
        outer = run.outer;
      },
      ground (arith, a.waits),
    )

module _ (k : Kernel) (qs : ℕ → List ℕ) (msg : ℕ) (run : IsRunning k qs)
    (here : k.p_proc_ready ≡ sysproc_hd) (some_msg : 0 < msg) (small : msg < 2 ^ 32) where
  -- after the local message was cleared, and the kernel has signed it
  abbrev cleared : Kernel
  cleared = writing k msg reset_msg

  abbrev called : Kernel
  called = signed cleared sysproc_hd msg

  hd_idle : is_idle (k.proc_table sysproc_hd) ≡ true
  hd_idle = subst (λ x. is_idle (k.proc_table x) ≡ true) here run.idle

  receives :
      syscall_sendrec receive interrupt msg k.p_proc_ready cleared
      ≡ msg_receive sysproc_hd interrupt msg called
  receives =
      ap (λ p. syscall_sendrec receive interrupt msg p cleared) here
      ∙ syscall_sendrec_lem cleared qs receive interrupt sysproc_hd msg run.valid (omega arith)
          run.outer refl refl small

  waits_at :
      {A : Type 0} (next : ℕ → Code A) (k' : Kernel)
      → msg_receive sysproc_hd interrupt msg called ≡ ok 0 k'
      → steps 2 k.p_proc_ready (interrupt_wait_code msg >>= next) k ≡ ok (next 0) k'
  unfolding interrupt_wait_code ◌>>=◌
  waits_at next k' e =
      steps-alters 1 k msg _ _
      ∙ steps-sendrec 0 cleared receive interrupt msg 0 _ k' (receives ∙ e)
      ∙ steps-none _ _ _

  -- No interrupt has come yet.
  waits_for_it :
      {A : Type 0} (next : ℕ → Code A) (q : ℕ)
      → q < nr_procs
      → q ≢ sysproc_hd
      → CanRun (k.proc_table q)
      → ((k.proc_table sysproc_hd).has_int_msg == 0) ≡ true
      → (k' : Kernel) × (steps 2 k.p_proc_ready (interrupt_wait_code msg >>= next) k
          ≡ ok (next 0) k')
        × IsRunning k' qs
        × Awaits k' sysproc_hd msg
  waits_for_it next q hq off can quiet =
      let (k', e, v, b) =
        msg_receive_blocks called qs sysproc_hd msg q interrupt run.valid (omega arith) hd_idle
          (inl refl) refl some_msg hq off can small quiet in
      let same = Scheduled-same b.chosen sysproc_hd in
      (
        k',
        waits_at next k' e,
        Blocked-IsRunning called k' _ qs run.outer v b,
        record {
          waits = rw same (ground (arith, hd_idle, some_msg));
          from = rw same refl;
          address = rw same refl;
        },
      )

-- Let the disk driver run, another process be able to, and no interrupt be pending for the driver.
-- It makes the instructions of `interrupt_wait`. Then follow writes, system calls, ticks and
-- interrupts, any number of them, of which none is told to the driver, and then `hd_handler`. That
-- comes back with the status that it read, the kernel's invariant holds, the same process runs on,
-- and the driver is ready and has an interrupt's message. The message's address is not 0 and has 32
-- bits.
pub interrupt_wait-wakes :
    (k k1 k2 : Kernel) (qs : ℕ → List ℕ) (msg q status : ℕ) {A : Type 0} (next : ℕ → Code A)
    → IsRunning k qs
    → k.p_proc_ready ≡ sysproc_hd
    → 0 < msg
    → msg < 2 ^ 32
    → q < nr_procs
    → q ≢ sysproc_hd
    → CanRun (k.proc_table q)
    → ((k.proc_table sysproc_hd).has_int_msg == 0) ≡ true
    → steps 2 k.p_proc_ready (interrupt_wait_code msg >>= next) k ≡ ok (next 0) k1
    → Quiet sysproc_hd k1 k2
    → (k3 : Kernel) × (hd_handler status k2 ≡ ok status k3)
      × ((qs' : ℕ → List ℕ) × IsRunning k3 qs')
      × (k3.p_proc_ready ≡ k2.p_proc_ready)
      × (is_idle (k3.proc_table sysproc_hd) ≡ true)
      × ((k3.mem msg).source ≡ interrupt)
interrupt_wait-wakes k k1 k2 qs msg q status next run here some_msg small hq off can quiet waited
      m =
    let (k', e, run', a) = waits_for_it k qs msg run here some_msg small next q hq off can quiet in
    let same : k' ≡ k1 = same_kernel _ _ _ k' k1 e waited in
    let ((qs2, run2), a2) =
      Quiet-Awaits qs sysproc_hd msg (subst (λ x. IsRunning x qs) same run')
        (subst (λ x. Awaits x sysproc_hd msg) same a) m in
    let (h, run3, idle) = hd_handler-wakes k2 qs2 msg status run2 a2 in
    (rouse k2 sysproc_hd, h, (qs2, run3), refl, idle, rw (a2.address, ==_refl msg) refl)

-- Let the disk driver run. `hd_handler`, coming before the driver waits, comes back with the status
-- that it read. Then the driver's two instructions of `interrupt_wait` do not wait: it runs on with
-- what follows and has the interrupt's message, no interrupt is pending for it any more, and the
-- kernel's invariant holds with the same queues. The message's address is not 0 and has 32 bits.
pub interrupt_wait-told :
    (k : Kernel) (qs : ℕ → List ℕ) (msg status : ℕ) {A : Type 0} (next : ℕ → Code A)
    → IsRunning k qs
    → k.p_proc_ready ≡ sysproc_hd
    → 0 < msg
    → msg < 2 ^ 32
    → (k1 k2 : Kernel) × (hd_handler status k ≡ ok status k1)
      × (steps 2 sysproc_hd (interrupt_wait_code msg >>= next) k1 ≡ ok (next 0) k2)
      × IsRunning k2 qs
      × (k2.p_proc_ready ≡ sysproc_hd)
      × (k2.mem msg ≡ int_msg)
      × ((k2.proc_table sysproc_hd).has_int_msg ≡ 0)
interrupt_wait-told k qs msg status next run here some_msg small =
    let k1 : Kernel = remember k sysproc_hd in
    let idle : is_idle (k.proc_table sysproc_hd) ≡ true =
      subst (λ x. is_idle (k.proc_table x) ≡ true) here run.idle in
    let (e, v) = informs k qs sysproc_hd false run.valid (omega arith) (ground (arith, idle)) in
    let run1 : IsRunning k1 qs = record {
      valid = v;
      in_table = run.in_table;
      idle = subst (λ x. is_idle (k1.proc_table x) ≡ true) (sym here) idle;
      outer = run.outer;
    } in
    let (takes, v2) =
      msg_receive_pending (called k1 qs msg run1 here some_msg small) qs sysproc_hd msg interrupt v
        (omega arith) idle refl some_msg small in
    let k2 : Kernel = told (called k1 qs msg run1 here some_msg small) sysproc_hd msg in
    (
      k1,
      k2,
      handled k k1 status e,
      subst (λ x. steps 2 x (interrupt_wait_code msg >>= next) k1 ≡ ok (next 0) k2) here
          (waits_at k1 qs msg run1 here some_msg small next k2 takes),
      record {
        valid = v2;
        in_table = run.in_table;
        idle = subst (λ x. is_idle (k2.proc_table x) ≡ true) (sym here) idle;
        outer = run.outer;
      },
      here,
      rw (==_refl msg) refl,
      refl,
    )
