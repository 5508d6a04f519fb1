-- ===== src/Calls/Interrupts.antt =====
-- The disk driver's waits for the drive (src/kernel/hd.c, `interrupt_wait` and `hd_handler`): the
-- interrupt may come before the driver waits for it or after.
pub mod Waiting
use canalotus.Common.{
  Bool, ℕ, ◌^◌, ◌<◌, ◌≡◌, refl, sym, ap, ◌∙◌, ◌≢◌, inl, inr, true, false, not, ◌==◌, if◌then◌else◌,
  Bool-cases, eq_cases, ==_refl, ==_of_ne, pos, List, arith,
}
use mathlib.Core.Path.{subst}
use canalotus.State.{Kernel, Run, ok, nr_procs, interrupt, is_idle}
use canalotus.Ipc.{reset_msg}
use canalotus.Ipc.Valid.{IsValid, is_receiving}
use canalotus.Ipc.Interrupt.{awaits_interrupt, inform_int}
use canalotus.Ipc.Interrupt.Laws.{rouse, remember, inform_int_lem, informs}
use canalotus.Ipc.Receive.Wait.{
  int_msg, told, waiting_table, msg_receive_pending, msg_receive_blocks,
}
use canalotus.Ipc.Receive.{msg_receive}
use canalotus.Ipc.Send.Wait.{Blocked}
use canalotus.Ipc.Syscall.{receive, syscall_sendrec}
use canalotus.Ipc.Syscall.Laws.{signed, syscall_sendrec_lem}
use canalotus.Schedule.Choice.{CanRun, Scheduled-same}
use canalotus.System.{IsRunning, Ends, Returns, Blocked-IsRunning}
use canalotus.System.Effect.{Stays, Stays-refl}
use canalotus.System.Call.{CallStops, syscall_sendrec-Returns}
use canalotus.System.Steps.{
  Step, writes, calls, ticks, interrupts, TickOutcome, clock_handler-Returns, Step-IsRunning,
}
use canalotus.Calls.{Code, ◌>>=◌, steps, send_recv}
use canalotus.Calls.Instructions.{steps-alters, steps-sendrec, steps-none}
use canalotus.Calls.Asking.{writing, writing-IsRunning}
use canalotus.Calls.Ticks.{same_kernel}
use canalotus.Disk.Handler.{sysproc_hd, hd_handler, handled}

-- `interrupt_wait`; `msg` is the address of its local message.
unfoldable pub interrupt_wait_code : (msg : ℕ) → Code ℕ
unfolding send_recv
interrupt_wait_code msg = send_recv receive interrupt msg

-- Process `p` waits for an interrupt, with its message at `msg`.
pub record Awaits (k : Kernel) (p msg : ℕ) : Type 0 where
  pub waits : is_receiving (k.proc_table p) ≡ true
  pub from : (k.proc_table p).p_recvfrom ≡ interrupt
  pub address : (k.proc_table p).p_msg ≡ msg

-- A step that tells `p` of no interrupt.
abbrev pub Spares : (p : ℕ) {k k' : Kernel} → Step k k' → Type 0
Spares p (writes m) = Unit
Spares p (calls function peer msg some_msg small e) = Unit
Spares p (ticks e) = Unit
Spares p (interrupts q h e) = q ≢ p

-- Steps that tell `p` of no interrupt.
pub data Quiet (p : ℕ) (k : Kernel) : Kernel → Type 0 where
  at_once : Quiet p k k
  later : {k' k'' : Kernel} → Quiet p k k' → (s : Step k' k'') → Spares p s → Quiet p k k''

Awaits-frame :
    (k k' : Kernel) (p msg : ℕ)
    → Stays (k.proc_table p) (k'.proc_table p)
    → Awaits k p msg
    → Awaits k' p msg
Awaits-frame k k' p msg s a = record {
  waits = rw (s.flags, s.message, s.from, s.to) a.waits;
  from = s.from ∙ a.from;
  address = s.message ∙ a.address;
}

abbrev AwaitsAfter : (p msg : ℕ) → Run (Unit {0}) → Type 0
AwaitsAfter p msg = Ends (λ _. Unit) (λ _ k'. Awaits k' p msg)

-- An interrupt that is told to another process.
Awaits-informed :
    (k : Kernel) (q p msg : ℕ)
    → p ≢ q
    → Awaits k p msg
    → Awaits (if awaits_interrupt (k.proc_table q) then rouse k q else remember k q) p msg
Awaits-informed k q p msg off a = elim (Bool-cases (awaits_interrupt (k.proc_table q))) [
  | inl e ↦
      rw e
        (Awaits-frame k (rouse k q) p msg (rw (==_of_ne p q off) (Stays-refl (k.proc_table p))) a)
  | inr e ↦
      rw e (
        Awaits-frame k (remember k q) p msg (rw (==_of_ne p q off) (Stays-refl (k.proc_table p))) a)
]

-- One step leaves the process waiting.
Step-Awaits :
    {k k' : Kernel} (qs : ℕ → List ℕ) (p msg : ℕ)
    → IsRunning k qs
    → Awaits k p msg
    → (s : Step k k') → Spares p s
    → Awaits k' p msg
Step-Awaits {k} qs p msg run a (writes m) quiet = record {
  waits = a.waits;
  from = a.from;
  address = a.address;
}
Step-Awaits {k} {k'} qs p msg run a (calls function peer x some_x small e) quiet =
    let (back, moved) =
      subst (Ends (CallStops k function peer) (Returns k x)) e
        (syscall_sendrec-Returns k qs function peer x run some_x small) in
    let off : p ≢ k.p_proc_ready = λ z. absurd (ground (arith, z, a.waits, run.idle)) in
    elim (moved.others p off) [
      | inl s ↦ Awaits-frame k k' p msg s a
      | inr (w, _) ↦ absurd (ground (arith, w, a.waits, a.from))
    ]
Step-Awaits {k} {k'} qs p msg run a (ticks e) quiet =
    let (back, u) = subst (TickOutcome k qs) e (clock_handler-Returns k qs run) in
    Awaits-frame k k' p msg (u.stays p) a
Step-Awaits {k} {k'} qs p msg run a (interrupts q h e) quiet =
    subst (AwaitsAfter p msg) (sym (inform_int_lem k qs q run.valid h).0 ∙ e)
      (Awaits-informed k q p msg (λ z. quiet (sym z)) a)

-- Whatever else happens, the process waits, and the kernel keeps its invariant.
pub Quiet-Awaits :
    {k : Kernel} (qs : ℕ → List ℕ) (p msg : ℕ)
    → IsRunning k qs
    → Awaits k p msg
    → {k' : Kernel} → Quiet p k k'
    → ((qs' : ℕ → List ℕ) × IsRunning k' qs') × Awaits k' p msg
Quiet-Awaits qs p msg run a at_once = ((qs, run), a)
Quiet-Awaits qs p msg run a (later m s spares) =
    let ((qs1, run1), a1) = Quiet-Awaits qs p msg run a m in
    (Step-IsRunning qs1 run1 s, Step-Awaits qs1 p msg run1 a1 s spares)
