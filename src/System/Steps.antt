-- ===== src/System/Steps.antt =====
-- The steps of the kernel: a process writes memory or makes a system call, or an interrupt comes.
use canalotus.Common.{
  ℕ, ◌^◌, ◌<◌, ◌≡◌, refl, sym, inl, inr, Bool, true, false, not, ◌||◌, ◌==◌, if◌then◌else◌,
  Bool-cases, ==_refl, ℤ, pos, ltb_ℤ, dec_int, List, arith,
}
use mathlib.Core.Path.{subst}
use canalotus.State.{Process, Message, Kernel, Run, Stop, ok, looping, nr_procs}
use canalotus.Ipc.Valid.{IsValid, Scheduled-with_ticks, IsValid-with_ticks}
use canalotus.Schedule.Choice.{AllIdle}
use canalotus.Ipc.Change.{Alike, IsValid-update}
use canalotus.Ipc.Interrupt.{awaits_interrupt, inform_int, clock_handler}
use canalotus.Ipc.Interrupt.Laws.{
  tick, ticked, rouse, remember, inform_int_lem, clock_handler_stays, clock_handler_switches,
}
use canalotus.Ipc.Syscall.{syscall_sendrec}
use canalotus.Ipc.Stuck.{find_runner, clock_handler-loops}
use canalotus.System.{IsRunning, Ends, Resumes, Blocked-IsRunning}
use canalotus.System.Call.{CallStops, Ends-mono, syscall_sendrec-Ends}
use canalotus.System.Effect.{Untouched, Untouched-tick, Untouched-switch}

ticked-Alike : (p : Process) → Alike p (ticked p)
ticked-Alike p = record {
  segments = refl;
  first = refl;
  next = refl;
  flag = refl;
  target = refl;
  sends = λ e. refl;
}

tick-IsValid : (k : Kernel) (qs : ℕ → List ℕ) → IsRunning k qs → IsValid (tick k).proc_table qs
tick-IsValid k qs run =
    IsValid-update run.valid (ticked-Alike (k.proc_table k.p_proc_ready))
      (run.valid.small k.p_proc_ready run.in_table) (run.valid.mode k.p_proc_ready run.in_table)

abbrev pub TickOutcome : Kernel → (ℕ → List ℕ) → Run (Unit {0}) → Type 0
TickOutcome k qs =
    Ends (λ why. (why ≡ looping) × AllIdle (tick k).proc_table)
      (λ _ k'. IsRunning k' qs × Untouched k k')

-- Every outcome of a tick: what processes wait for and all messages stay as they are.
pub clock_handler-Returns :
    (k : Kernel) (qs : ℕ → List ℕ) → IsRunning k qs → TickOutcome k qs (clock_handler k)
clock_handler-Returns k qs run =
    let kept : Bool =
      not (k.k_reenter == 0) || ltb_ℤ (pos 0) (dec_int (k.proc_table k.p_proc_ready).ticks) in
    elim (Bool-cases kept) [
      | inl stays ↦ subst (TickOutcome k qs) (sym (clock_handler_stays k stays)) (
        record {
          valid = tick-IsValid k qs run;
          in_table = run.in_table;
          idle = rw (==_refl k.p_proc_ready) run.idle;
          outer = run.outer;
        },
        Untouched-tick k,
      )
      | inr out ↦
          let spent : ltb_ℤ (pos 0) (dec_int (k.proc_table k.p_proc_ready).ticks) ≡ false =
            ground (arith, out) in
          elim (find_runner (tick k).proc_table) [
            | inl (q, hq, can) ↦
                let (t', r, e, sch) = clock_handler_switches k q run.outer spent hq can in
                let k' : Kernel = record (tick k) { proc_table = t'; p_proc_ready = r } in
                subst (TickOutcome k qs) (sym e) (
                  Blocked-IsRunning (tick k) k' (tick k).proc_table qs run.outer
                      (rw (Scheduled-with_ticks sch)
                        (IsValid-with_ticks (λ p. (t' p).ticks) (tick-IsValid k qs run)))
                      (record {
                        chosen = sch;
                        same_mem = refl;
                        same_ticks = refl;
                        same_reenter = refl;
                      }),
                  Untouched-switch k t' r sch,
                )
            | inr idle ↦
                subst (TickOutcome k qs) (sym (clock_handler-loops k run.outer spent idle))
                  (refl, idle)
          ]
    ]

-- A tick keeps a process running with the queues as they were, unless no process can run.
pub clock_handler-Ends :
    (k : Kernel) (qs : ℕ → List ℕ)
    → IsRunning k qs
    → Ends
        (λ why. (why ≡ looping) × AllIdle (tick k).proc_table)
        (λ _ k'. IsRunning k' qs)
        (clock_handler k)
clock_handler-Ends k qs run =
    let S : Stop → Type 0 = λ why. (why ≡ looping) × AllIdle (tick k).proc_table in
    Ends-mono S S (λ _ k'. IsRunning k' qs × Untouched k k') (λ _ k'. IsRunning k' qs)
      (clock_handler k) (λ why h. h) (λ _ k' h. h.0) (clock_handler-Returns k qs run)

informed :
    (k : Kernel) (qs : ℕ → List ℕ) (p : ℕ)
    → IsRunning k qs
    → (b : Bool) → IsValid (if b then rouse k p else remember k p).proc_table qs
    → let k' = if b then rouse k p else remember k p in
      IsRunning k' qs × (k'.p_proc_ready ≡ k.p_proc_ready)
informed k qs p run true v = (
  record { valid = v; in_table = run.in_table; idle = ground (arith, run.idle); outer = run.outer },
  refl,
)
informed k qs p run false v = (
  record { valid = v; in_table = run.in_table; idle = ground (arith, run.idle); outer = run.outer },
  refl,
)

-- An interrupt always comes back, with the same process running and the queues as they were.
pub inform_int-Ends :
    (k : Kernel) (qs : ℕ → List ℕ) (p : ℕ)
    → IsRunning k qs
    → p < nr_procs
    → Ends (λ _. ⊥) (λ _ k'. IsRunning k' qs × (k'.p_proc_ready ≡ k.p_proc_ready)) (inform_int p k)
inform_int-Ends k qs p run h =
    let (e, v) = inform_int_lem k qs p run.valid h in
    subst (Ends (λ _. ⊥) (λ _ k'. IsRunning k' qs × (k'.p_proc_ready ≡ k.p_proc_ready))) (sym e)
      (informed k qs p run (awaits_interrupt (k.proc_table p)) v)

-- What happens to the kernel: the running process writes memory or calls it, the clock ticks, or
-- another interrupt is told to a process.
pub data Step (k : Kernel) : Kernel → Type 0 where
  writes : (m : ℕ → Message) → Step k (record k { mem = m })
  calls :
      {k' : Kernel} {r : ℕ} (function peer : ℤ) (msg : ℕ)
      → 0 < msg
      → msg < 2 ^ 32
      → syscall_sendrec function peer msg k.p_proc_ready k ≡ ok r k'
      → Step k k'
  ticks : {k' : Kernel} → clock_handler k ≡ ok tt k' → Step k k'
  interrupts : {k' : Kernel} (p : ℕ) → p < nr_procs → inform_int p k ≡ ok tt k' → Step k k'

pub data Reach (k : Kernel) : Kernel → Type 0 where
  here : Reach k k
  next : {k' k'' : Kernel} → Reach k k' → Step k' k'' → Reach k k''

pub Step-IsRunning :
    {k k' : Kernel} (qs : ℕ → List ℕ)
    → IsRunning k qs
    → Step k k'
    → (qs' : ℕ → List ℕ) × IsRunning k' qs'
Step-IsRunning qs run (writes m) =
    (qs, record { valid = run.valid; in_table = run.in_table; idle = run.idle; outer = run.outer })
Step-IsRunning {k} qs run (calls function peer msg some_msg small e) =
    let (zero_, qs', run') =
      subst (Ends (CallStops k function peer) Resumes) e
        (syscall_sendrec-Ends k qs function peer msg run some_msg small) in
    (qs', run')
Step-IsRunning {k} qs run (ticks e) =
    (qs, (subst (TickOutcome k qs) e (clock_handler-Returns k qs run)).0)
Step-IsRunning {k} qs run (interrupts p h e) = (
  qs,
  (subst (Ends (λ _. ⊥) (λ _ k'. IsRunning k' qs × (k'.p_proc_ready ≡ k.p_proc_ready))) e
      (inform_int-Ends k qs p run h)).0,
)

-- Along every history of writes, system calls, ticks and interrupts the kernel keeps its invariant:
-- the queues stand for chains of the waiting senders, no process waits for itself, and a process of
-- the table that waits for nothing runs.
pub Reach-IsRunning :
    {k k' : Kernel} (qs : ℕ → List ℕ)
    → IsRunning k qs
    → Reach k k'
    → (qs' : ℕ → List ℕ) × IsRunning k' qs'
Reach-IsRunning qs run here = (qs, run)
Reach-IsRunning qs run (next r s) =
    let (qs', run') = Reach-IsRunning qs run r in Step-IsRunning qs' run' s
