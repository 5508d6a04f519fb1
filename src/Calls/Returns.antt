-- ===== src/Calls/Returns.antt =====
-- `get_ticks` comes back: where nobody else calls the kernel, the clock brings the system process to
-- run, and it answers.
use canalotus.Common.{
  ℕ, zero, suc, ◌^◌, ◌≤◌, ◌<◌, ◌≡◌, refl, sym, ap, ◌∙◌, ◌≢◌, inl, inr, true, false, ◌==◌, eq_cases,
  ==_of_ne, ==_refl, update, pos, ltb_ℤ, List, arith,
}
use canalotus.State.{Process, Table, Kernel, ok, nr_procs, is_idle}
use canalotus.Schedule.{is_ready}
use canalotus.Schedule.Choice.{Scheduled}
use canalotus.Ipc.Send.HandOver.{woken}
use canalotus.Ipc.Receive.Wait.{listening}
use canalotus.System.{IsRunning}
use canalotus.System.Steps.{ticks}
use canalotus.System.Fairness.{IsWaiting, time_of_others, ticking, ticking-suc, one_tick}
use canalotus.Calls.{
  Code, ◌>>=◌, finished, reads, advance, steps, get_ticks, answer_to, sysproc_sys,
}
use canalotus.Calls.Request.{Listens, requested}
use canalotus.Calls.Asking.{get_ticks-asks}
use canalotus.Calls.Meanwhile.{Meanwhile, at_once, later}
use canalotus.Calls.Ticks.{fetch, get_ticks_lem}

-- Ticks up to the one that lets the system process run.
ticks-Meanwhile :
    (m a : ℕ) (k0 k : Kernel)
    → IsWaiting k sysproc_sys
    → time_of_others k.proc_table sysproc_sys nr_procs ≡ m
    → Meanwhile sysproc_sys a k0 k
    → (n : ℕ) × (k' : Kernel) × (n ≤ m)
      × (ticking n k ≡ ok tt k')
      × (k'.p_proc_ready ≡ sysproc_sys)
      × Meanwhile sysproc_sys a k0 k'
ticks-Meanwhile zero a k0 k w e path = elim (eq_cases k.p_proc_ready sysproc_sys) [
  | inl here ↦ (0, k, omega arith, refl, here, path)
  | inr n ↦ let (k', run, w', less) = one_tick k sysproc_sys w n in absurd (omega arith)
]
ticks-Meanwhile (suc m) a k0 k w e path = elim (eq_cases k.p_proc_ready sysproc_sys) [
  | inl here ↦ (0, k, omega arith, refl, here, path)
  | inr n ↦
      let (k', run, w', less) = one_tick k sysproc_sys w n in
      let (j, k'', le, runs, here, path') =
        ticks-Meanwhile m a k0 k' w' (omega arith) (later path n (ticks run) tt) in
      (suc j, k'', omega arith, ticking-suc j k k' run ∙ runs, here, path')
]

time-same :
    (t t' : Table) (p left : ℕ)
    → ((q : ℕ) → (t' q).ticks ≡ (t q).ticks)
    → time_of_others t' p left ≡ time_of_others t p left
unfolding time_of_others
time-same t t' p zero same = refl
time-same t t' p (suc left) same = rw (same left, time-same t t' p left same) refl

update-ticks :
    (t : Table) (c q : ℕ) (v : Process)
    → v.ticks ≡ (t c).ticks
    → (update t c v q).ticks ≡ (t q).ticks
update-ticks t c q v e = elim (eq_cases q c) [
  | inl r ↦ rw (r, ==_refl c) e
  | inr off ↦ rw (==_of_ne q c off) refl
]

requested-ticks :
    (k : Kernel) (msg q : ℕ) → (requested k sysproc_sys msg q).ticks ≡ (k.proc_table q).ticks
requested-ticks k msg q =
    let t : Table = update k.proc_table sysproc_sys (woken (k.proc_table sysproc_sys)) in
    update-ticks t k.p_proc_ready q (listening (pos sysproc_sys) msg (t k.p_proc_ready)) refl
    ∙ update-ticks k.proc_table sysproc_sys q (woken (k.proc_table sysproc_sys)) refl

true_not_false : true ≢ false
true_not_false e = ground (arith, e)

-- The scheduler refills no time while the system process has some.
chosen-IsWaiting :
    (k k' : Kernel) (msg : ℕ)
    → (k'.k_reenter == 0) ≡ true
    → ltb_ℤ (pos 0) (k.proc_table sysproc_sys).ticks ≡ true
    → is_ready (requested k sysproc_sys msg sysproc_sys) ≡ true
    → Scheduled (requested k sysproc_sys msg) k'.proc_table k'.p_proc_ready
    → IsWaiting k' sysproc_sys
      × (time_of_others k'.proc_table sysproc_sys nr_procs
          ≡ time_of_others k.proc_table sysproc_sys nr_procs)
chosen-IsWaiting k k' msg outer time ready s =
    let same_time = requested-ticks k msg in
    let still : ltb_ℤ (pos 0) (requested k sysproc_sys msg sysproc_sys).ticks ≡ true =
      ap (λ n. ltb_ℤ (pos 0) n) (same_time sysproc_sys) ∙ time in
    elim s.table [
      | inl same ↦ (
        record {
          outer = outer;
          in_table = omega arith;
          ready = ap (λ t. is_ready (t sysproc_sys)) same ∙ ready;
          time = ap (λ t. ltb_ℤ (pos 0) (t sysproc_sys).ticks) same ∙ still;
          running = s.in_table;
          running_time = s.has_time;
        },
        time-same k.proc_table k'.proc_table sysproc_sys nr_procs
            (λ q. ap (λ t. (t q).ticks) same ∙ same_time q),
      )
      | inr (nobody, _) ↦
          absurd (true_not_false (sym still ∙ nobody sysproc_sys (omega arith) ready))
    ]

-- Let a process run that has no pending interrupt and is not the system process, and let that one
-- have time left and listen at an address `a`, where no other process has its message. The process
-- makes the instructions of `get_ticks` up to its last. If then only the clock ticks, the system
-- process comes to run after as many ticks as the other processes have time left together, or fewer,
-- its next four instructions answer, the process that asked is ready, and the last instruction of
-- its `get_ticks` gives the ticks of the clock at that time. Addresses are not 0 and have 32 bits.
pub get_ticks-returns :
    (k : Kernel) (qs : ℕ → List ℕ) (msg a : ℕ) {A : Type 0} (next : ℕ → Code A)
    → IsRunning k qs
    → k.p_proc_ready ≢ sysproc_sys
    → Listens k sysproc_sys a
    → ltb_ℤ (pos 0) (k.proc_table sysproc_sys).ticks ≡ true
    → ((k.proc_table k.p_proc_ready).has_int_msg == 0) ≡ true
    → ((q : ℕ) → q < nr_procs → q ≢ sysproc_sys → (k.proc_table q).p_msg ≢ a)
    → a ≢ msg
    → 0 < msg
    → msg < 2 ^ 32
    → 0 < a
    → a < 2 ^ 32
    → (n : ℕ) × (k1 k2 k3 : Kernel) × (steps 4 k.p_proc_ready (get_ticks msg) k ≡ ok (fetch msg) k1)
      × (n ≤ time_of_others k.proc_table sysproc_sys nr_procs)
      × (ticking n k1 ≡ ok tt k2)
      × (k2.p_proc_ready ≡ sysproc_sys)
      × (steps 4 k2.p_proc_ready (reads a (answer_to a) >>= next) k2 ≡ ok (next 0) k3)
      × (is_idle (k3.proc_table k.p_proc_ready) ≡ true)
      × (advance (fetch msg) k3 ≡ ok (finished k2.ticks) k3)
get_ticks-returns k qs msg a next run ne l time quiet apart apart_msg some_msg small some_a
      small_a =
    let (k1, asks, run1, asked, away, messages, chosen) =
      get_ticks-asks k qs msg a run ne l quiet apart_msg some_msg small in
    let ready : is_ready (requested k sysproc_sys msg sysproc_sys) ≡ true =
      rw (==_of_ne sysproc_sys k.p_proc_ready (λ e. ne (sym e))) refl in
    let (waiting, others) = chosen-IsWaiting k k1 msg run1.outer time ready chosen in
    let (n, k2, le, runs, here, path) =
      ticks-Meanwhile (time_of_others k1.proc_table sysproc_sys nr_procs) a k1 k1 waiting refl
        at_once in
    let (k3, e3, _, idle, answered) =
      get_ticks_lem k k1 k2 qs msg a next run ne l quiet apart apart_msg some_msg small some_a
        small_a asks path here in
    (n, k1, k2, k3, asks, omega (arith, others), runs, here, e3, idle, answered)
