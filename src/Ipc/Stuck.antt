-- ===== src/Ipc/Stuck.antt =====
-- `block`, `msg_send` and `msg_receive` where no other process can run: the scheduler does not come
-- back.
use canalotus.Common.{
  ℕ, zero, suc, ◌<◌, ◌≡◌, refl, ◌∙◌, ◌≢◌, ◌⊎◌, inl, inr, Bool, true, false, not, ◌&&◌, ◌||◌, ◌==◌,
  Bool-cases, eq_cases, ==_refl, ==_of_ne, lt→ltb, ℤ, pos, eq_ℤ, ltb_ℤ, dec_int, List, arith,
}
use canalotus.State.{Process, Table, Kernel, ok, stopped, looping, ◌>>=◌, ◌>>◌, nr_procs, is_idle}
use canalotus.Ipc.{block, deadlock}
use canalotus.Ipc.Deadlock.{Waits}
use canalotus.Ipc.Valid.{IsValid}
use canalotus.Ipc.Interrupt.{clock_handler}
use canalotus.Ipc.Interrupt.Laws.{tick}
use canalotus.Schedule.{is_ready, schedule}
use canalotus.Schedule.Choice.{CanRun, AllIdle, schedule_loop-none}
use canalotus.Ipc.Send.{wait_to_send, waits_for, msg_send}
use canalotus.Ipc.Send.HandOver.{deadlock-false}
use canalotus.Ipc.Send.Wait.{parked, parked-Joined, parked_self, enqueue_marked, wait_to_send-marks}
use canalotus.Ipc.Receive.{msg_receive, wait_to_receive, has_pending}
use canalotus.Ipc.Receive.Wait.{NoneFor, waiting_table, wait_to_receive-blocks, find_sender-none}

-- A process that the scheduler would choose or give time.
abbrev pub can_run : Process → Bool
can_run p = is_ready p && (ltb_ℤ (pos 0) p.ticks || ltb_ℤ (pos 0) p.priority)

pub can_run-CanRun : (p : Process) → can_run p ≡ true → CanRun p
can_run-CanRun p h = ground arith

-- No process but `s` can run.
abbrev pub NobodyElse : Table → ℕ → Type 0
NobodyElse t s = (q : ℕ) → q < nr_procs → q ≢ s → can_run (t q) ≡ false

find_below :
    (f : ℕ → Bool) (n : ℕ) → ((q : ℕ) × (q < n) × (f q ≡ true)) ⊎ ((q : ℕ) → q < n → f q ≡ false)
find_below f zero = inr (λ q h. absurd (omega (arith, h)))
find_below f (suc n) = elim (Bool-cases (f n)) [
  | inl e ↦ inl (n, omega arith, e)
  | inr e ↦ elim (find_below f n) [
    | inl (q, h, y) ↦ inl (q, omega (arith, h), y)
    | inr never ↦ inr (λ q h. elim (eq_cases q n) [
      | inl same ↦ rw same e
      | inr other ↦ never q (omega (arith, h, other))
    ])
  ]
]

-- Another process that can run, or that there is none.
pub find_other :
    (t : Table) (s : ℕ) → ((q : ℕ) × (q < nr_procs) × (q ≢ s) × CanRun (t q)) ⊎ NobodyElse t s
find_other t s = elim (find_below (λ q. not (q == s) && can_run (t q)) nr_procs) [
  | inl (q, h, y) ↦ inl (q, h, ground (arith, y), can_run-CanRun (t q) (ground (arith, y)))
  | inr never ↦ inr (λ q h off. ground (arith, never q h, off))
]

schedule-loops : (k : Kernel) → AllIdle k.proc_table → schedule k ≡ stopped looping
unfolding schedule
schedule-loops k idle = rw (schedule_loop-none 2 k.proc_table k.p_proc_ready idle, schedule)

block-loops :
    (p : ℕ) (k : Kernel)
    → ((k.proc_table p).p_flags == 0) ≡ false
    → AllIdle k.proc_table
    → block p k ≡ stopped looping
unfolding block
block-loops p k busy idle = rw busy (schedule-loops k idle)

-- Where `s` waits and nobody else can run, the scheduler finds no process.
NobodyElse-AllIdle :
    (t t' : Table) (s : ℕ)
    → NobodyElse t s
    → is_ready (t' s) ≡ false
    → ((q : ℕ)
        → q ≢ s
        → (is_ready (t' q) ≡ is_ready (t q))
          × ((t' q).ticks ≡ (t q).ticks)
          × ((t' q).priority ≡ (t q).priority))
    → AllIdle t'
NobodyElse-AllIdle t t' s none_else waits same q h ready = elim (eq_cases q s) [
  | inl e ↦ absurd (ground (arith, e, waits, ready))
  | inr off ↦ let (r, ti, pr) = same q off in ground (arith, r, ti, pr, ready, none_else q h off)
]

module _ (k : Kernel) (qs : ℕ → List ℕ) (s d msg : ℕ) (v : IsValid k.proc_table qs)
    (hd : d < nr_procs) (ne : s ≢ d) (idle : is_idle (k.proc_table s) ≡ true) (some_msg : 0 < msg)
    (none_else : NobodyElse k.proc_table s) where
  parked_idle : AllIdle (parked k.proc_table s d msg (qs d))
  parked_idle =
      let j = parked-Joined k qs s d msg v hd ne idle some_msg in
      NobodyElse-AllIdle k.proc_table (parked k.proc_table s d msg (qs d)) s none_else
        (rw (parked_self k qs s d msg v hd ne idle some_msg) refl)
        (λ q off. rw (j.other q off, ==_of_ne q s off) (refl, refl, refl))

  wait_to_send-loops : wait_to_send s d msg k ≡ stopped looping
  wait_to_send-loops =
      let kp : Kernel = record k { proc_table = parked k.proc_table s d msg (qs d) } in
      let busy : ((kp.proc_table s).p_flags == 0) ≡ false =
        rw (parked_self k qs s d msg v hd ne idle some_msg) refl in
      wait_to_send-marks k qs s d msg v hd ne idle some_msg
      ∙ rw (enqueue_marked k qs s d msg v hd ne idle some_msg, ◌>>=◌, ◌>>◌)
          (rw (block-loops s kp busy parked_idle, ◌>>=◌, ◌>>◌))

  pub msg_send-loops :
      s < nr_procs
      → waits_for (k.proc_table d) s ≡ false
      → (Waits k.proc_table s d → ⊥)
      → msg_send s (pos d) msg k ≡ stopped looping
  unfolding msg_send
  msg_send-loops hs busy free =
      let quiet : deadlock s (pos d) k ≡ ok false k = deadlock-false {k = k} s d v hd free in
      rw (==_of_ne s d ne) (
        rw (quiet, ◌>>=◌, ◌>>◌)
          (rw (lt→ltb d nr_procs hd, busy) (rw (wait_to_send-loops, ◌>>=◌, ◌>>◌))))

module _ (k : Kernel) (qs : ℕ → List ℕ) (cnt msg : ℕ) (src : ℤ) (v : IsValid k.proc_table qs)
    (hc : cnt < nr_procs) (idle : is_idle (k.proc_table cnt) ≡ true) (some_msg : 0 < msg)
    (none_else : NobodyElse k.proc_table cnt) where
  listening_idle : AllIdle (waiting_table k.proc_table cnt src msg)
  listening_idle =
      NobodyElse-AllIdle k.proc_table (waiting_table k.proc_table cnt src msg) cnt none_else
        (rw (==_refl cnt) refl) (λ q off. rw (==_of_ne q cnt off) (refl, refl, refl))

  wait_to_receive-loops : wait_to_receive cnt src msg k ≡ stopped looping
  wait_to_receive-loops =
      let k2 : Kernel = record k { proc_table = waiting_table k.proc_table cnt src msg } in
      wait_to_receive-blocks k cnt msg src idle
      ∙ rw (block-loops cnt k2 (rw (==_refl cnt)) listening_idle, ◌>>=◌, ◌>>◌)

  pub msg_receive-loops :
      NoneFor (qs cnt) src
      → eq_ℤ (pos cnt) src ≡ false
      → has_pending (k.proc_table cnt) src ≡ false
      → msg_receive cnt src msg k ≡ stopped looping
  unfolding msg_receive
  msg_receive-loops nobody self quiet =
      let none = find_sender-none k qs cnt v hc src nobody in
      rw (self, quiet) (rw (none, ◌>>=◌, ◌>>◌) (rw (wait_to_receive-loops, ◌>>=◌, ◌>>◌)))

-- A process that can run, or that there is none.
pub find_runner : (t : Table) → ((q : ℕ) × (q < nr_procs) × CanRun (t q)) ⊎ AllIdle t
find_runner t = elim (find_below (λ q. can_run (t q)) nr_procs) [
  | inl (q, h, y) ↦ inl (q, h, can_run-CanRun (t q) y)
  | inr never ↦ inr (λ q h ready. ground (arith, never q h, ready))
]

-- A tick that uses up the running process's time where no process can run does not come back.
pub clock_handler-loops :
    (k : Kernel)
    → (k.k_reenter == 0) ≡ true
    → ltb_ℤ (pos 0) (dec_int (k.proc_table k.p_proc_ready).ticks) ≡ false
    → AllIdle (tick k).proc_table
    → clock_handler k ≡ stopped looping
unfolding clock_handler
clock_handler-loops k outer spent idle =
    rw (==_refl k.p_proc_ready) (rw (outer, spent) (schedule-loops (tick k) idle))
