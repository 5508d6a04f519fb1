-- ===== src/System.antt =====
-- The whole kernel between two instructions of a process: the running process is ready, and the
-- outcomes that a system call or an interrupt may have.
pub mod Effect
pub mod Sending
pub mod Receiving
pub mod Call
pub mod Steps
pub mod Fairness
use canalotus.Common.{
  ℕ, zero, suc, ◌+◌, ◌-◌, ◌*◌, ◌/◌, ◌%◌, ◌^◌, ◌≤◌, ◌<◌, ◌≡◌, refl, sym, ◌∙◌, ap, ◌≢◌, ◌↔◌, ◌⊎◌, inl,
  inr, Bool, true, false, not, ◌&&◌, ◌||◌, ◌==◌, ltb, leb, if◌then◌else◌, Bool-cases, Option-cases,
  eq_cases, ==_refl, ==_of_ne, ==→eq, lt→ltb, ltb→lt, update, ℤ, pos, negsuc, eq_ℤ, ltb_ℤ, eq_ℤ→eq,
  inc_int, dec_int, Option, none, some, List, [], ◌∷◌, ◌++◌, map, length, get_or, length-append,
  has, has-append, Distinct, AllBelow, Distinct-length, Distinct-append_one, without,
  without_of_not_has, bit_and, bit_or, arith,
}
use mathlib.Core.Path.{subst, fun_ext}
use canalotus.State.{
  Descriptor, Process, Message, Table, Kernel, Run, ok, stopped, Stop, assert_failed, panicked,
  out_of_table, looping, M, pure, stop, ◌>>=◌, ◌>>◌, assert, proc, set_proc, entry, globals,
  set_globals, nr_procs, sending, receiving, interrupt, hard_int, no_proc, any, has_flag,
  clear_flag, is_idle, is_sending_to, is_null, points_at,
}
use canalotus.Ipc.{
  ldt_seg_linear, index_ldt_rw, va2la, copy_msg, set_msg, reset_msg, block, unblock, report_cycle,
  follow_sends, deadlock,
}
use canalotus.Ipc.Walk.{is_sending, Sends, Walk, end, step, Acyclic, Walk-length}
use canalotus.Ipc.Deadlock.{Waits, direct, through, deadlock_lem, tail, Waits-of-tail}
use canalotus.Ipc.Valid.{
  IsValid, Mode, is_receiving, Chain, Chain-frame, Walk-frame, IsValid-messages, with_ticks,
  Scheduled-with_ticks, IsValid-with_ticks,
}
use canalotus.Schedule.{is_ready}
use canalotus.Schedule.Choice.{Scheduled}
use canalotus.Ipc.Send.Wait.{Blocked}
use canalotus.System.Effect.{Moved}

-- A process of the table runs, outside the kernel, and waits for nothing.
pub record IsRunning (k : Kernel) (qs : ℕ → List ℕ) : Type 0 where
  pub valid : IsValid k.proc_table qs
  pub in_table : k.p_proc_ready < nr_procs
  pub idle : is_idle (k.proc_table k.p_proc_ready) ≡ true
  pub outer : (k.k_reenter == 0) ≡ true

-- What holds of an outcome: of a stop's reason, or of the result and the kernel.
abbrev pub Ends : {A : Type 0} → (Stop → Type 0) → (A → Kernel → Type 0) → Run A → Type 0
Ends S R (ok a k) = R a k
Ends S R (stopped why) = S why

-- The call returns 0, and a process runs with the queues as they are now.
abbrev pub Resumes : ℕ → Kernel → Type 0
Resumes r k = (r ≡ 0) × (qs : ℕ → List ℕ) × IsRunning k qs

-- The same, and the effect of a call with the message at `msg` reaches no further than it must.
abbrev pub Returns : Kernel → (msg r : ℕ) → Kernel → Type 0
Returns k msg r k' = Resumes r k' × Moved k k' msg

idle_of_ready : (p : Process) → Mode p → is_ready p ≡ true → is_idle p ≡ true
idle_of_ready p m h = ground (arith, m)

-- The scheduler's choice runs.
pub Blocked-IsRunning :
    (k k' : Kernel) (t : Table) (qs : ℕ → List ℕ)
    → (k.k_reenter == 0) ≡ true
    → IsValid k'.proc_table qs
    → Blocked k k' t
    → IsRunning k' qs
Blocked-IsRunning k k' t qs outer v b = record {
  valid = v;
  in_table = b.chosen.in_table;
  idle =
      idle_of_ready (k'.proc_table k'.p_proc_ready) (v.mode k'.p_proc_ready b.chosen.in_table)
        b.chosen.ready;
  outer = rw b.same_reenter outer;
}
