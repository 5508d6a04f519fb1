-- ===== src/Ipc/Interrupt.antt =====
-- `inform_int` (src/kernel/proc.c), which an interrupt handler calls, and `clock_handler`
-- (src/kernel/clock.c).
pub mod Laws
use canalotus.Common.{
  ℕ, zero, suc, ◌+◌, ◌*◌, ◌%◌, ◌^◌, Bool, true, false, not, ◌&&◌, ◌||◌, Option, none, some, ◌==◌,
  ltb, if◌then◌else◌, update, ℤ, pos, negsuc, eq_ℤ, ltb_ℤ, bit_or, inc_int, dec_int,
}
use canalotus.State.{
  Process, Message, nr_procs, any, no_proc, interrupt, sending, receiving, hard_int, Kernel,
  assert_failed, panicked, out_of_table, looping, ok, stopped, M, pure, stop, ◌>>=◌, ◌>>◌, assert,
  proc, set_proc, entry, has_flag, clear_flag, is_idle, is_sending_to, is_null, points_at, globals,
  set_globals,
}
use canalotus.Ipc.{set_msg, unblock}
use canalotus.Schedule.{schedule}

-- The process waits for an interrupt, or for anything.
abbrev pub awaits_interrupt : Process → Bool
awaits_interrupt p =
    has_flag p.p_flags receiving && (eq_ℤ p.p_recvfrom interrupt || eq_ℤ p.p_recvfrom any)

-- `inform_int` where the process was waiting: the message is written where it asked for it.
unfoldable pub wake_by_interrupt : ℕ → M (Unit {0})
wake_by_interrupt proc_nr = do
  p ← proc proc_nr
  set_msg p.p_msg (λ m. record m { source = interrupt; msg_type = hard_int })
  set_proc proc_nr (λ q. record q {
    p_msg = 0;
    has_int_msg = 0;
    p_flags = clear_flag q.p_flags receiving;
    p_recvfrom = no_proc;
  })
  unblock proc_nr
  q ← proc proc_nr
  assert (is_idle q)

unfoldable pub inform_int : ℕ → M (Unit {0})
inform_int proc_nr = do
  p ← proc proc_nr
  if awaits_interrupt p
      then wake_by_interrupt proc_nr
      else set_proc proc_nr (λ q. record q { has_int_msg = 1 })

unfoldable pub clock_handler : M (Unit {0})
clock_handler = do
  set_globals (λ k. record k { ticks = inc_int k.ticks })
  k ← globals
  let ready = k.p_proc_ready
  set_proc ready (λ q. record q { ticks = dec_int q.ticks })
  q ← proc ready
  if not (k.k_reenter == 0) || ltb_ℤ (pos 0) q.ticks then pure tt else schedule
