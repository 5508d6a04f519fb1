-- ===== src/Ipc.antt =====
-- Message passing (src/kernel/proc.c): the functions that the system call `sendrec` and the
-- interrupt handlers run. The kernel is not left while one of them runs, so each is a function of
-- the kernel's state; `block` only chooses the process that runs next. A loop over the processes
-- has `nr_procs + 1` rounds of fuel.
pub mod Walk
pub mod Valid
pub mod Change
pub mod Deadlock
pub mod Send
pub mod Receive
pub mod Interrupt
pub mod Syscall
pub mod Stuck
use canalotus.Common.{
  ℕ, zero, suc, ◌+◌, ◌*◌, ◌%◌, ◌^◌, Bool, true, false, not, ◌&&◌, ◌||◌, Option, none, some, ◌==◌,
  ltb, if◌then◌else◌, update, ℤ, pos, negsuc, eq_ℤ, bit_or,
}
use canalotus.State.{
  Process, Message, nr_procs, any, no_proc, interrupt, sending, receiving, hard_int, Kernel,
  assert_failed, panicked, out_of_table, looping, ok, stopped, M, pure, stop, ◌>>=◌, ◌>>◌, assert,
  proc, set_proc, entry, has_flag, clear_flag, is_idle, is_sending_to, is_null, points_at,
}
use canalotus.Schedule.{schedule}

-- The linear base address of segment `idx` of a process, as 32 bits.
unfoldable pub ldt_seg_linear : Process → ℕ → ℕ
ldt_seg_linear p idx =
    let d = p.ldts idx in bit_or (bit_or (d.base_high * 2 ^ 24) (d.base_mid * 2 ^ 16)) d.base_low

abbrev pub index_ldt_rw : ℕ
index_ldt_rw = 1

unfoldable pub va2la : ℕ → ℕ → M ℕ
va2la pid va = do
  p ← proc pid
  let la = (ldt_seg_linear p index_ldt_rw + va) % 2 ^ 32
  assert (if ltb pid nr_procs then la == va else true)
  pure la

-- `memcpy` of a message
abbrev pub copy_msg : ℕ → ℕ → M (Unit {0})
copy_msg to from k = ok tt (record k { mem = update k.mem to (k.mem from) })

abbrev pub set_msg : ℕ → (Message → Message) → M (Unit {0})
set_msg a f k = ok tt (record k { mem = update k.mem a (f (k.mem a)) })

-- what `reset_msg` makes of a message
abbrev pub reset_msg : Message
reset_msg = record {
  source = pos 0;
  msg_type = pos 0;
  m3i1 = pos 0;
  m3i2 = pos 0;
  m3i3 = pos 0;
  m3i4 = pos 0;
  m3l1 = 0;
  m3l2 = 0;
  m3p1 = 0;
  m3p2 = 0;
}

unfoldable pub block : ℕ → M (Unit {0})
block p = do q ← proc p; assert (not (q.p_flags == 0)); schedule

unfoldable pub unblock : ℕ → M (Unit {0})
unblock p = do q ← proc p; assert (q.p_flags == 0)

-- The `do … while` of `deadlock`, which prints the names on the cycle.
unfoldable pub report_cycle : ℕ → (src p : ℕ) → M (Unit {0})
report_cycle zero src p = stop looping
report_cycle (suc fuel) src p = do
  q ← proc p
  assert (not (q.p_msg == 0))
  next ← entry q.p_sendto
  if next == src then pure tt else report_cycle fuel src next

-- The `while (1)` of `deadlock`.
unfoldable pub follow_sends : ℕ → (src dst p : ℕ) → M Bool
follow_sends zero src dst p = stop looping
follow_sends (suc fuel) src dst p = do
  q ← proc p
  if has_flag q.p_flags sending
      then (if eq_ℤ q.p_sendto (pos src)
          then (do report_cycle (suc nr_procs) src dst; pure true)
          else (do next ← entry q.p_sendto; follow_sends fuel src dst next))
      else pure false

unfoldable pub deadlock : (src : ℕ) → ℤ → M Bool
deadlock src dst = do p ← entry dst; follow_sends (suc nr_procs) src p p
