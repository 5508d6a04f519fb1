-- ===== src/Ipc/Send.antt =====
-- `msg_send` (src/kernel/proc.c), in its two cases: the receiver is waiting, or the sender waits.
pub mod HandOver
pub mod Wait
pub mod Joining
pub mod Queue
use canalotus.Common.{
  ℕ, zero, suc, ◌+◌, ◌*◌, ◌%◌, ◌^◌, Bool, true, false, not, ◌&&◌, ◌||◌, Option, none, some, ◌==◌,
  ltb, if◌then◌else◌, update, ℤ, pos, negsuc, eq_ℤ, bit_or,
}
use canalotus.State.{
  Process, Message, nr_procs, any, no_proc, interrupt, sending, receiving, hard_int, Kernel,
  assert_failed, panicked, out_of_table, looping, ok, stopped, M, pure, stop, ◌>>=◌, ◌>>◌, assert,
  proc, set_proc, entry, has_flag, clear_flag, is_idle, is_sending_to, is_null, points_at,
}
use canalotus.Ipc.{va2la, copy_msg, block, unblock, deadlock}

-- `msg_send` where the receiver waits for this message.
unfoldable pub hand_over : (sender dst msg : ℕ) → M (Unit {0})
hand_over sender dst msg = do
  d ← proc dst
  assert (not (d.p_msg == 0))
  assert (not (msg == 0))
  to ← va2la dst d.p_msg
  from ← va2la sender msg
  copy_msg to from
  set_proc dst
      (λ q. record q { p_msg = 0; p_flags = clear_flag q.p_flags receiving; p_recvfrom = no_proc })
  unblock dst
  d' ← proc dst
  assert (is_idle d')
  s ← proc sender
  assert (is_idle s)

-- The `while` of `msg_send`: the last process of a queue.
unfoldable pub last_sending : ℕ → ℕ → M ℕ
last_sending zero p = stop looping
last_sending (suc fuel) p = do
  q ← proc p
  elim q.next_sending [ none ↦ pure p | some next ↦ last_sending fuel next ]

-- The end of `dst`'s queue now points at `sender`.
unfoldable pub enqueue : (sender dst : ℕ) → M (Unit {0})
enqueue sender dst = do
  d ← proc dst
  elim d.q_sending [
    | some p ↦ do
      last ← last_sending (suc nr_procs) p
      set_proc last (λ q. record q { next_sending = some sender })
    | none ↦ set_proc dst (λ q. record q { q_sending = some sender })
  ]
  set_proc sender (λ q. record q { next_sending = none })

-- `msg_send` where the sender has to wait.
unfoldable pub wait_to_send : (sender dst msg : ℕ) → M (Unit {0})
wait_to_send sender dst msg = do
  set_proc sender (λ q. record q { p_flags = bit_or q.p_flags sending })
  s ← proc sender
  assert (s.p_flags == sending)
  set_proc sender (λ q. record q { p_sendto = pos dst; p_msg = msg })
  enqueue sender dst
  block sender
  s' ← proc sender
  assert (is_sending_to dst s')

abbrev pub waits_for : Process → ℕ → Bool
waits_for d sender =
    has_flag d.p_flags receiving && (eq_ℤ d.p_recvfrom (pos sender) || eq_ℤ d.p_recvfrom any)

unfoldable pub msg_send : (cnt : ℕ) → ℤ → (msg : ℕ) → M ℕ
msg_send cnt dst msg = do
  assert (not (eq_ℤ (pos cnt) dst))
  dead ← deadlock cnt dst
  if dead then stop panicked else pure tt
  p_dst ← entry dst
  d ← proc p_dst
  if waits_for d cnt then hand_over cnt p_dst msg else wait_to_send cnt p_dst msg
  pure 0
