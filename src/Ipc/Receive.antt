-- ===== src/Ipc/Receive.antt =====
-- `msg_receive` (src/kernel/proc.c), in its cases: a pending interrupt, a waiting sender, or the
-- receiver waits.
pub mod Search
pub mod Wait
pub mod Accept
pub mod Leaving
pub mod Leave
use canalotus.Common.{
  ℕ, zero, suc, ◌+◌, ◌*◌, ◌%◌, ◌^◌, Bool, true, false, not, ◌&&◌, ◌||◌, Option, none, some, ◌==◌,
  ltb, if◌then◌else◌, update, ℤ, pos, negsuc, eq_ℤ, bit_or,
}
use canalotus.State.{
  Process, Message, nr_procs, any, no_proc, interrupt, sending, receiving, hard_int, Kernel,
  assert_failed, panicked, out_of_table, looping, ok, stopped, M, pure, stop, ◌>>=◌, ◌>>◌, assert,
  proc, set_proc, entry, has_flag, clear_flag, is_idle, is_sending_to, is_null, points_at,
}
use canalotus.Ipc.{va2la, copy_msg, set_msg, reset_msg, block, unblock}

-- `msg_receive` where an interrupt is pending: the message is written by the kernel.
unfoldable pub take_interrupt : (cnt msg : ℕ) → M (Unit {0})
take_interrupt cnt msg = do
  assert (not (msg == 0))
  to ← va2la cnt msg
  set_msg to (λ _. record reset_msg { source = interrupt; msg_type = hard_int })
  set_proc cnt (λ q. record q { has_int_msg = 0 })
  r ← proc cnt
  assert ((r.p_flags == 0) && (r.p_msg == 0) && eq_ℤ r.p_sendto no_proc && (r.has_int_msg == 0))

-- The `while` of `msg_receive`: the process before `from` in the queue from `p` on.
unfoldable pub find_prev : ℕ → (from : ℕ) → (prev p : Option ℕ) → M (Option ℕ)
find_prev zero from prev p = stop looping
find_prev (suc fuel) from prev none = pure prev
find_prev (suc fuel) from prev (some p) = do
  f ← proc from
  assert (has_flag f.p_flags sending)
  q ← proc p
  if p == from then pure prev else find_prev fuel from (some p) q.next_sending

-- the nine assertions about the receiver and the sender that was found
abbrev pub found_states : ℕ → Process → Process → Bool
found_states cnt r f = is_idle r && not (is_null r.q_sending) && is_sending_to cnt f

-- `msg_receive` from the process `from`, which may be sending to `cnt`.
unfoldable pub find_sending : (cnt from : ℕ) → M (Option (ℕ × Option ℕ))
find_sending cnt from = do
  r ← proc cnt
  f ← proc from
  if has_flag f.p_flags sending && eq_ℤ f.p_sendto (pos cnt)
      then (do
        assert (not (is_null r.q_sending))
        prev ← find_prev (suc nr_procs) from none r.q_sending
        assert (found_states cnt r f)
        pure (some (from, prev)))
      else pure none

-- A sender to take the message from, with the one before it in the queue; `none` is `copyok == 0`.
unfoldable pub find_sender : (cnt : ℕ) → (src : ℤ) → M (Option (ℕ × Option ℕ))
find_sender cnt src = do
  r ← proc cnt
  if eq_ℤ src any
      then elim r.q_sending [
        | none ↦ pure none
        | some from ↦ do f ← proc from; assert (found_states cnt r f); pure (some (from, none))
      ]
      else elim src [
        | negsuc n ↦ pure none
        | pos from ↦ if ltb from nr_procs then find_sending cnt from else pure none
      ]

-- `from` leaves the queue of `cnt`.
unfoldable pub dequeue : (cnt from : ℕ) → Option ℕ → M (Unit {0})
dequeue cnt from prev = do
  r ← proc cnt
  f ← proc from
  if points_at r.q_sending from
      then (do
        assert (is_null prev)
        set_proc cnt (λ q. record q { q_sending = f.next_sending })
        set_proc from (λ q. record q { next_sending = none }))
      else elim prev [
        | none ↦ stop assert_failed
        | some before ↦ do
          set_proc before (λ q. record q { next_sending = f.next_sending })
          set_proc from (λ q. record q { next_sending = none })
      ]

-- The message of `from`, which has left the queue, is copied, and `from` is ready again.
unfoldable pub take_message : (cnt from msg : ℕ) → M (Unit {0})
take_message cnt from msg = do
  f ← proc from
  assert (not (msg == 0))
  assert (not (f.p_msg == 0))
  to ← va2la cnt msg
  source ← va2la from f.p_msg
  copy_msg to source
  set_proc from
      (λ q. record q { p_msg = 0; p_sendto = no_proc; p_flags = clear_flag q.p_flags sending })
  unblock from

-- `msg_receive` where a sender was found.
unfoldable pub accept : (cnt from : ℕ) → Option ℕ → (msg : ℕ) → M (Unit {0})
accept cnt from prev msg = dequeue cnt from prev >> take_message cnt from msg

-- `msg_receive` where the receiver has to wait.
unfoldable pub wait_to_receive : (cnt : ℕ) → (src : ℤ) → (msg : ℕ) → M (Unit {0})
wait_to_receive cnt src msg = do
  set_proc cnt
      (λ q. record q { p_flags = bit_or q.p_flags receiving; p_msg = msg; p_recvfrom = src })
  block cnt
  r ← proc cnt
  assert (
      (r.p_flags == receiving)
      && not (r.p_msg == 0)
      && not (eq_ℤ r.p_recvfrom no_proc)
      && eq_ℤ r.p_sendto no_proc
      && (r.has_int_msg == 0))

-- An interrupt is pending, and `src` asks for it.
abbrev pub has_pending : Process → ℤ → Bool
has_pending r src = not (r.has_int_msg == 0) && (eq_ℤ src any || eq_ℤ src interrupt)

unfoldable pub msg_receive : (cnt : ℕ) → ℤ → (msg : ℕ) → M ℕ
msg_receive cnt src msg = do
  assert (not (eq_ℤ (pos cnt) src))
  r ← proc cnt
  if has_pending r src then take_interrupt cnt msg else do
    found ← find_sender cnt src
    elim found [ none ↦ wait_to_receive cnt src msg | some (from, prev) ↦ accept cnt from prev msg ]
  pure 0
