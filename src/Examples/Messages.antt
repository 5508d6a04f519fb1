-- ===== src/Examples/Messages.antt =====
-- The theorems on message passing and scheduling, applied.
use canalotus.Common.{ℕ, ◌≡◌, refl, ◌↔◌, inl, inr, Bool, true, update, pos, [], ◌∷◌, ◌++◌, arith}
use canalotus.State.{Table, Kernel, ok, stopped, assert_failed, any}
use canalotus.Ipc.{deadlock}
use canalotus.Ipc.Deadlock.{Waits, deadlock_lem}
use canalotus.Ipc.Valid.{IsValid, IsValid-messages}
use canalotus.Schedule.{schedule}
use canalotus.Schedule.Choice.{Scheduled, schedule_lem}
use canalotus.Ipc.Send.{msg_send}
use canalotus.Ipc.Send.HandOver.{handed, msg_send_delivers}
use canalotus.Ipc.Send.Wait.{Blocked, parked, msg_send_blocks}
use canalotus.Ipc.Receive.{msg_receive}
use canalotus.Ipc.Receive.Accept.{took, after_leaving, msg_receive_takes}
use canalotus.Ipc.Receive.Wait.{waiting_table, msg_receive_blocks, msg_receive_interrupted}
use canalotus.Ipc.Interrupt.{inform_int}
use canalotus.Ipc.Interrupt.Laws.{rouse, inform_int_lem}
use canalotus.Examples.{
  kernel_of, idle_table, no_queues, idle_table-IsValid, idle_free, listening_table,
  listening_table-IsValid, interrupted_table, interrupted_table-IsValid, queued_table, one_queue,
  queued_table-IsValid,
}

msg_send_blocks_example :
    (k' : Kernel) × (msg_send 1 (pos 2) 100 (kernel_of idle_table) ≡ ok 0 k')
    × IsValid k'.proc_table (update no_queues 2 ([] ++ 1 ∷ []))
    × Blocked (kernel_of idle_table) k' (parked idle_table 1 2 100 [])
msg_send_blocks_example =
    msg_send_blocks (kernel_of idle_table) no_queues 1 2 100 3 idle_table-IsValid (omega arith)
      (omega arith) (omega arith) refl refl (idle_free 1 2) (omega arith) (omega arith)
      (omega arith) (omega arith) (refl, inl refl)

msg_send_delivers_example :
    (msg_send 1 (pos 2) 100 (kernel_of listening_table)
      ≡ ok 0 (handed (kernel_of listening_table) 2 100))
    × IsValid (handed (kernel_of listening_table) 2 100).proc_table no_queues
msg_send_delivers_example =
    msg_send_delivers (kernel_of listening_table) no_queues 1 2 100 listening_table-IsValid
      (omega arith) (omega arith) (omega arith) refl refl (omega arith) (omega arith)

msg_receive_takes_example :
    let k1 : Kernel = record (kernel_of queued_table) {
      proc_table = after_leaving queued_table 2 1 (1 ∷ []);
    } in
    (msg_receive 2 any 300 (kernel_of queued_table) ≡ ok 0 (took k1 1 300))
    × IsValid (took k1 1 300).proc_table (update one_queue 2 [])
msg_receive_takes_example =
    msg_receive_takes (kernel_of queued_table) one_queue 2 1 300 any queued_table-IsValid
      (omega arith) refl refl (inr (refl, ([], refl))) refl (omega arith) (omega arith)

deadlock_lem_example :
    (b : Bool) × (deadlock 2 (pos 1) (kernel_of queued_table) ≡ ok b (kernel_of queued_table))
    × ((b ≡ true) ↔ Waits queued_table 2 1)
deadlock_lem_example =
    deadlock_lem (kernel_of queued_table) 2 1 (omega arith) queued_table-IsValid.acyclic
      (IsValid-messages queued_table-IsValid)

msg_receive_blocks_example :
    (k' : Kernel) × (msg_receive 2 any 200 (kernel_of idle_table) ≡ ok 0 k')
    × IsValid k'.proc_table no_queues
    × Blocked (kernel_of idle_table) k' (waiting_table idle_table 2 any 200)
msg_receive_blocks_example =
    msg_receive_blocks (kernel_of idle_table) no_queues 2 200 3 any idle_table-IsValid (omega arith)
      refl (inr (inl (refl, refl))) refl (omega arith) (omega arith) (omega arith) (refl, inl refl)
      (omega arith) refl

msg_receive_interrupted_example :
    msg_receive 2 (pos 1) 200 (kernel_of interrupted_table) ≡ stopped assert_failed
msg_receive_interrupted_example =
    msg_receive_interrupted (kernel_of interrupted_table) no_queues 2 200 3 (pos 1)
      interrupted_table-IsValid (omega arith) refl (inr (inr (1, omega arith, refl, refl))) refl
      (omega arith) (omega arith) (omega arith) (refl, inl refl) 1 refl (omega arith) refl

inform_int_lem_example :
    (inform_int 2 (kernel_of listening_table) ≡ ok tt (rouse (kernel_of listening_table) 2))
    × IsValid (rouse (kernel_of listening_table) 2).proc_table no_queues
inform_int_lem_example =
    inform_int_lem (kernel_of listening_table) no_queues 2 listening_table-IsValid (omega arith)

schedule_lem_example :
    (t' : Table) × (r : ℕ) × (schedule (kernel_of idle_table)
      ≡ ok tt (record (kernel_of idle_table) { proc_table = t'; p_proc_ready = r }))
    × Scheduled idle_table t' r
schedule_lem_example = schedule_lem (kernel_of idle_table) 3 (omega arith) (refl, inl refl)
