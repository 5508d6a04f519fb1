-- ===== src/Examples/Servers.antt =====
-- The theorems on `get_ticks`, applied: process 0 asks, and the system process listens.
use canalotus.Common.{ℕ, true, ◌≤◌, ◌≡◌, refl, inr, inl, List, update, arith}
use canalotus.State.{Table, Kernel, ok, stopped, any, nr_procs, is_idle}
use canalotus.Ipc.{ldt_seg_linear, va2la, deadlock, follow_sends, block, unblock}
use canalotus.Ipc.Change.{IsValid-update}
use canalotus.Ipc.Send.{msg_send, hand_over}
use canalotus.Ipc.Receive.{msg_receive, find_sender, find_sending, wait_to_receive}
use canalotus.Ipc.Receive.Wait.{listening, listening-Alike}
use canalotus.Ipc.Syscall.{syscall_sendrec}
use canalotus.Schedule.{schedule, schedule_loop, pick, refill}
use canalotus.System.{IsRunning}
use canalotus.Calls.{
  ◌>>=◌, finished, reads, steps, advance, get_ticks, answer_to, sys_sys, sysproc_sys,
}
use canalotus.Calls.Request.{Listens}
use canalotus.Calls.Meanwhile.{at_once}
use canalotus.Calls.Ticks.{fetch, get_ticks_lem}
use canalotus.Calls.Returns.{get_ticks-returns}
use canalotus.System.Fairness.{ticking, time_of_others}
use canalotus.Examples.{idle_process, idle_table, idle_table-IsValid, kernel_of, no_queues}

-- The system process waits for a message from anybody.
abbrev server_table : Table
server_table = update idle_table sysproc_sys (listening any 200 idle_process)

abbrev asking : Kernel
asking = kernel_of server_table

asking-IsRunning : IsRunning asking no_queues
asking-IsRunning = record {
  valid =
      IsValid-update idle_table-IsValid (listening-Alike any 200 idle_process refl) (omega arith)
        (inr (inr refl));
  in_table = omega arith;
  idle = refl;
  outer = refl;
}

asking-Listens : Listens asking sysproc_sys 200
asking-Listens = record { waits = refl; anybody = refl; address = refl; time = inl refl }

-- The kernel after the question.
abbrev asked_kernel : Kernel
unfolding steps advance get_ticks syscall_sendrec msg_send deadlock follow_sends hand_over va2la
    ldt_seg_linear unblock msg_receive find_sender find_sending wait_to_receive block schedule
    schedule_loop pick refill
asked_kernel = elim (steps 4 0 (get_ticks 100) asking) [ ok c k ↦ k | stopped why ↦ asking ]

asks : steps 4 0 (get_ticks 100) asking ≡ ok (fetch 100) asked_kernel
unfolding asked_kernel
asks = refl

get_ticks_lem_example :
    (k : Kernel) × (steps 4 asked_kernel.p_proc_ready
        (reads 200 (answer_to 200) >>= λ _. sys_sys 1 200)
        asked_kernel
      ≡ ok (sys_sys 1 200) k)
    × ((qs : ℕ → List ℕ) × IsRunning k qs)
    × (is_idle (k.proc_table 0) ≡ true)
    × (advance (fetch 100) k ≡ ok (finished asked_kernel.ticks) k)
unfolding asked_kernel
get_ticks_lem_example =
    get_ticks_lem asking asked_kernel asked_kernel no_queues 100 200 (λ _. sys_sys 1 200)
      asking-IsRunning (omega arith) asking-Listens refl
      (λ q h off e. absurd (ground (arith, e, off))) (omega arith) (omega arith) (omega arith)
      (omega arith) (omega arith) asks at_once refl

get_ticks-returns_example :
    (n : ℕ) × (k1 k2 k3 : Kernel) × (steps 4 0 (get_ticks 100) asking ≡ ok (fetch 100) k1)
    × (n ≤ time_of_others server_table sysproc_sys nr_procs)
    × (ticking n k1 ≡ ok tt k2)
    × (k2.p_proc_ready ≡ sysproc_sys)
    × (steps 4 k2.p_proc_ready (reads 200 (answer_to 200) >>= λ _. sys_sys 1 200) k2
        ≡ ok (sys_sys 1 200) k3)
    × (is_idle (k3.proc_table 0) ≡ true)
    × (advance (fetch 100) k3 ≡ ok (finished k2.ticks) k3)
get_ticks-returns_example =
    get_ticks-returns asking no_queues 100 200 (λ _. sys_sys 1 200) asking-IsRunning (omega arith)
      asking-Listens refl refl (λ q h off e. absurd (ground (arith, e, off))) (omega arith)
      (omega arith) (omega arith) (omega arith) (omega arith)
