-- ===== src/Examples/Requests.antt =====
-- The theorems on the disk driver and the kernel's messages, applied: the file system asks for two
-- sectors while the driver listens, and the driver waits for the drive.
use canalotus.Common.{ℕ, true, ◌≡◌, refl, inr, inl, List, pos, update, arith}
use canalotus.State.{Process, Kernel, ok, stopped, any, is_idle}
use canalotus.Ipc.{reset_msg, ldt_seg_linear, va2la, deadlock, follow_sends, block, unblock}
use canalotus.Ipc.Change.{Alike, IsValid-update}
use canalotus.Ipc.Send.{msg_send, hand_over}
use canalotus.Ipc.Receive.{msg_receive, find_sender, find_sending, wait_to_receive}
use canalotus.Ipc.Receive.Wait.{listening}
use canalotus.Ipc.Syscall.{syscall_sendrec}
use canalotus.Schedule.{schedule, schedule_loop, pick, refill}
use canalotus.System.{IsRunning}
use canalotus.Calls.{finished, steps, advance}
use canalotus.Calls.Meanwhile.{at_once}
use canalotus.Calls.Sectors.{rw_sector_code, rw_sector-arrives}
use canalotus.Disk.Transfer.{dev_read}
use canalotus.Ipc.Valid.{is_receiving}
use canalotus.Disk.Handler.{sysproc_hd}
use canalotus.Disk.Handler.{hd_handler}
use canalotus.Calls.{◌>>=◌}
use canalotus.Calls.Interrupts.{interrupt_wait_code}
use canalotus.Calls.Interrupts.{at_once as none_told}
use canalotus.Calls.Interrupts.Waiting.{interrupt_wait-wakes, interrupt_wait-told}
use canalotus.Ipc.Receive.Wait.{int_msg}
use canalotus.State.{interrupt}
use canalotus.Examples.{idle_process, idle_table, idle_table-IsValid, kernel_of, no_queues}

-- The driver, with more time left than the others, waits for a message from anybody.
abbrev driver : Process
driver = record (listening any 200 idle_process) { ticks = pos 90 }

driver-Alike : Alike idle_process driver
driver-Alike = record {
  segments = refl;
  first = refl;
  next = refl;
  flag = refl;
  target = refl;
  sends = λ e. refl;
}

-- The file system's process runs.
abbrev reading : Kernel
reading = record (kernel_of (update idle_table sysproc_hd driver)) { p_proc_ready = 3 }

reading-IsRunning : IsRunning reading no_queues
reading-IsRunning = record {
  valid = IsValid-update idle_table-IsValid driver-Alike (omega arith) (inr (inr refl));
  in_table = omega arith;
  idle = refl;
  outer = refl;
}

-- The kernel after the request.
abbrev requested_kernel : Kernel
unfolding steps advance rw_sector_code syscall_sendrec msg_send deadlock follow_sends hand_over
    va2la ldt_seg_linear unblock msg_receive find_sender find_sending wait_to_receive block schedule
    schedule_loop pick refill
requested_kernel =
    elim (steps 3 3 (rw_sector_code dev_read 0x301 1024 (pos 1024) (pos 3) 0x9000 100) reading) [
      | ok c k ↦ k
      | stopped why ↦ reading
    ]

rw_sector-arrives_example :
    ((qs : ℕ → List ℕ) × IsRunning requested_kernel qs)
    × (is_idle (requested_kernel.proc_table sysproc_hd) ≡ true)
    × (requested_kernel.mem 200 ≡ record reset_msg {
      source = pos 3;
      msg_type = dev_read;
      m3i4 = pos 1;
      m3l1 = 1024;
      m3p2 = 0x9000;
      m3i2 = pos 1024;
      m3i3 = pos 3;
    })
    × (is_receiving (requested_kernel.proc_table 3) ≡ true)
    × ((requested_kernel.proc_table 3).p_recvfrom ≡ pos sysproc_hd)
    × ((requested_kernel.proc_table 3).p_msg ≡ 100)
unfolding requested_kernel
rw_sector-arrives_example =
    rw_sector-arrives reading requested_kernel requested_kernel no_queues 100 200 dev_read 0x301
      1024 (pos 1024) (pos 3) 0x9000 reading-IsRunning (omega arith)
      (record { waits = refl; anybody = refl; address = refl; time = inl refl }) refl
      (λ q h off e. absurd (ground (arith, e, off))) (omega arith) (omega arith) (omega arith)
      (omega arith) refl refl at_once

-- The driver runs.
abbrev commanding : Kernel
commanding = record (kernel_of idle_table) { p_proc_ready = sysproc_hd }

commanding-IsRunning : IsRunning commanding no_queues
commanding-IsRunning = record {
  valid = idle_table-IsValid;
  in_table = omega arith;
  idle = refl;
  outer = refl;
}

-- The kernel while the driver waits.
abbrev waiting_kernel : Kernel
unfolding steps advance interrupt_wait_code ◌>>=◌ syscall_sendrec va2la ldt_seg_linear msg_receive
    find_sender find_sending wait_to_receive block schedule schedule_loop pick refill
waiting_kernel = elim (steps 2 2 (interrupt_wait_code 300 >>= λ _. finished tt) commanding) [
  | ok c k ↦ k
  | stopped why ↦ commanding
]

interrupt_wait-wakes_example :
    (k3 : Kernel) × (hd_handler 0x50 waiting_kernel ≡ ok 0x50 k3)
    × ((qs : ℕ → List ℕ) × IsRunning k3 qs)
    × (k3.p_proc_ready ≡ waiting_kernel.p_proc_ready)
    × (is_idle (k3.proc_table sysproc_hd) ≡ true)
    × ((k3.mem 300).source ≡ interrupt)
unfolding waiting_kernel
interrupt_wait-wakes_example =
    interrupt_wait-wakes commanding waiting_kernel waiting_kernel no_queues 300 0 0x50
      (λ _. finished tt) commanding-IsRunning refl (omega arith) (omega arith) (omega arith)
      (omega arith) (refl, inl refl) refl refl none_told

interrupt_wait-told_example :
    (k1 k2 : Kernel) × (hd_handler 0x50 commanding ≡ ok 0x50 k1)
    × (steps 2 sysproc_hd (interrupt_wait_code 300 >>= λ _. finished tt) k1 ≡ ok (finished tt) k2)
    × IsRunning k2 no_queues
    × (k2.p_proc_ready ≡ sysproc_hd)
    × (k2.mem 300 ≡ int_msg)
    × ((k2.proc_table sysproc_hd).has_int_msg ≡ 0)
interrupt_wait-told_example =
    interrupt_wait-told commanding no_queues 300 0x50 (λ _. finished tt) commanding-IsRunning refl
      (omega arith) (omega arith)
