-- ===== src/Examples.antt =====
-- Concrete states of the kernel on which the theorems are applied.
mod Messages
mod Histories
mod Drives
mod Devices
mod Texts
mod Screens
mod Servers
mod Requests
use canalotus.Common.{
  ℕ, ◌≡◌, refl, List, [], ◌∷◌, ◌++◌, none, some, update, pos, ◌<◌, ◌^◌, inl, inr, arith, ◌≢◌,
}
use canalotus.State.{
  Process, Table, Kernel, Descriptor, no_proc, any, nr_procs, is_sending_to, has_flag,
}
use canalotus.Ipc.{ldt_seg_linear, reset_msg}
use canalotus.Ipc.Walk.{end, Sends}
use canalotus.Ipc.Deadlock.{Waits, direct}
use canalotus.Ipc.Valid.{IsValid}
use canalotus.Ipc.Change.{IsValid-update}
use canalotus.Ipc.Receive.Wait.{listening, listening-Alike}
use canalotus.Ipc.Interrupt.Laws.{noted_Alike}
use canalotus.Ipc.Send.HandOver.{Waits-first}
use canalotus.Ipc.Send.Joining.{Joined-IsValid}
use canalotus.Ipc.Send.Wait.{parked, parked-Joined}

abbrev flat_segment : Descriptor
flat_segment = record {
  limit_low = 0xFFFF;
  base_low = 0;
  base_mid = 0;
  attr1 = 0xF2;
  limit_high_attr2 = 0xCF;
  base_high = 0;
}

abbrev pub idle_process : Process
idle_process = record {
  ldt_sel = 0;
  ldts = λ _. flat_segment;
  ticks = pos 15;
  priority = pos 15;
  pid = 0;
  p_flags = 0;
  p_msg = 0;
  p_recvfrom = no_proc;
  p_sendto = no_proc;
  has_int_msg = 0;
  q_sending = none;
  next_sending = none;
  nr_tty = 0;
}

abbrev pub kernel_of : Table → Kernel
kernel_of t = record {
  proc_table = t;
  p_proc_ready = 0;
  ticks = pos 0;
  k_reenter = 0;
  mem = λ _. reset_msg;
}

-- Every process is ready and waits for nothing.
abbrev pub idle_table : Table
idle_table _ = idle_process

abbrev pub no_queues : ℕ → List ℕ
no_queues _ = []

pub idle_table-IsValid : IsValid idle_table no_queues
unfolding ldt_seg_linear
idle_table-IsValid = record {
  flat = λ p h. refl;
  small = λ p h. omega arith;
  mode = λ p h. inl refl;
  chain = λ d h. refl;
  distinct = λ d h. tt;
  queued = λ d p h i. absurd (ground (arith, i));
  sender = λ d p h h' i. absurd (ground (arith, i));
  acyclic = λ p h. (p ∷ [], end refl);
}

pub idle_free : (s d : ℕ) → Waits idle_table s d → ⊥
idle_free s d w = absurd (ground (arith, Waits-first w))

-- Process 2 waits for a message from anybody.
abbrev pub listening_table : Table
listening_table = update idle_table 2 (listening any 200 idle_process)

pub listening_table-IsValid : IsValid listening_table no_queues
listening_table-IsValid =
    IsValid-update idle_table-IsValid (listening-Alike any 200 idle_process refl) (omega arith)
      (inr (inr refl))

-- An interrupt is pending for process 2.
abbrev pub interrupted_table : Table
interrupted_table = update idle_table 2 (record idle_process { has_int_msg = 1 })

pub interrupted_table-IsValid : IsValid interrupted_table no_queues
interrupted_table-IsValid =
    IsValid-update idle_table-IsValid (noted_Alike idle_process) (omega arith) (inl refl)

-- Process 1 waits to send to process 2.
abbrev pub queued_table : Table
queued_table = parked idle_table 1 2 100 []

abbrev pub one_queue : ℕ → List ℕ
one_queue = update no_queues 2 (1 ∷ [])

pub queued_table-IsValid : IsValid queued_table one_queue
queued_table-IsValid =
    Joined-IsValid idle_table-IsValid (omega arith) (omega arith) (omega arith) refl (omega arith)
      (omega arith)
      (parked-Joined (kernel_of idle_table) no_queues 1 2 100 idle_table-IsValid (omega arith)
        (omega arith) refl (omega arith))
      (idle_free 1 2)

pub queued_Waits : Waits queued_table 2 1
queued_Waits = direct (record { flag = refl; target = refl; in_table = omega arith })
