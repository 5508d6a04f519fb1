-- ===== src/Ipc/Syscall.antt =====
-- `syscall_sendrec` (src/kernel/proc.c), the kernel's side of the system call `sendrec`.
pub mod Laws
use canalotus.Common.{ℕ, Bool, not, ◌||◌, ◌==◌, ltb, if◌then◌else◌, ℤ, pos, negsuc, eq_ℤ}
use canalotus.State.{nr_procs, any, interrupt, panicked, M, stop, ◌>>=◌, ◌>>◌, assert, globals}
use canalotus.Ipc.{va2la, set_msg}
use canalotus.Ipc.Send.{msg_send}
use canalotus.Ipc.Receive.{msg_receive}

abbrev pub send : ℤ
send = pos 1

abbrev pub receive : ℤ
receive = pos 2

-- the first assertions on `src_dst`
abbrev pub is_peer : ℤ → Bool
is_peer (pos n) = ltb n nr_procs || eq_ℤ (pos n) any
is_peer (negsuc n) = eq_ℤ (negsuc n) interrupt

unfoldable pub syscall_sendrec : (function src_dst : ℤ) → (msg p_proc : ℕ) → M ℕ
syscall_sendrec function src_dst msg caller = do
  k ← globals
  assert (k.k_reenter == 0)
  assert (is_peer src_dst)
  mla ← va2la caller msg
  set_msg mla (λ m. record m { source = pos caller })
  assert (not (eq_ℤ (pos caller) src_dst))
  if eq_ℤ function send
      then msg_send caller src_dst msg
      else if eq_ℤ function receive
      then msg_receive caller src_dst msg
      else stop panicked
