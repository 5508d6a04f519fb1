-- ===== src/Ipc/Syscall/Laws.antt =====
-- `syscall_sendrec` against the two operations it calls.
use canalotus.Common.{
  ℕ, ◌^◌, ◌<◌, ◌≡◌, refl, ◌∙◌, ◌≢◌, inl, inr, true, false, ◌==◌, if◌then◌else◌, Bool-cases, ==_refl,
  ==_of_ne, update, ℤ, pos, eq_ℤ, List, arith,
}
use canalotus.State.{Kernel, ok, stopped, panicked, ◌>>=◌, ◌>>◌, nr_procs, is_idle}
use canalotus.Ipc.Valid.{IsValid}
use canalotus.Ipc.Send.{msg_send, waits_for}
use canalotus.Ipc.Send.HandOver.{va2la-ok, handed, msg_send_delivers}
use canalotus.Ipc.Receive.{msg_receive}
use canalotus.Ipc.Syscall.{send, receive, is_peer, syscall_sendrec}

-- the kernel after the caller was written into its message
abbrev pub signed : Kernel → (caller msg : ℕ) → Kernel
signed k caller msg = record k {
  mem = update k.mem msg (record (k.mem msg) { source = pos caller });
}

-- Under the invariant, with `k_reenter` 0, and for a peer that the kernel knows and that is not the
-- caller, the system call writes the caller into the message and then does what `msg_send` or
-- `msg_receive` does, or panics where the function is neither.
pub syscall_sendrec_lem :
    (k : Kernel) (qs : ℕ → List ℕ) (function peer : ℤ) (caller msg : ℕ)
    → IsValid k.proc_table qs
    → caller < nr_procs
    → (k.k_reenter == 0) ≡ true
    → is_peer peer ≡ true
    → eq_ℤ (pos caller) peer ≡ false
    → msg < 2 ^ 32
    → syscall_sendrec function peer msg caller k ≡ (
        if eq_ℤ function send
        then msg_send caller peer msg (signed k caller msg)
        else if eq_ℤ function receive
        then msg_receive caller peer msg (signed k caller msg)
        else stopped panicked)
unfolding syscall_sendrec
syscall_sendrec_lem k qs function peer caller msg v h outer known other small =
    let at = va2la-ok caller msg k (v.flat caller h) small in
    rw (outer, known)
      (rw (at, ◌>>=◌, ◌>>◌)
        (rw other (elim (Bool-cases (eq_ℤ function send)) [
          | inl e ↦ rw e refl
          | inr e ↦ rw e (elim (Bool-cases (eq_ℤ function receive)) [
            | inl e' ↦ rw e' refl
            | inr e' ↦ rw e' refl
          ])
        ])))

-- Under the invariant, with `k_reenter` 0: the system call by which a process that waits for
-- nothing sends a message to another process that waits for it, or for anybody, returns 0. Where
-- that process asked for it then stands the message as it was sent, with the caller as its source
-- whatever the caller wrote there, and the invariant is kept with the same queues. The message's
-- address is not 0 and has 32 bits.
pub syscall_sendrec_delivers :
    (k : Kernel) (qs : ℕ → List ℕ) (s d msg : ℕ)
    → IsValid k.proc_table qs
    → (k.k_reenter == 0) ≡ true
    → s < nr_procs
    → d < nr_procs
    → s ≢ d
    → is_idle (k.proc_table s) ≡ true
    → waits_for (k.proc_table d) s ≡ true
    → 0 < msg
    → msg < 2 ^ 32
    → (k' : Kernel) × (syscall_sendrec send (pos d) msg s k ≡ ok 0 k')
      × (k'.mem (k.proc_table d).p_msg ≡ record (k.mem msg) { source = pos s })
      × IsValid k'.proc_table qs
syscall_sendrec_delivers k qs s d msg v outer hs hd ne idle waits some_msg small =
    let known : is_peer (pos d) ≡ true = ground (arith, hd) in
    let call =
      syscall_sendrec_lem k qs send (pos d) s msg v hs outer known (==_of_ne s d ne) small in
    let sent = msg_send_delivers (signed k s msg) qs s d msg v hs hd ne idle waits some_msg small in
    (
      handed (signed k s msg) d msg,
      call ∙ sent.0,
      rw (==_refl (k.proc_table d).p_msg, ==_refl msg) refl,
      sent.1,
    )
