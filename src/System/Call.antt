-- ===== src/System/Call.antt =====
-- Every outcome of the system call `sendrec`.
use canalotus.Common.{
  ℕ, ◌^◌, ◌<◌, ◌≡◌, refl, sym, ◌≢◌, ◌⊎◌, inl, inr, true, false, not, ◌&&◌, ◌==◌, ltb, Bool-cases,
  ltb→lt, ℤ, pos, negsuc, eq_ℤ, eq_ℤ→eq, List, arith,
}
use mathlib.Core.Path.{subst}
use canalotus.State.{
  Kernel, Run, ok, stopped, Stop, assert_failed, panicked, out_of_table, looping, ◌>>=◌, ◌>>◌,
  nr_procs, interrupt, any,
}
use canalotus.Ipc.{deadlock}
use canalotus.Ipc.Deadlock.{Waits}
use canalotus.Ipc.Send.{msg_send}
use canalotus.Ipc.Receive.{msg_receive}
use canalotus.Ipc.Syscall.{send, receive, is_peer, syscall_sendrec}
use canalotus.Ipc.Syscall.Laws.{signed, syscall_sendrec_lem}
use canalotus.Ipc.Send.HandOver.{va2la-ok}
use canalotus.Ipc.Stuck.{NobodyElse}
use canalotus.System.{IsRunning, Ends, Resumes, Returns}
use canalotus.System.Effect.{Moved-signed}
use canalotus.System.Sending.{SendStops, msg_send-Ends}
use canalotus.System.Receiving.{ReceiveStops, msg_receive-Ends}

-- Why a system call of the running process does not come back.
pub data CallStops (k : Kernel) (function peer : ℤ) : Stop → Type 0 where
  -- the peer is the caller, or no peer
  bad_peer :
      (is_peer peer && not (eq_ℤ (pos k.p_proc_ready) peer)) ≡ false
      → CallStops k function peer assert_failed
  bad_function :
      eq_ℤ function send ≡ false
      → eq_ℤ function receive ≡ false
      → CallStops k function peer panicked
  -- a send to anybody or an interrupt
  no_receiver :
      function ≡ send → (peer ≡ any) ⊎ (peer ≡ interrupt) → CallStops k function peer out_of_table
  circle :
      (d : ℕ)
      → function ≡ send
      → peer ≡ pos d
      → Waits k.proc_table k.p_proc_ready d
      → CallStops k function peer panicked
  -- the caller has to wait, and no other process can run
  all_wait : NobodyElse k.proc_table k.p_proc_ready → CallStops k function peer looping
  -- a receive from a named process, with an interrupt pending
  interrupted :
      (f : ℕ)
      → function ≡ receive
      → peer ≡ pos f
      → ((k.proc_table k.p_proc_ready).has_int_msg == 0) ≡ false
      → CallStops k function peer assert_failed

msg_send-nobody :
    (k : Kernel) (s msg : ℕ) (peer : ℤ)
    → eq_ℤ (pos s) peer ≡ false
    → (peer ≡ any) ⊎ (peer ≡ interrupt)
    → msg_send s peer msg k ≡ stopped out_of_table
unfolding msg_send deadlock
msg_send-nobody k s msg peer ne (inl e) =
    let other : eq_ℤ (pos s) any ≡ false = subst (λ z. eq_ℤ (pos s) z ≡ false) e ne in
    rw e (rw other)
msg_send-nobody k s msg peer ne (inr e) = rw e refl

peer_cases :
    (peer : ℤ)
    → is_peer peer ≡ true
    → ((d : ℕ) × (d < nr_procs) × (peer ≡ pos d)) ⊎ ((peer ≡ any) ⊎ (peer ≡ interrupt))
peer_cases (negsuc n) h = inr (inr (ground (arith, h)))
peer_cases (pos n) h = elim (Bool-cases (ltb n nr_procs)) [
  | inl e ↦ inl (n, ltb→lt n nr_procs e, refl)
  | inr e ↦ inr (inl (ground (arith, h, e)))
]

bad_peer-fails :
    (k : Kernel) (qs : ℕ → List ℕ) (function peer : ℤ) (msg : ℕ)
    → IsRunning k qs
    → msg < 2 ^ 32
    → (is_peer peer && not (eq_ℤ (pos k.p_proc_ready) peer)) ≡ false
    → syscall_sendrec function peer msg k.p_proc_ready k ≡ stopped assert_failed
unfolding syscall_sendrec
bad_peer-fails k qs function peer msg run small bad = elim (Bool-cases (is_peer peer)) [
  | inr e ↦ rw (run.outer, e)
  | inl e ↦
      let to = va2la-ok k.p_proc_ready msg k (run.valid.flat k.p_proc_ready run.in_table) small in
      let same : eq_ℤ (pos k.p_proc_ready) peer ≡ true = ground (arith, e, bad) in
      rw (run.outer, e) (rw (to, ◌>>=◌, ◌>>◌) (rw same))
]

signed-IsRunning :
    (k : Kernel) (qs : ℕ → List ℕ) (msg : ℕ)
    → IsRunning k qs
    → IsRunning (signed k k.p_proc_ready msg) qs
signed-IsRunning k qs msg run = record {
  valid = run.valid;
  in_table = run.in_table;
  idle = run.idle;
  outer = run.outer;
}

pub Ends-mono :
    {A : Type 0} (S S' : Stop → Type 0) (R R' : A → Kernel → Type 0) (r : Run A)
    → ((why : Stop) → S why → S' why)
    → ((a : A) (k : Kernel) → R a k → R' a k)
    → Ends S R r
    → Ends S' R' r
Ends-mono S S' R R' (ok a k) f g h = g a k h
Ends-mono S S' R R' (stopped why) f g h = f why h

module _ (k : Kernel) (qs : ℕ → List ℕ) (function peer : ℤ) (msg : ℕ) (run : IsRunning k qs)
    (some_msg : 0 < msg) (small : msg < 2 ^ 32) (known : is_peer peer ≡ true)
    (other : eq_ℤ (pos k.p_proc_ready) peer ≡ false) where
  abbrev Outcome : Run ℕ → Type 0
  Outcome = Ends (CallStops k function peer) (Returns k msg)

  abbrev k1 : Kernel
  k1 = signed k k.p_proc_ready msg

  run1 : IsRunning k1 qs
  run1 = signed-IsRunning k qs msg run

  from_signed : (r : ℕ) (k' : Kernel) → Returns k1 msg r k' → Returns k msg r k'
  from_signed r k' (back, moved) = (back, Moved-signed k k' msg moved)

  sends : function ≡ send → Outcome (msg_send k.p_proc_ready peer msg k1)
  sends is_send = elim (peer_cases peer known) [
    | inl (d, hd, named) ↦
        let ne : k.p_proc_ready ≢ d = λ z. absurd (ground (arith, other, named, z)) in
        subst (λ z. Outcome (msg_send k.p_proc_ready z msg k1)) (sym named)
          (Ends-mono (SendStops k1 d) (CallStops k function peer) (Returns k1 msg) (Returns k msg)
            (msg_send k.p_proc_ready (pos d) msg k1)
            (λ why h. elim h [
              | inl (e, w) ↦ subst (CallStops k function peer) (sym e) (circle d is_send named w)
              | inr (e, n) ↦ subst (CallStops k function peer) (sym e) (all_wait n)
            ])
            from_signed (msg_send-Ends k1 qs d msg run1 hd ne some_msg small))
    | inr nobody ↦
        subst Outcome (sym (msg_send-nobody k1 k.p_proc_ready msg peer other nobody))
          (no_receiver is_send nobody)
  ]

  receives : function ≡ receive → Outcome (msg_receive k.p_proc_ready peer msg k1)
  receives is_receive =
      Ends-mono (ReceiveStops k1 peer) (CallStops k function peer) (Returns k1 msg) (Returns k msg)
        (msg_receive k.p_proc_ready peer msg k1)
        (λ why h. elim h [
          | inl (e, n) ↦ subst (CallStops k function peer) (sym e) (all_wait n)
          | inr (e, int, f, hf, named) ↦
              subst (CallStops k function peer) (sym e) (interrupted f is_receive named int)
        ])
        from_signed (msg_receive-Ends k1 qs peer msg run1 known other some_msg small)

  called : Outcome (syscall_sendrec function peer msg k.p_proc_ready k)
  called =
      let e =
        syscall_sendrec_lem k qs function peer k.p_proc_ready msg run.valid run.in_table run.outer
          known other small in
      subst Outcome (sym e) (elim (Bool-cases (eq_ℤ function send)) [
        | inl s ↦ rw s (sends (eq_ℤ→eq function send s))
        | inr s ↦ rw s (elim (Bool-cases (eq_ℤ function receive)) [
          | inl r ↦ rw r (receives (eq_ℤ→eq function receive r))
          | inr r ↦ rw r (bad_function s r)
        ])
      ])

-- Every outcome, with how far its effect reaches.
pub syscall_sendrec-Returns :
    (k : Kernel) (qs : ℕ → List ℕ) (function peer : ℤ) (msg : ℕ)
    → IsRunning k qs
    → 0 < msg
    → msg < 2 ^ 32
    → Ends
        (CallStops k function peer)
        (Returns k msg)
        (syscall_sendrec function peer msg k.p_proc_ready k)
syscall_sendrec-Returns k qs function peer msg run some_msg small =
    elim (Bool-cases (is_peer peer && not (eq_ℤ (pos k.p_proc_ready) peer))) [
      | inl fine ↦
          called k qs function peer msg run some_msg small (ground (arith, fine))
            (ground (arith, fine))
      | inr bad ↦
          subst (Ends (CallStops k function peer) (Returns k msg))
            (sym (bad_peer-fails k qs function peer msg run small bad)) (bad_peer bad)
    ]

-- A system call of the running process, with a message at an address of 32 bits that is not 0,
-- returns 0 with a process running, or stops for a reason that `CallStops` names: the peer is no
-- process or the caller, the function is unknown, a send is to anybody or to an interrupt, a send
-- would close a circle of senders, the caller has to wait and no other process can run, or it
-- receives from a named process while an interrupt is pending.
pub syscall_sendrec-Ends :
    (k : Kernel) (qs : ℕ → List ℕ) (function peer : ℤ) (msg : ℕ)
    → IsRunning k qs
    → 0 < msg
    → msg < 2 ^ 32
    → Ends (CallStops k function peer) Resumes (syscall_sendrec function peer msg k.p_proc_ready k)
syscall_sendrec-Ends k qs function peer msg run some_msg small =
    Ends-mono (CallStops k function peer) (CallStops k function peer) (Returns k msg) Resumes
      (syscall_sendrec function peer msg k.p_proc_ready k) (λ why h. h) (λ r k' h. h.0)
      (syscall_sendrec-Returns k qs function peer msg run some_msg small)
