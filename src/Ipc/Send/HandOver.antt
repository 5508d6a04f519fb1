-- ===== src/Ipc/Send/HandOver.antt =====
-- `msg_send` where the receiver is waiting for the message.
use canalotus.Common.{
  ℕ, ◌^◌, ◌<◌, ◌≡◌, refl, ◌∙◌, ap, ◌≢◌, inl, inr, true, false, ◌==◌, Bool-cases, ==_of_ne, lt→ltb,
  update, pos, eq_ℤ→eq, List, arith,
}
use canalotus.State.{
  Process, Table, Kernel, ok, nr_procs, receiving, no_proc, has_flag, is_idle, ◌>>=◌, ◌>>◌,
}
use canalotus.Ipc.{deadlock, va2la, unblock, ldt_seg_linear, index_ldt_rw}
use canalotus.Ipc.Send.{hand_over, waits_for, msg_send}
use canalotus.Ipc.Walk.{is_sending}
use canalotus.Ipc.Deadlock.{Waits, direct, through, deadlock_lem}
use canalotus.Ipc.Change.{Alike, IsValid-update}
use canalotus.Ipc.Valid.{IsValid, Mode, IsValid-messages, is_receiving}

pub va2la-ok :
    (p va : ℕ) (k : Kernel)
    → ldt_seg_linear (k.proc_table p) index_ldt_rw ≡ 0
    → va < 2 ^ 32
    → va2la p va k ≡ ok va k
unfolding va2la
va2la-ok p va k flat small = ground arith

-- a receiver that has its message
abbrev pub woken : Process → Process
woken p = record p { p_msg = 0; p_flags = 0; p_recvfrom = no_proc }

pub unblock-ok : (p : ℕ) (k : Kernel) → (k.proc_table p).p_flags ≡ 0 → unblock p k ≡ ok tt k
unfolding unblock
unblock-ok p k e = rw e

-- the kernel after `dst` was handed the message at `msg`
abbrev pub handed : Kernel → (dst msg : ℕ) → Kernel
handed k d msg = record k {
  proc_table = update k.proc_table d (woken (k.proc_table d));
  mem = update k.mem (k.proc_table d).p_msg (k.mem msg);
}

module _ (k : Kernel) (s d msg : ℕ) where
  pub hand_over-ok :
      s ≢ d
      → is_idle (k.proc_table s) ≡ true
      → is_receiving (k.proc_table d) ≡ true
      → va2la d (k.proc_table d).p_msg k ≡ ok (k.proc_table d).p_msg k
      → va2la s msg k ≡ ok msg k
      → (msg == 0) ≡ false
      → hand_over s d msg k ≡ ok tt (handed k d msg)
  unfolding hand_over
  hand_over-ok ne idle waiting to from some_msg =
      let has_msg : ((k.proc_table d).p_msg == 0) ≡ false = ground arith in
      let flags : (k.proc_table d).p_flags ≡ receiving = ground arith in
      let nowhere : (k.proc_table d).p_sendto ≡ no_proc =
        ground (arith, eq_ℤ→eq (k.proc_table d).p_sendto no_proc) in
      let free : unblock d (handed k d msg) ≡ ok tt (handed k d msg) =
        unblock-ok d (handed k d msg) (ground arith) in
      let awake : is_idle ((handed k d msg).proc_table d) ≡ true = ground arith in
      let still : is_idle ((handed k d msg).proc_table s) ≡ true = ground arith in
      rw (has_msg, some_msg)
        (rw (to, ◌>>=◌, ◌>>◌)
          (rw (from, ◌>>=◌, ◌>>◌) (rw flags (rw (free, ◌>>=◌, ◌>>◌) (rw (awake, still))))))

receiving_of_flag :
    (p : Process) → Mode p → has_flag p.p_flags receiving ≡ true → is_receiving p ≡ true
receiving_of_flag p m h = ground (arith, m)

-- a process that waits to receive is not on the way to anybody
not_sending_of_flag :
    (p : Process) → Mode p → has_flag p.p_flags receiving ≡ true → is_sending p ≡ false
not_sending_of_flag p m h = ground (arith, m)

pub Waits-first : {t : Table} {q p : ℕ} → Waits t q p → is_sending (t p) ≡ true
Waits-first (direct s) = s.flag
Waits-first (through s r) = s.flag

pub deadlock-false :
    {k : Kernel} {qs : ℕ → List ℕ} (s d : ℕ)
    → IsValid k.proc_table qs
    → d < nr_procs
    → (Waits k.proc_table s d → ⊥)
    → deadlock s (pos d) k ≡ ok false k
deadlock-false {k} s d v below free =
    let (b, e, yes_iff) = deadlock_lem k s d below v.acyclic (IsValid-messages v) in
    elim (Bool-cases b) [
      | inl on ↦ absurd (free (yes_iff.0 on))
      | inr off ↦ e ∙ ap (λ z. ok z k) off
    ]

woken-Alike : (p : Process) → is_receiving p ≡ true → Alike p (woken p)
woken-Alike p h = record {
  segments = refl;
  first = refl;
  next = refl;
  flag = ground arith;
  target = refl;
  sends = λ e. ground arith;
}

woken-Mode : (p : Process) → is_receiving p ≡ true → Mode (woken p)
woken-Mode p h = inl (ground arith)

-- Under the invariant: a process that waits for nothing and sends a message to another one that
-- waits for it, or for anybody, has it copied at once to where that process asked for it.
-- `msg_send` returns 0, the receiver is ready again, no other process or message changes, and the
-- invariant is kept with the same queues. The message's address is not 0 and has 32 bits.
pub msg_send_delivers :
    (k : Kernel) (qs : ℕ → List ℕ) (s d msg : ℕ)
    → IsValid k.proc_table qs
    → s < nr_procs
    → d < nr_procs
    → s ≢ d
    → is_idle (k.proc_table s) ≡ true
    → waits_for (k.proc_table d) s ≡ true
    → 0 < msg
    → msg < 2 ^ 32
    → (msg_send s (pos d) msg k ≡ ok 0 (handed k d msg)) × IsValid (handed k d msg).proc_table qs
unfolding msg_send
msg_send_delivers k qs s d msg v hs hd ne idle waits some_msg small =
    let flag : has_flag (k.proc_table d).p_flags receiving ≡ true = ground arith in
    let rec : is_receiving (k.proc_table d) ≡ true =
      receiving_of_flag (k.proc_table d) (v.mode d hd) flag in
    let free = deadlock-false {k = k} s d v hd (λ w.
      absurd (ground (arith, Waits-first w, not_sending_of_flag (k.proc_table d) (v.mode d hd)))) in
    let done =
      hand_over-ok k s d msg ne idle rec
        (va2la-ok d (k.proc_table d).p_msg k (v.flat d hd) (v.small d hd))
        (va2la-ok s msg k (v.flat s hs) small) (ground arith) in
    (
      rw (==_of_ne s d ne)
          (rw (free, ◌>>=◌, ◌>>◌) (rw (lt→ltb d nr_procs hd, waits) (rw (done, ◌>>=◌, ◌>>◌)))),
      IsValid-update v (woken-Alike (k.proc_table d) rec) (omega arith)
          (woken-Mode (k.proc_table d) rec),
    )
