-- ===== src/Ipc/Send/Wait.antt =====
-- `msg_send` where the sender has to wait.
use canalotus.Common.{
  ℕ, ◌^◌, ◌<◌, ◌≡◌, refl, sym, ◌∙◌, ap, ◌≢◌, inl, inr, true, false, ◌==◌, Bool-cases, ==_refl,
  ==_of_ne, lt→ltb, update, pos, none, List, [], ◌∷◌, ◌++◌, has, arith,
}
use mathlib.Core.Path.{fun_ext}
use canalotus.State.{
  Process, Table, Kernel, ok, stopped, panicked, M, ◌>>=◌, ◌>>◌, assert, proc, nr_procs, sending,
  is_idle, is_sending_to,
}
use canalotus.Ipc.{block, deadlock}
use canalotus.Ipc.Deadlock.{Waits, deadlock_lem}
use canalotus.Ipc.Valid.{
  IsValid, Chain, Chain-frame, IsValid-messages, Scheduled-with_ticks, IsValid-with_ticks,
  queue-length,
}
use canalotus.Schedule.Choice.{CanRun, Scheduled, schedule_lem}
use canalotus.Ipc.Send.{enqueue, wait_to_send, waits_for, msg_send}
use canalotus.Ipc.Send.HandOver.{deadlock-false}
use canalotus.Ipc.Send.Queue.{Joined, enqueued, enqueue-ok, enqueued-Joined}
use canalotus.Ipc.Send.Joining.{marked, Joined-IsValid}

-- `block` comes back with the scheduler's choice.
pub block-ok :
    (k : Kernel) (p q : ℕ)
    → ((k.proc_table p).p_flags == 0) ≡ false
    → q < nr_procs
    → CanRun (k.proc_table q)
    → (t' : Table) × (r : ℕ) × (block p k ≡ ok tt (record k { proc_table = t'; p_proc_ready = r }))
      × Scheduled k.proc_table t' r
unfolding block
block-ok k p q busy h can = let (t', r, e, sch) = schedule_lem k q h can in (t', r, rw busy e, sch)

-- What a call that blocks leaves: another process was chosen, and no message changed.
pub record Blocked (k k' : Kernel) (t : Table) : Type 0 where
  pub chosen : Scheduled t k'.proc_table k'.p_proc_ready
  pub same_mem : k'.mem ≡ k.mem
  pub same_ticks : k'.ticks ≡ k.ticks
  pub same_reenter : k'.k_reenter ≡ k.k_reenter

-- the table that the scheduler starts from
abbrev pub parked : Table → (s d msg : ℕ) → List ℕ → Table
parked t s d msg xs = enqueued (update t s (marked d msg (t s))) s d xs

update_twice : (t : Table) (i : ℕ) (a b : Process) → update (update t i a) i b ≡ update t i b
update_twice t i a b = fun_ext (λ j. ground arith)

not_queued :
    {t : Table} {qs : ℕ → List ℕ} (s d : ℕ)
    → IsValid t qs
    → d < nr_procs
    → is_idle (t s) ≡ true
    → has s (qs d) ≡ false
not_queued {t} {qs} s d v hd idle = elim (Bool-cases (has s (qs d))) [
  | inl i ↦ absurd (ground (arith, v.queued d s hd i))
  | inr o ↦ o
]

module _ (k : Kernel) (qs : ℕ → List ℕ) (s d msg : ℕ) (v : IsValid k.proc_table qs)
    (hd : d < nr_procs) (ne : s ≢ d) (idle : is_idle (k.proc_table s) ≡ true)
    (some_msg : 0 < msg) where
  abbrev t1 : Table
  t1 = update k.proc_table s (marked d msg (k.proc_table s))

  chain_marked : Chain t1 (t1 d).q_sending (qs d)
  chain_marked = rw (==_of_ne d s (λ e. ne (sym e))) (
      Chain-frame k.proc_table t1 (qs d) (k.proc_table d).q_sending (λ x i. ground arith)
        (v.chain d hd))

  pub parked-Joined : Joined t1 (parked k.proc_table s d msg (qs d)) s d (qs d)
  parked-Joined =
      enqueued-Joined t1 s d ne (qs d) chain_marked (v.distinct d hd) (not_queued s d v hd idle)

  parked-CanRun :
      (q : ℕ) → q ≢ s → CanRun (k.proc_table q) → CanRun (parked k.proc_table s d msg (qs d) q)
  parked-CanRun q off can = rw (parked-Joined.other q off, ==_of_ne q s off) can

  pub enqueue_marked :
      enqueue s d (record k { proc_table = t1 })
      ≡ ok tt (record k { proc_table = parked k.proc_table s d msg (qs d) })
  enqueue_marked =
      enqueue-ok (record k { proc_table = t1 }) s d (qs d) chain_marked (queue-length v d hd)
        (not_queued s d v hd idle) ne

  pub parked_self :
      parked k.proc_table s d msg (qs d) s
      ≡ record (marked d msg (k.proc_table s)) { next_sending = none }
  parked_self = ground (arith, parked-Joined.self)

  parked_sends :
      {t' : Table} {r : ℕ}
      → Scheduled (parked k.proc_table s d msg (qs d)) t' r
      → is_sending_to d (t' s) ≡ true
  parked_sends sch = rw (Scheduled-with_ticks sch, parked_self) (ground arith)

  pub wait_to_send-marks :
      wait_to_send s d msg k
      ≡ (do enqueue s d; block s; s' ← proc s; assert (is_sending_to d s'))
          (record k { proc_table = t1 })
  unfolding wait_to_send
  wait_to_send-marks =
      let flags : (k.proc_table s).p_flags ≡ 0 = ground arith in
      let rest : M (Unit {0}) = (do
        enqueue s d
        block s
        s' ← proc s
        assert (is_sending_to d s')) in
      let before : Process = record (k.proc_table s) { p_flags = sending } in
      let after : Process = marked d msg (k.proc_table s) in
      rw (==_refl s, flags)
        (rw (==_refl s, ◌>>=◌, ◌>>◌)
          (ap (λ t. rest (record k { proc_table = t })) (update_twice k.proc_table s before after)))

  wait_to_send-ok :
      (q : ℕ)
      → q < nr_procs
      → q ≢ s
      → CanRun (k.proc_table q)
      → (k' : Kernel) × (wait_to_send s d msg k ≡ ok tt k')
        × Blocked k k' (parked k.proc_table s d msg (qs d))
  wait_to_send-ok q hq off can =
      let kp : Kernel = record k { proc_table = parked k.proc_table s d msg (qs d) } in
      let (t', r, e, sch) =
        block-ok kp s q (rw parked_self (ground arith)) hq (parked-CanRun q off can) in
      (
        record k { proc_table = t'; p_proc_ready = r },
        wait_to_send-marks
            ∙ rw (enqueue_marked, ◌>>=◌, ◌>>◌) (rw (e, ◌>>=◌, ◌>>◌) (rw (parked_sends sch))),
        record { chosen = sch; same_mem = refl; same_ticks = refl; same_reenter = refl },
      )

-- Under the invariant, and with another process that can run: a process that waits for nothing and
-- sends a message to another one, which does not wait for it and does not itself wait for the
-- sender, directly or through others, has to wait. `msg_send` returns 0 with the sender at the end
-- of the receiver's queue, behind those who came before it; the scheduler has chosen a process, no
-- message has changed, and the invariant is kept. The message's address is not 0 and has 32 bits.
pub msg_send_blocks :
    (k : Kernel) (qs : ℕ → List ℕ) (s d msg q : ℕ)
    → IsValid k.proc_table qs
    → s < nr_procs
    → d < nr_procs
    → s ≢ d
    → is_idle (k.proc_table s) ≡ true
    → waits_for (k.proc_table d) s ≡ false
    → (Waits k.proc_table s d → ⊥)
    → 0 < msg
    → msg < 2 ^ 32
    → q < nr_procs
    → q ≢ s
    → CanRun (k.proc_table q)
    → (k' : Kernel) × (msg_send s (pos d) msg k ≡ ok 0 k')
      × IsValid k'.proc_table (update qs d (qs d ++ s ∷ []))
      × Blocked k k' (parked k.proc_table s d msg (qs d))
unfolding msg_send
msg_send_blocks k qs s d msg q v hs hd ne idle busy free some_msg small hq off can =
    let (k', e, b) = wait_to_send-ok k qs s d msg v hd ne idle some_msg q hq off can in
    let quiet : deadlock s (pos d) k ≡ ok false k = deadlock-false {k = k} s d v hd free in
    (
      k',
      rw (==_of_ne s d ne)
          (rw (quiet, ◌>>=◌, ◌>>◌) (rw (lt→ltb d nr_procs hd, busy) (rw (e, ◌>>=◌, ◌>>◌)))),
      rw (Scheduled-with_ticks b.chosen) (
          IsValid-with_ticks (λ p. (k'.proc_table p).ticks)
            (Joined-IsValid v hs hd ne idle some_msg small
              (parked-Joined k qs s d msg v hd ne idle some_msg) free)),
      b,
    )

-- Under the invariant, a send to another process that waits, directly or through others, to send
-- to the sender stops the kernel with a panic.
pub msg_send_panics :
    (k : Kernel) (qs : ℕ → List ℕ) (s d msg : ℕ)
    → IsValid k.proc_table qs
    → d < nr_procs
    → s ≢ d
    → Waits k.proc_table s d
    → msg_send s (pos d) msg k ≡ stopped panicked
unfolding msg_send
msg_send_panics k qs s d msg v hd ne circle =
    let (b, e, iff) = deadlock_lem k s d hd v.acyclic (IsValid-messages v) in
    rw (==_of_ne s d ne) (rw (e, ◌>>=◌, ◌>>◌) (rw (iff.1 circle)))
