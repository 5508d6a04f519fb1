-- ===== src/Calls/Request.antt =====
-- A request to a process that listens: `send_recv(BOTH, …)` (src/kernel/proc.c) up to the point where
-- the caller waits for the answer.
use canalotus.Common.{
  ℕ, ◌^◌, ◌<◌, ◌≡◌, refl, sym, ◌∙◌, ap, ◌≢◌, ◌⊎◌, inl, inr, true, false, ◌==◌, ==_refl, ==_of_ne,
  update, pos, ltb_ℤ, List, has, Bool-cases, arith,
}
use canalotus.State.{Message, Table, Kernel, ok, any, nr_procs, is_idle}
use canalotus.Ipc.Valid.{IsValid, is_receiving}
use canalotus.Ipc.Send.{waits_for}
use canalotus.Ipc.Send.HandOver.{handed, woken, msg_send_delivers}
use canalotus.Ipc.Send.Wait.{Blocked}
use canalotus.Ipc.Receive.Wait.{waiting_table, msg_receive_blocks}
use canalotus.Ipc.Syscall.{send, receive, is_peer, syscall_sendrec}
use canalotus.Ipc.Syscall.Laws.{signed, syscall_sendrec_lem}
use canalotus.Schedule.Choice.{CanRun, Scheduled, Scheduled-same}
use canalotus.System.{IsRunning, Blocked-IsRunning}
use canalotus.Calls.Instructions.{steps-sendrec}
use canalotus.Calls.{Code, ◌>>=◌, both, send_recv, steps}

-- A process waits for a message from anybody, which is to be put at `a`, and has time when ready.
pub record Listens (k : Kernel) (p a : ℕ) : Type 0 where
  pub waits : is_receiving (k.proc_table p) ≡ true
  pub anybody : (k.proc_table p).p_recvfrom ≡ any
  pub address : (k.proc_table p).p_msg ≡ a
  pub time :
      (ltb_ℤ (pos 0) (k.proc_table p).ticks ≡ true)
      ⊎ (ltb_ℤ (pos 0) (k.proc_table p).priority ≡ true)

-- Process `c` waits at `msg` for `d`, which is ready and has at `a` the message `m` from `c`.
pub record Asks (k : Kernel) (c d msg a : ℕ) (m : Message) : Type 0 where
  pub waits : is_receiving (k.proc_table c) ≡ true
  pub from : (k.proc_table c).p_recvfrom ≡ pos d
  pub address : (k.proc_table c).p_msg ≡ msg
  pub ready : is_idle (k.proc_table d) ≡ true
  pub asks : k.mem a ≡ record m { source = pos c }

-- the table from which the scheduler chooses when the caller waits
abbrev pub requested : Kernel → (d msg : ℕ) → Table
requested k d msg =
    waiting_table (update k.proc_table d (woken (k.proc_table d))) k.p_proc_ready (pos d) msg

module _ (k : Kernel) (qs : ℕ → List ℕ) (d msg a : ℕ) (run : IsRunning k qs) (hd : d < nr_procs)
    (ne : k.p_proc_ready ≢ d) (l : Listens k d a) (some_msg : 0 < msg) (small : msg < 2 ^ 32) where
  abbrev c : ℕ
  c = k.p_proc_ready

  abbrev delivered : Kernel
  delivered = handed (signed k c msg) d msg

  known : is_peer (pos d) ≡ true
  known = ground (arith, hd)

  sends-ok :
      (syscall_sendrec send (pos d) msg c k ≡ ok 0 delivered) × IsValid delivered.proc_table qs
  sends-ok =
      let v = run.valid in
      let waits : waits_for (k.proc_table d) c ≡ true = ground (arith, l.waits, l.anybody) in
      let (e, v') =
        msg_send_delivers (signed k c msg) qs c d msg v run.in_table hd ne run.idle waits some_msg
          small in
      (
        syscall_sendrec_lem k qs send (pos d) c msg v run.in_table run.outer known (==_of_ne c d ne)
              small
            ∙ e,
        v',
      )

  nobody : has d (qs c) ≡ false
  nobody = elim (Bool-cases (has d (qs c))) [
    | inl i ↦ absurd (ground (arith, run.valid.queued c d run.in_table i, l.waits))
    | inr o ↦ o
  ]

  still_idle : is_idle (delivered.proc_table c) ≡ true
  still_idle = rw (==_of_ne c d ne) run.idle

  server_time : CanRun (delivered.proc_table d)
  server_time = rw (==_refl d) (refl, l.time)

  waits-ok :
      ((k.proc_table c).has_int_msg == 0) ≡ true
      → (k' : Kernel) × (syscall_sendrec receive (pos d) msg c delivered ≡ ok 0 k')
        × IsValid k'.proc_table qs
        × Blocked (signed delivered c msg) k' (waiting_table delivered.proc_table c (pos d) msg)
  waits-ok quiet =
      let self = ==_of_ne c d ne in
      let no_int : ((delivered.proc_table c).has_int_msg == 0) ≡ true = rw self quiet in
      let (k', e, v, b) =
        msg_receive_blocks (signed delivered c msg) qs c msg d (pos d) sends-ok.1 run.in_table
          still_idle (inr (inr (d, hd, refl, nobody))) self some_msg hd (λ e. ne (sym e))
          server_time small no_int in
      (
        k',
        syscall_sendrec_lem delivered qs receive (pos d) c msg sends-ok.1 run.in_table run.outer
              known self small
            ∙ e,
        v,
        b,
      )

  waiting-Asks :
      a ≢ msg
      → {k' : Kernel}
      → Blocked (signed delivered c msg) k' (waiting_table delivered.proc_table c (pos d) msg)
      → Asks k' c d msg a (k.mem msg)
        × (k'.p_proc_ready ≢ c)
        × ((q : ℕ) → q ≢ c → q ≢ d → (k'.proc_table q).p_msg ≡ (k.proc_table q).p_msg)
  waiting-Asks apart {k'} b =
      let same = Scheduled-same b.chosen in
      let off : (d == c) ≡ false = ==_of_ne d c (λ e. ne (sym e)) in
      (
        record {
          waits = rw (same c, ==_refl c) (ground (arith, still_idle, some_msg));
          from = rw (same c, ==_refl c) refl;
          address = rw (same c, ==_refl c) refl;
          ready = rw (same d, off) (ground (arith, l.waits));
          asks =
              ap (λ m. m a) b.same_mem
              ∙ rw (==_of_ne a msg apart, l.address, ==_refl a, ==_refl msg) refl;
        },
        λ e. absurd (ground (arith, b.chosen.ready, same k'.p_proc_ready, e)),
        λ q other far. rw (same q, ==_of_ne q c other, ==_of_ne q d far) refl,
      )

-- With a process running that has no pending interrupt, while `d` listens at another address and will
-- have time: the two system calls of `send_recv(BOTH, …)` send the message and wait. Then another
-- process runs, the invariant is kept with the same queues, the messages that others wait with stand
-- where they stood, and the scheduler has chosen the process that runs.
pub both-asks :
    (k : Kernel) (qs : ℕ → List ℕ) (d msg a : ℕ) {A : Type 0} (next : ℕ → Code A)
    → IsRunning k qs
    → d < nr_procs
    → k.p_proc_ready ≢ d
    → Listens k d a
    → ((k.proc_table k.p_proc_ready).has_int_msg == 0) ≡ true
    → a ≢ msg
    → 0 < msg
    → msg < 2 ^ 32
    → (k' : Kernel) × (steps 2 k.p_proc_ready (send_recv both (pos d) msg >>= next) k
        ≡ ok (next 0) k')
      × IsRunning k' qs
      × Asks k' k.p_proc_ready d msg a (k.mem msg)
      × (k'.p_proc_ready ≢ k.p_proc_ready)
      × ((q : ℕ) → q ≢ k.p_proc_ready → q ≢ d → (k'.proc_table q).p_msg ≡ (k.proc_table q).p_msg)
      × Scheduled (requested k d msg) k'.proc_table k'.p_proc_ready
unfolding steps send_recv ◌>>=◌
both-asks k qs d msg a next run hd ne l quiet apart some_msg small =
    let (k', e, v, b) = waits-ok k qs d msg a run hd ne l some_msg small quiet in
    let (asked, other, messages) = waiting-Asks k qs d msg a run hd ne l some_msg small apart b in
    let sent = (sends-ok k qs d msg a run hd ne l some_msg small).0 in
    (
      k',
      steps-sendrec 1 k send _ msg 0 _ _ sent
          ∙ steps-sendrec 0 (delivered k qs d msg a run hd ne l some_msg small) receive _ msg 0 _ k'
              e,
      Blocked-IsRunning
          (signed (delivered k qs d msg a run hd ne l some_msg small) k.p_proc_ready msg) k' _ qs
          run.outer v b,
      asked,
      other,
      messages,
      b.chosen,
    )
