-- ===== src/Ipc/Receive/Wait.antt =====
-- `msg_receive` where no message is there: a pending interrupt, and a receiver that waits.
use canalotus.Common.{
  ℕ, ◌^◌, ◌<◌, ◌≡◌, refl, ◌∙◌, ◌≢◌, ◌⊎◌, inl, inr, Bool, true, false, not, ◌&&◌, ◌==◌,
  if◌then◌else◌, ==_refl, ==_of_ne, lt→ltb, update, ℤ, pos, eq_ℤ, none, List, [], has, arith,
}
use mathlib.Core.Path.{subst}
use canalotus.State.{
  Process, Message, Table, Kernel, ok, stopped, assert_failed, ◌>>=◌, ◌>>◌, assert, proc, nr_procs,
  receiving, interrupt, hard_int, no_proc, any, is_idle,
}
use canalotus.Ipc.{reset_msg, block}
use canalotus.Ipc.Walk.{is_sending}
use canalotus.Ipc.Valid.{IsValid, is_receiving, Chain, Scheduled-with_ticks, IsValid-with_ticks}
use canalotus.Schedule.Choice.{CanRun, Scheduled}
use canalotus.Ipc.Receive.{
  find_sending, find_sender, take_interrupt, wait_to_receive, has_pending, msg_receive,
}
use canalotus.Ipc.Change.{Alike, IsValid-update}
use canalotus.Ipc.Send.HandOver.{va2la-ok}
use canalotus.Ipc.Send.Wait.{block-ok, Blocked}

-- the message that stands for an interrupt
abbrev pub int_msg : Message
int_msg = record reset_msg { source = interrupt; msg_type = hard_int }

-- the kernel after `cnt` was told of its pending interrupt
abbrev pub told : Kernel → (cnt msg : ℕ) → Kernel
told k cnt msg = record k {
  proc_table = update k.proc_table cnt (record (k.proc_table cnt) { has_int_msg = 0 });
  mem = update k.mem msg int_msg;
}

idle_parts :
    (p : Process)
    → is_idle p ≡ true
    → ((p.p_flags == 0) ≡ true) × ((p.p_msg == 0) ≡ true) × (eq_ℤ p.p_sendto no_proc ≡ true)
idle_parts p h = (ground arith, ground arith, ground arith)

no_int_Alike : (p : Process) → Alike p (record p { has_int_msg = 0 })
no_int_Alike p = record {
  segments = refl;
  first = refl;
  next = refl;
  flag = refl;
  target = refl;
  sends = λ e. refl;
}

-- Under the invariant: a process that waits for nothing and has a pending interrupt, and receives
-- from anybody or an interrupt, gets the interrupt's message first, whoever waits to send.
-- `msg_receive` returns 0, the interrupt is pending no more, nothing else changes, and the
-- invariant is kept with the same queues. The message's address is not 0 and has 32 bits.
pub msg_receive_pending :
    (k : Kernel) (qs : ℕ → List ℕ) (cnt msg : ℕ) (src : ℤ)
    → IsValid k.proc_table qs
    → cnt < nr_procs
    → is_idle (k.proc_table cnt) ≡ true
    → has_pending (k.proc_table cnt) src ≡ true
    → 0 < msg
    → msg < 2 ^ 32
    → (msg_receive cnt src msg k ≡ ok 0 (told k cnt msg)) × IsValid (told k cnt msg).proc_table qs
unfolding msg_receive take_interrupt
msg_receive_pending k qs cnt msg src v hc idle pending some_msg small =
    let self : eq_ℤ (pos cnt) src ≡ false = ground arith in
    let m : (msg == 0) ≡ false = ground arith in
    let to = va2la-ok cnt msg k (v.flat cnt hc) small in
    let p = idle_parts (k.proc_table cnt) idle in
    (
      rw (self, pending, m) (rw (to, ◌>>=◌, ◌>>◌) (rw (==_refl cnt) (rw (p.0, p.1, p.2)))),
      IsValid-update v (no_int_Alike (k.proc_table cnt)) (v.small cnt hc) (inl idle),
    )

-- a process that waits to receive from `src` at `msg`
abbrev pub listening : ℤ → ℕ → Process → Process
listening src msg p = record p { p_flags = receiving; p_msg = msg; p_recvfrom = src }

pub listening-Alike :
    (src : ℤ) (msg : ℕ) (p : Process) → is_idle p ≡ true → Alike p (listening src msg p)
listening-Alike src msg p h = record {
  segments = refl;
  first = refl;
  next = refl;
  flag = ground arith;
  target = refl;
  sends = λ e. ground arith;
}

-- Nobody sends what `src` asks for, where `xs` wait to send.
abbrev pub NoneFor : List ℕ → ℤ → Type 0
NoneFor xs src =
    (src ≡ interrupt)
    ⊎ (((src ≡ any) × (xs ≡ [])) ⊎ ((f : ℕ) × (f < nr_procs) × (src ≡ pos f) × (has f xs ≡ false)))

module _ (k : Kernel) (qs : ℕ → List ℕ) (cnt : ℕ) (v : IsValid k.proc_table qs)
    (hc : cnt < nr_procs) where
  find_sending-none :
      (f : ℕ) → f < nr_procs → has f (qs cnt) ≡ false → find_sending cnt f k ≡ ok none k
  unfolding find_sending
  find_sending-none f hf out =
      let no : (is_sending (k.proc_table f) && eq_ℤ (k.proc_table f).p_sendto (pos cnt)) ≡ false =
        ground (arith, v.mode f hf, v.sender cnt f hc hf) in
      rw no

  pub find_sender-none : (src : ℤ) → NoneFor (qs cnt) src → find_sender cnt src k ≡ ok none k
  unfolding find_sender
  find_sender-none src n = elim n [
    | inl e ↦ rw e
    | inr (inl (e, empty)) ↦
        let first : (k.proc_table cnt).q_sending ≡ none =
          subst (λ xs. Chain k.proc_table (k.proc_table cnt).q_sending xs) empty (v.chain cnt hc) in
        rw e (rw first)
    | inr (inr (f, hf, e, out)) ↦ rw e (
        rw (==_of_ne f 17 (λ z. absurd (omega arith)), lt→ltb f nr_procs hf)
          (find_sending-none f hf out))
  ]

-- the table that the scheduler starts from
abbrev pub waiting_table : Table → (cnt : ℕ) → ℤ → (msg : ℕ) → Table
waiting_table t cnt src msg = update t cnt (listening src msg (t cnt))

abbrev pub after_block : Process → Bool
after_block r =
    (r.p_flags == receiving)
    && not (r.p_msg == 0)
    && not (eq_ℤ r.p_recvfrom no_proc)
    && eq_ℤ r.p_sendto no_proc
    && (r.has_int_msg == 0)

pub wait_to_receive-blocks :
    (k : Kernel) (cnt msg : ℕ) (src : ℤ)
    → is_idle (k.proc_table cnt) ≡ true
    → wait_to_receive cnt src msg k
      ≡ (do block cnt; r ← proc cnt; assert (after_block r))
          (record k { proc_table = waiting_table k.proc_table cnt src msg })
unfolding wait_to_receive
wait_to_receive-blocks k cnt msg src idle =
    let flags : (k.proc_table cnt).p_flags ≡ 0 = ground arith in rw flags

module _ (k : Kernel) (cnt msg : ℕ) (src : ℤ) (idle : is_idle (k.proc_table cnt) ≡ true)
    (some_msg : 0 < msg) (known : eq_ℤ src no_proc ≡ false) (q : ℕ) (hq : q < nr_procs)
    (off : q ≢ cnt) (can : CanRun (k.proc_table q)) where
  abbrev k2 : Kernel
  k2 = record k { proc_table = waiting_table k.proc_table cnt src msg }

  can_still : CanRun (k2.proc_table q)
  can_still = rw (==_of_ne q cnt off) can

  after_block_lem :
      {t' : Table} {r : ℕ} (b : Bool)
      → ((k.proc_table cnt).has_int_msg == 0) ≡ b
      → Scheduled k2.proc_table t' r
      → after_block (t' cnt) ≡ b
  after_block_lem b e sch =
      let sendto : eq_ℤ (k.proc_table cnt).p_sendto no_proc ≡ true = ground arith in
      let m : (msg == 0) ≡ false = ground arith in
      rw (Scheduled-with_ticks sch, ==_refl cnt) (rw (m, known, sendto, e))

  -- After the scheduler's choice the assertions hold exactly where no interrupt is pending.
  wait_to_receive-ok :
      (b : Bool)
      → ((k.proc_table cnt).has_int_msg == 0) ≡ b
      → (k' : Kernel) × (wait_to_receive cnt src msg k
          ≡ (if b then ok tt k' else stopped assert_failed))
        × Blocked k k' (waiting_table k.proc_table cnt src msg)
  wait_to_receive-ok b e =
      let (t', r, ran, sch) = block-ok k2 cnt q (rw (==_refl cnt)) hq can_still in
      (
        record k { proc_table = t'; p_proc_ready = r },
        wait_to_receive-blocks k cnt msg src idle
            ∙ rw (ran, ◌>>=◌, ◌>>◌) (rw (after_block_lem b e sch)),
        record { chosen = sch; same_mem = refl; same_ticks = refl; same_reenter = refl },
      )

listening_mode :
    (src : ℤ) (msg : ℕ) (p : Process)
    → is_idle p ≡ true
    → 0 < msg
    → eq_ℤ src no_proc ≡ false
    → is_receiving (listening src msg p) ≡ true
listening_mode src msg p h some_msg known = ground arith

module _ (k : Kernel) (qs : ℕ → List ℕ) (cnt msg q : ℕ) (src : ℤ) (v : IsValid k.proc_table qs)
    (hc : cnt < nr_procs) (idle : is_idle (k.proc_table cnt) ≡ true) (nobody : NoneFor (qs cnt) src)
    (self : eq_ℤ (pos cnt) src ≡ false) (some_msg : 0 < msg) (hq : q < nr_procs) (off : q ≢ cnt)
    (can : CanRun (k.proc_table q)) where
  known_src : eq_ℤ src no_proc ≡ false
  known_src = ground (arith, nobody)

  -- Under the invariant, and with another process that can run: a process that waits for nothing
  -- and has no pending interrupt, and receives where nobody sends what it asks for, has to wait.
  -- `msg_receive` returns 0, the scheduler has chosen a process, no message has changed, and the
  -- invariant is kept with the same queues. The message's address is not 0 and has 32 bits.
  pub msg_receive_blocks :
      msg < 2 ^ 32
      → ((k.proc_table cnt).has_int_msg == 0) ≡ true
      → (k' : Kernel) × (msg_receive cnt src msg k ≡ ok 0 k')
        × IsValid k'.proc_table qs
        × Blocked k k' (waiting_table k.proc_table cnt src msg)
  unfolding msg_receive
  msg_receive_blocks small no_int =
      let (k', e, b) =
        wait_to_receive-ok k cnt msg src idle some_msg known_src q hq off can true no_int in
      let none = find_sender-none k qs cnt v hc src nobody in
      (
        k',
        rw (self, no_int) (rw (none, ◌>>=◌, ◌>>◌) (rw (e, ◌>>=◌, ◌>>◌))),
        rw (Scheduled-with_ticks b.chosen) (
            IsValid-with_ticks (λ p. (k'.proc_table p).ticks)
              (IsValid-update v (listening-Alike src msg (k.proc_table cnt) idle) small
                (inr (inr (listening_mode src msg (k.proc_table cnt) idle some_msg known_src))))),
        b,
      )

  -- Under the invariant, and with another process that can run: a process that waits for nothing
  -- but has a pending interrupt, and receives from a named process that does not wait to send to
  -- it, fails an assertion of the kernel. The message's address is not 0.
  pub msg_receive_interrupted :
      (f : ℕ)
      → src ≡ pos f
      → f < nr_procs
      → ((k.proc_table cnt).has_int_msg == 0) ≡ false
      → msg_receive cnt src msg k ≡ stopped assert_failed
  unfolding msg_receive
  msg_receive_interrupted f named hf int =
      let (k', e, b) =
        wait_to_receive-ok k cnt msg src idle some_msg known_src q hq off can false int in
      let none = find_sender-none k qs cnt v hc src nobody in
      let quiet : has_pending (k.proc_table cnt) src ≡ false =
        rw (named, ==_of_ne f 17 (λ z. absurd (omega arith)), int) in
      rw (self, quiet) (rw (none, ◌>>=◌, ◌>>◌) (rw (e, ◌>>=◌, ◌>>◌)))
