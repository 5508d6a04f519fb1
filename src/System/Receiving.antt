-- ===== src/System/Receiving.antt =====
-- Every outcome of `msg_receive` for the running process.
use canalotus.Common.{
  ℕ, ◌^◌, ◌<◌, ◌≡◌, refl, sym, ◌≢◌, ◌⊎◌, inl, inr, true, false, ◌==◌, ltb, Bool-cases, ==_refl,
  ==_of_ne, ltb→lt, update, ℤ, pos, negsuc, eq_ℤ, Option, none, some, List, [], ◌∷◌, has, without,
  arith,
}
use mathlib.Core.Path.{subst}
use canalotus.State.{Table, Kernel, Run, Stop, assert_failed, looping, nr_procs, any, is_idle}
use canalotus.Ipc.Receive.{msg_receive, has_pending}
use canalotus.Ipc.Receive.Leave.{prev_in, dequeued, dequeued-Left}
use canalotus.Ipc.Receive.Accept.{AsksFor, msg_receive_takes}
use canalotus.Ipc.Receive.Wait.{
  NoneFor, waiting_table, msg_receive_pending, msg_receive_blocks, msg_receive_interrupted,
}
use canalotus.Ipc.Syscall.{is_peer}
use canalotus.Ipc.Stuck.{NobodyElse, find_other, msg_receive-loops}
use canalotus.System.Effect.{Moved-told, Moved-took, Moved-waiting}
use canalotus.System.{IsRunning, Ends, Returns, Blocked-IsRunning}

-- Why a receive from `src` does not come back: the receiver has to wait and no other process can
-- run, or it receives from a named process while an interrupt is pending.
abbrev pub ReceiveStops : Kernel → ℤ → Stop → Type 0
ReceiveStops k src why =
    ((why ≡ looping) × NobodyElse k.proc_table k.p_proc_ready)
    ⊎ ((why ≡ assert_failed)
        × (((k.proc_table k.p_proc_ready).has_int_msg == 0) ≡ false)
        × (f : ℕ) × (f < nr_procs)
        × (src ≡ pos f))

-- Somebody sends what `src` asks for, or nobody.
look_any :
    (xs : List ℕ) (src : ℤ)
    → src ≡ any
    → ((from : ℕ) × (has from xs ≡ true) × AsksFor xs src from) ⊎ NoneFor xs src
look_any [] src e = inr (inr (inl (e, refl)))
look_any (x ∷ xs) src e = inl (x, ground arith, inr (e, (xs, refl)))

look_for :
    (xs : List ℕ) (src : ℤ)
    → is_peer src ≡ true
    → ((from : ℕ) × (has from xs ≡ true) × AsksFor xs src from) ⊎ NoneFor xs src
look_for xs (negsuc n) h = inr (inl (ground (arith, h)))
look_for xs (pos n) h = elim (Bool-cases (ltb n nr_procs)) [
  | inl named ↦ elim (Bool-cases (has n xs)) [
    | inl i ↦ inl (n, i, inl refl)
    | inr o ↦ inr (inr (inr (n, ltb→lt n nr_procs named, refl, o)))
  ]
  | inr far ↦ look_any xs (pos n) (ground (arith, h, far))
]

took_idle :
    (t : Table) (cnt from : ℕ) (prev : Option ℕ)
    → from ≢ cnt
    → is_idle (t cnt) ≡ true
    → is_idle (dequeued t cnt from prev cnt) ≡ true
took_idle t cnt from none ne idle = ground arith
took_idle t cnt from (some b) ne idle = ground arith

module _ (k : Kernel) (qs : ℕ → List ℕ) (src : ℤ) (msg : ℕ) (run : IsRunning k qs)
    (self : eq_ℤ (pos k.p_proc_ready) src ≡ false) (some_msg : 0 < msg) (small : msg < 2 ^ 32) where
  abbrev Outcome : Run ℕ → Type 0
  Outcome = Ends (ReceiveStops k src) (Returns k msg)

  told_of_interrupt :
      has_pending (k.proc_table k.p_proc_ready) src ≡ true
      → Outcome (msg_receive k.p_proc_ready src msg k)
  told_of_interrupt pending =
      let (e, v) =
        msg_receive_pending k qs k.p_proc_ready msg src run.valid run.in_table run.idle pending
          some_msg small in
      subst Outcome (sym e) (
        (
          refl,
          qs,
          record {
            valid = v;
            in_table = run.in_table;
            idle = rw (==_refl k.p_proc_ready) run.idle;
            outer = run.outer;
          },
        ),
        Moved-told k msg run.idle,
      )

  taken :
      (from : ℕ)
      → has from (qs k.p_proc_ready) ≡ true
      → AsksFor (qs k.p_proc_ready) src from
      → has_pending (k.proc_table k.p_proc_ready) src ≡ false
      → Outcome (msg_receive k.p_proc_ready src msg k)
  taken from member asks quiet =
      let c = k.p_proc_ready in
      let apart : from ≢ c =
        λ z. absurd (ground (arith, run.valid.queued c from run.in_table member, z, run.idle)) in
      let (e, v) =
        msg_receive_takes k qs c from msg src run.valid run.in_table run.idle member asks quiet
          some_msg small in
      subst Outcome (sym e) (
        (
          refl,
          update qs c (without from (qs c)),
          record {
            valid = v;
            in_table = run.in_table;
            idle =
                rw (==_of_ne c from (λ z. apart (sym z)))
                  (took_idle k.proc_table c from (prev_in from (qs c)) apart run.idle);
            outer = run.outer;
          },
        ),
        Moved-took k (dequeued k.proc_table c from (prev_in from (qs c))) from msg (qs c) run.idle
            (run.valid.queued c from run.in_table member).1 apart
            (dequeued-Left k.proc_table c from (qs c) apart (run.valid.chain c run.in_table)
              (run.valid.distinct c run.in_table) member),
      )

  named_interrupt :
      NoneFor (qs k.p_proc_ready) src
      → ((k.proc_table k.p_proc_ready).has_int_msg == 0) ≡ false
      → has_pending (k.proc_table k.p_proc_ready) src ≡ false
      → (f : ℕ) × (f < nr_procs) × (src ≡ pos f)
  named_interrupt (inl e) int quiet = absurd (ground (arith, e, int, quiet))
  named_interrupt (inr (inl (e, m))) int quiet = absurd (ground (arith, e, int, quiet))
  named_interrupt (inr (inr (f, hf, e, o))) int quiet = (f, hf, e)

  waiting :
      NoneFor (qs k.p_proc_ready) src
      → has_pending (k.proc_table k.p_proc_ready) src ≡ false
      → Outcome (msg_receive k.p_proc_ready src msg k)
  waiting nobody quiet = elim (find_other k.proc_table k.p_proc_ready) [
    | inr none_else ↦
        subst Outcome
          (sym (
            msg_receive-loops k qs k.p_proc_ready msg src run.valid run.in_table run.idle some_msg
              none_else nobody self quiet))
          (inl (refl, none_else))
    | inl (q, hq, off, can) ↦ elim (Bool-cases ((k.proc_table k.p_proc_ready).has_int_msg == 0)) [
      | inl no_int ↦
          let (k', e, v, b) =
            msg_receive_blocks k qs k.p_proc_ready msg q src run.valid run.in_table run.idle nobody
              self some_msg hq off can small no_int in
          subst Outcome (sym e) (
            (
              refl,
              qs,
              Blocked-IsRunning k k' (waiting_table k.proc_table k.p_proc_ready src msg) qs
                  run.outer v b,
            ),
            Moved-waiting k k' msg src b,
          )
      | inr int ↦
          let (f, hf, named) = named_interrupt nobody int quiet in
          subst Outcome
            (sym (
              msg_receive_interrupted k qs k.p_proc_ready msg q src run.valid run.in_table run.idle
                nobody self some_msg hq off can f named hf int))
            (inr (refl, int, f, hf, named))
    ]
  ]

-- A receive by the running process, from anybody, an interrupt or another process of the table, to
-- an address of 32 bits that is not 0, returns 0 with a process running, its
-- effect reaching no further than `Moved` says, or never comes back because
-- no other process can run, or fails an assertion; the last only where it receives from a named
-- process while an interrupt is pending.
pub msg_receive-Ends :
    (k : Kernel) (qs : ℕ → List ℕ) (src : ℤ) (msg : ℕ)
    → IsRunning k qs
    → is_peer src ≡ true
    → eq_ℤ (pos k.p_proc_ready) src ≡ false
    → 0 < msg
    → msg < 2 ^ 32
    → Ends (ReceiveStops k src) (Returns k msg) (msg_receive k.p_proc_ready src msg k)
msg_receive-Ends k qs src msg run peer self some_msg small =
    elim (Bool-cases (has_pending (k.proc_table k.p_proc_ready) src)) [
      | inl pending ↦ told_of_interrupt k qs src msg run self some_msg small pending
      | inr quiet ↦ elim (look_for (qs k.p_proc_ready) src peer) [
        | inl (from, member, asks) ↦
            taken k qs src msg run self some_msg small from member asks quiet
        | inr nobody ↦ waiting k qs src msg run self some_msg small nobody quiet
      ]
    ]
