-- ===== src/System/Sending.antt =====
-- Every outcome of `msg_send` for the running process.
use canalotus.Common.{
  ℕ, ◌^◌, ◌<◌, ◌≡◌, refl, sym, ◌≢◌, ◌⊎◌, inl, inr, true, false, Bool-cases, ==_of_ne, update, pos,
  List, [], ◌∷◌, ◌++◌, arith,
}
use mathlib.Core.Path.{subst}
use canalotus.State.{Kernel, Run, Stop, panicked, looping, nr_procs}
use canalotus.Ipc.Deadlock.{Waits, deadlock_lem}
use canalotus.Ipc.Valid.{IsValid-messages}
use canalotus.Ipc.Send.{msg_send, waits_for}
use canalotus.Ipc.Send.HandOver.{msg_send_delivers}
use canalotus.Ipc.Send.Wait.{parked, msg_send_blocks, msg_send_panics}
use canalotus.Ipc.Stuck.{NobodyElse, find_other, msg_send-loops}
use canalotus.System.Effect.{Moved-handed, Moved-parked}
use canalotus.System.{IsRunning, Ends, Returns, Blocked-IsRunning}

-- Why a send to `d` does not come back: it would close a circle of senders, or the sender has to
-- wait and no other process can run.
abbrev pub SendStops : Kernel → ℕ → Stop → Type 0
SendStops k d why =
    ((why ≡ panicked) × Waits k.proc_table k.p_proc_ready d)
    ⊎ ((why ≡ looping) × NobodyElse k.proc_table k.p_proc_ready)

module _ (k : Kernel) (qs : ℕ → List ℕ) (d msg : ℕ) (run : IsRunning k qs) (hd : d < nr_procs)
    (ne : k.p_proc_ready ≢ d) (some_msg : 0 < msg) (small : msg < 2 ^ 32) where
  abbrev Outcome : Run ℕ → Type 0
  Outcome = Ends (SendStops k d) (Returns k msg)

  delivered :
      waits_for (k.proc_table d) k.p_proc_ready ≡ true
      → Outcome (msg_send k.p_proc_ready (pos d) msg k)
  delivered waits =
      let (e, v) =
        msg_send_delivers k qs k.p_proc_ready d msg run.valid run.in_table hd ne run.idle waits
          some_msg small in
      subst Outcome (sym e) (
        (
          refl,
          qs,
          record {
            valid = v;
            in_table = run.in_table;
            idle = rw (==_of_ne k.p_proc_ready d ne) run.idle;
            outer = run.outer;
          },
        ),
        Moved-handed k d msg hd ne run.idle waits,
      )

  queued :
      waits_for (k.proc_table d) k.p_proc_ready ≡ false
      → (Waits k.proc_table k.p_proc_ready d → ⊥)
      → Outcome (msg_send k.p_proc_ready (pos d) msg k)
  queued busy free = elim (find_other k.proc_table k.p_proc_ready) [
    | inl (q, hq, off, can) ↦
        let (k', e, v, b) =
          msg_send_blocks k qs k.p_proc_ready d msg q run.valid run.in_table hd ne run.idle busy
            free some_msg small hq off can in
        subst Outcome (sym e) (
          (
            refl,
            update qs d (qs d ++ k.p_proc_ready ∷ []),
            Blocked-IsRunning k k' (parked k.proc_table k.p_proc_ready d msg (qs d)) _ run.outer v
                b,
          ),
          Moved-parked k k' qs d msg run.valid hd ne run.idle some_msg b,
        )
    | inr none_else ↦
        subst Outcome
          (sym (
            msg_send-loops k qs k.p_proc_ready d msg run.valid hd ne run.idle some_msg none_else
              run.in_table busy free))
          (inr (refl, none_else))
  ]

-- A send by the running process to another process of the table, with a message at an address of 32
-- bits that is not 0, returns 0 with a process running, its
-- effect reaching no further than `Moved` says, panics because it would close a circle of
-- senders, or never comes back because no other process can run. It fails no assertion.
pub msg_send-Ends :
    (k : Kernel) (qs : ℕ → List ℕ) (d msg : ℕ)
    → IsRunning k qs
    → d < nr_procs
    → k.p_proc_ready ≢ d
    → 0 < msg
    → msg < 2 ^ 32
    → Ends (SendStops k d) (Returns k msg) (msg_send k.p_proc_ready (pos d) msg k)
msg_send-Ends k qs d msg run hd ne some_msg small =
    let v = run.valid in
    let (b, e, iff) = deadlock_lem k k.p_proc_ready d hd v.acyclic (IsValid-messages v) in
    elim (Bool-cases b) [
      | inl on ↦
          subst (Ends (SendStops k d) (Returns k msg))
            (sym (msg_send_panics k qs k.p_proc_ready d msg v hd ne (iff.0 on)))
            (inl (refl, iff.0 on))
      | inr off ↦
          let free : Waits k.proc_table k.p_proc_ready d → ⊥ =
            λ w. absurd (ground (arith, iff.1 w, off)) in
          elim (Bool-cases (waits_for (k.proc_table d) k.p_proc_ready)) [
            | inl waits ↦ delivered k qs d msg run hd ne some_msg small waits
            | inr busy ↦ queued k qs d msg run hd ne some_msg small busy free
          ]
    ]
