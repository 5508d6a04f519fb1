-- ===== src/Calls/Asking.antt =====
-- `get_ticks` up to the point where the process waits for the answer.
use canalotus.Common.{ℕ, ◌^◌, ◌<◌, ◌≡◌, refl, ◌∙◌, ◌≢◌, true, ◌==◌, ==_refl, update, List, arith}
use mathlib.Core.Path.{subst}
use canalotus.State.{Message, Kernel, ok}
use canalotus.Ipc.{reset_msg}
use canalotus.Schedule.Choice.{Scheduled}
use canalotus.System.{IsRunning}
use canalotus.Calls.Instructions.{steps-alters}
use canalotus.Calls.{reads, finished, steps, get_ticks, get_ticks_type, sysproc_sys}
use canalotus.Calls.Request.{Listens, Asks, requested, both-asks}

-- what a process writes to ask for the ticks
abbrev pub question : Message
question = record reset_msg { msg_type = get_ticks_type }

-- the kernel with a message written at `msg`
abbrev pub writing : Kernel → (msg : ℕ) → Message → Kernel
writing k msg m = record k { mem = update k.mem msg m }

pub writing-IsRunning :
    (k : Kernel) (qs : ℕ → List ℕ) (msg : ℕ) (m : Message)
    → IsRunning k qs
    → IsRunning (writing k msg m) qs
writing-IsRunning k qs msg m run = record {
  valid = run.valid;
  in_table = run.in_table;
  idle = run.idle;
  outer = run.outer;
}

pub writing-Listens :
    (k : Kernel) (p a msg : ℕ) (m : Message) → Listens k p a → Listens (writing k msg m) p a
writing-Listens k p a msg m l = record {
  waits = l.waits;
  anybody = l.anybody;
  address = l.address;
  time = l.time;
}

-- With a process running that has no pending interrupt and is not the system process, while that
-- one listens at another address and will have time: `get_ticks` sends its question and waits. Then
-- another process runs, the invariant is kept with the same queues, the messages that others wait
-- with stand where they stood, the
-- scheduler has chosen the process that runs, and the caller's next instruction reads the answer.
pub get_ticks-asks :
    (k : Kernel) (qs : ℕ → List ℕ) (msg a : ℕ)
    → IsRunning k qs
    → k.p_proc_ready ≢ sysproc_sys
    → Listens k sysproc_sys a
    → ((k.proc_table k.p_proc_ready).has_int_msg == 0) ≡ true
    → a ≢ msg
    → 0 < msg
    → msg < 2 ^ 32
    → (k' : Kernel) × (steps 4 k.p_proc_ready (get_ticks msg) k
        ≡ ok (reads msg (λ m. finished m.m3i1)) k')
      × IsRunning k' qs
      × Asks k' k.p_proc_ready sysproc_sys msg a question
      × (k'.p_proc_ready ≢ k.p_proc_ready)
      × ((q : ℕ)
          → q ≢ k.p_proc_ready
          → q ≢ sysproc_sys
          → (k'.proc_table q).p_msg ≡ (k.proc_table q).p_msg)
      × Scheduled (requested (writing k msg question) sysproc_sys msg) k'.proc_table k'.p_proc_ready
unfolding get_ticks
get_ticks-asks k qs msg a run ne l quiet apart some_msg small =
    let k1 : Kernel = writing k msg reset_msg in
    let k2 : Kernel = writing k1 msg (record (k1.mem msg) { msg_type = get_ticks_type }) in
    let (k', e, run', asked, other, messages, chosen) =
      both-asks k2 qs sysproc_sys msg a (λ _. reads msg (λ m. finished m.m3i1))
        (writing-IsRunning k1 qs msg _ (writing-IsRunning k qs msg _ run)) (omega arith) ne
        (writing-Listens k1 sysproc_sys a msg _ (writing-Listens k sysproc_sys a msg _ l)) quiet
        apart some_msg small in
    let same : k2.mem msg ≡ question = rw (==_refl msg) refl in
    (
      k',
      steps-alters 3 k msg _ _ ∙ steps-alters 2 k1 msg _ _ ∙ e,
      run',
      subst (λ m. Asks k' k.p_proc_ready sysproc_sys msg a m) same asked,
      other,
      messages,
      chosen,
    )
