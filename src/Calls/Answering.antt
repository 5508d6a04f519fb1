-- ===== src/Calls/Answering.antt =====
-- The system process (src/kernel/sys.c) answers the question that it has received.
use canalotus.Common.{
  ℕ, ◌^◌, ◌<◌, ◌≡◌, refl, sym, ◌∙◌, ap, ◌≢◌, true, ==_refl, ==_of_ne, update, ℤ, pos, List, arith,
}
use mathlib.Core.Path.{subst}
use canalotus.State.{Message, Kernel, ok, nr_procs, is_idle}
use canalotus.Ipc.{reset_msg}
use canalotus.Ipc.Valid.{is_receiving}
use canalotus.Ipc.Send.{waits_for}
use canalotus.Ipc.Send.HandOver.{handed, woken, msg_send_delivers}
use canalotus.Ipc.Syscall.{send, is_peer, syscall_sendrec}
use canalotus.Ipc.Syscall.Laws.{signed, syscall_sendrec_lem}
use canalotus.System.{IsRunning}
use canalotus.Calls.{Code, ◌>>=◌, steps, reads, answer_to, get_ticks_type, sysproc_sys}
use canalotus.Calls.Instructions.{
  steps-none, steps-sendrec, steps-alters, steps-reads, steps-reads_ticks,
}
use canalotus.Calls.Request.{Asks}
use canalotus.Calls.Asking.{question}

-- the answer_to, as the kernel leaves it
abbrev pub reply : ℤ → Message
reply n = record reset_msg { source = pos sysproc_sys; msg_type = get_ticks_type; m3i1 = n }

-- the kernel with the answer written into the message at `a`
abbrev pub noted : Kernel → (a : ℕ) → Kernel
noted k a = record k { mem = update k.mem a (record (k.mem a) { m3i1 = k.ticks }) }

-- A process `d` that runs and waits for nothing sends the message at `a` to `c`, which waits for it.
pub replies :
    (k : Kernel) (qs : ℕ → List ℕ) (c d a : ℕ)
    → IsRunning k qs
    → k.p_proc_ready ≡ d
    → c < nr_procs
    → c ≢ d
    → is_receiving (k.proc_table c) ≡ true
    → (k.proc_table c).p_recvfrom ≡ pos d
    → 0 < a
    → a < 2 ^ 32
    → (syscall_sendrec send (pos c) a k.p_proc_ready k ≡ ok 0 (handed (signed k d a) c a))
      × IsRunning (handed (signed k d a) c a) qs
      × (is_idle ((handed (signed k d a) c a).proc_table c) ≡ true)
replies k qs c d a run here hc ne waiting from some_a small =
    let other : d ≢ c = λ e. ne (sym e) in
    let hd : d < nr_procs = subst (λ x. x < nr_procs) here run.in_table in
    let idle : is_idle (k.proc_table d) ≡ true =
      subst (λ x. is_idle (k.proc_table x) ≡ true) here run.idle in
    let waits : waits_for (k.proc_table c) d ≡ true = ground (arith, waiting, from) in
    let known : is_peer (pos c) ≡ true = ground (arith, hc) in
    let (e, v) =
      msg_send_delivers (signed k d a) qs d c a run.valid hd hc other idle waits some_a small in
    (
      ap (λ p. syscall_sendrec send (pos c) a p k) here
          ∙ syscall_sendrec_lem k qs send (pos c) d a run.valid hd run.outer known
              (==_of_ne d c other) small
          ∙ e,
      record {
        valid = v;
        in_table = run.in_table;
        idle =
            subst (λ p. is_idle (update k.proc_table c (woken (k.proc_table c)) p) ≡ true)
              (sym here) (rw (==_of_ne d c other) idle);
        outer = run.outer;
      },
      rw (==_refl c) (ground (arith, waiting)),
    )

-- Where the system process runs and has the question of a process that waits for the answer: its
-- next four instructions send the answer. The invariant is kept with the same queues, the system
-- process runs on with what follows, and the caller is ready and finds at its address the clock's
-- ticks as they are now, from the system process. The question's address is not 0 and has 32 bits.
pub answer_lem :
    (k : Kernel) (qs : ℕ → List ℕ) (c msg a : ℕ) {A : Type 0} (next : ℕ → Code A)
    → IsRunning k qs
    → k.p_proc_ready ≡ sysproc_sys
    → Asks k c sysproc_sys msg a question
    → c < nr_procs
    → c ≢ sysproc_sys
    → 0 < a
    → a < 2 ^ 32
    → (k' : Kernel) × (steps 4 k.p_proc_ready (reads a (answer_to a) >>= next) k ≡ ok (next 0) k')
      × IsRunning k' qs
      × (k'.p_proc_ready ≡ sysproc_sys)
      × (is_idle (k'.proc_table c) ≡ true)
      × (k'.mem msg ≡ reply k.ticks)
unfolding answer_to ◌>>=◌
answer_lem k qs c msg a next run here asked hc ne some_msg small =
    let run' : IsRunning (noted k a) qs = record {
      valid = run.valid;
      in_table = run.in_table;
      idle = run.idle;
      outer = run.outer;
    } in
    let (e, after, idle) =
      replies (noted k a) qs c sysproc_sys a run' here hc ne asked.waits asked.from some_msg
        small in
    (
      handed (signed (noted k a) sysproc_sys a) c a,
      steps-reads 3 k a _
          ∙ ap (λ m. steps 3 k.p_proc_ready (answer_to a m >>= next) k) asked.asks
          ∙ steps-reads_ticks 2 k _
          ∙ steps-alters 1 k a _ _
          ∙ steps-sendrec 0 (noted k a) send (pos c) a 0 _ _ e
          ∙ steps-none _ _ _,
      after,
      here,
      idle,
      rw (asked.address, ==_refl msg, ==_refl a, asked.asks) refl,
    )
