-- ===== src/Calls/Ticks.antt =====
-- The whole of `get_ticks` (src/kernel/main.c): the question, what the others do meanwhile, and the
-- answer of the system process.
use canalotus.Common.{ℕ, ◌^◌, ◌<◌, ◌≡◌, sym, ap, ◌∙◌, ◌≢◌, true, ◌==◌, ℤ, List, arith}
use mathlib.Core.Path.{subst}
use canalotus.State.{Kernel, Run, ok, stopped, nr_procs, is_idle}
use canalotus.System.{IsRunning}
use canalotus.Calls.{
  Code, ◌>>=◌, finished, reads, advance, steps, get_ticks, answer_to, sysproc_sys,
}
use canalotus.Calls.Request.{Listens}
use canalotus.Calls.Asking.{question, get_ticks-asks}
use canalotus.Calls.Meanwhile.{Pending, Pending-begins, Meanwhile, Meanwhile-Pending}
use canalotus.Calls.Answering.{reply, answer_lem}

-- the last instruction of `get_ticks`
abbrev pub fetch : ℕ → Code ℤ
fetch msg = reads msg (λ m. finished m.m3i1)

fetch-reply :
    (msg : ℕ) (k : Kernel) (n : ℤ) → k.mem msg ≡ reply n → advance (fetch msg) k ≡ ok (finished n) k
unfolding advance
fetch-reply msg k n e = ap (λ m. ok (finished m.m3i1) k) e

-- The kernel of a run that has come back.
kernel_or : {A : Type 0} → Kernel → Run A → Kernel
kernel_or k (ok a k') = k'
kernel_or k (stopped why) = k

pub same_kernel :
    {A : Type 0} (r : Run A) (a b : A) (k k' : Kernel) → r ≡ ok a k → r ≡ ok b k' → k ≡ k'
unfolding kernel_or
same_kernel r a b k k' e f = sym (ap (kernel_or k) e) ∙ ap (kernel_or k) f

-- Let a process run that has no pending interrupt and is not the system process, and let that one
-- listen at an address `a`, where no other process has its message, and have time when it is ready.
-- The process makes the instructions of `get_ticks` up to its last. Then follow writes, system
-- calls, ticks and interrupts, any number of them, in which the system process does not run and the
-- message at `a` is left to it, until it runs. Its next four instructions answer: the kernel's
-- invariant holds, the process that asked is ready, and the last instruction of its `get_ticks`
-- gives the ticks of the clock as they were when the system process answered. Addresses are not 0
-- and have 32 bits.
pub get_ticks_lem :
    (k k1 k2 : Kernel) (qs : ℕ → List ℕ) (msg a : ℕ) {A : Type 0} (next : ℕ → Code A)
    → IsRunning k qs
    → k.p_proc_ready ≢ sysproc_sys
    → Listens k sysproc_sys a
    → ((k.proc_table k.p_proc_ready).has_int_msg == 0) ≡ true
    → ((q : ℕ) → q < nr_procs → q ≢ sysproc_sys → (k.proc_table q).p_msg ≢ a)
    → a ≢ msg
    → 0 < msg
    → msg < 2 ^ 32
    → 0 < a
    → a < 2 ^ 32
    → steps 4 k.p_proc_ready (get_ticks msg) k ≡ ok (fetch msg) k1
    → Meanwhile sysproc_sys a k1 k2
    → k2.p_proc_ready ≡ sysproc_sys
    → (k3 : Kernel) × (steps 4 k2.p_proc_ready (reads a (answer_to a) >>= next) k2 ≡ ok (next 0) k3)
      × ((qs' : ℕ → List ℕ) × IsRunning k3 qs')
      × (is_idle (k3.proc_table k.p_proc_ready) ≡ true)
      × (advance (fetch msg) k3 ≡ ok (finished k2.ticks) k3)
get_ticks_lem k k1 k2 qs msg a next run ne l quiet apart apart_msg some_msg small some_a small_a
      asks m here =
    let c : ℕ = k.p_proc_ready in
    let (k', e, run', asked, away, messages, chosen) =
      get_ticks-asks k qs msg a run ne l quiet apart_msg some_msg small in
    let same : k' ≡ k1 = same_kernel (steps 4 c (get_ticks msg) k) _ _ k' k1 e asks in
    let pending : Pending k' c sysproc_sys msg a question =
      Pending-begins k.proc_table k' c sysproc_sys msg a question (omega arith) some_a apart_msg
        apart asked messages in
    let ((qs2, run2), pending2) =
      Meanwhile-Pending qs c sysproc_sys msg a question (subst (λ x. IsRunning x qs) same run')
        run.in_table (subst (λ x. Pending x c sysproc_sys msg a question) same pending) some_a m in
    let (k3, e3, run3, still, idle, answered) =
      answer_lem k2 qs2 c msg a next run2 here pending2.asked run.in_table ne some_a small_a in
    (k3, e3, (qs2, run3), idle, fetch-reply msg k3 k2.ticks answered)
