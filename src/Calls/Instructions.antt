-- ===== src/Calls/Instructions.antt =====
-- What one instruction of the running process does to a run of several.
use canalotus.Common.{ℕ, suc, ◌≡◌, refl, ==_refl, update, ℤ}
use canalotus.State.{Message, Kernel, ok}
use canalotus.Ipc.Syscall.{syscall_sendrec}
use canalotus.Calls.{Code, sendrec, alters, reads, reads_ticks, advance, steps}

module _ {A : Type 0} (n : ℕ) (k : Kernel) where
  pub steps-one :
      (c c' : Code A) (k' : Kernel)
      → advance c k ≡ ok c' k'
      → steps (suc n) k.p_proc_ready c k ≡ steps n k.p_proc_ready c' k'
  unfolding steps
  steps-one c c' k' e = rw (==_refl k.p_proc_ready, steps) (rw e refl)

  pub steps-sendrec :
      (function peer : ℤ) (msg r : ℕ) (next : ℕ → Code A) (k' : Kernel)
      → syscall_sendrec function peer msg k.p_proc_ready k ≡ ok r k'
      → steps (suc n) k.p_proc_ready (sendrec function peer msg next) k
        ≡ steps n k.p_proc_ready (next r) k'
  unfolding advance
  steps-sendrec function peer msg r next k' e = steps-one _ _ k' (rw (e, advance))

  pub steps-alters :
      (a : ℕ) (g : Message → Message) (next : Code A)
      → steps (suc n) k.p_proc_ready (alters a g next) k
        ≡ steps n k.p_proc_ready next (record k { mem = update k.mem a (g (k.mem a)) })
  unfolding advance
  steps-alters a g next = steps-one _ _ _ refl

  pub steps-reads :
      (a : ℕ) (next : Message → Code A)
      → steps (suc n) k.p_proc_ready (reads a next) k ≡ steps n k.p_proc_ready (next (k.mem a)) k
  unfolding advance
  steps-reads a next = steps-one _ _ _ refl

  pub steps-reads_ticks :
      (next : ℤ → Code A)
      → steps (suc n) k.p_proc_ready (reads_ticks next) k ≡ steps n k.p_proc_ready (next k.ticks) k
  unfolding advance
  steps-reads_ticks next = steps-one _ _ _ refl

pub steps-none : {A : Type 0} (p : ℕ) (c : Code A) (k : Kernel) → steps 0 p c k ≡ ok c k
unfolding steps
steps-none p c k = refl
