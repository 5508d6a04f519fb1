-- ===== src/Calls.antt =====
-- Code that runs in a process and calls the kernel: `send_recv` (src/kernel/proc.c), `get_ticks`
-- (src/kernel/main.c) and the system process `sys_sys` (src/kernel/sys.c). A process's code is
-- known by its next instruction, as it may have to wait in each system call while others run.
pub mod Instructions
pub mod Request
pub mod Asking
pub mod Meanwhile
pub mod Answering
pub mod Ticks
pub mod Returns
pub mod Sectors
pub mod Interrupts
use canalotus.Common.{ℕ, zero, suc, true, false, ◌==◌, if◌then◌else◌, ℤ, pos, eq_ℤ, update}
use canalotus.State.{Message, Kernel, ok, stopped, Stop, assert_failed, panicked, M, any}
use canalotus.Ipc.{reset_msg}
use canalotus.Ipc.Syscall.{send, receive, syscall_sendrec}

-- What a process does next, where its result is an `A`: a system call, a change or a read of the
-- message at an address, a read of the global `ticks`, or nothing more.
pub data Code (A : Type 0) : Type 0 where
  finished : A → Code A
  fails : Stop → Code A
  sendrec : (function src_dst : ℤ) (msg : ℕ) → (ℕ → Code A) → Code A
  alters : ℕ → (Message → Message) → Code A → Code A
  reads : ℕ → (Message → Code A) → Code A
  reads_ticks : (ℤ → Code A) → Code A

infixl 5 ◌>>=◌
unfoldable pub ◌>>=◌ : {A B : Type 0} → Code A → (A → Code B) → Code B
finished a >>= f = f a
fails why >>= f = fails why
sendrec function peer msg next >>= f = sendrec function peer msg (λ r. next r >>= f)
alters a g next >>= f = alters a g (next >>= f)
reads a next >>= f = reads a (λ m. next m >>= f)
reads_ticks next >>= f = reads_ticks (λ n. next n >>= f)

-- One instruction of the running process.
unfoldable pub advance : {A : Type 0} → Code A → M (Code A)
advance (finished a) k = ok (finished a) k
advance (fails why) k = stopped why
advance (sendrec function peer msg next) k =
    elim (syscall_sendrec function peer msg k.p_proc_ready k) [
      | ok r k' ↦ ok (next r) k'
      | stopped why ↦ stopped why
    ]
advance (alters a g next) k = ok next (record k { mem = update k.mem a (g (k.mem a)) })
advance (reads a next) k = ok (next (k.mem a)) k
advance (reads_ticks next) k = ok (next k.ticks) k

-- At most `n` instructions of process `p`, as long as it runs.
unfoldable pub steps : ℕ → ℕ → {A : Type 0} → Code A → M (Code A)
steps zero p c k = ok c k
steps (suc n) p c k = elim (k.p_proc_ready == p) [
  | true ↦ elim (advance c k) [ ok c' k' ↦ steps n p c' k' | stopped why ↦ stopped why ]
  | false ↦ ok c k
]

abbrev pub both : ℤ
both = pos 3

unfoldable pub send_recv : (function src_dst : ℤ) → (msg : ℕ) → Code ℕ
send_recv function src_dst msg =
    if eq_ℤ function both
    then sendrec send src_dst msg
        (λ ret. if ret == 0 then sendrec receive src_dst msg finished else finished ret)
    else if eq_ℤ function send
    then sendrec send src_dst msg finished
    else if eq_ℤ function receive
    then alters msg (λ _. reset_msg) (sendrec receive src_dst msg finished)
    else fails assert_failed

abbrev pub sysproc_sys : ℕ
sysproc_sys = 1

abbrev pub get_ticks_type : ℤ
get_ticks_type = pos 1

-- `msg` is the address of the local message.
unfoldable pub get_ticks : (msg : ℕ) → Code ℤ
unfolding send_recv ◌>>=◌
get_ticks msg =
    alters msg (λ _. reset_msg)
      (alters msg (λ m. record m { msg_type = get_ticks_type })
        (send_recv both (pos sysproc_sys) msg >>= λ _. reads msg (λ m. finished m.m3i1)))

-- The `switch` of `sys_sys` on a message that it has received at `msg`.
unfoldable pub answer_to : (msg : ℕ) → Message → Code ℕ
unfolding send_recv
answer_to msg m =
    if eq_ℤ m.msg_type get_ticks_type
    then reads_ticks (λ n. alters msg (λ q. record q { m3i1 = n }) (send_recv send m.source msg))
    else fails panicked

-- The first `rounds` rounds of the loop of `sys_sys`.
unfoldable pub sys_sys : (rounds msg : ℕ) → Code ℕ
unfolding send_recv ◌>>=◌ answer_to
sys_sys zero msg = finished 0
sys_sys (suc rounds) msg =
    send_recv receive any msg >>= λ _. reads msg (answer_to msg) >>= λ _. sys_sys rounds msg
