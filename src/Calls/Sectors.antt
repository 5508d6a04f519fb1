-- ===== src/Calls/Sectors.antt =====
-- `rw_sector` (src/fs/main.c) in a process: its request on the way to the disk driver, through the
-- kernel's messages.
use canalotus.Common.{
  ℕ, ◌^◌, ◌<◌, ◌≡◌, refl, ◌∙◌, ◌≢◌, true, ◌==◌, ==_refl, some, none, ℤ, pos, List, arith,
}
use mathlib.Core.Path.{subst}
use canalotus.State.{Message, Kernel, ok, assert_failed, nr_procs, is_idle}
use canalotus.System.{IsRunning}
use canalotus.Calls.{Code, ◌>>=◌, finished, fails, alters, steps, both, send_recv}
use canalotus.Calls.Instructions.{steps-alters}
use canalotus.Calls.Request.{Listens, Asks, both-asks}
use canalotus.Calls.Asking.{writing, writing-IsRunning, writing-Listens}
use canalotus.Calls.Meanwhile.{Pending, Pending-begins, Meanwhile, Meanwhile-Pending}
use canalotus.Calls.Ticks.{same_kernel}
use canalotus.Fs.{driver_of, minor}
use canalotus.Ipc.Valid.{is_receiving}
use canalotus.Disk.Handler.{sysproc_hd}

-- What `rw_sector` writes into its local message.
abbrev pub filled_in :
    (io_type : ℤ) (dev position : ℕ) (bytes proc_nr : ℤ) (buf : ℕ) → Message → Message
filled_in io_type dev position bytes proc_nr buf m = record m {
  msg_type = io_type;
  m3i4 = pos (minor dev);
  m3l1 = position;
  m3p2 = buf;
  m3i2 = bytes;
  m3i3 = proc_nr;
}

-- `rw_sector`; `msg` is the address of `driver_msg`.
unfoldable pub rw_sector_code :
    (io_type : ℤ) (dev position : ℕ) (bytes proc_nr : ℤ) (buf msg : ℕ) → Code ℕ
unfolding send_recv ◌>>=◌
rw_sector_code io_type dev position bytes proc_nr buf msg =
    alters msg (filled_in io_type dev position bytes proc_nr buf) (elim (driver_of dev) [
      | some d ↦ send_recv both d msg >>= λ _. finished 0
      | none ↦ fails assert_failed
    ])

-- Let a process run that has no pending interrupt and is not the disk driver, and let the driver
-- listen at an address `a`, where no other process has its message, and have time when it is ready.
-- `a` is not where the process's own message will be. The process makes the instructions of
-- `rw_sector` up to its `return`, for a device of the driver. Then follow writes, system calls,
-- ticks and interrupts, any number of them, in which the driver does not run and the message at `a`
-- is left to it. The kernel's invariant holds; the driver is ready and has at `a` the request with
-- every field as `rw_sector` was asked, and the process as its source; and the process still waits
-- for the driver's answer, at the address of its own message. Addresses are not 0, and that of the
-- process's message has at most 32 bits.
pub rw_sector-arrives :
    (k k1 k2 : Kernel) (qs : ℕ → List ℕ) (msg a : ℕ) (io_type : ℤ) (dev position : ℕ)
    (bytes proc_nr : ℤ) (buf : ℕ)
    → IsRunning k qs
    → k.p_proc_ready ≢ sysproc_hd
    → Listens k sysproc_hd a
    → ((k.proc_table k.p_proc_ready).has_int_msg == 0) ≡ true
    → ((q : ℕ) → q < nr_procs → q ≢ sysproc_hd → (k.proc_table q).p_msg ≢ a)
    → a ≢ msg
    → 0 < msg
    → msg < 2 ^ 32
    → 0 < a
    → driver_of dev ≡ some (pos sysproc_hd)
    → steps 3 k.p_proc_ready (rw_sector_code io_type dev position bytes proc_nr buf msg) k
      ≡ ok (finished 0) k1
    → Meanwhile sysproc_hd a k1 k2
    → ((qs' : ℕ → List ℕ) × IsRunning k2 qs')
      × (is_idle (k2.proc_table sysproc_hd) ≡ true)
      × (k2.mem a ≡ record (k.mem msg) {
        source = pos k.p_proc_ready;
        msg_type = io_type;
        m3i4 = pos (minor dev);
        m3l1 = position;
        m3p2 = buf;
        m3i2 = bytes;
        m3i3 = proc_nr;
      })
      × (is_receiving (k2.proc_table k.p_proc_ready) ≡ true)
      × ((k2.proc_table k.p_proc_ready).p_recvfrom ≡ pos sysproc_hd)
      × ((k2.proc_table k.p_proc_ready).p_msg ≡ msg)
unfolding rw_sector_code
rw_sector-arrives k k1 k2 qs msg a io_type dev position bytes proc_nr buf run ne l quiet apart
      apart_msg some_msg small some_a driver asks m =
    let c : ℕ = k.p_proc_ready in
    let sent : Message = filled_in io_type dev position bytes proc_nr buf (k.mem msg) in
    let kw : Kernel = writing k msg sent in
    let (k', e, run', asked, away, messages, chosen) =
      both-asks kw qs sysproc_hd msg a {A = ℕ} (λ _. finished 0)
        (writing-IsRunning k qs msg sent run) (omega arith) ne
        (writing-Listens k sysproc_hd a msg sent l) quiet apart_msg some_msg small in
    let whole : steps 3 c (rw_sector_code io_type dev position bytes proc_nr buf msg) k
        ≡ ok (finished 0) k' =
      rw driver (steps-alters 2 k msg _ _ ∙ e) in
    let same : k' ≡ k1 = same_kernel _ _ _ k' k1 whole asks in
    let pending : Pending k' c sysproc_hd msg a sent =
      Pending-begins k.proc_table k' c sysproc_hd msg a sent (omega arith) some_a apart_msg apart
        (subst (λ x. Asks k' c sysproc_hd msg a x) (rw (==_refl msg) refl) asked) messages in
    let (run2, p) =
      Meanwhile-Pending qs c sysproc_hd msg a sent (subst (λ x. IsRunning x qs) same run')
        run.in_table (subst (λ x. Pending x c sysproc_hd msg a sent) same pending) some_a m in
    (run2, p.asked.ready, p.asked.asks, p.asked.waits, p.asked.from, p.asked.address)
