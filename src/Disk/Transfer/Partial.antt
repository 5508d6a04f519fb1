-- ===== src/Disk/Transfer/Partial.antt =====
-- What `hd_rdwt` (src/kernel/hd.c) does with the rest: a last sector that is not whole, and writing.
use canalotus.Common.{
  ℕ, zero, suc, ◌+◌, ◌-◌, ◌*◌, ◌%◌, ◌^◌, ◌<◌, ◌≡◌, refl, sym, ◌∙◌, ◌≢◌, Bool, true, false, ◌==◌,
  pos, eq_ℤ, ◌++◌, bit_and, arith,
}
use mathlib.Core.Path.{subst}
use canalotus.State.{Message}
use canalotus.State.{entry}
use canalotus.Ipc.{va2la}
use canalotus.Disk.{
  assert, in_kernel, hd_info_entry, drv_of_dev, hd_cmd_out, World, Env, Done, done, failed, D,
  ◌>>=◌, ◌>>◌, sector_size, status_drq,
}
use canalotus.Disk.Command.{IsReady, registers, commanded, polled, waitfor-IsReady}
use canalotus.Disk.Transfer.{move_sector, transfer, hd_rdwt, partition_base, dev_read, pattern}
use canalotus.Disk.Transfer.Request.{StaysFlat, IsRequest, command_of, hd_rdwt_starts}

abbrev Returns : Done (Unit {0}) → Type 0
Returns (done a w) = Unit
Returns (failed why) = ⊥

bind-never :
    {A : Type 0} (m : D A) (f : A → D (Unit {0}))
    → ((a : A) (w : World) → Returns (f a w) → ⊥)
    → (w : World) → Returns ((m >>= f) w)
    → ⊥
bind-never m f never w r = go (m w) r
  where
    go : (d : Done _) → Returns (elim d [ done a w' ↦ f a w' | failed why ↦ failed why ]) → ⊥
    go (done a w') r' = never a w' r'
    go (failed why) r' = r'

-- The count of bytes is never 0, and so the loop never ends.
transfer-never :
    (env : Env) (fuel : ℕ) (read : Bool) (left la : ℕ) (w : World)
    → left < 2 ^ 32
    → left % sector_size ≢ 0
    → Returns (transfer env fuel read left la w)
    → ⊥
unfolding transfer
transfer-never env zero read left la w small odd r = r
transfer-never env (suc fuel) read left la w small odd r =
    let some_ : (left == 0) ≡ false = ground arith in
    let left' : ℕ = (left + (2 ^ 32 - sector_size)) % 2 ^ 32 in
    let la' : ℕ = (la + sector_size) % 2 ^ 32 in
    bind-never (move_sector env read left la) (λ _. transfer env fuel read left' la')
      (λ _ w'. transfer-never env fuel read left' la' w' (omega arith) (omega arith)) w
      (rw some_ at r)

-- However long it runs, `hd_rdwt` does not come back from a count of bytes that is not negative and
-- not a multiple of a sector's, whatever the drive, the clock and the rest of the request are.
pub hd_rdwt-never :
    (env : Env) (fuel : ℕ) (msg : Message) (n : ℕ) (w : World)
    → msg.m3i2 ≡ pos n
    → n % sector_size ≢ 0
    → (w' : World) → hd_rdwt env fuel msg w ≢ done tt w'
unfolding hd_rdwt
hd_rdwt-never env fuel msg n w bytes odd w' e =
    let read : Bool = eq_ℤ msg.msg_type dev_read in
    let moves : (la : ℕ) (w : World)
        → Returns (transfer env fuel read (pattern msg.m3i2) la w)
        → ⊥ =
      λ la w.
        transfer-never env fuel read (pattern msg.m3i2) la w (rw bytes (omega arith))
          (rw bytes (omega arith)) in
    bind-never (assert (bit_and msg.m3l1 0x1FF == 0)) _
      (λ _. bind-never (hd_info_entry (drv_of_dev msg.m3i4)) _ (λ _.
        bind-never (partition_base msg.m3i4) _ (λ start. bind-never (hd_cmd_out env _) _ (λ _.
          bind-never (in_kernel env (entry msg.m3i3)) _
            (λ pid. bind-never (in_kernel env (va2la pid msg.m3p2)) _ moves)))))
      w (subst Returns (sym e) tt)

-- Writing to a ready drive.
writes_nothing :
    (env : Env) (fuel n left la : ℕ) (w : World)
    → IsReady env
    → n < fuel
    → left ≡ n * sector_size
    → left < 2 ^ 32
    → (w' : World) × (transfer env fuel false left la w ≡ done tt w')
      × (w'.events ≡ w.events)
      × (w'.polls ≡ w.polls + n)
unfolding transfer move_sector
writes_nothing env zero n left la w r h e small = absurd (omega arith)
writes_nothing env (suc fuel) zero left la w r h e small =
    let none_ : (left == 0) ≡ true = ground arith in (w, rw none_ refl, refl, omega arith)
writes_nothing env (suc fuel) (suc n) left la w r h e small =
    let some_ : (left == 0) ≡ false = ground arith in
    let left' : (left + (2 ^ 32 - sector_size)) % 2 ^ 32 ≡ n * sector_size = omega arith in
    let la' : ℕ = (la + sector_size) % 2 ^ 32 in
    let seen = waitfor-IsReady env status_drq status_drq w r (rw (r.drq w.polls) refl) in
    let round : transfer env (suc fuel) false left la w
        ≡ transfer env fuel false (n * sector_size) la' (polled w) =
      rw (some_, ◌>>◌, ◌>>=◌, seen, left') refl in
    let (w', run, events, polls) =
      writes_nothing env fuel n (n * sector_size) la' (polled w) r (omega arith) refl
        (omega arith) in
    (w', round ∙ run, events, omega arith)

-- Where the driver's system calls come back and the data segments of all processes start at 0, a
-- request to write `n` whole sectors, fewer than 2 ^ 22, to a primary partition or the whole of a
-- ready drive comes back after it has sent the command and
-- waited `n` times for the drive to ask for data: nothing was ever put at the data port, and no
-- interrupt was waited for.
pub hd_rdwt_writes :
    (env : Env) (fuel n : ℕ) (msg : Message) (device src : ℕ) (w : World)
    → IsReady env
    → StaysFlat env
    → IsRequest msg device src
    → n < fuel
    → n < 2 ^ 22
    → eq_ℤ msg.msg_type dev_read ≡ false
    → msg.m3i2 ≡ pos (n * sector_size)
    → (w' : World) × (hd_rdwt env fuel msg w ≡ done tt w')
      × (w'.events ≡ registers (command_of msg device false w) ++ w.events)
      × (w'.polls ≡ w.polls + 1 + n)
hd_rdwt_writes env fuel n msg device src w r flat q h small type_ bytes =
    let start = hd_rdwt_starts env fuel msg device src false w r flat q type_ in
    let left : pattern msg.m3i2 ≡ n * sector_size = rw bytes (omega arith) in
    let (w', run, events, polls) =
      writes_nothing env fuel n (pattern msg.m3i2) msg.m3p2
        (commanded (command_of msg device false w) w) r h left (omega arith) in
    (w', start ∙ run, events, polls)
