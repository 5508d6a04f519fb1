-- ===== src/Disk/Partition/Opening.antt =====
-- Opening the drive (src/kernel/hd.c, `hd_open`): the first time, with its partitions; later, with
-- its size only.
use canalotus.Common.{
  ℕ, ◌+◌, ◌*◌, ◌%◌, ◌^◌, ◌≡◌, refl, inl, inr, true, false, ◌==◌, ltb, if◌then◌else◌, Bool-cases,
  eq_cases, ==_of_ne, update, ℤ, pos, eq_ℤ, inc_int, Option, none, some, ◌∷◌, ◌++◌, arith,
}
use canalotus.State.{assert_failed}
use canalotus.Disk.{
  PartInfo, HdInfo, World, Env, Done, done, failed, ◌>>=◌, ◌>>◌, HdCmd, interrupt_wait, port_read,
  sector_size, drv_of_dev, make_device_reg, ata_identify, word, hd_identify,
}
use canalotus.Disk.Command.{IsReady, registers, commanded, hd_cmd_out-IsReady}
use canalotus.Disk.Partition.{part_ent, partition_primary, hd_open}
use canalotus.Disk.Partition.Extended.{Answers}
use canalotus.Disk.Partition.Primary.{enter_all, partitions, partition_primary_lem}

-- The command of `hd_identify`.
abbrev pub identify_cmd : HdCmd → HdCmd
identify_cmd junk = record junk { device = make_device_reg 0 0 0; command = ata_identify }

-- What the drive tells of itself.
abbrev pub identity : Env → HdCmd → World → ℕ → ℕ
identity env junk w = env.data_port (interrupt_wait ∷ (registers (identify_cmd junk) ++ w.events))

-- The whole drive as a partition.
abbrev pub whole_drive : (ℕ → ℕ) → PartInfo
whole_drive sector = record { base = 0; size = (word sector 61 * 2 ^ 16 + word sector 60) % 2 ^ 32 }

abbrev identified : Env → HdCmd → World → World
identified env junk w =
    let sent = commanded (identify_cmd junk) w in
    record sent {
      hd_info = record w.hd_info {
        primary = update w.hd_info.primary 0 (whole_drive (identity env junk w));
      };
      events = port_read ∷ interrupt_wait ∷ sent.events;
      hd_buf = λ i. if ltb i sector_size then identity env junk w i else w.hd_buf i;
    }

hd_identify_lem :
    (env : Env) (junk : HdCmd) (w : World)
    → IsReady env
    → hd_identify env junk w ≡ done tt (identified env junk w)
unfolding hd_identify
hd_identify_lem env junk w r =
    let sent = hd_cmd_out-IsReady env (identify_cmd junk) w r in
    rw (◌>>=◌, ◌>>◌, sent, r.interrupts (commanded (identify_cmd junk) w).events) refl

-- The drive's entries after it was identified and counted as open once more.
abbrev pub counted : Env → HdCmd → World → HdInfo
counted env junk w = record w.hd_info {
  open_cnt = inc_int w.hd_info.open_cnt;
  primary = update w.hd_info.primary 0 (whole_drive (identity env junk w));
}

hd_open_steps :
    (env : Env) (junk : HdCmd) (device : ℤ) (w : World)
    → IsReady env
    → eq_ℤ (drv_of_dev device) (pos 0) ≡ true
    → hd_open env junk device w
      ≡ (if eq_ℤ w.hd_info.open_cnt (pos 0) then partition_primary env 0 else (λ w. done tt w))
          (record (identified env junk w) { hd_info = counted env junk w })
unfolding hd_open
hd_open_steps env junk device w r drive = rw (drive, ◌>>=◌, ◌>>◌, hd_identify_lem env junk w r) refl

-- What a successful opening leaves.
pub record Opened (info : HdInfo) (w w' : World) : Type 0 where
  pub hd_info : w'.hd_info ≡ info
  pub bytes : w'.bytes ≡ w.bytes

-- What the drive's entries are to be: none where the assertion on an empty table fails.
abbrev pub opening : (env : Env) (disk : ℕ → ℕ → ℕ) (junk : HdCmd) → World → Option HdInfo
opening env disk junk w =
    let t = part_ent (disk 0) in
    if eq_ℤ w.hd_info.open_cnt (pos 0)
    then (if partitions t 4 0 == 0 then none else some (enter_all disk t 4 0 (counted env junk w)))
    else some (counted env junk w)

abbrev pub Meets : Option HdInfo → World → Done (Unit {0}) → Type 0
Meets (some info) w (done _ w') = Opened info w w'
Meets (some info) w (failed why) = ⊥
Meets none w (done _ w') = ⊥
Meets none w (failed why) = why ≡ assert_failed

-- `hd_open` of a device of the first drive, ready and answering by the disk, where the driver's system
-- calls come back, does what `opening` says. When the drive is open already the call counts one more
-- and sets the drive's size anew. When it was not, each partition of the disk's first table, and each
-- in the chain of an extended one, is entered in its place; an entry that the disk names no partition
-- for stays as it was, and where the first table is empty the assertion on it fails. The memory's
-- bytes stay as they were.
pub hd_open_lem :
    (env : Env) (disk : ℕ → ℕ → ℕ) (junk : HdCmd) (device : ℤ) (w : World)
    → IsReady env
    → Answers env disk
    → eq_ℤ (drv_of_dev device) (pos 0) ≡ true
    → Meets (opening env disk junk w) w (hd_open env junk device w)
hd_open_lem env disk junk device w r a drive =
    let steps = hd_open_steps env junk device w r drive in
    let w1 : World = record (identified env junk w) { hd_info = counted env junk w } in
    let (empty, full) = partition_primary_lem env disk w1 r a in
    elim (Bool-cases (eq_ℤ w.hd_info.open_cnt (pos 0))) [
      | inr again ↦ rw (steps, again) (record { hd_info = refl; bytes = refl })
      | inl first ↦ elim (eq_cases (partitions (part_ent (disk 0)) 4 0) 0) [
        | inl none_ ↦
            let test : (partitions (part_ent (disk 0)) 4 0 == 0) ≡ true = ground arith in
            rw (steps, first, test, empty none_) refl
        | inr some_ ↦
            let (w', run, info, bytes) = full some_ in
            let test : (partitions (part_ent (disk 0)) 4 0 == 0) ≡ false = ==_of_ne _ 0 some_ in
            rw (steps, first, test, run) (record { hd_info = info; bytes = bytes })
      ]
    ]
