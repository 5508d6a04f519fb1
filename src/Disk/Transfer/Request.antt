-- ===== src/Disk/Transfer/Request.antt =====
-- What every request to `hd_rdwt` (src/kernel/hd.c) starts with: the command for its sectors.
use canalotus.Common.{
  List, ℕ, ◌+◌, ◌/◌, ◌%◌, ◌^◌, ◌<◌, ◌≡◌, refl, Bool, true, ltb, leb, if◌then◌else◌, ℤ, pos, eq_ℤ,
  bit_and, arith,
}
use mathlib.Core.Path.{subst}
use canalotus.State.{Message, nr_procs}
use canalotus.Ipc.{ldt_seg_linear, index_ldt_rw}
use canalotus.Ipc.Send.HandOver.{va2la-ok}
use canalotus.Disk.{
  Event, World, Env, done, ◌>>=◌, ◌>>◌, HdCmd, sector_size, in_kernel, hd_info_entry, drv_of_dev,
  sector_cmd, ata_read, ata_write, max_prim, nr_prim_per_drive,
}
use canalotus.Disk.Command.{IsReady, commanded, hd_cmd_out-IsReady}
use canalotus.Disk.Transfer.{transfer, hd_rdwt, partition_base, dev_read, pattern, sectors_of}

-- The segments of every process start at 0.
abbrev pub StaysFlat : Env → Type 0
StaysFlat env =
    (n : ℕ)
    → (evs : List Event) → (p : ℕ) → p < nr_procs
    → ldt_seg_linear ((env.kernel n evs).proc_table p) index_ldt_rw ≡ 0

-- A request that names a partition of the drive and a process of the table, at a sector's start.
pub record IsRequest (msg : Message) (device src : ℕ) : Type 0 where
  pub process : msg.m3i3 ≡ pos src
  pub in_table : src < nr_procs
  pub partition : msg.m3i4 ≡ pos device
  pub primary : device < nr_prim_per_drive
  pub aligned : bit_and msg.m3l1 0x1FF ≡ 0
  pub buffer : msg.m3p2 < 2 ^ 32

-- The command of a request.
abbrev pub command_of : Message → (device : ℕ) → (read : Bool) → World → HdCmd
command_of msg device read w =
    sector_cmd 0 ((msg.m3l1 / sector_size + (w.hd_info.primary device).base) % 2 ^ 32)
      (sectors_of msg.m3i2) (if read then ata_read else ata_write)

partition_base_lem :
    (device : ℤ) (d : ℕ) (w : World)
    → device ≡ pos d
    → d < nr_prim_per_drive
    → partition_base device w ≡ done (w.hd_info.primary d).base w
unfolding partition_base
partition_base_lem device d w e h =
    let one : ltb d max_prim ≡ true = ground arith in
    let two : ltb d nr_prim_per_drive ≡ true = ground arith in rw (e, one, two) refl

first_drive :
    (device : ℤ) (d : ℕ) (w : World)
    → device ≡ pos d
    → d < nr_prim_per_drive
    → hd_info_entry (drv_of_dev device) w ≡ done tt w
first_drive device d w e h =
    let one : leb d max_prim ≡ true = ground arith in
    let two : d / nr_prim_per_drive ≡ 0 = omega arith in rw (e, one, two) refl

hd_rdwt_runs :
    (env : Env) (fuel : ℕ) (msg : Message) (device src : ℕ) (w : World)
    → IsReady env
    → StaysFlat env
    → IsRequest msg device src
    → let read = eq_ℤ msg.msg_type dev_read in
      hd_rdwt env fuel msg w
      ≡ transfer env fuel read
          (pattern msg.m3i2)
          msg.m3p2
          (commanded (command_of msg device read w) w)
unfolding hd_rdwt
hd_rdwt_runs env fuel msg device src w r flat q =
    let read : Bool = eq_ℤ msg.msg_type dev_read in
    let drive = first_drive msg.m3i4 device w q.partition q.primary in
    let base = partition_base_lem msg.m3i4 device w q.partition q.primary in
    let sent = hd_cmd_out-IsReady env (command_of msg device read w) w r in
    let inside : ltb src nr_procs ≡ true = ground (arith, q.in_table) in
    let at : World = commanded (command_of msg device read w) w in
    let to =
      va2la-ok src msg.m3p2 (env.kernel at.readings at.events)
        (flat at.readings at.events src q.in_table) q.buffer in
    rw (q.aligned, ◌>>◌, ◌>>=◌, drive, base, sent, in_kernel, q.process, inside, to) refl

-- A request sends its command, and then moves the sectors.
pub hd_rdwt_starts :
    (env : Env) (fuel : ℕ) (msg : Message) (device src : ℕ) (read : Bool) (w : World)
    → IsReady env
    → StaysFlat env
    → IsRequest msg device src
    → eq_ℤ msg.msg_type dev_read ≡ read
    → hd_rdwt env fuel msg w
      ≡ transfer env fuel read
          (pattern msg.m3i2)
          msg.m3p2
          (commanded (command_of msg device read w) w)
hd_rdwt_starts env fuel msg device src read w r flat q type_ =
    subst
      (λ b.
        hd_rdwt env fuel msg w
        ≡ transfer env fuel b (pattern msg.m3i2) msg.m3p2 (commanded (command_of msg device b w) w))
      type_ (hd_rdwt_runs env fuel msg device src w r flat q)
