-- ===== src/Disk/Partition.antt =====
-- Reading the partition tables of drive 0 (src/kernel/hd.c, `get_part_table`, `partition`,
-- `hd_open`, `hd_close`). What `print_hdinfo` prints is left out.
pub mod Extended
pub mod Primary
pub mod Opening
use canalotus.Common.{
  ℕ, zero, suc, ◌+◌, ◌-◌, ◌*◌, ◌%◌, ◌^◌, Bool, true, not, ◌==◌, if◌then◌else◌, ℤ, pos, eq_ℤ,
  inc_int, dec_int,
}
use canalotus.State.{out_of_table}
use canalotus.Disk.{
  PartInfo, HdInfo, World, Env, done, D, pure, stop, ◌>>=◌, ◌>>◌, assert, get, tell,
  wait_for_interrupt, set_primary, set_logical, nr_part_per_drive, nr_sub_per_part,
  nr_prim_per_drive, drv_of_dev, hd_info_entry, HdCmd, hd_cmd_out, read_buffer, sector_cmd,
  ata_read, hd_identify,
}

-- `struct part_ent`, the fields that the driver reads
pub record PartEnt : Type 0 where
  pub sys_id : ℕ
  pub start_sect : ℕ
  pub nr_sects : ℕ

-- the 32 bits at an offset of a buffer
abbrev pub long : (ℕ → ℕ) → ℕ → ℕ
long buf i = buf i + buf (i + 1) * 2 ^ 8 + buf (i + 2) * 2 ^ 16 + buf (i + 3) * 2 ^ 24

-- Entry `i` of the table in a sector: 16 bytes each, from PARTITION_TABLE_OFFSET on.
unfoldable pub part_ent : (ℕ → ℕ) → ℕ → PartEnt
part_ent buf i = record {
  sys_id = buf (0x1BE + 16 * i + 4);
  start_sect = long buf (0x1BE + 16 * i + 8);
  nr_sects = long buf (0x1BE + 16 * i + 12);
}

-- `get_part_table` for drive 0
unfoldable pub get_part_table : Env → (sect_nr : ℕ) → D (ℕ → PartEnt)
unfolding hd_cmd_out sector_cmd
get_part_table env sect_nr = do
  hd_cmd_out env (sector_cmd 0 sect_nr 1 ata_read)
  wait_for_interrupt env
  read_buffer env
  w ← get
  pure (part_ent w.hd_buf)

abbrev pub no_part : ℕ
no_part = 0x00

abbrev pub ext_part : ℕ
ext_part = 0x05

-- The loop over the chain of logical partitions, from round `i` on; `s` is the sector of the table
-- to read. The sums are of 32 bits.
unfoldable pub logical_loop : Env → (left i nr_1st_sub ext_start_sect s : ℕ) → D (Unit {0})
unfolding get_part_table
logical_loop env zero i nr_1st_sub ext_start_sect s = pure tt
logical_loop env (suc left) i nr_1st_sub ext_start_sect s = do
  part_tbl ← get_part_table env s
  set_logical (nr_1st_sub + i)
      (record { base = (s + (part_tbl 0).start_sect) % 2 ^ 32; size = (part_tbl 0).nr_sects })
  if (part_tbl 1).sys_id == no_part
      then pure tt
      else logical_loop env left (i + 1) nr_1st_sub ext_start_sect
          ((ext_start_sect + (part_tbl 1).start_sect) % 2 ^ 32)

-- `partition(device, P_EXTENDED)`. For a drive's whole-disk number there is no such partition: the
-- first logical number would be negative.
unfoldable pub partition_extended : Env → (device : ℕ) → D (Unit {0})
unfolding logical_loop
partition_extended env device = do
  hd_info_entry (drv_of_dev (pos device))
  w ← get
  let j = device % nr_prim_per_drive
  let ext_start_sect = (w.hd_info.primary j).base
  if j == 0
      then stop out_of_table
      else logical_loop env nr_sub_per_part 0 ((j - 1) * nr_sub_per_part) ext_start_sect
          ext_start_sect

-- The loop over the four entries, from `i` on, with the number of partitions so far.
unfoldable pub primary_loop : Env → (device : ℕ) → (ℕ → PartEnt) → (left i nr_prim_parts : ℕ) → D ℕ
unfolding partition_extended part_ent
primary_loop env device part_tbl zero i nr_prim_parts = pure nr_prim_parts
primary_loop env device part_tbl (suc left) i nr_prim_parts =
    let entry = part_tbl i in
    if entry.sys_id == no_part
    then primary_loop env device part_tbl left (i + 1) nr_prim_parts
    else (do
      set_primary (i + 1) (record { base = entry.start_sect; size = entry.nr_sects })
      if entry.sys_id == ext_part then partition_extended env (device + (i + 1)) else pure tt
      primary_loop env device part_tbl left (i + 1) (nr_prim_parts + 1))

-- `partition(device, P_PRIMARY)`
unfoldable pub partition_primary : Env → (device : ℕ) → D (Unit {0})
unfolding primary_loop
partition_primary env device = do
  hd_info_entry (drv_of_dev (pos device))
  part_tbl ← get_part_table env 0
  nr_prim_parts ← primary_loop env device part_tbl nr_part_per_drive 0 0
  assert (not (nr_prim_parts == 0))

abbrev pub set_open_cnt : (ℤ → ℤ) → D (Unit {0})
set_open_cnt f w =
    done tt (record w { hd_info = record w.hd_info { open_cnt = f w.hd_info.open_cnt } })

unfoldable pub hd_open : Env → HdCmd → (device : ℤ) → D (Unit {0})
unfolding hd_identify partition_primary
hd_open env junk device = do
  assert (eq_ℤ (drv_of_dev device) (pos 0))
  hd_identify env junk
  w ← get
  set_open_cnt inc_int
  if eq_ℤ w.hd_info.open_cnt (pos 0) then partition_primary env 0 else pure tt

unfoldable pub hd_close : (device : ℤ) → D (Unit {0})
hd_close device = do assert (eq_ℤ (drv_of_dev device) (pos 0)); set_open_cnt dec_int
