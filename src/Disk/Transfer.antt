-- ===== src/Disk/Transfer.antt =====
-- Moving sectors between the drive and a process (src/kernel/hd.c, `hd_rdwt` and `hd_ioctl`). A
-- message's count is of 32 bits, and the process's memory is a function of the address.
pub mod Request
pub mod Reading
pub mod Partial
use canalotus.Common.{
  ℕ, zero, suc, ◌+◌, ◌-◌, ◌*◌, ◌/◌, ◌%◌, ◌^◌, Bool, true, false, not, ◌&&◌, ◌==◌, ltb, leb,
  if◌then◌else◌, ℤ, pos, negsuc, eq_ℤ, ltb_ℤ, bit_and,
}
use canalotus.State.{Message, assert_failed, panicked, out_of_table, looping, entry}
use canalotus.Ipc.{va2la}
use canalotus.Disk.{
  PartInfo, HdInfo, World, Env, done, failed, D, pure, stop, ◌>>=◌, ◌>>◌, assert, get, in_kernel,
  tell, wait_for_interrupt, pattern, sector_size, nr_sub_per_drive, nr_prim_per_drive, max_prim,
  minor_hd1a, drv_of_dev, hd_info_entry, status_drq, hd_timeout, waitfor, hd_cmd_out, read_buffer,
  sector_cmd, ata_read, ata_write,
}

abbrev pub dev_read : ℤ
dev_read = pos 4

-- `(CNT + SECTOR_SIZE - 1) / SECTOR_SIZE`, a quotient cut off towards 0, as the 8 bits of a field
abbrev pub sectors_of : ℤ → ℕ
sectors_of (pos n) = (n + (sector_size - 1)) / sector_size % 2 ^ 8
sectors_of (negsuc n) =
    if leb n (sector_size - 2)
    then 0
    else (2 ^ 8 - (n - (sector_size - 2)) / sector_size % 2 ^ 8) % 2 ^ 8

-- Where the partition of a message starts: the entry of `primary`, for a logical partition too. An
-- index outside the array is a stop.
unfoldable pub partition_base : (device : ℤ) → D ℕ
partition_base (negsuc d) w = failed out_of_table
partition_base (pos d) w =
    if ltb d max_prim
    then (if ltb d nr_prim_per_drive
        then done (w.hd_info.primary d).base w
        else failed out_of_table)
    else (let logidx = (d - minor_hd1a) % nr_sub_per_drive in
        if leb minor_hd1a d && ltb logidx nr_prim_per_drive
        then done (w.hd_info.primary logidx).base w
        else failed out_of_table)

-- `memcpy` of `n` bytes of `hd_buf`
abbrev pub copy_out : (la n : ℕ) → D (Unit {0})
copy_out la n w =
    done tt (record w {
      bytes = λ a. if leb la a && ltb a (la + n) then w.hd_buf (a - la) else w.bytes a;
    })

-- One round of the loop of `hd_rdwt`, with the signed count of the bytes that are left. A negative
-- number of bytes to copy is more than there is memory.
unfoldable pub move_sector : Env → (read : Bool) → (bytes_left la : ℕ) → D (Unit {0})
unfolding waitfor va2la
move_sector env true bytes_left la = do
  wait_for_interrupt env
  read_buffer env
  in_kernel env (va2la 2 env.hd_buf_at)
  if ltb bytes_left (2 ^ 31)
      then copy_out la (if ltb sector_size bytes_left then sector_size else bytes_left)
      else stop out_of_table
move_sector env false bytes_left la = do
  ready ← waitfor env status_drq status_drq hd_timeout
  if ready then pure tt else stop panicked

-- The loop, on fuel: `bytes_left` is an `int`, here as 32 bits, and ends the loop at 0 only.
unfoldable pub transfer : Env → (fuel : ℕ) → (read : Bool) → (bytes_left la : ℕ) → D (Unit {0})
unfolding move_sector
transfer env zero read bytes_left la = stop looping
transfer env (suc fuel) read bytes_left la = if bytes_left == 0 then pure tt else (do
  move_sector env read bytes_left la
  transfer env fuel read ((bytes_left + (2 ^ 32 - sector_size)) % 2 ^ 32)
      ((la + sector_size) % 2 ^ 32))

-- `hd_rdwt`. Its first assertion compares an unsigned number with `1 << 31`, which is negative as
-- an `int` and greater than every position as an unsigned number: it always holds.
unfoldable pub hd_rdwt : Env → (fuel : ℕ) → Message → D (Unit {0})
unfolding hd_cmd_out sector_cmd partition_base transfer va2la
hd_rdwt env fuel msg = do
  assert (bit_and msg.m3l1 0x1FF == 0)
  hd_info_entry (drv_of_dev msg.m3i4)
  start ← partition_base msg.m3i4
  let sect_nr = (msg.m3l1 / 2 ^ 9 + start) % 2 ^ 32
  let read = eq_ℤ msg.msg_type dev_read
  hd_cmd_out env (sector_cmd 0 sect_nr (sectors_of msg.m3i2) (if read then ata_read else ata_write))
  pid ← in_kernel env (entry msg.m3i3)
  la ← in_kernel env (va2la pid msg.m3p2)
  transfer env fuel read (pattern msg.m3i2) la

-- `struct part_info` as the eight bytes that stand in memory
abbrev pub byte_of : ℕ → ℕ → ℕ
byte_of n i = n / 2 ^ (8 * i) % 2 ^ 8

abbrev pub info_bytes : PartInfo → ℕ → ℕ
info_bytes p i = if ltb i 4 then byte_of p.base i else byte_of p.size (i - 4)

-- The partition of a message, for `hd_ioctl`.
unfoldable pub partition_info : (device : ℤ) → D PartInfo
partition_info (negsuc d) w = failed out_of_table
partition_info (pos d) w =
    if ltb d max_prim
    then (if ltb d nr_prim_per_drive then done (w.hd_info.primary d) w else failed out_of_table)
    else (if leb minor_hd1a d
        then done (w.hd_info.logical ((d - minor_hd1a) % nr_sub_per_drive)) w
        else failed out_of_table)

abbrev pub dioctl_get_geo : ℤ
dioctl_get_geo = pos 1

unfoldable pub hd_ioctl : Env → (hdi_at : ℕ) → Message → D (Unit {0})
unfolding partition_info va2la
hd_ioctl env hdi_at msg =
    if eq_ℤ msg.m3i2 dioctl_get_geo
    then (do
      hd_info_entry (drv_of_dev msg.m3i4)
      pid ← in_kernel env (entry msg.m3i3)
      dst ← in_kernel env (va2la pid msg.m3p2)
      info ← partition_info msg.m3i4
      in_kernel env (va2la 2 hdi_at)
      w ← get
      λ w. done tt (record w {
        bytes = λ a. if leb dst a && ltb a (dst + 8) then info_bytes info (a - dst) else w.bytes a;
      }))
    else stop assert_failed
