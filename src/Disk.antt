-- ===== src/Disk.antt =====
-- The hard disk driver (src/kernel/hd.c, src/include/sys/hd.h) on its own state and the drive's
-- ports. The drive and the clock are a parameter, `Env`: what the n-th reading of the clock and of
-- the status register gives, and what a sector read from the data port holds, which may depend on
-- everything sent before. `waitfor` polls on fuel.
pub mod Waiting
pub mod Command
pub mod Partition
pub mod Transfer
pub mod Serve
pub mod Handler
use canalotus.Common.{
  ℕ, zero, suc, ◌+◌, ◌-◌, ◌*◌, ◌/◌, ◌%◌, ◌^◌, Bool, true, false, not, ◌&&◌, ◌==◌, ltb, leb,
  if◌then◌else◌, update, ℤ, pos, negsuc, eq_ℤ, inc_int, dec_int, Option, none, some, List, [], ◌∷◌,
  bit_and, bit_or,
}
use canalotus.State.{
  Message, Kernel, Stop, assert_failed, panicked, out_of_table, looping, Run, ok, stopped, M,
}

-- What the driver does at the drive's ports, and the interrupts it waits for.
pub data Event : Type 0 where
  out_byte : (port value : ℕ) → Event
  interrupt_wait port_read : Event

-- `struct part_info`
pub record PartInfo : Type 0 where
  pub base : ℕ
  pub size : ℕ

-- `struct hd_info`
pub record HdInfo : Type 0 where
  pub open_cnt : ℤ
  pub primary : ℕ → PartInfo
  pub logical : ℕ → PartInfo

-- The driver's state, with the events so far, the last first, and the memory's bytes.
pub record World : Type 0 where
  pub hd_info : HdInfo
  pub hd_buf : ℕ → ℕ
  pub events : List Event
  pub readings : ℕ
  pub polls : ℕ
  pub bytes : ℕ → ℕ

-- What comes from outside. The driver's system calls leave it and come back while others run: its
-- n-th call of `get_ticks` gives the time, or stops and gives none; a wait for an interrupt comes back
-- or does not, and the kernel is another each time that it is looked at.
pub record Env : Type 0 where
  pub get_ticks : ℕ → Option ℤ
  pub interrupt_comes : List Event → Bool
  pub kernel : (readings : ℕ) → List Event → Kernel
  pub status : ℕ → ℕ
  pub data_port : List Event → ℕ → ℕ
  -- where `hd_buf` stands
  pub hd_buf_at : ℕ
  pub fuel : ℕ

pub data Done {ℓ} (A : Type ℓ) : Type ℓ where
  done : A → World → Done A
  failed : Stop → Done A

abbrev pub D : Type 0 → Type 0
D A = World → Done A

abbrev pub pure : {A : Type 0} → A → D A
pure a w = done a w

abbrev pub stop : {A : Type 0} → Stop → D A
stop why w = failed why

infixl 5 ◌>>=◌ ◌>>◌
abbrev pub ◌>>=◌ : {A B : Type 0} → D A → (A → D B) → D B
◌>>=◌ m f w = elim (m w) [ done a w' ↦ f a w' | failed why ↦ failed why ]

abbrev pub ◌>>◌ : {A B : Type 0} → D A → D B → D B
m >> n = m >>= λ _. n

abbrev pub assert : Bool → D (Unit {0})
assert b w = if b then done tt w else failed assert_failed

abbrev pub get : D World
get w = done w w

-- A call of the kernel's functions on processes.
abbrev pub in_kernel : {A : Type 0} → Env → M A → D A
in_kernel env m w = elim (m (env.kernel w.readings w.events)) [
  | ok a k ↦ done a w
  | stopped why ↦ failed why
]

abbrev pub tell : Event → D (Unit {0})
tell e w = done tt (record w { events = e ∷ w.events })

-- `interrupt_wait`
abbrev pub wait_for_interrupt : Env → D (Unit {0})
wait_for_interrupt env w =
    if env.interrupt_comes w.events
    then done tt (record w { events = interrupt_wait ∷ w.events })
    else failed looping

abbrev pub set_primary : ℕ → PartInfo → D (Unit {0})
set_primary i p w =
    done tt (record w { hd_info = record w.hd_info { primary = update w.hd_info.primary i p } })

abbrev pub set_logical : ℕ → PartInfo → D (Unit {0})
set_logical i p w =
    done tt (record w { hd_info = record w.hd_info { logical = update w.hd_info.logical i p } })

abbrev pub sector_size : ℕ
sector_size = 512

abbrev pub nr_part_per_drive : ℕ
nr_part_per_drive = 4

abbrev pub nr_sub_per_part : ℕ
nr_sub_per_part = 16

abbrev pub nr_sub_per_drive : ℕ
nr_sub_per_drive = nr_sub_per_part * nr_part_per_drive

abbrev pub nr_prim_per_drive : ℕ
nr_prim_per_drive = nr_part_per_drive + 1

-- MAX_DRIVERS * NR_PRIM_PER_DRIVE - 1
abbrev pub max_prim : ℕ
max_prim = 2 * nr_prim_per_drive - 1

abbrev pub minor_hd1a : ℕ
minor_hd1a = 0x10

-- DRV_OF_DEV: the quotient of two `int`s is cut off towards 0.
abbrev pub drv_of_dev : ℤ → ℤ
drv_of_dev (pos d) =
    if leb d max_prim
    then pos (d / nr_prim_per_drive)
    else pos ((d - minor_hd1a) / nr_sub_per_drive)
drv_of_dev (negsuc d) =
    let q = (d + 1) / nr_prim_per_drive in if q == 0 then pos 0 else negsuc (q - 1)

-- `hd_info[drive]` has one entry.
abbrev pub hd_info_entry : ℤ → D (Unit {0})
hd_info_entry drive = if eq_ℤ drive (pos 0) then pure tt else stop out_of_table

-- One reading of the clock and one of the status register.
abbrev pub get_ticks : Env → D ℤ
get_ticks env w = elim (env.get_ticks w.readings) [
  | some n ↦ done n (record w { readings = w.readings + 1 })
  | none ↦ failed assert_failed
]

abbrev pub in_status : Env → D ℕ
in_status env w = done (env.status w.polls) (record w { polls = w.polls + 1 })

abbrev pub hz : ℕ
hz = 100

abbrev pub hd_timeout : ℕ
hd_timeout = 10000

abbrev pub status_bsy : ℕ
status_bsy = 0x80

abbrev pub status_drq : ℕ
status_drq = 0x08

-- an `int` as the 32 bits that stand in memory
abbrev pub pattern : ℤ → ℕ
pattern (pos n) = n % 2 ^ 32
pattern (negsuc n) = 2 ^ 32 - 1 - n % 2 ^ 32

-- `(now - t) * 1000 / HZ < timeout` on `int`s that wrap: the bits of the product, and the quotient of
-- the number that they stand for, cut off towards 0.
abbrev pub in_time : (now t : ℤ) (timeout : ℕ) → Bool
in_time now t timeout =
    let x = (pattern now + (2 ^ 32 - pattern t)) * 1000 % 2 ^ 32 in
    if ltb x (2 ^ 31) then ltb (x / hz) timeout else ltb 0 (timeout + (2 ^ 32 - x) / hz)

-- The loop of `waitfor`.
unfoldable pub waitfor_loop : Env → (fuel mask val timeout : ℕ) → (t : ℤ) → D Bool
waitfor_loop env zero mask val timeout t = stop looping
waitfor_loop env (suc fuel) mask val timeout t = do
  now ← get_ticks env
  if in_time now t timeout
      then (do
        s ← in_status env
        if bit_and s mask == val then pure true else waitfor_loop env fuel mask val timeout t)
      else pure false

unfoldable pub waitfor : Env → (mask val timeout : ℕ) → D Bool
unfolding waitfor_loop
waitfor env mask val timeout = do t ← get_ticks env; waitfor_loop env env.fuel mask val timeout t

-- `struct hd_cmd`
pub record HdCmd : Type 0 where
  pub features : ℕ
  pub count : ℕ
  pub lba_low : ℕ
  pub lba_mid : ℕ
  pub lba_high : ℕ
  pub device : ℕ
  pub command : ℕ

unfoldable pub hd_cmd_out : Env → HdCmd → D (Unit {0})
unfolding waitfor
hd_cmd_out env cmd = do
  ready ← waitfor env status_bsy 0 hd_timeout
  if ready then pure tt else stop panicked
  tell (out_byte 0x3F6 0)
  tell (out_byte 0x1F1 cmd.features)
  tell (out_byte 0x1F2 cmd.count)
  tell (out_byte 0x1F3 cmd.lba_low)
  tell (out_byte 0x1F4 cmd.lba_mid)
  tell (out_byte 0x1F5 cmd.lba_high)
  tell (out_byte 0x1F6 cmd.device)
  tell (out_byte 0x1F7 cmd.command)

-- `port_read(REG_DATA, hd_buf, SECTOR_SIZE)`
abbrev pub read_buffer : Env → D (Unit {0})
read_buffer env w =
    let sector = env.data_port w.events in
    done tt (record w {
      hd_buf = λ i. if ltb i sector_size then sector i else w.hd_buf i;
      events = port_read ∷ w.events;
    })

-- MAKE_DEVICE_REG, as the 8 bits that the field keeps
abbrev pub make_device_reg : (lba drv lba_highest : ℕ) → ℕ
make_device_reg lba drv lba_highest =
    bit_or (bit_or (bit_or (lba * 2 ^ 6) (drv * 2 ^ 4)) (bit_and lba_highest 0xF)) 0xA0 % 2 ^ 8

-- The command for sectors from `sect_nr` on, as `get_part_table` and `hd_rdwt` fill it in.
unfoldable pub sector_cmd : (drive sect_nr count command : ℕ) → HdCmd
sector_cmd drive sect_nr count command = record {
  features = 0;
  count = count % 2 ^ 8;
  lba_low = bit_and sect_nr 0xFF;
  lba_mid = bit_and (sect_nr / 2 ^ 8) 0xFF;
  lba_high = bit_and (sect_nr / 2 ^ 16) 0xFF;
  device = make_device_reg 1 drive (bit_and (sect_nr / 2 ^ 24) 0xF);
  command = command;
}

abbrev pub ata_identify : ℕ
ata_identify = 0xEC

abbrev pub ata_read : ℕ
ata_read = 0x20

abbrev pub ata_write : ℕ
ata_write = 0x30

-- `hd_buf` seen as words of 16 bits
abbrev pub word : (ℕ → ℕ) → ℕ → ℕ
word buf i = buf (2 * i) + buf (2 * i + 1) * 2 ^ 8

-- `hd_identify(0)`; the fields of `cmd` that it does not set are what `junk` says.
unfoldable pub hd_identify : Env → HdCmd → D (Unit {0})
unfolding hd_cmd_out
hd_identify env junk = do
  hd_cmd_out env (record junk { device = make_device_reg 0 0 0; command = ata_identify })
  wait_for_interrupt env
  read_buffer env
  w ← get
  set_primary 0
      (record { base = 0; size = (word w.hd_buf 61 * 2 ^ 16 + word w.hd_buf 60) % 2 ^ 32 })
