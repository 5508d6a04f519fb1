-- ===== src/Disk/Serve.antt =====
-- One round of the driver's loop (src/kernel/hd.c, `sys_hd`) on a request, and what it starts with.
use canalotus.Common.{ℕ, ◌||◌, if◌then◌else◌, ◌==◌, not, ℤ, pos, eq_ℤ}
use canalotus.State.{Message, looping}
use canalotus.Disk.{Env, done, D, stop, ◌>>◌, assert, HdCmd}
use canalotus.Disk.Partition.{hd_open, hd_close}
use canalotus.Disk.Transfer.{hd_rdwt, hd_ioctl, dev_read}

abbrev pub dev_open : ℤ
dev_open = pos 2

abbrev pub dev_close : ℤ
dev_close = pos 3

abbrev pub dev_write : ℤ
dev_write = pos 5

abbrev pub dev_ioctl : ℤ
dev_ioctl = pos 6

-- `init_hd`: the byte at 0x475 is the number of drives. The handler of interrupts is put in place
-- by code that is left out.
unfoldable pub init_hd : (drives : ℕ) → D (Unit {0})
init_hd drives = do
  assert (not (drives == 0))
  λ w. done tt (record w {
    hd_info = record {
      open_cnt = pos 0;
      primary = λ _. record { base = 0; size = 0 };
      logical = λ _. record { base = 0; size = 0 };
    };
  })

-- The switch on a message's type; `spin` never comes back.
unfoldable pub serve : Env → HdCmd → (fuel hdi_at : ℕ) → Message → D (Unit {0})
unfolding hd_open hd_close hd_rdwt hd_ioctl
serve env junk fuel hdi_at msg =
    if eq_ℤ msg.msg_type dev_open
    then hd_open env junk msg.m3i4
    else (if eq_ℤ msg.msg_type dev_close
        then hd_close msg.m3i4
        else (if eq_ℤ msg.msg_type dev_read || eq_ℤ msg.msg_type dev_write
            then hd_rdwt env fuel msg
            else (if eq_ℤ msg.msg_type dev_ioctl then hd_ioctl env hdi_at msg else stop looping)))
