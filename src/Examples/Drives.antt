-- ===== src/Examples/Drives.antt =====
-- The theorems on the disk driver, applied to a drive that answers each command at once, and on the
-- layout of a disk.
use canalotus.Common.{
  ℕ, zero, suc, ◌+◌, ◌*◌, ◌%◌, ◌^◌, ◌≤◌, ◌≡◌, refl, ◌≢◌, Bool, true, false, ◌==◌, if◌then◌else◌,
  pos, some, List, [], ◌∷◌, ◌++◌, arith,
}
use canalotus.State.{Message}
use canalotus.Disk.{World, Env, done, HdCmd, Event, out_byte, interrupt_wait, port_read, waitfor}
use canalotus.Disk.Waiting.{Polled, waited, waitfor_lem}
use canalotus.Disk.Command.{IsReady, registers}
use canalotus.Disk.Partition.{hd_open}
use canalotus.Disk.Partition.Extended.{Answers}
use canalotus.Disk.Partition.Opening.{Meets, opening, hd_open_lem}
use canalotus.Disk.Transfer.{hd_rdwt}
use canalotus.Disk.Transfer.Request.{IsRequest, command_of}
use canalotus.Disk.Transfer.Partial.{hd_rdwt-never, hd_rdwt_writes}
use canalotus.Fs.{Request, mkfs}
use canalotus.Fs.Layout.{geo_request, AreWrites, stored, laid_out, mkfs_lem}
use canalotus.Examples.{idle_table, idle_table-IsValid, kernel_of}

-- The values that the events put at ports, the last first.
abbrev values : List Event → List ℕ
values [] = []
values (out_byte port value ∷ evs) = value ∷ values evs
values (interrupt_wait ∷ evs) = values evs
values (port_read ∷ evs) = values evs

abbrev nth : ℕ → List ℕ → ℕ
nth n [] = 0
nth zero (x ∷ xs) = x
nth (suc n) (x ∷ xs) = nth n xs

-- The sector that the last command names.
abbrev asked : List Event → ℕ
asked evs =
    let l = values evs in nth 1 l % 2 ^ 4 * 2 ^ 24 + nth 2 l * 2 ^ 16 + nth 3 l * 2 ^ 8 + nth 4 l

-- An extended partition from sector 100 on, and in it a logical one from sector 101 on.
abbrev disk : ℕ → ℕ → ℕ
disk s i =
    if s == 0
    then (if i == 0x1BE + 4
        then 0x05
        else (if i == 0x1BE + 8 then 100 else (if i == 0x1BE + 12 then 50 else 0)))
    else (if i == 0x1BE + 4
        then 0xB0
        else (if i == 0x1BE + 8 then 1 else (if i == 0x1BE + 12 then 9 else 0)))

abbrev pub drive : Env
drive = record {
  get_ticks = λ i. some (pos (i * 100));
  interrupt_comes = λ _. true;
  kernel = λ _ _. kernel_of idle_table;
  status = λ _. 0x48;
  data_port = λ evs. disk (asked evs);
  hd_buf_at = 0x4000;
  fuel = 20;
}

pub drive-IsReady : IsReady drive
drive-IsReady = record {
  fuel = omega arith;
  free = λ i. refl;
  drq = λ i. refl;
  clock = λ i. i * 100;
  told = λ i. refl;
  forward = λ i. omega arith;
  prompt = λ i. omega arith;
  interrupts = λ _. refl;
}

drive-Answers : Answers drive disk
drive-Answers c evs is read = refl

abbrev pub world : World
world = record {
  hd_info = record {
    open_cnt = pos 0;
    primary = λ _. record { base = 100; size = 50 };
    logical = λ _. record { base = 0; size = 0 };
  };
  hd_buf = λ _. 0;
  events = [];
  readings = 0;
  polls = 0;
  bytes = λ _. 0;
}

abbrev request : (type_ count : ℕ) → Message
request type_ count = record {
  source = pos 3;
  msg_type = pos type_;
  m3i1 = pos 0;
  m3i2 = pos count;
  m3i3 = pos 3;
  m3i4 = pos 1;
  m3l1 = 1024;
  m3l2 = 0;
  m3p1 = 0;
  m3p2 = 0x9000;
}

request-IsRequest : (type_ count : ℕ) → IsRequest (request type_ count) 1 3
request-IsRequest type_ count = record {
  process = refl;
  in_table = omega arith;
  partition = refl;
  primary = omega arith;
  aligned = refl;
  buffer = omega arith;
}

hd_rdwt_writes_example :
    (w' : World) × (hd_rdwt drive 5 (request 5 1024) world ≡ done tt w')
    × (w'.events ≡ registers (command_of (request 5 1024) 1 false world) ++ [])
    × (w'.polls ≡ 0 + 1 + 2)
hd_rdwt_writes_example =
    hd_rdwt_writes drive 5 2 (request 5 1024) 1 3 world drive-IsReady
      (λ _ _. idle_table-IsValid.flat) (request-IsRequest 5 1024) (omega arith) (omega arith) refl
      refl

hd_rdwt-never_example : hd_rdwt drive 1000 (request 4 100) world ≢ done tt world
hd_rdwt-never_example = hd_rdwt-never drive 1000 (request 4 100) 100 world refl (omega arith) world

abbrev pub junk : HdCmd
junk = record {
  features = 7;
  count = 7;
  lba_low = 7;
  lba_mid = 7;
  lba_high = 7;
  device = 7;
  command = 7;
}

hd_open_lem_example : Meets (opening drive disk junk world) world (hd_open drive junk (pos 1) world)
hd_open_lem_example = hd_open_lem drive disk junk (pos 1) world drive-IsReady drive-Answers refl

waitfor_lem_example :
    (b : Bool) × (n : ℕ) × (w' : World) × (waitfor drive 0x80 0 10000 world ≡ done b w')
    × (n ≤ 9)
    × Polled drive (λ i. pos (i * 100)) 0x80 0 10000 (pos 0) (waited world 1 0) n b w'
waitfor_lem_example =
    waitfor_lem drive (λ i. pos (i * 100)) 0x80 0 10000 9 world (λ _. refl) (omega arith) refl

mkfs_lem_example :
    (rs : List Request) × (mkfs 0x7000 0x100000 ≡ some (geo_request 0x7000 ∷ rs))
    × AreWrites rs
    × (stored rs 2 ≡ laid_out 0x100000 2)
mkfs_lem_example = mkfs_lem 0x7000 0x100000 2
