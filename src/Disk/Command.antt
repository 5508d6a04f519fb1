-- ===== src/Disk/Command.antt =====
-- The commands that the driver (src/kernel/hd.c) sends: their registers, and what the drive does
-- when it is ready.
use canalotus.Common.{
  some, ◌≤◌, pos, ℕ, zero, suc, ◌+◌, ◌-◌, ◌*◌, ◌/◌, ◌%◌, ◌^◌, ◌<◌, ◌≡◌, refl, ◌∙◌, true, ◌==◌,
  ==→eq, List, [], ◌∷◌, ◌++◌, bit_and, bit_or, arith,
}
use canalotus.Common.{all_below_lem, and_0xFF, bit_and-ones}
use canalotus.Disk.{
  ◌>>=◌, ◌>>◌, World, Env, done, waitfor_loop, waitfor, in_time, HdCmd, hd_cmd_out, Event, out_byte,
  status_bsy, hd_timeout, sector_cmd, make_device_reg,
}

-- The sector that the registers name, by the ATA standard: 28 bits.
abbrev pub lba_of : HdCmd → ℕ
lba_of c = c.device % 2 ^ 4 * 2 ^ 24 + c.lba_high * 2 ^ 16 + c.lba_mid * 2 ^ 8 + c.lba_low

-- The registers have 8 bits, address by sector number, and select drive 0.
pub record IsCommand (c : HdCmd) : Type 0 where
  pub count : c.count < 2 ^ 8
  pub low : c.lba_low < 2 ^ 8
  pub mid : c.lba_mid < 2 ^ 8
  pub high : c.lba_high < 2 ^ 8
  pub device : c.device / 2 ^ 4 ≡ 0xE

and_0xF : (n : ℕ) → bit_and n 0xF ≡ n % 0x10
and_0xF n = bit_and-ones 4 n ∙ omega arith

device_reg : (n : ℕ) → make_device_reg 1 0 (bit_and n 0xF) ≡ 0xE0 + n % 0x10
device_reg n =
    let twice : bit_and (bit_and n 0xF) 0xF ≡ n % 0x10 =
      and_0xF (bit_and n 0xF) ∙ omega (arith, and_0xF n) in
    let all : (bit_or (bit_or 0x40 (n % 0x10)) 0xA0 % 2 ^ 8 == 0xE0 + n % 0x10) ≡ true =
      all_below_lem 0x10 (λ m. bit_or (bit_or 0x40 m) 0xA0 % 2 ^ 8 == 0xE0 + m) (n % 0x10)
        (omega arith) refl in
    rw twice (==→eq _ _ all)

-- The registers that `get_part_table` and `hd_rdwt` send name the sector that they want, by its
-- low 28 bits.
pub sector_cmd_lem :
    (sect_nr count command : ℕ)
    → let c = sector_cmd 0 sect_nr count command in
      (lba_of c ≡ sect_nr % 2 ^ 28) × IsCommand c × (c.count ≡ count % 2 ^ 8)
unfolding sector_cmd
sector_cmd_lem sect_nr count command =
    let a = and_0xFF sect_nr in
    let b = and_0xFF (sect_nr / 2 ^ 8) in
    let c = and_0xFF (sect_nr / 2 ^ 16) in
    let d = device_reg (sect_nr / 2 ^ 24) in
    (
      omega arith,
      record {
        count = omega arith;
        low = omega arith;
        mid = omega arith;
        high = omega arith;
        device = omega arith;
      },
      refl,
    )

-- A drive that is never busy, calls of `get_ticks` that come back with a time that does not leap,
-- waits for interrupts that come back, and fuel for a poll.
pub record IsReady (env : Env) : Type 0 where
  pub fuel : 0 < env.fuel
  pub free : (i : ℕ) → bit_and (env.status i) status_bsy ≡ 0
  pub drq : (i : ℕ) → bit_and (env.status i) 0x08 ≡ 0x08
  pub clock : ℕ → ℕ
  pub told : (i : ℕ) → env.get_ticks i ≡ some (pos (clock i))
  pub forward : (i : ℕ) → clock i ≤ clock (i + 1)
  pub prompt : (i : ℕ) → clock (i + 1) < clock i + 1000
  pub interrupts : (evs : List Event) → env.interrupt_comes evs ≡ true

-- What one successful `waitfor` makes of the world.
abbrev pub polled : World → World
polled w = record w { readings = w.readings + 1 + 1; polls = w.polls + 1 }

soon : (a b : ℕ) → a ≤ b → b < a + 1000 → in_time (pos b) (pos a) hd_timeout ≡ true
soon a b le h =
    let small : (b % 2 ^ 32 + (2 ^ 32 - a % 2 ^ 32)) * 1000 % 2 ^ 32 ≡ (b - a) * 1000 =
      omega arith in
    rw small (ground arith)

-- The loop's first round.
waitfor_loop-IsReady :
    (env : Env) (fuel mask val : ℕ) (w : World) (r : IsReady env)
    → 0 < fuel
    → (bit_and (env.status w.polls) mask == val) ≡ true
    → waitfor_loop env fuel mask val hd_timeout
        (pos (r.clock w.readings))
        (record w { readings = w.readings + 1 })
      ≡ done true (polled w)
unfolding waitfor_loop
waitfor_loop-IsReady env zero mask val w r h s = absurd (omega arith)
waitfor_loop-IsReady env (suc fuel) mask val w r h s =
    let now =
      soon (r.clock w.readings) (r.clock (w.readings + 1)) (r.forward w.readings)
        (r.prompt w.readings) in
    rw (◌>>=◌, r.told (w.readings + 1)) (rw (now, s) refl)

pub waitfor-IsReady :
    (env : Env) (mask val : ℕ) (w : World)
    → IsReady env
    → (bit_and (env.status w.polls) mask == val) ≡ true
    → waitfor env mask val hd_timeout w ≡ done true (polled w)
unfolding waitfor
waitfor-IsReady env mask val w r s =
    rw (waitfor, ◌>>=◌, r.told w.readings) (waitfor_loop-IsReady env env.fuel mask val w r r.fuel s)

-- The registers' values, the last first.
abbrev pub registers : HdCmd → List Event
registers c =
    out_byte 0x1F7 c.command
    ∷ out_byte 0x1F6 c.device
    ∷ out_byte 0x1F5 c.lba_high
    ∷ out_byte 0x1F4 c.lba_mid
    ∷ out_byte 0x1F3 c.lba_low
    ∷ out_byte 0x1F2 c.count
    ∷ out_byte 0x1F1 c.features
    ∷ out_byte 0x3F6 0
    ∷ []

abbrev pub commanded : HdCmd → World → World
commanded c w = record (polled w) { events = registers c ++ w.events }

pub hd_cmd_out-IsReady :
    (env : Env) (c : HdCmd) (w : World) → IsReady env → hd_cmd_out env c w ≡ done tt (commanded c w)
unfolding hd_cmd_out
hd_cmd_out-IsReady env c w r =
    let e = waitfor-IsReady env status_bsy 0 w r (rw (r.free w.polls) refl) in
    rw (hd_cmd_out, ◌>>=◌, ◌>>◌, e) refl
