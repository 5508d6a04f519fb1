-- ===== src/Disk/Transfer/Reading.antt =====
-- Reading whole sectors (src/kernel/hd.c, `hd_rdwt`): what the process's memory holds afterwards.
use canalotus.Common.{
  ℕ, zero, suc, ◌+◌, ◌-◌, ◌*◌, ◌≤◌, ◌<◌, ◌≡◌, ◌⊎◌, ◌&&◌, ltb, leb, if◌then◌else◌, List, ◌∷◌,
}
use canalotus.Disk.{World, Env, Event, interrupt_wait, port_read, sector_size}

-- The events after `n` sectors were read, the last first.
abbrev pub rounds : ℕ → List Event → List Event
rounds zero evs = evs
rounds (suc n) evs = rounds n (port_read ∷ interrupt_wait ∷ evs)

-- What `n` sectors at the address `la` make of the world.
pub record Delivers (env : Env) (n la : ℕ) (w w' : World) : Type 0 where
  pub events : w'.events ≡ rounds n w.events
  pub inside :
      (k i : ℕ)
      → k < n
      → i < sector_size
      → w'.bytes (la + k * sector_size + i) ≡ env.data_port (interrupt_wait ∷ rounds k w.events) i
  pub outside : (a : ℕ) → (a < la) ⊎ (la + n * sector_size ≤ a) → w'.bytes a ≡ w.bytes a
  pub same_info : w'.hd_info ≡ w.hd_info

-- One round with a whole sector.
abbrev received : Env → (la : ℕ) → World → World
received env la w =
    let sector = env.data_port (interrupt_wait ∷ w.events) in
    let buf : ℕ → ℕ = λ i. if ltb i sector_size then sector i else w.hd_buf i in
    record w {
      events = port_read ∷ interrupt_wait ∷ w.events;
      hd_buf = buf;
      bytes = λ a. if leb la a && ltb a (la + sector_size) then buf (a - la) else w.bytes a;
    }
