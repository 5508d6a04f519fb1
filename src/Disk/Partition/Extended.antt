-- ===== src/Disk/Partition/Extended.antt =====
-- The logical partitions that `partition` (src/kernel/hd.c) finds, against the chain of tables on
-- the disk.
use canalotus.Common.{
  ℕ, zero, suc, ◌+◌, ◌-◌, ◌*◌, ◌/◌, ◌%◌, ◌^◌, ◌≤◌, ◌<◌, ◌≡◌, refl, ◌∙◌, ap, ◌⊎◌, inl, inr, true,
  false, ◌==◌, ltb, leb, if◌then◌else◌, Bool-cases, update, List, [], ◌∷◌, ◌++◌, length, arith,
}
use mathlib.Core.Path.{subst}
use canalotus.Disk.{
  pure, PartInfo, World, Env, done, ◌>>=◌, ◌>>◌, HdCmd, Event, interrupt_wait, port_read,
  sector_size, sector_cmd, ata_read, nr_prim_per_drive, nr_sub_per_part,
}
use canalotus.Disk.Command.{
  IsReady, IsCommand, lba_of, registers, commanded, hd_cmd_out-IsReady, sector_cmd_lem,
}
use canalotus.Disk.Partition.{part_ent, get_part_table, logical_loop, partition_extended, no_part}

-- What an ATA drive does: after a command to read the data port gives the sector that the registers
-- name.
abbrev pub Answers : Env → (disk : ℕ → ℕ → ℕ) → Type 0
Answers env disk =
    (c : HdCmd) (evs : List Event)
    → IsCommand c
    → c.command ≡ ata_read
    → env.data_port (interrupt_wait ∷ (registers c ++ evs)) ≡ disk (lba_of c)

-- The logical partitions of the chain of tables from the sector `s` on: `n` of them at most.
abbrev pub chain : (disk : ℕ → ℕ → ℕ) → (n ext_start_sect s : ℕ) → List PartInfo
chain disk zero ext s = []
chain disk (suc n) ext s =
    let table = part_ent (disk (s % 2 ^ 28)) in
    let rest = chain disk n ext ((ext + (table 1).start_sect) % 2 ^ 32) in
    record { base = (s + (table 0).start_sect) % 2 ^ 32; size = (table 0).nr_sects }
    ∷ (if (table 1).sys_id == no_part then [] else rest)

-- Entries from `first` on are set to the list's.
abbrev pub written : ℕ → List PartInfo → (ℕ → PartInfo) → ℕ → PartInfo
written first [] l = l
written first (p ∷ ps) l = written (first + 1) ps (update l first p)

-- What the driver keeps but for the ports and its buffer.
pub record Kept (w w' : World) (logical : ℕ → PartInfo) : Type 0 where
  pub hd_info : w'.hd_info ≡ record w.hd_info { logical = logical }
  pub bytes : w'.bytes ≡ w.bytes

-- The world after a table was read.
abbrev pub read_table : Env → (s : ℕ) → World → World
read_table env s w =
    let sent = commanded (sector_cmd 0 s 1 ata_read) w in
    let sector = env.data_port (interrupt_wait ∷ sent.events) in
    record sent {
      events = port_read ∷ interrupt_wait ∷ sent.events;
      hd_buf = λ i. if ltb i sector_size then sector i else w.hd_buf i;
    }

pub get_part_table_lem :
    (env : Env) (s : ℕ) (w : World)
    → IsReady env
    → get_part_table env s w ≡ done (part_ent (read_table env s w).hd_buf) (read_table env s w)
unfolding get_part_table
get_part_table_lem env s w r =
    let sent = hd_cmd_out-IsReady env (sector_cmd 0 s 1 ata_read) w r in
    rw (◌>>=◌, ◌>>◌, sent, r.interrupts (commanded (sector_cmd 0 s 1 ata_read) w).events) refl

pub answered :
    (env : Env) (disk : ℕ → ℕ → ℕ) (s : ℕ) (w : World)
    → Answers env disk
    → env.data_port (interrupt_wait ∷ (registers (sector_cmd 0 s 1 ata_read) ++ w.events))
      ≡ disk (s % 2 ^ 28)
unfolding sector_cmd
answered env disk s w a =
    let (names, is, count) = sector_cmd_lem s 1 ata_read in
    a (sector_cmd 0 s 1 ata_read) w.events is refl ∙ ap disk names

table_lem :
    (env : Env) (disk : ℕ → ℕ → ℕ) (s : ℕ) (w : World)
    → Answers env disk
    → (part_ent (read_table env s w).hd_buf 0 ≡ part_ent (disk (s % 2 ^ 28)) 0)
      × (part_ent (read_table env s w).hd_buf 1 ≡ part_ent (disk (s % 2 ^ 28)) 1)
unfolding part_ent
table_lem env disk s w a =
    let e = answered env disk s w a in (ap (λ b. part_ent b 0) e, ap (λ b. part_ent b 1) e)

-- The world after a table on the disk was read and its partition entered.
abbrev entered : Env → (disk : ℕ → ℕ → ℕ) → (s i : ℕ) → World → World
entered env disk s i w =
    let t = part_ent (disk (s % 2 ^ 28)) in
    record (read_table env s w) {
      hd_info = record w.hd_info {
        logical =
            update w.hd_info.logical i
              (record { base = (s + (t 0).start_sect) % 2 ^ 32; size = (t 0).nr_sects });
      };
    }

logical_loop_lem :
    (env : Env) (disk : ℕ → ℕ → ℕ) (left i first ext s j : ℕ) (w : World)
    → j ≡ first + i
    → IsReady env
    → Answers env disk
    → (w' : World) × (logical_loop env left i first ext s w ≡ done tt w')
      × Kept w w' (written j (chain disk left ext s) w.hd_info.logical)
unfolding logical_loop
logical_loop_lem env disk zero i first ext s j w e r a =
    (w, refl, record { hd_info = refl; bytes = refl })
logical_loop_lem env disk (suc left) i first ext s j w e r a =
    let got = get_part_table_lem env s w r in
    let (zeroth, one) = table_lem env disk s w a in
    let t = part_ent (disk (s % 2 ^ 28)) in
    let next = (ext + (t 1).start_sect) % 2 ^ 32 in
    let w1 = entered env disk s j w in
    let round : logical_loop env (suc left) i first ext s w
        ≡ (if (t 1).sys_id == no_part
              then pure tt
              else logical_loop env left (i + 1) first ext next)
            w1 =
      rw (◌>>=◌, ◌>>◌, got, zeroth, one, ← e) refl in
    elim (Bool-cases ((t 1).sys_id == no_part)) [
      | inl f ↦ (w1, round ∙ (rw f refl), rw f (record { hd_info = refl; bytes = refl }))
      | inr f ↦
          let (w', run, kept) =
            logical_loop_lem env disk left (i + 1) first ext next (j + 1) w1 (omega arith) r a in
          (w', round ∙ (rw f run), rw f (record { hd_info = kept.hd_info; bytes = kept.bytes }))
    ]

chain-length : (disk : ℕ → ℕ → ℕ) (n ext s : ℕ) → length (chain disk n ext s) ≤ n
chain-length disk zero ext s = omega arith
chain-length disk (suc n) ext s =
    let t = part_ent (disk (s % 2 ^ 28)) in
    let rest = chain-length disk n ext ((ext + (t 1).start_sect) % 2 ^ 32) in
    elim (Bool-cases ((t 1).sys_id == no_part)) [
      | inl e ↦ rw e (omega arith)
      | inr e ↦ rw e (omega (arith, rest))
    ]

written_outside :
    (first : ℕ) (ps : List PartInfo) (l : ℕ → PartInfo) (i : ℕ)
    → (i < first) ⊎ (first + length ps ≤ i)
    → written first ps l i ≡ l i
written_outside first [] l i o = refl
written_outside first (p ∷ ps) l i o =
    let other : (i == first) ≡ false = ground arith in
    written_outside (first + 1) ps (update l first p) i (omega arith) ∙ (rw other refl)

-- On a ready drive, reading the extended partition in place `j` of the first table comes back: the
-- entries from 16 (`j` - 1) on hold the partitions of its chain of tables on the disk, 16 of them at
-- most, and no other entry, primary partition or byte of memory changes.
pub partition_extended_lem :
    (env : Env) (disk : ℕ → ℕ → ℕ) (j : ℕ) (w : World)
    → IsReady env
    → Answers env disk
    → 0 < j
    → j < nr_prim_per_drive
    → let base = (w.hd_info.primary j).base in
      let parts = chain disk nr_sub_per_part base base in
      (w' : World) × (partition_extended env j w ≡ done tt w')
      × Kept w w' (written ((j - 1) * nr_sub_per_part) parts w.hd_info.logical)
      × ((i : ℕ)
          → (i < (j - 1) * nr_sub_per_part) ⊎ (j * nr_sub_per_part ≤ i)
          → w'.hd_info.logical i ≡ w.hd_info.logical i)
unfolding partition_extended
partition_extended_lem env disk j w r a some_ h =
    let base = (w.hd_info.primary j).base in
    let first = (j - 1) * nr_sub_per_part in
    let low : leb j 9 ≡ true = ground arith in
    let drive : j / 5 ≡ 0 = omega arith in
    let same : j % 5 ≡ j = omega arith in
    let not_whole : (j % 5 == 0) ≡ false = ground arith in
    let size = chain-length disk nr_sub_per_part base base in
    let (w', run, kept) =
      logical_loop_lem env disk nr_sub_per_part 0 first base base first w (omega arith) r a in
    let start : partition_extended env j w ≡ logical_loop env nr_sub_per_part 0 first base base w =
      subst
        (λ m.
          partition_extended env j w
          ≡ logical_loop env nr_sub_per_part 0 ((m - 1) * nr_sub_per_part)
              (w.hd_info.primary m).base (w.hd_info.primary m).base w)
        same (rw (low, drive, ◌>>=◌, ◌>>◌, not_whole) refl) in
    (
      w',
      start ∙ run,
      kept,
      λ i o.
          ap (λ d. d.logical i) kept.hd_info
          ∙ written_outside first (chain disk nr_sub_per_part base base) w.hd_info.logical i
              (omega arith),
    )
