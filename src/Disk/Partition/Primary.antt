-- ===== src/Disk/Partition/Primary.antt =====
-- The first table of the disk, as `partition` (src/kernel/hd.c) enters it.
use canalotus.Common.{
  ℕ, zero, suc, ◌+◌, ◌-◌, ◌*◌, ◌≤◌, ◌<◌, ◌≡◌, refl, ◌∙◌, ap, ◌≢◌, inl, inr, false, not, ◌==◌,
  if◌then◌else◌, Bool-cases, ==_refl, update, arith,
}
use canalotus.Disk.{
  pure, HdInfo, World, Env, Done, done, failed, ◌>>=◌, ◌>>◌, nr_sub_per_part, nr_part_per_drive,
}
use canalotus.State.{assert_failed}
use canalotus.Disk.Command.{IsReady}
use canalotus.Disk.Partition.{
  PartEnt, part_ent, get_part_table, partition_extended, primary_loop, partition_primary, no_part,
  ext_part,
}
use canalotus.Disk.Partition.Extended.{
  Answers, chain, written, partition_extended_lem, get_part_table_lem, read_table, answered,
}

-- One entry of the table: a primary partition, and the chain of an extended one.
abbrev pub enter : (disk : ℕ → ℕ → ℕ) → PartEnt → (i : ℕ) → HdInfo → HdInfo
enter disk e i info =
    if e.sys_id == no_part
    then info
    else (let with_entry : HdInfo = record info {
      primary = update info.primary (i + 1) (record { base = e.start_sect; size = e.nr_sects });
    } in
        if e.sys_id == ext_part
        then record with_entry {
          logical =
              written (i * nr_sub_per_part) (chain disk nr_sub_per_part e.start_sect e.start_sect)
                info.logical;
        }
        else with_entry)

abbrev pub enter_all : (disk : ℕ → ℕ → ℕ) → (ℕ → PartEnt) → (left i : ℕ) → HdInfo → HdInfo
enter_all disk t zero i info = info
enter_all disk t (suc left) i info = enter_all disk t left (i + 1) (enter disk (t i) i info)

-- how many of the entries are partitions
abbrev pub partitions : (ℕ → PartEnt) → (left i : ℕ) → ℕ
partitions t zero i = 0
partitions t (suc left) i =
    let rest = partitions t left (i + 1) in if (t i).sys_id == no_part then rest else rest + 1

record Entered (w w' : World) (info : HdInfo) : Type 0 where
  hd_info : w'.hd_info ≡ info
  bytes : w'.bytes ≡ w.bytes

-- The branch on an extended partition.
extended :
    (env : Env) (disk : ℕ → ℕ → ℕ) (e : PartEnt) (i : ℕ) (w : World)
    → IsReady env
    → Answers env disk
    → i < nr_part_per_drive
    → (e.sys_id == no_part) ≡ false
    → let w1 : World = record w {
      hd_info = record w.hd_info {
        primary =
            update w.hd_info.primary (i + 1) (record { base = e.start_sect; size = e.nr_sects });
      };
    } in
      (w' : World) × ((if e.sys_id == ext_part
            then partition_extended env (0 + (i + 1))
            else pure tt)
          w1
        ≡ done tt w')
      × Entered w w' (enter disk e i w.hd_info)
extended env disk e i w r a h some_ =
    let w1 : World = record w {
      hd_info = record w.hd_info {
        primary =
            update w.hd_info.primary (i + 1) (record { base = e.start_sect; size = e.nr_sects });
      };
    } in
    elim (Bool-cases (e.sys_id == ext_part)) [
      | inr f ↦ (w1, rw f refl, rw (some_, f) (record { hd_info = refl; bytes = refl }))
      | inl f ↦
          let (w', run, kept, others) =
            partition_extended_lem env disk (0 + (i + 1)) w1 r a (omega arith) (omega arith) in
          let place : 0 + (i + 1) ≡ i + 1 = omega arith in
          let back : i + 1 - 1 ≡ i = omega arith in
          (
            w',
            rw f run,
            rw (some_, f)
                (record {
                  hd_info = kept.hd_info ∙ (rw (place, ==_refl (i + 1), back) refl);
                  bytes = kept.bytes;
                }),
          )
    ]

primary_loop_lem :
    (env : Env) (disk : ℕ → ℕ → ℕ) (t : ℕ → PartEnt) (left i n : ℕ) (w : World)
    → IsReady env
    → Answers env disk
    → i + left ≤ nr_part_per_drive
    → (w' : World) × (primary_loop env 0 t left i n w ≡ done (n + partitions t left i) w')
      × Entered w w' (enter_all disk t left i w.hd_info)
unfolding primary_loop
primary_loop_lem env disk t zero i n w r a h =
    (w, ap (λ m. done m w) (omega arith), record { hd_info = refl; bytes = refl })
primary_loop_lem env disk t (suc left) i n w r a h = elim (Bool-cases ((t i).sys_id == no_part)) [
  | inl e ↦
      let (w', run, entered) = primary_loop_lem env disk t left (i + 1) n w r a (omega arith) in
      (w', rw e run, rw e entered)
  | inr e ↦
      let (w1, one, first) = extended env disk (t i) i w r a (omega arith) e in
      let (w', run, entered) =
        primary_loop_lem env disk t left (i + 1) (n + 1) w1 r a (omega arith) in
      let round : primary_loop env 0 t (suc left) i n w
          ≡ primary_loop env 0 t left (i + 1) (n + 1) w1 =
        rw (e, ◌>>◌, ◌>>=◌, one) refl in
      (
        w',
        round ∙ run ∙ ap (λ m. done m w') (rw e (omega arith)),
        record {
          hd_info = entered.hd_info ∙ ap (enter_all disk t left (i + 1)) first.hd_info;
          bytes = entered.bytes ∙ first.bytes;
        },
      )
]

abbrev checked : ℕ → World → Done (Unit {0})
checked n w = if not (n == 0) then done tt w else failed assert_failed

checked_some : (n : ℕ) (w : World) → n ≢ 0 → checked (0 + n) w ≡ done tt w
checked_some n w nz = let some_ : (0 + n == 0) ≡ false = ground arith in rw some_ refl

partition_primary_steps :
    (env : Env) (w : World)
    → partition_primary env 0 w ≡ elim (get_part_table env 0 w) [
      | done t w1 ↦ elim (primary_loop env 0 t nr_part_per_drive 0 0 w1) [
        | done n w' ↦ checked n w'
        | failed why ↦ failed why
      ]
      | failed why ↦ failed why
    ]
unfolding partition_primary
partition_primary_steps env w = refl

-- The table that was read is the disk's.
first_table :
    (env : Env) (disk : ℕ → ℕ → ℕ) (w : World)
    → Answers env disk
    → let t' = part_ent (read_table env 0 w).hd_buf in
      let t = part_ent (disk 0) in
      (partitions t' 4 0 ≡ partitions t 4 0)
      × ((info : HdInfo) → enter_all disk t' 4 0 info ≡ enter_all disk t 4 0 info)
unfolding part_ent
first_table env disk w a =
    let e = answered env disk 0 w a in
    (
      ap (λ b. partitions (part_ent b) 4 0) e,
      λ info. ap (λ b. enter_all disk (part_ent b) 4 0 info) e,
    )

-- On a ready drive that answers by the disk, `partition` of the drive comes back with exactly what
-- the disk's first table says: each primary partition in its place, the chain of each extended one
-- in the sixteen places of its own, and the rest as it was. An empty table fails the assertion.
pub partition_primary_lem :
    (env : Env) (disk : ℕ → ℕ → ℕ) (w : World)
    → IsReady env
    → Answers env disk
    → let t = part_ent (disk 0) in
      ((partitions t 4 0 ≡ 0) → partition_primary env 0 w ≡ failed assert_failed)
      × ((partitions t 4 0 ≢ 0)
          → (w' : World) × (partition_primary env 0 w ≡ done tt w')
            × (w'.hd_info ≡ enter_all disk t 4 0 w.hd_info)
            × (w'.bytes ≡ w.bytes))
partition_primary_lem env disk w r a =
    let t = part_ent (disk 0) in
    let t' = part_ent (read_table env 0 w).hd_buf in
    let got = get_part_table_lem env 0 w r in
    let (count, enters) = first_table env disk w a in
    let (w', run, entered) =
      primary_loop_lem env disk t' 4 0 0 (read_table env 0 w) r a (omega arith) in
    let ends : partition_primary env 0 w ≡ checked (0 + partitions t 4 0) w' =
      partition_primary_steps env w ∙ (rw (got, run, count) refl) in
    (
      λ z. ends ∙ (rw z refl),
      λ nz. (
        w',
        ends ∙ checked_some (partitions t 4 0) w' nz,
        entered.hd_info ∙ enters w.hd_info,
        entered.bytes,
      ),
    )
