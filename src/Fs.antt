-- ===== src/Fs.antt =====
-- The file system process (src/fs/main.c, src/include/sys/fs.h): the requests that it sends to the
-- disk driver to lay out a disk. What the buffer holds goes with each request.
pub mod Layout
use canalotus.Common.{
  ℕ, zero, suc, ◌+◌, ◌-◌, ◌*◌, ◌/◌, ◌^◌, Bool, true, false, Option, none, some, List, [], ◌∷◌, ◌++◌,
  ◌==◌, if◌then◌else◌, update, ℤ, pos, negsuc, eq_ℤ, bit_and, bit_or,
}

-- `struct Filesystem`; of `file_table_cluster` the entry that is set.
pub record Filesystem : Type 0 where
  pub version : ℕ
  pub nr_sectors : ℕ
  pub nr_clusters : ℕ
  pub nr_cluster_map : ℕ
  pub nr_file_desc : ℕ
  pub file_table_cluster : ℕ
  pub start_cluster : ℕ
  pub dev : ℕ

-- What `fsbuf` holds: zeros, a copy of the file system's data, or of a map with a byte for each
-- cluster, of which 4096 fit.
pub data Content : Type 0 where
  zeros : Content
  filesystem : Filesystem → Content
  cluster_map : (ℕ → Bool) → Content

-- The fields of a message that the code sets; `none` is a field that it leaves as it was.
pub record Fields : Type 0 where
  pub msg_type : ℤ
  pub m3i2 : Option ℤ
  pub m3i3 : Option ℤ
  pub m3i4 : Option ℤ
  pub m3l1 : Option ℕ
  pub m3p2 : Option ℕ

-- A message to a driver, with what the buffer holds then.
pub record Request : Type 0 where
  pub driver : ℤ
  pub message : Fields
  pub fsbuf : Content

-- -20
abbrev pub invalid_driver : ℤ
invalid_driver = negsuc 19

-- `dd_map`; an index outside it is none.
abbrev pub dd_map : ℕ → Option ℤ
dd_map zero = some invalid_driver
dd_map (suc zero) = some invalid_driver
dd_map (suc (suc zero)) = some invalid_driver
dd_map (suc (suc (suc zero))) = some (pos 2)
dd_map (suc (suc (suc (suc zero)))) = some (pos 0)
dd_map (suc (suc (suc (suc (suc zero))))) = some invalid_driver
dd_map (suc (suc (suc (suc (suc (suc n)))))) = none

abbrev pub major : ℕ → ℕ
major x = bit_and (x / 2 ^ 8) 0xFF

abbrev pub minor : ℕ → ℕ
minor x = bit_and x 0xFF

-- MAKE_DEV
abbrev pub make_dev : (a b : ℕ) → ℕ
make_dev a b = bit_or (a * 2 ^ 8) b

-- The driver of a device, where the assertion holds.
abbrev pub driver_of : (dev : ℕ) → Option ℤ
driver_of dev = elim (dd_map (major dev)) [
  | some d ↦ if eq_ℤ d invalid_driver then none else some d
  | none ↦ none
]

unfoldable pub rw_sector :
    (io_type : ℤ) (dev pos : ℕ) (bytes proc_nr : ℤ) (buf : ℕ) → Content → Option Request
rw_sector io_type dev position bytes proc_nr buf content = elim (driver_of dev) [
  | some d ↦ some (record {
    driver = d;
    message = record {
      msg_type = io_type;
      m3i2 = some bytes;
      m3i3 = some proc_nr;
      m3i4 = some (pos (minor dev));
      m3l1 = some position;
      m3p2 = some buf;
    };
    fsbuf = content;
  })
  | none ↦ none
]

abbrev pub cluster_size : ℕ
cluster_size = 512 * 8

abbrev pub fsbuf_at : ℕ
fsbuf_at = 0x600000

-- MINOR_BOOT, the first logical partition of the second primary one
abbrev pub minor_boot : ℕ
minor_boot = 0x10 + 16

abbrev pub root_dev : ℕ
root_dev = make_dev 3 minor_boot

-- WRITE_SECT(ROOT_DEV, …)
abbrev pub write_sect : (cluster : ℕ) → Content → Option Request
write_sect cluster content =
    rw_sector (pos 5) root_dev (cluster * cluster_size) (pos cluster_size) (pos 3) fsbuf_at content

-- The request for the partition's size; `geo` is where the answer goes.
abbrev pub ask_geo : (geo : ℕ) → Option Request
ask_geo geo = elim (driver_of root_dev) [
  | some d ↦ some (record {
    driver = d;
    message = record {
      msg_type = pos 6;
      m3i2 = some (pos 1);
      m3i3 = some (pos 3);
      m3i4 = some (pos (minor root_dev));
      m3l1 = none;
      m3p2 = some geo;
    };
    fsbuf = zeros;
  })
  | none ↦ none
]

-- What `mkfs` fills in for a partition of `size` sectors.
abbrev pub new_filesystem : (size : ℕ) → Filesystem
new_filesystem size =
    let maps = size / 8 / 8 / 512 / 8 in
    record {
      version = 1;
      nr_sectors = size;
      nr_clusters = size / 8;
      nr_cluster_map = maps;
      nr_file_desc = 1;
      file_table_cluster = 1 + 1 + maps;
      start_cluster = 1 + 1 + maps + 1;
      dev = 0;
    }

-- The loop that clears clusters, from `i` on.
unfoldable pub clear_maps : (left i : ℕ) → Option (List Request)
unfolding rw_sector
clear_maps zero i = some []
clear_maps (suc left) i =
    let rest = clear_maps left (i + 1) in
    elim (write_sect i zeros) [
      | some r ↦ elim rest [ some rs ↦ some (r ∷ rs) | none ↦ none ]
      | none ↦ none
    ]

-- The loop that marks clusters as taken.
unfoldable pub take_clusters : (left i : ℕ) → (ℕ → Bool) → ℕ → Bool
take_clusters zero i cluster = cluster
take_clusters (suc left) i cluster = take_clusters left (i + 1) (update cluster i true)

-- `mkfs`, with the driver's answer, the partition's size in sectors.
unfoldable pub mkfs : (geo size : ℕ) → Option (List Request)
unfolding clear_maps take_clusters
mkfs geo size =
    let fs = new_filesystem size in
    let first = ask_geo geo in
    let second = write_sect 1 (filesystem fs) in
    let cleared = clear_maps (fs.nr_cluster_map - 2) 2 in
    let map =
      write_sect 2 (cluster_map (take_clusters (1 + 1 + fs.nr_cluster_map + 1) 0 (λ _. false))) in
    let last = write_sect fs.file_table_cluster zeros in in_order first second cleared map last
  where
    in_order :
        Option Request
        → Option Request
        → Option (List Request)
        → Option Request
        → Option Request
        → Option (List Request)
    in_order (some a) (some b) (some cs) (some d) (some e) = some (a ∷ b ∷ (cs ++ d ∷ e ∷ []))
    in_order _ _ _ _ _ = none

-- `init_fs`: the device is opened first.
unfoldable pub init_fs : (geo size : ℕ) → Option (List Request)
unfolding mkfs
init_fs geo size =
    let made = mkfs geo size in
    elim (driver_of root_dev) [
      | some d ↦ elim made [
        | some rs ↦ some (
            record {
              driver = d;
              message = record {
                msg_type = pos 2;
                m3i2 = none;
                m3i3 = none;
                m3i4 = some (pos (minor root_dev));
                m3l1 = none;
                m3p2 = none;
              };
              fsbuf = zeros;
            }
            ∷ rs)
        | none ↦ none
      ]
      | none ↦ none
    ]
