-- ===== src/Fs/Layout.antt =====
-- What the requests of `mkfs` (src/fs/main.c) leave in each cluster of the disk, by a driver that
-- writes what it is told to.
use canalotus.Common.{
  ℕ, zero, suc, ◌+◌, ◌-◌, ◌*◌, ◌/◌, ◌≡◌, refl, ◌∙◌, ap, inl, inr, Bool, true, false, ◌&&◌, ◌==◌,
  ltb, leb, if◌then◌else◌, Option-cases, eq_cases, ==_of_ne, update, pos, eq_ℤ, Option, none, some,
  List, [], ◌∷◌, ◌++◌, arith,
}
use mathlib.Core.Path.{fun_ext}
use canalotus.Fs.{
  Content, zeros, filesystem, cluster_map, Request, rw_sector, cluster_size, fsbuf_at, write_sect,
  new_filesystem, clear_maps, take_clusters, mkfs,
}

abbrev is_at : Option ℕ → ℕ → Bool
is_at (some p) q = p == q
is_at none q = false

abbrev pub writes_to : Request → ℕ → Bool
writes_to r c = eq_ℤ r.message.msg_type (pos 5) && is_at r.message.m3l1 (c * cluster_size)

-- The content of the last request to write a cluster.
abbrev pub stored : List Request → ℕ → Option Content
stored [] c = none
stored (r ∷ rs) c =
    let later = stored rs c in
    elim later [ some x ↦ some x | none ↦ if writes_to r c then some r.fsbuf else none ]

abbrev or_else : Option Content → Option Content → Option Content
or_else (some x) o = some x
or_else none o = o

stored-append :
    (xs ys : List Request) (c : ℕ) → stored (xs ++ ys) c ≡ or_else (stored ys c) (stored xs c)
stored-append [] ys c = elim (Option-cases (stored ys c)) [
  | inl e ↦ rw e refl
  | inr (x, e) ↦ rw e refl
]
stored-append (r ∷ xs) ys c =
    let rest = stored-append xs ys c in
    elim (Option-cases (stored ys c)) [ inl e ↦ rw (rest, e) refl | inr (x, e) ↦ rw (rest, e) refl ]

-- The request that WRITE_SECT makes.
abbrev write : (cluster : ℕ) → Content → Request
write cluster content = record {
  driver = pos 2;
  message = record {
    msg_type = pos 5;
    m3i2 = some (pos cluster_size);
    m3i3 = some (pos 3);
    m3i4 = some (pos 0x20);
    m3l1 = some (cluster * cluster_size);
    m3p2 = some fsbuf_at;
  };
  fsbuf = content;
}

write_sect-write :
    (cluster : ℕ) (content : Content) → write_sect cluster content ≡ some (write cluster content)
unfolding rw_sector
write_sect-write cluster content = refl

same_cluster : (a c : ℕ) → (a * cluster_size == c * cluster_size) ≡ (a == c)
same_cluster a c = ground arith

stored-write :
    (a : ℕ) (x : Content) (rs : List Request) (c : ℕ)
    → stored (write a x ∷ rs) c ≡ or_else (stored rs c) (if a == c then some x else none)
stored-write a x rs c = elim (Option-cases (stored rs c)) [
  | inl e ↦ rw e (ap (λ b. if b then some x else none) (same_cluster a c))
  | inr (y, e) ↦ rw e refl
]

abbrev clears : (left i : ℕ) → List Request
clears zero i = []
clears (suc left) i = write i zeros ∷ clears left (i + 1)

clear_maps-clears : (left i : ℕ) → clear_maps left i ≡ some (clears left i)
unfolding clear_maps rw_sector
clear_maps-clears zero i = refl
clear_maps-clears (suc left) i = rw (clear_maps-clears left (i + 1)) refl

keep : (b : Bool) → or_else (if b then some zeros else none) none ≡ (if b then some zeros else none)
keep true = refl
keep false = refl

stored-clears :
    (left i c : ℕ)
    → stored (clears left i) c ≡ (if leb i c && ltb c (i + left) then some zeros else none)
stored-clears zero i c =
    let outside : (leb i c && ltb c (i + 0)) ≡ false = ground arith in rw outside refl
stored-clears (suc left) i c =
    let later = stored-clears left (i + 1) c in
    elim (eq_cases i c) [
      | inl e ↦
          let past : (leb (i + 1) c && ltb c (i + 1 + left)) ≡ false = ground arith in
          let here : (leb i c && ltb c (i + suc left)) ≡ true = ground arith in
          let this : (i == c) ≡ true = ground arith in
          stored-write i zeros (clears left (i + 1)) c ∙ (rw (later, past, here, this) refl)
      | inr n ↦
          let other : (i == c) ≡ false = ==_of_ne i c n in
          let as_before : (leb i c && ltb c (i + suc left))
              ≡ (leb (i + 1) c && ltb c (i + 1 + left)) =
            ground arith in
          stored-write i zeros (clears left (i + 1)) c ∙ (rw (later, as_before, other) (keep _))
    ]

-- What `mkfs` is to leave in cluster `c` of a partition of `size` sectors: the table of files behind
-- the maps, the first map, with the clusters up to the table's taken, the file system's data, and
-- zeros in the maps that it clears.
abbrev pub laid_out : (size c : ℕ) → Option Content
laid_out size c =
    let fs = new_filesystem size in
    if c == fs.file_table_cluster
    then some zeros
    else (if c == 2
        then some (cluster_map (λ i. ltb i (3 + fs.nr_cluster_map)))
        else (if c == 1
            then some (filesystem fs)
            else (if ltb 2 c && ltb c fs.nr_cluster_map then some zeros else none)))

take_clusters-at :
    (left i : ℕ) (m : ℕ → Bool) (j : ℕ)
    → take_clusters left i m j ≡ (if leb i j && ltb j (i + left) then true else m j)
unfolding take_clusters
take_clusters-at zero i m j =
    let outside : (leb i j && ltb j (i + 0)) ≡ false = ground arith in rw outside refl
take_clusters-at (suc left) i m j = take_clusters-at left (i + 1) (update m i true) j ∙ ground arith

taken : (n m : ℕ) → n ≡ m → take_clusters n 0 (λ _. false) ≡ (λ j. ltb j m)
taken n m e = fun_ext (λ j. take_clusters-at n 0 (λ _. false) j ∙ ground (arith, e))

-- The question for the size of the partition with the minor number 0x20, for process 3, to the
-- driver, process 2; the answer goes to `geo`.
abbrev pub geo_request : (geo : ℕ) → Request
geo_request geo = record {
  driver = pos 2;
  message = record {
    msg_type = pos 6;
    m3i2 = some (pos 1);
    m3i3 = some (pos 3);
    m3i4 = some (pos 0x20);
    m3l1 = none;
    m3p2 = some geo;
  };
  fsbuf = zeros;
}

abbrev requests : (geo size : ℕ) → List Request
requests geo size =
    let fs = new_filesystem size in
    geo_request geo
    ∷ write 1 (filesystem fs)
    ∷ (clears (fs.nr_cluster_map - 2) 2
        ++ write 2 (cluster_map (λ i. ltb i (3 + fs.nr_cluster_map)))
          ∷ write fs.file_table_cluster zeros
          ∷ [])

mkfs-requests : (geo size : ℕ) → mkfs geo size ≡ some (requests geo size)
unfolding mkfs rw_sector
mkfs-requests geo size =
    let maps = size / 8 / 8 / 512 / 8 in
    let marked = taken (1 + 1 + maps + 1) (3 + maps) (omega arith) in
    rw (clear_maps-clears (maps - 2) 2, marked) refl

choice :
    (b : Bool) (o : Option Content)
    → or_else (or_else none (if b then some zeros else none)) o ≡ (if b then some zeros else o)
choice true o = refl
choice false o = refl

-- The last two requests.
ends :
    (n : ℕ) (m : Content) (c : ℕ)
    → stored (write 2 m ∷ write (1 + 1 + n) zeros ∷ []) c
      ≡ (if c == 1 + 1 + n then some zeros else (if c == 2 then some m else none))
ends n m c =
    let second = stored-write (1 + 1 + n) zeros [] c in
    let last : (1 + 1 + n == c) ≡ (c == 1 + 1 + n) = ground arith in
    let turned : (2 == c) ≡ (c == 2) = ground arith in
    stored-write 2 m (write (1 + 1 + n) zeros ∷ []) c
    ∙ (rw (second, last, turned) (choice (c == 1 + 1 + n) (if c == 2 then some m else none)))

-- The two orders in which the tests can be made.
meets :
    (t two one' one old new : Bool) (m f : Content)
    → one' ≡ one
    → (two ≡ false → old ≡ new)
    → (one ≡ true → new ≡ false)
    → or_else
        (or_else
          (if t then some zeros else (if two then some m else none))
          (if old then some zeros else none))
        (if one' then some f else none)
      ≡ (if t
          then some zeros
          else (if two
              then some m
              else (if one then some f else (if new then some zeros else none))))
meets true two one' one old new m f same h g = refl
meets false true one' one old new m f same h g = refl
meets false false one' true old new m f same h g = rw (same, h refl, g refl) refl
meets false false one' false old true m f same h g = rw (same, h refl) refl
meets false false one' false old false m f same h g = rw (same, h refl) refl

-- A request to process 2 to write one cluster to the partition with the minor number 0x20 from the
-- buffer of process 3.
pub record IsWrite (r : Request) : Type 0 where
  pub driver : r.driver ≡ pos 2
  pub type_ : r.message.msg_type ≡ pos 5
  pub device : r.message.m3i4 ≡ some (pos 0x20)
  pub count : r.message.m3i2 ≡ some (pos 4096)
  pub process : r.message.m3i3 ≡ some (pos 3)
  pub buffer : r.message.m3p2 ≡ some 0x600000

abbrev pub AreWrites : List Request → Type 0
AreWrites [] = Unit
AreWrites (r ∷ rs) = IsWrite r × AreWrites rs

write-IsWrite : (cluster : ℕ) (content : Content) → IsWrite (write cluster content)
write-IsWrite cluster content = record {
  driver = refl;
  type_ = refl;
  device = refl;
  count = refl;
  process = refl;
  buffer = refl;
}

clears-AreWrites : (left i : ℕ) (rs : List Request) → AreWrites rs → AreWrites (clears left i ++ rs)
clears-AreWrites zero i rs h = h
clears-AreWrites (suc left) i rs h = (write-IsWrite i zeros, clears-AreWrites left (i + 1) rs h)

-- For a partition of any size, `mkfs` first asks the driver for the size of the root device, and all
-- its other requests are to write one cluster of that device from the file system's buffer. With what
-- the buffer holds at each, a driver that carries them out in order leaves in every cluster what
-- `laid_out` says and writes no other cluster.
pub mkfs_lem :
    (geo size c : ℕ)
    → (rs : List Request) × (mkfs geo size ≡ some (geo_request geo ∷ rs))
      × AreWrites rs
      × (stored rs c ≡ laid_out size c)
mkfs_lem geo size c =
    let maps = size / 8 / 8 / 512 / 8 in
    let fs = new_filesystem size in
    let map : Content = cluster_map (λ i. ltb i (3 + maps)) in
    let cleared = clears (maps - 2) 2 in
    let last = write 2 map ∷ write (1 + 1 + maps) zeros ∷ [] in
    let of_first = stored-write 1 (filesystem fs) (cleared ++ last) c in
    let of_rest = stored-append cleared last c in
    let a = ends maps map c in
    let b = stored-clears (maps - 2) 2 c in
    (
      write 1 (filesystem fs) ∷ (cleared ++ last),
      mkfs-requests geo size,
      (
        write-IsWrite 1 (filesystem fs),
        clears-AreWrites (maps - 2) 2 last
            (write-IsWrite 2 map, (write-IsWrite (1 + 1 + maps) zeros, tt)),
      ),
      of_first
          ∙ (rw (of_rest, a, b)
              (meets (c == 1 + 1 + maps) (c == 2) (1 == c) (c == 1)
                (leb 2 c && ltb c (2 + (maps - 2))) (ltb 2 c && ltb c maps) map (filesystem fs)
                (ground arith) (λ n. ground arith) (λ o. ground arith))),
    )
