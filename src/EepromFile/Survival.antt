-- ===== src/EepromFile/Survival.antt =====
-- What is written to the mapped EEPROM (fsw/modules/eeprom_mmap_file) is there at the next start.
use fs_nasa_cfs_psp.Base.{
  ℕ, ◌+◌, ◌-◌, ◌*◌, ◌%◌, ◌^◌, ◌≤◌, ◌<◌, ◌≡◌, refl, sym, ap, ◌∙◌, ◌⊎◌, inl, inr, Bool, true, false,
  ◌&&◌, Option, none, some, List, [], ◌∷◌, arith, if◌then◌else◌, Bool-cases, length, get_or,
  get_or-set_self, get_or-set_ne, set, replicate, length-set, length-replicate, u64_mod,
}
use fs_nasa_cfs_psp.Status.{success}
use fs_nasa_cfs_psp.MemRange.{MemTable, mem_eeprom, mem_ranges, mem_validate_range}
use fs_nasa_cfs_psp.DirectMemory.{byte, load32}
use fs_nasa_cfs_psp.EepromFile.{
  Answers, System, or_empty, open_eeprom, install, setup_eeprom, eeprom_size, page_size,
  eeprom_init, store_bytes, store_mapped, bytes32, eeprom_file_write32, mapped,
}
use fs_nasa_cfs_psp.EepromFile.Starts.{
  is_some, setup_eeprom-cases, install-keeps, eeprom_init-eq, eeprom_init-valid,
}

set_here : (f : List ℕ) (i j v : ℕ) → i ≡ j → i < length f → get_or (set f i v) j 0 ≡ v
set_here f i j v e h = ap (λ (x : ℕ). get_or (set f i v) x 0) (sym e) ∙ get_or-set_self f i v 0 h

-- Four bytes stored one after the other.
stored :
    (f : List ℕ) (i a b c d : ℕ)
    → i + 4 ≤ length f
    → let f' = store_bytes f i (a ∷ b ∷ c ∷ d ∷ []) in
      (length f' ≡ length f)
      × (get_or f' i 0 ≡ a)
      × (get_or f' (i + 1) 0 ≡ b)
      × (get_or f' (i + 2) 0 ≡ c)
      × (get_or f' (i + 3) 0 ≡ d)
unfolding store_bytes
stored f i a b c d h =
    let f1 = set f i a in
    let f2 = set f1 (i + 1) b in
    let f3 = set f2 (i + 1 + 1) c in
    let past3 : (j : ℕ) → j < i + 3 → get_or (set f3 (i + 1 + 1 + 1) d) j 0 ≡ get_or f3 j 0 =
      λ j lt. get_or-set_ne f3 (i + 1 + 1 + 1) j d 0 (λ e. omega (arith, e)) in
    let n1 : length f1 ≡ length f = length-set f i a in
    let n2 : length f2 ≡ length f = length-set f1 (i + 1) b ∙ n1 in
    let n3 : length f3 ≡ length f = length-set f2 (i + 1 + 1) c ∙ n2 in
    (
      length-set f3 (i + 1 + 1 + 1) d ∙ n3,
      past3 i (omega arith)
          ∙ get_or-set_ne f2 (i + 1 + 1) i c 0 (λ e. omega (arith, e))
          ∙ get_or-set_ne f1 (i + 1) i b 0 (λ e. omega (arith, e))
          ∙ get_or-set_self f i a 0 (omega arith),
      past3 (i + 1) (omega arith)
          ∙ get_or-set_ne f2 (i + 1 + 1) (i + 1) c 0 (λ e. omega (arith, e))
          ∙ get_or-set_self f1 (i + 1) b 0 (omega (arith, n1)),
      past3 (i + 2) (omega arith)
          ∙ set_here f2 (i + 1 + 1) (i + 2) c (omega arith) (omega (arith, n2)),
      set_here f3 (i + 1 + 1 + 1) (i + 3) d (omega arith) (omega (arith, n3)),
    )

joined :
    (v : ℕ) → v < 2 ^ 32 → byte v 0 + 256 * byte v 1 + 65536 * byte v 2 + 16777216 * byte v 3 ≡ v
joined v small = omega arith

mapped-at : (base k j : ℕ) (f : List ℕ) → mapped base f (base + k + j) ≡ get_or f (k + j) 0
mapped-at base k j f = ap (λ (i : ℕ). get_or f i 0) (omega arith)

mapped_offset : (base k : ℕ) → base + k - base ≡ k
mapped_offset base k = omega arith

-- What four bytes of the file are as a number.
load32-mapped :
    (little : Bool) (f : List ℕ) (base k v : ℕ)
    → v < 2 ^ 32
    → (get_or f k 0 ≡ byte v (if little then 0 else 3))
    → (get_or f (k + 1) 0 ≡ byte v (if little then 1 else 2))
    → (get_or f (k + 2) 0 ≡ byte v (if little then 2 else 1))
    → (get_or f (k + 3) 0 ≡ byte v (if little then 3 else 0))
    → load32 little (mapped base f) (base + k) ≡ v
unfolding load32
load32-mapped true f base k v small e0 e1 e2 e3 = omega (
  arith,
  e0,
  e1,
  e2,
  e3,
  joined v small,
  ap (λ (i : ℕ). get_or f i 0) (mapped_offset base k),
  mapped-at base k 1 f,
  mapped-at base k 2 f,
  mapped-at base k 3 f,
)
load32-mapped false f base k v small e0 e1 e2 e3 = omega (
  arith,
  e0,
  e1,
  e2,
  e3,
  joined v small,
  ap (λ (i : ℕ). get_or f i 0) (mapped_offset base k),
  mapped-at base k 1 f,
  mapped-at base k 2 f,
  mapped-at base k 3 f,
)

-- A 32-bit write through one mapping, read through another one of the file.
load32-write32 :
    (little : Bool) (f : List ℕ) (base base' k v : ℕ)
    → length f ≡ eeprom_size
    → k + 4 ≤ eeprom_size
    → v < 2 ^ 32
    → (f' : List ℕ) × (eeprom_file_write32 little base f (base + k) v ≡ some (success, f'))
      × (length f' ≡ eeprom_size)
      × (load32 little (mapped base' f') (base' + k) ≡ v)
unfolding eeprom_file_write32 store_mapped load32
load32-write32 true f base base' k v size within small =
    let f' = store_bytes f k (bytes32 true v) in
    let (n, s0, s1, s2, s3) =
      stored f k (byte v 0) (byte v 1) (byte v 2) (byte v 3) (omega (arith, size)) in
    (
      f',
      rw (mapped_offset base k) (ground (arith, size)),
      n ∙ size,
      load32-mapped true f' base' k v small s0 s1 s2 s3,
    )
load32-write32 false f base base' k v size within small =
    let f' = store_bytes f k (bytes32 false v) in
    let (n, s0, s1, s2, s3) =
      stored f k (byte v 3) (byte v 2) (byte v 1) (byte v 0) (omega (arith, size)) in
    (
      f',
      rw (mapped_offset base k) (ground (arith, size)),
      n ∙ size,
      load32-mapped false f' base' k v small s0 s1 s2 s3,
    )

-- A start that succeeds on a file that exists.
found_start :
    (answers : Answers) (f : List ℕ) (open_files address : ℕ) (table : List MemTable)
    → answers.stat_finds ≡ true
    → answers.opens ≡ true
    → answers.mmap ≡ some address
    → let (result, s', table') =
        eeprom_init answers (record { file = some f; open_files = open_files }) table in
      (result ≡ some address) × (s'.file ≡ some f)
unfolding eeprom_init install setup_eeprom open_eeprom
found_start answers f open_files address table finds opens maps =
    rw (finds, opens, maps) (refl, rw (finds, opens) refl)

failed_start :
    (answers : Answers) (open_files : ℕ) (table : List MemTable)
    → answers.stat_finds ≡ false
    → answers.opens ≡ true
    → answers.seeks && answers.writes ≡ false
    → let (result, s', kept) =
        eeprom_init answers (record { file = none; open_files = open_files }) table in
      (result ≡ none) × (s' ≡ record { file = some []; open_files = open_files })
unfolding eeprom_init install setup_eeprom open_eeprom
failed_start answers n table fresh opens breaks = elim (Bool-cases answers.seeks) [
  | inr e ↦ rw (fresh, opens, e) (refl, refl)
  | inl e ↦
      let no_write : answers.writes ≡ false = ground arith in
      rw (fresh, opens, e, no_write) (refl, refl)
]

length-made :
    (size : ℕ) (file : Option (List ℕ))
    → (file ≡ none) ⊎ (length (or_empty file) ≡ size)
    → length (if is_some file then or_empty file else replicate size 0) ≡ size
length-made size none h = length-replicate size 0
length-made size (some f) (inl e) = absurd (ground (arith, e))
length-made size (some f) (inr e) = e

first_file :
    (answers : Answers) (s : System) (table : List MemTable) (base : ℕ)
    → answers.stat_finds ≡ is_some s.file
    → (s.file ≡ none) ⊎ (length (or_empty s.file) ≡ eeprom_size)
    → (eeprom_init answers s table).0 ≡ some base
    → length (or_empty (eeprom_init answers s table).1.file) ≡ eeprom_size
first_file answers s table base found full maps =
    let r = setup_eeprom answers eeprom_size s in
    let (same, state) = install-keeps r table in
    let (_, ends) = setup_eeprom-cases answers eeprom_size s (omega arith) (omega arith) found in
    let result : r.0 ≡ some base = sym same ∙ rw (eeprom_init-eq answers s table) at maps in
    rw (eeprom_init-eq answers s table, state)
      (elim ends [
        | inl (fails, _) ↦ absurd (ground (arith, result, fails))
        | inr (_, _, _, file) ↦ rw file (length-made eeprom_size s.file full)
      ])

-- A start that succeeds and that finds no file or one of the full size; then a 32-bit write at an
-- aligned offset in the range; then, on the file that this leaves, a start whose calls succeed, which
-- maps the file elsewhere. With both mappings at whole pages, the write and that start succeed, and
-- the value is read at the same offset.
pub eeprom_init-survives :
    (first second : Answers) (s : System) (table table' : List MemTable) (little : Bool)
    (base base' k v open_files : ℕ)
    → first.stat_finds ≡ is_some s.file
    → (s.file ≡ none) ⊎ (length (or_empty s.file) ≡ eeprom_size)
    → (eeprom_init first s table).0 ≡ some base
    → base % page_size ≡ 0
    → base' % page_size ≡ 0
    → k % 4 ≡ 0
    → k + 4 ≤ eeprom_size
    → v < 2 ^ 32
    → second.stat_finds ≡ true
    → second.opens ≡ true
    → second.mmap ≡ some base'
    → let f = or_empty (eeprom_init first s table).1.file in
      (f' : List ℕ) × (eeprom_file_write32 little base f (base + k) v ≡ some (success, f'))
      × (let again =
            eeprom_init second (record { file = some f'; open_files = open_files }) table' in
          (again.0 ≡ some base')
          × (load32 little (mapped base' (or_empty again.1.file)) (base' + k) ≡ v))
eeprom_init-survives first second s table table' little base base' k v n found full maps pages
      pages' aligned within small finds opens maps' =
    let whole = first_file first s table base found full maps in
    let (f', written, _, read) =
      load32-write32 little (or_empty (eeprom_init first s table).1.file) base base' k v whole
        within small in
    let (again, kept) = found_start second f' n base' table' finds opens maps' in
    (f', written, (again, rw kept read))

write_to_empty :
    (little : Bool) (base k v : ℕ) → eeprom_file_write32 little base [] (base + k) v ≡ none
unfolding eeprom_file_write32 store_mapped
write_to_empty true base k v = ground arith
write_to_empty false base k v = ground arith

-- A start that creates the file and fails in its `write` or its `lseek` leaves an empty file and no
-- more descriptors open than before. A start whose calls succeed on that file leaves it empty and
-- installs the whole range as valid EEPROM, and every 32-bit write in it faults.
pub eeprom_init-half_made :
    (first second : Answers) (table table' : List MemTable) (little : Bool)
    (base k v open_files : ℕ)
    → first.stat_finds ≡ false
    → first.opens ≡ true
    → first.seeks && first.writes ≡ false
    → second.stat_finds ≡ true
    → second.opens ≡ true
    → second.mmap ≡ some base
    → base + eeprom_size ≤ u64_mod
    → 1 < mem_ranges table'
    → k + 4 ≤ eeprom_size
    → let (result, s', kept) =
        eeprom_init first (record { file = none; open_files = open_files }) table in
      let (result', again, table'') = eeprom_init second s' table' in
      (result ≡ none)
      × (s' ≡ record { file = some []; open_files = open_files })
      × (result' ≡ some base)
      × (again.file ≡ some [])
      × (mem_validate_range table'' (base + k) 4 mem_eeprom ≡ success)
      × (eeprom_file_write32 little base (or_empty again.file) (base + k) v ≡ none)
eeprom_init-half_made first second table table' little base k v n fresh opens breaks finds opens'
      maps fits two within =
    let (fails, empty) = failed_start first n table fresh opens breaks in
    let (again, kept) = found_start second [] n base table' finds opens' maps in
    let valid =
      eeprom_init-valid second (record { file = some []; open_files = n }) table' base k 4 again
        fits two (omega arith) within in
    rw empty (fails, refl, again, kept, valid, rw kept (write_to_empty little base k v))
