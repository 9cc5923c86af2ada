-- ===== src/ReservedMemory/Cds.antt =====
-- The critical data store of fsw/pc-linux/src/cfe_psp_memory.c: reads, writes and their bounds.
use fs_nasa_cfs_psp.Base.{
  ℕ, ◌+◌, ◌-◌, ◌^◌, ◌≤◌, ◌<◌, ◌≡◌, refl, sym, ap, ◌∙◌, ◌⊎◌, inl, inr, true, false, ◌&&◌, none, some,
  List, ◌++◌, arith, ltb, leb, Bool-cases, length, get_elem?, take, drop, length-append,
  length-take, length-drop, drop-append, take-append, get_elem?-append_left, get_elem?-append_right,
  get_elem?-take, get_elem?-drop, add32,
}
use fs_nasa_cfs_psp.Status.{success, error}
use fs_nasa_cfs_psp.ReservedMemory.{write_to_cds, read_from_cds}

-- The block after `n` bytes of `source` have been copied to `offset`.
abbrev pub spliced : List ℕ → ℕ → List ℕ → ℕ → List ℕ
spliced block offset source n = take offset block ++ (take n source ++ drop (offset + n) block)

length-spliced :
    (block source : List ℕ) (offset n : ℕ)
    → offset + n ≤ length block
    → n ≤ length source
    → length (spliced block offset source n) ≡ length block
length-spliced block source offset n h hs = omega (
  arith,
  length-append (take offset block) (take n source ++ drop (offset + n) block),
  length-append (take n source) (drop (offset + n) block),
  length-take offset block,
  length-take n source,
  length-drop (offset + n) block,
)

-- An in-bounds copy, read back.
spliced_middle :
    (block source : List ℕ) (offset n : ℕ)
    → offset + n ≤ length block
    → n ≤ length source
    → take n (drop offset (spliced block offset source n)) ≡ take n source
spliced_middle block source offset n h hs =
    let before : length (take offset block) ≡ offset = omega (arith, length-take offset block) in
    let here : length (take n source) ≡ n = omega (arith, length-take n source) in
    rw (drop-append offset (take offset block) (take n source ++ drop (offset + n) block) before)
      (take-append n (take n source) (drop (offset + n) block) here)

-- Bytes outside.
spliced_before :
    (block source : List ℕ) (offset n x : ℕ)
    → offset ≤ length block
    → x < offset
    → get_elem? (spliced block offset source n) x ≡ get_elem? block x
spliced_before block source offset n x h lt =
    let before : x < length (take offset block) = omega (arith, length-take offset block) in
    get_elem?-append_left (take offset block) (take n source ++ drop (offset + n) block) x before
    ∙ get_elem?-take offset block x lt

spliced_after :
    (block source : List ℕ) (offset n x : ℕ)
    → offset + n ≤ length block
    → n ≤ length source
    → offset + n ≤ x
    → get_elem? (spliced block offset source n) x ≡ get_elem? block x
spliced_after block source offset n x h hs le =
    let rest = drop (offset + n) block in
    let k = x - (offset + n) in
    let before : length (take offset block) ≡ offset = omega (arith, length-take offset block) in
    let here : length (take n source) ≡ n = omega (arith, length-take n source) in
    let at : length (take offset block) + (length (take n source) + k) ≡ x = omega arith in
    let back : offset + n + k ≡ x = omega arith in
    sym (ap (get_elem? (spliced block offset source n)) at)
    ∙ get_elem?-append_right (take offset block) (take n source ++ rest)
        (length (take n source) + k)
    ∙ get_elem?-append_right (take n source) rest k
    ∙ get_elem?-drop (offset + n) block k
    ∙ ap (get_elem? block) back

abbrev pub InBounds : ℕ → ℕ → ℕ → Type 0
InBounds size offset n = (offset < size) × (offset + n ≤ size)

-- Whether byte `x` is one of the `n` from `offset`.
abbrev pub Outside : ℕ → ℕ → ℕ → Type 0
Outside offset n x = (x < offset) ⊎ (offset + n ≤ x)

spliced-Outside :
    (block source : List ℕ) (offset n x : ℕ)
    → offset + n ≤ length block
    → n ≤ length source
    → Outside offset n x
    → get_elem? (spliced block offset source n) x ≡ get_elem? block x
spliced-Outside block source offset n x h hs (inl lt) =
    spliced_before block source offset n x (omega arith) lt
spliced-Outside block source offset n x h hs (inr le) =
    spliced_after block source offset n x h hs le

-- A write to the CDS, where offset and count do not wrap and the caller's data has that many bytes:
-- within the store it succeeds, puts the data there, keeps the length of the store and every byte
-- outside; else it reports an error and changes nothing. It never leaves the store.
pub write_to_cds-Writes :
    (block source : List ℕ) (offset n : ℕ)
    → offset + n < 2 ^ 32
    → n ≤ length source
    → let result = write_to_cds (length block) block (some source) offset n in
      ((InBounds (length block) offset n)
        × ((b : List ℕ) × (result ≡ some (success, b))
            × (length b ≡ length block)
            × (take n (drop offset b) ≡ take n source)
            × ((x : ℕ) → Outside offset n x → get_elem? b x ≡ get_elem? block x)))
      ⊎ ((¬ InBounds (length block) offset n) × (result ≡ some (error, block)))
unfolding write_to_cds
write_to_cds-Writes block source offset n small hs =
    elim (Bool-cases (ltb offset (length block) && leb (add32 offset n) (length block))) [
      | inl taken ↦
          let within : InBounds (length block) offset n = ground arith in
          let fits : (leb (0 + n) (length source) && leb (offset + n) (length block)) ≡ true =
            ground arith in
          rw (taken, fits)
            (inl (
              within,
              (
                spliced block offset source n,
                refl,
                length-spliced block source offset n within.1 hs,
                spliced_middle block source offset n within.1 hs,
                λ x out. spliced-Outside block source offset n x within.1 hs out,
              ),
            ))
      | inr refused ↦
          let beyond : ¬ InBounds (length block) offset n = λ within. ground arith in
          rw refused (inr (beyond, refl))
    ]

-- A read from the CDS, where offset and count do not wrap and the caller's buffer has room: within
-- the store it succeeds and puts the bytes at the start of the buffer, keeping the rest of it; else
-- it reports an error and leaves the buffer. It never leaves the store.
pub read_from_cds-Reads :
    (block buffer : List ℕ) (offset n : ℕ)
    → offset + n < 2 ^ 32
    → n ≤ length buffer
    → let result = read_from_cds (length block) block (some buffer) offset n in
      ((InBounds (length block) offset n)
        × (result ≡ some (success, some (take n (drop offset block) ++ drop n buffer))))
      ⊎ ((¬ InBounds (length block) offset n) × (result ≡ some (error, some buffer)))
unfolding read_from_cds
read_from_cds-Reads block buffer offset n small hs =
    elim (Bool-cases (ltb offset (length block) && leb (add32 offset n) (length block))) [
      | inl taken ↦
          let within : InBounds (length block) offset n = ground arith in
          let fits : (leb (offset + n) (length block) && leb (0 + n) (length buffer)) ≡ true =
            ground arith in
          let same : 0 + n ≡ n = omega arith in rw (taken, fits, same) (inl (within, refl))
      | inr refused ↦
          let beyond : ¬ InBounds (length block) offset n = λ within. ground arith in
          rw refused (inr (beyond, refl))
    ]

-- The offset and the count are added as `uint32`. Where the sum wraps to one within the store, both
-- functions take the request and copy beyond the end of the store.
pub cds_wraps :
    (block source : List ℕ) (offset n : ℕ)
    → offset < length block
    → length block < offset + n
    → add32 offset n ≤ length block
    → (write_to_cds (length block) block (some source) offset n ≡ none)
      × (read_from_cds (length block) block (some source) offset n ≡ none)
unfolding write_to_cds read_from_cds
cds_wraps block source offset n lt past le =
    let accepted : (ltb offset (length block) && leb (add32 offset n) (length block)) ≡ true =
      ground arith in
    let write_fails : (leb (0 + n) (length source) && leb (offset + n) (length block)) ≡ false =
      ground arith in
    let read_fails : (leb (offset + n) (length block) && leb (0 + n) (length source)) ≡ false =
      ground arith in
    rw (accepted, write_fails, read_fails) (refl, refl)

-- A read of the bytes that a successful write has put into the CDS, where nothing wraps and the
-- caller's data and buffer have that many bytes, succeeds and returns them.
pub read_from_cds-write_to_cds :
    (block source buffer b : List ℕ) (offset n : ℕ)
    → offset + n < 2 ^ 32
    → n ≤ length source
    → n ≤ length buffer
    → write_to_cds (length block) block (some source) offset n ≡ some (success, b)
    → read_from_cds (length b) b (some buffer) offset n
      ≡ some (success, some (take n source ++ drop n buffer))
read_from_cds-write_to_cds block source buffer b offset n small hs hb e =
    elim (write_to_cds-Writes block source offset n small hs) [
      | inl (within, (b', e', same, middle, outside)) ↦
          let eq : b ≡ b' = cc in
          let long : length b ≡ length block = ap (λ b. length b) eq ∙ same in
          let there : take n (drop offset b) ≡ take n source = rw eq middle in
          elim (read_from_cds-Reads b buffer offset n small hb) [
            | inl (within', r) ↦ r ∙ rw there refl
            | inr (beyond, r) ↦
                absurd (beyond (omega (arith, within.0, long), omega (arith, within.1, long)))
          ]
      | inr (beyond, e') ↦ absurd cc
    ]
