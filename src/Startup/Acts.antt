-- ===== src/Startup/Acts.antt =====
-- What a running program does to the reserved memory of fsw/pc-linux/src/cfe_psp_memory.c.

use fs_nasa_cfs_psp.Base.{ℕ, ◌+◌, ◌^◌, ◌≤◌, ◌<◌, ◌≡◌, refl, ap, ◌∙◌, inl, inr, some, List, length}
use fs_nasa_cfs_psp.Status.{Status}
use fs_nasa_cfs_psp.ExceptionStorage.{Storage}
use fs_nasa_cfs_psp.ReservedMemory.{Config, ReservedMemoryMap, write_to_cds}
use fs_nasa_cfs_psp.ReservedMemory.Cds.{write_to_cds-Writes}
use fs_nasa_cfs_psp.Startup.Resets.{IsMapped, boot_of}

-- What the running program does to the reserved memory: CDS writes, and writes through the pointers
-- to the other areas, which keep their sizes.
pub data Act (m m' : ReservedMemoryMap) : Type 0 where
  write_cds :
      (source : List ℕ) (offset n : ℕ)
      → offset + n < 2 ^ 32
      → n ≤ length source
      → (s : Status) (b : List ℕ)
      → write_to_cds (length m.cds_memory.block) m.cds_memory.block (some source) offset n
        ≡ some (s, b)
      → m' ≡ record m { cds_memory = record m.cds_memory { block = b } }
      → Act m m'
  put_reset :
      (b : List ℕ)
      → length b ≡ length m.reset_area.block.reset_memory
      → m' ≡ record m {
        reset_area = record m.reset_area { block = record m.reset_area.block { reset_memory = b } };
      }
      → Act m m'
  put_user :
      (b : List ℕ)
      → length b ≡ length m.user_reserved_memory.block
      → m' ≡ record m { user_reserved_memory = record m.user_reserved_memory { block = b } }
      → Act m m'
  log_exceptions :
      (s : Storage)
      → m' ≡ record m {
        reset_area = record m.reset_area { block = record m.reset_area.block { exceptions = s } };
      }
      → Act m m'

pub data Acts : ReservedMemoryMap → ReservedMemoryMap → Type 0 where
  done : {m m' : ReservedMemoryMap} → m' ≡ m → Acts m m'
  act : {m m' : ReservedMemoryMap} (mid : ReservedMemoryMap) → Act m mid → Acts mid m' → Acts m m'

length-write_to_cds :
    (block source : List ℕ) (offset n : ℕ) (s : Status) (b : List ℕ)
    → offset + n < 2 ^ 32
    → n ≤ length source
    → write_to_cds (length block) block (some source) offset n ≡ some (s, b)
    → length b ≡ length block
length-write_to_cds block source offset n s b small hs e =
    elim (write_to_cds-Writes block source offset n small hs) [
      | inl (within, (b', e', same, rest, outside)) ↦
          let eq : b ≡ b' = cc in ap (λ b. length b) eq ∙ same
      | inr (beyond, e') ↦ let eq : b ≡ block = cc in ap (λ b. length b) eq
    ]

Act-IsMapped :
    (c : Config) (m m' : ReservedMemoryMap)
    → Act m m'
    → IsMapped c m
    → IsMapped c m' × (boot_of m' ≡ boot_of m)
Act-IsMapped c m m' (write_cds source offset n small hs s b e eq) h =
    let same = length-write_to_cds m.cds_memory.block source offset n s b small hs e in
    rw eq (
      record {
        cds_length = same ∙ h.cds_length;
        reset_length = h.reset_length;
        user_length = h.user_length;
        cds_linked = h.cds_linked;
        reset_linked = h.reset_linked;
        user_linked = h.user_linked;
      },
      refl,
    )
Act-IsMapped c m m' (put_reset b e eq) h = rw eq (
  record {
    cds_length = h.cds_length;
    reset_length = e ∙ h.reset_length;
    user_length = h.user_length;
    cds_linked = h.cds_linked;
    reset_linked = h.reset_linked;
    user_linked = h.user_linked;
  },
  refl,
)
Act-IsMapped c m m' (put_user b e eq) h = rw eq (
  record {
    cds_length = h.cds_length;
    reset_length = h.reset_length;
    user_length = e ∙ h.user_length;
    cds_linked = h.cds_linked;
    reset_linked = h.reset_linked;
    user_linked = h.user_linked;
  },
  refl,
)
Act-IsMapped c m m' (log_exceptions s eq) h = rw eq (
  record {
    cds_length = h.cds_length;
    reset_length = h.reset_length;
    user_length = h.user_length;
    cds_linked = h.cds_linked;
    reset_linked = h.reset_linked;
    user_linked = h.user_linked;
  },
  refl,
)

pub Acts-IsMapped :
    (c : Config) (m m' : ReservedMemoryMap)
    → Acts m m'
    → IsMapped c m
    → IsMapped c m' × (boot_of m' ≡ boot_of m)
Acts-IsMapped c m m' (done e) h = rw e (h, refl)
Acts-IsMapped c m m' (act mid a rest) h =
    let (h1, e1) = Act-IsMapped c m mid a h in
    let (h2, e2) = Acts-IsMapped c mid m' rest h1 in (h2, e2 ∙ e1)
