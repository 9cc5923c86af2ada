-- ===== src/Startup/Cycles.antt =====
-- Runs of the program, one after the other: what the next start finds after a restart or a crash
-- (fsw/pc-linux/src/cfe_psp_start.c, cfe_psp_support.c, cfe_psp_memory.c).

use fs_nasa_cfs_psp.Base.{
  ℕ, ◌+◌, ◌^◌, ◌≤◌, ◌<◌, ◌≡◌, refl, ap, subst, ◌∙◌, ◌⊎◌, inl, inr, false, some, List, [], ◌∷◌, ◌++◌,
  length, take, drop,
}
use fs_nasa_cfs_psp.Status.{success}
use fs_nasa_cfs_psp.MemRange.{MemTable}
use fs_nasa_cfs_psp.ExceptionStorage.{Osal}
use fs_nasa_cfs_psp.ReservedMemory.{
  Config, SharedMemory, ReservedMemoryMap, rst_type_processor, rst_type_poweron, write_to_cds,
  read_from_cds,
}
use fs_nasa_cfs_psp.ReservedMemory.Cds.{read_from_cds-write_to_cds}
use fs_nasa_cfs_psp.Startup.{CommandData, startup, restart, leave}
use fs_nasa_cfs_psp.Startup.Resets.{IsSized, Contents, startup_cases}
use fs_nasa_cfs_psp.Startup.Acts.{Act, Acts, write_cds, done, act, Acts-IsMapped}
use fs_nasa_cfs_psp.Startup.Next.{leave-IsSized, restart-IsSized, crash_alternates, restart_next}

-- One run: the segments that it starts with, the reset type it is told, and the segments that it
-- leaves.
pub data Run (c : Config) (o : Osal) (shm : SharedMemory) (t : ℕ) (shm' : SharedMemory)
    : Type 0 where
  crash :
      (d : CommandData) (table : List MemTable) (m : ReservedMemoryMap)
      → d.got_reset_type ≡ false
      → t ≡ (startup c o d shm table).0
      → Acts (startup c o d shm table).1 m
      → shm' ≡ leave m
      → Run c o shm t shm'
  restarted :
      (d : CommandData) (table : List MemTable) (m : ReservedMemoryMap) (r : ℕ)
      → t ≡ (startup c o d shm table).0
      → Acts (startup c o d shm table).1 m
      → shm' ≡ leave (restart r m)
      → Run c o shm t shm'

-- Segments of the configured sizes stay so over a run, whatever its command line says and however it
-- ends.
pub Run-IsSized :
    (c : Config) (o : Osal) (shm : SharedMemory) (t : ℕ) (shm' : SharedMemory)
    → Run c o shm t shm'
    → IsSized c shm
    → IsSized c shm'
Run-IsSized c o shm t shm' (crash d table m no_option told acts left) h = rw left (
    leave-IsSized c m
      (Acts-IsMapped c (startup c o d shm table).1 m acts (startup_cases c o d shm table h).0).0)
Run-IsSized c o shm t shm' (restarted d table m r told acts left) h = rw left (
    restart-IsSized c m r
      (Acts-IsMapped c (startup c o d shm table).1 m acts (startup_cases c o d shm table h).0).0)

-- Runs one after the other that all crash, without a reset option, and the reset types they are told.
pub data Crashes (c : Config) (o : Osal) : SharedMemory → List ℕ → Type 0 where
  up_to_now : {shm : SharedMemory} → Crashes c o shm []
  crashed :
      {shm : SharedMemory} {t : ℕ} {ts : List ℕ} (d : CommandData) (table : List MemTable)
      (m : ReservedMemoryMap)
      → d.got_reset_type ≡ false
      → t ≡ (startup c o d shm table).0
      → Acts (startup c o d shm table).1 m
      → Crashes c o (leave m) ts
      → Crashes c o shm (t ∷ ts)

-- Power-on and processor resets by turns.
abbrev pub Alternates : List ℕ → Type 0
Alternates [] = Unit
Alternates (t ∷ []) = (t ≡ rst_type_poweron) ⊎ (t ≡ rst_type_processor)
Alternates (t ∷ t' ∷ ts) =
    (((t ≡ rst_type_poweron) × (t' ≡ rst_type_processor))
      ⊎ ((t ≡ rst_type_processor) × (t' ≡ rst_type_poweron)))
    × Alternates (t' ∷ ts)

-- Whatever segments of the configured sizes hold at first, runs that crash one after the other,
-- none with a reset option, are told power-on and processor resets by turns.
pub Crashes-Alternates :
    (c : Config) (o : Osal) (shm : SharedMemory) (ts : List ℕ)
    → IsSized c shm
    → Crashes c o shm ts
    → Alternates ts
Crashes-Alternates c o shm [] h runs = tt
Crashes-Alternates c o shm (t ∷ []) h (crashed d table m no_option told acts rest) =
    elim (startup_cases c o d shm table h).1 [
      | inl (asked, t', same, boot) ↦ inr (told ∙ t')
      | inr (asked, t', cleared, boot) ↦ inl (told ∙ t')
    ]
Crashes-Alternates c o shm (t ∷ t' ∷ ts) h
      (crashed d table m no_option told acts (crashed d' table' m' no_option' told' acts' rest)) =
    let good =
      (Acts-IsMapped c (startup c o d shm table).1 m acts (startup_cases c o d shm table h).0).0 in
    (
      elim (crash_alternates c o d d' shm table table' m h acts no_option') [
        | inl (first, second, same) ↦ inl (told ∙ first, told' ∙ second)
        | inr (first, second, cleared) ↦ inr (told ∙ first, told' ∙ second)
      ],
      Crashes-Alternates c o (leave m) (t' ∷ ts) (leave-IsSized c m good)
          (crashed d' table' m' no_option' told' acts' rest),
    )

Acts-Act : {m m' m2 : ReservedMemoryMap} → Acts m m' → Act m' m2 → Acts m m2
Acts-Act {m2 = m2} (done e) a = act m2 (subst (λ x. Act x m2) e a) (done refl)
Acts-Act (act mid b rest) a = act mid b (Acts-Act rest a)

-- With segments of the configured sizes at the first start: what a run has written to the CDS with
-- success, offset and count not wrapping, the next run reads back after a requested processor
-- reset, if its command line has no reset option and its buffer has room.
pub cds_survives :
    (c : Config) (o : Osal) (d d' : CommandData) (shm : SharedMemory) (table table' : List MemTable)
    (m : ReservedMemoryMap) (source buffer b : List ℕ) (offset n : ℕ)
    → IsSized c shm
    → Acts (startup c o d shm table).1 m
    → offset + n < 2 ^ 32
    → n ≤ length source
    → n ≤ length buffer
    → write_to_cds (length m.cds_memory.block) m.cds_memory.block (some source) offset n
      ≡ some (success, b)
    → d'.got_reset_type ≡ false
    → let written = record m { cds_memory = record m.cds_memory { block = b } } in
      let again =
        (startup c o d' (leave (restart rst_type_processor written)) table').1.cds_memory.block in
      read_from_cds (length again) again (some buffer) offset n
      ≡ some (success, some (take n source ++ drop n buffer))
cds_survives c o d d' shm table table' m source buffer b offset n h acts small hs hb e no_option =
    let written = record m { cds_memory = record m.cds_memory { block = b } } in
    let history = Acts-Act acts (write_cds source offset n small hs success b e refl) in
    let same : (startup c o d' (leave (restart rst_type_processor written))
          table').1.cds_memory.block
        ≡ b =
      elim (restart_next c o d d' shm table table' written rst_type_processor h history no_option) [
        | inl (right, t', kept) ↦ ap (λ (x : Contents). x.cds) kept
        | inr (wrong, t', cleared) ↦ absurd (wrong refl)
      ] in
    rw same (read_from_cds-write_to_cds m.cds_memory.block source buffer b offset n small hs hb e)
