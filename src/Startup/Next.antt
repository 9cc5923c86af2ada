-- ===== src/Startup/Next.antt =====
-- What the next start finds after a restart or a crash (fsw/pc-linux/src/cfe_psp_start.c,
-- cfe_psp_support.c, cfe_psp_memory.c).
use native.Mathlib.Decide.{ℕ_discrete}
use mathlib.Core.Option.{some-injective, none-ne-some}
use fs_nasa_cfs_psp.Base.{
  ℕ, ◌≡◌, refl, sym, ap, ◌∙◌, ◌≢◌, ◌⊎◌, inl, inr, true, false, none, some, List, arith, ◌==◌,
  length,
}
use fs_nasa_cfs_psp.MemRange.{MemTable}
use fs_nasa_cfs_psp.ExceptionStorage.{Osal}
use fs_nasa_cfs_psp.ReservedMemory.{
  Config, ResetSegment, SharedMemory, Attached, ReservedMemoryMap, detach, attach,
  rst_type_processor, rst_type_poweron, bootrecord_valid, bootrecord_invalid, zero_boot,
  setup_reserved_memory_map, init_cds, init_reset_area, init_user_reserved_area,
  delete_processor_reserved_memory, delete_cds, delete_reset_area, delete_user_reserved_area,
}
use fs_nasa_cfs_psp.Startup.{CommandData, requested_reset, startup, restart, leave}
use fs_nasa_cfs_psp.Startup.Resets.{
  IsSized, IsMapped, contents, zeros, boot_of, mapped, startup_cases,
}
use fs_nasa_cfs_psp.Startup.Acts.{Acts, Acts-IsMapped}

pub leave-IsSized : (c : Config) (m : ReservedMemoryMap) → IsMapped c m → IsSized c (leave m)
leave-IsSized c m h = record {
  cds_sized = λ b e.
      let eq : m.cds_memory.block ≡ b = kept m.cds_memory b h.cds_linked e in
      sym (ap (λ b. length b) eq) ∙ h.cds_length;
  reset_sized = λ s e.
      let eq : m.reset_area.block ≡ s = kept m.reset_area s h.reset_linked e in
      sym (ap (λ (s : ResetSegment). length s.reset_memory) eq) ∙ h.reset_length;
  user_sized = λ b e.
      let eq : m.user_reserved_memory.block ≡ b = kept m.user_reserved_memory b h.user_linked e in
      sym (ap (λ b. length b) eq) ∙ h.user_length;
}
  where
    kept : {A : Type 0} (s : Attached A) (b : A) → s.linked ≡ true → detach s ≡ some b → s.block ≡ b
    kept s b l e =
        let whole : detach s ≡ some s.block = rw l refl in some-injective s.block b (sym whole ∙ e)

-- The segments of a program that has ended, attached again.
attach-detach :
    {A : Type 0} (fresh : A) (s : Attached A)
    → s.linked ≡ true
    → (attach fresh (detach s)).block ≡ s.block
attach-detach fresh s l = rw l refl

mapped-leave :
    (c : Config) (o : Osal) (m : ReservedMemoryMap) (table : List MemTable)
    → IsMapped c m
    → (contents (mapped c o (leave m) table) ≡ contents m)
      × (boot_of (mapped c o (leave m) table) ≡ boot_of m)
unfolding setup_reserved_memory_map init_cds init_reset_area init_user_reserved_area
mapped-leave c o m table h = rw (h.cds_linked, h.reset_linked, h.user_linked) (refl, refl)

requested_reset_boot :
    (d : CommandData) (flag r : ℕ)
    → d.got_reset_type ≡ false
    → (flag ≡ bootrecord_valid) ⊎ (flag ≡ bootrecord_invalid)
    → requested_reset d (record { validity_flag = flag; next_reset_type = r }) ≡ r
unfolding requested_reset
requested_reset_boot d flag r no_option (inl e) = rw (no_option, e) refl
requested_reset_boot d flag r no_option (inr e) = rw (no_option, e) refl

-- The start after a program has left this memory map, without a reset option.
next_start :
    (c : Config) (o : Osal) (d : CommandData) (m : ReservedMemoryMap) (table : List MemTable)
    (flag r : ℕ)
    → IsMapped c m
    → boot_of m ≡ record { validity_flag = flag; next_reset_type = r }
    → (flag ≡ bootrecord_valid) ⊎ (flag ≡ bootrecord_invalid)
    → d.got_reset_type ≡ false
    → let (t', m') = startup c o d (leave m) table in
      ((r ≡ rst_type_processor) × (t' ≡ rst_type_processor) × (contents m' ≡ contents m))
      ⊎ ((r ≢ rst_type_processor) × (t' ≡ rst_type_poweron) × (contents m' ≡ zeros c o))
next_start c o d m table flag r h boot marked no_option =
    let (contents_again, boot_again) = mapped-leave c o m table h in
    let asks : requested_reset d (boot_of (mapped c o (leave m) table)) ≡ r =
      ap (requested_reset d) (boot_again ∙ boot) ∙ requested_reset_boot d flag r no_option marked in
    elim (startup_cases c o d (leave m) table (leave-IsSized c m h)).1 [
      | inl (asked, t', same, boot') ↦ inl (sym asks ∙ asked, t', same ∙ contents_again)
      | inr (asked, t', cleared, boot') ↦ inr (λ e. asked (asks ∙ e), t', cleared)
    ]

-- With segments of the configured sizes at the first start, after a run that does not end by
-- CFE_PSP_Restart, and a next start without a reset option: after a power-on start the next is a
-- processor reset, which keeps all that the run left in the reserved memory; after a processor
-- reset the next is a power-on start, which sets it to zero.
pub crash_alternates :
    (c : Config) (o : Osal) (d d' : CommandData) (shm : SharedMemory) (table table' : List MemTable)
    (m : ReservedMemoryMap)
    → IsSized c shm
    → Acts (startup c o d shm table).1 m
    → d'.got_reset_type ≡ false
    → let t = (startup c o d shm table).0 in
      let (t', m') = startup c o d' (leave m) table' in
      ((t ≡ rst_type_poweron) × (t' ≡ rst_type_processor) × (contents m' ≡ contents m))
      ⊎ ((t ≡ rst_type_processor) × (t' ≡ rst_type_poweron) × (contents m' ≡ zeros c o))
crash_alternates c o d d' shm table table' m h acts no_option =
    let (is, first) = startup_cases c o d shm table h in
    let (is', same_boot) = Acts-IsMapped c (startup c o d shm table).1 m acts is in
    elim first [
      | inl (asked, t, same, boot) ↦
          elim (next_start c o d' m table' _ _ is' (same_boot ∙ boot) (inr refl) no_option) [
            | inl (wrong, t', same) ↦ absurd (omega (arith, wrong))
            | inr (right, t', cleared) ↦ inr (t, t', cleared)
          ]
      | inr (asked, t, cleared, boot) ↦
          elim (next_start c o d' m table' _ _ is' (same_boot ∙ boot) (inr refl) no_option) [
            | inl (right, t', same) ↦ inl (t, t', same)
            | inr (wrong, t', cleared') ↦ absurd (wrong refl)
          ]
    ]

restart_kept :
    (c : Config) (m : ReservedMemoryMap) (r : ℕ)
    → IsMapped c m
    → r ≢ rst_type_poweron
    → IsMapped c (restart r m)
      × (contents (restart r m) ≡ contents m)
      × (boot_of (restart r m) ≡ record { validity_flag = bootrecord_valid; next_reset_type = r })
unfolding restart
restart_kept c m r h ne =
    let test : (r == rst_type_poweron) ≡ false = ground arith in
    rw test (
      record {
        cds_length = h.cds_length;
        reset_length = h.reset_length;
        user_length = h.user_length;
        cds_linked = h.cds_linked;
        reset_linked = h.reset_linked;
        user_linked = h.user_linked;
      },
      refl,
      refl,
    )

no_memory : SharedMemory
no_memory = record { cds_segment = none; reset_segment = none; user_segment = none }

leave-restart :
    (m : ReservedMemoryMap) (r : ℕ) → r ≡ rst_type_poweron → leave (restart r m) ≡ no_memory
unfolding restart delete_processor_reserved_memory delete_cds delete_reset_area
    delete_user_reserved_area no_memory
leave-restart m r e = let test : (r == rst_type_poweron) ≡ true = ground arith in rw test refl

no_memory-IsSized : (c : Config) → IsSized c no_memory
unfolding no_memory
no_memory-IsSized c = record {
  cds_sized = λ b e. absurd (none-ne-some b e);
  reset_sized = λ s e. absurd (none-ne-some s e);
  user_sized = λ b e. absurd (none-ne-some b e);
}

-- A start with new segments.
fresh_start :
    (c : Config) (o : Osal) (d : CommandData) (table : List MemTable)
    → (contents (startup c o d no_memory table).1 ≡ zeros c o)
      × (d.got_reset_type ≡ false → (startup c o d no_memory table).0 ≡ rst_type_poweron)
unfolding no_memory setup_reserved_memory_map init_cds init_reset_area init_user_reserved_area
    requested_reset
fresh_start c o d table = elim (startup_cases c o d no_memory table (no_memory-IsSized c)).1 [
  | inl (asked, t, same, boot) ↦ (
    same,
    λ no_option.
        let zero_asked : requested_reset d zero_boot ≡ 0 = rw no_option refl in
        absurd (omega (arith, asked, zero_asked)),
  )
  | inr (asked, t, cleared, boot) ↦ (cleared, λ no_option. t)
]

-- With segments of the configured sizes at the first start, after CFE_PSP_Restart and a next start
-- without a reset option: a requested processor reset is what the next run is told, and it finds
-- the reserved memory as it was at the restart; for every other type the next run is told a power-
-- on reset and finds it zero.
pub restart_next :
    (c : Config) (o : Osal) (d d' : CommandData) (shm : SharedMemory) (table table' : List MemTable)
    (m : ReservedMemoryMap) (r : ℕ)
    → IsSized c shm
    → Acts (startup c o d shm table).1 m
    → d'.got_reset_type ≡ false
    → let (t', m') = startup c o d' (leave (restart r m)) table' in
      ((r ≡ rst_type_processor) × (t' ≡ rst_type_processor) × (contents m' ≡ contents m))
      ⊎ ((r ≢ rst_type_processor) × (t' ≡ rst_type_poweron) × (contents m' ≡ zeros c o))
restart_next c o d d' shm table table' m r h acts no_option =
    let (is', same_boot) =
      Acts-IsMapped c (startup c o d shm table).1 m acts (startup_cases c o d shm table h).0 in
    elim (ℕ_discrete r rst_type_poweron) [
      | yes e ↦
          let fresh = fresh_start c o d' table' in
          let other : r ≢ rst_type_processor = omega arith in
          rw (leave-restart m r e) (inr (other, fresh.1 no_option, fresh.0))
      | no ne ↦
          let (good, same, boot) = restart_kept c m r is' ne in
          elim (next_start c o d' (restart r m) table' _ _ good boot (inl refl) no_option) [
            | inl (right, t', again) ↦ inl (right, t', again ∙ same)
            | inr (wrong, t', cleared) ↦ inr (wrong, t', cleared)
          ]
    ]

-- A power-on restart clears the reserved memory whatever the next command line says.
pub poweron_restart_clears :
    (c : Config) (o : Osal) (d : CommandData) (table : List MemTable) (m : ReservedMemoryMap)
    → contents (startup c o d (leave (restart rst_type_poweron m)) table).1 ≡ zeros c o
poweron_restart_clears c o d table m =
    rw (leave-restart m rst_type_poweron refl) (fresh_start c o d table).0

pub restart-IsSized :
    (c : Config) (m : ReservedMemoryMap) (r : ℕ) → IsMapped c m → IsSized c (leave (restart r m))
restart-IsSized c m r h = elim (ℕ_discrete r rst_type_poweron) [
  | yes e ↦ rw (leave-restart m r e) (no_memory-IsSized c)
  | no ne ↦ leave-IsSized c (restart r m) (restart_kept c m r h ne).0
]
