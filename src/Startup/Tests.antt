-- ===== src/Startup/Tests.antt =====
-- Command lines, starts and restarts on a small configuration.
use mathlib.Core.Option.{none-ne-some}
use fs_nasa_cfs_psp.Base.{
  ℕ, ◌≡◌, refl, ◌≢◌, ◌⊎◌, none, some, List, [], ◌∷◌, ◌++◌, arith, length, take, drop,
}
use fs_nasa_cfs_psp.Status.{success}
use fs_nasa_cfs_psp.ExceptionStorage.{Osal}
use fs_nasa_cfs_psp.ReservedMemory.{
  Config, SharedMemory, ReservedMemoryMap, rst_type_processor, rst_type_poweron, write_to_cds,
  read_from_cds, init_cds, init_reset_area, init_user_reserved_area, setup_reserved_memory_map,
  init_processor_reserved_memory,
}
use fs_nasa_cfs_psp.Startup.{
  CommandData, reset, cpuid, Defaults, pr, empty_command_data, command_line, requested_reset,
  choose_reset, startup, restart, leave,
}
use fs_nasa_cfs_psp.Startup.Arguments.{
  AllAccepted, final, replace_all, default_settings, command_line-replace_all,
}
use fs_nasa_cfs_psp.Startup.Resets.{IsSized, contents, zeros}
use fs_nasa_cfs_psp.Startup.Acts.{done}
use fs_nasa_cfs_psp.Startup.Next.{restart_next}
use fs_nasa_cfs_psp.Startup.Cycles.{
  crashed, up_to_now, Alternates, Crashes-Alternates, cds_survives,
}

abbrev config : Config
config = record { cds_size = 4; reset_area_size = 2; user_reserved_size = 2 }

abbrev osal : Osal
osal = record {
  object_type_user = 0x10;
  object_type_shift = 16;
  object_index_mask = 0xFFFF;
  object_id_undefined = 0;
  task_find_id_by_system_data = λ t. none;
  context_info_size = 1;
}

abbrev no_segments : SharedMemory
no_segments = record { cds_segment = none; reset_segment = none; user_segment = none }

no_segments-IsSized : IsSized config no_segments
no_segments-IsSized = record {
  cds_sized = λ b e. absurd (none-ne-some b e);
  reset_sized = λ s e. absurd (none-ne-some s e);
  user_sized = λ b e. absurd (none-ne-some b e);
}

abbrev defaults : Defaults
defaults = record { default_cpu_id = 1; default_cpu_name = 67 ∷ []; default_spacecraft_id = 66 }

-- No option at all.
abbrev plain : CommandData
plain = empty_command_data

abbrev running : ReservedMemoryMap
running = (startup config osal plain no_segments []).1

processor_after_crash : (startup config osal plain (leave running) []).0 ≡ rst_type_processor
unfolding startup choose_reset requested_reset setup_reserved_memory_map init_cds init_reset_area
    init_user_reserved_area init_processor_reserved_memory
processor_after_crash = refl

command_line-replace_all_example :
    let arguments = reset pr ∷ cpuid 3 ∷ cpuid 4 ∷ [] in
    ((AllAccepted arguments)
      × ((d : CommandData) × (command_line defaults arguments ≡ some d)
          × (final d ≡ replace_all (default_settings defaults) arguments)))
    ⊎ ((¬ AllAccepted arguments) × (command_line defaults arguments ≡ none))
command_line-replace_all_example =
    command_line-replace_all defaults (reset pr ∷ cpuid 3 ∷ cpuid 4 ∷ [])

restart_next_example :
    let (t', m') = startup config osal plain (leave (restart 7 running)) [] in
    ((7 ≡ rst_type_processor) × (t' ≡ rst_type_processor) × (contents m' ≡ contents running))
    ⊎ ((7 ≢ rst_type_processor) × (t' ≡ rst_type_poweron) × (contents m' ≡ zeros config osal))
restart_next_example =
    restart_next config osal plain plain no_segments [] [] running 7 no_segments-IsSized (done refl)
      refl

Crashes-Alternates_example : Alternates ((startup config osal plain no_segments []).0 ∷ [])
Crashes-Alternates_example =
    Crashes-Alternates config osal no_segments _ no_segments-IsSized
      (crashed plain [] running refl refl (done refl) up_to_now)

abbrev data_bytes : List ℕ
data_bytes = 1 ∷ 2 ∷ []

abbrev new_store : List ℕ
new_store = 0 ∷ 1 ∷ 2 ∷ 0 ∷ []

stored :
    write_to_cds (length running.cds_memory.block) running.cds_memory.block (some data_bytes) 1 2
    ≡ some (success, new_store)
unfolding write_to_cds startup choose_reset requested_reset setup_reserved_memory_map init_cds
    init_reset_area init_user_reserved_area init_processor_reserved_memory
stored = refl

cds_survives_example :
    let written = record running { cds_memory = record running.cds_memory { block = new_store } } in
    let again =
      (startup config osal plain
        (leave (restart rst_type_processor written))
        []).1.cds_memory.block in
    read_from_cds (length again) again (some (9 ∷ 9 ∷ [])) 1 2
    ≡ some (success, some (take 2 data_bytes ++ drop 2 (9 ∷ 9 ∷ [])))
cds_survives_example =
    cds_survives config osal plain plain no_segments [] [] running data_bytes (9 ∷ 9 ∷ []) new_store
      1 2 no_segments-IsSized (done refl) (omega arith) (omega arith) (omega arith) stored refl
