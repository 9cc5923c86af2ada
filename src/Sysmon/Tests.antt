-- ===== src/Sysmon/Tests.antt =====
-- The system monitor on a machine of two CPUs.
use fs_nasa_cfs_psp.Sysmon.Text.{
  Numeral, text_of, value, spaced, value_at, read_cpuuse_line, read_cpuuse_line-spaced,
}
use fs_nasa_cfs_psp.Base.{
  replicate, ◌++◌, ◌%◌, u32_mod, ℕ, ◌/◌, ◌≡◌, refl, true, false, some, [], ◌∷◌, arith,
}
use fs_nasa_cfs_psp.Sysmon.{CpuLoad, Answers, clean, load_of, sample_lines, update_schedstat, start}
use fs_nasa_cfs_psp.Sysmon.Driver.{u32, dev_cmd}
use fs_nasa_cfs_psp.Sysmon.Load.{IsLoaded}
use fs_nasa_cfs_psp.Sysmon.Control.{
  AfterCommand, clean-IsLoaded, start-Started, dev_cmd-AfterCommand,
}

abbrev to_ms : ℕ → ℕ
to_ms ns = ns / 1000000

abbrev answers : Answers
answers = record {
  opens = true;
  creates = true;
  first_sample = some (
      record { cpu_num = 0; run_time = 5000000000 }
      ∷ record { cpu_num = 1; run_time = 7000000000 }
      ∷ []);
}

abbrev idle : CpuLoad
idle = record clean { should_run = false }

idle-IsLoaded : IsLoaded idle
idle-IsLoaded = clean-IsLoaded false

abbrev running : CpuLoad
running = (start to_ms answers idle).1

running-IsLoaded : IsLoaded running
running-IsLoaded = (start-Started to_ms answers idle idle-IsLoaded).0

is_on : running.is_running ≡ true
unfolding start update_schedstat sample_lines
is_on = refl

two_cpus : running.num_cpus ≡ 2
unfolding start update_schedstat sample_lines
two_cpus = refl

half_load : load_of 500 1000 ≡ 0x800800
unfolding load_of
half_load = refl

dev_cmd-AfterCommand_example : AfterCommand (dev_cmd to_ms answers 1 0 0 (u32 1) idle)
dev_cmd-AfterCommand_example = dev_cmd-AfterCommand to_ms answers 1 0 0 (u32 1) idle idle-IsLoaded

-- "12" and "7".
abbrev twelve : Numeral
twelve = record {
  first = 49;
  others = 50 ∷ [];
  all_digits = (omega arith, omega arith, (omega arith, omega arith, tt));
  fits = omega arith;
}

abbrev seven : Numeral
seven = record {
  first = 55;
  others = [];
  all_digits = (omega arith, omega arith, tt);
  fits = omega arith;
}

read_cpuuse_line-spaced_example :
    read_cpuuse_line (text_of twelve ++ spaced (replicate 6 seven ++ (twelve ∷ seven ∷ [])))
    ≡ (value twelve % u32_mod, value_at (replicate 6 seven ++ (twelve ∷ seven ∷ [])) 6 0)
read_cpuuse_line-spaced_example =
    read_cpuuse_line-spaced twelve (replicate 6 seven ++ (twelve ∷ seven ∷ []))
