-- ===== src/KernelSysmon/Report.antt =====
-- A report of VxWorks' accounting, line by line: when it stays within the array of cores.
use fs_nasa_cfs_psp.Base.{
  ℕ, zero, suc, ◌+◌, ◌-◌, ◌%◌, ◌≤◌, ◌<◌, ◌≡◌, refl, sym, subst, ◌∙◌, inl, inr, Bool, true, false,
  not, none, some, List, [], ◌∷◌, arith, ltb, if◌then◌else◌, Bool-cases, length, get_or, set,
  length-set,
}
use fs_nasa_cfs_psp.KernelSysmon.Load.{vx_load_falls}
use fs_nasa_cfs_psp.KernelSysmon.{
  Monitor, SpyLine, VxCore, zero_vx_core, vx_load, vx_update_stat, vx_report, vx_turn,
}

-- With room for `room` more idle tasks, no line comes after the last of them.
abbrev pub Fits : ℕ → List SpyLine → Type 0
Fits room [] = Unit
Fits room (l ∷ lines) = (0 < room) × Fits (if l.is_idle then room - 1 else room) lines

abbrev pub idle_count : List SpyLine → ℕ
idle_count [] = 0
idle_count (l ∷ lines) = (if l.is_idle then 1 else 0) + idle_count lines

-- What a report keeps.
pub record Reported (s t : Monitor VxCore) : Type 0 where
  pub cores : length t.per_core ≡ length s.per_core
  pub running : t.is_running ≡ s.is_running
  pub kept_on : t.should_run ≡ s.should_run

line_full :
    (l : SpyLine) (lines : List SpyLine) (s : Monitor VxCore)
    → length s.per_core ≤ s.num_cpus
    → vx_report (l ∷ lines) s ≡ none
unfolding vx_report vx_update_stat
line_full l lines s full =
    let beyond : not (ltb s.num_cpus (length s.per_core)) ≡ true = ground arith in
    rw (beyond, vx_report) refl

-- The state after one line with room.
abbrev stepped : SpyLine → Monitor VxCore → Monitor VxCore
stepped l s =
    if l.is_idle
    then record s {
      num_cpus = (s.num_cpus + 1) % 256;
      per_core =
          set s.per_core s.num_cpus (record { avg_load = vx_load l.idle_percent; idle_state = l });
    }
    else record s {
      per_core = set s.per_core s.num_cpus (record (get_or s.per_core s.num_cpus zero_vx_core) {
        idle_state = record {
          is_idle = false;
          total_idle_percent = 0;
          total_idle_ticks = 0;
          idle_percent = 0;
          idle_ticks = 0;
        };
      });
    }

line_room :
    (l : SpyLine) (lines : List SpyLine) (s : Monitor VxCore)
    → s.num_cpus < length s.per_core
    → vx_report (l ∷ lines) s ≡ vx_report lines (stepped l s)
unfolding vx_report vx_update_stat
line_room l lines s room =
    let within : not (ltb s.num_cpus (length s.per_core)) ≡ false = ground arith in
    elim (Bool-cases l.is_idle) [
      | inl idle ↦ rw (within, idle, vx_report) refl
      | inr other ↦ rw (within, other, vx_report) refl
    ]

-- Every load is a 24-bit number.
abbrev pub SmallLoads : Monitor VxCore → Type 0
SmallLoads s = (i : ℕ) → (get_or s.per_core i zero_vx_core).avg_load ≤ 0xFFFFFF

set-Small :
    (cores : List VxCore) (j : ℕ) (c : VxCore)
    → c.avg_load ≤ 0xFFFFFF
    → ((i : ℕ) → (get_or cores i zero_vx_core).avg_load ≤ 0xFFFFFF)
    → (i : ℕ) → (get_or (set cores j c) i zero_vx_core).avg_load ≤ 0xFFFFFF
set-Small [] j c hc h i = h i
set-Small (x ∷ cores) zero c hc h zero = hc
set-Small (x ∷ cores) zero c hc h (suc i) = h (suc i)
set-Small (x ∷ cores) (suc j) c hc h zero = h zero
set-Small (x ∷ cores) (suc j) c hc h (suc i) = set-Small cores j c hc (λ i. h (suc i)) i

module _ (l : SpyLine) (s : Monitor VxCore) where
  stepped-Reported : Reported s (stepped l s)
  stepped-Reported = elim (Bool-cases l.is_idle) [
    | inl idle ↦
        rw idle
          (record { cores = length-set s.per_core s.num_cpus _; running = refl; kept_on = refl })
    | inr other ↦
        rw other
          (record { cores = length-set s.per_core s.num_cpus _; running = refl; kept_on = refl })
  ]

  stepped-SmallLoads : SmallLoads s → SmallLoads (stepped l s)
  stepped-SmallLoads h = elim (Bool-cases l.is_idle) [
    | inl idle ↦ rw idle (
        set-Small s.per_core s.num_cpus _
          (vx_load_falls l.idle_percent l.idle_percent (omega arith)).1 h)
    | inr other ↦ rw other (set-Small s.per_core s.num_cpus _ (h s.num_cpus) h)
  ]

  stepped_count :
      s.num_cpus < 255 → (stepped l s).num_cpus ≡ s.num_cpus + (if l.is_idle then 1 else 0)
  stepped_count h = elim (Bool-cases l.is_idle) [
    | inl idle ↦ rw idle (omega arith)
    | inr other ↦ rw other (omega arith)
  ]

room_left :
    (idle : Bool) (cores count cores' count' : ℕ)
    → cores' ≡ cores
    → count' ≡ count + (if idle then 1 else 0)
    → count < cores
    → ((if idle then cores - count - 1 else cores - count) ≡ cores' - count') × (count' ≤ cores')
room_left true cores count cores' count' same more room = (omega arith, omega arith)
room_left false cores count cores' count' same more room = (omega arith, omega arith)

-- The room left after a line.
room_after :
    (l : SpyLine) (s : Monitor VxCore)
    → length s.per_core ≤ 255
    → s.num_cpus < length s.per_core
    → ((if l.is_idle then length s.per_core - s.num_cpus - 1 else length s.per_core - s.num_cpus)
        ≡ length (stepped l s).per_core - (stepped l s).num_cpus)
      × (length (stepped l s).per_core ≤ 255)
      × ((stepped l s).num_cpus ≤ length (stepped l s).per_core)
room_after l s small room =
    let cores = (stepped-Reported l s).cores in
    let count = stepped_count l s (omega arith) in
    let left =
      room_left l.is_idle (length s.per_core) s.num_cpus (length (stepped l s).per_core)
        (stepped l s).num_cpus cores count room in
    (left.0, omega (arith, cores), left.1)

trans-Reported : (s t u : Monitor VxCore) → Reported s t → Reported t u → Reported s u
trans-Reported s t u p q = record {
  cores = q.cores ∙ p.cores;
  running = q.running ∙ p.running;
  kept_on = q.kept_on ∙ p.kept_on;
}

pub vx_report-Fits :
    (lines : List SpyLine) (s : Monitor VxCore)
    → length s.per_core ≤ 255
    → s.num_cpus ≤ length s.per_core
    → Fits (length s.per_core - s.num_cpus) lines
    → (t : Monitor VxCore) × (vx_report lines s ≡ some t)
      × Reported s t
      × (t.num_cpus ≡ s.num_cpus + idle_count lines)
      × (t.num_cpus ≤ length s.per_core)
      × (SmallLoads s → SmallLoads t)
unfolding vx_report
vx_report-Fits [] s small le fits =
    (s, refl, record { cores = refl; running = refl; kept_on = refl }, omega arith, le, λ h. h)
vx_report-Fits (l ∷ lines) s small le fits =
    let room : s.num_cpus < length s.per_core = omega (arith, fits.0) in
    let (left, small', le') = room_after l s small room in
    let (u, ends, kept, counted, within, loads) =
      vx_report-Fits lines (stepped l s) small' le' (subst (λ n. Fits n lines) left fits.1) in
    (
      u,
      line_room l lines s room ∙ ends,
      trans-Reported s (stepped l s) u (stepped-Reported l s) kept,
      counted ∙ omega (arith, stepped_count l s (omega arith)),
      omega (arith, within, (stepped-Reported l s).cores),
      λ h. loads (stepped-SmallLoads l s h),
    )

pub vx_report_overruns :
    (lines : List SpyLine) (s : Monitor VxCore)
    → length s.per_core ≤ 255
    → s.num_cpus ≤ length s.per_core
    → ¬ Fits (length s.per_core - s.num_cpus) lines
    → vx_report lines s ≡ none
vx_report_overruns [] s small le no_fit = absurd (no_fit tt)
vx_report_overruns (l ∷ lines) s small le no_fit =
    elim (Bool-cases (ltb s.num_cpus (length s.per_core))) [
      | inl within ↦
          let room : s.num_cpus < length s.per_core = ground arith in
          let (left, small', le') = room_after l s small room in
          line_room l lines s room
          ∙ vx_report_overruns lines (stepped l s) small' le'
              (λ fits. no_fit (omega arith, subst (λ n. Fits n lines) (sym left) fits))
      | inr full ↦ line_full l lines s (ground arith)
    ]

-- A turn of VxWorks' monitor, for at most 255 cores: where no line of the report comes after as many
-- idle tasks as there are cores, it ends with their count in `num_cpus` and the number of cores and
-- the two flags as before. Where one does, the code writes behind the array of cores.
pub vx_turn-Fits :
    (lines : List SpyLine) (s : Monitor VxCore)
    → length s.per_core ≤ 255
    → (Fits (length s.per_core) lines
        → (t : Monitor VxCore) × (vx_turn lines s ≡ some t)
          × Reported s t
          × (t.num_cpus ≡ idle_count lines)
          × (t.num_cpus ≤ length s.per_core))
      × (¬ Fits (length s.per_core) lines → vx_turn lines s ≡ none)
unfolding vx_turn
vx_turn-Fits lines s small =
    let start = record s { num_cpus = 0 } in
    let whole : length s.per_core ≡ length s.per_core - 0 = omega arith in
    (
      λ fits.
          let (t, ends, kept, counted, within, loads) =
            vx_report-Fits lines start small (omega arith) (subst (λ n. Fits n lines) whole fits) in
          (
            t,
            ends,
            record { cores = kept.cores; running = kept.running; kept_on = kept.kept_on },
            counted ∙ omega arith,
            within,
          ),
      λ no_fit.
          vx_report_overruns lines start small (omega arith)
            (λ fits. no_fit (subst (λ n. Fits n lines) (sym whole) fits)),
    )
