-- ===== src/KernelSysmon/Reads.antt =====
-- Reads of single CPUs through the two monitors, with an array of NumChannels samples.
use mathlib.Core.Option.{some-injective}
use fs_nasa_cfs_psp.Base.{
  ℕ, zero, suc, ◌+◌, ◌≤◌, ◌<◌, ◌≡◌, refl, sym, ap, ◌∙◌, ◌⊎◌, inl, inr, true, false, ◌&&◌, none,
  some, List, arith, ltb, leb, ◌==◌, Bool-cases, length, get_elem?, get_elem?-set_self,
  get_elem?-set_ne, get_elem?_within, set, length-set,
}
use fs_nasa_cfs_psp.Status.{success, code}
use fs_nasa_cfs_psp.Sysmon.Driver.{analog, decode}
use fs_nasa_cfs_psp.KernelSysmon.{Monitor, VxCore, Creation}
use fs_nasa_cfs_psp.KernelSysmon.Driver.{
  Kind, kernel_read, kernel_cpu_load_dispatch, kernel_dev_cmd, vx_kind, vx_dev_cmd,
}

module _ {C : Type 0} (kind : Kind C) where
  kernel_read_step :
      (ch left : ℕ) (cores : List C) (samples : List ℕ) (c : C)
      → ch < length samples
      → get_elem? cores ch ≡ some c
      → kernel_read kind ch (suc left) cores samples
        ≡ kernel_read kind (ch + 1) left cores (set samples ch (kind.load_of c))
  unfolding kernel_read
  kernel_read_step ch left cores samples c room e =
      let within : ltb ch (length samples) ≡ true = ground arith in rw (within, e, kernel_read) refl

  kernel_read_full :
      (ch left : ℕ) (cores : List C) (samples : List ℕ)
      → length samples ≤ ch
      → kernel_read kind ch (suc left) cores samples ≡ none
  unfolding kernel_read
  kernel_read_full ch left cores samples full =
      let beyond : ltb ch (length samples) ≡ false = ground arith in rw (beyond, kernel_read) refl

  read_nothing :
      (ch : ℕ) (cores : List C) (samples : List ℕ)
      → kernel_read kind ch 0 cores samples ≡ some samples
  unfolding kernel_read
  read_nothing ch cores samples = refl

  -- A read that has room stores the load of each core at its own number, and nothing else.
  pub kernel_read-reads :
      (ch n : ℕ) (cores : List C) (samples : List ℕ)
      → ch + n ≤ length cores
      → ch + n ≤ length samples
      → (out : List ℕ) × (kernel_read kind ch n cores samples ≡ some out)
        × (length out ≡ length samples)
        × ((i : ℕ) (c : C)
            → ch ≤ i
            → i < ch + n
            → get_elem? cores i ≡ some c
            → get_elem? out i ≡ some (kind.load_of c))
        × ((i : ℕ) → i < ch → get_elem? out i ≡ get_elem? samples i)
  kernel_read-reads ch zero cores samples le room = (
    samples,
    read_nothing ch cores samples,
    refl,
    λ i c low high e. absurd (omega arith),
    λ i h. refl,
  )
  kernel_read-reads ch (suc n) cores samples le room =
      let (c, e) = get_elem?_within cores ch (omega arith) in
      let stored = set samples ch (kind.load_of c) in
      let same = length-set samples ch (kind.load_of c) in
      let (out, ends, long, here, before) =
        kernel_read-reads (ch + 1) n cores stored (omega arith) (omega arith) in
      let first : get_elem? out ch ≡ some (kind.load_of c) =
        before ch (omega arith) ∙ get_elem?-set_self samples ch (kind.load_of c) (omega arith) in
      (
        out,
        kernel_read_step ch n cores samples c (omega arith) e ∙ ends,
        long ∙ same,
        λ i d low high at. elim (Bool-cases (i == ch)) [
          | inl here_now ↦
              let now : i ≡ ch = ground arith in
              let core : c ≡ d = some-injective c d (sym e ∙ ap (get_elem? cores) (sym now) ∙ at) in
              ap (get_elem? out) now ∙ first ∙ ap (λ d. some (kind.load_of d)) core
          | inr later ↦ here i d (ground arith) (omega arith) at
        ],
        λ i low.
            before i (omega arith) ∙ get_elem?-set_ne samples ch i (kind.load_of c) (omega arith),
      )

  -- A read without room leaves the array.
  pub kernel_read_leaves :
      (ch n : ℕ) (cores : List C) (samples : List ℕ)
      → ch + n ≤ length cores
      → 0 < n
      → length samples < ch + n
      → kernel_read kind ch n cores samples ≡ none
  kernel_read_leaves ch zero cores samples le some_left short = absurd (omega arith)
  kernel_read_leaves ch (suc n) cores samples le some_left short =
      elim (Bool-cases (ltb ch (length samples))) [
        | inl room ↦
            let inside : ch < length samples = ground arith in
            let (c, e) = get_elem?_within cores ch (omega arith) in
            let same = length-set samples ch (kind.load_of c) in
            kernel_read_step ch n cores samples c inside e
            ∙ kernel_read_leaves (ch + 1) n cores (set samples ch (kind.load_of c)) (omega arith)
                (omega arith) (omega arith)
        | inr full ↦ kernel_read_full ch n cores samples (ground arith)
      ]

-- A read of single CPUs through VxWorks' monitor, into an array of as many samples as channels are
-- read, from a channel and up to one that exist: from channel 0 it succeeds, and each sample is the
-- load of the core of its number. From another channel it stores outside the array.
pub vx_dev_cmd-reads :
    (creation : Creation) (ch : ℕ) (samples : List ℕ) (s : Monitor VxCore)
    → 0 < length samples
    → ch + length samples ≤ length s.per_core
    → let result = vx_dev_cmd creation 0x10001 1 ch (analog (length samples) samples) s in
      ((ch ≡ 0)
        × ((out : List ℕ) × (result ≡ some (code success, s, analog (length samples) out))
            × (length out ≡ length samples)
            × ((i : ℕ) (c : VxCore)
                → i < length samples
                → get_elem? s.per_core i ≡ some c
                → get_elem? out i ≡ some c.avg_load)))
      ⊎ ((0 < ch) × (result ≡ none))
unfolding vx_dev_cmd vx_kind kernel_dev_cmd kernel_cpu_load_dispatch decode
vx_dev_cmd-reads creation ch samples s some_samples le =
    let kind = vx_kind creation in
    let n = length samples in
    let accepted : (ltb ch (length s.per_core) && leb (ch + n) (length s.per_core)) ≡ true =
      ground arith in
    elim (Bool-cases (ch == 0)) [
      | inl first ↦
          let (out, ends, long, here, before) =
            kernel_read-reads kind ch n s.per_core samples le (ground arith) in
          rw (accepted, ends)
            (inl (
              ground arith,
              (out, refl, long, λ i c h e. here i c (ground arith) (ground arith) e),
            ))
      | inr later ↦
          rw
            (
              accepted,
              kernel_read_leaves kind ch n s.per_core samples le some_samples (ground arith),
            )
            (inr (ground arith, refl))
    ]
