-- ===== src/IoDriver/Locking.antt =====
-- The locking of `CFE_PSP_IODriver_Command` (fsw/modules/iodriver/src/iodriver.c).
use Prim.Native.Nat.{bit_xor}
use mathlib.Core.Option.{some-injective}
use fs_nasa_cfs_psp.Base.{
  ℕ, zero, suc, ◌+◌, ◌*◌, ◌%◌, ◌^◌, ◌≤◌, ◌<◌, ◌≡◌, ◌⊎◌, inl, inr, refl, sym, ap, ◌∙◌, true, false,
  Option, none, some, List, [], ◌∷◌, arith, bit_and_low, ◌==◌, if◌then◌else◌, get_or, u32_mod,
  add32, Bool-cases, Option-cases,
}
use fs_nasa_cfs_psp.Status.{ℤ, pos, negsuc, error_not_implemented, code}
use fs_nasa_cfs_psp.ModuleTable.{
  ModuleType, invalid, simple, devicedriver, ModuleApi, Modules, get_api_entry,
}
use fs_nasa_cfs_psp.IoDriver.{
  Event, take, give, call, DeviceApi, Location, ObjectIds, create_from, iodriver_init, get_mutex,
  hash_mutex, is_driver, default_api, get_api, command_mutex, run_command, command,
}

get_or-create_from :
    (create : ℕ → ℕ) (i n k d : ℕ)
    → k < n
    → get_or (create_from create i n) k d ≡ create (i + 1 + k)
unfolding create_from
get_or-create_from create i zero k d h = absurd (omega arith)
get_or-create_from create i (suc n) zero d h =
    let same : i + 1 ≡ i + 1 + 0 = omega arith in ap create same
get_or-create_from create i (suc n) (suc k) d h =
    let shift : i + 1 + 1 + k ≡ i + 1 + suc k = omega arith in
    get_or-create_from create (i + 1) n k d (omega arith) ∙ ap create shift

slot_mutex :
    (ids : ObjectIds) (create : ℕ → ℕ) (module_id n : ℕ)
    → get_mutex ids (iodriver_init create) module_id (pos n)
      ≡ create ((if module_id == 0 then n else bit_xor n module_id) % 7 + 1)
unfolding get_mutex iodriver_init
slot_mutex ids create module_id n = elim (Bool-cases (module_id == 0)) [
  | inl zero_id ↦ rw zero_id (pick n)
  | inr other ↦ rw other (pick (bit_xor n module_id))
]
  where
    pick : (x : ℕ) → get_or (create_from create 0 7) (x % 7) ids.undefined_id ≡ create (x % 7 + 1)
    pick x =
        let next : 0 + 1 + x % 7 ≡ x % 7 + 1 = omega arith in
        get_or-create_from create 0 7 (x % 7) ids.undefined_id (omega arith) ∙ ap create next

-- With the seven mutexes of `iodriver_Init`, a driver's hash of 0 or more picks one of them, by the
-- hash alone for module 0 and by the hash and the module id else; a negative hash picks none.
pub get_mutex-iodriver_init :
    (ids : ObjectIds) (create : ℕ → ℕ) (module_id : ℕ) (h : ℤ)
    → ((n : ℕ) × (h ≡ negsuc n)
        × (get_mutex ids (iodriver_init create) module_id h ≡ ids.undefined_id))
      ⊎ ((n k : ℕ) × (h ≡ pos n)
          × (1 ≤ k)
          × (k ≤ 7)
          × (k ≡ (if module_id == 0 then n else bit_xor n module_id) % 7 + 1)
          × (get_mutex ids (iodriver_init create) module_id h ≡ create k))
unfolding get_mutex
get_mutex-iodriver_init ids create module_id (negsuc n) = inl (n, refl, refl)
get_mutex-iodriver_init ids create module_id (pos n) =
    let x = (if module_id == 0 then n else bit_xor n module_id) in
    inr (n, x % 7 + 1, refl, omega arith, omega arith, refl, slot_mutex ids create module_id n)

-- The slot of a hash: its mutex is the one of that number, from 1 to 7.
abbrev pub slot : ℕ → ℕ → ℕ
slot module_id n = (if module_id == 0 then n else bit_xor n module_id) % 7 + 1

-- The events of a call that a driver asks for no mutex for, or for one by its hash.
pub data IsLocked {Arg : Type 0} (create : ℕ → ℕ) (module_id : ℕ)
    (mutex : Option (ℕ → ℕ → ℕ → Arg → ℤ)) (c s ch : ℕ) (arg : Arg) : List Event → Type 0 where
  no_mutex :
      {es : List Event}
      → mutex ≡ none
      → es ≡ call c s ch ∷ []
      → IsLocked create module_id mutex c s ch arg es
  no_lock :
      {es : List Event} (h : ℕ → ℕ → ℕ → Arg → ℤ) (n : ℕ)
      → mutex ≡ some h
      → h c s ch arg ≡ negsuc n
      → es ≡ call c s ch ∷ []
      → IsLocked create module_id mutex c s ch arg es
  locked :
      {es : List Event} (h : ℕ → ℕ → ℕ → Arg → ℤ) (n : ℕ)
      → mutex ≡ some h
      → h c s ch arg ≡ pos n
      → es ≡ take (create (slot module_id n)) ∷ call c s ch ∷ give (create (slot module_id n)) ∷ []
      → IsLocked create module_id mutex c s ch arg es

unlocked_events :
    (ids : ObjectIds) (mutex : ℕ) (here : Event)
    → ids.is_defined mutex ≡ false
    → (if ids.is_defined mutex then take mutex ∷ here ∷ give mutex ∷ [] else here ∷ []) ≡ here ∷ []
unlocked_events ids mutex here e = rw e refl

locked_events :
    (ids : ObjectIds) (mutex : ℕ) (here : Event)
    → ids.is_defined mutex ≡ true
    → (if ids.is_defined mutex then take mutex ∷ here ∷ give mutex ∷ [] else here ∷ [])
      ≡ take mutex ∷ here ∷ give mutex ∷ []
locked_events ids mutex here e = rw e refl

ModuleType-cases : (t : ModuleType) → (t ≡ devicedriver) ⊎ (is_driver t ≡ false)
unfolding is_driver
ModuleType-cases invalid = inr refl
ModuleType-cases simple = inr refl
ModuleType-cases devicedriver = inl refl

-- The modules that a command finds, and the others.
module _ {Arg World : Type 0} (m : Modules (DeviceApi Arg World)) (id : ℕ) where
  get_api_missing : get_api_entry m id ≡ none → get_api m id ≡ default_api
  unfolding get_api
  get_api_missing missing = rw (missing, get_api) refl

  get_api_other :
      (api : ModuleApi (DeviceApi Arg World))
      → get_api_entry m id ≡ some api
      → is_driver api.module_type ≡ false
      → get_api m id ≡ default_api
  unfolding get_api
  get_api_other api found other = rw (found, other, get_api) refl

  get_api_driver :
      (api : ModuleApi (DeviceApi Arg World))
      → get_api_entry m id ≡ some api
      → api.module_type ≡ devicedriver
      → get_api m id ≡ api.extended_api
  unfolding get_api is_driver
  get_api_driver api found driver = rw (found, driver, get_api) refl

default_command :
    {Arg World : Type 0} → (default_api {Arg = Arg} {World = World}).device_command ≡ none
unfolding default_api
default_command = refl

devicedriver-is_driver : is_driver devicedriver ≡ true
unfolding is_driver
devicedriver-is_driver = refl

module _ {Arg World : Type 0} (ids : ObjectIds) (create : ℕ → ℕ)
    (undefined_left : ids.is_defined ids.undefined_id ≡ false)
    (all_created : (k : ℕ) → 1 ≤ k → k ≤ 7 → ids.is_defined (create k) ≡ true) where
  -- What a driver's own command and mutex give.
  run_command-IsLocked :
      (api : DeviceApi Arg World) (f : ℕ → ℕ → ℕ → Arg → World → ℤ × World) (l : Location)
      (command_code : ℕ) (arg : Arg) (w : World)
      → api.device_command ≡ some f
      → let (result, w', events) =
          run_command ids (iodriver_init create) api l command_code arg w in
        ((result, w') ≡ f command_code l.subsystem_id l.subchannel_id arg w)
        × IsLocked create l.psp_module_id api.device_mutex command_code l.subsystem_id
            l.subchannel_id arg events
  unfolding run_command command_mutex
  run_command-IsLocked api f l command_code arg w e =
      let here = call command_code l.subsystem_id l.subchannel_id in
      rw e (
        refl,
        elim (Option-cases api.device_mutex) [
          | inl nothing ↦ no_mutex nothing (rw nothing (unlocked_events ids _ here undefined_left))
          | inr (h, asked) ↦
              let hash = h command_code l.subsystem_id l.subchannel_id arg in
              elim (get_mutex-iodriver_init ids create l.psp_module_id hash) [
                | inl (n, negative, undefined) ↦
                    no_lock h n asked negative
                      (rw (asked, undefined) (unlocked_events ids _ here undefined_left))
                | inr (n, k, some_hash, low, high, which, found) ↦ locked h n asked some_hash (
                    rw (asked, found, ← which)
                      (locked_events ids (create k) here (all_created k low high)))
              ]
        ],
      )

  refused_command :
      (api : DeviceApi Arg World) (l : Location) (command_code : ℕ) (arg : Arg) (w : World)
      → api.device_command ≡ none
      → run_command ids (iodriver_init create) api l command_code arg w
        ≡ (code error_not_implemented, w, [])
  unfolding run_command
  refused_command api l command_code arg w e = rw (e, run_command) refl

  -- With the seven mutexes that `iodriver_Init` creates, all defined: a command to a module that is
  -- not found, to one that is no device driver, or to a driver without a command function returns
  -- CFE_PSP_ERROR_NOT_IMPLEMENTED and touches no lock or device. Any other calls the function of the
  -- driver found by the id once and returns its result. If the driver has no mutex function, or that
  -- answers a negative hash, no lock is taken; else the mutex of the slot that the hash gives, by
  -- itself for the module 0 and with the module's id else, is held around the call.
  pub command-IsLocked :
      (m : Modules (DeviceApi Arg World)) (l : Location) (command_code : ℕ) (arg : Arg) (w : World)
      → let (result, w', events) = command ids (iodriver_init create) m l command_code arg w in
        (((api : ModuleApi (DeviceApi Arg World))
            → get_api_entry m l.psp_module_id ≡ some api
            → api.module_type ≡ devicedriver
            → api.extended_api.device_command ≡ none)
          × (result ≡ code error_not_implemented)
          × (w' ≡ w)
          × (events ≡ []))
        ⊎ ((api : ModuleApi (DeviceApi Arg World)) × (get_api_entry m l.psp_module_id ≡ some api)
            × (api.module_type ≡ devicedriver)
            × ((f : ℕ → ℕ → ℕ → Arg → World → ℤ × World) × (api.extended_api.device_command
                  ≡ some f)
                × ((result, w') ≡ f command_code l.subsystem_id l.subchannel_id arg w)
                × IsLocked create l.psp_module_id api.extended_api.device_mutex command_code
                    l.subsystem_id l.subchannel_id arg events))
  unfolding command
  command-IsLocked m l command_code arg w =
      let id = l.psp_module_id in
      elim (Option-cases (get_api_entry m id)) [
        | inl missing ↦
            let refused =
              refused_command (get_api m id) l command_code arg w
                (rw (get_api_missing m id missing) default_command) in
            inl (
              λ api found driver. absurd (ground (arith, missing, found)),
              ap (λ o. o.0) refused,
              ap (λ o. o.1) refused,
              ap (λ o. o.2) refused,
            )
        | inr (api, found) ↦ elim (ModuleType-cases api.module_type) [
          | inr other ↦
              let refused =
                refused_command (get_api m id) l command_code arg w
                  (rw (get_api_other m id api found other) default_command) in
              inl (
                λ api' found' driver.
                    let same : api ≡ api' = some-injective api api' (sym found ∙ found') in
                    let yes : is_driver api.module_type ≡ true =
                      rw (same, driver) devicedriver-is_driver in
                    absurd (ground (arith, other, yes)),
                ap (λ o. o.0) refused,
                ap (λ o. o.1) refused,
                ap (λ o. o.2) refused,
              )
          | inl driver ↦ elim (Option-cases api.extended_api.device_command) [
            | inl no_command ↦
                let refused =
                  refused_command (get_api m id) l command_code arg w
                    (rw (get_api_driver m id api found driver) no_command) in
                inl (
                  λ api' found' driver'.
                      let same : api ≡ api' = some-injective api api' (sym found ∙ found') in
                      rw (← same) no_command,
                  ap (λ o. o.0) refused,
                  ap (λ o. o.1) refused,
                  ap (λ o. o.2) refused,
                )
            | inr (f, has_command) ↦
                let (runs, locks) =
                  run_command-IsLocked api.extended_api f l command_code arg w has_command in
                let its_api = get_api_driver m id api found driver in
                inr (api, found, driver, (f, has_command, rw its_api runs, rw its_api locks))
          ]
        ]
      ]

hash_mutex_lem :
    (start datum : ℕ)
    → hash_mutex start datum ≡ (start + datum * 0x10AB % u32_mod) % u32_mod % 2 ^ 31
unfolding hash_mutex
hash_mutex_lem start datum = bit_and_low 31 (add32 start (datum * 0x10AB % u32_mod))

-- `CFE_PSP_IODriver_HashMutex` never gives a negative number, and a hash of two data does not
-- depend on their order: hashing `a` and then `b` is hashing `b` and then `a`.
pub hash_mutex_order :
    (start a b : ℕ)
    → (hash_mutex start a < 2 ^ 31)
      × (hash_mutex (hash_mutex start a) b ≡ hash_mutex (hash_mutex start b) a)
hash_mutex_order start a b = omega (
  arith,
  hash_mutex_lem start a,
  hash_mutex_lem start b,
  hash_mutex_lem (hash_mutex start a) b,
  hash_mutex_lem (hash_mutex start b) a,
)
