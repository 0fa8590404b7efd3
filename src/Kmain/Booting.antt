-- ===== src/Kmain/Booting.antt =====
-- `kmain` as a whole: how far it comes, and what holds when it comes to its end.
use ada_os.Base.{ap}
use ada_os.Base.{subst}
use ada_os.Base.{sym}
use ada_os.Base.{run-Ends}
use ada_os.Memory.Map
use ada_os.Base.{ltb→ge}
use ada_os.Base.{Bool-cases}
use ada_os.Base.{ltb}
use ada_os.Base.{◌||◌}
use ada_os.Memory.Map.Covering.{is_insufficient_lem}
use ada_os.Kmain.Managing.{MemoryReady}
use ada_os.Kmain.{start_memory}
use ada_os.Kmain.{start_devices}
use ada_os.Kmain.Managing.{HasMappings}
use ada_os.Base.{
  ℕ, ◌+◌, ◌%◌, ◌^◌, ◌≤◌, ◌≡◌, refl, ◌∙◌, ◌⊎◌, inl, inr, Bool, true, false, ◌&&◌, not, ◌==◌,
  if◌then◌else◌, Option, none, some, Outcome, done, panicked, ◌>>=◌,
}
use ada_os.Core.{Memory}
use ada_os.Memory.Layout.{mul64}
use ada_os.Memory.Physical.{Pmm}
use ada_os.Memory.Heap.Setup.{first_size}
use ada_os.Crypt.Random.{MtState, setup_random}
use ada_os.Util.State.{GlobalState}
use ada_os.Kmain.{Environment, Managed, Running, start_controllers, kmain}
use ada_os.Kmain.Managing.{start_memory-MemoryReady}
use ada_os.Kmain.Devices.{Ticking, device_flag, start_devices-flags}

-- The flags when the memory managers are set up. `page` is the page of their test.
abbrev pub memory_flag : Environment → (page : ℕ) → GlobalState → GlobalState
memory_flag e page s i =
    if i == 8 || i == 7
    then 1
    else if i == 6 && (ltb 0 page && ltb page e.boot.hhdm_offset)
    then 1
    else device_flag e s i

-- The state of the generator of random numbers after `kmain` has seeded it.
abbrev pub seeded : Environment → MtState → MtState
seeded e random = setup_random (mul64 e.timestamp 19650218 % 2 ^ 32) random

-- How `kmain` comes to the setup of the controllers: what the phases before left, by their runs.
pub record Begun (e : Environment) (memory : Memory) (pages : Pmm) (cr3 : ℕ) (s : GlobalState)
    (k : Managed e.boot) : Type 0 where
  pub devices : GlobalState
  pub devices_run : start_devices e s ≡ done devices
  pub managed_run : start_memory e memory pages cr3 devices ≡ done k
  pub managers : MemoryReady e pages devices k
  pub ram : 2 ^ 29 ≤ managers.found.total
  pub flags : (i : ℕ) → k.state i ≡ memory_flag e managers.page.0 s i

-- The run panics, or comes to the setup of the controllers.
abbrev pub Comes :
    (e : Environment)
    → Memory
    → Pmm
    → (cr3 : ℕ) → MtState
    → GlobalState
    → Outcome (Option Running)
    → Type 0
Comes e memory pages cr3 random s run =
    (run ≡ panicked)
    ⊎ ((k : Managed e.boot) × (run
          ≡ (start_controllers e (seeded e random) k >>= λ r. done (some r)))
        × Begun e memory pages cr3 s k)

abbrev under : Environment → ℕ → ℕ → ℕ → ℕ
under e i page x =
    if i == 8 || i == 7
    then 1
    else if i == 6 && (ltb 0 page && ltb page e.boot.hhdm_offset)
    then 1
    else x

done_inj : {A : Type 0} {x y : A} → done x ≡ done y → x ≡ y
done_inj e = cc

known_revision :
    (b : Bool) {x : Outcome (Option Running)} → b ≡ true → (if not b then done none else x) ≡ x
known_revision true h = refl
known_revision false h = cc

-- While the timer of the PC ticks, `kmain` panics or comes to the setup of the controllers: no loop
-- on the way goes on for ever.
pub kmain-Comes :
    (e : Environment) (memory : Memory) (pages : Pmm) (cr3 : ℕ) (random : MtState) (s : GlobalState)
    → e.base_revision_supported ≡ true
    → Ticking e
    → HasMappings e
    → e.boot.hhdm_offset % 16 ≡ 0
    → e.boot.hhdm_offset + 2 ^ 40 + first_size + 32 ≤ 2 ^ 64
    → Comes e memory pages cr3 random s (kmain e memory pages cr3 random s)
unfolding kmain
kmain-Comes e memory pages cr3 random s supported ticking (d, described, few) aligned room =
    let (s1, devices, flags) = start_devices-flags e s ticking in
    let begun : kmain e memory pages cr3 random s ≡ _ =
      known_revision e.base_revision_supported supported in
    let enough = is_insufficient_lem d in
    elim (Bool-cases (ltb d.total (2 ^ 29))) [
      | inl little ↦
          let short : Map.is_insufficient d ≡ true = enough ∙ little in
          inl (begun ∙ rw (described, short) refl)
      | inr plenty ↦
          let good : Map.is_insufficient d ≡ false = enough ∙ plenty in
          elim (run-Ends _ _
            (start_memory-MemoryReady e memory pages cr3 s1 (d, described, few) aligned room)) [
              | inl stopped ↦ inl (begun ∙ rw (described, good, devices, stopped) refl)
              | inr (k, run, (again, ready)) ↦
                  let same : ready.found ≡ d = done_inj (sym ready.described ∙ described) in
                  inr (
                    k,
                    begun ∙ rw (described, good, devices, run) refl,
                    record {
                      devices = s1;
                      devices_run = devices;
                      managed_run = run;
                      managers = ready;
                      ram =
                          subst (λ (x : Map.Descriptor). 2 ^ 29 ≤ x.total) (sym same)
                            (ltb→ge _ _ plenty);
                      flags = λ i. ready.state i ∙ ap (under e i ready.page.0) (flags i);
                    },
                  )
            ]
    ]
