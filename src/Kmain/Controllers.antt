-- ===== src/Kmain/Controllers.antt =====
-- What holds when `kmain` comes to its end.
use ada_os.Base.{◌||◌}
use ada_os.Base.{
  ℕ, ◌+◌, ◌*◌, ◌^◌, ◌<◌, ◌≡◌, List, [], Bool, ◌&&◌, not, ◌==◌, if◌then◌else◌, bit_at, Option, none,
  some, Outcome, done,
}
use ada_os.Memory.Layout.{Boot}
use ada_os.Memory.Physical.{Pmm}
use ada_os.Core.{Memory}
use ada_os.Kmain.Devices.{is_good}
use ada_os.Kmain.Booting.{memory_flag, seeded, Begun}
use ada_os.Crypt.Random.{MtState}
use ada_os.Util.State.{GlobalState, set_state, apic_initialized}
use ada_os.Platform.Pit.{pit_goal_frequency, pit_sleep_ms}
use ada_os.Platform.Pit.Sleeping.{IsRunning}
use ada_os.Platform.Apic
use ada_os.Platform.Apic.{bootstrap_apic}
use ada_os.Platform.Acpi.{load32}
use ada_os.Platform.Acpi.Tables.{Loaded, higher_half}
use ada_os.Platform.Acpi.Tables.Loading
use ada_os.Platform.Acpi.Tables.Loading.{MadtsHaveRecords}
use ada_os.Platform.IoApic
use ada_os.Platform.IoApic.{Override}
use ada_os.Platform.IoApic.Setup.{Quiet}
use ada_os.Kmain.{
  Environment, Managed, Running, on_time, apics_from, overrides_from, start_controllers,
}

-- The controllers and the overrides that the tables list.
abbrev pub apics_of : Environment → Option Loaded → List IoApic.Apic
apics_of e none = []
apics_of e (some t) = apics_from e.tables t.records (t.records.count 1) 0

abbrev pub overrides_of : Environment → Option Loaded → List Override
overrides_of e none = []
overrides_of e (some t) = overrides_from e.tables t.records (t.records.count 2) 0

-- One of the two clocks saw the wait of 10 ms of the local controller's timer take its time.
abbrev pub is_timer_good : Environment → Bool
is_timer_good e = is_good e.apic_test || is_good e.pit_during_apic_test

-- What holds when the controllers are set up.
pub record AtEnd (e : Environment) (k : Managed e.boot) (r : Running) : Type 0 where
  pub enabled : bit_at e.msr 11 ≡ 1
  pub state :
      (i : ℕ)
      → r.state i ≡ (if i == 9 && is_timer_good e then 0xf0 else if i == 10 then 0 else k.state i)
  pub acpi : (s0 p : Pmm) × Loading.Started e.boot k.top_level e.tables e.rsdp s0 (p, r.acpi)
  pub io_apics :
      (s : IoApic.IoApic) × Quiet e.read e.boot k.top_level e.entry_address
        (overrides_of e r.acpi)
        (apics_of e r.acpi)
        s
        r.io_apic

-- The state that `bootstrap_apic` starts from.
abbrev unstarted : {boot : Boot} → Managed boot → Apic.Started
unstarted k = record { stores = []; outs = []; state = k.state; pages = k.heap.pages }

abbrev calibrated : Environment → Outcome ℕ
calibrated e = pit_sleep_ms e.fuel e.calibration pit_goal_frequency 600

-- The root table that the RSDP leads to.
abbrev pub root_of : Environment → (top_level : ℕ) → ℕ
root_of e top_level =
    higher_half e.boot top_level e.tables
      (load32 e.tables (higher_half e.boot top_level e.tables e.rsdp + 16))

-- The flags, once the timer is tested.
abbrev tested : Environment → GlobalState → GlobalState
tested e s =
    if not (on_time e.apic_test) && not (on_time e.pit_during_apic_test)
    then s
    else set_state apic_initialized 0xf0 s

-- What `finish` leaves.
abbrev FinishedWith :
    Environment → (top_level : ℕ) → GlobalState → Pmm × Option Loaded → Running → Type 0
FinishedWith e top_level state acpi r =
    (r.state ≡ state)
    × (r.acpi ≡ acpi.1)
    × (s : IoApic.IoApic) × Quiet e.read e.boot top_level e.entry_address (overrides_of e r.acpi)
        (apics_of e r.acpi) s r.io_apic

-- The waits and the tables that the setup of the controllers depends on: the timer of the PC lets the
-- calibration end, the timer of the local controller ticks, and the MADT's records have a length.
pub record ControllersReady (e : Environment) : Type 0 where
  pub calibration : (reads : ℕ) × (calibrated e ≡ done reads)
  pub gap : ℕ
  pub clock : IsRunning e.apic_test.reads gap
  pub early : e.apic_test.reads 0 + 10 < 2 ^ 64
  pub enough : 10 * gap < e.fuel
  pub madts : (top_level : ℕ) → MadtsHaveRecords e.boot top_level e.tables (root_of e top_level)

-- What holds when `kmain` has come to its end: how it came to the setup of the controllers, that this
-- setup left what there is, and the flags.
pub record Finished (e : Environment) (memory : Memory) (pages : Pmm) (cr3 : ℕ) (random : MtState)
    (s : GlobalState) (r : Running) : Type 0 where
  pub managed : Managed e.boot
  pub begun : Begun e memory pages cr3 s managed
  pub controllers_run : start_controllers e (seeded e random) managed ≡ done r
  pub at_end : AtEnd e managed r
  pub flags :
      (i : ℕ)
      → r.state i ≡ (
          if i == 9 && is_timer_good e
          then 0xf0
          else if i == 10
          then 0
          else memory_flag e begun.managers.page.0 s i)

abbrev on_top : Environment → ℕ → ℕ → ℕ
on_top e i x = if i == 9 && is_timer_good e then 0xf0 else if i == 10 then 0 else x

-- The end of `kmain` that is not the halt at once.
abbrev pub FinishedRun :
    (e : Environment) → Memory → Pmm → (cr3 : ℕ) → MtState → GlobalState → Option Running → Type 0
FinishedRun e memory pages cr3 random s none = ⊥
FinishedRun e memory pages cr3 random s (some r) = Finished e memory pages cr3 random s r
