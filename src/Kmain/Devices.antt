-- ===== src/Kmain/Devices.antt =====
-- The setup of the devices comes to an end while the timer of the PC ticks.
use ada_os.Base.{Bool}
use ada_os.Base.{false}
use ada_os.Base.{true}
use ada_os.Kmain.{Clock}
use ada_os.Base.{
  ℕ, ◌+◌, ◌*◌, ◌^◌, ◌<◌, ◌≡◌, refl, ◌∙◌, inl, inr, arith, ◌&&◌, ◌||◌, not, ltb, leb, ◌==◌,
  if◌then◌else◌, Bool-cases, done,
}
use ada_os.Memory.Layout.{sub64}
use ada_os.Serial.Port.{setup_serial}
use ada_os.Platform.Pit.{pit_goal_frequency}
use ada_os.Platform.Pit.Sleeping.{IsRunning, pit_sleep_ms-Slept}
use ada_os.Util.State.{GlobalState, set_state}
use ada_os.Kmain.{Environment, on_time, set_all, start_devices}

-- The timer ticks during both waits, at least once in `gap` rounds, and the fuel is enough for them.
pub record Ticking (e : Environment) : Type 0 where
  pub gap : ℕ
  pub test : IsRunning e.pit_test.reads gap
  pub chime : IsRunning e.chime gap
  pub early : (e.pit_test.reads 0 + 40 < 2 ^ 64) × (e.chime 0 + 40 < 2 ^ 64)
  pub enough : 40 * gap < e.fuel

-- A wait of 10 ticks took from 9 to 11.
abbrev pub is_good : Clock → Bool
is_good c = leb 9 (sub64 c.after c.before) && leb (sub64 c.after c.before) 11

pub on_time-is_good : (c : Clock) → on_time c ≡ is_good c
on_time-is_good c = ground arith

-- The flags from 0 to 11 after the devices are set up; those from 6 to 9 belong to the memory
-- managers and the local controller.
abbrev pub device_flag : Environment → GlobalState → GlobalState
device_flag e s i =
    if ltb i 12 && not (ltb 5 i && ltb i 10)
    then (if i == 1
        then (if e.cpuid_there then 1 else s 1)
        else if i == 5 || i == 10
        then (if is_good e.pit_test then 1 else s i)
        else if i == 11
        then (if e.loopback == 0x3a then 1 else 0)
        else 1)
    else s i

serial_flag :
    (scratch loopback : ℕ) (s : GlobalState) (i : ℕ)
    → set_all 11 (setup_serial 19200 scratch loopback).1 s i
      ≡ (if i == 11 then (if loopback == 0x3a then 1 else 0) else s i)
unfolding set_all setup_serial
serial_flag scratch loopback s i = elim (Bool-cases (scratch == 0x3a)) [
  | inl kept ↦ elim (Bool-cases (loopback == 0x3a)) [
    | inl heard ↦ rw (kept, heard) refl
    | inr deaf ↦ rw (kept, deaf) refl
  ]
  | inr lost ↦ elim (Bool-cases (loopback == 0x3a)) [
    | inl heard ↦ rw (lost, heard) (ground arith)
    | inr deaf ↦ rw (lost, deaf) (ground arith)
  ]
]

-- The flags before the test of the timer.
abbrev first_flags : Environment → GlobalState → GlobalState
first_flags e s =
    let s1 = set_state 0 1 s in
    let s2 = if e.cpuid_there then set_state 1 1 s1 else s1 in
    set_all 11 (setup_serial 19200 e.scratch e.loopback).1
      (set_state 4 1 (set_state 3 1 (set_state 2 1 s2)))

first_flags_lem :
    (e : Environment) (s : GlobalState) (i : ℕ)
    → first_flags e s i ≡ (
        if i == 11
        then (if e.loopback == 0x3a then 1 else 0)
        else if i == 0 || (i == 2 || (i == 3 || i == 4))
        then 1
        else if i == 1
        then (if e.cpuid_there then 1 else s 1)
        else s i)
first_flags_lem e s i = serial_flag e.scratch e.loopback _ i ∙ (elim (Bool-cases e.cpuid_there) [
  | inl there ↦ rw there (ground arith)
  | inr absent ↦ rw absent (ground arith)
])

-- The setup of the devices returns, while the timer ticks. It sets the flags of the screen, the two
-- descriptor tables and the old interrupt controller; that of CPUID if it is there; those of the
-- timer exactly if its test took from 9 to 11 ticks; that of the serial port exactly if the loopback
-- test succeeded, and it clears it otherwise. No other flag changes.
pub start_devices-flags :
    (e : Environment) (s : GlobalState)
    → Ticking e
    → (s' : GlobalState) × (start_devices e s ≡ done s') × ((i : ℕ) → s' i ≡ device_flag e s i)
unfolding start_devices
start_devices-flags e s t =
    let (n, slept, at_test) =
      pit_sleep_ms-Slept e.pit_test.reads t.gap t.test e.fuel pit_goal_frequency 10 (omega arith)
        (omega (arith, t.early)) (omega (arith, t.enough)) in
    let (n', slept', at_chime) =
      pit_sleep_ms-Slept e.chime t.gap t.chime e.fuel pit_goal_frequency 40 (omega arith)
        (omega (arith, t.early)) (omega (arith, t.enough)) in
    elim (Bool-cases (is_good e.pit_test)) [
      | inl good ↦
          let passed : on_time e.pit_test ≡ true = on_time-is_good e.pit_test ∙ good in
          (
            set_state 10 1 (set_state 5 1 (first_flags e s)),
            rw (slept, passed, slept') refl,
            λ i. rw good (ground (arith, first_flags_lem e s i)),
          )
      | inr bad ↦
          let failed : on_time e.pit_test ≡ false = on_time-is_good e.pit_test ∙ bad in
          (
            first_flags e s,
            rw (slept, failed) refl,
            λ i. rw bad (ground (arith, first_flags_lem e s i)),
          )
    ]
