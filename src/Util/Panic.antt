-- ===== src/Util/Panic.antt =====
-- kernel/src/util/panic.c: what the kernel does when it stops. Log output is left out, and the writes
-- with which `pit_sleep_ms` sets the timer again.
pub mod Halting
mod Tests
use ada_os.Base.{
  ℕ, zero, suc, ◌+◌, ◌%◌, Bool, not, List, [], ◌∷◌, ◌++◌, ltb, ◌==◌, if◌then◌else◌, Outcome, done,
  ◌>>=◌,
}
use ada_os.Util.State.{GlobalState, pit_initialized, apic_initialized}
use ada_os.Platform.Pic.{Out}
use ada_os.Platform.Pit.{pit_goal_frequency, play_sound, sound_off, pit_sleep_ms, apic_sleep_ms}

-- The clocks of the two waits of each beep, and what port 0x61 gives when a beep begins and ends.
pub record Speaker : Type 0 where
  pub fuel : ℕ
  pub tone : ℕ → ℕ → ℕ
  pub pause : ℕ → ℕ → ℕ
  pub gate_on : ℕ → ℕ
  pub gate_off : ℕ → ℕ

abbrev pub panic_sound_interval : ℕ
panic_sound_interval = 200

abbrev pub panic_sound_frequency : ℕ
panic_sound_frequency = 400

abbrev pub panic_beeps : ℕ
panic_beeps = 6

abbrev pub has_apic : GlobalState → Bool
has_apic s = s apic_initialized == 0xf0

-- One round of the loop, with what is written to the ports of the speaker.
pub beep : Speaker → GlobalState → (i : ℕ) → Outcome (List Out)
beep e s i =
    (if has_apic s
      then apic_sleep_ms e.fuel (e.tone i) panic_sound_interval
      else pit_sleep_ms e.fuel (e.tone i) pit_goal_frequency panic_sound_interval)
    >>= λ _.
        let outs =
          play_sound (e.gate_on i) panic_sound_frequency ++ sound_off (e.gate_off i) ∷ [] in
        if has_apic s
        then (apic_sleep_ms e.fuel (e.pause i) panic_sound_interval >>= λ _. done outs)
        else done outs

-- The rounds that are left, from round `i` on.
pub beeps : (rounds i : ℕ) → Speaker → GlobalState → Outcome (List Out)
beeps zero i e s = done []
beeps (suc rounds) i e s =
    beep e s i >>= λ outs. beeps rounds (i + 1) e s >>= λ later. done (outs ++ later)

-- `panic` up to its halt: `panics`, and what was written.
pub panic : Speaker → GlobalState → (panics : ℕ) → Outcome (ℕ × List Out)
panic e s panics =
    if ltb 0 panics
    then done (panics, [])
    else if not (s pit_initialized == 0)
    then (beeps panic_beeps 0 e s >>= λ outs. done ((panics + 1) % 256, outs))
    else done ((panics + 1) % 256, [])
