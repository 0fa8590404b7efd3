-- ===== src/Util/Panic/Tests.antt =====
-- A speaker with clocks that tick at each read, and a gate that is shut at first.
use ada_os.Base.{ℕ, ◌≡◌, List, done, arith}
use ada_os.Platform.Pic.{Out}
use ada_os.Platform.Pit.Sleeping.{IsRunning}
use ada_os.Util.Panic.{Speaker, panic}
use ada_os.Util.Panic.Halting.{Ready, Halted, panic-Halted}

abbrev rising : ℕ → ℕ
rising i = i

rising-IsRunning : IsRunning rising 1
rising-IsRunning = record { forward = λ i. omega arith; goes_on = λ i. omega arith }

abbrev speaker : Speaker
speaker = record {
  fuel = 201;
  tone = λ _. rising;
  pause = λ _. rising;
  gate_on = λ _. 0x20;
  gate_off = λ _. 0x23;
}

speaker-Ready : Ready speaker
speaker-Ready = record {
  gap = 1;
  tone = λ _. rising-IsRunning;
  pause = λ _. rising-IsRunning;
  early = λ _. (omega arith, omega arith);
  enough = omega arith;
  byte = λ _. omega arith;
  byte_on = λ _. omega arith;
}

panic-Halted_example :
    (panics' : ℕ) × (outs : List Out) × (panic speaker (λ _. 1) 0 ≡ done (panics', outs))
    × Halted speaker (λ _. 1) 0 panics' outs
panic-Halted_example = panic-Halted speaker (λ _. 1) 0 speaker-Ready
