-- ===== src/Interrupt/Tests.antt =====
-- A tick, a return on the serial port, a breakpoint and a tick of the other clock.
use ada_os.Base.{ℕ, refl, List, [], ◌∷◌, false}
use ada_os.Interrupt.{Machine, run_all}
use ada_os.Interrupt.Running.{Harmless, Ran, run_all-Ran}

abbrev started : Machine
started = record {
  pit_ticks = 0;
  apic_ticks = 5;
  shell = record { terminal_running = false; line_buffer = λ _. 0; buffer_index = 0 };
}

abbrev interrupts : List (ℕ × ℕ)
interrupts = (0x20, 0) ∷ (0x24, 13) ∷ (3, 0) ∷ (0xf1, 0) ∷ []

interrupts-Harmless : Harmless interrupts
interrupts-Harmless = (refl, (refl, (refl, (refl, tt))))

run_all-Ran_example : Ran interrupts started (run_all interrupts started)
run_all-Ran_example = run_all-Ran interrupts started interrupts-Harmless
