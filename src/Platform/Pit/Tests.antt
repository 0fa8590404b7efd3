-- ===== src/Platform/Pit/Tests.antt =====
-- The timer with a clock that ticks at each read.
use ada_os.Base.{ℕ, ◌/◌, ◌≡◌, ◌<◌, ◌↔◌, refl, arith, some, done, spinning, List, [], ◌∷◌}
use ada_os.Platform.Pic.{Out, out}
use ada_os.Platform.Pit.{pit_frequency, set_pit_frequency, pit_sleep_ms, sleep_loop}
use ada_os.Platform.Pit.Divisor.{loaded, loaded-set_pit_frequency}
use ada_os.Platform.Pit.Sleeping.{IsRunning, Slept, pit_sleep_ms-Slept, pit_sleep_ms_zero}

abbrev rising : ℕ → ℕ
rising i = i

rising-IsRunning : IsRunning rising 1
rising-IsRunning = record { forward = λ i. omega arith; goes_on = λ i. omega arith }

-- ten ticks take eleven reads here, of which the tests are every second one
ten_ticks : pit_sleep_ms 11 rising 1000 10 ≡ done 10
unfolding pit_sleep_ms sleep_loop
ten_ticks = refl

pit_sleep_ms-Slept_example :
    (reads : ℕ) × (pit_sleep_ms 11 rising 1000 10 ≡ done reads) × Slept rising 9 reads
pit_sleep_ms-Slept_example =
    pit_sleep_ms-Slept rising 1 rising-IsRunning 11 1000 10 (omega arith) (omega arith)
      (omega arith)

abbrev stopped : ℕ → ℕ
stopped i = 0

pit_sleep_ms_zero_example : pit_sleep_ms 100 stopped 1000 0 ≡ spinning
pit_sleep_ms_zero_example = pit_sleep_ms_zero 100 stopped 1000 refl (λ i. omega arith)

goal_frequency : set_pit_frequency 1000 ≡ some (out 0x43 0x36 ∷ out 0x40 169 ∷ out 0x40 4 ∷ [])
unfolding set_pit_frequency
goal_frequency = refl

loaded-set_pit_frequency_example :
    (outs : List Out) × (set_pit_frequency 1000 ≡ some outs)
    × ((loaded 0x40 outs ≡ pit_frequency / 1000) ↔ (18 < 1000))
loaded-set_pit_frequency_example = loaded-set_pit_frequency 1000 (omega arith)
