-- ===== src/Platform/Pit.antt =====
-- kernel/src/platform/x86_64/pit.c: the timer of the PC, its speaker, and waiting for ticks. What a
-- port gives and what `get_pit_ticks` gives, read after read, are parameters.
pub mod Sleeping
pub mod Divisor
mod Tests
use ada_os.Base.{
  ℕ, zero, suc, ◌+◌, ◌-◌, ◌*◌, ◌/◌, ◌%◌, ◌^◌, List, [], ◌∷◌, ◌++◌, Option, none, some, ltb, ◌==◌,
  not, if◌then◌else◌, bit_and, bit_or, Outcome, done, spinning,
}
use ada_os.Memory.Layout.{add64, sub64}
use ada_os.Platform.Pic.{Out, out, unmask_irq}

abbrev pub pit_frequency : ℕ
pit_frequency = 1193182

abbrev pub pit_goal_frequency : ℕ
pit_goal_frequency = 1000

-- The three writes of a divisor; a port takes a `uint8_t`. `none` is the division by zero.
abbrev program_channel : (mode port frequency : ℕ) → Option (List Out)
program_channel mode port frequency =
    if frequency == 0
    then none
    else (let divisor = pit_frequency / frequency in
        some (out 0x43 mode ∷ out port (divisor % 256) ∷ out port (divisor / 256 % 256) ∷ []))

pub set_pit_frequency : ℕ → Option (List Out)
set_pit_frequency frequency = program_channel 0x36 0x40 frequency

unfoldable pub set_speaker_frequency : ℕ → Option (List Out)
set_speaker_frequency frequency = program_channel 0xb6 0x42 frequency

-- `play_sound`, where `tmp` is what port 0x61 gives.
unfoldable pub play_sound : (tmp frequency : ℕ) → List Out
unfolding set_speaker_frequency
play_sound tmp frequency =
    let gate = if not (bit_and tmp 3 == 3) then out 0x61 (bit_or tmp 3) ∷ [] else [] in
    elim (set_speaker_frequency frequency) [ none ↦ [] | some outs ↦ outs ++ gate ]

unfoldable pub sound_off : (tmp : ℕ) → Out
sound_off tmp = out 0x61 (bit_and tmp 0xfc)

-- The loop of `pit_sleep_ms` and of `apic_sleep_ms`. `ticks i` is what read `i` of the tick counter
-- gives; the processor halts between two rounds. The result is the number of reads.
pub sleep_loop : (fuel : ℕ) → (ticks : ℕ → ℕ) → (span i start end : ℕ) → Outcome ℕ
sleep_loop zero ticks span i start end = spinning
sleep_loop (suc fuel) ticks span i start end =
    let current = ticks (i + 1) in
    let rest =
      if ltb current start
      then sleep_loop fuel ticks span (i + 2) current (add64 current span)
      else sleep_loop fuel ticks span (i + 2) start end in
    if ltb (ticks i) end then rest else done (i + 1)

-- `(ms * timer_goal_frequency) / 1000` on a `uint32_t`.
abbrev pub span_of : (ms goal_frequency : ℕ) → ℕ
span_of ms goal_frequency = ms * goal_frequency % 2 ^ 32 / 1000

-- `pit_sleep_ms`, after it has set the frequency again: read 0 is `start_ticks`.
pub pit_sleep_ms : (fuel : ℕ) → (ticks : ℕ → ℕ) → (goal_frequency ms : ℕ) → Outcome ℕ
unfolding sleep_loop
pit_sleep_ms fuel ticks goal_frequency ms =
    let span = span_of ms goal_frequency in
    sleep_loop fuel ticks span 1 (ticks 0) (sub64 (add64 (ticks 0) span) 1)

-- `apic_sleep_ms` of kernel/src/platform/x86_64/apic.c, with one tick in a millisecond.
pub apic_sleep_ms : (fuel : ℕ) → (ticks : ℕ → ℕ) → (ms : ℕ) → Outcome ℕ
unfolding sleep_loop
apic_sleep_ms fuel ticks ms = sleep_loop fuel ticks ms 1 (ticks 0) (add64 (ticks 0) ms)

-- `setup_pit`: what is written, and `timer_goal_frequency`.
pub setup_pit : (inb : ℕ → ℕ) → Option (List Out) × ℕ
unfolding set_pit_frequency
setup_pit inb = (
  elim (set_pit_frequency pit_goal_frequency) [
    | none ↦ none
    | some outs ↦ some (outs ++ unmask_irq inb 0 ∷ [])
  ],
  pit_goal_frequency,
)
