-- ===== src/Util/Panic/Halting.antt =====
-- A panic comes to its halt, and leaves the speaker silent.
use ada_os.Base.{bit_or}
use ada_os.Base.{◌/◌}
use ada_os.Base.{
  ℕ, zero, suc, ◌+◌, ◌*◌, ◌%◌, ◌^◌, ◌<◌, ◌≡◌, refl, ◌∙◌, ap, Bool, true, false, ◌&&◌, not, List, [],
  ◌∷◌, ◌++◌, ltb, ◌==◌, ==_iff, if◌then◌else◌, Bool-cases, inl, inr, arith, bit_and, holds_below,
  holds_below-at, done,
}
use ada_os.Util.State.{GlobalState}
use ada_os.Platform.Pic.{Out}
use ada_os.Platform.Pic.Masks.{last_write}
use ada_os.Platform.Pit.{pit_goal_frequency, play_sound, sound_off, set_speaker_frequency}
use ada_os.Platform.Pit.Divisor.{loaded}
use ada_os.Platform.Pit.Sleeping.{IsRunning, pit_sleep_ms-Slept, apic_sleep_ms-Slept}
use ada_os.Util.Panic.{Speaker, panic_sound_frequency, has_apic, beep, beeps, panic}

-- The clocks of all waits go on, and the port gives bytes.
pub record Ready (e : Speaker) : Type 0 where
  pub gap : ℕ
  pub tone : (i : ℕ) → IsRunning (e.tone i) gap
  pub pause : (i : ℕ) → IsRunning (e.pause i) gap
  pub early : (i : ℕ) → (e.tone i 0 + 200 < 2 ^ 64) × (e.pause i 0 + 200 < 2 ^ 64)
  pub enough : 200 * gap < e.fuel
  pub byte : (i : ℕ) → e.gate_off i < 256
  pub byte_on : (i : ℕ) → e.gate_on i < 256

-- The writes of one beep: they load the speaker's channel with the divisor of 400 Hz and open its gate,
-- where the port gives `gate` before; and they shut the gate at the end.
pub record Beep (gate : ℕ) (outs : List Out) : Type 0 where
  pub on : List Out
  pub off : Out
  pub parts : outs ≡ on ++ off ∷ []
  pub divisor : loaded 0x42 on ≡ 1193182 / 400
  pub opens : last_write 0x61 on gate % 4 ≡ 3
  pub shuts : (off.port ≡ 0x61) × (off.value % 4 ≡ 0)

-- So many beeps one after the other, from beep `i` on.
pub data Beeps (e : Speaker) : (rounds i : ℕ) → List Out → Type 0 where
  silence : (i : ℕ) → Beeps e 0 i []
  sound :
      {rounds i : ℕ} {outs later : List Out}
      → Beep (e.gate_on i) outs
      → Beeps e rounds (i + 1) later
      → Beeps e (suc rounds) i (outs ++ later)

last_write-++ :
    (port : ℕ) (xs ys : List Out) (old : ℕ)
    → last_write port (xs ++ ys) old ≡ last_write port ys (last_write port xs old)
unfolding last_write
last_write-++ port [] ys old = refl
last_write-++ port (o ∷ os) ys old = last_write-++ port os ys _

-- What beep `i` writes.
abbrev written : Speaker → ℕ → List Out
written e i = play_sound (e.gate_on i) panic_sound_frequency ++ sound_off (e.gate_off i) ∷ []

beep_lem : (e : Speaker) (s : GlobalState) (i : ℕ) → Ready e → beep e s i ≡ done (written e i)
unfolding beep
beep_lem e s i r =
    let (n, on, at_on) =
      apic_sleep_ms-Slept (e.tone i) r.gap (r.tone i) e.fuel 200 (omega (arith, r.early i))
        (omega (arith, r.enough)) in
    let (n', off, at_off) =
      apic_sleep_ms-Slept (e.pause i) r.gap (r.pause i) e.fuel 200 (omega (arith, r.early i))
        (omega (arith, r.enough)) in
    let (n'', slept, at_end) =
      pit_sleep_ms-Slept (e.tone i) r.gap (r.tone i) e.fuel pit_goal_frequency 200 (omega arith)
        (omega (arith, r.early i)) (omega (arith, r.enough)) in
    elim (Bool-cases (has_apic s)) [
      | inl there ↦ rw (there, on, off) refl
      | inr absent ↦ rw (absent, slept) refl
    ]

-- What the beeps write.
all_written : (rounds i : ℕ) → Speaker → List Out
all_written zero i e = []
all_written (suc rounds) i e = written e i ++ all_written rounds (i + 1) e

beeps_lem :
    (rounds i : ℕ) (e : Speaker) (s : GlobalState)
    → Ready e
    → beeps rounds i e s ≡ done (all_written rounds i e)
unfolding beeps all_written
beeps_lem zero i e s r = refl
beeps_lem (suc rounds) i e s r = rw (beep_lem e s i r, beeps_lem rounds (i + 1) e s r) refl

silent_table : holds_below (λ x. bit_and x 0xfc % 4 == 0) 256 ≡ true
unfolding holds_below
silent_table = refl

silent : (x : ℕ) → x < 256 → bit_and x 0xfc % 4 ≡ 0
silent x h = (==_iff _ _).0 (holds_below-at (λ y. bit_and y 0xfc % 4 == 0) 256 h silent_table)

open_table : holds_below (λ x. bit_or x 3 % 4 == 3) 256 ≡ true
unfolding holds_below
open_table = refl

opened : (x : ℕ) → x < 256 → bit_or x 3 % 4 ≡ 3
opened x h = (==_iff _ _).0 (holds_below-at (λ y. bit_or y 3 % 4 == 3) 256 h open_table)

low_bits_table : holds_below (λ x. bit_and x 3 == x % 4) 256 ≡ true
unfolding holds_below
low_bits_table = refl

low_bits : (x : ℕ) → x < 256 → bit_and x 3 ≡ x % 4
low_bits x h = (==_iff _ _).0 (holds_below-at (λ y. bit_and y 3 == y % 4) 256 h low_bits_table)

written-Beep : (e : Speaker) (i : ℕ) → Ready e → Beep (e.gate_on i) (written e i)
unfolding play_sound sound_off set_speaker_frequency last_write loaded
written-Beep e i r = record {
  on = play_sound (e.gate_on i) panic_sound_frequency;
  off = sound_off (e.gate_off i);
  parts = refl;
  divisor = elim (Bool-cases (bit_and (e.gate_on i) 3 == 3)) [
    | inl on ↦ rw on refl
    | inr off ↦ rw off refl
  ];
  opens = elim (Bool-cases (bit_and (e.gate_on i) 3 == 3)) [
    | inl on ↦ rw on (omega (arith, low_bits (e.gate_on i) (r.byte_on i), (==_iff _ _).0 on))
    | inr off ↦ rw off (opened (e.gate_on i) (r.byte_on i))
  ];
  shuts = (refl, silent (e.gate_off i) (r.byte i));
}

last_write-written :
    (e : Speaker) (i old : ℕ) → last_write 0x61 (written e i) old ≡ bit_and (e.gate_off i) 0xfc
unfolding last_write sound_off
last_write-written e i old =
    last_write-++ 0x61 (play_sound (e.gate_on i) panic_sound_frequency)
      (sound_off (e.gate_off i) ∷ []) old

all_written-Beeps :
    (rounds i : ℕ) (e : Speaker) → Ready e → Beeps e rounds i (all_written rounds i e)
unfolding all_written
all_written-Beeps zero i e r = silence i
all_written-Beeps (suc rounds) i e r =
    sound (written-Beep e i r) (all_written-Beeps rounds (i + 1) e r)

-- The gate of the speaker after some beeps.
gate-all_written :
    (rounds i : ℕ) (e : Speaker) (old : ℕ)
    → Ready e
    → last_write 0x61 (all_written rounds i e) old % 4 ≡ (if rounds == 0 then old % 4 else 0)
unfolding last_write all_written
gate-all_written zero i e old r = refl
gate-all_written (suc rounds) i e old r =
    let gate = bit_and (e.gate_off i) 0xfc in
    let shut = silent (e.gate_off i) (r.byte i) in
    let later = gate-all_written rounds (i + 1) e gate r in
    let step : last_write 0x61 (written e i ++ all_written rounds (i + 1) e) old
        ≡ last_write 0x61 (all_written rounds (i + 1) e) gate =
      last_write-++ 0x61 (written e i) (all_written rounds (i + 1) e) old
      ∙ ap (last_write 0x61 (all_written rounds (i + 1) e)) (last_write-written e i old) in
    ap (λ (x : ℕ). x % 4) step ∙ ground (arith, shut, later)

-- Whether a panic beeps: the first one, if the timer of the PC is set up.
abbrev pub is_heard : GlobalState → (panics : ℕ) → Bool
is_heard s panics = panics == 0 && not (s 5 == 0)

-- What a panic that has come to its halt leaves.
pub record Halted (e : Speaker) (s : GlobalState) (panics : ℕ) (panics' : ℕ) (outs : List Out)
    : Type 0 where
  pub count : panics' ≡ (if panics == 0 then 1 else panics)
  pub sounds : Beeps e (if is_heard s panics then 6 else 0) 0 outs
  pub gate : (old : ℕ) → last_write 0x61 outs old % 4 ≡ (if is_heard s panics then 0 else old % 4)

-- While the clocks go on within `gap` rounds and do not wrap, with fuel for 200 ticks, a panic comes to
-- its halt, in whatever state the kernel is. The first one is counted. If the timer of the PC is set
-- up, it makes six beeps: each loads the speaker's channel with the divisor of 400 Hz, opens the gate
-- and shuts it, and the speaker is off at the end. A panic within a panic, or before the timer is set
-- up, writes nothing to the speaker. The port of the speaker gives bytes.
pub panic-Halted :
    (e : Speaker) (s : GlobalState) (panics : ℕ)
    → Ready e
    → (panics' : ℕ) × (outs : List Out) × (panic e s panics ≡ done (panics', outs))
      × Halted e s panics panics' outs
unfolding panic last_write
panic-Halted e s zero r = elim (Bool-cases (s 5 == 0)) [
  | inl unset ↦ (
    1,
    [],
    rw unset refl,
    record { count = refl; sounds = rw unset (silence 0); gate = λ old. rw unset refl },
  )
  | inr set ↦ (
    1,
    all_written 6 0 e,
    rw (set, beeps_lem 6 0 e s r) refl,
    record {
      count = refl;
      sounds = rw set (all_written-Beeps 6 0 e r);
      gate = λ old. rw set (gate-all_written 6 0 e old r);
    },
  )
]
panic-Halted e s (suc n) r =
    let again : ltb 0 (suc n) ≡ true = ground arith in
    let counted : (suc n == 0) ≡ false = ground arith in
    (
      suc n,
      [],
      rw again refl,
      record {
        count = rw counted refl;
        sounds = rw counted (silence 0);
        gate = λ old. rw counted refl;
      },
    )
