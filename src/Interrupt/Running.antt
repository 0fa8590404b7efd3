-- ===== src/Interrupt/Running.antt =====
-- A sequence of interrupts: the clocks count theirs, and the shell sees the bytes of the serial ones.

use ada_os.Base.{
  ℕ, ◌+◌, ◌%◌, ◌^◌, ◌≡◌, refl, ◌∙◌, ap, ap₂, Bool, false, ◌||◌, List, [], ◌∷◌, ◌++◌, ◌==◌,
  if◌then◌else◌, arith, Bool-cases, inl, inr,
}
use ada_os.Serial.Shell.{Shell, Event, rs232_irq}
use ada_os.Serial.Shell.Editing.{feed}
use ada_os.Interrupt.{
  fault, trap, pit_timer, serial, apic_timer, branch, Reply, returned, Machine, Handled, pit_irq,
  apic_timer_irq, exception_handler, handle, run_all,
}

-- How many interrupts have a vector, and the bytes of the serial ones.
pub count_vector : ℕ → List (ℕ × ℕ) → ℕ
count_vector v [] = 0
count_vector v ((w, b) ∷ rest) = (if w == v then 1 else 0) + count_vector v rest

pub serial_bytes : List (ℕ × ℕ) → List ℕ
serial_bytes [] = []
serial_bytes ((w, b) ∷ rest) = if w == 0x24 then b ∷ serial_bytes rest else serial_bytes rest

-- No interrupt of the sequence ends the kernel.
abbrev pub ends_kernel : ℕ → Bool
ends_kernel v =
    (v == 6 || (v == 0xd || v == 0xe))
    || (v == 8 || (v == 0x12 || (v == 0xf2 || (v == 0xf6 || v == 0xff))))

abbrev pub Harmless : List (ℕ × ℕ) → Type 0
Harmless [] = Unit
Harmless ((v, b) ∷ rest) = (ends_kernel v ≡ false) × Harmless rest

-- What one harmless interrupt does to each part of the machine.
record Step (v b : ℕ) (s : Machine) (h : Handled) : Type 0 where
  reply : h.reply ≡ returned
  pit : h.machine.pit_ticks ≡ (if v == 0x20 then (s.pit_ticks + 1) % 2 ^ 64 else s.pit_ticks)
  apic : h.machine.apic_ticks ≡ (if v == 0xf1 then (s.apic_ticks + 1) % 2 ^ 64 else s.apic_ticks)
  shell : h.machine.shell ≡ (if v == 0x24 then (rs232_irq b s.shell).0 else s.shell)
  events : h.events ≡ (if v == 0x24 then (rs232_irq b s.shell).1 else [])

is_trap : ℕ → Bool
is_trap v = v == 1 || (v == 3 || v == 4)

branch-harmless :
    (v : ℕ)
    → ends_kernel v ≡ false
    → branch v ≡ (
        if v == 0x20
        then pit_timer
        else if v == 0x24
        then serial
        else if v == 0xf1
        then apic_timer
        else if is_trap v
        then trap
        else fault)
unfolding branch is_trap
branch-harmless v harmless = ground arith

handle-Step : (v b : ℕ) (s : Machine) → ends_kernel v ≡ false → Step v b s (exception_handler v b s)
unfolding exception_handler handle pit_irq apic_timer_irq
handle-Step v b s harmless =
    let e = branch-harmless v harmless in
    elim (Bool-cases (v == 0x20)) [
      | inl p ↦
          let q : (v == 0x24) ≡ false = ground arith in
          let r : (v == 0xf1) ≡ false = ground arith in
          let k : branch v ≡ pit_timer = e ∙ rw p refl in
          rw k (record {
            reply = refl;
            pit = rw p refl;
            apic = rw r refl;
            shell = rw q refl;
            events = rw q refl;
          })
      | inr p ↦ elim (Bool-cases (v == 0x24)) [
        | inl q ↦
            let r : (v == 0xf1) ≡ false = ground arith in
            let k : branch v ≡ serial = e ∙ rw (p, q) refl in
            rw k (record {
              reply = refl;
              pit = rw p refl;
              apic = rw r refl;
              shell = rw q refl;
              events = rw q refl;
            })
        | inr q ↦ elim (Bool-cases (v == 0xf1)) [
          | inl r ↦
              let k : branch v ≡ apic_timer = e ∙ rw (p, q, r) refl in
              rw k (record {
                reply = refl;
                pit = rw p refl;
                apic = rw r refl;
                shell = rw q refl;
                events = rw q refl;
              })
          | inr r ↦ elim (Bool-cases (is_trap v)) [
            | inl t ↦
                let k : branch v ≡ trap = e ∙ rw (p, q, r, t) refl in
                rw k (record {
                  reply = refl;
                  pit = rw p refl;
                  apic = rw r refl;
                  shell = rw q refl;
                  events = rw q refl;
                })
            | inr t ↦
                let k : branch v ≡ fault = e ∙ rw (p, q, r, t) refl in
                rw k (record {
                  reply = refl;
                  pit = rw p refl;
                  apic = rw r refl;
                  shell = rw q refl;
                  events = rw q refl;
                })
          ]
        ]
      ]
    ]

-- What a sequence of harmless interrupts leaves.
pub record Ran (is : List (ℕ × ℕ)) (s : Machine) (r : Reply × Machine × List Event) : Type 0 where
  pub reply : r.0 ≡ returned
  pub pit : r.1.pit_ticks % 2 ^ 64 ≡ (s.pit_ticks + count_vector 0x20 is) % 2 ^ 64
  pub apic : r.1.apic_ticks % 2 ^ 64 ≡ (s.apic_ticks + count_vector 0xf1 is) % 2 ^ 64
  pub shell : r.1.shell ≡ (feed (serial_bytes is) s.shell).0
  pub events : r.2 ≡ (feed (serial_bytes is) s.shell).1

feed_more :
    (v b : ℕ) (rest : List (ℕ × ℕ)) (s : Shell)
    → ((feed (serial_bytes rest) (if v == 0x24 then (rs232_irq b s).0 else s)).0
        ≡ (feed (serial_bytes ((v, b) ∷ rest)) s).0)
      × ((if v == 0x24 then (rs232_irq b s).1 else [])
            ++ (feed (serial_bytes rest) (if v == 0x24 then (rs232_irq b s).0 else s)).1
          ≡ (feed (serial_bytes ((v, b) ∷ rest)) s).1)
unfolding serial_bytes feed
feed_more v b rest s = elim (Bool-cases (v == 0x24)) [
  | inl yes' ↦ rw yes' (refl, refl)
  | inr no' ↦ rw no' (refl, refl)
]

-- Over a sequence of interrupts none of which ends the kernel, all handlers return; the clocks
-- advance, as words of 64 bits, by the numbers of their interrupts; and the shell does what it does
-- on the bytes of the serial interrupts alone.
pub run_all-Ran : (is : List (ℕ × ℕ)) (s : Machine) → Harmless is → Ran is s (run_all is s)
unfolding run_all count_vector serial_bytes feed
run_all-Ran [] s h = record {
  reply = refl;
  pit = omega arith;
  apic = omega arith;
  shell = refl;
  events = refl;
}
run_all-Ran ((v, b) ∷ rest) s h =
    let k = handle-Step v b s h.0 in
    let r = run_all-Ran rest (exception_handler v b s).machine h.1 in
    let (shell, events) = feed_more v b rest s.shell in
    rw (k.reply) (record {
      reply = r.reply;
      pit = ground (arith, r.pit, k.pit);
      apic = ground (arith, r.apic, k.apic);
      shell = r.shell ∙ ap (λ (t : Shell). (feed (serial_bytes rest) t).0) k.shell ∙ shell;
      events =
          ap₂ (λ (x y : List Event). x ++ y) k.events
            (r.events ∙ ap (λ (t : Shell). (feed (serial_bytes rest) t).1) k.shell)
          ∙ events;
    })
