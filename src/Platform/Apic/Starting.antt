-- ===== src/Platform/Apic/Starting.antt =====
-- How the start of the local controller ends, and what it leaves in the timer.
use ada_os.Base.{◌-◌}
use ada_os.Base.{
  ℕ, ◌*◌, ◌/◌, ◌%◌, ◌^◌, ◌≤◌, ◌<◌, ◌≡◌, ◌≢◌, refl, ◌∙◌, inl, inr, Bool, true, false, ◌&&◌, not,
  List, [], ◌∷◌, Option, none, some, ltb, ltb→ge, ◌==◌, ==_iff, if◌then◌else◌, arith, Bool-cases,
  bit_at, Outcome, done, Ends, done-Ends, >>=-Ends, if-Ends, Returns-Ends,
}
use ada_os.Memory.Layout.{add64, Boot}
use ada_os.Memory.Physical.{Pmm}
use ada_os.Memory.Virtual.Returning.{map_page-Returns}
use ada_os.Platform.IoApic.{Store}
use ada_os.Util.State.{pit_timer_running}
use ada_os.Platform.Apic.{
  LocalApic, get_apic, Started, apic_version, apic_spurious_int_vector, apic_lvt_timer,
  apic_timer_initial_count, apic_start_timer, bootstrap_apic, write_icr, write_register,
}

-- What was stored last at an address.
pub last_store : (address : ℕ) → List Store → Option ℕ
last_store address [] = none
last_store address (s ∷ ss) = if s.address == address then some s.value else last_store address ss

-- The stores up to the one that stops the timer, the last one in front.
abbrev pub until_stopped : (v : ℕ) → List Store → List Store
until_stopped v stores =
    record { address = add64 v 0x320; value = 65536 }
    ∷ record { address = add64 v 0x380; value = 0xffff_ffff }
    ∷ record { address = add64 v 0x3e0; value = 3 }
    ∷ record { address = add64 v 0xf0; value = 0x1f0 }
    ∷ stores

-- What holds when `bootstrap_apic` returns, for the registers at `v`: the controller was enabled and
-- new enough; the flag of the timer of the PC is off, and no other flag has changed; and the timer
-- of the controller runs, divided by 16, in its periodic mode on the vector 0xf1, from the 600th part
-- of what it had counted down by when it was stopped.
pub record IsStarted (read : List Store → ℕ → ℕ) (v msr : ℕ) (s s' : Started) : Type 0 where
  pub enabled : bit_at msr 11 ≡ 1
  pub version : 0x10 ≤ read s.stores (add64 v apic_version) % 2 ^ 32
  pub state : (i : ℕ) → s'.state i ≡ (if i == pit_timer_running then 0 else s.state i)
  pub count :
      last_store (add64 v apic_timer_initial_count) s'.stores
      ≡ some ((0xffff_ffff - read (until_stopped v s.stores) (add64 v 0x390) % 2 ^ 32) / 600)
  pub divide : last_store (add64 v 0x3e0) s'.stores ≡ some 3
  pub mode : last_store (add64 v apic_lvt_timer) s'.stores ≡ some 0x200f1
  pub vector : last_store (add64 v apic_spurious_int_vector) s'.stores ≡ some 0x1f0

one_bit : (x : ℕ) → (x % 2 == 0) ≡ false → x % 2 ≡ 1
one_bit x h = ground (arith, h)

get_apic-Ends :
    (msr : ℕ)
    → Ends
        (λ (a : LocalApic). (bit_at msr 11 ≡ 1) × (a.apic_address ≡ msr / 4096 * 4096))
        (get_apic msr)
unfolding get_apic bit_at
get_apic-Ends msr =
    if-Ends _ (bit_at msr 11 == 0 && not (bit_at msr 10 == 0)) (λ x2. inl refl)
      (λ plain.
        if-Ends _ (bit_at msr 11 == 0) (λ off. inl refl)
          (λ on. done-Ends _ _ (one_bit (msr / 2 ^ 11) on, refl)))

-- Registers at different offsets are different.
offset_apart : (v a b : ℕ) → a < 4096 → b < 4096 → a ≢ b → (add64 v b == add64 v a) ≡ false
offset_apart v a b ha hb ne = elim (Bool-cases (add64 v b == add64 v a)) [
  | inl e ↦ absurd (ne (omega (arith, (==_iff (add64 v b) (add64 v a)).0 e)))
  | inr other ↦ other
]

hit :
    (v a value : ℕ) (ss : List Store)
    → last_store (add64 v a) (write_register v a value ss) ≡ some value
unfolding last_store
hit v a value ss = let e : (add64 v a == add64 v a) ≡ true = (==_iff _ _).1 refl in rw e refl

miss :
    (v a b value : ℕ) (ss : List Store)
    → a < 4096
    → b < 4096
    → a ≢ b
    → last_store (add64 v a) (write_register v b value ss) ≡ last_store (add64 v a) ss
unfolding last_store
miss v a b value ss ha hb ne = rw (offset_apart v a b ha hb ne) refl

module _ (read : List Store → ℕ → ℕ) (inb : ℕ → ℕ) {sleep_600 : Outcome ℕ} {reads : ℕ}
    (slept : sleep_600 ≡ done reads) where
  apic_start_timer-IsStarted :
      (v msr : ℕ) (s : Started) (pages : Pmm)
      → bit_at msr 11 ≡ 1
      → 0x10 ≤ read s.stores (add64 v apic_version) % 2 ^ 32
      → Ends (IsStarted read v msr s) (
          apic_start_timer read inb sleep_600 v (record s {
            stores = write_register v apic_spurious_int_vector 0x1f0 s.stores;
            pages = pages;
          }))
  unfolding apic_start_timer
  apic_start_timer-IsStarted v msr s pages on version = rw slept (
      done-Ends _ _ (record {
        enabled = on;
        version = version;
        state = λ i. refl;
        count = hit v 0x380 _ _;
        divide =
            miss v 0x3e0 0x380 _ _ (omega arith) (omega arith) (λ e. omega (arith, e))
            ∙ hit v 0x3e0 _ _;
        mode =
            miss v 0x320 0x380 _ _ (omega arith) (omega arith) (λ e. omega (arith, e))
            ∙ miss v 0x320 0x3e0 _ _ (omega arith) (omega arith) (λ e. omega (arith, e))
            ∙ hit v 0x320 _ _;
        vector =
            miss v 0xf0 0x380 _ _ (omega arith) (omega arith) (λ e. omega (arith, e))
            ∙ miss v 0xf0 0x3e0 _ _ (omega arith) (omega arith) (λ e. omega (arith, e))
            ∙ miss v 0xf0 0x320 _ _ (omega arith) (omega arith) (λ e. omega (arith, e))
            ∙ miss v 0xf0 0x320 _ _ (omega arith) (omega arith) (λ e. omega (arith, e))
            ∙ miss v 0xf0 0x380 _ _ (omega arith) (omega arith) (λ e. omega (arith, e))
            ∙ miss v 0xf0 0x3e0 _ _ (omega arith) (omega arith) (λ e. omega (arith, e))
            ∙ hit v 0xf0 _ _;
      }))

  -- Once the clock of the PC lets the pause of 600 ms end, `bootstrap_apic` returns or panics; when it
  -- returns, the controller was enabled and new enough, its timer runs as `IsStarted` says, from the
  -- 600th part of what it had counted down by in the pause, and the flag of the timer of the PC is off.
  pub bootstrap_apic-IsStarted :
      (boot : Boot) (top_level msr : ℕ) (s : Started)
      → Ends
          (IsStarted read (add64 (msr / 4096 * 4096) boot.hhdm_offset) msr s)
          (bootstrap_apic read inb sleep_600 boot top_level msr s)
  unfolding bootstrap_apic
  bootstrap_apic-IsStarted boot top_level msr s =
      >>=-Ends _ _ _ _ (get_apic-Ends msr) (λ apic facts.
        let on = facts.0 in
        let base = facts.1 in
        rw base (
          let v = add64 (msr / 4096 * 4096) boot.hhdm_offset in
          >>=-Ends (λ (r : Bool × Pmm). Unit {0}) _ _ _
            (Returns-Ends _ (map_page-Returns boot top_level _ _ _ s.pages))
            (λ r u.
              if-Ends _ (not r.0) (λ unmapped. inl refl)
                (λ mapped.
                  if-Ends _ (ltb (read s.stores (add64 v apic_version) % 2 ^ 32) 0x10)
                    (λ old. inl refl)
                    (λ new.
                      if-Ends _ _ (λ deaf. inl refl)
                        (λ heard. apic_start_timer-IsStarted v msr s r.1 on (ltb→ge _ _ new)))))))

-- `write_icr` shifts the number of the target controller down instead of up: for any two numbers
-- below 2^24 it stores the same.
pub write_icr_blind :
    (apic_virt icr a b : ℕ) (stores : List Store)
    → a < 2 ^ 24
    → b < 2 ^ 24
    → write_icr apic_virt icr a stores ≡ write_icr apic_virt icr b stores
unfolding write_icr
write_icr_blind apic_virt icr a b stores ha hb =
    let ea : a / 2 ^ 24 ≡ 0 = omega arith in
    let eb : b / 2 ^ 24 ≡ 0 = omega arith in rw (ea, eb) refl
