-- ===== src/Platform/Apic.antt =====
-- kernel/src/platform/x86_64/apic.c: the local interrupt controller and its timer. Its registers lie
-- in memory; what a read gives there is a parameter, over the stores before it.
pub mod Starting
mod Tests
use ada_os.Base.{
  ℕ, zero, suc, ◌+◌, ◌-◌, ◌*◌, ◌/◌, ◌%◌, ◌^◌, Bool, true, false, ◌&&◌, not, List, [], ◌∷◌, ltb,
  ◌==◌, if◌then◌else◌, bit_at, Outcome, done, panicked, ◌>>=◌,
}
use ada_os.Memory.Layout.{add64, Boot}
use ada_os.Memory.Physical.{Pmm}
use ada_os.Memory.Virtual.{map_page, pte_nx, pte_pcd, pte_writable}
use ada_os.Platform.IoApic.{Store}
use ada_os.Platform.Pic.{Out, unmask_irq}
use ada_os.Util.State.{GlobalState, set_state, pit_timer_running}

pub record LocalApic : Type 0 where
  pub bootstrap_processor : ℕ
  pub x2_apic_enabled : ℕ
  pub apic_enabled : ℕ
  pub apic_address : ℕ

-- `get_apic`, where `msr` is the model-specific register IA32_APIC_BASE.
pub get_apic : (msr : ℕ) → Outcome LocalApic
get_apic msr =
    let apic_enabled = bit_at msr 11 in
    let x2_apic_enabled = bit_at msr 10 in
    if apic_enabled == 0 && not (x2_apic_enabled == 0)
    then panicked
    else if apic_enabled == 0
    then panicked
    else done (record {
      bootstrap_processor = bit_at msr 8;
      x2_apic_enabled = x2_apic_enabled;
      apic_enabled = apic_enabled;
      apic_address = msr / 4096 * 4096;
    })

-- The registers by their offsets.
abbrev pub apic_version : ℕ
apic_version = 0x30

abbrev pub apic_eoi : ℕ
apic_eoi = 0xb0

abbrev pub apic_spurious_int_vector : ℕ
apic_spurious_int_vector = 0xf0

abbrev pub apic_icr_low : ℕ
apic_icr_low = 0x300

abbrev pub apic_icr_high : ℕ
apic_icr_high = 0x310

abbrev pub apic_lvt_timer : ℕ
apic_lvt_timer = 0x320

abbrev pub apic_timer_initial_count : ℕ
apic_timer_initial_count = 0x380

abbrev pub apic_timer_current_count : ℕ
apic_timer_current_count = 0x390

abbrev pub apic_timer_divide_config : ℕ
apic_timer_divide_config = 0x3e0

abbrev pub write_register : (apic_virt offset value : ℕ) → List Store → List Store
write_register apic_virt offset value stores =
    record { address = add64 apic_virt offset; value = value } ∷ stores

-- `send_eio`
pub send_eio : (apic_virt : ℕ) → List Store → List Store
send_eio apic_virt stores = write_register apic_virt apic_eoi 0 stores

-- `write_icr` on the 32 bits of the command; the warning is left out.
pub write_icr : (apic_virt icr apic_id : ℕ) → List Store → List Store
write_icr apic_virt icr apic_id stores =
    write_register apic_virt apic_icr_low icr
      (write_register apic_virt apic_icr_high (apic_id / 2 ^ 24) stores)

-- `icr_t` of `send_ipi`: the vector and `not_init_level`, which is the bit 14.
pub send_ipi : (apic_virt apic_id isr_index : ℕ) → List Store → List Store
unfolding write_icr
send_ipi apic_virt apic_id isr_index stores =
    write_icr apic_virt (isr_index % 256 + 2 ^ 14) apic_id stores

-- What starting the local controller changes.
pub record Started : Type 0 where
  pub stores : List Store
  pub outs : List Out
  pub state : GlobalState
  pub pages : Pmm

module _ (read : List Store → ℕ → ℕ) (inb : ℕ → ℕ) (sleep_600 : Outcome ℕ) where
  abbrev pub read_register : (apic_virt offset : ℕ) → List Store → ℕ
  read_register apic_virt offset stores = read stores (add64 apic_virt offset) % 2 ^ 32

  -- How far the timer counts down in a millisecond: it counted for 600 of them.
  abbrev pub ticks_1ms : (apic_virt : ℕ) → List Store → ℕ
  ticks_1ms apic_virt stores =
      (0xffff_ffff - read_register apic_virt apic_timer_current_count stores) / 600

  -- `apic_start_timer`; `sleep_600` is `pit_sleep_ms(600)`.
  pub apic_start_timer : (apic_virt : ℕ) → Started → Outcome Started
  apic_start_timer apic_virt s =
      let counting =
        write_register apic_virt apic_timer_initial_count 0xffff_ffff
          (write_register apic_virt apic_timer_divide_config 3 s.stores) in
      sleep_600 >>= λ _.
      let stopped = write_register apic_virt apic_lvt_timer (2 ^ 16) counting in
      done (record s {
        stores = write_register apic_virt apic_timer_initial_count (ticks_1ms apic_virt stopped) (
            write_register apic_virt apic_timer_divide_config 3
              (write_register apic_virt apic_lvt_timer (0xf1 + 0x20000) stopped));
        outs = unmask_irq inb 0 ∷ s.outs;
        state = set_state pit_timer_running 0 s.state;
      })

  -- `bootstrap_apic`
  pub bootstrap_apic : Boot → (top_level msr : ℕ) → Started → Outcome Started
  bootstrap_apic boot top_level msr s = get_apic msr >>= λ apic.
      let apic_virt = add64 apic.apic_address boot.hhdm_offset in
      map_page boot top_level apic_virt apic.apic_address (pte_writable + pte_nx + pte_pcd) s.pages
      >>= λ r.
          (if not r.0
            then panicked
            else if ltb (read_register apic_virt apic_version s.stores) 0x10
            then panicked
            else (let enabled = write_register apic_virt apic_spurious_int_vector 0x1f0 s.stores in
                if not (read_register apic_virt apic_spurious_int_vector enabled == 0x1f0)
                then panicked
                else apic_start_timer apic_virt (record s { stores = enabled; pages = r.1 })))
