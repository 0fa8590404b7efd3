-- ===== src/Kmain.antt =====
-- kernel/src/core.c: `kmain`, which sets the parts up one after the other, in three phases: the
-- devices, the memory managers, and the controllers. What the hardware and the boot loader give is
-- `Environment`. The text of the banner, log output, the names of the processor and the speaker's sound are left
-- out, and so is the register IA32_EFER, which is only reported.
pub mod Managing
pub mod Devices
pub mod Booting
pub mod Controllers
mod Tests
use ada_os.Base.{
  ℕ, zero, suc, ◌+◌, ◌-◌, ◌*◌, ◌/◌, ◌%◌, ◌^◌, Bool, true, false, ◌&&◌, ◌||◌, not, List, [], ◌∷◌,
  Option, none, some, ltb, ◌==◌, if◌then◌else◌, Outcome, done, panicked, ◌>>=◌,
}
use ada_os.Core.{Memory}
use ada_os.Memory.Layout.{add64, sub64, mul64, Boot}
use ada_os.Memory.Map
use ada_os.Memory.Physical.{Pmm, pp_alloc, pp_free, setup_pmm}
use ada_os.Memory.Virtual.{null, Sections, Framebuffer, Paging, setup_vmm}
use ada_os.Memory.Virtual.Source.{kernel_pages}
use ada_os.Memory.Heap.{Heap, kmalloc, kfree, setup_heap}
use ada_os.Crypt.Random.{MtState, setup_random}
use ada_os.Serial.Port.{setup_serial}
use ada_os.Platform.Pic.{Out}
use ada_os.Platform.Pit.{pit_goal_frequency, pit_sleep_ms, apic_sleep_ms}
use ada_os.Platform.Apic
use ada_os.Platform.Apic.{bootstrap_apic}
use ada_os.Platform.Acpi.{Madt, load32}
use ada_os.Platform.Acpi.Tables.{Loaded, bootstrap_acpi}
use ada_os.Platform.IoApic
use ada_os.Platform.IoApic.{Store, Override, setup_io_apic}
use ada_os.Util.State.{
  GlobalState, set_state, framebuffer_initialized, cpuid_supported, gdt_initialized,
  idt_initialized, pic_initialized, pit_initialized, pmm_initialized, vmm_initialized,
  heap_initialized, apic_initialized, pit_timer_running, serial_interrupt_initialized,
}

-- A clock that is read before and after a wait, and the reads of the wait itself.
pub record Clock : Type 0 where
  pub before : ℕ
  pub reads : ℕ → ℕ
  pub after : ℕ

-- What the boot loader and the hardware give. The waits have `fuel` rounds.
pub record Environment : Type 0 where
  pub base_revision_supported : Bool
  pub timestamp : ℕ
  pub cpuid_there : Bool
  pub scratch : ℕ
  pub loopback : ℕ
  pub fuel : ℕ
  pub pit_test : Clock
  pub chime : ℕ → ℕ
  pub calibration : ℕ → ℕ
  pub apic_test : Clock
  pub pit_during_apic_test : Clock
  pub boot : Boot
  pub entries : List Map.Entry
  pub bitmap : ℕ
  pub sections : Sections
  pub framebuffer : Framebuffer
  pub inb : ℕ → ℕ
  pub read : List Store → ℕ → ℕ
  pub msr : ℕ
  pub tables : Memory
  pub rsdp : ℕ
  pub uninitialised : ℕ
  pub entry_address : ℕ

-- Whether a wait of 10 ms took from 9 to 11 ticks.
abbrev pub on_time : Clock → Bool
on_time c = let difference = sub64 c.after c.before in not (ltb 11 difference || ltb difference 9)

-- The values that `setup_serial` sets its flag to, one after the other.
pub set_all : (index : ℕ) → List Bool → GlobalState → GlobalState
set_all index [] s = s
set_all index (b ∷ bs) s = set_all index bs (set_state index (if b then 1 else 0) s)

-- `kmain` up to the test of the timer of the PC.
pub start_devices : Environment → GlobalState → Outcome GlobalState
start_devices e s =
    let s1 = set_state framebuffer_initialized 1 s in
    let s2 = if e.cpuid_there then set_state cpuid_supported 1 s1 else s1 in
    let s3 =
      set_state pic_initialized 1 (set_state idt_initialized 1 (set_state gdt_initialized 1 s2)) in
    let s4 = set_all serial_interrupt_initialized (setup_serial 19200 e.scratch e.loopback).1 s3 in
    pit_sleep_ms e.fuel e.pit_test.reads pit_goal_frequency 10 >>= λ _.
    (if on_time e.pit_test
      then (pit_sleep_ms e.fuel e.chime pit_goal_frequency 40 >>= λ _.
          done (set_state pit_timer_running 1 (set_state pit_initialized 1 s4)))
      else done s4)

-- What the memory managers' setup leaves. The heap's pages are the page allocator's state.
pub record Managed (boot : Boot) : Type 0 where
  pub state : GlobalState
  pub top_level : ℕ
  pub heap : Heap (kernel_pages boot top_level)

-- The tests of a page's and of a heap block's address.
abbrev pub is_page_sane : Boot → ℕ → Bool
is_page_sane boot p = not (p == null) && ltb p boot.hhdm_offset

abbrev pub is_block_sane : Boot → ℕ → Bool
is_block_sane boot p = not (p == null) && ltb boot.hhdm_offset p

-- `KERNEL_HEAP_START`
abbrev pub kernel_heap_start : Boot → ℕ
kernel_heap_start boot = add64 boot.hhdm_offset 0x100_0000_0000

-- From `setup_heap` on.
pub start_heap :
    (boot : Boot) → (top_level : ℕ) → Memory → Pmm → GlobalState → Outcome (Managed boot)
start_heap boot top_level memory pages s =
    let source = kernel_pages boot top_level in
    setup_heap source (kernel_heap_start boot) (record {
      heap_start = 0;
      heap_size = 0;
      free = record { free_list_head = null; memory = memory };
      pages = pages;
    })
    >>= λ h. kmalloc source 6144 h >>= λ p.
        let s' = if is_block_sane boot p.0 then set_state heap_initialized 1 s else s in
        kfree source p.0 p.1 >>= λ h'.
        done (record { state = s'; top_level = top_level; heap = h' })

-- `kmain` from `setup_pmm` to `kfree`.
pub start_memory :
    (e : Environment) → Memory → Pmm → (cr3 : ℕ) → GlobalState → Outcome (Managed e.boot)
start_memory e memory pages cr3 s =
    let boot = e.boot in
    Map.get_memory_descriptor e.entries >>= λ d.
    let chunks = Map.counted_chunks d in
    setup_pmm boot chunks e.bitmap pages >>= λ s1. pp_alloc boot s1 >>= λ p.
    let state1 = if is_page_sane boot p.0 then set_state pmm_initialized 1 s else s in
    pp_free p.1 p.0 >>= λ s2.
    setup_vmm boot e.sections chunks e.framebuffer
      (record { top_level = null; cr3 = cr3; pages = s2 })
    >>= λ v. start_heap boot v.top_level memory v.pages (set_state vmm_initialized 1 state1)

-- The records of a kind that `parse_madt` left, read as the controllers' structures.
pub apics_from : Memory → Madt → (n i : ℕ) → List IoApic.Apic
apics_from m t zero i = []
apics_from m t (suc n) i =
    let a = t.records 1 i in
    record {
      io_apic_id = m a;
      io_apic_address = load32 m (a + 2);
      global_system_int_base = load32 m (a + 6);
    }
    ∷ apics_from m t n (i + 1)

pub overrides_from : Memory → Madt → (n i : ℕ) → List Override
overrides_from m t zero i = []
overrides_from m t (suc n) i =
    let a = t.records 2 i in
    record { global_system_int = load32 m (a + 2); flags = m (a + 6) + 256 * m (a + 7) }
    ∷ overrides_from m t n (i + 1)

-- `setup_io_apic` on what `bootstrap_acpi` left; before, the numbers of records are 0.
pub start_io_apics :
    Environment → (top_level : ℕ) → Option Loaded → IoApic.IoApic → Outcome IoApic.IoApic
start_io_apics e top_level none s = setup_io_apic e.read e.boot top_level e.entry_address [] [] s
start_io_apics e top_level (some t) s =
    setup_io_apic e.read e.boot top_level e.entry_address
      (overrides_from e.tables t.records (t.records.count 2) 0)
      (apics_from e.tables t.records (t.records.count 1) 0) s

-- What `kmain` has when it comes to its end.
pub record Running : Type 0 where
  pub state : GlobalState
  pub random : MtState
  pub acpi : Option Loaded
  pub io_apic : IoApic.IoApic

-- The end of `kmain`, from `setup_io_apic` on.
pub finish :
    (e : Environment)
    → MtState
    → (top_level : ℕ) → GlobalState
    → List Store
    → Pmm × Option Loaded
    → Outcome Running
finish e random top_level state stores acpi =
    start_io_apics e top_level acpi.1 (record {
      io_apic_system_int_base = 0;
      io_apic_max_entries = 0;
      pages = acpi.0;
      stores = stores;
    })
    >>= λ io. done (record { state = state; random = random; acpi = acpi.1; io_apic = io })

-- The test of the local controller's timer, which fails only if both clocks disagree, and the rest.
pub test_timer : Environment → MtState → (top_level : ℕ) → Apic.Started → Outcome Running
test_timer e random top_level a = apic_sleep_ms e.fuel e.apic_test.reads 10 >>= λ _.
    let state =
      if not (on_time e.apic_test) && not (on_time e.pit_during_apic_test)
      then a.state
      else set_state apic_initialized 0xf0 a.state in
    bootstrap_acpi e.boot top_level e.tables e.uninitialised e.rsdp a.pages
    >>= finish e random top_level state a.stores

-- `kmain` from `bootstrap_apic` on.
pub start_controllers : (e : Environment) → MtState → Managed e.boot → Outcome Running
start_controllers e random k =
    bootstrap_apic e.read e.inb (pit_sleep_ms e.fuel e.calibration pit_goal_frequency 600) e.boot
      k.top_level e.msr (record { stores = []; outs = []; state = k.state; pages = k.heap.pages })
    >>= test_timer e random k.top_level

-- `kmain`. `none` where the boot loader does not know the revision of its protocol, and the kernel
-- halts at once. The banner ends with the test of the free memory. The result is what the kernel has when it halts at the end.
pub kmain :
    (e : Environment) → Memory → Pmm → (cr3 : ℕ) → MtState → GlobalState → Outcome (Option Running)
kmain e memory pages cr3 random s =
    if not e.base_revision_supported
    then done none
    else (let random' = setup_random (mul64 e.timestamp 19650218 % 2 ^ 32) random in
        Map.get_memory_descriptor e.entries >>= λ d.
        (if Map.is_insufficient d
          then panicked
          else (start_devices e s >>= λ s1. start_memory e memory pages cr3 s1 >>= λ k.
              start_controllers e random' k >>= λ r. done (some r))))
