-- ===== src/Util/State.antt =====
-- kernel/src/util/state.c: the flags of what is set up. `state` is a record of 12 bytes, which
-- `set_state` writes by their index; here it is a function from the index.
use ada_os.Base.{ℕ, ◌%◌, ◌==◌, if◌then◌else◌}

abbrev pub GlobalState : Type 0
GlobalState = ℕ → ℕ

abbrev pub framebuffer_initialized : ℕ
framebuffer_initialized = 0

abbrev pub cpuid_supported : ℕ
cpuid_supported = 1

abbrev pub gdt_initialized : ℕ
gdt_initialized = 2

abbrev pub idt_initialized : ℕ
idt_initialized = 3

abbrev pub pic_initialized : ℕ
pic_initialized = 4

abbrev pub pit_initialized : ℕ
pit_initialized = 5

abbrev pub pmm_initialized : ℕ
pmm_initialized = 6

abbrev pub vmm_initialized : ℕ
vmm_initialized = 7

abbrev pub heap_initialized : ℕ
heap_initialized = 8

abbrev pub apic_initialized : ℕ
apic_initialized = 9

abbrev pub pit_timer_running : ℕ
pit_timer_running = 10

abbrev pub serial_interrupt_initialized : ℕ
serial_interrupt_initialized = 11

abbrev pub set_state : (index value : ℕ) → GlobalState → GlobalState
set_state index value state i = if i == index then value % 256 else state i
