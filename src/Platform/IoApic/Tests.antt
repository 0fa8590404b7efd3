-- ===== src/Platform/IoApic/Tests.antt =====
-- One controller and one override, and page tables that have nothing yet.
use ada_os.Base.{ℕ, ◌≡◌, List, [], ◌∷◌, ◌==◌, if◌then◌else◌, panicked, Settles, arith}
use ada_os.Memory.Layout.{Boot}
use ada_os.Memory.Physical.{Pmm}
use ada_os.Platform.IoApic.{Store, Apic, Override, IoApic, setup_io_apic}
use ada_os.Platform.IoApic.Setup.{Quiet, setup_io_apic-Quiet, setup_io_apic-rejects}

abbrev boot : Boot
boot = record {
  physical_base = 0x200000;
  virtual_base = 0xffff_ffff_8000_0000;
  hhdm_offset = 0x8000_0000_0000;
  executable_size = 0x50000;
}

abbrev pages : Pmm
pages = record {
  page_bitmap = λ _. 0;
  page_mappings = λ _. record { offset = 0x100000; page_start_index = 0; page_end_index = 4096 };
  last_used_mapping = 0;
  last_page_used = 1;
  free_pages = 0x100001;
  used_pages = 0;
  chunk_count = 1;
  memory = λ _. 0;
}

abbrev initial : IoApic
initial = record {
  io_apic_system_int_base = 0;
  io_apic_max_entries = 0;
  pages = pages;
  stores = [];
}

-- the register that was selected last gives the number 2 at 0, and 24 entries at 1
abbrev read : List Store → ℕ → ℕ
read [] address = 0
read (s ∷ ss) address = if s.value == 0 then 0x0200_0000 else 0x0017_0011

abbrev apic : Apic
apic = record { io_apic_id = 2; io_apic_address = 0xfec0_0000; global_system_int_base = 0 }

abbrev timer : Override
timer = record { global_system_int = 2; flags = 0 }

setup_io_apic-Quiet_example :
    Settles
      (Quiet read boot 0x8000_0000_1000 0x9000 (timer ∷ []) (apic ∷ []) initial)
      (setup_io_apic read boot 0x8000_0000_1000 0x9000 (timer ∷ []) (apic ∷ []) initial)
setup_io_apic-Quiet_example =
    setup_io_apic-Quiet read boot 0x8000_0000_1000 0x9000 (timer ∷ []) (apic ∷ []) initial

setup_io_apic-rejects_example :
    setup_io_apic read boot 0x8000_0000_1000 0x9000 (timer ∷ []) (apic ∷ []) initial ≡ panicked
setup_io_apic-rejects_example =
    setup_io_apic-rejects read boot 0x8000_0000_1000 0x9000 (timer ∷ []) apic [] initial
      (omega arith) (omega arith) (omega arith)
