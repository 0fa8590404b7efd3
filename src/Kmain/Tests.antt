-- ===== src/Kmain/Tests.antt =====
-- A machine whose clocks tick at each read, with one free piece of memory, and whose firmware lists two
-- tables.

use ada_os.Base.{get_or}
use ada_os.Base.{List}
use ada_os.Base.{ltb}
use ada_os.Base.{ℕ, ◌-◌, [], ◌∷◌, ◌==◌, if◌then◌else◌, true, Ends, arith}
use ada_os.Core.{Memory}
use ada_os.Memory.Layout.{Boot}
use ada_os.Memory.Physical.{Pmm}
use ada_os.Crypt.Random.{MtState}
use ada_os.Platform.IoApic.{Store}
use ada_os.Memory.Map.Covering.{in_chunks-get_memory_descriptor}
use ada_os.Kmain.Managing.{HasMappings}
use ada_os.Kmain.{Clock, Environment, start_memory}
use ada_os.Kmain.Managing.{MemoryReady, start_memory-MemoryReady}

abbrev boot : Boot
boot = record {
  physical_base = 0x200000;
  virtual_base = 0xffff_ffff_8000_0000;
  hhdm_offset = 0xffff_8000_0000_0000;
  executable_size = 0x50000;
}

abbrev pages : Pmm
pages = record {
  page_bitmap = λ _. 0;
  page_mappings = λ _. record { offset = 0x100000; page_start_index = 0; page_end_index = 4096 };
  last_used_mapping = 0;
  last_page_used = 1;
  free_pages = 0x100001;
  used_pages = 0;
  chunk_count = 1;
  memory = λ _. 0;
}

-- The firmware, which lies at 0x9000 of the physical memory: the RSDP; the root table, which lists the
-- two tables behind it; a MADT with one I/O controller; and the start of a FADT, zeros from there on.
abbrev firmware : List ℕ
firmware =
    82 ∷ 83 ∷ 68 ∷ 32 ∷ 80 ∷ 84 ∷ 82 ∷ 32 ∷ 61 ∷ 0 ∷ 0 ∷ 0 ∷ 0 ∷ 0 ∷ 0 ∷ 0 ∷ 20 ∷ 144 ∷ 0 ∷ 0 ∷ 82
    ∷ 83 ∷ 68 ∷ 84 ∷ 44 ∷ 0 ∷ 0 ∷ 0 ∷ 0 ∷ 191 ∷ 0 ∷ 0 ∷ 0 ∷ 0 ∷ 0 ∷ 0 ∷ 0 ∷ 0 ∷ 0 ∷ 0 ∷ 0 ∷ 0 ∷ 0
    ∷ 0 ∷ 0 ∷ 0 ∷ 0 ∷ 0 ∷ 0 ∷ 0 ∷ 0 ∷ 0 ∷ 0 ∷ 0 ∷ 0 ∷ 0 ∷ 64 ∷ 144 ∷ 0 ∷ 0 ∷ 120 ∷ 144 ∷ 0 ∷ 0 ∷ 65
    ∷ 80 ∷ 73 ∷ 67 ∷ 56 ∷ 0 ∷ 0 ∷ 0 ∷ 0 ∷ 1 ∷ 0 ∷ 0 ∷ 0 ∷ 0 ∷ 0 ∷ 0 ∷ 0 ∷ 0 ∷ 0 ∷ 0 ∷ 0 ∷ 0 ∷ 0 ∷ 0
    ∷ 0 ∷ 0 ∷ 0 ∷ 0 ∷ 0 ∷ 0 ∷ 0 ∷ 0 ∷ 0 ∷ 0 ∷ 0 ∷ 0 ∷ 0 ∷ 0 ∷ 224 ∷ 254 ∷ 1 ∷ 0 ∷ 0 ∷ 0 ∷ 1 ∷ 12 ∷ 0
    ∷ 0 ∷ 0 ∷ 0 ∷ 192 ∷ 254 ∷ 0 ∷ 0 ∷ 0 ∷ 0 ∷ 70 ∷ 65 ∷ 67 ∷ 80 ∷ 140 ∷ 0 ∷ 0 ∷ 0 ∷ 0 ∷ 234 ∷ 0 ∷ 0
    ∷ 0 ∷ 0 ∷ 0 ∷ 0 ∷ 0 ∷ 0 ∷ 0 ∷ 0 ∷ 0 ∷ 0 ∷ 0 ∷ 0 ∷ 0 ∷ 0 ∷ 0 ∷ 0 ∷ 0 ∷ 0 ∷ 0 ∷ 0 ∷ 0 ∷ 0 ∷ 0 ∷ 0
    ∷ 0 ∷ 112 ∷ 0 ∷ 0 ∷ []

abbrev tables : Memory
tables a = if ltb a 0xffff800000009000 then 0 else get_or firmware (a - 0xffff800000009000) 0

abbrev rising : ℕ → ℕ
rising i = i

abbrev ten_ms : Clock
ten_ms = record { before = 0; reads = rising; after = 10 }

-- The local controller at 0xfee00000, and the I/O controller at 0xfec00000, whose register that was
-- selected last gives the number 0, or 24 entries.
abbrev registers : List Store → ℕ → ℕ
registers [] address = 0x14
registers (s ∷ ss) address =
    if address == 0xffff_8000_fec0_0010
    then (if s.value == 0 then 0 else 0x0017_0011)
    else if address == 0xffff_8000_fee0_00f0
    then 0x1f0
    else if address == 0xffff_8000_fee0_0390
    then 0xffff_ffff - 600000
    else 0x14

abbrev machine : Environment
machine = record {
  base_revision_supported = true;
  timestamp = 1700000000;
  cpuid_there = true;
  scratch = 0x3a;
  loopback = 0x3a;
  fuel = 1000;
  pit_test = ten_ms;
  chime = rising;
  calibration = rising;
  apic_test = ten_ms;
  pit_during_apic_test = ten_ms;
  boot = boot;
  entries = record { kind = 0; base = 0x200000; size = 0x4000_0000 } ∷ [];
  bitmap = 0xffff_ffff_8002_0000;
  sections = record {
    text_start = 0xffff_ffff_8000_0000;
    text_end = 0xffff_ffff_8001_0000;
    rodata_start = 0xffff_ffff_8001_0000;
    rodata_end = 0xffff_ffff_8001_8000;
    data_start = 0xffff_ffff_8001_8000;
    data_end = 0xffff_ffff_8002_0000;
    bss_end = 0xffff_ffff_8005_0000;
  };
  framebuffer = record { address = 0xffff_8000_fd00_0000; pitch = 3200; height = 600 };
  inb = λ _. 255;
  read = registers;
  msr = 0xfee0_0900;
  tables = tables;
  rsdp = 0x9000;
  uninitialised = 0;
  entry_address = 0x9000;
}

machine-HasMappings : HasMappings machine
machine-HasMappings =
    let (d, run, k) =
      in_chunks-get_memory_descriptor machine.entries (omega arith, tt) (omega arith) in
    (d, run, omega (arith, k.few))

abbrev random : MtState
random = record { state_array = λ _. 0; state_index = 0 }

start_memory-MemoryReady_example :
    Ends (MemoryReady machine pages (λ _. 0)) (start_memory machine (λ _. 0) pages 0x7000 (λ _. 0))
start_memory-MemoryReady_example =
    start_memory-MemoryReady machine (λ _. 0) pages 0x7000 (λ _. 0) machine-HasMappings
      (omega arith) (omega arith)
