-- ===== src/Platform/Acpi/Tables/Tests.antt =====
-- A root table that lists two tables, and the RSDP that leads to it.
use ada_os.Base.{[], ◌∷◌, ◌-◌}
use ada_os.Base.{true}
use ada_os.Base.{get_or}
use ada_os.Base.{ℕ}
use ada_os.Base.{◌≡◌}
use ada_os.Base.{List}
use ada_os.Base.{false}
use ada_os.Base.{ltb}
use ada_os.Platform.Acpi.Tables.{has_signature}
use ada_os.Base.{zero, suc, ◌-◌, if◌then◌else◌, Ends, arith}
use ada_os.Core.{Memory}
use ada_os.Memory.Layout.{Boot}
use ada_os.Memory.Physical.{Pmm}
use ada_os.Platform.Acpi.Walk.{Records, nil, cons}
use ada_os.Platform.Acpi.Tables.{bootstrap_acpi}
use ada_os.Platform.Acpi.Tables.Loading.{MadtsHaveRecords, Started, bootstrap_acpi-Started}

false-ne-true : false ≡ true → ⊥
false-ne-true e = ground arith

abbrev boot : Boot
boot = record {
  physical_base = 0x200000;
  virtual_base = 0xffff_ffff_8000_0000;
  hhdm_offset = 0x8000_0000_0000;
  executable_size = 0x50000;
}

abbrev pages : Pmm
pages = record {
  page_bitmap = λ _. 0;
  page_mappings = λ _. record { offset = 0x100000; page_start_index = 0; page_end_index = 4096 };
  last_used_mapping = 0;
  last_page_used = 1;
  free_pages = 0x100001;
  used_pages = 0;
  chunk_count = 1;
  memory = λ _. 0;
}

-- The firmware, which lies at 0x9000 of the physical memory: the RSDP; the root table, which lists the
-- two tables behind it; a MADT with one I/O controller; and the start of a FADT, zeros from there on.
abbrev firmware : List ℕ
firmware =
    82 ∷ 83 ∷ 68 ∷ 32 ∷ 80 ∷ 84 ∷ 82 ∷ 32 ∷ 61 ∷ 0 ∷ 0 ∷ 0 ∷ 0 ∷ 0 ∷ 0 ∷ 0 ∷ 20 ∷ 144 ∷ 0 ∷ 0 ∷ 82
    ∷ 83 ∷ 68 ∷ 84 ∷ 44 ∷ 0 ∷ 0 ∷ 0 ∷ 0 ∷ 191 ∷ 0 ∷ 0 ∷ 0 ∷ 0 ∷ 0 ∷ 0 ∷ 0 ∷ 0 ∷ 0 ∷ 0 ∷ 0 ∷ 0 ∷ 0
    ∷ 0 ∷ 0 ∷ 0 ∷ 0 ∷ 0 ∷ 0 ∷ 0 ∷ 0 ∷ 0 ∷ 0 ∷ 0 ∷ 0 ∷ 0 ∷ 64 ∷ 144 ∷ 0 ∷ 0 ∷ 120 ∷ 144 ∷ 0 ∷ 0 ∷ 65
    ∷ 80 ∷ 73 ∷ 67 ∷ 56 ∷ 0 ∷ 0 ∷ 0 ∷ 0 ∷ 1 ∷ 0 ∷ 0 ∷ 0 ∷ 0 ∷ 0 ∷ 0 ∷ 0 ∷ 0 ∷ 0 ∷ 0 ∷ 0 ∷ 0 ∷ 0 ∷ 0
    ∷ 0 ∷ 0 ∷ 0 ∷ 0 ∷ 0 ∷ 0 ∷ 0 ∷ 0 ∷ 0 ∷ 0 ∷ 0 ∷ 0 ∷ 0 ∷ 0 ∷ 224 ∷ 254 ∷ 1 ∷ 0 ∷ 0 ∷ 0 ∷ 1 ∷ 12 ∷ 0
    ∷ 0 ∷ 0 ∷ 0 ∷ 192 ∷ 254 ∷ 0 ∷ 0 ∷ 0 ∷ 0 ∷ 70 ∷ 65 ∷ 67 ∷ 80 ∷ 140 ∷ 0 ∷ 0 ∷ 0 ∷ 0 ∷ 234 ∷ 0 ∷ 0
    ∷ 0 ∷ 0 ∷ 0 ∷ 0 ∷ 0 ∷ 0 ∷ 0 ∷ 0 ∷ 0 ∷ 0 ∷ 0 ∷ 0 ∷ 0 ∷ 0 ∷ 0 ∷ 0 ∷ 0 ∷ 0 ∷ 0 ∷ 0 ∷ 0 ∷ 0 ∷ 0 ∷ 0
    ∷ 0 ∷ 112 ∷ 0 ∷ 0 ∷ []

abbrev tables : Memory
tables a = if ltb a 0x800000009000 then 0 else get_or firmware (a - 0x800000009000) 0

one_record : Records tables 0x800000009040 56 0x2c 1
one_record = cons (omega arith) (omega arith) (nil (omega arith))

one_table-HasRecords : MadtsHaveRecords boot 0x8000_0000_1000 tables 0x800000009014
unfolding has_signature
one_table-HasRecords zero i s = (1, one_record)
one_table-HasRecords (suc zero) h s = absurd (false-ne-true s)
one_table-HasRecords (suc (suc i)) h s = absurd (omega (arith, h))

bootstrap_acpi-Started_example :
    Ends
      (Started boot 0x8000_0000_1000 tables 0x9000 pages)
      (bootstrap_acpi boot 0x8000_0000_1000 tables 0 0x9000 pages)
bootstrap_acpi-Started_example =
    bootstrap_acpi-Started boot 0x8000_0000_1000 tables 0 0x9000 pages one_table-HasRecords
