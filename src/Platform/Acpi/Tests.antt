-- ===== src/Platform/Acpi/Tests.antt =====
-- A table at address 0 with a record that has no length.
use ada_os.Base.{◌==◌, if◌then◌else◌}
use ada_os.Core.{Memory}

abbrev broken_table : Memory
broken_table a = if a == 4 then 64 else if a == 0x28 then 1 else 0
