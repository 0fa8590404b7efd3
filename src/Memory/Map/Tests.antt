-- ===== src/Memory/Map/Tests.antt =====
-- A memory map with two free entries that touch, a reserved one and a free one.
use ada_os.Base.{done, ◌≡◌, List, [], ◌∷◌, arith}
use ada_os.Memory.Map.{Entry, Descriptor, get_memory_descriptor}
use ada_os.Memory.Map.Covering.{Describes, in_chunks-get_memory_descriptor}

abbrev entries : List Entry
entries =
    record { kind = 0; base = 0x1000; size = 0x2000 }
    ∷ record { kind = 5; base = 0x3000; size = 0x1000 }
    ∷ record { kind = 1; base = 0x4000; size = 0x1000 }
    ∷ record { kind = 2; base = 0x5000; size = 0x1000 }
    ∷ []

in_chunks-get_memory_descriptor_example :
    (d : Descriptor) × (get_memory_descriptor entries ≡ done d) × Describes entries d
in_chunks-get_memory_descriptor_example =
    in_chunks-get_memory_descriptor entries
      (omega arith, (omega arith, (omega arith, (omega arith, tt)))) (omega arith)
