-- ===== src/Memory/Virtual/Tests.antt =====
-- Page tables at concrete addresses: the tables for the address 0x5000 are there, and its entry in
-- the last one is empty.
use ada_os.Base.{ℕ, ◌≤◌, ◌<◌, ◌≡◌, ◌∙◌, ◌⊎◌, inl, true, none, some, done, arith}
use ada_os.Core.{Memory}
use ada_os.Core.Words.{store64, load64-store64_self, load64-store64_apart}
use ada_os.Memory.Layout.{Boot}
use ada_os.Memory.Physical.{Pmm}
use ada_os.Memory.Heap.{Heap}
use ada_os.Memory.Virtual.{entry_at, map_page, unmap_page}
use ada_os.Memory.Virtual.Source.{kernel_pages}
use ada_os.Memory.Virtual.Walk.{
  translate, Tables, AllApart, map_page-translate, unmap_page-translate,
}

abbrev boot : Boot
boot = record {
  physical_base = 0x200000;
  virtual_base = 0xffff_ffff_8000_0000;
  hhdm_offset = 0x8000_0000_0000;
  executable_size = 0x50000;
}

abbrev top : ℕ
top = 0x8000_0000_1000

abbrev third : ℕ
third = 0x8000_0000_2000

abbrev second : ℕ
second = 0x8000_0000_3000

abbrev first : ℕ
first = 0x8000_0000_4000

abbrev m1 : Memory
m1 = store64 (λ _. 0) top 0x2003

abbrev m2 : Memory
m2 = store64 m1 third 0x3003

abbrev tables_memory : Memory
tables_memory = store64 m2 second 0x4003

abbrev pages : Pmm
pages = record {
  page_bitmap = λ _. 0;
  page_mappings = λ _. record { offset = 0x100000; page_start_index = 0; page_end_index = 4096 };
  last_used_mapping = 0;
  last_page_used = 1;
  free_pages = 0x100001;
  used_pages = 0;
  chunk_count = 1;
  memory = tables_memory;
}

top_entry : entry_at tables_memory top 0 ≡ 0x2003
top_entry =
    load64-store64_apart m2 second 0x4003 top (inl (omega arith))
    ∙ load64-store64_apart m1 third 0x3003 top (inl (omega arith))
    ∙ load64-store64_self (λ _. 0) top 0x2003 (omega arith)

third_entry : entry_at tables_memory third 0 ≡ 0x3003
third_entry =
    load64-store64_apart m2 second 0x4003 third (inl (omega arith))
    ∙ load64-store64_self m1 third 0x3003 (omega arith)

second_entry : entry_at tables_memory second 0 ≡ 0x4003
second_entry = load64-store64_self m2 second 0x4003 (omega arith)

tables : Tables boot tables_memory top 0x5000 third second first
tables = record {
  present4 = ground (arith, top_entry);
  next4 = omega (arith, top_entry);
  present3 = ground (arith, third_entry);
  next3 = omega (arith, third_entry);
  present2 = ground (arith, second_entry);
  next2 = omega (arith, second_entry);
  nonnull = (omega arith, omega arith, omega arith);
}

apart : AllApart top 0x5000 third second first
apart = record {
  apart41 = inl (omega arith);
  apart31 = inl (omega arith);
  apart21 = inl (omega arith);
  apart42 = inl (omega arith);
  apart32 = inl (omega arith);
  apart43 = inl (omega arith);
}

map_page-translate_example :
    (s' : Pmm) × (map_page boot top 0x5000 0x9000 3 pages ≡ done (true, s'))
    × (translate boot s'.memory top 0x5000 ≡ some 0x9000)
    × ((x : ℕ) → (x < 0x8000_0000_4028) ⊎ (0x8000_0000_4030 ≤ x) → s'.memory x ≡ tables_memory x)
map_page-translate_example =
    map_page-translate pages tables apart.apart41 apart.apart31 apart.apart21 0x9000 3 (omega arith)
      (omega arith) (omega arith)

unmap_page-translate_example :
    (s' : Pmm) × (unmap_page boot top 0x5000 pages ≡ done (true, s'))
    × (translate boot s'.memory top 0x5000 ≡ none)
unmap_page-translate_example = unmap_page-translate pages tables apart (omega arith)

abbrev empty_heap : Heap (kernel_pages boot top)
empty_heap = record {
  heap_start = 0x9000_0000_0000;
  heap_size = 65536;
  free = record { free_list_head = 0; memory = λ _. 0 };
  pages = pages;
}
