-- ===== src/Memory/Physical/Tests.antt =====
-- The page allocator at a concrete state: no page is used, and one mapping of 4096 pages lies
-- behind the first MiB.
use ada_os.Base.{
  ℕ, undefined, ◌<◌, ◌+◌, ◌≤◌, ◌≡◌, ◌⊎◌, inl, true, false, ◌==◌, if◌then◌else◌, bit_at, done,
  panicked, arith, [], ◌∷◌,
}
use ada_os.Memory.Layout.{page_size, max_pages, Boot, add64}
use ada_os.Memory.Physical.{
  Pmm, Chunk, Mapping, page_free, set_page, holds_page, pp_alloc_at, pp_alloc, pp_free_at,
  setup_tables, null,
}
use ada_os.Memory.Physical.Bitmap.{
  IsBytes, IsCounted, Taken, count_used_none, take-IsCounted, set_page-Taken,
}
use ada_os.Memory.Physical.Alloc.{AllUsed, Allocated, pp_alloc-Allocated}
use ada_os.Memory.Physical.Free.{pp_free_at-IsCounted, pp_free_at-undoes}
use ada_os.Memory.Physical.Chunks.{pp_alloc_at_leaks}
use ada_os.Memory.Physical.Reserve.{setup_tables-InKernel}

abbrev boot : Boot
boot = record {
  physical_base = 0x200000;
  virtual_base = 0xffff_ffff_8000_0000;
  hhdm_offset = 0xffff_8000_0000_0000;
  executable_size = 0x50000;
}

abbrev one_mapping : ℕ → Mapping
one_mapping k =
    if k == 0
    then record { offset = 0x100000; page_start_index = 0; page_end_index = 4096 }
    else record { offset = 0; page_start_index = 0; page_end_index = 0 }

abbrev fresh : Pmm
fresh = record {
  page_bitmap = λ _. 0;
  page_mappings = one_mapping;
  last_used_mapping = 0;
  last_page_used = 1;
  free_pages = 0x100001;
  used_pages = 0;
  chunk_count = 1;
  memory = λ _. 7;
}

fresh_free : (i : ℕ) → page_free fresh i ≡ true
unfolding page_free bit_at
fresh_free i = ground arith

fresh-IsBytes : IsBytes fresh
fresh-IsBytes i = omega arith

fresh-IsCounted : IsCounted 0x100001 fresh
fresh-IsCounted = record {
  bytes = fresh-IsBytes;
  used = ground (arith, count_used_none (page_free fresh) (max_pages + 1) fresh_free);
  sum = omega arith;
  word = omega arith;
}

-- page 9 taken
abbrev with_nine : Pmm
with_nine = set_page fresh 9 false

with_nine-IsCounted : IsCounted 0x100001 with_nine
with_nine-IsCounted = take-IsCounted 9 fresh-IsCounted (omega arith) (fresh_free 9)

with_nine-Taken : Taken (page_free fresh) (page_free with_nine) 9
with_nine-Taken = set_page-Taken 9 fresh-IsCounted (fresh_free 9)

pp_alloc-Allocated_example :
    ((i p : ℕ) × (s' : Pmm) × (pp_alloc boot fresh ≡ done (p, s'))
      × (1 ≤ i)
      × (i ≤ max_pages)
      × Allocated boot 0x100001 fresh i p s')
    ⊎ ((pp_alloc boot fresh ≡ panicked) × AllUsed fresh)
pp_alloc-Allocated_example = pp_alloc-Allocated boot fresh-IsCounted (omega arith)

pp_free_at-IsCounted_example : IsCounted 0x100001 (pp_free_at with_nine 9)
pp_free_at-IsCounted_example = pp_free_at-IsCounted 9 with_nine-IsCounted

pp_free_at-undoes_example :
    ((j : ℕ) → page_free (pp_free_at with_nine 9) j ≡ page_free fresh j)
    × ((pp_free_at with_nine 9).used_pages ≡ 0)
    × ((pp_free_at with_nine 9).free_pages ≡ 0x100001)
pp_free_at-undoes_example =
    pp_free_at-undoes 9 fresh-IsCounted with_nine-IsCounted (omega arith) with_nine-Taken

-- 16 MiB from 2 MiB on: 3584 pages, and a mapping of 4096
abbrev chunk : Chunk
chunk = record { base = 0x200000; bounds = 0x1000000 }

-- page 0 is the first page of the only mapping
first_missed : (k : ℕ) → holds_page (one_mapping k) 0 ≡ false
first_missed k = ground arith

pp_alloc_at_leaks_example :
    (s' : Pmm) × (pp_alloc_at boot fresh 0 ≡ done (null, s'))
    × (page_free s' 0 ≡ false)
    × ((x : ℕ) → x < page_size → s'.memory (add64 null boot.hhdm_offset + x) ≡ 0)
pp_alloc_at_leaks_example =
    pp_alloc_at_leaks boot 0 fresh-IsCounted (omega arith) (omega arith) (fresh_free 0) first_missed

setup_tables-InKernel_example :
    ((1 ≤ 32)
      × (s' : Pmm) × (setup_tables boot (chunk ∷ []) 0xffff_ffff_8000_4000 fresh ≡ done s')
      × (page_free s' 0x210 ≡ false))
    ⊎ ((32 < 1) × (setup_tables boot (chunk ∷ []) 0xffff_ffff_8000_4000 fresh ≡ undefined))
setup_tables-InKernel_example =
    setup_tables-InKernel boot (chunk ∷ []) 0xffff_ffff_8000_4000 fresh 0x210 fresh-IsBytes
      (omega arith) (inl (omega arith, omega arith))
