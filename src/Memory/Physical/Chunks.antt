-- ===== src/Memory/Physical/Chunks.antt =====
-- `generate_page_mapping`: where the mapping of a chunk lies, and pages that lead out of it.
use ada_os.Base.{ℕ, ◌+◌, ◌-◌, ◌/◌, ◌^◌, ◌≤◌, ◌<◌, ◌≡◌, refl, inl, inr, true, false, done, arith}
use ada_os.Memory.Layout.{max_pages, page_size, Boot, add64}
use ada_os.Memory.Physical.{Pmm, Chunk, page_free, chunk_mapping, holds_page, null, pp_alloc_at}
use ada_os.Memory.Physical.Bitmap.{IsCounted}
use ada_os.Memory.Physical.Mappings.{Translates}
use ada_os.Memory.Physical.Alloc.{pp_alloc_at-Allocated}

-- A chunk above 1 MiB, within 52-bit physical addresses.
pub record IsHigh (c : Chunk) : Type 0 where
  pub above : 0x100000 < c.base
  pub ordered : c.base ≤ c.bounds
  pub limit : c.bounds < 2 ^ 52

-- The mapping of a chunk begins at its base and has room for all of its pages.
pub chunk_mapping-covers :
    (c : Chunk) (pages_used : ℕ)
    → IsHigh c
    → pages_used < 2 ^ 40
    → ((chunk_mapping c pages_used).offset ≡ c.base)
      × ((chunk_mapping c pages_used).page_start_index ≡ pages_used)
      × (pages_used + (c.bounds - c.base) / page_size ≤ (chunk_mapping c pages_used).page_end_index)
unfolding chunk_mapping
chunk_mapping-covers c pages_used high small =
    (ground (arith, high.above), refl, omega (arith, high.ordered, high.limit))

-- No mapping holds its own first page.
pub chunk_mapping_first :
    (c : Chunk) (pages_used : ℕ) → holds_page (chunk_mapping c pages_used) pages_used ≡ false
unfolding chunk_mapping
chunk_mapping_first c pages_used = ground arith

unmapped :
    (s : Pmm) (i p j : ℕ)
    → ((k : ℕ) → holds_page (s.page_mappings k) i ≡ false)
    → Translates s i p j
    → p ≡ null
unmapped s i p j missed (inl (held, e)) = absurd (ground (arith, missed j))
unmapped s i p j missed (inr (e, all)) = e

-- `_pp_alloc` of a free page in range, below the guard, that no mapping holds, as the first page of a
-- mapping that no other one overlaps, marks the page used and returns NULL, and clears the page of
-- memory at the start of the direct map. The counters were right.
pub pp_alloc_at_leaks :
    (boot : Boot) {total : ℕ} {s : Pmm} (i : ℕ)
    → IsCounted total s
    → i < boot.physical_base
    → i ≤ max_pages
    → page_free s i ≡ true
    → ((k : ℕ) → holds_page (s.page_mappings k) i ≡ false)
    → (s' : Pmm) × (pp_alloc_at boot s i ≡ done (null, s'))
      × (page_free s' i ≡ false)
      × ((x : ℕ) → x < page_size → s'.memory (add64 null boot.hhdm_offset + x) ≡ 0)
pp_alloc_at_leaks boot {s} i inv low range free missed =
    let (p, s', returns, a) = pp_alloc_at-Allocated boot i inv low range free in
    let e : p ≡ null = unmapped s i p a.mapping.0 missed a.mapping.1 in
    (
      s',
      rw e at returns,
      a.taken.is_used,
      λ x h.
          let cleared = rw e at a.cleared (add64 null boot.hhdm_offset + x) in
          ground (arith, cleared, h),
    )
