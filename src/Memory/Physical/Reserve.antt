-- ===== src/Memory/Physical/Reserve.antt =====
-- `setup_pmm`: the pages of the kernel and of the bitmap are marked used.
use ada_os.Base.{
  ℕ, zero, suc, ◌+◌, ◌-◌, ◌/◌, ◌≤◌, ◌<◌, done, undefined, ◌≡◌, refl, ◌⊎◌, inl, inr, Bool, false,
  ltb, leb, ◌==◌, ◌&&◌, if◌then◌else◌, arith, Bool-cases, List, length,
}
use ada_os.Memory.Layout.{max_pages, max_segments, page_size, Boot, add64, sub64, align_up}
use ada_os.Memory.Physical.{
  Pmm, Chunk, page_free, reserve_page, reserve, reserve_range, generate_page_mapping,
  reserve_tables, setup_tables,
}
use ada_os.Memory.Physical.Bitmap.{IsBytes, page_free-set_page, set_page-IsBytes}

-- `lo <= j && j < hi && j <= MAX_PAGES`
abbrev in_range : ℕ → ℕ → ℕ → Bool
in_range lo hi j = leb lo j && (ltb j hi && leb j max_pages)

abbrev one_less : Pmm → Pmm
one_less s = record s { free_pages = sub64 s.free_pages 1 }

page_free-one_less : (s : Pmm) (j : ℕ) → page_free (one_less s) j ≡ page_free s j
unfolding page_free
page_free-one_less s j = refl

reserve_page-IsBytes : (s : Pmm) (i : ℕ) → IsBytes s → IsBytes (reserve_page s i)
unfolding reserve_page
reserve_page-IsBytes s i bytes = elim (Bool-cases (ltb max_pages i)) [
  | inl out ↦ rw out bytes
  | inr inside ↦ elim (Bool-cases (page_free s i)) [
    | inl free ↦ rw (inside, free) (set_page-IsBytes s i false bytes)
    | inr used ↦ rw (inside, used) (set_page-IsBytes (one_less s) i false bytes)
  ]
]

page_free-reserve_page :
    (s : Pmm) (i j : ℕ)
    → IsBytes s
    → page_free (reserve_page s i) j ≡ (if i == j && leb i max_pages then false else page_free s j)
unfolding reserve_page
page_free-reserve_page s i j bytes = elim (Bool-cases (ltb max_pages i)) [
  | inl out ↦ rw out (ground arith)
  | inr inside ↦ elim (Bool-cases (page_free s i)) [
    | inl free ↦ rw (inside, free) (ground (arith, page_free-set_page s i j false bytes))
    | inr used ↦
        rw (inside, used)
          (ground (arith, page_free-set_page (one_less s) i j false bytes, page_free-one_less s j))
  ]
]

reserve-IsBytes : (s : Pmm) (n i : ℕ) → IsBytes s → IsBytes (reserve s n i)
unfolding reserve
reserve-IsBytes s zero i bytes = bytes
reserve-IsBytes s (suc n) i bytes =
    reserve-IsBytes (reserve_page s i) n (i + 1) (reserve_page-IsBytes s i bytes)

page_free-reserve :
    (s : Pmm) (n i j : ℕ)
    → IsBytes s
    → page_free (reserve s n i) j ≡ (if in_range i (i + n) j then false else page_free s j)
unfolding reserve
page_free-reserve s zero i j bytes = ground arith
page_free-reserve s (suc n) i j bytes = ground (
  arith,
  page_free-reserve (reserve_page s i) n (i + 1) j (reserve_page-IsBytes s i bytes),
  page_free-reserve_page s i j bytes,
)

-- The loop over a range of pages marks those of them that the bitmap covers, and no other page.
pub page_free-reserve_range :
    (s : Pmm) (first last j : ℕ)
    → IsBytes s
    → page_free (reserve_range s first last) j
      ≡ (if leb first j && (leb j last && leb j max_pages) then false else page_free s j)
unfolding reserve_range
page_free-reserve_range s first last j bytes =
    ground (arith, page_free-reserve s (last + 1 - first) first j bytes)

reserve_range-IsBytes :
    (s : Pmm) (first last : ℕ) → IsBytes s → IsBytes (reserve_range s first last)
unfolding reserve_range
reserve_range-IsBytes s first last bytes = reserve-IsBytes s _ first bytes

later-used :
    (s : Pmm) (first last j : ℕ)
    → IsBytes s
    → page_free s j ≡ false
    → page_free (reserve_range s first last) j ≡ false
later-used s first last j bytes used = ground (arith, page_free-reserve_range s first last j bytes)

page_free-generate_page_mapping :
    (chunks : List Chunk) (s : Pmm) (j : ℕ)
    → page_free (generate_page_mapping chunks s) j ≡ page_free s j
unfolding generate_page_mapping page_free
page_free-generate_page_mapping chunks s j = refl

generate_page_mapping-IsBytes :
    (chunks : List Chunk) (s : Pmm) → IsBytes s → IsBytes (generate_page_mapping chunks s)
unfolding generate_page_mapping
generate_page_mapping-IsBytes chunks s bytes = bytes

abbrev with_chunks : List Chunk → Pmm → Pmm
with_chunks chunks s = record s { chunk_count = length chunks }

page_free-with_chunks :
    (chunks : List Chunk) (s : Pmm) (j : ℕ) → page_free (with_chunks chunks s) j ≡ page_free s j
unfolding page_free
page_free-with_chunks chunks s j = refl

-- The page lies between the first and the last page of the kernel's executable.
abbrev pub InKernel : Boot → ℕ → Type 0
InKernel boot j =
    (boot.physical_base / page_size ≤ j)
    × (j ≤ add64 boot.physical_base (align_up boot.executable_size page_size) / page_size)

-- No page of the kernel is free any more, and no page that was used before.
reserve_tables-InKernel :
    (boot : Boot) (chunks : List Chunk) (bitmap : ℕ) (s : Pmm) (j : ℕ)
    → IsBytes s
    → j ≤ max_pages
    → InKernel boot j ⊎ (page_free s j ≡ false)
    → page_free (reserve_tables boot chunks bitmap s) j ≡ false
unfolding reserve_tables
reserve_tables-InKernel boot chunks bitmap s j bytes range inside =
    let s0 = with_chunks chunks s in
    let s1 = generate_page_mapping chunks s0 in
    let first = boot.physical_base / page_size in
    let last = add64 boot.physical_base (align_up boot.executable_size page_size) / page_size in
    let bytes1 = generate_page_mapping-IsBytes chunks s0 bytes in
    later-used (reserve_range s1 first last) _ _ j (reserve_range-IsBytes s1 first last bytes1) (
      ground (
        arith,
        page_free-reserve_range s1 first last j bytes1,
        page_free-generate_page_mapping chunks s0 j,
        page_free-with_chunks chunks s j,
      ))

-- After `setup_pmm`'s tables are set up no page of the kernel that the bitmap covers is free, and
-- no page is free that was used before. For more than 32 chunks the code writes behind its array of
-- mappings instead.
pub setup_tables-InKernel :
    (boot : Boot) (chunks : List Chunk) (bitmap : ℕ) (s : Pmm) (j : ℕ)
    → IsBytes s
    → j ≤ max_pages
    → InKernel boot j ⊎ (page_free s j ≡ false)
    → ((length chunks ≤ 32)
        × (s' : Pmm) × (setup_tables boot chunks bitmap s ≡ done s')
        × (page_free s' j ≡ false))
      ⊎ ((32 < length chunks) × (setup_tables boot chunks bitmap s ≡ undefined))
unfolding setup_tables
setup_tables-InKernel boot chunks bitmap s j bytes range inside =
    elim (Bool-cases (ltb max_segments (length chunks))) [
      | inl many ↦ inr (ground (arith, many), rw many refl)
      | inr few ↦ inl (
        ground (arith, few),
        reserve_tables boot chunks bitmap s,
        rw few refl,
        reserve_tables-InKernel boot chunks bitmap s j bytes range inside,
      )
    ]
