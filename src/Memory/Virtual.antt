-- ===== src/Memory/Virtual.antt =====
-- kernel/src/memory/virtual/vmm.c: the four levels of page tables. A table is a page of 512
-- entries of 64 bits; the kernel reads and writes it through the direct map, at the physical
-- address and `hhdm_offset`. Log output and the flush of the TLB (`invlpg`) are left out.
pub mod Returning
pub mod Walk
pub mod Source
mod Tests
use ada_os.Base.{
  ℕ, zero, suc, ◌+◌, ◌-◌, ◌*◌, ◌/◌, ◌%◌, ◌^◌, Bool, true, false, ◌&&◌, ◌||◌, not, List, [], ◌∷◌,
  ltb, leb, ◌==◌, if◌then◌else◌, bit_or, bit_at, Outcome, done, panicked, ◌>>=◌,
}
use ada_os.Core.{Memory, memset}
use ada_os.Core.Words.{load64, store64}
use ada_os.Memory.Layout.{add64, sub64, mul64, page_size, align_up, Boot}
use ada_os.Memory.Physical.{Pmm, Chunk, pp_alloc, pp_free}

abbrev pub null : ℕ
null = 0

abbrev pub pte_present : ℕ
pte_present = 1

abbrev pub pte_writable : ℕ
pte_writable = 2

abbrev pub pte_user : ℕ
pte_user = 4

abbrev pub pte_pcd : ℕ
pte_pcd = 16

abbrev pub pte_pat : ℕ
pte_pat = 128

abbrev pub pte_nx : ℕ
pte_nx = 2 ^ 63

-- `VALUE & 0x000ffffffffff000`: bits 12 to 51.
abbrev pub pte_get_addr : ℕ → ℕ
pte_get_addr value = value / 4096 % 2 ^ 40 * 4096

-- `entry & PTE_PRESENT`
abbrev pub is_present : ℕ → Bool
is_present entry = entry % 2 == 1

-- `table[index]`
abbrev pub entry_at : Memory → (table index : ℕ) → ℕ
entry_at m table index = load64 m (table + 8 * index)

abbrev pub set_entry : Pmm → (table index value : ℕ) → Pmm
set_entry s table index value = record s { memory = store64 s.memory (table + 8 * index) value }

-- `for (i = i; i < i + n; i++) if (table_virt[i] != 0) return false;`
empty_from : ℕ → Memory → (table i : ℕ) → Bool
empty_from zero m table i = true
empty_from (suc n) m table i =
    let rest = empty_from n m table (i + 1) in if not (entry_at m table i == 0) then false else rest

pub is_table_empty : Memory → ℕ → Bool
unfolding empty_from
is_table_empty m table = empty_from 512 m table 0

pub get_next_level : Boot → Memory → (table index : ℕ) → ℕ
get_next_level boot m table index =
    let entry = entry_at m table index in
    if is_present entry then add64 (pte_get_addr entry) boot.hhdm_offset else null

pub allocate_next_level : Boot → (table index pte_flags : ℕ) → Pmm → Outcome (ℕ × Pmm)
allocate_next_level boot table index pte_flags s = pp_alloc boot s >>= λ r.
    (if r.0 == null
      then done (null, r.1)
      else (let new_entry_flags =
            if pte_flags == 0 then pte_present + pte_writable else pte_flags in
          let s' = set_entry r.1 table index (bit_or r.0 new_entry_flags) in
          let next_level_virt = add64 r.0 boot.hhdm_offset in
          done (
            next_level_virt,
            record s' { memory = (memset next_level_virt 0 page_size s'.memory).1 },
          )))

pub get_or_allocate_next_level : Boot → (level index flags : ℕ) → Pmm → Outcome (ℕ × Pmm)
get_or_allocate_next_level boot level index flags s =
    let entry = entry_at s.memory level index in
    if is_present entry
    then done (add64 (pte_get_addr entry) boot.hhdm_offset, s)
    else allocate_next_level boot level index flags s

-- The index into the table of each level.
abbrev pub pml4_index : ℕ → ℕ
pml4_index virt_addr = virt_addr / 2 ^ 39 % 512

abbrev pub pdpt_index : ℕ → ℕ
pdpt_index virt_addr = virt_addr / 2 ^ 30 % 512

abbrev pub pd_index : ℕ → ℕ
pd_index virt_addr = virt_addr / 2 ^ 21 % 512

abbrev pub pt_index : ℕ → ℕ
pt_index virt_addr = virt_addr / 2 ^ 12 % 512

-- `addr & ~(PAGE_SIZE - 1)`
abbrev pub page_base : ℕ → ℕ
page_base addr = addr / page_size * page_size

-- The flags of the tables on the way.
abbrev pub table_flags : ℕ → ℕ
table_flags flags =
    if bit_at flags 2 == 1
    then pte_present + pte_writable + pte_user
    else pte_present + pte_writable

-- The entry that `map_page` writes.
abbrev pub leaf_entry : (phys_addr flags : ℕ) → ℕ
leaf_entry phys_addr flags = bit_or (bit_or (page_base phys_addr) flags) pte_present

pub map_page : Boot → (top_level virt_addr phys_addr flags : ℕ) → Pmm → Outcome (Bool × Pmm)
map_page boot top_level virt_addr phys_addr flags s =
    let alloc_flags = table_flags flags in
    get_or_allocate_next_level boot top_level (pml4_index virt_addr) alloc_flags s >>= λ pdpt.
    (if pdpt.0 == null
      then done (false, pdpt.1)
      else (get_or_allocate_next_level boot pdpt.0 (pdpt_index virt_addr) alloc_flags pdpt.1
          >>= λ pd.
              (if pd.0 == null
                then done (false, pd.1)
                else (get_or_allocate_next_level boot pd.0 (pd_index virt_addr) alloc_flags pd.1
                    >>= λ pt.
                        (if pt.0 == null
                          then done (false, pt.1)
                          else done (
                            true,
                            set_entry pt.1 pt.0 (pt_index virt_addr) (leaf_entry phys_addr flags),
                          ))))))

-- `unmap_page` after the entry of the page is cleared: the tables that have become empty are given
-- back, but not the third one if it belongs to the upper half of the address space.
pub release_tables : (pml4 pdpt pd pt virt_addr : ℕ) → (entries : ℕ × ℕ × ℕ) → Pmm → Outcome Pmm
release_tables pml4 pdpt pd pt virt_addr (pdpt_entry, pd_entry, pt_entry) s =
    if not (is_table_empty s.memory pt)
    then done s
    else (pp_free (set_entry s pd (pd_index virt_addr) 0) (pte_get_addr pt_entry) >>= λ s1.
        (if not (is_table_empty s1.memory pd)
          then done s1
          else (pp_free (set_entry s1 pdpt (pdpt_index virt_addr) 0) (pte_get_addr pd_entry)
              >>= λ s2.
                  (if not (is_table_empty s2.memory pdpt)
                    then done s2
                    else if leb 256 (pml4_index virt_addr)
                    then done s2
                    else pp_free (set_entry s2 pml4 (pml4_index virt_addr) 0)
                        (pte_get_addr pdpt_entry)))))

pub unmap_page : Boot → (top_level virt_addr : ℕ) → Pmm → Outcome (Bool × Pmm)
unmap_page boot top_level virt_addr s =
    if not (virt_addr % page_size == 0)
    then done (false, s)
    else (let pdpt = get_next_level boot s.memory top_level (pml4_index virt_addr) in
        if pdpt == null
        then done (true, s)
        else (let pd = get_next_level boot s.memory pdpt (pdpt_index virt_addr) in
            if pd == null
            then done (true, s)
            else (let pt = get_next_level boot s.memory pd (pd_index virt_addr) in
                if pt == null
                then done (true, s)
                else if not (is_present (entry_at s.memory pt (pt_index virt_addr)))
                then done (true, s)
                else (release_tables top_level pdpt pd pt virt_addr
                      (
                        entry_at s.memory top_level (pml4_index virt_addr),
                        entry_at s.memory pdpt (pdpt_index virt_addr),
                        entry_at s.memory pd (pd_index virt_addr),
                      )
                      (set_entry s pt (pt_index virt_addr) 0)
                    >>= λ s'. done (true, s')))))

-- The bounds of the kernel's sections, from the linker script.
pub record Sections : Type 0 where
  pub text_start : ℕ
  pub text_end : ℕ
  pub rodata_start : ℕ
  pub rodata_end : ℕ
  pub data_start : ℕ
  pub data_end : ℕ
  pub bss_end : ℕ

-- The boot loader's framebuffer.
pub record Framebuffer : Type 0 where
  pub address : ℕ
  pub pitch : ℕ
  pub height : ℕ

-- `kernel_pagemap->top_level` and the register `cr3`.
pub record Paging : Type 0 where
  pub top_level : ℕ
  pub cr3 : ℕ
  pub pages : Pmm

-- A loop that maps `n` pages one after the other, and panics when a page is not mapped.
map_run :
    Boot → (top_level : ℕ) → (n virt_addr phys_addr : ℕ) → (flags_of : ℕ → ℕ) → Pmm → Outcome Pmm
map_run boot top_level zero virt_addr phys_addr flags_of s = done s
map_run boot top_level (suc n) virt_addr phys_addr flags_of s =
    map_page boot top_level virt_addr phys_addr (flags_of virt_addr) s >>= λ r.
    (let rest =
        map_run boot top_level n (add64 virt_addr page_size) (add64 phys_addr page_size) flags_of
          r.1 in
      if r.0 then rest else panicked)

-- The flags of a page of the kernel.
pub section_flags : Sections → ℕ → ℕ
section_flags k p_virt =
    if leb k.text_start p_virt && ltb p_virt k.text_end
    then pte_present
    else if leb k.rodata_start p_virt && ltb p_virt k.rodata_end
    then bit_or pte_present pte_nx
    else bit_or pte_present (bit_or pte_writable pte_nx)

-- `for (p = lo; p < hi; p += PAGE_SIZE)` has so many rounds.
abbrev pub rounds_between : (lo hi : ℕ) → ℕ
rounds_between lo hi = (hi - lo + (page_size - 1)) / page_size

-- The loop over the entries of the upper half of the top table; its results are not looked at.
upper_tables : Boot → (top_level n i : ℕ) → Pmm → Outcome Pmm
upper_tables boot top_level zero i s = done s
upper_tables boot top_level (suc n) i s = get_or_allocate_next_level boot top_level i 0 s >>= λ r.
    upper_tables boot top_level n (i + 1) r.1

-- The direct map, one chunk after the other.
map_direct : Boot → (top_level : ℕ) → List Chunk → Pmm → Outcome Pmm
map_direct boot top_level [] s = done s
map_direct boot top_level (c ∷ cs) s =
    let map_base = align_up c.base page_size in
    let map_top = align_up c.bounds page_size in
    (if leb map_top map_base
      then done s
      else map_run boot top_level (rounds_between map_base map_top)
          (add64 map_base boot.hhdm_offset) map_base (λ _. pte_present + pte_writable) s)
    >>= map_direct boot top_level cs

-- The framebuffer's pages; the results are not looked at.
map_framebuffer : Boot → (top_level n virt_addr phys_addr : ℕ) → Pmm → Outcome Pmm
map_framebuffer boot top_level zero virt_addr phys_addr s = done s
map_framebuffer boot top_level (suc n) virt_addr phys_addr s =
    map_page boot top_level virt_addr phys_addr (pte_present + pte_writable + pte_pcd + pte_pat) s
    >>= λ r.
        map_framebuffer boot top_level n (add64 virt_addr page_size) (add64 phys_addr page_size) r.1

pub switch_to_pagemap : Boot → Paging → Outcome Paging
switch_to_pagemap boot v =
    if v.top_level == null
    then panicked
    else done (record v { cr3 = sub64 v.top_level boot.hhdm_offset })

pub setup_vmm : Boot → Sections → List Chunk → Framebuffer → Paging → Outcome Paging
setup_vmm boot k chunks fb v = pp_alloc boot v.pages >>= λ r.
    (if r.0 == null
      then panicked
      else (let pml4_virt = add64 r.0 boot.hhdm_offset in
          let s0 = record r.1 { memory = (memset pml4_virt 0 page_size r.1.memory).1 } in
          let kernel_virt_end = align_up k.bss_end page_size in
          let total_bytes = fb.pitch * fb.height % 2 ^ 32 in
          upper_tables boot pml4_virt 256 256 s0
          >>= map_run boot pml4_virt (rounds_between boot.virtual_base kernel_virt_end)
              boot.virtual_base boot.physical_base (section_flags k)
          >>= map_direct boot pml4_virt chunks
          >>= map_framebuffer boot pml4_virt ((total_bytes + page_size - 1) % 2 ^ 32 / page_size)
              fb.address (sub64 fb.address boot.hhdm_offset)
          >>= λ s. switch_to_pagemap boot (record v { top_level = pml4_virt; pages = s })))
