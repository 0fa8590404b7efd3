-- ===== src/Memory/Virtual/Returning.antt =====
-- The functions of vmm.c return or panic: none of their loops goes on for ever.
use ada_os.Base.{
  ℕ, zero, suc, ◌+◌, ◌%◌, not, inr, refl, List, [], ◌∷◌, leb, ◌==◌, Returns, >>=-Returns,
  done-Returns, if-Returns,
}
use ada_os.Memory.Layout.{Boot, page_size, align_up}
use ada_os.Memory.Physical.{Pmm, Chunk, pp_alloc}
use ada_os.Memory.Physical.Returning.{pp_alloc-Returns, pp_free-Returns}
use ada_os.Memory.Virtual.{
  null, is_present, entry_at, is_table_empty, allocate_next_level, get_or_allocate_next_level,
  map_page, pml4_index, pdpt_index, pd_index, pt_index, release_tables, get_next_level, unmap_page,
  Sections, Framebuffer, Paging, map_run, upper_tables, map_direct, map_framebuffer, setup_vmm,
  switch_to_pagemap,
}

get_or_allocate_next_level-Returns :
    (boot : Boot) (level index flags : ℕ) (s : Pmm)
    → Returns (get_or_allocate_next_level boot level index flags s)
unfolding get_or_allocate_next_level allocate_next_level
get_or_allocate_next_level-Returns boot level index flags s =
    if-Returns (is_present (entry_at s.memory level index)) (done-Returns _) (
      >>=-Returns (pp_alloc boot s) _ (pp_alloc-Returns boot s)
        (λ r. if-Returns (r.0 == null) (done-Returns _) (done-Returns _)))

-- `map_page` returns or panics for all tables and all states of the page allocator.
pub map_page-Returns :
    (boot : Boot) (top_level virt_addr phys_addr flags : ℕ) (s : Pmm)
    → Returns (map_page boot top_level virt_addr phys_addr flags s)
unfolding map_page
map_page-Returns boot top_level virt_addr phys_addr flags s =
    let level = get_or_allocate_next_level-Returns boot in
    >>=-Returns _ _ (level top_level _ _ s) (λ r. if-Returns (r.0 == null) (done-Returns _) (
      >>=-Returns _ _ (level r.0 _ _ r.1) (λ r'. if-Returns (r'.0 == null) (done-Returns _) (
        >>=-Returns _ _ (level r'.0 _ _ r'.1)
          (λ r''. if-Returns (r''.0 == null) (done-Returns _) (done-Returns _))))))

release_tables-Returns :
    (pml4 pdpt pd pt virt_addr : ℕ) (entries : ℕ × ℕ × ℕ) (s : Pmm)
    → Returns (release_tables pml4 pdpt pd pt virt_addr entries s)
unfolding release_tables
release_tables-Returns pml4 pdpt pd pt virt_addr (e4, e3, e2) s =
    if-Returns (not (is_table_empty s.memory pt)) (done-Returns _) (
      >>=-Returns _ _ (pp_free-Returns _ _) (λ s1.
        if-Returns (not (is_table_empty s1.memory pd)) (done-Returns _) (
          >>=-Returns _ _ (pp_free-Returns _ _) (λ s2.
            if-Returns (not (is_table_empty s2.memory pdpt)) (done-Returns _) (
              if-Returns (leb 256 (pml4_index virt_addr)) (done-Returns _)
                (pp_free-Returns _ _))))))

-- `unmap_page` returns, for all tables and all states of the page allocator.
pub unmap_page-Returns :
    (boot : Boot) (top_level virt_addr : ℕ) (s : Pmm)
    → Returns (unmap_page boot top_level virt_addr s)
unfolding unmap_page
unmap_page-Returns boot top_level virt_addr s =
    let pdpt = get_next_level boot s.memory top_level (pml4_index virt_addr) in
    let pd = get_next_level boot s.memory pdpt (pdpt_index virt_addr) in
    let pt = get_next_level boot s.memory pd (pd_index virt_addr) in
    if-Returns (not (virt_addr % page_size == 0)) (done-Returns _) (
      if-Returns (pdpt == null) (done-Returns _) (
        if-Returns (pd == null) (done-Returns _) (
          if-Returns (pt == null) (done-Returns _) (
            if-Returns (not (is_present (entry_at s.memory pt (pt_index virt_addr))))
              (done-Returns _)
              (>>=-Returns _ _ (release_tables-Returns _ _ _ _ _ _ _) (λ s'. done-Returns _))))))

map_run-Returns :
    (boot : Boot) (top_level n virt_addr phys_addr : ℕ) (flags_of : ℕ → ℕ) (s : Pmm)
    → Returns (map_run boot top_level n virt_addr phys_addr flags_of s)
unfolding map_run
map_run-Returns boot top_level zero virt_addr phys_addr flags_of s = done-Returns s
map_run-Returns boot top_level (suc n) virt_addr phys_addr flags_of s =
    >>=-Returns _ _ (map_page-Returns boot top_level virt_addr phys_addr (flags_of virt_addr) s)
      (λ r. if-Returns r.0 (map_run-Returns boot top_level n _ _ flags_of r.1) (inr refl))

upper_tables-Returns :
    (boot : Boot) (top_level n i : ℕ) (s : Pmm) → Returns (upper_tables boot top_level n i s)
unfolding upper_tables
upper_tables-Returns boot top_level zero i s = done-Returns s
upper_tables-Returns boot top_level (suc n) i s =
    >>=-Returns _ _ (get_or_allocate_next_level-Returns boot top_level i 0 s)
      (λ r. upper_tables-Returns boot top_level n (i + 1) r.1)

map_direct-Returns :
    (boot : Boot) (top_level : ℕ) (cs : List Chunk) (s : Pmm)
    → Returns (map_direct boot top_level cs s)
unfolding map_direct
map_direct-Returns boot top_level [] s = done-Returns s
map_direct-Returns boot top_level (c ∷ cs) s =
    >>=-Returns _ _
      (if-Returns (leb (align_up c.bounds page_size) (align_up c.base page_size)) (done-Returns s)
        (map_run-Returns boot top_level _ _ _ _ s))
      (map_direct-Returns boot top_level cs)

map_framebuffer-Returns :
    (boot : Boot) (top_level n virt_addr phys_addr : ℕ) (s : Pmm)
    → Returns (map_framebuffer boot top_level n virt_addr phys_addr s)
unfolding map_framebuffer
map_framebuffer-Returns boot top_level zero virt_addr phys_addr s = done-Returns s
map_framebuffer-Returns boot top_level (suc n) virt_addr phys_addr s =
    >>=-Returns _ _ (map_page-Returns boot top_level virt_addr phys_addr _ s)
      (λ r. map_framebuffer-Returns boot top_level n _ _ r.1)

-- `setup_vmm` returns or panics, for every memory map and every layout of the kernel.
pub setup_vmm-Returns :
    (boot : Boot) (k : Sections) (chunks : List Chunk) (fb : Framebuffer) (v : Paging)
    → Returns (setup_vmm boot k chunks fb v)
unfolding setup_vmm switch_to_pagemap
setup_vmm-Returns boot k chunks fb v = >>=-Returns _ _ (pp_alloc-Returns boot v.pages) (λ r.
    if-Returns (r.0 == null) (inr refl) (
      >>=-Returns _ _
        (>>=-Returns _ _
          (>>=-Returns _ _
            (>>=-Returns _ _ (upper_tables-Returns boot _ 256 256 _)
              (map_run-Returns boot _ _ _ _ _))
            (map_direct-Returns boot _ chunks))
          (map_framebuffer-Returns boot _ _ _ _))
        (λ s. if-Returns _ (inr refl) (done-Returns _))))
