-- ===== src/Memory/Physical/Returning.antt =====
-- The functions of pmm.c return or panic: none of their loops goes on for ever.
use ada_os.Base.{
  List, length, ℕ, ◌%◌, ◌≤◌, arith, ◌≡◌, refl, inl, inr, Bool, false, not, ltb, leb, ◌==◌,
  if◌then◌else◌, Outcome, done, Returns, ◌∙◌, Bool-cases, >>=-Returns, done-Returns, if-Returns,
}
use ada_os.Memory.Layout.{Boot, max_pages, max_segments, page_size}
use ada_os.Memory.Physical.{
  Chunk, setup_pmm, setup_tables, reserve_tables, Pmm, null, no_page, page_free, set_page, retry,
  rounds, page_to_ptr, ptr_to_page, pp_alloc_at, pp_alloc, pp_free, pp_free_at, holds_ptr,
  address_page,
}
use ada_os.Memory.Physical.Search.{retry-Ends}
use ada_os.Memory.Physical.Alloc.{get_free_page_lem}

retry-Returns :
    (hit : ℕ → Bool) (count last : ℕ) → Returns (retry hit count (rounds count) last false)
retry-Returns hit count last =
    let e = retry-Ends hit count last in inl ((e.index, e.hits), e.returns)

-- `page_to_ptr` returns, whatever the page, the mappings and the index of the mapping used last.
pub page_to_ptr-Returns : (s : Pmm) (i : ℕ) → Returns (page_to_ptr s i)
unfolding page_to_ptr
page_to_ptr-Returns s i =
    if-Returns _ (done-Returns _) (>>=-Returns _ _ (retry-Returns _ _ _) (λ r. done-Returns _))

pub ptr_to_page-Returns : (s : Pmm) (ptr : ℕ) → Returns (ptr_to_page s ptr)
unfolding ptr_to_page
ptr_to_page-Returns s ptr = if-Returns (ptr == null) (done-Returns _) (
    if-Returns (not (ptr % page_size == 0)) (done-Returns _)
      (>>=-Returns _ _ (retry-Returns _ _ _) (λ r. done-Returns _)))

pp_alloc_at-Returns : (boot : Boot) (s : Pmm) (i : ℕ) → Returns (pp_alloc_at boot s i)
unfolding pp_alloc_at
pp_alloc_at-Returns boot s i = if-Returns (leb boot.physical_base i) (done-Returns _) (
    if-Returns (ltb max_pages i) (done-Returns _) (
      if-Returns (not (page_free s i)) (done-Returns _)
        (>>=-Returns _ _ (page_to_ptr-Returns _ _) (λ r. done-Returns _))))

-- `pp_alloc` returns or panics, in every state.
pub pp_alloc-Returns : (boot : Boot) (s : Pmm) → Returns (pp_alloc boot s)
unfolding pp_alloc
pp_alloc-Returns boot s = elim (get_free_page_lem boot s) [
  | inl (i, e, _, _, _) ↦ rw e (pp_alloc_at-Returns boot _ i)
  | inr (e, _) ↦ rw e (inr refl)
]

-- `pp_free` returns, in every state and for every pointer.
pub pp_free-Returns : (s : Pmm) (ptr : ℕ) → Returns (pp_free s ptr)
unfolding pp_free
pp_free-Returns s ptr =
    >>=-Returns (ptr_to_page s ptr) _ (ptr_to_page-Returns s ptr) (λ r. done-Returns _)

pp_free_at-memory : (s : Pmm) (i : ℕ) → (pp_free_at s i).memory ≡ s.memory
unfolding pp_free_at set_page
pp_free_at-memory s i = elim (Bool-cases (ltb max_pages i)) [
  | inl out ↦ rw out refl
  | inr inside ↦ elim (Bool-cases (page_free s i)) [
    | inl free ↦ rw (inside, free) refl
    | inr used ↦ rw (inside, used) refl
  ]
]

-- `ptr_to_page` leaves the memory as it is.
abbrev Keeps : Pmm → Outcome (ℕ × Pmm) → Type 0
Keeps s run = (i : ℕ) × (s' : Pmm) × (run ≡ done (i, s')) × (s'.memory ≡ s.memory)

ptr_to_page-memory : (s : Pmm) (ptr : ℕ) → Keeps s (ptr_to_page s ptr)
unfolding ptr_to_page
ptr_to_page-memory s ptr =
    let e = retry-Ends (λ k. holds_ptr (s.page_mappings k) ptr) s.chunk_count s.last_used_mapping in
    elim (Bool-cases (ptr == null)) [
      | inl is_null ↦ (no_page, s, rw is_null refl, refl)
      | inr nonnull ↦ elim (Bool-cases (ptr % page_size == 0)) [
        | inl whole ↦ (
          if e.hits then address_page (s.page_mappings e.index) ptr else no_page,
          record s { last_used_mapping = e.index },
          rw (nonnull, whole, e.returns) refl,
          refl,
        )
        | inr odd ↦ (no_page, s, rw (nonnull, odd) refl, refl)
      ]
    ]

-- `pp_free` returns and leaves the memory as it is.
pub pp_free-memory :
    (s : Pmm) (ptr : ℕ) → (s' : Pmm) × (pp_free s ptr ≡ done s') × (s'.memory ≡ s.memory)
unfolding pp_free
pp_free-memory s ptr =
    let (i, s1, e, same) = ptr_to_page-memory s ptr in
    (pp_free_at s1 i, rw e refl, pp_free_at-memory s1 i ∙ same)

pub setup_pmm-Returns :
    (boot : Boot) (chunks : List Chunk) (bitmap : ℕ) (s : Pmm)
    → length chunks ≤ 32
    → Returns (setup_pmm boot chunks bitmap s)
unfolding setup_pmm setup_tables
setup_pmm-Returns boot chunks bitmap s few =
    let fits : ltb max_segments (length chunks) ≡ false = ground (arith, few) in
    rw fits (
      >>=-Returns _ _ (pp_alloc-Returns boot (reserve_tables boot chunks bitmap s))
        (λ r. done-Returns r.1))
