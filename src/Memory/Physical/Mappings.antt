-- ===== src/Memory/Physical/Mappings.antt =====
-- `page_to_ptr` and `ptr_to_page`: both return, and the second takes back what the first gives.
use ada_os.Base.{
  ℕ, ◌+◌, ◌-◌, ◌*◌, ◌%◌, ◌^◌, ◌≤◌, ◌<◌, ◌≡◌, refl, ◌≢◌, ◌⊎◌, inl, inr, Bool, true, false, ltb, ◌==◌,
  if◌then◌else◌, done, ◌>>=◌, arith,
}
use ada_os.Memory.Layout.{page_size, max_pages}
use ada_os.Memory.Physical.{
  Pmm, Mapping, null, holds_page, page_address, page_to_ptr, segment_size, holds_ptr, address_page,
  ptr_to_page,
}
use ada_os.Memory.Physical.Search.{Found, retry-Ends, retry_at_once}

-- The pointer is in the mapping that was found, or NULL where no mapping has the page.
abbrev pub Translates : Pmm → ℕ → ℕ → ℕ → Type 0
Translates s page_index p j =
    ((holds_page (s.page_mappings j) page_index ≡ true)
      × (p ≡ page_address (s.page_mappings j) page_index))
    ⊎ ((p ≡ null)
        × ((k : ℕ) → k ≤ s.chunk_count + 1 → holds_page (s.page_mappings k) page_index ≡ false))

translate :
    (s : Pmm) (page_index j : ℕ) (hits : Bool)
    → Found (λ k. holds_page (s.page_mappings k) page_index) s.chunk_count j hits
    → Translates s page_index (if hits then page_address (s.page_mappings j) page_index else null) j
translate s page_index j true found = inl (found, refl)
translate s page_index j false found = inr (refl, found)

-- For a page index in range `page_to_ptr` returns, whatever mapping was used last. It changes
-- `last_used_mapping` alone, and gives NULL only where no mapping up to `chunk_count + 1` has the
-- page strictly between its two indices.
pub page_to_ptr-Translates :
    (s : Pmm) (page_index : ℕ)
    → page_index ≤ max_pages
    → (p j : ℕ) × (page_to_ptr s page_index ≡ done (p, record s { last_used_mapping = j }))
      × Translates s page_index p j
unfolding page_to_ptr
page_to_ptr-Translates s page_index range =
    let hit = λ (k : ℕ). holds_page (s.page_mappings k) page_index in
    let e = retry-Ends hit s.chunk_count s.last_used_mapping in
    let inside : ltb max_pages page_index ≡ false = ground arith in
    (_, e.index, rw (inside, e.returns), translate s page_index e.index e.hits e.found)

-- A mapping that does not run over the end of the address space.
pub record Fits (m : Mapping) : Type 0 where
  pub aligned : m.offset % page_size ≡ 0
  pub ordered : m.page_start_index ≤ m.page_end_index
  pub below : m.offset + (m.page_end_index - m.page_start_index) * page_size < 2 ^ 64
  pub word : m.page_end_index < 2 ^ 64

holds_page_bounds :
    (m : Mapping) (page_index : ℕ)
    → holds_page m page_index ≡ true
    → (m.page_start_index < page_index) × (page_index < m.page_end_index)
holds_page_bounds m page_index h = ground arith

-- Inside the mapping the address arithmetic does not wrap.
page_address_exact :
    (m : Mapping) (page_index : ℕ)
    → Fits m
    → holds_page m page_index ≡ true
    → page_address m page_index ≡ m.offset + (page_index - m.page_start_index) * page_size
page_address_exact m page_index fits h =
    let b = holds_page_bounds m page_index h in omega (arith, fits.below, fits.word)

segment_size_exact :
    (m : Mapping) → Fits m → segment_size m ≡ (m.page_end_index - m.page_start_index) * page_size
segment_size_exact m fits = omega (arith, fits.below, fits.word, fits.ordered)

-- The address of a page in such a mapping, and the way back.
pub address_page_of :
    (m : Mapping) (page_index : ℕ)
    → Fits m
    → holds_page m page_index ≡ true
    → (page_address m page_index ≢ null)
      × (page_address m page_index % page_size ≡ 0)
      × (holds_ptr m (page_address m page_index) ≡ true)
      × (address_page m (page_address m page_index) ≡ page_index)
address_page_of m page_index fits h =
    let b = holds_page_bounds m page_index h in
    let e = page_address_exact m page_index fits h in
    let z = segment_size_exact m fits in
    rw (e, z)
      (
        omega (arith, fits.below),
        omega (arith, fits.aligned),
        ground (arith, fits.below),
        omega (arith, fits.below, fits.word),
      )

-- Where the mapping that was used last has the page, `ptr_to_page` takes the pointer that
-- `page_to_ptr` gives back to the page.
pub ptr_to_page-page_to_ptr :
    (s : Pmm) (page_index : ℕ)
    → page_index ≤ max_pages
    → Fits (s.page_mappings s.last_used_mapping)
    → holds_page (s.page_mappings s.last_used_mapping) page_index ≡ true
    → (page_to_ptr s page_index >>= λ r. ptr_to_page r.1 r.0) ≡ done (page_index, s)
unfolding page_to_ptr ptr_to_page
ptr_to_page-page_to_ptr s page_index range fits h =
    let last = s.last_used_mapping in
    let m = s.page_mappings last in
    let a = address_page_of m page_index fits h in
    let inside : ltb max_pages page_index ≡ false = ground arith in
    let e = retry_at_once (λ k. holds_page (s.page_mappings k) page_index) s.chunk_count last h in
    let f =
      retry_at_once (λ k. holds_ptr (s.page_mappings k) (page_address m page_index)) s.chunk_count
        last a.2 in
    let nonnull : (page_address m page_index == null) ≡ false = ground arith in
    let whole : (page_address m page_index % page_size == 0) ≡ true = ground arith in
    rw (inside, e) (rw (nonnull, whole, f, a.3))
