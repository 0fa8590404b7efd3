-- ===== src/Memory/Physical/Alloc.antt =====
-- `get_free_page`, `_pp_alloc` and `pp_alloc`: which page they take, and what else changes.
use ada_os.Base.{
  ℕ, zero, suc, ◌+◌, ◌≤◌, ◌<◌, ◌≡◌, refl, ◌⊎◌, inl, inr, true, false, ltb, leb, if◌then◌else◌, none,
  some, done, panicked, arith, Bool-cases, sym, ◌∙◌,
}
use ada_os.Core.{Memory, memset}
use ada_os.Core.Copying.{within, memset-at}
use ada_os.Memory.Layout.{add64, page_size, max_pages, Boot}
use ada_os.Memory.Physical.{
  Pmm, page_free, set_page, first_free, rewind, search_all, get_free_page, pp_alloc_at, pp_alloc,
}
use ada_os.Memory.Physical.Bitmap.{IsCounted, Taken, set_page-Taken, take-IsCounted}
use ada_os.Memory.Physical.Mappings.{Translates, page_to_ptr-Translates}

abbrev pub AllUsed : Pmm → Type 0
AllUsed s = (j : ℕ) → 1 ≤ j → j ≤ max_pages → page_free s j ≡ false

first_free_lem :
    (s : Pmm) (n i : ℕ)
    → ((first_free s n i ≡ none) × ((j : ℕ) → i ≤ j → j < i + n → page_free s j ≡ false))
      ⊎ ((j : ℕ) × (first_free s n i ≡ some j) × (page_free s j ≡ true) × (i ≤ j) × (j < i + n))
unfolding first_free
first_free_lem s zero i = inl (refl, λ j h k. absurd (omega arith))
first_free_lem s (suc n) i = elim (Bool-cases (page_free s i)) [
  | inl free ↦ inr (i, rw (free, first_free), free, omega arith, omega arith)
  | inr used ↦ elim (first_free_lem s n (i + 1)) [
    | inl (e, all) ↦ inl (rw (used, first_free) e, λ j h k. ground (arith, all j))
    | inr (j, e, f, lo, hi) ↦ inr (j, rw (used, first_free) e, f, omega arith, omega arith)
  ]
]

abbrev with_last : Pmm → ℕ → Pmm
with_last s i = record s { last_page_used = i }

rewind_lem : (boot : Boot) (last : ℕ) → add64 (rewind boot last) 1 ≤ max_pages
unfolding rewind
rewind_lem boot last = ground arith

next_pos : (boot : Boot) (last : ℕ) → 1 ≤ add64 (rewind boot last) 1
unfolding rewind
next_pos boot last = ground arith

page_free-with_last : (s : Pmm) (i j : ℕ) → page_free (with_last s i) j ≡ page_free s j
unfolding page_free
page_free-with_last s i j = refl

search_all_lem :
    (s : Pmm) (k : ℕ)
    → ((i : ℕ) × (search_all (with_last s k) ≡ done (i, with_last s i))
        × (page_free s i ≡ true)
        × (1 ≤ i)
        × (i ≤ max_pages))
      ⊎ ((search_all (with_last s k) ≡ panicked) × AllUsed s)
unfolding search_all
search_all_lem s k = elim (first_free_lem (with_last s k) max_pages 1) [
  | inl (e, all) ↦
      inr (rw (e, search_all), λ j lo hi. sym (page_free-with_last s k j) ∙ all j lo (omega arith))
  | inr (j, e, f, lo, hi) ↦
      inl (j, rw (e, search_all), sym (page_free-with_last s k j) ∙ f, lo, omega arith)
]

-- `get_free_page` either returns a page from 1 to MAX_PAGES that is free, and records it in
-- `last_page_used` and nowhere else, or it panics; it panics only when all those pages are used.
pub get_free_page_lem :
    (boot : Boot) (s : Pmm)
    → ((i : ℕ) × (get_free_page boot s ≡ done (i, record s { last_page_used = i }))
        × (page_free s i ≡ true)
        × (1 ≤ i)
        × (i ≤ max_pages))
      ⊎ ((get_free_page boot s ≡ panicked) × AllUsed s)
unfolding get_free_page
get_free_page_lem boot s =
    let next = add64 (rewind boot s.last_page_used) 1 in
    elim (Bool-cases (page_free (with_last s next) next)) [
      | inl free ↦ inl (
        next,
        rw free,
        rw (page_free-with_last s next next) at free,
        next_pos boot s.last_page_used,
        rewind_lem boot s.last_page_used,
      )
      | inr used ↦ rw used (search_all_lem s next)
    ]

-- The last page mapping used and the memory stand outside the bitmap and its counters.
IsCounted-elsewhere :
    {total : ℕ} (t : Pmm) (j : ℕ) (m : Memory)
    → IsCounted total t
    → IsCounted total (record t { last_used_mapping = j; memory = m })
unfolding page_free
IsCounted-elsewhere t j m c = record { bytes = c.bytes; used = c.used; sum = c.sum; word = c.word }

page_free-elsewhere :
    (t : Pmm) (j : ℕ) (m : Memory) (i : ℕ)
    → page_free (record t { last_used_mapping = j; memory = m }) i ≡ page_free t i
unfolding page_free
page_free-elsewhere t j m i = refl

-- The state after page `i` is taken: the counters stay right, only that page changes, and the
-- page at the address `p` that is returned reads as zeros.
pub record Allocated (boot : Boot) (total : ℕ) (s : Pmm) (i p : ℕ) (s' : Pmm) : Type 0 where
  pub counted : IsCounted total s'
  pub taken : Taken (page_free s) (page_free s') i
  pub mapping : (j : ℕ) × Translates s i p j
  pub cleared :
      (a : ℕ)
      → s'.memory a ≡ (if within (add64 p boot.hhdm_offset) page_size a then 0 else s.memory a)

abbrev alloc_state : Boot → Pmm → (i p j : ℕ) → Pmm
alloc_state boot s i p j =
    let t = set_page s i false in
    record t {
      last_used_mapping = j;
      memory = (memset (add64 p boot.hhdm_offset) 0 page_size t.memory).1;
    }

Translates-set_page :
    (s : Pmm) (i p j : ℕ) → Translates (set_page s i false) i p j → Translates s i p j
unfolding set_page
Translates-set_page s i p j t = t

alloc_state-Allocated :
    (boot : Boot) {total : ℕ} {s : Pmm} (i p j : ℕ)
    → IsCounted total s
    → i ≤ max_pages
    → page_free s i ≡ true
    → Translates (set_page s i false) i p j
    → Allocated boot total s i p (alloc_state boot s i p j)
unfolding set_page
alloc_state-Allocated boot {s} i p j inv range free found =
    let t = set_page s i false in
    let m = (memset (add64 p boot.hhdm_offset) 0 page_size t.memory).1 in
    let taken = set_page-Taken i inv free in
    record {
      counted = IsCounted-elsewhere t j m (take-IsCounted i inv range free);
      taken = record {
        was_free = free;
        is_used = page_free-elsewhere t j m i ∙ taken.is_used;
        others = λ k ne. page_free-elsewhere t j m k ∙ taken.others k ne;
      };
      mapping = (j, Translates-set_page s i p j found);
      cleared = memset-at (add64 p boot.hhdm_offset) 0 page_size t.memory;
    }

-- `_pp_alloc` of a free page below the guard returns, takes that page and no other, keeps the
-- counters right, and clears one page of memory at the returned address.
pub pp_alloc_at-Allocated :
    (boot : Boot) {total : ℕ} {s : Pmm} (i : ℕ)
    → IsCounted total s
    → i < boot.physical_base
    → i ≤ max_pages
    → page_free s i ≡ true
    → (p : ℕ) × (s' : Pmm) × (pp_alloc_at boot s i ≡ done (p, s')) × Allocated boot total s i p s'
unfolding pp_alloc_at set_page
pp_alloc_at-Allocated boot {total} {s} i inv low range free =
    let (p, j, returns, found) = page_to_ptr-Translates (set_page s i false) i range in
    let below : leb boot.physical_base i ≡ false = ground arith in
    let inside : ltb max_pages i ≡ false = ground arith in
    (
      p,
      alloc_state boot s i p j,
      rw (below, inside, free, returns),
      alloc_state-Allocated boot i p j inv range free found,
    )

IsCounted-with_last :
    {total : ℕ} (s : Pmm) (i : ℕ) → IsCounted total s → IsCounted total (with_last s i)
unfolding page_free
IsCounted-with_last s i c = record { bytes = c.bytes; used = c.used; sum = c.sum; word = c.word }

Allocated-with_last :
    (boot : Boot) {total : ℕ} (s : Pmm) (i p : ℕ) {s' : Pmm}
    → Allocated boot total (with_last s i) i p s'
    → Allocated boot total s i p s'
unfolding page_free
Allocated-with_last boot s i p a = record {
  counted = a.counted;
  taken = record {
    was_free = a.taken.was_free;
    is_used = a.taken.is_used;
    others = a.taken.others;
  };
  mapping = a.mapping;
  cleared = a.cleared;
}

-- `pp_alloc` when the kernel is loaded above address 2 ^ 20 and the counters are right: it panics only
-- if every page is used, and otherwise takes exactly one page, which was free. It returns the address
-- that a mapping gives the page, or NULL if none holds it; it clears the page of memory at what it
-- returns, in the direct map; and the counters stay right.
pub pp_alloc-Allocated :
    (boot : Boot) {total : ℕ} {s : Pmm}
    → IsCounted total s
    → max_pages < boot.physical_base
    → ((i p : ℕ) × (s' : Pmm) × (pp_alloc boot s ≡ done (p, s'))
        × (1 ≤ i)
        × (i ≤ max_pages)
        × Allocated boot total s i p s')
      ⊎ ((pp_alloc boot s ≡ panicked) × AllUsed s)
unfolding pp_alloc
pp_alloc-Allocated boot {s} inv high = elim (get_free_page_lem boot s) [
  | inl (i, e, free, lo, hi) ↦
      let t = with_last s i in
      let (p, s', returns, a) =
        pp_alloc_at-Allocated boot i (IsCounted-with_last s i inv) (omega arith) hi
          (page_free-with_last s i i ∙ free) in
      inl (i, p, s', rw e returns, lo, hi, Allocated-with_last boot s i p a)
  | inr (e, all) ↦ inr (rw e, all)
]
