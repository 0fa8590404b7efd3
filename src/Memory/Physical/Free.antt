-- ===== src/Memory/Physical/Free.antt =====
-- `_pp_free`: it undoes an allocation, and a second call of it changes nothing.
use ada_os.Base.{ℕ, ◌+◌, ◌≤◌, ◌≡◌, inl, inr, true, false, ltb, arith, Bool-cases, sym, ◌∙◌, ap}
use mathlib.Core.Path.{fun_ext}
use ada_os.Memory.Layout.{max_pages}
use ada_os.Memory.Physical.{Pmm, page_free, set_page, pp_free_at}
use ada_os.Memory.Physical.Bitmap.{
  IsCounted, Taken, count_used, count_used-le, page_free-set_page, give-IsCounted,
}

pp_free_at_used :
    (s : Pmm) (i : ℕ) → i ≤ max_pages → page_free s i ≡ false → pp_free_at s i ≡ set_page s i true
unfolding pp_free_at
pp_free_at_used s i range used =
    let inside : ltb max_pages i ≡ false = ground arith in rw (inside, used)

pp_free_at_free : (s : Pmm) (i : ℕ) → page_free s i ≡ true → pp_free_at s i ≡ s
unfolding pp_free_at
pp_free_at_free s i free = ground arith

-- `_pp_free` keeps the counters right, for every page index, used or free, in range or not.
pub pp_free_at-IsCounted :
    {total : ℕ} {s : Pmm} (i : ℕ) → IsCounted total s → IsCounted total (pp_free_at s i)
unfolding pp_free_at
pp_free_at-IsCounted {total} {s} i inv = elim (Bool-cases (ltb max_pages i)) [
  | inl out ↦ rw out inv
  | inr inside ↦ elim (Bool-cases (page_free s i)) [
    | inl free ↦ rw (inside, free) inv
    | inr used ↦ rw (inside, used) (give-IsCounted i inv (ground arith) used)
  ]
]

-- `_pp_free` of a page that an allocation took gives back the set of free pages and both counters
-- that stood before the allocation.
pub pp_free_at-undoes :
    {total : ℕ} {s s' : Pmm} (i : ℕ)
    → IsCounted total s
    → IsCounted total s'
    → i ≤ max_pages
    → Taken (page_free s) (page_free s') i
    → ((j : ℕ) → page_free (pp_free_at s' i) j ≡ page_free s j)
      × ((pp_free_at s' i).used_pages ≡ s.used_pages)
      × ((pp_free_at s' i).free_pages ≡ s.free_pages)
pp_free_at-undoes {s} {s'} i inv inv' range t =
    let back : (j : ℕ) → page_free (pp_free_at s' i) j ≡ page_free s j = λ j.
      rw (pp_free_at_used s' i range t.is_used)
        (ground (arith, page_free-set_page s' i j true inv'.bytes, t.others j, t.was_free)) in
    let c = pp_free_at-IsCounted i inv' in
    let used : (pp_free_at s' i).used_pages ≡ s.used_pages =
      c.used ∙ ap (λ p. count_used p (max_pages + 1)) (fun_ext back) ∙ sym inv.used in
    let bound = count_used-le (page_free s) (max_pages + 1) in
    (back, used, omega (arith, used, c.sum, c.word, inv.sum, inv.word, inv.used, bound))

-- Freeing a page twice is the same as freeing it once: the counters are not touched again.
pub pp_free_at_idempotent :
    {total : ℕ} (s : Pmm) (i : ℕ)
    → IsCounted total s
    → pp_free_at (pp_free_at s i) i ≡ pp_free_at s i
unfolding pp_free_at
pp_free_at_idempotent s i inv = ground (arith, page_free-set_page s i i true inv.bytes)
