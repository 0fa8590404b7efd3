-- ===== src/Memory/Physical/Bitmap.antt =====
-- The bitmap of pmm.c as a set of pages, and its counters.
use ada_os.Base.{
  ℕ, zero, suc, ◌+◌, ◌/◌, ◌%◌, ◌^◌, ◌≤◌, ◌<◌, ◌≡◌, refl, ◌≢◌, Bool, true, false, ltb, ◌==◌,
  if◌then◌else◌, bit_at-set_bit, bit_at-clear_bit, set_bit-lt, clear_bit-lt, arith,
}
use ada_os.Memory.Layout.{max_pages, add64, sub64}
use ada_os.Memory.Physical.{Pmm, page_free, set_page}

abbrev pub IsBytes : Pmm → Type 0
IsBytes s = (i : ℕ) → s.page_bitmap i < 256

-- Marking page `i` changes the answer of `page_free` for `i` and for no other page.
pub page_free-set_page :
    (s : Pmm) (i j : ℕ) (free : Bool)
    → IsBytes s
    → page_free (set_page s i free) j ≡ (if i == j then free else page_free s j)
unfolding page_free set_page
page_free-set_page s i j true bytes =
    ground (arith, bit_at-clear_bit (i % 8) (j % 8) (s.page_bitmap (i / 8)), bytes (i / 8))
page_free-set_page s i j false bytes =
    ground (arith, bit_at-set_bit (i % 8) (j % 8) (s.page_bitmap (i / 8)), bytes (i / 8))

pub set_page-IsBytes : (s : Pmm) (i : ℕ) (free : Bool) → IsBytes s → IsBytes (set_page s i free)
unfolding set_page
set_page-IsBytes s i true bytes k =
    ground (arith, clear_bit-lt (i % 8) 0 (s.page_bitmap (i / 8)), bytes (i / 8), bytes k)
set_page-IsBytes s i false bytes k =
    ground (arith, set_bit-lt (i % 8) 0 (s.page_bitmap (i / 8)), bytes (i / 8), bytes k)

-- The number of pages below `n` that are not free.
pub count_used : (ℕ → Bool) → ℕ → ℕ
count_used is_free zero = 0
count_used is_free (suc n) = count_used is_free n + (if is_free n then 0 else 1)

pub count_used-le : (is_free : ℕ → Bool) (n : ℕ) → count_used is_free n ≤ n
unfolding count_used
count_used-le is_free zero = omega arith
count_used-le is_free (suc n) = ground (arith, count_used-le is_free n)

pub count_used_none :
    (is_free : ℕ → Bool) (n : ℕ) → ((i : ℕ) → is_free i ≡ true) → count_used is_free n ≡ 0
unfolding count_used
count_used_none is_free zero all = refl
count_used_none is_free (suc n) all = ground (arith, count_used_none is_free n all, all n)

-- `after` is `before` with page `i` taken.
pub record Taken (before after : ℕ → Bool) (i : ℕ) : Type 0 where
  pub was_free : before i ≡ true
  pub is_used : after i ≡ false
  pub others : (j : ℕ) → i ≢ j → after j ≡ before j

pub count_used-Taken :
    (before after : ℕ → Bool) (i n : ℕ)
    → Taken before after i
    → count_used after n ≡ count_used before n + (if ltb i n then 1 else 0)
unfolding count_used
count_used-Taken before after i zero t = ground arith
count_used-Taken before after i (suc n) t =
    ground (arith, count_used-Taken before after i n t, t.others n, t.was_free, t.is_used)

-- The counters: `used_pages` is the number of used pages among those that the allocator may hand
-- out, and `free_pages` makes it up to a constant.
pub record IsCounted (total : ℕ) (s : Pmm) : Type 0 where
  pub bytes : IsBytes s
  pub used : s.used_pages ≡ count_used (page_free s) (max_pages + 1)
  pub sum : add64 s.free_pages s.used_pages ≡ total
  pub word : s.free_pages < 2 ^ 64

take_counters :
    (s : Pmm) (i : ℕ)
    → ((set_page s i false).used_pages ≡ add64 s.used_pages 1)
      × ((set_page s i false).free_pages ≡ sub64 s.free_pages 1)
unfolding set_page
take_counters s i = (refl, refl)

give_counters :
    (s : Pmm) (i : ℕ)
    → ((set_page s i true).used_pages ≡ sub64 s.used_pages 1)
      × ((set_page s i true).free_pages ≡ add64 s.free_pages 1)
unfolding set_page
give_counters s i = (refl, refl)

module _ {total : ℕ} {s : Pmm} (i : ℕ) (inv : IsCounted total s) where
  pub set_page-Taken : page_free s i ≡ true → Taken (page_free s) (page_free (set_page s i false)) i
  set_page-Taken free = record {
    was_free = free;
    is_used = ground (arith, page_free-set_page s i i false inv.bytes);
    others = λ j ne. ground (arith, page_free-set_page s i j false inv.bytes);
  }

  pub set_page-Given : page_free s i ≡ false → Taken (page_free (set_page s i true)) (page_free s) i
  set_page-Given used = record {
    was_free = ground (arith, page_free-set_page s i i true inv.bytes);
    is_used = used;
    others = λ j ne. ground (arith, page_free-set_page s i j true inv.bytes);
  }

  pub take-IsCounted : i ≤ max_pages → page_free s i ≡ true → IsCounted total (set_page s i false)
  take-IsCounted range free =
      let counted = count_used-Taken _ _ i (max_pages + 1) (set_page-Taken free) in
      let bound = count_used-le (page_free s) (max_pages + 1) in
      let (used, spare) = take_counters s i in
      record {
        bytes = set_page-IsBytes s i false inv.bytes;
        used = ground (arith, inv.used);
        sum = omega (arith, inv.sum, inv.word, inv.used);
        word = omega arith;
      }

  pub give-IsCounted : i ≤ max_pages → page_free s i ≡ false → IsCounted total (set_page s i true)
  give-IsCounted range used =
      let counted = count_used-Taken _ _ i (max_pages + 1) (set_page-Given used) in
      let bound = count_used-le (page_free s) (max_pages + 1) in
      let (taken, spare) = give_counters s i in
      record {
        bytes = set_page-IsBytes s i true inv.bytes;
        used = ground (arith, inv.used);
        sum = omega (arith, inv.sum, inv.word, inv.used, counted);
        word = omega arith;
      }
