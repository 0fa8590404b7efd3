-- ===== src/Memory/Virtual/Walk.antt =====
-- What `map_page` and `unmap_page` mean to the processor, which walks the tables.
use ada_os.Base.{
  ℕ, ◌+◌, ◌*◌, ◌/◌, ◌%◌, ◌^◌, ◌≤◌, ◌<◌, ◌≡◌, refl, ◌≢◌, ◌⊎◌, inl, inr, ◌∙◌, true, false, not, leb,
  ◌==◌, Bool-cases, if◌then◌else◌, bit_or, Option, none, some, Outcome, done, arith, or-lt,
  or_keeps_address, ap,
}
use ada_os.Core.{Memory}
use ada_os.Core.Words.{load64, store64, load64-store64_self, load64-store64_apart, store64-outside}
use ada_os.Memory.Layout.{Boot, add64, page_size}
use ada_os.Memory.Physical.{Pmm}
use ada_os.Memory.Physical.Returning.{pp_free-memory}
use ada_os.Memory.Virtual.{
  null, is_present, entry_at, set_entry, pte_get_addr, is_table_empty, get_or_allocate_next_level,
  get_next_level, map_page, unmap_page, release_tables, pml4_index, pdpt_index, pd_index, pt_index,
  leaf_entry, page_base,
}

-- The physical page that the tables give for a virtual address, or none where an entry on the way
-- is not present.
unfoldable pub translate : Boot → Memory → (top virt_addr : ℕ) → Option ℕ
translate boot m top virt_addr =
    let next =
      λ (table index : ℕ). add64 (pte_get_addr (entry_at m table index)) boot.hhdm_offset in
    let t3 = next top (pml4_index virt_addr) in
    let t2 = next t3 (pdpt_index virt_addr) in
    let t1 = next t2 (pd_index virt_addr) in
    if not (is_present (entry_at m top (pml4_index virt_addr)))
    then none
    else if not (is_present (entry_at m t3 (pdpt_index virt_addr)))
    then none
    else if not (is_present (entry_at m t2 (pd_index virt_addr)))
    then none
    else if is_present (entry_at m t1 (pt_index virt_addr))
    then some (pte_get_addr (entry_at m t1 (pt_index virt_addr)))
    else none

-- The address of the entry that a virtual address has in a table.
abbrev pub slot : (table index : ℕ) → ℕ
slot table index = table + 8 * index

abbrev pub ApartSlots : ℕ → ℕ → Type 0
ApartSlots a b = (a + 8 ≤ b) ⊎ (b + 8 ≤ a)

-- The three upper entries for the address are present, and lead to the tables `t3`, `t2`, `t1`.
pub record Tables (boot : Boot) (m : Memory) (top v t3 t2 t1 : ℕ) : Type 0 where
  pub present4 : is_present (entry_at m top (pml4_index v)) ≡ true
  pub next4 : add64 (pte_get_addr (entry_at m top (pml4_index v))) boot.hhdm_offset ≡ t3
  pub present3 : is_present (entry_at m t3 (pdpt_index v)) ≡ true
  pub next3 : add64 (pte_get_addr (entry_at m t3 (pdpt_index v))) boot.hhdm_offset ≡ t2
  pub present2 : is_present (entry_at m t2 (pd_index v)) ≡ true
  pub next2 : add64 (pte_get_addr (entry_at m t2 (pd_index v))) boot.hhdm_offset ≡ t1
  pub nonnull : (t3 ≢ null) × (t2 ≢ null) × (t1 ≢ null)

translate_leaf :
    {boot : Boot} {m : Memory} {top v t3 t2 t1 : ℕ}
    → Tables boot m top v t3 t2 t1
    → translate boot m top v ≡ (
        if is_present (entry_at m t1 (pt_index v))
        then some (pte_get_addr (entry_at m t1 (pt_index v)))
        else none)
unfolding translate
translate_leaf t = rw (t.present4, t.next4, t.present3, t.next3, t.present2, t.next2) refl

-- Tables whose entries for the address a memory shares.
Tables-same :
    {boot : Boot} {m : Memory} {top v t3 t2 t1 : ℕ} (m' : Memory)
    → entry_at m' top (pml4_index v) ≡ entry_at m top (pml4_index v)
    → entry_at m' t3 (pdpt_index v) ≡ entry_at m t3 (pdpt_index v)
    → entry_at m' t2 (pd_index v) ≡ entry_at m t2 (pd_index v)
    → Tables boot m top v t3 t2 t1
    → Tables boot m' top v t3 t2 t1
Tables-same m' e4 e3 e2 t = record {
  present4 = rw e4 t.present4;
  next4 = rw e4 t.next4;
  present3 = rw e3 t.present3;
  next3 = rw e3 t.next3;
  present2 = rw e2 t.present2;
  next2 = rw e2 t.next2;
  nonnull = t.nonnull;
}

module _ {boot : Boot} (s : Pmm) {top v t3 t2 t1 : ℕ} (t : Tables boot s.memory top v t3 t2 t1)
    (apart4 : ApartSlots (slot top (pml4_index v)) (slot t1 (pt_index v)))
    (apart3 : ApartSlots (slot t3 (pdpt_index v)) (slot t1 (pt_index v)))
    (apart2 : ApartSlots (slot t2 (pd_index v)) (slot t1 (pt_index v))) where
  pub with_leaf : (e : ℕ) → Tables boot (set_entry s t1 (pt_index v) e).memory top v t3 t2 t1
  with_leaf e =
      let leaf = slot t1 (pt_index v) in
      Tables-same (set_entry s t1 (pt_index v) e).memory
        (load64-store64_apart s.memory leaf e (slot top (pml4_index v)) apart4)
        (load64-store64_apart s.memory leaf e (slot t3 (pdpt_index v)) apart3)
        (load64-store64_apart s.memory leaf e (slot t2 (pd_index v)) apart2) t

  -- Where the tables for the address are there, and the entry that `map_page` writes is none of the
  -- three on the way, `map_page` succeeds; the processor then translates the address to the page
  -- that was asked for, and no byte outside that entry has changed. The physical address has 52
  -- bits, and the flags none of an address.
  pub map_page-translate :
      (phys_addr flags : ℕ)
      → phys_addr < 2 ^ 52
      → flags < 2 ^ 64
      → flags / 4096 % 2 ^ 40 ≡ 0
      → (s' : Pmm) × (map_page boot top v phys_addr flags s ≡ done (true, s'))
        × (translate boot s'.memory top v ≡ some (page_base phys_addr))
        × ((x : ℕ)
            → (x < slot t1 (pt_index v)) ⊎ (slot t1 (pt_index v) + 8 ≤ x)
            → s'.memory x ≡ s.memory x)
  unfolding map_page get_or_allocate_next_level
  map_page-translate phys_addr flags phys word clear =
      let e = leaf_entry phys_addr flags in
      let k = or_keeps_address (page_base phys_addr) flags (omega arith) clear in
      let small : e < 2 ^ 64 =
        or-lt (bit_or (page_base phys_addr) flags) 1
          (or-lt (page_base phys_addr) flags (omega arith) word) (omega arith) in
      let leaf : entry_at (set_entry s t1 (pt_index v) e).memory t1 (pt_index v) ≡ e =
        load64-store64_self s.memory (slot t1 (pt_index v)) e small in
      let present : is_present e ≡ true = ground (arith, k) in
      let address : pte_get_addr e ≡ page_base phys_addr = omega (arith, k) in
      let three : (t3 == null) ≡ false = ground (arith, t.nonnull) in
      let two : (t2 == null) ≡ false = ground (arith, t.nonnull) in
      let one : (t1 == null) ≡ false = ground (arith, t.nonnull) in
      (
        set_entry s t1 (pt_index v) e,
        rw (t.present4, t.next4, three, t.present3, t.next3, two, t.present2, t.next2, one) refl,
        translate_leaf (with_leaf e) ∙ rw (leaf, present, address) refl,
        λ x out. store64-outside s.memory (slot t1 (pt_index v)) e x out,
      )

not_present4 :
    (boot : Boot) (m : Memory) (top v : ℕ)
    → is_present (entry_at m top (pml4_index v)) ≡ false
    → translate boot m top v ≡ none
unfolding translate
not_present4 boot m top v e = rw e refl

-- The three tables lead to one another, and the third has no entry for the address, or the second
-- or the first has none.
module _ {boot : Boot} (m m' : Memory) {top v t3 t2 t1 : ℕ} (t : Tables boot m top v t3 t2 t1)
    (same4 : entry_at m' top (pml4_index v) ≡ entry_at m top (pml4_index v)) where
  not_present3 : is_present (entry_at m' t3 (pdpt_index v)) ≡ false → translate boot m' top v ≡ none
  unfolding translate
  not_present3 e = rw (same4, t.present4, t.next4, e) refl

  not_present2 :
      entry_at m' t3 (pdpt_index v) ≡ entry_at m t3 (pdpt_index v)
      → is_present (entry_at m' t2 (pd_index v)) ≡ false
      → translate boot m' top v ≡ none
  unfolding translate
  not_present2 same3 e = rw (same4, t.present4, t.next4, same3, t.present3, t.next3, e) refl

cleared : (m : Memory) (a : ℕ) → is_present (load64 (store64 m a 0) a) ≡ false
cleared m a =
    let e : load64 (store64 m a 0) a ≡ 0 = load64-store64_self m a 0 (omega arith) in rw e refl

-- The four entries for an address are apart.
pub record AllApart (top v t3 t2 t1 : ℕ) : Type 0 where
  pub apart41 : ApartSlots (slot top (pml4_index v)) (slot t1 (pt_index v))
  pub apart31 : ApartSlots (slot t3 (pdpt_index v)) (slot t1 (pt_index v))
  pub apart21 : ApartSlots (slot t2 (pd_index v)) (slot t1 (pt_index v))
  pub apart42 : ApartSlots (slot top (pml4_index v)) (slot t2 (pd_index v))
  pub apart32 : ApartSlots (slot t3 (pdpt_index v)) (slot t2 (pd_index v))
  pub apart43 : ApartSlots (slot top (pml4_index v)) (slot t3 (pdpt_index v))

-- The address is not translated after the tables are given back.
abbrev Untranslated : Boot → (top v : ℕ) → Outcome Pmm → Type 0
Untranslated boot top v run = (s' : Pmm) × (run ≡ done s') × (translate boot s'.memory top v ≡ none)

module _ {boot : Boot} (s : Pmm) {top v t3 t2 t1 : ℕ} (t : Tables boot s.memory top v t3 t2 t1)
    (apart : AllApart top v t3 t2 t1) (e4 e3 e2 : ℕ) where
  no_leaf :
      is_present (entry_at s.memory t1 (pt_index v)) ≡ false → translate boot s.memory top v ≡ none
  no_leaf absent = translate_leaf t ∙ rw absent refl

  release_third :
      is_table_empty s.memory t1 ≡ true
      → Untranslated boot top v (release_tables top t3 t2 t1 v (e4, e3, e2) s)
  unfolding release_tables
  release_third empty =
      let slot2 = slot t2 (pd_index v) in
      let slot3 = slot t3 (pdpt_index v) in
      let m1 = store64 s.memory slot2 0 in
      let m2 = store64 m1 slot3 0 in
      let (s1, run1, same1) = pp_free-memory (set_entry s t2 (pd_index v) 0) (pte_get_addr e2) in
      let (s2, run2, same2) = pp_free-memory (set_entry s1 t3 (pdpt_index v) 0) (pte_get_addr e3) in
      let (s3, run3, same3) =
        pp_free-memory (set_entry s2 top (pml4_index v) 0) (pte_get_addr e4) in
      let two : translate boot m1 top v ≡ none =
        not_present2 s.memory m1 t
          (load64-store64_apart s.memory slot2 0 (slot top (pml4_index v)) apart.apart42)
          (load64-store64_apart s.memory slot2 0 slot3 apart.apart32) (cleared s.memory slot2) in
      let at2 : s2.memory ≡ m2 = same2 ∙ ap (λ (m : Memory). store64 m slot3 0) same1 in
      let three : translate boot m2 top v ≡ none =
        not_present3 s.memory m2 t
          (load64-store64_apart m1 slot3 0 (slot top (pml4_index v)) apart.apart43
            ∙ load64-store64_apart s.memory slot2 0 (slot top (pml4_index v)) apart.apart42)
          (cleared m1 slot3) in
      let four : translate boot s3.memory top v ≡ none = rw same3 (
        not_present4 boot (store64 s2.memory (slot top (pml4_index v)) 0) top v
          (cleared s2.memory (slot top (pml4_index v)))) in
      elim (Bool-cases (is_table_empty s1.memory t2)) [
        | inr some2 ↦ (s1, rw (empty, run1, some2) refl, rw same1 two)
        | inl empty2 ↦ elim (Bool-cases (is_table_empty s2.memory t3)) [
          | inr some3 ↦ (s2, rw (empty, run1, empty2, run2, some3) refl, rw at2 three)
          | inl empty3 ↦ elim (Bool-cases (leb 256 (pml4_index v))) [
            | inl upper ↦ (s2, rw (empty, run1, empty2, run2, empty3, upper) refl, rw at2 three)
            | inr lower ↦ (s3, rw (empty, run1, empty2, run2, empty3, lower) run3, four)
          ]
        ]
      ]

  release-Untranslated :
      is_present (entry_at s.memory t1 (pt_index v)) ≡ false
      → Untranslated boot top v (release_tables top t3 t2 t1 v (e4, e3, e2) s)
  unfolding release_tables
  release-Untranslated absent = elim (Bool-cases (is_table_empty s.memory t1)) [
    | inr some1 ↦ (s, rw some1 refl, no_leaf absent)
    | inl empty ↦ release_third empty
  ]

-- After `unmap_page` of a page-aligned address for which there are tables, it has no translation,
-- whether or not it had one before, and whichever tables have become empty and are given back. The
-- four entries for the address lie apart.
pub unmap_page-translate :
    {boot : Boot} (s : Pmm) {top v t3 t2 t1 : ℕ}
    → Tables boot s.memory top v t3 t2 t1
    → AllApart top v t3 t2 t1
    → v % page_size ≡ 0
    → (s' : Pmm) × (unmap_page boot top v s ≡ done (true, s'))
      × (translate boot s'.memory top v ≡ none)
unfolding unmap_page get_next_level
unmap_page-translate {boot} s {top} {v} {t3} {t2} {t1} t apart aligned =
    let whole : (v % page_size == 0) ≡ true = ground (arith, aligned) in
    let three : (t3 == null) ≡ false = ground (arith, t.nonnull) in
    let two : (t2 == null) ≡ false = ground (arith, t.nonnull) in
    let one : (t1 == null) ≡ false = ground (arith, t.nonnull) in
    elim (Bool-cases (is_present (entry_at s.memory t1 (pt_index v)))) [
      | inr absent ↦ (
        s,
        rw
            (
              whole, t.present4, t.next4, three, t.present3, t.next3, two, t.present2, t.next2, one,
              absent,
            )
            refl,
        translate_leaf t ∙ rw absent refl,
      )
      | inl here ↦
          let (s', run, gone) =
            release-Untranslated (set_entry s t1 (pt_index v) 0)
              (with_leaf s t apart.apart41 apart.apart31 apart.apart21 0) apart
              (entry_at s.memory top (pml4_index v)) (entry_at s.memory t3 (pdpt_index v))
              (entry_at s.memory t2 (pd_index v)) (cleared s.memory (slot t1 (pt_index v))) in
          (
            s',
            rw
                (
                  whole, t.present4, t.next4, three, t.present3, t.next3, two, t.present2, t.next2,
                  one, here, run,
                )
                refl,
            gone,
          )
    ]
