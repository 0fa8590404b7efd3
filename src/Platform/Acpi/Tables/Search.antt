-- ===== src/Platform/Acpi/Tables/Search.antt =====
-- The search for a table.
use ada_os.Base.{
  ℕ, zero, suc, ◌+◌, ◌<◌, ◌≡◌, refl, sym, subst, ◌⊎◌, inl, inr, Bool, true, false, List, ◌==◌,
  ==_iff, arith, Bool-cases, Ends, done-Ends, >>=-Ends, if-Ends, Returns-Ends,
}
use ada_os.Core.{Memory}
use ada_os.Memory.Layout.{Boot}
use ada_os.Memory.Physical.{Pmm}
use ada_os.Memory.Virtual.{map_page, null}
use ada_os.Memory.Virtual.Returning.{map_page-Returns}
use ada_os.Platform.Acpi.Tables.{
  has_signature, entries_of, pointer_at, higher_half, find_from, find_table,
}

module _ (boot : Boot) (top_level : ℕ) (m : Memory) where
  -- Where the table lies that entry `i` of the root table points to.
  abbrev pub table_at : (root i : ℕ) → ℕ
  table_at root i = higher_half boot top_level m (pointer_at m root i)

  -- The first table of `n` with the signature, or NULL if there is none.
  abbrev pub FirstTable : (root n : ℕ) → List ℕ → ℕ → Type 0
  FirstTable root n signature r =
      ((i : ℕ) × (i < n)
        × (r ≡ table_at root i)
        × (has_signature m r signature ≡ true)
        × ((j : ℕ) → j < i → has_signature m (table_at root j) signature ≡ false))
      ⊎ ((r ≡ null) × ((j : ℕ) → j < n → has_signature m (table_at root j) signature ≡ false))

  pub map_page-Ends :
      (virt phys flags : ℕ) (s : Pmm)
      → Ends (λ (r : Bool × Pmm). Unit {0}) (map_page boot top_level virt phys flags s)
  map_page-Ends virt phys flags s =
      Returns-Ends _ (map_page-Returns boot top_level virt phys flags s)

  extended :
      (root : ℕ) (signature : List ℕ) (i : ℕ)
      → ((j : ℕ) → j < i → has_signature m (table_at root j) signature ≡ false)
      → has_signature m (table_at root i) signature ≡ false
      → (j : ℕ) → j < i + 1
      → has_signature m (table_at root j) signature ≡ false
  extended root signature i before absent j h = elim (Bool-cases (j == i)) [
    | inl same ↦
        subst (λ k. has_signature m (table_at root k) signature ≡ false) (sym ((==_iff j i).0 same))
          absent
    | inr less ↦ before j (ground (arith, less, h))
  ]

  find_from-Ends :
      (root : ℕ) (signature : List ℕ) (n i k : ℕ) (s : Pmm)
      → i + n ≡ k
      → ((j : ℕ) → j < i → has_signature m (table_at root j) signature ≡ false)
      → Ends
          (λ (r : ℕ × Pmm). FirstTable root k signature r.0)
          (find_from boot top_level m n i root signature s)
  unfolding find_from
  find_from-Ends root signature zero i k s e before =
      done-Ends _ _ (inr (refl, λ j h. before j (omega arith)))
  find_from-Ends root signature (suc n) i k s e before =
      >>=-Ends _ _ _ _ (map_page-Ends _ _ _ s) (λ r _.
        if-Ends _ _ (λ here. done-Ends _ _ (inl (i, omega arith, refl, here, before)))
          (λ absent.
            find_from-Ends root signature n (i + 1) k r.1 (omega arith)
              (extended root signature i before absent)))

  -- `find_table` returns, unless mapping a page panics: with the address of the first table that
  -- the root table points to and that has the signature, or with NULL if none has it.
  pub find_table-FirstTable :
      (root : ℕ) (signature : List ℕ) (s : Pmm)
      → Ends
          (λ (r : ℕ × Pmm). FirstTable root (entries_of m root) signature r.0)
          (find_table boot top_level m root signature s)
  unfolding find_table
  find_table-FirstTable root signature s =
      find_from-Ends root signature (entries_of m root) 0 (entries_of m root) s (omega arith)
        (λ j h. absurd (omega arith))
