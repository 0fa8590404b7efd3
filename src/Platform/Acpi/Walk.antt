-- ===== src/Platform/Acpi/Walk.antt =====
-- The walk over the records of the MADT: it ends when no record has the length 0, and goes on for
-- ever at a record that has.
use ada_os.Base.{
  ℕ, zero, suc, ◌+◌, ◌-◌, ◌≤◌, ◌<◌, ◌≡◌, ◌≢◌, ◌⊎◌, inl, inr, refl, ◌∙◌, true, false, not, ltb, ◌==◌,
  if◌then◌else◌, Outcome, done, panicked, arith, Bool-cases, ltb→lt, ltb→ge,
}
use ada_os.Core.{Memory}
use ada_os.Platform.Acpi.{
  Madt, is_known, add_record, walk_records, parse_madt, load32, table_length, no_records,
}

-- The records from an offset to the end of the table, by the number of them.
pub data Records (m : Memory) (madt size : ℕ) : ℕ → ℕ → Type 0 where
  nil : {offset : ℕ} → size ≤ offset → Records m madt size offset 0
  cons :
      {offset n : ℕ}
      → offset < size
      → 0 < m (madt + offset + 1)
      → Records m madt size (offset + m (madt + offset + 1)) n
      → Records m madt size offset (suc n)

-- The number of records of a kind.
pub count_kind : {m : Memory} {madt size offset n : ℕ} → ℕ → Records m madt size offset n → ℕ
count_kind kind (nil past) = 0
count_kind {m} {madt} {size} {offset} kind (cons before pos rs) =
    (if m (madt + offset) == kind then 1 else 0) + count_kind kind rs

Records-fit :
    {m : Memory} {madt size offset n : ℕ} → Records m madt size offset n → n ≤ size - offset
Records-fit (nil past) = omega arith
Records-fit (cons before pos rs) = omega (arith, Records-fit rs)

count-add_record :
    (kind i address k : ℕ) (t : Madt)
    → is_known k ≡ true
    → (add_record kind i address t).count k ≡ (if kind == k then 1 else 0) + t.count k
unfolding add_record
count-add_record kind i address k t known = elim (Bool-cases (is_known kind)) [
  | inl yes' ↦ rw yes' (ground arith)
  | inr no' ↦
      let other : (kind == k) ≡ false = ground (arith, known, no') in rw (no', other) (omega arith)
]

walk_records-count :
    {m : Memory} {madt size offset n : ℕ} (rs : Records m madt size offset n)
    → (fuel i last_type : ℕ) (t : Madt) → n < fuel
    → (t' : Madt) × (walk_records fuel m madt size offset i last_type t ≡ done t')
      × ((k : ℕ) → is_known k ≡ true → t'.count k ≡ count_kind k rs + t.count k)
unfolding walk_records count_kind
walk_records-count rs zero i last_type t enough = absurd (omega arith)
walk_records-count {size} {offset} (nil past) (suc fuel) i last_type t enough =
    let over : ltb offset size ≡ false = ground arith in (t, rw over refl, λ k known. omega arith)
walk_records-count {m} {madt} {size} {offset} (cons before pos rs) (suc fuel) i last_type t enough =
    let kind = m (madt + offset) in
    let i' = if not (last_type == kind) then 0 else i in
    let t1 = add_record kind i' (madt + offset) t in
    let inside : ltb offset size ≡ true = ground arith in
    let (t', run, counts) =
      walk_records-count {offset = offset + m (madt + offset + 1)} rs fuel (i' + 1) kind t1
        (omega arith) in
    (
      t',
      rw inside run,
      λ k known. counts k known ∙ omega (arith, count-add_record kind i' (madt + offset) k t known),
    )

-- How `parse_madt` ends for a table of `n` records.
abbrev pub Parsed :
    {m : Memory} {madt size offset n : ℕ} → Records m madt size offset n → Outcome Madt → Type 0
Parsed rs run =
    ((t : Madt) × (run ≡ done t)
      × ((k : ℕ) → is_known k ≡ true → t.count k ≡ count_kind k rs)
      × (count_kind 5 rs ≡ 0))
    ⊎ ((run ≡ panicked) × (0 < count_kind 5 rs))

-- `parse_madt` of a table whose records all have a length, and whose flags are not 0, ends. It
-- counts the records of each known kind; it panics exactly if there is an override of the address
-- of the local APIC, which is a record of the kind 5.
pub parse_madt-Parsed :
    {m : Memory} {madt n : ℕ} (uninitialised : ℕ)
    → load32 m (madt + 0x28) ≢ 0
    → (rs : Records m madt (table_length m madt) 0x2c n)
    → Parsed rs (parse_madt uninitialised m madt)
unfolding parse_madt
parse_madt-Parsed {m} {madt} {n} uninitialised flags rs =
    let set : (load32 m (madt + 0x28) == 0) ≡ false = ground (arith, flags) in
    let (t, run, counts) =
      walk_records-count rs (table_length m madt + 1) 0 uninitialised no_records
        (omega (arith, Records-fit rs)) in
    let five : t.count 5 ≡ count_kind 5 rs = omega (arith, counts 5 refl) in
    elim (Bool-cases (ltb 0 (t.count 5))) [
      | inl override ↦
          inr (rw (set, run, override) refl, omega (arith, five, ltb→lt 0 (t.count 5) override))
      | inr plain ↦ inl (
        t,
        rw (set, run, plain) refl,
        λ k known. omega (arith, counts k known),
        omega (arith, five, ltb→ge 0 (t.count 5) plain),
      )
    ]
