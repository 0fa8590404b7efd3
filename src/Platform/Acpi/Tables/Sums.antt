-- ===== src/Platform/Acpi/Tables/Sums.antt =====
-- The sums of the tables' bytes, and the records of the MADT.
use ada_os.Base.{
  ℕ, zero, suc, ◌+◌, ◌%◌, ◌^◌, ◌≡◌, refl, subst, inl, inr, true, ◌==◌, ==_iff, arith, Bool-cases,
  Ends, done-Ends, if-Ends,
}
use ada_os.Core.{Memory}
use ada_os.Platform.Acpi.{
  Madt, is_known, load32, table_length, checksum_header, parse_madt, sum_from,
}
use ada_os.Platform.Acpi.Walk.{Records, count_kind, parse_madt-Parsed}
use ada_os.Platform.Acpi.Tables.{rsdp_sum_from}

-- The bytes of a region, added up.
pub byte_sum : Memory → (start n : ℕ) → ℕ
byte_sum m start zero = 0
byte_sum m start (suc n) = m start + byte_sum m (start + 1) n

sum_from-byte_sum :
    (n i sum : ℕ) (m : Memory) (header : ℕ)
    → sum_from n i sum m header % 256 ≡ (sum + byte_sum m (header + i) n) % 256
unfolding sum_from byte_sum
sum_from-byte_sum zero i sum m header = omega arith
sum_from-byte_sum (suc n) i sum m header =
    let next : header + (i + 1) ≡ header + i + 1 = omega arith in
    let rest =
      subst
        (λ (a : ℕ).
          sum_from n (i + 1) ((sum + m (header + i)) % 256) m header % 256
          ≡ ((sum + m (header + i)) % 256 + byte_sum m a n) % 256)
        next (sum_from-byte_sum n (i + 1) ((sum + m (header + i)) % 256) m header) in
    omega (arith, rest)

pub rsdp_sum_from-byte_sum :
    (n i sum : ℕ) (m : Memory) (rsdp : ℕ)
    → rsdp_sum_from n i sum m rsdp % 256 ≡ (sum + byte_sum m (rsdp + i) n) % 256
unfolding rsdp_sum_from byte_sum
rsdp_sum_from-byte_sum zero i sum m rsdp = omega arith
rsdp_sum_from-byte_sum (suc n) i sum m rsdp =
    let next : rsdp + (i + 1) ≡ rsdp + i + 1 = omega arith in
    let rest =
      subst
        (λ (a : ℕ).
          rsdp_sum_from n (i + 1) ((sum + m (rsdp + i)) % 2 ^ 32) m rsdp % 256
          ≡ ((sum + m (rsdp + i)) % 2 ^ 32 + byte_sum m a n) % 256)
        next (rsdp_sum_from-byte_sum n (i + 1) ((sum + m (rsdp + i)) % 2 ^ 32) m rsdp) in
    omega (arith, rest)

-- The bytes of a table add up to a multiple of 256.
abbrev pub Balanced : Memory → ℕ → Type 0
Balanced m header = byte_sum m header (table_length m header) % 256 ≡ 0

pub checksum_header-Ends :
    (m : Memory) (header : ℕ)
    → Ends (λ (u : Unit {0}). Balanced m header) (checksum_header m header)
unfolding checksum_header
checksum_header-Ends m header =
    if-Ends _ _
      (λ zero_sum.
        let e = sum_from-byte_sum (table_length m header) 0 0 m header in
        let z = (==_iff (sum_from (table_length m header) 0 0 m header) 0).0 zero_sum in
        let same : header + 0 ≡ header = omega arith in
        let e' =
          subst
            (λ (a : ℕ).
              sum_from (table_length m header) 0 0 m header % 256
              ≡ (0 + byte_sum m a (table_length m header)) % 256)
            same e in
        done-Ends _ _ (omega (arith, e', z)))
      (λ other. inl refl)

-- The records of a MADT all have a length.
abbrev pub HasRecords : Memory → ℕ → Type 0
HasRecords m madt = (n : ℕ) × Records m madt (table_length m madt) 0x2c n

-- The records that were counted.
abbrev pub Counted : (m : Memory) (madt : ℕ) → Madt → Type 0
Counted m madt t =
    (rs : HasRecords m madt) × ((k : ℕ) → is_known k ≡ true → t.count k ≡ count_kind k rs.1)

pub parse_madt-Ends :
    (uninitialised : ℕ) (m : Memory) (madt : ℕ)
    → HasRecords m madt
    → Ends (Counted m madt) (parse_madt uninitialised m madt)
parse_madt-Ends uninitialised m madt (n, rs) = elim (Bool-cases (load32 m (madt + 0x28) == 0)) [
  | inl unset ↦ inl (unfold parse_madt in rw unset refl)
  | inr set ↦
      elim (parse_madt-Parsed {m = m} {madt = madt} uninitialised (ground (arith, set)) rs) [
        | inl (t, run, counts, none_five) ↦ inr (t, run, ((n, rs), counts))
        | inr (run, five) ↦ inl run
      ]
]
