-- ===== src/Platform/Acpi/Tables/Loading.antt =====
-- What holds once the tables are loaded.
use ada_os.Platform.Acpi.Tables.{pte_nx}
use ada_os.Base.{done}
use ada_os.Platform.Acpi.Tables.{pte_pcd}
use ada_os.Base.{Outcome}
use ada_os.Base.{run-Ends}
use ada_os.Platform.Acpi.Tables.{map_page}
use ada_os.Base.{
  ℕ, ◌+◌, ◌%◌, ◌<◌, ◌≡◌, ◌≢◌, refl, sym, subst, inl, inr, Bool, true, false, not, Option, none,
  some, ◌==◌, ==_iff, arith, Bool-cases, Ends, done-Ends, >>=-Ends, if-Ends, map-Ends,
}
use ada_os.Core.{Memory}
use ada_os.Core.Words.{load64}
use ada_os.Memory.Layout.{Boot}
use ada_os.Memory.Physical.{Pmm}
use ada_os.Memory.Virtual.{null}
use ada_os.Platform.Acpi.{Madt, load32}
use ada_os.Platform.Acpi.Tables.{
  has_signature, check_header_signature, madt_signature, fadt_signature, rsdt_signature,
  rsdp_signature, entries_of, rsdp_sum, rsdp_sum_from, Loaded, loaded, higher_half, load_fadt,
  load_tables, bootstrap_acpi,
}
use ada_os.Platform.Acpi.Tables.Search.{table_at, FirstTable, map_page-Ends, find_table-FirstTable}
use ada_os.Platform.Acpi.Tables.Sums.{
  byte_sum, Balanced, HasRecords, Counted, checksum_header-Ends, parse_madt-Ends,
  rsdp_sum_from-byte_sum,
}

false-ne-true : false ≡ true → ⊥
false-ne-true e = ground arith

module _ (boot : Boot) (top_level : ℕ) (m : Memory) where
  -- What holds of the tables that are loaded from a root table.
  pub record LoadedFrom (root : ℕ) (t : Loaded) : Type 0 where
    pub root_signature : has_signature m root rsdt_signature ≡ true
    pub root_sum : Balanced m root
    pub madt : ℕ
    pub madt_found : FirstTable boot top_level m root (entries_of m root) madt_signature madt
    pub madt_there : madt ≢ null
    pub madt_sum : Balanced m madt
    pub madt_counts : Counted m madt t.records
    pub fadt_found : FirstTable boot top_level m root (entries_of m root) fadt_signature t.fadt
    pub fadt_there : t.fadt ≢ null
    pub fadt_sum : Balanced m t.fadt
    pub facs : t.facs_ptr ≢ 0

  -- The MADTs that a root table points to.
  abbrev pub MadtsHaveRecords : (root : ℕ) → Type 0
  MadtsHaveRecords root =
      (i : ℕ)
      → i < entries_of m root
      → has_signature m (table_at boot top_level m root i) madt_signature ≡ true
      → HasRecords m (table_at boot top_level m root i)

  found-HasRecords :
      (root a : ℕ)
      → MadtsHaveRecords root
      → FirstTable boot top_level m root (entries_of m root) madt_signature a
      → a ≢ null
      → HasRecords m a
  found-HasRecords root a all (inl (i, before, e, sig, first)) there =
      subst (λ x. HasRecords m x) (sym e)
        (all i before (subst (λ x. has_signature m x madt_signature ≡ true) e sig))
  found-HasRecords root a all (inr (e, none')) there = absurd (there e)

  -- What `bootstrap_acpi` and its parts leave.
  abbrev pub Booted : (root : ℕ) → Pmm × Option Loaded → Type 0
  Booted root (s, none) = ⊥
  Booted root (s, some t) = LoadedFrom root t

  not_null : (a : ℕ) → (a == null) ≡ false → a ≢ null
  not_null a h e = ground (arith, h, e)

  load_fadt-Booted :
      (root fadt : ℕ) (records : Madt) (s : Pmm)
      → ((facs : ℕ) → facs ≢ 0 → LoadedFrom root (loaded s records fadt facs))
      → Ends (Booted root) (load_fadt boot top_level m fadt records s)
  unfolding load_fadt
  load_fadt-Booted root fadt records s holds =
      let firmware_ctrl = load32 m (fadt + 36) in
      let x_firmware_control = load64 m (fadt + 132) in
      elim (Bool-cases (firmware_ctrl == 0)) [
        | inr first ↦ rw first (done-Ends _ _ (holds firmware_ctrl (not_null _ first)))
        | inl zero' ↦ elim (Bool-cases (x_firmware_control == 0)) [
          | inr second ↦
              rw (zero', second) (done-Ends _ _ (holds x_firmware_control (not_null _ second)))
          | inl zero'' ↦ rw (zero', zero'') (inl refl)
        ]
      ]

  load_tables-Booted :
      (uninitialised root : ℕ) (s : Pmm)
      → MadtsHaveRecords root
      → Ends (Booted root) (load_tables boot top_level m uninitialised root s)
  unfolding load_tables check_header_signature
  load_tables-Booted uninitialised root s all =
      >>=-Ends (λ (u : Unit {0}). has_signature m root rsdt_signature ≡ true) _ _ _
        (if-Ends _ _ (λ sig. done-Ends _ _ sig) (λ other. inl refl))
        (λ u root_signature. >>=-Ends _ _ _ _ (checksum_header-Ends m root) (λ u' root_sum.
          >>=-Ends _ _ _ _ (find_table-FirstTable boot top_level m root madt_signature s)
            (λ madt found.
              if-Ends _ (madt.0 == null) (λ missing. inl refl)
                (λ there. >>=-Ends _ _ _ _ (checksum_header-Ends m madt.0) (λ u'' madt_sum.
                  >>=-Ends _ _ _ _
                    (parse_madt-Ends uninitialised m madt.0
                      (found-HasRecords root madt.0 all found (not_null madt.0 there)))
                    (λ records counts.
                      >>=-Ends _ _ _ _
                        (find_table-FirstTable boot top_level m root fadt_signature madt.1)
                        (λ fadt found'.
                          if-Ends _ (fadt.0 == null) (λ missing. inl refl)
                            (λ there'.
                              >>=-Ends _ _ _ _ (checksum_header-Ends m fadt.0) (λ u3 fadt_sum.
                                load_fadt-Booted root fadt.0 records fadt.1 (λ facs nonzero.
                                  record {
                                    root_signature = root_signature;
                                    root_sum = root_sum;
                                    madt = madt.0;
                                    madt_found = found;
                                    madt_there = not_null madt.0 there;
                                    madt_sum = madt_sum;
                                    madt_counts = counts;
                                    fadt_found = found';
                                    fadt_there = not_null fadt.0 there';
                                    fadt_sum = fadt_sum;
                                    facs = nonzero;
                                  }))))))))))

  -- What `bootstrap_acpi` leaves from the page tables `s0`: nothing, only where the RSDP could not be
  -- mapped; else the tables that the RSDP's own root table leads to.
  abbrev pub Started : (phys : ℕ) → (s0 : Pmm) → Pmm × Option Loaded → Type 0
  Started phys s0 (s, none) =
      map_page boot top_level (higher_half boot top_level m phys) phys (pte_pcd + pte_nx) s0
      ≡ done (false, s)
  Started phys s0 (s, some t) =
      let rsdp = higher_half boot top_level m phys in
      (has_signature m rsdp rsdp_signature ≡ true)
      × (byte_sum m rsdp 20 % 256 ≡ 0)
      × LoadedFrom (higher_half boot top_level m (load32 m (rsdp + 16))) t

  started :
      (phys : ℕ) (s0 : Pmm)
      → has_signature m (higher_half boot top_level m phys) rsdp_signature ≡ true
      → byte_sum m (higher_half boot top_level m phys) 20 % 256 ≡ 0
      → (r : Pmm × Option Loaded)
      → Booted (higher_half boot top_level m (load32 m (higher_half boot top_level m phys + 16))) r
      → Started phys s0 r
  started phys s0 signed balanced (s, none) h = absurd h
  started phys s0 signed balanced (s, some t) h = (signed, balanced, h)

  rsdp-balanced : (rsdp : ℕ) → (rsdp_sum m rsdp == 0) ≡ true → byte_sum m rsdp 20 % 256 ≡ 0
  unfolding rsdp_sum
  rsdp-balanced rsdp h =
      let e = rsdp_sum_from-byte_sum 20 0 0 m rsdp in
      let z = (==_iff (rsdp_sum_from 20 0 0 m rsdp % 256) 0).0 h in
      let same : rsdp + 0 ≡ rsdp = omega arith in
      let e' =
        subst (λ (a : ℕ). rsdp_sum_from 20 0 0 m rsdp % 256 ≡ (0 + byte_sum m a 20) % 256) same e in
      omega (arith, e', z)

  unmapped_run :
      {x : Outcome (Bool × Pmm)} (s : Pmm) (r : Bool × Pmm)
      → not r.0 ≡ true
      → x ≡ done r
      → x ≡ done (false, r.1)
  unmapped_run s (false, s') h e = e
  unmapped_run s (true, s') h e = absurd (false-ne-true h)

  is_set : (b : Bool) → not b ≡ false → b ≡ true
  is_set b h = ground arith

  -- `bootstrap_acpi` returns or panics, if all records of the MADTs that the root table points to
  -- have a length. When it returns without tables, the RSDP could not be mapped. When it returns
  -- with tables, the RSDP has its signature and a sum of 0; the root table has its own; the MADT
  -- and the FADT are the first tables with their signatures that it points to, and their bytes add
  -- up to 0 as well; the records of the MADT are counted by their kinds; and the address of the
  -- FACS is not 0.
  pub bootstrap_acpi-Started :
      (uninitialised phys : ℕ) (s : Pmm)
      → MadtsHaveRecords
          (higher_half boot top_level m (load32 m (higher_half boot top_level m phys + 16)))
      → Ends (Started phys s) (bootstrap_acpi boot top_level m uninitialised phys s)
  unfolding bootstrap_acpi
  bootstrap_acpi-Started uninitialised phys s all =
      let rsdp = higher_half boot top_level m phys in
      let rsdt = load32 m (rsdp + 16) in
      >>=-Ends _ _ _ _ (run-Ends _ _ (map_page-Ends boot top_level m _ _ _ s)) (λ r u.
        if-Ends _ (not r.0) (λ unmapped. done-Ends _ _ (unmapped_run s r unmapped u.0))
          (λ mapped.
            if-Ends _ (not (has_signature m rsdp rsdp_signature)) (λ other. inl refl)
              (λ signed.
                if-Ends _ (not (rsdp_sum m rsdp == 0)) (λ other. inl refl)
                  (λ balanced. >>=-Ends _ _ _ _ (map_page-Ends boot top_level m _ _ _ r.1) (λ r' u'.
                    if-Ends _ (not r'.0) (λ unmapped'. inl refl)
                      (λ mapped'.
                        map-Ends _ _ _
                          (started phys s (is_set _ signed)
                            (rsdp-balanced rsdp (is_set _ balanced)))
                          (load_tables-Booted uninitialised (higher_half boot top_level m rsdt) r'.1
                            all)))))))
