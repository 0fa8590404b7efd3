-- ===== src/Platform/IoApic/Setup.antt =====
-- How the setup of the I/O interrupt controllers ends.
use ada_os.Base.{
  ℕ, ◌+◌, ◌*◌, ◌/◌, ◌%◌, ◌^◌, ◌<◌, ◌≡◌, refl, Settles, >>=-Settles, Ends-Settles, map-Settles,
  Returns-Ends, Bool, true, false, ◌||◌, List, [], ◌∷◌, ◌++◌, ltb, ◌==◌, if◌then◌else◌, arith,
  Bool-cases, inl, inr, done, panicked, undefined,
}
use ada_os.Memory.Layout.{add64, Boot}
use ada_os.Memory.Physical.{Pmm}
use ada_os.Memory.Virtual.{pte_nx, pte_pcd, pte_writable}
use ada_os.Memory.Virtual.Returning.{map_page-Returns}
use ada_os.Util.Bits.{test_bit_range, extract_bit_range-inside, extract_bit_range-wide}
use ada_os.Platform.IoApic.{
  Store, Apic, Override, Entry, entry_of, IoApic, write_io_apic_redirection_entry, override_entry,
  strictly_between, write_overrides, configure, setup_one, setup_io_apic,
}

-- A redirection entry that the controller has is never written: taking its bits is undefined. One
-- that it does not have is left alone.
write_io_apic_redirection_entry_lem :
    (base entry_address index : ℕ) (s : IoApic)
    → write_io_apic_redirection_entry base entry_address index s
      ≡ (if ltb s.io_apic_max_entries index then done s else undefined)
unfolding write_io_apic_redirection_entry
write_io_apic_redirection_entry_lem base entry_address index s =
    rw (extract_bit_range-wide entry_address 0) refl

override_entry_done : (flags : ℕ) → (e : Entry) × (override_entry flags ≡ done e)
unfolding override_entry
override_entry_done flags =
    let low = extract_bit_range-inside (flags % 256) 1 0 (omega arith) (omega arith) in
    let high = extract_bit_range-inside (flags % 256) 4 2 (omega arith) (omega arith) in
    (
      entry_of (flags % 256 % 2 ^ 32 / 2 ^ 0 % 2 ^ 2) (flags % 256 % 2 ^ 32 / 2 ^ 2 % 2 ^ 3),
      rw (low, high) refl,
    )

-- Some override is for an interrupt strictly between the two.
pub any_between : (lowest highest : ℕ) → List Override → Bool
any_between lowest highest [] = false
any_between lowest highest (o ∷ os) =
    strictly_between lowest highest o.global_system_int || any_between lowest highest os

write_overrides_lem :
    (virt_base entry_address lowest highest : ℕ) (os : List Override) (s : IoApic)
    → write_overrides virt_base entry_address lowest highest 0 os s
      ≡ (if any_between lowest highest os then undefined else done s)
unfolding write_overrides any_between
write_overrides_lem virt_base entry_address lowest highest [] s = refl
write_overrides_lem virt_base entry_address lowest highest (o ∷ os) s =
    let (e, entry) = override_entry_done o.flags in
    let first : ltb s.io_apic_max_entries 0 ≡ false = ground arith in
    elim (Bool-cases (strictly_between lowest highest o.global_system_int)) [
      | inl in_range ↦
          rw
            (
              in_range,
              entry,
              write_io_apic_redirection_entry_lem virt_base entry_address 0 s,
              first,
            )
            refl
      | inr outside ↦ rw outside (write_overrides_lem virt_base entry_address lowest highest os s)
    ]

shifted_id :
    (value id : ℕ)
    → 0 < id
    → id < 16
    → value ≡ id * 2 ^ 24
    → (value % 2 ^ 32 / 2 ^ 23 % 2 ^ 5 == id) ≡ false
shifted_id value id pos small e =
    let double : value % 2 ^ 32 / 2 ^ 23 % 2 ^ 5 ≡ id * 2 = omega arith in ground (arith, double)

-- What `setup_io_apic` stores for one controller, the last store in front: it selects the version
-- and the identification, and the three registers that are logged. It writes to none.
abbrev pub selections : Boot → Apic → List Store
selections boot apic =
    let v = add64 apic.io_apic_address boot.hhdm_offset in
    record { address = v; value = 2 }
    ∷ record { address = v; value = 1 }
    ∷ record { address = v; value = 0 }
    ∷ record { address = v; value = 0 }
    ∷ record { address = v; value = 1 }
    ∷ []

module _ (read : List Store → ℕ → ℕ) (boot : Boot) (top_level entry_address : ℕ) where
  -- What the two registers of a controller give, read after the stores before.
  abbrev pub version_of : Apic → List Store → ℕ
  version_of apic stores =
      let v = add64 apic.io_apic_address boot.hhdm_offset in
      read (record { address = v; value = 1 } ∷ stores) (v + 16)

  abbrev pub id_of : Apic → List Store → ℕ
  id_of apic stores =
      let v = add64 apic.io_apic_address boot.hhdm_offset in
      read (record { address = v; value = 0 } ∷ record { address = v; value = 1 } ∷ stores) (v + 16)

  -- The lowest and the highest interrupt that the code takes a controller to serve.
  abbrev pub lowest_of : Apic → ℕ
  lowest_of apic = apic.global_system_int_base % 256

  abbrev pub entries_of : Apic → List Store → ℕ
  entries_of apic stores = version_of apic stores % 2 ^ 32 / 2 ^ 16 % 2 ^ 8

  abbrev pub highest_of : Apic → List Store → ℕ
  highest_of apic stores = (entries_of apic stores % 256 + lowest_of apic) % 256

  abbrev ready : Apic → IoApic → Pmm → IoApic
  ready apic s pages = record {
    io_apic_system_int_base = lowest_of apic;
    io_apic_max_entries = entries_of apic s.stores % 256;
    pages = pages;
    stores = selections boot apic ++ s.stores;
  }

  -- All the ways in which the configuration of a mapped controller ends.
  configure_lem :
      (overrides : List Override) (apic : Apic) (s : IoApic) (pages : Pmm)
      → configure read boot top_level entry_address overrides apic s (true, pages) ≡ (
          if id_of apic s.stores % 2 ^ 32 / 2 ^ 23 % 2 ^ 5 == apic.io_apic_id
          then (if any_between (lowest_of apic) (highest_of apic s.stores) overrides
              then undefined
              else done (ready apic s pages))
          else panicked)
  unfolding configure test_bit_range
  configure_lem overrides apic s pages =
      let version =
        extract_bit_range-inside (version_of apic s.stores) 23 16 (omega arith) (omega arith) in
      let id = extract_bit_range-inside (id_of apic s.stores) 27 23 (omega arith) (omega arith) in
      elim (Bool-cases (id_of apic s.stores % 2 ^ 32 / 2 ^ 23 % 2 ^ 5 == apic.io_apic_id)) [
        | inl same ↦ rw (version, id, same) (write_overrides_lem _ _ _ _ overrides _)
        | inr other ↦ rw (version, id, other) refl
      ]

  -- What holds of a run of `setup_io_apic` that returns.
  abbrev pub Quiet : List Override → List Apic → IoApic → IoApic → Type 0
  Quiet overrides [] s s' = s' ≡ s
  Quiet overrides (apic ∷ apics) s s' =
      (any_between (lowest_of apic) (highest_of apic s.stores) overrides ≡ false)
      × (s1 : IoApic) × (s1.stores ≡ selections boot apic ++ s.stores)
      × Quiet overrides apics s1 s'

  -- The ways in which the configuration of one controller ends.
  abbrev OneQuiet : List Override → Apic → IoApic → IoApic → Type 0
  OneQuiet overrides apic s s' =
      (any_between (lowest_of apic) (highest_of apic s.stores) overrides ≡ false)
      × (s'.stores ≡ selections boot apic ++ s.stores)

  configure-Settles :
      (overrides : List Override) (apic : Apic) (s : IoApic) (r : Bool × Pmm)
      → Settles
          (OneQuiet overrides apic s)
          (configure read boot top_level entry_address overrides apic s r)
  configure-Settles overrides apic s (false, pages) = inr (inl (unfold configure in refl))
  configure-Settles overrides apic s (true, pages) =
      rw (configure_lem overrides apic s pages)
        (elim (Bool-cases (id_of apic s.stores % 2 ^ 32 / 2 ^ 23 % 2 ^ 5 == apic.io_apic_id)) [
          | inr other ↦ rw other (inr (inl refl))
          | inl same ↦
              elim (Bool-cases
                (any_between (lowest_of apic) (highest_of apic s.stores) overrides)) [
                  | inl between ↦ rw (same, between) (inl refl)
                  | inr outside ↦
                      rw (same, outside) (inr (inr (ready apic s pages, refl, (refl, refl))))
                ]
        ])

  -- Whatever the controllers answer, `setup_io_apic` returns, panics, or does something undefined.
  -- If it returns, then no override is for an interrupt strictly between the lowest and the highest
  -- one that a controller serves; and each controller has seen five stores, which select registers:
  -- no register was written, so no entry was.
  pub setup_io_apic-Quiet :
      (overrides : List Override) (apics : List Apic) (s : IoApic)
      → Settles
          (Quiet overrides apics s)
          (setup_io_apic read boot top_level entry_address overrides apics s)
  unfolding setup_io_apic setup_one
  setup_io_apic-Quiet overrides [] s = inr (inr (s, refl, refl))
  setup_io_apic-Quiet overrides (apic ∷ apics) s =
      >>=-Settles (OneQuiet overrides apic s) _ _ _
        (Ends-Settles (λ (r : Bool × Pmm). Unit {0}) _ _ _
          (Returns-Ends _ (map_page-Returns boot top_level _ _ _ s.pages))
          (λ r u. configure-Settles overrides apic s r))
        (λ s1 one.
          map-Settles _ _ _ (λ s' rest. (one.0, s1, one.1, rest))
            (setup_io_apic-Quiet overrides apics s1))

  -- A first controller whose identification register holds its number, from 1 to 15, in the bits 24
  -- to 27 and nothing else, makes `setup_io_apic` panic, whatever the others and the overrides are:
  -- it compares the number with the bits 23 to 27.
  pub setup_io_apic-rejects :
      (overrides : List Override) (apic : Apic) (apics : List Apic) (s : IoApic)
      → 0 < apic.io_apic_id
      → apic.io_apic_id < 16
      → id_of apic s.stores ≡ apic.io_apic_id * 2 ^ 24
      → setup_io_apic read boot top_level entry_address overrides (apic ∷ apics) s ≡ panicked
  unfolding setup_io_apic setup_one
  setup_io_apic-rejects overrides apic apics s pos small register =
      let other : (id_of apic s.stores % 2 ^ 32 / 2 ^ 23 % 2 ^ 5 == apic.io_apic_id) ≡ false =
        shifted_id (id_of apic s.stores) apic.io_apic_id pos small register in
      elim (map_page-Returns boot top_level (add64 apic.io_apic_address boot.hhdm_offset)
        apic.io_apic_address (pte_nx + pte_pcd + pte_writable) s.pages) [
          | inl ((true, pages), mapped) ↦
              rw (mapped, configure_lem overrides apic s pages, other) refl
          | inl ((false, pages), unmapped) ↦ unfold configure in rw unmapped refl
          | inr stopped ↦ rw stopped refl
        ]
