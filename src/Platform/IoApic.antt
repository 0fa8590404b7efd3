-- ===== src/Platform/IoApic.antt =====
-- kernel/src/platform/x86_64/ioapic.c: the I/O interrupt controllers. Their registers lie in memory;
-- what a read gives there is a parameter, over the stores before it. Log output is left out, but for
-- the registers that its arguments read.
pub mod Setup
mod Tests
use ada_os.Base.{
  ℕ, zero, suc, ◌+◌, ◌-◌, ◌*◌, ◌/◌, ◌%◌, ◌^◌, Bool, true, false, ◌&&◌, not, List, [], ◌∷◌, ltb,
  ◌==◌, if◌then◌else◌, Outcome, done, panicked, ◌>>=◌,
}
use ada_os.Memory.Layout.{add64, Boot}
use ada_os.Memory.Physical.{Pmm}
use ada_os.Memory.Virtual.{map_page, pte_nx, pte_pcd, pte_writable}
use ada_os.Util.Bits.{extract_bit_range, test_bit_range}

-- A store of a value to an address of a device.
pub record Store : Type 0 where
  pub address : ℕ
  pub value : ℕ

-- `madt_type_1`, `madt_type_2` and `madt_type_3`, as far as they are read.
pub record Apic : Type 0 where
  pub io_apic_id : ℕ
  pub io_apic_address : ℕ
  pub global_system_int_base : ℕ

pub record Override : Type 0 where
  pub global_system_int : ℕ
  pub flags : ℕ

-- `io_apic_redirection_tbl_entry_t`, as far as it is set.
pub record Entry : Type 0 where
  pub isr_index : ℕ
  pub delivery_mode : ℕ
  pub destination_mode : ℕ
  pub polarity : ℕ
  pub trigger_mode : ℕ

-- The static variables, the page tables, and the stores that were made, the last one in front.
pub record IoApic : Type 0 where
  pub io_apic_system_int_base : ℕ
  pub io_apic_max_entries : ℕ
  pub pages : Pmm
  pub stores : List Store

abbrev pub store_to : (address value : ℕ) → IoApic → IoApic
store_to address value s = record s {
  stores = record { address = address; value = value } ∷ s.stores;
}

abbrev pub io_apic_id_reg : ℕ
io_apic_id_reg = 0

abbrev pub io_apic_ver : ℕ
io_apic_ver = 1

abbrev pub io_apic_arb : ℕ
io_apic_arb = 2

abbrev pub lo_redirection_for : ℕ → ℕ
lo_redirection_for n = 0x10 + n * 2

abbrev pub hi_redirection_for : ℕ → ℕ
hi_redirection_for n = 0x10 + n * 2 + 1

pub write_io_apic_reg : (base offset val : ℕ) → IoApic → IoApic
write_io_apic_reg base offset val s =
    store_to (base + 16) (val % 2 ^ 32) (store_to base (offset % 256) s)

-- The store to the register that selects, before a read.
abbrev pub select : (base offset : ℕ) → IoApic → IoApic
select base offset s = store_to base (offset % 256) s

module _ (read : List Store → ℕ → ℕ) where
  pub read_io_apic_reg : (base offset : ℕ) → IoApic → ℕ × IoApic
  read_io_apic_reg base offset s = let s' = select base offset s in (read s'.stores (base + 16), s')

-- `write_io_apic_redirection_entry` takes its bits from the address of the entry.
pub write_io_apic_redirection_entry : (base entry_address index : ℕ) → IoApic → Outcome IoApic
write_io_apic_redirection_entry base entry_address index s =
    if ltb s.io_apic_max_entries index
    then done s
    else (extract_bit_range entry_address 32 0 >>= λ lo.
        let s1 = write_io_apic_reg base (lo_redirection_for index) lo s in
        extract_bit_range entry_address 64 32 >>= λ hi.
        done (write_io_apic_reg base (hi_redirection_for index) hi s1))

abbrev pub entry_of : (polarity trigger_mode : ℕ) → Entry
entry_of polarity trigger_mode = record {
  isr_index = 0xff;
  delivery_mode = 0;
  destination_mode = 0;
  polarity = if polarity == 1 then 1 else 0;
  trigger_mode = if trigger_mode == 3 then 1 else 0;
}

-- The two switches over the flags of an override, which are cut to a `uint8_t`; the fields take one
-- bit each.
pub override_entry : (flags : ℕ) → Outcome Entry
override_entry flags = extract_bit_range (flags % 256) 1 0 >>= λ polarity.
    extract_bit_range (flags % 256) 4 2 >>= λ trigger_mode. done (entry_of polarity trigger_mode)

abbrev pub strictly_between : (lowest highest : ℕ) → ℕ → Bool
strictly_between lowest highest irq = ltb irq highest && ltb lowest irq

-- The loop over the overrides; `entry_address` is where the entry lies on the stack.
pub write_overrides :
    (virt_base entry_address lowest highest nmi_index : ℕ) → List Override → IoApic → Outcome IoApic
write_overrides virt_base entry_address lowest highest nmi_index [] s = done s
write_overrides virt_base entry_address lowest highest nmi_index (o ∷ os) s =
    let skip = write_overrides virt_base entry_address lowest highest nmi_index os s in
    let write = override_entry o.flags >>= λ entry.
    write_io_apic_redirection_entry virt_base entry_address nmi_index s >>= λ s'.
    write_overrides virt_base entry_address lowest highest ((nmi_index + 1) % 256) os s' in
    if strictly_between lowest highest o.global_system_int then write else skip

module _ (read : List Store → ℕ → ℕ) (boot : Boot) (top_level entry_address : ℕ) where
  -- One round of the loop of `setup_io_apic`, after its page is mapped. The reads of the log come
  -- before the overrides.
  pub configure : List Override → Apic → IoApic → Bool × Pmm → Outcome IoApic
  unfolding read_io_apic_reg
  configure overrides apic s (mapped, pages) =
      if not mapped
      then panicked
      else (let virt_base = add64 apic.io_apic_address boot.hhdm_offset in
          let lowest = apic.global_system_int_base % 256 in
          let s1 = record s { pages = pages; io_apic_system_int_base = lowest } in
          let (version, s2) = read_io_apic_reg read virt_base io_apic_ver s1 in
          extract_bit_range version 23 16 >>= λ entries.
          let s3 = record s2 { io_apic_max_entries = entries % 256 } in
          let highest = (entries % 256 + lowest) % 256 in
          let (id, s4) = read_io_apic_reg read virt_base io_apic_id_reg s3 in
          test_bit_range id 27 23 apic.io_apic_id >>= λ same.
          if not same
          then panicked
          else (let s5 = select virt_base io_apic_id_reg s4 in
              let s6 = select virt_base io_apic_ver s5 in
              let s7 = select virt_base io_apic_arb s6 in
              write_overrides virt_base entry_address lowest highest 0 overrides s7))

  pub setup_one : List Override → Apic → IoApic → Outcome IoApic
  setup_one overrides apic s =
      let base = apic.io_apic_address in
      map_page boot top_level (add64 base boot.hhdm_offset) base (pte_nx + pte_pcd + pte_writable)
        s.pages
      >>= λ r. configure overrides apic s r

  pub setup_io_apic : List Override → List Apic → IoApic → Outcome IoApic
  setup_io_apic overrides [] s = done s
  setup_io_apic overrides (apic ∷ apics) s =
      setup_one overrides apic s >>= λ s'. setup_io_apic overrides apics s'
