-- ===== src/Platform/Descriptors.antt =====
-- kernel/src/platform/x86_64/gdt.c and idt.c: the entries of the descriptor tables, field by field.
-- A table is a function from the index.
pub mod Encoding
mod Tests
use ada_os.Base.{
  ℕ, zero, suc, ◌+◌, ◌-◌, ◌*◌, ◌/◌, ◌%◌, ◌^◌, ◌==◌, if◌then◌else◌, List, [], ◌∷◌, ltb, Bool, true,
  false,
}

-- `gtd__gdt_entry_t`.
pub record GdtEntry : Type 0 where
  pub bounds_low : ℕ
  pub base_low : ℕ
  pub base_mid : ℕ
  pub access : ℕ
  pub bounds_high : ℕ
  pub flags : ℕ
  pub base_high : ℕ

-- `gdt_entry_t`: the same eight bytes hold an entry or the upper half of an address.
pub data GdtSlot : Type 0 where
  entry : GdtEntry → GdtSlot
  tss_addr : ℕ → GdtSlot

abbrev put_slot : (ℕ → GdtSlot) → ℕ → GdtSlot → ℕ → GdtSlot
put_slot gdt i e j = if j == i then e else gdt j

pub make_gdt_entry : (index access flags : ℕ) → (ℕ → GdtSlot) → (ℕ → GdtSlot)
make_gdt_entry index access flags gdt = put_slot gdt index (
    entry (record {
      bounds_low = 0;
      base_low = 0;
      base_mid = 0;
      access = access;
      bounds_high = 0;
      flags = flags % 16;
      base_high = 0;
    }))

-- `sizeof(tss)`
abbrev pub tss_size : ℕ
tss_size = 104

pub make_tts_gdt_entry : (index tss_base : ℕ) → (ℕ → GdtSlot) → (ℕ → GdtSlot)
make_tts_gdt_entry index tss_base gdt =
    put_slot
      (put_slot gdt index (
        entry (record {
          bounds_low = tss_size - 1;
          base_low = tss_base % 2 ^ 16;
          base_mid = tss_base / 2 ^ 16 % 2 ^ 8;
          access = 0x89;
          bounds_high = (tss_size - 1) / 2 ^ 16 % 16;
          flags = 0;
          base_high = tss_base / 2 ^ 24 % 2 ^ 8;
        })))
      (index + 1) (tss_addr (tss_base / 2 ^ 32))

-- The entries that `setup_gdt` makes.
pub setup_gdt_entries : (tss_base : ℕ) → (ℕ → GdtSlot) → (ℕ → GdtSlot)
setup_gdt_entries tss_base gdt =
    let g0 = make_gdt_entry 0 0 0 gdt in
    let g1 = make_gdt_entry 1 0x9a 0xa g0 in
    let g2 = make_gdt_entry 2 0x92 0xc g1 in
    let g3 = make_gdt_entry 3 0xfa 0xc g2 in
    let g4 = make_gdt_entry 4 0xf2 0xc g3 in
    let g5 = make_gdt_entry 5 0xfa 0xa g4 in make_tts_gdt_entry 6 tss_base g5

-- `idt_entry_t`.
pub record IdtEntry : Type 0 where
  pub offset_low : ℕ
  pub selector : ℕ
  pub ist : ℕ
  pub type_attr : ℕ
  pub offset_mid : ℕ
  pub offset_high : ℕ
  pub zero_word : ℕ

pub idt_set_descriptor : (index isr flags : ℕ) → (ℕ → IdtEntry) → (ℕ → IdtEntry)
idt_set_descriptor index isr flags idt j =
    if j == index
    then record {
      offset_low = isr % 2 ^ 16;
      selector = 8;
      ist = 0;
      type_attr = flags;
      offset_mid = isr / 2 ^ 16 % 2 ^ 16;
      offset_high = isr / 2 ^ 32 % 2 ^ 32;
      zero_word = 0;
    }
    else idt j

-- `for (vector = i; vector < i + n; vector++)`
set_stubs : (n i : ℕ) → (stubs : ℕ → ℕ) → (ℕ → IdtEntry) → (ℕ → IdtEntry)
set_stubs zero i stubs idt = idt
set_stubs (suc n) i stubs idt = set_stubs n (i + 1) stubs (idt_set_descriptor i (stubs i) 0x8e idt)

-- The vectors of the `isr_0x..` routines, in their order.
set_vectors : List ℕ → (routines : ℕ → ℕ) → (ℕ → IdtEntry) → (ℕ → IdtEntry)
set_vectors [] routines idt = idt
set_vectors (v ∷ vs) routines idt =
    set_vectors vs routines (idt_set_descriptor v (routines v) 0x8e idt)

-- `setup_idt`: `routine` gives the address of the entry code of a vector, from `isr_stub_table`
-- below 32 and of `isr_0x..` otherwise.
pub setup_idt : (routine : ℕ → ℕ) → (ℕ → IdtEntry) → (ℕ → IdtEntry)
unfolding set_stubs set_vectors
setup_idt routine idt =
    set_vectors (0x20 ∷ 0x24 ∷ 0x70 ∷ 0xf0 ∷ 0xf1 ∷ 0xf2 ∷ 0xf3 ∷ 0xf4 ∷ 0xf5 ∷ 0xf6 ∷ []) routine
      (set_stubs 32 0 routine idt)
