-- ===== src/Platform/Descriptors/Encoding.antt =====
-- What the processor reads from the entries.
use ada_os.Base.{
  ℕ, zero, suc, ◌+◌, ◌*◌, ◌/◌, ◌%◌, ◌^◌, ◌<◌, ◌≡◌, refl, inl, inr, ◌==◌, ◌||◌, if◌then◌else◌, List,
  [], ◌∷◌, ltb, Bool, false, Bool-cases, arith, leb, ◌&&◌, Option, none, some,
}
use ada_os.Platform.Descriptors.{
  GdtSlot, entry, tss_addr, IdtEntry, make_tts_gdt_entry, setup_gdt_entries, idt_set_descriptor,
  set_stubs, set_vectors, setup_idt,
}

-- The address that an interrupt gate leads to.
abbrev pub gate_offset : IdtEntry → ℕ
gate_offset e = e.offset_low + e.offset_mid * 2 ^ 16 + e.offset_high * 2 ^ 32

-- The vectors that `setup_idt` sets.
abbrev pub is_set : ℕ → Bool
is_set v = ltb v 32 || (v == 0x20 || (v == 0x24 || (v == 0x70 || (leb 0xf0 v && leb v 0xf6))))

gate_offset-idt_set_descriptor :
    (i isr v : ℕ) (idt : ℕ → IdtEntry)
    → isr < 2 ^ 64
    → gate_offset (idt_set_descriptor i isr 0x8e idt v)
      ≡ (if v == i then isr else gate_offset (idt v))
unfolding idt_set_descriptor
gate_offset-idt_set_descriptor i isr v idt small = elim (Bool-cases (v == i)) [
  | inl here ↦ rw here (omega arith)
  | inr other ↦ rw other refl
]

gate_offset-set_stubs :
    (n i : ℕ) (routine : ℕ → ℕ) (idt : ℕ → IdtEntry) (v : ℕ)
    → ((k : ℕ) → routine k < 2 ^ 64)
    → gate_offset (set_stubs n i routine idt v)
      ≡ (if leb i v && ltb v (i + n) then routine v else gate_offset (idt v))
unfolding set_stubs
gate_offset-set_stubs zero i routine idt v small = ground arith
gate_offset-set_stubs (suc n) i routine idt v small = ground (
  arith,
  gate_offset-set_stubs n (i + 1) routine (idt_set_descriptor i (routine i) 0x8e idt) v small,
  gate_offset-idt_set_descriptor i (routine i) v idt (small i),
)

abbrev is_in : ℕ → List ℕ → Bool
is_in v [] = false
is_in v (w ∷ ws) = (v == w) || is_in v ws

gate_offset-set_vectors :
    (vs : List ℕ) (routine : ℕ → ℕ) (idt : ℕ → IdtEntry) (v : ℕ)
    → ((k : ℕ) → routine k < 2 ^ 64)
    → gate_offset (set_vectors vs routine idt v)
      ≡ (if is_in v vs then routine v else gate_offset (idt v))
unfolding set_vectors
gate_offset-set_vectors [] routine idt v small = refl
gate_offset-set_vectors (w ∷ ws) routine idt v small = ground (
  arith,
  gate_offset-set_vectors ws routine (idt_set_descriptor w (routine w) 0x8e idt) v small,
  gate_offset-idt_set_descriptor w (routine w) v idt (small w),
)

-- After `setup_idt` the gate of each vector below 32, of 0x20, 0x24 and 0x70, and from 0xf0 to 0xf6
-- leads to its routine, and the other gates lead where they led before. The addresses of the
-- routines are words of 64 bits.
pub gate_offset-setup_idt :
    (routine : ℕ → ℕ) (idt : ℕ → IdtEntry) (v : ℕ)
    → ((k : ℕ) → routine k < 2 ^ 64)
    → gate_offset (setup_idt routine idt v) ≡ (if is_set v then routine v else gate_offset (idt v))
unfolding setup_idt
gate_offset-setup_idt routine idt v small = ground (
  arith,
  gate_offset-set_vectors (0x20 ∷ 0x24 ∷ 0x70 ∷ 0xf0 ∷ 0xf1 ∷ 0xf2 ∷ 0xf3 ∷ 0xf4 ∷ 0xf5 ∷ 0xf6 ∷ [])
      routine (set_stubs 32 0 routine idt) v small,
  gate_offset-set_stubs 32 0 routine idt v small,
)

-- The base of the task state segment that two slots of the table stand for.
abbrev pub segment_base : GdtSlot → GdtSlot → Option ℕ
segment_base (entry e) (tss_addr upper) =
    some (e.base_low + e.base_mid * 2 ^ 16 + e.base_high * 2 ^ 24 + upper * 2 ^ 32)
segment_base (entry e) (entry f) = none
segment_base (tss_addr lower) s = none

-- The slots 6 and 7 that `setup_gdt` makes stand for the address of the task state segment, which
-- the selector 0x30 of `ltr` names.
pub segment_base-setup_gdt_entries :
    (tss_base : ℕ) (gdt : ℕ → GdtSlot)
    → segment_base
        (setup_gdt_entries tss_base gdt (0x30 / 8))
        (setup_gdt_entries tss_base gdt (0x30 / 8 + 1))
      ≡ some tss_base
unfolding setup_gdt_entries make_tts_gdt_entry
segment_base-setup_gdt_entries tss_base gdt =
    let e : tss_base % 2 ^ 16
          + tss_base / 2 ^ 16 % 2 ^ 8 * 2 ^ 16
          + tss_base / 2 ^ 24 % 2 ^ 8 * 2 ^ 24
          + tss_base / 2 ^ 32 * 2 ^ 32
        ≡ tss_base =
      omega arith in
    rw e refl
