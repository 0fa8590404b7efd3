-- ===== src/Platform/Cpuid/Names.antt =====
-- Which bytes of which registers the name of the processor has.
use ada_os.Base.{
  ℕ, zero, suc, ◌+◌, ◌-◌, ◌*◌, ◌/◌, ◌%◌, ◌^◌, ◌≤◌, ◌<◌, ◌≡◌, refl, sym, ◌∙◌, ap, List, [], ◌∷◌,
  ◌++◌, ltb, ◌==◌, if◌then◌else◌, Bool-cases, inl, inr, arith, length, false, ltb→lt, ltb→ge,
}
use ada_os.Platform.Cpuid.{CpuidRegs, word_bytes, name_from, get_cpu_name}

-- Byte `i` of a text, 0 behind its end.
unfoldable pub byte_of : List ℕ → ℕ → ℕ
byte_of [] i = 0
byte_of (c ∷ cs) zero = c
byte_of (c ∷ cs) (suc i) = byte_of cs i

-- Word `k` of the four registers.
abbrev pub word_of : CpuidRegs → ℕ → ℕ
word_of r k = if k == 0 then r.eax else if k == 1 then r.ebx else if k == 2 then r.ecx else r.edx

-- Byte `k` of a word.
abbrev pub byte_in : ℕ → ℕ → ℕ
byte_in w k = w / 256 ^ k % 256

-- Byte `i` of the registers of a run of leaves.
abbrev pub byte_at : (cpuid : (leaf subleaf : ℕ) → CpuidRegs) → (leaf i : ℕ) → ℕ
byte_at cpuid leaf i = byte_in (word_of (cpuid (leaf + i / 16) 0) (i / 4 % 4)) (i % 4)

-- The first word of a text, and what is behind it.
first_word :
    (w : ℕ) (rest : List ℕ) (i : ℕ) → i < 4 → byte_of (word_bytes w ++ rest) i ≡ byte_in w i
unfolding byte_of word_bytes
first_word w rest zero h = omega arith
first_word w rest (suc zero) h = omega arith
first_word w rest (suc (suc zero)) h = omega arith
first_word w rest (suc (suc (suc zero))) h = omega arith
first_word w rest (suc (suc (suc (suc i)))) h = absurd (omega (arith, h))

behind_word :
    (w : ℕ) (rest : List ℕ) (i : ℕ)
    → 4 ≤ i
    → byte_of (word_bytes w ++ rest) i ≡ byte_of rest (i - 4)
unfolding byte_of word_bytes
behind_word w rest zero h = absurd (omega (arith, h))
behind_word w rest (suc zero) h = absurd (omega (arith, h))
behind_word w rest (suc (suc zero)) h = absurd (omega (arith, h))
behind_word w rest (suc (suc (suc zero))) h = absurd (omega (arith, h))
behind_word w rest (suc (suc (suc (suc i)))) h =
    let e : suc (suc (suc (suc i))) - 4 ≡ i = omega arith in ap (byte_of rest) (sym e)

-- The words of one leaf, in front of a text.
abbrev leaf_bytes : CpuidRegs → List ℕ → List ℕ
leaf_bytes r rest =
    word_bytes r.eax ++ (word_bytes r.ebx ++ (word_bytes r.ecx ++ (word_bytes r.edx ++ rest)))

-- Byte `i` of a text whose word `k` is `w`, with `k` words in front of it.
byte_of-leaf_bytes :
    (r : CpuidRegs) (rest : List ℕ) (i : ℕ)
    → i < 16
    → byte_of (leaf_bytes r rest) i ≡ byte_in (word_of r (i / 4 % 4)) (i % 4)
byte_of-leaf_bytes r rest i h = elim (Bool-cases (ltb i 4)) [
  | inl first ↦
      let word : i / 4 % 4 ≡ 0 = omega (arith, ltb→lt _ _ first) in
      let byte : i % 4 ≡ i = omega (arith, ltb→lt _ _ first) in
      rw (word, byte) (first_word r.eax _ i (ltb→lt _ _ first))
  | inr later ↦ behind_word r.eax _ i (ltb→ge _ _ later) ∙ (elim (Bool-cases (ltb i 8)) [
    | inl second ↦
        let word : i / 4 % 4 ≡ 1 = omega (arith, ltb→ge _ _ later, ltb→lt _ _ second) in
        let byte : i % 4 ≡ i - 4 = omega (arith, ltb→ge _ _ later, ltb→lt _ _ second) in
        rw (word, byte) (first_word r.ebx _ (i - 4) (omega (arith, ltb→lt _ _ second)))
    | inr later' ↦
        behind_word r.ebx _ (i - 4) (omega (arith, ltb→ge _ _ later'))
        ∙ (elim (Bool-cases (ltb i 12)) [
          | inl third ↦
              let word : i / 4 % 4 ≡ 2 = omega (arith, ltb→ge _ _ later', ltb→lt _ _ third) in
              let byte : i % 4 ≡ i - 4 - 4 = omega (arith, ltb→ge _ _ later', ltb→lt _ _ third) in
              rw (word, byte) (first_word r.ecx _ (i - 4 - 4) (omega (arith, ltb→lt _ _ third)))
          | inr fourth ↦
              let word : i / 4 % 4 ≡ 3 = omega (arith, ltb→ge _ _ fourth, h) in
              let byte : i % 4 ≡ i - 4 - 4 - 4 = omega (arith, ltb→ge _ _ fourth, h) in
              behind_word r.ecx _ (i - 4 - 4) (omega (arith, ltb→ge _ _ fourth))
              ∙ rw (word, byte) (first_word r.edx _ (i - 4 - 4 - 4) (omega arith))
        ])
  ])
]

behind_leaf :
    (r : CpuidRegs) (rest : List ℕ) (i : ℕ)
    → 16 ≤ i
    → byte_of (leaf_bytes r rest) i ≡ byte_of rest (i - 4 - 4 - 4 - 4)
behind_leaf r rest i h =
    behind_word r.eax _ i (omega arith)
    ∙ behind_word r.ebx _ (i - 4) (omega arith)
    ∙ behind_word r.ecx _ (i - 4 - 4) (omega arith)
    ∙ behind_word r.edx _ (i - 4 - 4 - 4) (omega arith)

module _ (cpuid : (leaf subleaf : ℕ) → CpuidRegs) where
  byte_of-name_from :
      (leaves leaf i : ℕ)
      → i < 16 * leaves
      → byte_of (name_from cpuid leaves leaf) i ≡ byte_at cpuid leaf i
  unfolding name_from
  byte_of-name_from zero leaf i h = absurd (omega arith)
  byte_of-name_from (suc leaves) leaf i h = elim (Bool-cases (ltb i 16)) [
    | inl here ↦
        let first : leaf + i / 16 ≡ leaf = omega (arith, ltb→lt _ _ here) in
        byte_of-leaf_bytes (cpuid leaf 0) _ i (ltb→lt _ _ here) ∙ rw first refl
    | inr later ↦
        let back : i - 4 - 4 - 4 - 4 ≡ i - 16 = omega arith in
        let next : leaf + 1 + (i - 16) / 16 ≡ leaf + i / 16 = omega (arith, ltb→ge _ _ later) in
        let word : (i - 16) / 4 % 4 ≡ i / 4 % 4 = omega (arith, ltb→ge _ _ later) in
        let byte : (i - 16) % 4 ≡ i % 4 = omega (arith, ltb→ge _ _ later) in
        behind_leaf (cpuid leaf 0) _ i (ltb→ge _ _ later)
        ∙ rw back (
            byte_of-name_from leaves (leaf + 1) (i - 16) (omega (arith, ltb→ge _ _ later))
            ∙ rw (next, word, byte) refl)
  ]

  length-name_from : (leaves leaf : ℕ) → length (name_from cpuid leaves leaf) ≡ 16 * leaves
  unfolding name_from word_bytes
  length-name_from zero leaf = refl
  length-name_from (suc leaves) leaf = omega (arith, length-name_from leaves (leaf + 1))

  -- The name of the processor, where it has one, is 48 bytes long: those of EAX, EBX, ECX and EDX, the
  -- lowest first, of the three leaves from 0x80000002 on.
  pub get_cpu_name-Named :
      0x8000_0004 ≤ (cpuid 0x8000_0000 0).eax
      → (length (get_cpu_name cpuid) ≡ 48)
        × ((i : ℕ) → i < 48 → byte_of (get_cpu_name cpuid) i ≡ byte_at cpuid 0x8000_0002 i)
  unfolding get_cpu_name
  get_cpu_name-Named h =
      let named : ltb (cpuid 0x8000_0000 0).eax 0x8000_0004 ≡ false = ground arith in
      rw named (length-name_from 3 0x8000_0002, λ i less. byte_of-name_from 3 0x8000_0002 i less)
