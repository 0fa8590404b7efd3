-- ===== src/Platform/Cpuid.antt =====
-- kernel/src/platform/x86_64/cpuid.c: what the processor says of itself. The instruction is a
-- parameter: the registers that it gives for a leaf and a subleaf. A text is its bytes before the zero byte.
pub mod Names
use ada_os.Base.{
  ℕ, zero, suc, ◌+◌, ◌*◌, ◌/◌, ◌%◌, ◌^◌, List, [], ◌∷◌, ◌++◌, Option, none, some, ltb, ◌==◌,
  if◌then◌else◌,
}

pub record CpuidRegs : Type 0 where
  pub eax : ℕ
  pub ebx : ℕ
  pub ecx : ℕ
  pub edx : ℕ

-- The switch over the letters 'a', 'b', 'c' and 'd'.
abbrev pub register_named : (reg : ℕ) → CpuidRegs → Option ℕ
register_named reg r =
    if reg == 97
    then some r.eax
    else if reg == 98
    then some r.ebx
    else if reg == 99
    then some r.ecx
    else if reg == 100
    then some r.edx
    else none

-- `memcpy(p, &word, 4)`: the bytes of a word as they lie in memory.
pub word_bytes : ℕ → List ℕ
word_bytes w = w % 256 ∷ w / 256 % 256 ∷ w / 65536 % 256 ∷ w / 16777216 % 256 ∷ []

module _ (cpuid : (leaf subleaf : ℕ) → CpuidRegs) where
  pub cpu_feature_bit : (leaf subleaf reg bit : ℕ) → ℕ
  cpu_feature_bit leaf subleaf reg bit =
      if ltb 31 bit then 0 else elim (register_named reg (cpuid leaf subleaf)) [
        | some value ↦ value / 2 ^ bit % 2
        | none ↦ 0
      ]

  pub get_cpu_vendor : List ℕ
  unfolding word_bytes
  get_cpu_vendor = let r = cpuid 0 0 in word_bytes r.ebx ++ (word_bytes r.edx ++ word_bytes r.ecx)

  -- "NOHYPERVISOR", if the processor does not show one.
  pub get_hypervisor_vendor : List ℕ
  unfolding cpu_feature_bit word_bytes
  get_hypervisor_vendor =
      if cpu_feature_bit 1 0 99 0x1f == 0
      then 78 ∷ 79 ∷ 72 ∷ 89 ∷ 80 ∷ 69 ∷ 82 ∷ 86 ∷ 73 ∷ 83 ∷ 79 ∷ 82 ∷ []
      else (let r = cpuid 0x4000_0000 0 in
          word_bytes r.ebx ++ (word_bytes r.ecx ++ word_bytes r.edx))

  -- The loop over the leaves.
  pub name_from : (leaves leaf : ℕ) → List ℕ
  unfolding word_bytes
  name_from zero leaf = []
  name_from (suc leaves) leaf =
      let r = cpuid leaf 0 in
      word_bytes r.eax
      ++ (word_bytes r.ebx
          ++ (word_bytes r.ecx ++ (word_bytes r.edx ++ name_from leaves (leaf + 1))))

  -- "NO CPU NAME", if the processor does not have one.
  pub get_cpu_name : List ℕ
  unfolding name_from
  get_cpu_name =
      if ltb (cpuid 0x8000_0000 0).eax 0x8000_0004
      then 78 ∷ 79 ∷ 32 ∷ 67 ∷ 80 ∷ 85 ∷ 32 ∷ 78 ∷ 65 ∷ 77 ∷ 69 ∷ []
      else name_from 3 0x8000_0002
