-- ===== src/Platform/Descriptors/Tests.antt =====
-- The tables for concrete addresses.
use ada_os.Base.{ℕ, ◌^◌, ◌<◌, ◌≡◌, arith}
use ada_os.Platform.Descriptors.{IdtEntry, setup_idt}
use ada_os.Platform.Descriptors.Encoding.{gate_offset, gate_offset-setup_idt}

abbrev no_gates : ℕ → IdtEntry
no_gates _ = record {
  offset_low = 0;
  selector = 0;
  ist = 0;
  type_attr = 0;
  offset_mid = 0;
  offset_high = 0;
  zero_word = 0;
}

-- the same routine for every vector
abbrev handler : ℕ → ℕ
handler v = 0xffff_ffff_8000_1230

handler-word : (k : ℕ) → handler k < 2 ^ 64
handler-word k = omega arith

gate_offset-setup_idt_example :
    gate_offset (setup_idt handler no_gates 0xf1) ≡ 0xffff_ffff_8000_1230
gate_offset-setup_idt_example = gate_offset-setup_idt handler no_gates 0xf1 handler-word
