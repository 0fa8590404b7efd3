-- ===== src/Platform/Pic.antt =====
-- kernel/src/platform/x86_64/pic.c: the two interrupt controllers of the PC. The ports are a
-- parameter: what a read gives.
pub mod Masks
mod Tests
use ada_os.Base.{ℕ, ◌+◌, ◌-◌, ◌%◌, ◌^◌, List, [], ◌∷◌, ltb, if◌then◌else◌, bit_and}

-- `outb(port, value)`
pub record Out : Type 0 where
  pub port : ℕ
  pub value : ℕ

abbrev pub out : ℕ → ℕ → Out
out port value = record { port = port; value = value }

-- The controller of a line, and the line's number there.
abbrev pub data_port : ℕ → ℕ
data_port irq = if ltb irq 8 then 0x21 else 0xa1

abbrev pub line_of : ℕ → ℕ
line_of irq = if ltb irq 8 then irq else irq - 8

-- `unmask_irq`, for a line below 40, since a shift by 32 or more is undefined: what is written.
-- `~(1 << irq)` in the low byte, which is all that `&=` on a `uint8_t` keeps.
pub unmask_irq : (inb : ℕ → ℕ) → (irq : ℕ) → Out
unmask_irq inb irq =
    let port = data_port irq in out port (bit_and (inb port) (255 - 2 ^ line_of irq % 256))

-- `setup_pic`, between the instructions that switch interrupts off and on.
pub setup_pic : List Out
setup_pic =
    out 0x20 0x11
    ∷ out 0xa0 0x11
    ∷ out 0x21 0x20
    ∷ out 0xa1 0x28
    ∷ out 0x21 4
    ∷ out 0xa1 2
    ∷ out 0x21 1
    ∷ out 0xa1 1
    ∷ out 0x21 0xff
    ∷ out 0xa1 0xff
    ∷ []
