-- ===== src/Platform/Pic/Tests.antt =====
-- The masks after all lines are off.
use ada_os.Base.{ℕ, ◌==◌, ◌≡◌, refl, if◌then◌else◌, arith}
use ada_os.Platform.Pic.{unmask_irq, out}
use ada_os.Platform.Pic.Masks.{masked, after, masked-unmask_irq}

abbrev all_off : ℕ → ℕ
all_off port = 255

-- the serial port's line
serial_line : unmask_irq all_off 4 ≡ out 0x21 0xef
unfolding unmask_irq
serial_line = refl

masked-unmask_irq_example :
    masked (after all_off (unmask_irq all_off 4)) 12 ≡ (if 4 == 12 then 0 else masked all_off 12)
masked-unmask_irq_example = masked-unmask_irq all_off 4 12 (omega arith) (omega arith) (omega arith)
