-- ===== src/Platform/Rtc/Cmos.antt =====
-- kernel/src/platform/x86_64/rtc.c: the clock's registers, and the reading of their digits. `%x` of
-- the printf library is the parameter `hex`, and what a register holds is `register`; the waits
-- before the reads change neither.
pub mod Reading
mod Tests
use ada_os.Base.{ℕ, ◌+◌, ◌-◌, ◌*◌, ◌%◌, List, [], ◌∷◌, ◌++◌, ◌==◌, if◌then◌else◌}
use ada_os.Platform.Pic.{Out, out}
use ada_os.Platform.Rtc.{get_unix_epoch}

-- `sel_cmos_reg`: the highest bit is off.
pub sel_cmos_reg : (offset : ℕ) → Out
sel_cmos_reg offset = out 0x70 (offset % 128)

-- `write_cmos_reg`
pub write_cmos_reg : (offset val : ℕ) → List Out
unfolding sel_cmos_reg
write_cmos_reg offset val = sel_cmos_reg offset ∷ out 0x71 val ∷ []

-- `read_cmos_reg`: what the register that `sel_cmos_reg` selects holds.
pub read_cmos_reg : (register : ℕ → ℕ) → (offset : ℕ) → ℕ
unfolding sel_cmos_reg
read_cmos_reg register offset = register (sel_cmos_reg offset).value % 256

-- `atoi_` on the bytes before the zero byte, none of which is below '0'.
atoi_from : (res : ℕ) → List ℕ → ℕ
atoi_from res [] = res
atoi_from res (c ∷ cs) = atoi_from (res * 10 + (c - 48)) cs

pub atoi : List ℕ → ℕ
unfolding atoi_from
atoi strg = atoi_from 0 strg

-- `get_unix_timestamp`, where `century_register` is `fadt->century`.
pub get_unix_timestamp : (hex : ℕ → List ℕ) → (register : ℕ → ℕ) → (century_register : ℕ) → ℕ
get_unix_timestamp hex register century_register =
    let read = read_cmos_reg register in
    let century = if century_register == 0 then 0x20 else read century_register in
    get_unix_epoch (atoi (hex (read 0))) (atoi (hex (read 2))) (atoi (hex (read 4)))
      (atoi (hex (read 7))) (atoi (hex (read 8))) (atoi (hex century ++ hex (read 9)))
