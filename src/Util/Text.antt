-- ===== src/Util/Text.antt =====
-- kernel/src/util/string.c: strings that a zero byte ends, in memory. The search for the zero byte
-- has fuel, since memory may hold none.
pub mod Copies
mod Tests
use ada_os.Base.{
  ℕ, zero, suc, ◌+◌, ◌==◌, if◌then◌else◌, Bool, true, false, Outcome, done, spinning, ◌>>=◌,
}
use ada_os.Core.{Memory, mempcpy, store}

-- `for (i = i;; i++) if (s[i] == 0x00) return i;`
length_from : ℕ → Memory → (s i : ℕ) → Outcome ℕ
length_from zero m s i = spinning
length_from (suc fuel) m s i =
    let rest = length_from fuel m s (i + 1) in if m (s + i) == 0 then done i else rest

pub strlen : ℕ → Memory → ℕ → Outcome ℕ
unfolding length_from
strlen fuel m s = length_from fuel m s 0

pub stpcpy : ℕ → (dst src : ℕ) → Memory → Outcome (ℕ × Memory)
stpcpy fuel dst src m =
    strlen fuel m src >>= λ n. (let (p, m') = mempcpy dst src n m in done (p, store m' p 0))

pub strcpy : ℕ → (dst src : ℕ) → Memory → Outcome (ℕ × Memory)
strcpy fuel dst src m = stpcpy fuel dst src m >>= λ r. done (dst, r.1)

pub strcat : ℕ → (dst src : ℕ) → Memory → Outcome (ℕ × Memory)
strcat fuel dst src m =
    strlen fuel m dst >>= λ n. (stpcpy fuel (dst + n) src m >>= λ r. done (dst, r.1))
