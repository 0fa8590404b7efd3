-- ===== src/Core/Tests.antt =====
-- The byte loops at concrete regions.
use ada_os.Base.{◌+◌, ◌≡◌, refl}
use ada_os.Core.{Memory, memmove, memcmp, minus_one}
use ada_os.Core.Copying.{memmove-at}

-- the bytes 10, 11, 12, ... at the addresses 0, 1, 2, ...
abbrev rising : Memory
rising a = a + 10

-- the overlapping move of three bytes one up
memmove_overlap : (memmove 5 4 3 rising).1 7 ≡ 16
unfolding memmove
memmove_overlap = memmove-at 5 4 3 rising 7

memmove-at_example : (memmove 5 4 3 rising).1 6 ≡ 15
memmove-at_example = memmove-at 5 4 3 rising 6

memcmp_less : memcmp 3 7 2 rising ≡ minus_one
unfolding memcmp
memcmp_less = refl
