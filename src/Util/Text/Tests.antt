-- ===== src/Util/Text/Tests.antt =====
-- Two short strings in memory: "ab" at 100 and "c" at 200.
use ada_os.Base.{◌≡◌, inr, refl, ◌==◌, if◌then◌else◌, done, arith}
use ada_os.Core.{Memory}
use ada_os.Util.Text.{strcat}
use ada_os.Util.Text.Copies.{IsText, Joined, strcat-Joined}

abbrev two_strings : Memory
two_strings a = if a == 100 then 97 else if a == 101 then 98 else if a == 200 then 99 else 0

front-IsText : IsText two_strings 100 2
front-IsText = record { ends = refl; bytes = λ i lt. ground arith }

back-IsText : IsText two_strings 200 1
back-IsText = record { ends = refl; bytes = λ i lt. ground arith }

strcat-Joined_example :
    (m' : Memory) × (strcat 10 100 200 two_strings ≡ done (100, m'))
    × Joined two_strings m' 100 2 200 1
strcat-Joined_example =
    strcat-Joined 100 2 200 1 10 front-IsText back-IsText (inr (omega arith)) (omega arith)
      (omega arith)
