-- ===== src/Serial/Shell/Lines.antt =====
-- The shell as it appears to its user: a line that is being edited.
use ada_os.Base.{
  ℕ, zero, suc, ◌+◌, ◌-◌, ◌≤◌, ◌≡◌, ◌≢◌, refl, List, [], ◌∷◌, ◌++◌, length, Option, none, some,
  ◌==◌, if◌then◌else◌, arith,
}

-- Character `i` of the line, and 0 behind it.
unfoldable pub cell : List ℕ → ℕ → ℕ
cell [] i = 0
cell (c ∷ cs) zero = c
cell (c ∷ cs) (suc i) = cell cs i

unfoldable pub drop_last : List ℕ → List ℕ
drop_last [] = []
drop_last (c ∷ []) = []
drop_last (c ∷ d ∷ cs) = c ∷ drop_last (d ∷ cs)

-- The line after a byte; `none` before the first return.
unfoldable pub edit : ℕ → Option (List ℕ) → Option (List ℕ)
edit byte none = if byte == 13 then some [] else none
edit byte (some line) =
    if byte == 8
    then some (drop_last line)
    else if byte == 13
    then some []
    else some (line ++ byte ∷ [])

pub cell_past : (line : List ℕ) (i : ℕ) → length line ≤ i → cell line i ≡ 0
unfolding cell
cell_past [] i h = refl
cell_past (c ∷ cs) zero h = absurd (omega arith)
cell_past (c ∷ cs) (suc i) h = cell_past cs i (omega arith)

pub cell-append :
    (line : List ℕ) (byte i : ℕ)
    → cell (line ++ byte ∷ []) i ≡ (if i == length line then byte else cell line i)
unfolding cell
cell-append [] byte zero = refl
cell-append [] byte (suc i) = ground arith
cell-append (c ∷ cs) byte zero = ground arith
cell-append (c ∷ cs) byte (suc i) = ground (arith, cell-append cs byte i)

pub length-append : (line : List ℕ) (byte : ℕ) → length (line ++ byte ∷ []) ≡ length line + 1
length-append [] byte = omega arith
length-append (c ∷ cs) byte = omega (arith, length-append cs byte)

pub length-drop_last : (line : List ℕ) → length (drop_last line) ≡ length line - 1
unfolding drop_last
length-drop_last [] = omega arith
length-drop_last (c ∷ []) = omega arith
length-drop_last (c ∷ d ∷ cs) = omega (arith, length-drop_last (d ∷ cs))

-- The line without its last character has the same cells before that one, and none behind it.
pub cell-drop_last :
    (line : List ℕ) (i : ℕ) → i + 1 ≢ length line → cell (drop_last line) i ≡ cell line i
unfolding cell drop_last
cell-drop_last [] i h = refl
cell-drop_last (c ∷ []) zero h = absurd (omega (arith, h))
cell-drop_last (c ∷ []) (suc i) h = refl
cell-drop_last (c ∷ d ∷ cs) zero h = refl
cell-drop_last (c ∷ d ∷ cs) (suc i) h = cell-drop_last (d ∷ cs) i (omega (arith, h))
