-- ===== src/Serial/Shell/Editing.antt =====
-- `rs232_irq` edits a line: the buffer and its index stand for the characters that were typed and
-- not deleted.
use ada_os.Base.{
  ℕ, zero, suc, ◌+◌, ◌%◌, ◌≤◌, ◌≡◌, ◌≢◌, refl, sym, ◌∙◌, fun_ext, ap₂, subst, true, false, List, [],
  ◌∷◌, ◌++◌, length, Option, none, some, ◌==◌, ltb, if◌then◌else◌, arith, Bool-cases, inl, inr,
}
use ada_os.Serial.Shell.{Shell, Event, rs232_irq, respond, put_cell, writes}
use ada_os.Serial.Port.{serial_writeb}
use ada_os.Serial.Shell.Lines.{
  cell, drop_last, edit, cell_past, cell-append, length-append, length-drop_last, cell-drop_last,
}

-- What the state stands for. The cell at the index may hold the character that was deleted last.
pub data Represents (s : Shell) : Option (List ℕ) → Type 0 where
  idle :
      s.terminal_running ≡ false
      → s.buffer_index ≡ 0
      → ((i : ℕ) → s.line_buffer i ≡ 0)
      → Represents s none
  editing :
      (line : List ℕ)
      → s.terminal_running ≡ true
      → s.buffer_index ≡ length line
      → ((i : ℕ) → i ≢ length line → s.line_buffer i ≡ cell line i)
      → Represents s (some line)

-- The line is short enough for one more character.
abbrev pub HasRoom : Option (List ℕ) → Type 0
HasRoom none = Unit
HasRoom (some line) = length line ≤ 254

-- What is sent for a byte: its echo, and after a return what the finished line makes the shell do.
unfoldable pub reply : ℕ → Option (List ℕ) → List Event
unfolding writes
reply byte none =
    if byte == 13 then writes (serial_writeb 13) ++ respond false (cell (13 ∷ [])) else []
reply byte (some line) =
    if byte == 8
    then (if length line == 0 then [] else writes (serial_writeb 8))
    else if byte == 13
    then writes (serial_writeb 13) ++ respond true (cell (line ++ 13 ∷ []))
    else writes (serial_writeb byte)

abbrev Follows : ℕ → Shell → Option (List ℕ) → Type 0
Follows byte s t =
    Represents (rs232_irq byte s).0 (edit byte t) × ((rs232_irq byte s).1 ≡ reply byte t)

from_idle :
    (byte : ℕ) (s : Shell)
    → s.terminal_running ≡ false
    → s.buffer_index ≡ 0
    → ((i : ℕ) → s.line_buffer i ≡ 0)
    → Follows byte s none
unfolding rs232_irq edit reply cell
from_idle byte s stopped start empty = elim (Bool-cases (byte == 13)) [
  | inr other ↦ rw (other, stopped) (idle refl start empty, refl)
  | inl return ↦
      let e : byte ≡ 13 = ground arith in
      let written : put_cell s.line_buffer 0 13 ≡ cell (13 ∷ []) = fun_ext (λ i. only_first i) in
      rw (e, stopped, start, written) (editing [] refl refl (λ i ne. ground (arith, empty i)), refl)
]
  where
    only_first : (i : ℕ) → put_cell s.line_buffer 0 13 i ≡ cell (13 ∷ []) i
    only_first zero = refl
    only_first (suc i) = ground (arith, empty (suc i))

module _ (s : Shell) (line : List ℕ) (running : s.terminal_running ≡ true)
    (index : s.buffer_index ≡ length line) (room : length line ≤ 254)
    (cells : (i : ℕ) → i ≢ length line → s.line_buffer i ≡ cell line i) where
  written : (byte : ℕ) → put_cell s.line_buffer s.buffer_index byte ≡ cell (line ++ byte ∷ [])
  written byte = fun_ext (λ i. ground (arith, cell-append line byte i, cells i, index))

  shorter :
      (i : ℕ)
      → i ≢ length (drop_last line)
      → put_cell s.line_buffer (length line) 0 i ≡ cell (drop_last line) i
  shorter i ne = elim (Bool-cases (i == length line)) [
    | inl last ↦
        rw last (sym (cell_past (drop_last line) i (ground (arith, length-drop_last line))))
    | inr other ↦ rw other (
        cells i (ground arith)
        ∙ sym (cell-drop_last line i (ground (arith, length-drop_last line, ne))))
  ]

  on_backspace : Follows 8 s (some line)
  unfolding rs232_irq edit reply
  on_backspace = elim (Bool-cases (length line == 0)) [
    | inl empty ↦
        let z : length line ≡ 0 = ground arith in
        let n : length line ≡ length (drop_last line) = omega (arith, z, length-drop_last line) in
        let same : (i : ℕ)
            → i ≢ length (drop_last line)
            → s.line_buffer i ≡ cell (drop_last line) i =
          λ i ne.
            cells i (omega (arith, ne, n))
            ∙ cell_past line i (omega (arith, z))
            ∙ sym (cell_past (drop_last line) i (omega (arith, n, z))) in
        rw (running, index, empty) (editing (drop_last line) refl n same, refl)
    | inr some' ↦
        let n : length line ≢ 0 = ground arith in
        let back : (length line + 255) % 256 ≡ length (drop_last line) =
          omega (arith, n, length-drop_last line) in
        rw (running, index, some', back) (editing (drop_last line) refl refl shorter, refl)
  ]

  wiped :
      (i : ℕ)
      → (if ltb i (length line + 1) then 0 else (if i == length line then 13 else s.line_buffer i))
        ≡ 0
  wiped i = ground (arith, cell_past line i, cells i)

  on_return : Follows 13 s (some line)
  unfolding rs232_irq edit reply cell
  on_return =
      let next : (length line + 1) % 256 ≡ length line + 1 = omega arith in
      let w = written 13 in
      rw (running, w, index, next) (editing [] refl refl (λ i ne. wiped i), refl)

  on_character :
      (byte : ℕ) → (byte == 8) ≡ false → (byte == 13) ≡ false → Follows byte s (some line)
  unfolding rs232_irq edit reply
  on_character byte no_back no_return =
      let next : (length line + 1) % 256 ≡ length (line ++ byte ∷ []) =
        omega (arith, length-append line byte) in
      let w = written byte in
      rw (running, no_back, no_return, w, index, next)
        (editing (line ++ byte ∷ []) refl refl (λ i ne. refl), refl)

-- Where the line has room for one more character, a byte changes the state as it edits the line,
-- and what the handler sends and runs is the reply to the byte and the line.
pub rs232_irq-edit :
    (byte : ℕ) {s : Shell} {t : Option (List ℕ)}
    → Represents s t
    → HasRoom t
    → Represents (rs232_irq byte s).0 (edit byte t) × ((rs232_irq byte s).1 ≡ reply byte t)
rs232_irq-edit byte {s} (idle stopped start empty) room = from_idle byte s stopped start empty
rs232_irq-edit byte {s} (editing line running index cells) room = elim (Bool-cases (byte == 8)) [
  | inl back ↦
      let e : 8 ≡ byte = ground arith in
      subst (λ (b : ℕ). Follows b s (some line)) e (on_backspace s line running index room cells)
  | inr no_back ↦ elim (Bool-cases (byte == 13)) [
    | inl return ↦
        let e : 13 ≡ byte = ground arith in
        subst (λ (b : ℕ). Follows b s (some line)) e (on_return s line running index room cells)
    | inr no_return ↦ on_character s line running index room cells byte no_back no_return
  ]
]

-- The bytes of a session, and the lines and replies of one.
unfoldable pub feed : List ℕ → Shell → Shell × List Event
feed [] s = (s, [])
feed (b ∷ bs) s =
    let (s', events) = rs232_irq b s in let (s'', rest) = feed bs s' in (s'', events ++ rest)

pub edit_all : List ℕ → Option (List ℕ) → Option (List ℕ)
edit_all [] t = t
edit_all (b ∷ bs) t = edit_all bs (edit b t)

pub reply_all : List ℕ → Option (List ℕ) → List Event
reply_all [] t = []
reply_all (b ∷ bs) t = reply b t ++ reply_all bs (edit b t)

-- No line of the session is longer than 254 characters.
abbrev pub ShortLines : List ℕ → Option (List ℕ) → Type 0
ShortLines [] t = Unit
ShortLines (b ∷ bs) t = HasRoom t × ShortLines bs (edit b t)

-- Over a session in which no line is longer than 254 characters the handler edits lines and replies
-- to them; its state stands for the line that the bytes so far have edited.
pub feed-edit_all :
    (bytes : List ℕ) {s : Shell} {t : Option (List ℕ)}
    → Represents s t
    → ShortLines bytes t
    → Represents (feed bytes s).0 (edit_all bytes t) × ((feed bytes s).1 ≡ reply_all bytes t)
unfolding feed edit_all reply_all
feed-edit_all [] r short = (r, refl)
feed-edit_all (b ∷ bs) r short =
    let (r', e) = rs232_irq-edit b r short.0 in
    let (r'', es) = feed-edit_all bs r' short.1 in (r'', ap₂ (λ (x y : List Event). x ++ y) e es)
