-- ===== src/Serial/Shell.antt =====
-- kernel/src/interupt/rs232_handler.c: the debug shell that each byte from the serial port drives.
-- What the handler sends and which command it runs comes out as a list of events; the commands
-- print, and are not looked into.
pub mod Lines
pub mod Editing
mod Tests
use ada_os.Base.{
  ℕ, zero, suc, ◌+◌, ◌-◌, ◌*◌, ◌/◌, ◌%◌, ◌^◌, Bool, true, false, ◌&&◌, ◌||◌, not, List, [], ◌∷◌,
  ◌++◌, Option, none, some, ltb, ◌==◌, if◌then◌else◌,
}
use ada_os.Serial.Port.{Write, serial_writeb, serial_write_string}

pub data Command : Type 0 where
  memmap clear_screen free time reg : Command

pub data Event : Type 0 where
  wrote : Write → Event
  ran : Command → Event
  unknown_command : Event

pub record Shell : Type 0 where
  pub terminal_running : Bool
  pub line_buffer : ℕ → ℕ
  pub buffer_index : ℕ

-- `!memcmp(line_buffer, name, len)` for a name of `len` bytes, from cell `i` on.
starts_with : (ℕ → ℕ) → ℕ → List ℕ → Bool
starts_with buffer i [] = true
starts_with buffer i (c ∷ cs) = buffer i == c && starts_with buffer (i + 1) cs

-- The `ADD_COMMAND` lines, in their order: the first name that matches.
pub find_command : (ℕ → ℕ) → Option Command
unfolding starts_with
find_command buffer =
    if starts_with buffer 0 (109 ∷ 101 ∷ 109 ∷ 109 ∷ 97 ∷ 112 ∷ [])
    then some memmap
    else if starts_with buffer 0 (99 ∷ 108 ∷ 101 ∷ 97 ∷ 114 ∷ [])
    then some clear_screen
    else if starts_with buffer 0 (102 ∷ 114 ∷ 101 ∷ 101 ∷ [])
    then some free
    else if starts_with buffer 0 (116 ∷ 105 ∷ 109 ∷ 101 ∷ [])
    then some time
    else if starts_with buffer 0 (114 ∷ 101 ∷ 103 ∷ [])
    then some reg
    else none

-- `PROMPT`
prompt : List ℕ
prompt =
    97 ∷ 100 ∷ 97 ∷ 79 ∷ 83 ∷ 32 ∷ 75 ∷ 101 ∷ 114 ∷ 110 ∷ 101 ∷ 108 ∷ 32 ∷ 68 ∷ 101 ∷ 98 ∷ 117 ∷ 103
    ∷ 32 ∷ 83 ∷ 104 ∷ 101 ∷ 108 ∷ 108 ∷ 32 ∷ 62 ∷ 32 ∷ []

writes : List Write → List Event
writes [] = []
writes (w ∷ ws) = wrote w ∷ writes ws

abbrev pub put_cell : (ℕ → ℕ) → ℕ → ℕ → ℕ → ℕ
put_cell buffer i v j = if j == i then v else buffer j

-- What a finished line makes the shell do, with its new prompt.
pub respond : Bool → (ℕ → ℕ) → List Event
unfolding writes prompt
respond running buffer =
    elim (find_command buffer) [
      | some c ↦ ran c ∷ []
      | none ↦ if running && not (buffer 0 == 13) then unknown_command ∷ [] else []
    ]
    ++ writes (serial_write_string prompt)

-- `rs232_irq` on the byte that the port gave; 8 is backspace, 13 return.
pub rs232_irq : ℕ → Shell → Shell × List Event
unfolding writes
rs232_irq byte s =
    if not (byte == 13) && not s.terminal_running
    then (s, [])
    else if byte == 8
    then (if s.buffer_index == 0 then (s, []) else (
      record s {
        line_buffer = put_cell s.line_buffer s.buffer_index 0;
        buffer_index = (s.buffer_index + 255) % 256;
      },
      writes (serial_writeb byte),
    ))
    else (let buffer = put_cell s.line_buffer s.buffer_index byte in
        let index = (s.buffer_index + 1) % 256 in
        if byte == 13
        then (
          record {
            terminal_running = true;
            line_buffer = λ i. if ltb i index then 0 else buffer i;
            buffer_index = 0;
          },
          writes (serial_writeb byte) ++ respond s.terminal_running buffer,
        )
        else (record s { line_buffer = buffer; buffer_index = index }, writes (serial_writeb byte)))
