-- ===== src/Serial/Port.antt =====
-- kernel/src/driver/rs232.c: the registers of the first serial port. The port itself is a
-- parameter: what a read gives. Waiting for the transmitter is left out.
use ada_os.Base.{
  ℕ, ◌/◌, ◌%◌, Bool, true, false, ◌||◌, List, [], ◌∷◌, ◌++◌, ◌==◌, not, if◌then◌else◌,
}

-- A write of a value to a register of the port.
pub record Write : Type 0 where
  pub offset : ℕ
  pub value : ℕ

abbrev pub to : ℕ → ℕ → Write
to offset value = record { offset = offset; value = value }

-- `serial_writeb_unsafe_nonblocking`: either line end is sent as both.
pub serial_writeb : ℕ → List Write
serial_writeb byte = if byte == 10 || byte == 13 then to 0 13 ∷ to 0 10 ∷ [] else to 0 byte ∷ []

-- `serial_write_string` on the bytes before the zero byte, for fewer than 256 of them, since its
-- index is a `uint8_t`.
pub serial_write_string : List ℕ → List Write
serial_write_string [] = []
serial_write_string (c ∷ cs) = serial_writeb c ++ serial_write_string cs

abbrev max_baud : ℕ
max_baud = 115200

abbrev test_byte : ℕ
test_byte = 0x3a

-- `setup_serial`, for a baud rate other than 0, given what the scratch register and the loopback
-- read: the writes to the port, and the values that SERIAL_INTERRUPT_INITIALIZED is set to, one
-- after the other. The unmasking of the interrupt at the end is left out.
unfoldable pub setup_serial : (baud scratch loopback : ℕ) → List Write × List Bool
setup_serial baud scratch loopback =
    let check = to 7 test_byte ∷ [] in
    let checked = if not (scratch == test_byte) then false ∷ [] else [] in
    let lsb = max_baud / baud % 256 in
    let configured =
      check
      ++ to 3 0
        ∷ to 1 1
        ∷ to 3 0x80
        ∷ to 0 lsb
        ∷ to 1 0
        ∷ to 3 3
        ∷ to 2 7
        ∷ to 4 0x0b
        ∷ to 4 0x1e
        ∷ to 0 test_byte
        ∷ [] in
    if not (max_baud % baud == 0)
    then (check, checked ++ false ∷ [])
    else if not (loopback == test_byte)
    then (configured, checked ++ false ∷ [])
    else (configured ++ to 4 0x0f ∷ [], checked ++ true ∷ [])
