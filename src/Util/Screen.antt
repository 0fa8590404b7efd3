-- ===== src/Util/Screen.antt =====
-- kernel/src/util/print_lowlevel.c: text on the framebuffer. The framebuffer is a function from the
-- index of a pixel to its colour, which `memcpy` and `memset` of whole pixels act on; `sent` is what
-- goes to the serial port, the last byte in front. `font` is a parameter: kernel/src/data/font.c.
pub mod Cursor
pub mod Inside
pub mod Printing
pub mod Digits
mod Tests
use ada_os.Base.{
  ℕ, zero, suc, ◌+◌, ◌-◌, ◌*◌, ◌/◌, ◌%◌, ◌^◌, Bool, true, false, List, [], ◌∷◌, ltb, leb, ◌==◌,
  ◌||◌, if◌then◌else◌, bit_at,
}
use ada_os.Core.{memcpy, memset}

abbrev pub word : ℕ
word = 2 ^ 32

pub record Screen : Type 0 where
  pub cursor_x : ℕ
  pub cursor_y : ℕ
  pub on_colour : ℕ
  pub off_colour : ℕ
  pub font_size : ℕ
  pub skew : ℕ
  pub cursor_x_max : ℕ
  pub cursor_y_max : ℕ
  pub bytes_per_line : ℕ
  pub bytes_per_screen : ℕ
  pub height : ℕ
  pub width : ℕ
  pub pitch : ℕ
  pub pixels : ℕ → ℕ
  pub sent : List ℕ

pub calculate_screen_constants : (width height pitch : ℕ) → Screen → Screen
calculate_screen_constants width height pitch s =
    let cell = 8 * s.font_size in
    let rows = (height % word / cell + word - 1) % word in
    let line = width % word * cell * 4 % word in
    record s {
      width = width % word;
      height = height % word;
      cursor_x_max = (width % word / cell + word - 1) % word;
      cursor_y_max = rows;
      bytes_per_line = line;
      bytes_per_screen = line * (rows + 1) % word;
      pitch = pitch / 4 % word;
    }

-- The number of pixels of a line of text, as the copies of `scroll` have it.
abbrev line_pixels : Screen → ℕ
line_pixels s = s.width * 4 * 8 * s.font_size % word / 4

abbrev line_start : Screen → ℕ → ℕ
line_start s i = i * 8 * s.font_size * s.pitch % word

-- `for (i = i; i < i + n; i++)`: each line takes the pixels of the next one.
move_lines : Screen → (n i : ℕ) → (ℕ → ℕ) → (ℕ → ℕ)
move_lines s zero i pixels = pixels
move_lines s (suc n) i pixels =
    move_lines s n (i + 1) (memcpy (line_start s i) (line_start s (i + 1)) (line_pixels s) pixels).1

pub scroll_line : Screen → Screen
unfolding move_lines
scroll_line s =
    let moved = move_lines s s.cursor_y_max 0 s.pixels in
    record s {
      pixels = (memset (line_start s s.cursor_y_max) 0 (line_pixels s) moved).1;
      sent = 10 ∷ 13 ∷ s.sent;
    }

pub scroll : ℕ → Screen → Screen
scroll zero s = s
scroll (suc lines) s = scroll lines (scroll_line s)

pub nl_cursor : Screen → Screen
nl_cursor s =
    if ltb s.cursor_y_max ((s.cursor_y + 1) % word)
    then record (scroll 1 s) { cursor_x = 0 }
    else record s { cursor_x = 0; cursor_y = (s.cursor_y + 1) % word; sent = 10 ∷ 13 ∷ s.sent }

pub advance_cursor : Screen → Screen
advance_cursor s =
    if ltb s.cursor_x_max ((s.cursor_x + 1) % word)
    then nl_cursor s
    else record s { cursor_x = (s.cursor_x + 1) % word }

pub cursor_goto : (x y : ℕ) → Screen → Screen
cursor_goto x y s =
    if ltb s.cursor_x_max x || ltb s.cursor_y_max y
    then s
    else record s { cursor_x = x; cursor_y = y }

-- The innermost loops of `print_bitmap`: a square of `font_size` pixels, row by row.
put_row : Screen → (dx_left dx px py colour : ℕ) → (ℕ → ℕ) → (ℕ → ℕ)
put_row s zero dx px py colour pixels = pixels
put_row s (suc left) dx px py colour pixels =
    let at = (py * s.pitch + (px + dx) % word) % word in
    put_row s left (dx + 1) px py colour (λ k. if k == at then colour else pixels k)

put_square : Screen → (dy_left dy px py colour : ℕ) → (ℕ → ℕ) → (ℕ → ℕ)
put_square s zero dy px py colour pixels = pixels
put_square s (suc left) dy px py colour pixels =
    put_square s left (dy + 1) px py colour
      (put_row s s.font_size 0 px ((py + dy) % word) colour pixels)

-- The loop over the columns of row `i`, and over the rows.
put_columns : Screen → (bitmap x y i n_left n : ℕ) → (ℕ → ℕ) → (ℕ → ℕ)
put_columns s bitmap x y i zero n pixels = pixels
put_columns s bitmap x y i (suc left) n pixels =
    let row = bitmap / 2 ^ ((7 - i) * 8) % 256 in
    let colour = if bit_at row (7 - n) == 1 then s.on_colour else s.off_colour in
    put_columns s bitmap x y i left (n + 1) (
      put_square s s.font_size 0 (x + n * s.font_size + s.skew * (7 - i)) (y + i * s.font_size)
        colour pixels)

put_rows : Screen → (bitmap x y i_left i : ℕ) → (ℕ → ℕ) → (ℕ → ℕ)
put_rows s bitmap x y zero i pixels = pixels
put_rows s bitmap x y (suc left) i pixels =
    put_rows s bitmap x y left (i + 1) (put_columns s bitmap x y i 8 0 pixels)

pub print_bitmap : (bitmap x y : ℕ) → Screen → Screen
unfolding put_rows put_columns put_square put_row
print_bitmap bitmap x y s = record s { pixels = put_rows s bitmap x y 8 0 s.pixels }

-- `serial_writeb_blocking`: either line end is sent as both.
send : ℕ → List ℕ → List ℕ
send byte sent = if byte == 10 || byte == 13 then 10 ∷ 13 ∷ sent else byte ∷ sent

send_all : List ℕ → List ℕ → List ℕ
unfolding send
send_all [] sent = sent
send_all (c ∷ cs) sent = send_all cs (send c sent)

-- `Cleared VGA.` and a new line
cleared_text : List ℕ
cleared_text = 67 ∷ 108 ∷ 101 ∷ 97 ∷ 114 ∷ 101 ∷ 100 ∷ 32 ∷ 86 ∷ 71 ∷ 65 ∷ 46 ∷ 10 ∷ []

pub clear : Screen → Screen
unfolding send_all cleared_text
clear s = record s {
  pixels = (memset 0 0 (s.bytes_per_screen / 4) s.pixels).1;
  cursor_x = 0;
  cursor_y = 0;
  sent = send_all cleared_text s.sent;
}

pub calculate_y : Screen → ℕ
calculate_y s = s.cursor_y * 8 * s.font_size % word

pub calculate_x : Screen → ℕ
calculate_x s = s.cursor_x * 8 * s.font_size % word

-- `k_putc`; the table has 128 characters, and the test lets 256 pass.
pub k_putc : (font : ℕ → ℕ) → ℕ → Screen → Screen
unfolding send
k_putc font c s =
    if c == 10
    then record (nl_cursor s) { cursor_x = 0 }
    else if c == 13
    then record s { cursor_x = 0 }
    else if ltb 256 c
    then s
    else (let s' = print_bitmap (font c) (calculate_x s) (calculate_y s) s in
        advance_cursor (if ltb c 128 then record s' { sent = send c s'.sent } else s'))

-- `k_puts` on the bytes before the zero byte, for fewer than 256 of them, since its index is a
-- `uint8_t`. A `char` from 128 on is negative, and no character of the font.
pub k_puts : (font : ℕ → ℕ) → List ℕ → Screen → Screen
k_puts font [] s = s
k_puts font (c ∷ cs) s = k_puts font cs (
    if c == 10
    then record (nl_cursor s) { cursor_x = 0 }
    else if c == 13
    then record s { cursor_x = 0 }
    else k_putc font (if ltb c 128 then c else c + 65280) s)

-- `while (div <= n / 10) { digit_count++; div *= 10; }`, with at most ten digits in 32 bits.
grow_divisor : (rounds n div digit_count : ℕ) → ℕ × ℕ
grow_divisor zero n div digit_count = (div, digit_count)
grow_divisor (suc rounds) n div digit_count =
    let more = grow_divisor rounds n (div * 10 % word) (digit_count + 1) in
    if leb div (n / 10) then more else (div, digit_count)

-- The characters of the digits that the second loop of `k_puti` prints.
digits_from : (digit_count div n : ℕ) → List ℕ
digits_from zero div n = []
digits_from (suc count) div n = (n / div + 48) ∷ digits_from count (div / 10) (n % div)

pub number_text : ℕ → List ℕ
unfolding grow_divisor digits_from
number_text n = let (div, digit_count) = grow_divisor 10 n 1 1 in digits_from digit_count div n

put_digits : (font : ℕ → ℕ) → List ℕ → Screen → Screen
unfolding send
put_digits font [] s = s
put_digits font (d ∷ ds) s =
    let bitmap = if ltb 57 d || ltb d 48 then font 0 else font d in
    let s' = print_bitmap bitmap (calculate_x s) (calculate_y s) s in
    put_digits font ds (advance_cursor (record s' { sent = send d s'.sent }))

pub k_puti : (font : ℕ → ℕ) → ℕ → Screen → Screen
unfolding put_digits
k_puti font n s = put_digits font (number_text n) s
