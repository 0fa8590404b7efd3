-- ===== src/Util/Screen/Tests.antt =====
-- A screen of 80 columns and 25 rows, with the cursor in its last cell.
use ada_os.Base.{◌≡◌, refl, [], ◌∷◌, arith}
use ada_os.Util.Screen.{Screen, k_puts, number_text}
use ada_os.Util.Screen.Inside.{Fits}
use ada_os.Util.Screen.Printing.{k_puts-inside}
use ada_os.Util.Screen.Cursor.{OnScreen, k_puts-OnScreen}
use ada_os.Util.Screen.Digits.{read_decimal, read_decimal-number_text}

abbrev screen : Screen
screen = record {
  cursor_x = 79;
  cursor_y = 24;
  on_colour = 0xffffff;
  off_colour = 0;
  font_size = 2;
  skew = 0;
  cursor_x_max = 79;
  cursor_y_max = 24;
  bytes_per_line = 81920;
  bytes_per_screen = 2048000;
  height = 400;
  width = 1280;
  pitch = 1280;
  pixels = λ _. 0;
  sent = [];
}

screen-OnScreen : OnScreen screen
screen-OnScreen = record {
  column = omega arith;
  row = omega arith;
  words = (omega arith, omega arith);
}

k_puts-OnScreen_example : OnScreen (k_puts (λ _. 0xff) (72 ∷ 105 ∷ 10 ∷ []) screen)
k_puts-OnScreen_example = k_puts-OnScreen (λ _. 0xff) (72 ∷ 105 ∷ 10 ∷ []) screen screen-OnScreen

read_decimal-number_text_example : read_decimal 0 (number_text 4096) ≡ 4096
read_decimal-number_text_example = read_decimal-number_text 4096 (omega arith)

-- the framebuffer of this screen has 5120 bytes in a row
screen-Fits : Fits screen 400
screen-Fits = record {
  columns = omega arith;
  lines = omega arith;
  width = omega arith;
  narrow = omega arith;
  low = omega arith;
  small = omega arith;
  upright = refl;
}

k_puts-inside_example :
    (k_puts (λ _. 0xff) (72 ∷ 10 ∷ []) screen).pixels 512000 ≡ screen.pixels 512000
k_puts-inside_example =
    k_puts-inside (λ _. 0xff) (72 ∷ 10 ∷ []) screen 400 screen-Fits screen-OnScreen 512000
      (omega arith)
