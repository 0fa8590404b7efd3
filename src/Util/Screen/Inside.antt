-- ===== src/Util/Screen/Inside.antt =====
-- What the text writes lies inside the framebuffer.
use ada_os.Base.{
  ℕ, zero, suc, ◌+◌, ◌-◌, ◌*◌, ◌%◌, ◌^◌, ◌≤◌, ◌<◌, ◌≡◌, refl, ◌∙◌, false, ◌==◌, arith, inr,
}
use ada_os.Core.{memset}
use ada_os.Core.Copying.{within, memset-at, memcpy_frame}
use ada_os.Util.Screen.Cursor.{OnScreen}
use ada_os.Util.Screen.{
  Screen, put_row, put_square, put_columns, put_rows, print_bitmap, line_start, line_pixels,
  move_lines, scroll_line, calculate_x, calculate_y,
}

pub mul_mono : (n m f : ℕ) → n ≤ m → n * f ≤ m * f
mul_mono zero m f h = omega arith
mul_mono (suc n) zero f h = absurd (omega (arith, h))
mul_mono (suc n) (suc m) f h =
    let k = mul_mono n m f (omega (arith, h)) in
    let e : suc n * f ≡ n * f + f = grind arith in
    let e' : suc m * f ≡ m * f + f = grind arith in omega (arith, e, e', k)

-- A pixel of a row of the framebuffer.
pixel_lt : (a b pitch rows : ℕ) → a < rows → b < pitch → a * pitch + b < rows * pitch
pixel_lt a b pitch rows h k =
    let e : suc a * pitch ≡ a * pitch + pitch = grind arith in
    let m = mul_mono (suc a) rows pitch (omega (arith, h)) in omega (arith, e, m, k)

module _ (s : Screen) (rows k : ℕ) (narrow : s.pitch ≤ 2 ^ 32) (low : rows ≤ 2 ^ 32)
    (small : rows * s.pitch ≤ 2 ^ 32) (beyond : rows * s.pitch ≤ k) where
  put_row_frame :
      (left dx px py colour : ℕ) (pixels : ℕ → ℕ)
      → px + dx + left ≤ s.pitch
      → py < rows
      → put_row s left dx px py colour pixels k ≡ pixels k
  unfolding put_row
  put_row_frame zero dx px py colour pixels h j = refl
  put_row_frame (suc left) dx px py colour pixels h j =
      let inside = pixel_lt py (px + dx) s.pitch rows j (omega (arith, h)) in
      let column : (px + dx) % 2 ^ 32 ≡ px + dx = omega (arith, h, narrow) in
      let at : (py * s.pitch + (px + dx) % 2 ^ 32) % 2 ^ 32 ≡ py * s.pitch + (px + dx) =
        rw column (omega (arith, inside, small)) in
      let other : (k == (py * s.pitch + (px + dx) % 2 ^ 32) % 2 ^ 32) ≡ false =
        rw at (ground (arith, inside, beyond)) in
      put_row_frame left (dx + 1) px py colour _ (omega (arith, h)) j ∙ rw other refl

  put_square_frame :
      (left dy px py colour : ℕ) (pixels : ℕ → ℕ)
      → px + s.font_size ≤ s.pitch
      → py + dy + left ≤ rows
      → put_square s left dy px py colour pixels k ≡ pixels k
  unfolding put_square
  put_square_frame zero dy px py colour pixels h j = refl
  put_square_frame (suc left) dy px py colour pixels h j =
      put_square_frame left (dy + 1) px py colour _ h (omega (arith, j))
      ∙ put_row_frame s.font_size 0 px ((py + dy) % 2 ^ 32) colour pixels (omega (arith, h))
          (omega (arith, j, low))

  put_columns_frame :
      (bitmap x y i left n : ℕ) (pixels : ℕ → ℕ)
      → s.skew ≡ 0
      → n + left ≡ 8
      → x + 8 * s.font_size ≤ s.pitch
      → y + i * s.font_size + s.font_size ≤ rows
      → put_columns s bitmap x y i left n pixels k ≡ pixels k
  unfolding put_columns
  put_columns_frame bitmap x y i zero n pixels flat e h j = refl
  put_columns_frame bitmap x y i (suc left) n pixels flat e h j =
      let next : suc n * s.font_size ≡ n * s.font_size + s.font_size = grind arith in
      let m = mul_mono (suc n) 8 s.font_size (omega (arith, e)) in
      let none_more : s.skew * (7 - i) ≡ 0 = rw flat (omega arith) in
      put_columns_frame bitmap x y i left (n + 1) _ flat (omega (arith, e)) h j
      ∙ put_square_frame s.font_size 0 (x + n * s.font_size + s.skew * (7 - i))
          (y + i * s.font_size) _ pixels (omega (arith, next, m, none_more, h)) (omega (arith, j))

  put_rows_frame :
      (bitmap x y left i : ℕ) (pixels : ℕ → ℕ)
      → s.skew ≡ 0
      → i + left ≡ 8
      → x + 8 * s.font_size ≤ s.pitch
      → y + 8 * s.font_size ≤ rows
      → put_rows s bitmap x y left i pixels k ≡ pixels k
  unfolding put_rows
  put_rows_frame bitmap x y zero i pixels flat e h j = refl
  put_rows_frame bitmap x y (suc left) i pixels flat e h j =
      let next : suc i * s.font_size ≡ i * s.font_size + s.font_size = grind arith in
      let m = mul_mono (suc i) 8 s.font_size (omega (arith, e)) in
      put_rows_frame bitmap x y left (i + 1) _ flat (omega (arith, e)) h j
      ∙ put_columns_frame bitmap x y i 8 0 pixels flat (omega arith) h (omega (arith, next, m, j))

memset_frame : (dest c n : ℕ) (m : ℕ → ℕ) (a : ℕ) → dest + n ≤ a → (memset dest c n m).1 a ≡ m a
memset_frame dest c n m a h =
    let out : within dest n a ≡ false = ground (arith, h) in memset-at dest c n m a ∙ rw out refl

-- The character cells of the screen lie inside the rows of the framebuffer, whose pixels a word can
-- count.
pub record Fits (s : Screen) (rows : ℕ) : Type 0 where
  pub columns : suc s.cursor_x_max * (8 * s.font_size) ≤ s.pitch
  pub lines : suc s.cursor_y_max * (8 * s.font_size) ≤ rows
  pub width : s.width ≤ s.pitch
  pub narrow : s.pitch ≤ 2 ^ 32
  pub low : rows ≤ 2 ^ 32
  pub small : rows * s.pitch ≤ 2 ^ 32
  pub upright : s.skew ≡ 0

-- The pixels of line `i` that `scroll` copies.
line_end :
    (s : Screen) (rows i : ℕ)
    → Fits s rows
    → i ≤ s.cursor_y_max
    → line_start s i + line_pixels s ≤ rows * s.pitch
line_end s rows i f h =
    let cell = 8 * s.font_size in
    let start : i * 8 * s.font_size * s.pitch ≡ i * cell * s.pitch = grind arith in
    let wide : s.width * 4 * 8 * s.font_size ≡ 4 * (s.width * cell) = grind arith in
    let next : suc i * cell ≡ i * cell + cell = grind arith in
    let whole : (i * cell + cell) * s.pitch ≡ i * cell * s.pitch + s.pitch * cell = grind arith in
    let below = mul_mono (suc i) (suc s.cursor_y_max) cell (omega arith) in
    let area = mul_mono (i * cell + cell) rows s.pitch (omega (arith, below, next, f.lines)) in
    let side = mul_mono s.width s.pitch cell f.width in
    omega (arith, start, wide, whole, area, side)

module _ (rows k : ℕ) where
  move_lines_frame :
      (s : Screen) (n i : ℕ) (pixels : ℕ → ℕ)
      → Fits s rows
      → rows * s.pitch ≤ k
      → i + n ≤ s.cursor_y_max
      → move_lines s n i pixels k ≡ pixels k
  unfolding move_lines
  move_lines_frame s zero i pixels f beyond h = refl
  move_lines_frame s (suc n) i pixels f beyond h =
      let inside = line_end s rows i f (omega (arith, h)) in
      move_lines_frame s n (i + 1) _ f beyond (omega (arith, h))
      ∙ memcpy_frame (line_start s i) (line_start s (i + 1)) (line_pixels s) pixels k
          (inr (omega (arith, inside, beyond)))

  pub scroll_line_frame :
      (s : Screen) → Fits s rows → rows * s.pitch ≤ k → (scroll_line s).pixels k ≡ s.pixels k
  unfolding scroll_line
  scroll_line_frame s f beyond =
      let inside = line_end s rows s.cursor_y_max f (omega arith) in
      memset_frame (line_start s s.cursor_y_max) 0 (line_pixels s) _ k
        (omega (arith, inside, beyond))
      ∙ move_lines_frame s s.cursor_y_max 0 s.pixels f beyond (omega arith)

  -- The cell of the cursor lies in the framebuffer.
  cell_end : (c max size cell : ℕ) → c ≤ max → suc max * cell ≤ size → c * cell + cell ≤ size
  cell_end c max size cell h j =
      let m = mul_mono (suc c) (suc max) cell (omega (arith, h)) in
      let e : suc c * cell ≡ c * cell + cell = grind arith in omega (arith, m, e, j)

  pub print_bitmap_frame :
      (s : Screen) (bitmap : ℕ)
      → Fits s rows
      → OnScreen s
      → rows * s.pitch ≤ k
      → (print_bitmap bitmap (calculate_x s) (calculate_y s) s).pixels k ≡ s.pixels k
  unfolding print_bitmap calculate_x calculate_y
  print_bitmap_frame s bitmap f o beyond =
      let cell = 8 * s.font_size in
      let x : s.cursor_x * 8 * s.font_size ≡ s.cursor_x * cell = grind arith in
      let y : s.cursor_y * 8 * s.font_size ≡ s.cursor_y * cell = grind arith in
      let right = cell_end s.cursor_x s.cursor_x_max s.pitch cell o.column f.columns in
      let bottom = cell_end s.cursor_y s.cursor_y_max rows cell o.row f.lines in
      put_rows_frame s rows k f.narrow f.low f.small beyond bitmap _ _ 8 0 s.pixels f.upright
        (omega arith) (omega (arith, x, right)) (omega (arith, y, bottom))
