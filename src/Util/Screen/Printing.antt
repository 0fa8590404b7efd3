-- ===== src/Util/Screen/Printing.antt =====
-- Printing writes to no pixel that is not of the framebuffer.
use ada_os.Base.{
  ℕ, suc, ◌+◌, ◌-◌, ◌*◌, ◌/◌, ◌%◌, ◌^◌, ◌≤◌, ◌<◌, ◌≡◌, refl, ◌∙◌, List, [], ◌∷◌, ltb, ◌==◌,
  if◌then◌else◌, arith, Bool-cases, inl, inr,
}
use ada_os.Util.Screen.Cursor.{OnScreen}
use native.Mathlib.Nat.{div-mul-le_self, div-le_self, le-div_iff_mul-le}
use ada_os.Util.Screen.{
  Screen, word, print_bitmap, scroll_line, scroll, calculate_screen_constants, nl_cursor,
  advance_cursor, k_putc, k_puts, calculate_x, calculate_y,
}
use ada_os.Util.Screen.Inside.{Fits, print_bitmap_frame, scroll_line_frame}

module _ (rows k : ℕ) where
  -- What printing keeps: the shape of the screen, its cursor in it, and pixel `k`, which is none of it.
  record Kept (s s' : Screen) : Type 0 where
    pub fits : Fits s' rows
    pub cursor : OnScreen s'
    pub beyond : rows * s'.pitch ≤ k
    pub pixel : s'.pixels k ≡ s.pixels k

  -- A step that changes the cursor, the pixels and what is sent only.
  step :
      (s : Screen) (x y : ℕ) (pixels : ℕ → ℕ) (sent : List ℕ)
      → Fits s rows
      → rows * s.pitch ≤ k
      → OnScreen (record s { cursor_x = x; cursor_y = y })
      → pixels k ≡ s.pixels k
      → Kept s (record s { cursor_x = x; cursor_y = y; pixels = pixels; sent = sent })
  step s x y pixels sent f beyond o e = record {
    fits = record {
      columns = f.columns;
      lines = f.lines;
      width = f.width;
      narrow = f.narrow;
      low = f.low;
      small = f.small;
      upright = f.upright;
    };
    cursor = record { column = o.column; row = o.row; words = o.words };
    beyond = beyond;
    pixel = e;
  }

  nl_cursor-Kept :
      (s : Screen) → Fits s rows → OnScreen s → rows * s.pitch ≤ k → Kept s (nl_cursor s)
  unfolding nl_cursor scroll scroll_line
  nl_cursor-Kept s f o beyond = elim (Bool-cases (ltb s.cursor_y_max ((s.cursor_y + 1) % word))) [
    | inl last ↦ rw last (
        step s 0 s.cursor_y _ _ f beyond
          (record { column = omega arith; row = o.row; words = o.words })
          (scroll_line_frame rows k s f beyond))
    | inr inside ↦ rw inside (
        step s 0 _ _ _ f beyond
          (record { column = omega arith; row = ground arith; words = o.words }) refl)
  ]

  advance_cursor-Kept :
      (s : Screen) → Fits s rows → OnScreen s → rows * s.pitch ≤ k → Kept s (advance_cursor s)
  unfolding advance_cursor
  advance_cursor-Kept s f o beyond =
      elim (Bool-cases (ltb s.cursor_x_max ((s.cursor_x + 1) % word))) [
        | inl last ↦ rw last (nl_cursor-Kept s f o beyond)
        | inr inside ↦ rw inside (
            step s _ s.cursor_y _ _ f beyond
              (record { column = ground arith; row = o.row; words = o.words }) refl)
      ]

  Kept-trans : {s s' s'' : Screen} → Kept s s' → Kept s' s'' → Kept s s''
  Kept-trans p q = record {
    fits = q.fits;
    cursor = q.cursor;
    beyond = q.beyond;
    pixel = q.pixel ∙ p.pixel;
  }

  return-Kept :
      (s : Screen)
      → Fits s rows
      → OnScreen s
      → rows * s.pitch ≤ k
      → Kept s (record s { cursor_x = 0 })
  return-Kept s f o beyond =
      step s 0 s.cursor_y s.pixels s.sent f beyond
        (record { column = omega arith; row = o.row; words = o.words }) refl

  line-Kept :
      (s : Screen)
      → Fits s rows
      → OnScreen s
      → rows * s.pitch ≤ k
      → Kept s (record (nl_cursor s) { cursor_x = 0 })
  line-Kept s f o beyond =
      let n = nl_cursor-Kept s f o beyond in
      Kept-trans n (return-Kept (nl_cursor s) n.fits n.cursor n.beyond)

  printed-Kept :
      (s : Screen) (bitmap : ℕ) (sent : List ℕ)
      → Fits s rows
      → OnScreen s
      → rows * s.pitch ≤ k
      → Kept s (
          advance_cursor
            (record (print_bitmap bitmap (calculate_x s) (calculate_y s) s) { sent = sent }))
  unfolding print_bitmap
  printed-Kept s bitmap sent f o beyond =
      let p =
        step s s.cursor_x s.cursor_y _ sent f beyond o
          (print_bitmap_frame rows k s bitmap f o beyond) in
      Kept-trans p (advance_cursor-Kept _ p.fits p.cursor p.beyond)

  k_putc-Kept :
      (font : ℕ → ℕ) (c : ℕ) (s : Screen)
      → Fits s rows
      → OnScreen s
      → rows * s.pitch ≤ k
      → Kept s (k_putc font c s)
  unfolding k_putc print_bitmap
  k_putc-Kept font c s f o beyond = elim (Bool-cases (c == 10)) [
    | inl line ↦ rw line (line-Kept s f o beyond)
    | inr no_line ↦ elim (Bool-cases (c == 13)) [
      | inl return ↦ rw (no_line, return) (return-Kept s f o beyond)
      | inr no_return ↦ elim (Bool-cases (ltb 256 c)) [
        | inl large ↦ rw (no_line, no_return, large) (step s _ _ _ _ f beyond o refl)
        | inr small ↦ elim (Bool-cases (ltb c 128)) [
          | inl plain ↦ rw (no_line, no_return, small, plain) (printed-Kept s (font c) _ f o beyond)
          | inr other ↦ rw (no_line, no_return, small, other) (printed-Kept s (font c) _ f o beyond)
        ]
      ]
    ]
  ]

  k_puts-Kept :
      (font : ℕ → ℕ) (text : List ℕ) (s : Screen)
      → Fits s rows
      → OnScreen s
      → rows * s.pitch ≤ k
      → Kept s (k_puts font text s)
  unfolding k_puts
  k_puts-Kept font [] s f o beyond = step s _ _ _ _ f beyond o refl
  k_puts-Kept font (c ∷ cs) s f o beyond = elim (Bool-cases (c == 10)) [
    | inl line ↦
        let p = line-Kept s f o beyond in
        rw line (Kept-trans p (k_puts-Kept font cs _ p.fits p.cursor p.beyond))
    | inr no_line ↦ elim (Bool-cases (c == 13)) [
      | inl return ↦
          let p = return-Kept s f o beyond in
          rw (no_line, return) (Kept-trans p (k_puts-Kept font cs _ p.fits p.cursor p.beyond))
      | inr no_return ↦
          let p = k_putc-Kept font (if ltb c 128 then c else c + 65280) s f o beyond in
          rw (no_line, no_return) (Kept-trans p (k_puts-Kept font cs _ p.fits p.cursor p.beyond))
    ]
  ]

-- Whatever string is printed, in whatever font, no pixel behind the rows of the framebuffer is
-- written, scrolling included. The cells of the screen lie inside these rows, its lines are not
-- wider than them, a word can count the pixels of the rows, the cursor is on the screen, and the
-- letters are upright.
pub k_puts-inside :
    (font : ℕ → ℕ) (text : List ℕ) (s : Screen) (rows : ℕ)
    → Fits s rows
    → OnScreen s
    → (k : ℕ) → rows * s.pitch ≤ k
    → (k_puts font text s).pixels k ≡ s.pixels k
k_puts-inside font text s rows f o k beyond = (k_puts-Kept rows k font text s f o beyond).pixel

-- The cells that fit in some pixels.
cells_fit :
    (size cell : ℕ)
    → 0 < cell
    → cell ≤ size
    → size < 2 ^ 32
    → ((size / cell + 2 ^ 32 - 1) % 2 ^ 32 ≡ size / cell - 1)
      × (suc (size / cell - 1) * cell ≤ size)
cells_fit size cell pos large word_size =
    let one : 1 ≤ size / cell =
      (le-div_iff_mul-le {k = cell} {x = 1} {y = size} pos).1 (omega (arith, large)) in
    let most = div-le_self size cell in
    let back : suc (size / cell - 1) ≡ size / cell = omega (arith, one) in
    (omega (arith, one, most, word_size), rw back (div-mul-le_self size cell))

-- `calculate_screen_constants` computes a screen whose cells lie inside the framebuffer's rows, for a
-- framebuffer that has room for one cell, rows that are not wider than its pitch, and pixels that a
-- word can count.
pub calculate_screen_constants-Fits :
    (width height pitch : ℕ) (s : Screen)
    → 0 < s.font_size
    → 8 * s.font_size ≤ width
    → 8 * s.font_size ≤ height
    → width ≤ pitch / 4
    → pitch / 4 < 2 ^ 32
    → height < 2 ^ 32
    → height * (pitch / 4) ≤ 2 ^ 32
    → s.skew ≡ 0
    → Fits (calculate_screen_constants width height pitch s) height
unfolding calculate_screen_constants
calculate_screen_constants-Fits width height pitch s pos wide tall covers narrow low small upright =
    let cell = 8 * s.font_size in
    let columns = cells_fit width cell (omega (arith, pos)) wide (omega (arith, covers, narrow)) in
    let lines = cells_fit height cell (omega (arith, pos)) tall low in
    let w : width % 2 ^ 32 ≡ width = omega (arith, covers, narrow) in
    let h : height % 2 ^ 32 ≡ height = omega (arith, low) in
    let p : pitch / 4 % 2 ^ 32 ≡ pitch / 4 = omega (arith, narrow) in
    record {
      columns = rw (w, p, columns.0) (omega (arith, columns.1, covers));
      lines = rw (h, lines.0) (omega (arith, lines.1));
      width = rw (w, p) covers;
      narrow = omega arith;
      low = omega (arith, low);
      small = rw p small;
      upright = upright;
    }
