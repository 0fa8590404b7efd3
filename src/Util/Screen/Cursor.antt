-- ===== src/Util/Screen/Cursor.antt =====
-- The cursor stays on the screen.
use ada_os.Base.{
  ℕ, ◌+◌, ◌%◌, ◌^◌, ◌≤◌, ◌<◌, List, [], ◌∷◌, ltb, ◌==◌, if◌then◌else◌, arith, Bool-cases, inl, inr,
}
use ada_os.Util.Screen.{
  Screen, word, nl_cursor, advance_cursor, scroll, scroll_line, print_bitmap, k_putc, k_puts,
}

-- The cursor's column and row are those of a character cell, and the largest ones are words.
pub record OnScreen (s : Screen) : Type 0 where
  pub column : s.cursor_x ≤ s.cursor_x_max
  pub row : s.cursor_y ≤ s.cursor_y_max
  pub words : (s.cursor_x_max < 2 ^ 32) × (s.cursor_y_max < 2 ^ 32)

home : (s : Screen) → OnScreen s → OnScreen (record s { cursor_x = 0 })
home s o = record { column = omega arith; row = o.row; words = o.words }

pub nl_cursor-OnScreen : (s : Screen) → OnScreen s → OnScreen (nl_cursor s)
unfolding nl_cursor scroll scroll_line
nl_cursor-OnScreen s o = elim (Bool-cases (ltb s.cursor_y_max ((s.cursor_y + 1) % word))) [
  | inl last ↦ rw last (record { column = omega arith; row = o.row; words = o.words })
  | inr inside ↦ rw inside (record { column = omega arith; row = ground arith; words = o.words })
]

advance_cursor-OnScreen : (s : Screen) → OnScreen s → OnScreen (advance_cursor s)
unfolding advance_cursor
advance_cursor-OnScreen s o = elim (Bool-cases (ltb s.cursor_x_max ((s.cursor_x + 1) % word))) [
  | inl last ↦ rw last (nl_cursor-OnScreen s o)
  | inr inside ↦ rw inside (record { column = ground arith; row = o.row; words = o.words })
]

-- Pixels and sent bytes do not matter to the cursor.
repainted :
    (s : Screen) (pixels : ℕ → ℕ) (sent : List ℕ)
    → OnScreen s
    → OnScreen (record s { pixels = pixels; sent = sent })
repainted s pixels sent o = record { column = o.column; row = o.row; words = o.words }

pub k_putc-OnScreen : (font : ℕ → ℕ) (c : ℕ) (s : Screen) → OnScreen s → OnScreen (k_putc font c s)
unfolding k_putc print_bitmap
k_putc-OnScreen font c s o = elim (Bool-cases (c == 10)) [
  | inl line ↦ rw line (home (nl_cursor s) (nl_cursor-OnScreen s o))
  | inr no_line ↦ elim (Bool-cases (c == 13)) [
    | inl return ↦ rw (no_line, return) (home s o)
    | inr no_return ↦ elim (Bool-cases (ltb 256 c)) [
      | inl large ↦ rw (no_line, no_return, large) o
      | inr small ↦ elim (Bool-cases (ltb c 128)) [
        | inl plain ↦
            rw (no_line, no_return, small, plain) (advance_cursor-OnScreen _ (repainted s _ _ o))
        | inr other ↦
            rw (no_line, no_return, small, other) (advance_cursor-OnScreen _ (repainted s _ _ o))
      ]
    ]
  ]
]

-- Whatever string is printed, in whatever font, a cursor on the screen stays on the screen.
pub k_puts-OnScreen :
    (font : ℕ → ℕ) (text : List ℕ) (s : Screen) → OnScreen s → OnScreen (k_puts font text s)
unfolding k_puts
k_puts-OnScreen font [] s o = o
k_puts-OnScreen font (c ∷ cs) s o = elim (Bool-cases (c == 10)) [
  | inl line ↦ rw line (k_puts-OnScreen font cs _ (home (nl_cursor s) (nl_cursor-OnScreen s o)))
  | inr no_line ↦ elim (Bool-cases (c == 13)) [
    | inl return ↦ rw (no_line, return) (k_puts-OnScreen font cs _ (home s o))
    | inr no_return ↦
        rw (no_line, no_return)
          (k_puts-OnScreen font cs _
            (k_putc-OnScreen font (if ltb c 128 then c else c + 65280) s o))
  ]
]
