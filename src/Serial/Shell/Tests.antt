-- ===== src/Serial/Shell/Tests.antt =====
-- A session of the debug shell.
use ada_os.Base.{ℕ, ◌≡◌, refl, false, List, [], ◌∷◌, none, arith}
use ada_os.Serial.Shell.{Shell}
use ada_os.Serial.Shell.Lines.{edit, drop_last}
use ada_os.Serial.Shell.Editing.{
  Represents, idle, ShortLines, feed, edit_all, reply_all, feed-edit_all,
}

abbrev stopped : Shell
stopped = record { terminal_running = false; line_buffer = λ _. 0; buffer_index = 0 }

-- return, then "frx", a backspace, "ee" and return
abbrev keys : List ℕ
keys = 13 ∷ 102 ∷ 114 ∷ 120 ∷ 8 ∷ 101 ∷ 101 ∷ 13 ∷ []

keys-ShortLines : ShortLines keys none
unfolding edit drop_last
keys-ShortLines = (
  tt,
  (
    omega arith,
    (omega arith, (omega arith, (omega arith, (omega arith, (omega arith, (omega arith, tt)))))),
  ),
)

feed-edit_all_example :
    Represents (feed keys stopped).0 (edit_all keys none)
    × ((feed keys stopped).1 ≡ reply_all keys none)
feed-edit_all_example = feed-edit_all keys (idle refl refl (λ i. refl)) keys-ShortLines
