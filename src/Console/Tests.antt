-- ===== src/Console/Tests.antt =====
-- Screens on which the theorems of the console are run.
use nans_os.Base.{ℕ, ◌+◌, ◌<◌, ◌≡◌, arith, [], ◌∷◌}
use nans_os.Console.{Console, print_newline, print_str}
use nans_os.Console.Scroll.{scrolled, newline-scrolled}
use nans_os.Console.Cursor.{IsValid, print_str-bounded}

-- A cursor near the end of the last row.
abbrev last_row : Console
last_row = record {
  buffer = λ i. record { character = i; color = 7 };
  col = 79;
  row = 24;
  color = 15;
}

last_row-IsValid : IsValid last_row
last_row-IsValid = record { col = omega arith; row = omega arith }

newline-scrolled_example :
    ((print_newline last_row).col ≡ 0)
    × ((print_newline last_row).color ≡ 15)
    × (24 < 24
        → ((print_newline last_row).row ≡ 24 + 1)
          × ((print_newline last_row).buffer 3 ≡ last_row.buffer 3))
    × (last_row.row ≡ 24
        → ((print_newline last_row).row ≡ 24)
          × ((print_newline last_row).buffer 3 ≡ scrolled last_row 3))
newline-scrolled_example = newline-scrolled last_row 3 (omega arith)

print_str-bounded_example :
    IsValid (print_str (b'a' ∷ b'b' ∷ b'c' ∷ []) last_row)
    × ((i : ℕ)
        → 2000 < i
        → (print_str (b'a' ∷ b'b' ∷ b'c' ∷ []) last_row).buffer i ≡ last_row.buffer i)
print_str-bounded_example = print_str-bounded (b'a' ∷ b'b' ∷ b'c' ∷ []) last_row last_row-IsValid
