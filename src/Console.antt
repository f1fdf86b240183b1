-- ===== src/Console.antt =====
-- The text console of src/impl/x86_64/print.c.
pub mod Scroll
pub mod Cursor
mod Tests
use nans_os.Base.{ℕ, zero, suc, ◌+◌, ◌-◌, ◌*◌, ◌%◌, List, [], ◌∷◌, ltb, ◌==◌, if◌then◌else◌}

abbrev pub num_cols : ℕ
num_cols = 80

abbrev pub num_rows : ℕ
num_rows = 25

-- `struct Char`.
pub record Cell : Type 0 where
  pub character : ℕ
  pub color : ℕ

-- `buffer` is the memory from 0xb8000 on, in cells; the screen is its first 2000 cells, and the
-- cells behind it are not the console's.
pub record Console : Type 0 where
  pub buffer : ℕ → Cell
  pub col : ℕ
  pub row : ℕ
  pub color : ℕ

abbrev pub put : (ℕ → Cell) → ℕ → Cell → ℕ → Cell
put b i c j = if j == i then c else b j

-- The loop of `clear_row`, with `k` rounds left at column `col`.
unfoldable pub clear_cells : ℕ → ℕ → ℕ → Cell → (ℕ → Cell) → ℕ → Cell
clear_cells zero col row empty b = b
clear_cells (suc k) col row empty b =
    clear_cells k (col + 1) row empty (put b (col + num_cols * row) empty)

abbrev pub empty : Console → Cell
empty s = record { character = b' '; color = s.color }

unfoldable pub clear_row : ℕ → Console → Console
clear_row row s = record s { buffer = clear_cells num_cols 0 row (empty s) s.buffer }

unfoldable pub clear_rows : ℕ → ℕ → Console → Console
clear_rows zero i s = s
clear_rows (suc k) i s = clear_rows k (i + 1) (clear_row i s)

unfoldable pub print_clear : Console → Console
print_clear s = clear_rows num_rows 0 s

-- The inner loop of the scrolling: a row copied to the row above it.
unfoldable pub copy_row : ℕ → ℕ → ℕ → (ℕ → Cell) → ℕ → Cell
copy_row zero col row b = b
copy_row (suc k) col row b =
    copy_row k (col + 1) row (put b (col + num_cols * (row - 1)) (b (col + num_cols * row)))

unfoldable pub scroll : ℕ → ℕ → (ℕ → Cell) → ℕ → Cell
scroll zero row b = b
scroll (suc k) row b = scroll k (row + 1) (copy_row num_cols 0 row b)

unfoldable pub print_newline : Console → Console
print_newline s =
    if ltb s.row (num_rows - 1)
    then record s { col = 0; row = s.row + 1 }
    else clear_row (num_rows - 1) (record s { col = 0; buffer = scroll (num_rows - 1) 1 s.buffer })

-- The write of a character at the cursor, which moves on.
unfoldable pub write_char : ℕ → Console → Console
write_char c s = record s {
  buffer = put s.buffer (s.col + num_cols * s.row) (record { character = c; color = s.color });
  col = s.col + 1;
}

unfoldable pub print_char : ℕ → Console → Console
print_char c s =
    if c == 10
    then print_newline s
    else if ltb num_cols s.col
    then write_char c (print_newline s)
    else write_char c s

-- The bytes before the terminator.
unfoldable pub print_str : List ℕ → Console → Console
print_str [] s = s
print_str (c ∷ cs) s = print_str cs (print_char c s)

-- `foreground + (background << 4)` in a byte.
unfoldable pub print_set_color : ℕ → ℕ → Console → Console
print_set_color foreground background s = record s { color = (foreground + background * 16) % 256 }
