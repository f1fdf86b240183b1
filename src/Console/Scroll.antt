-- ===== src/Console/Scroll.antt =====
-- What a new line on the last row leaves on the screen.
use nans_os.Base.{ℕ, zero, suc, ◌+◌, ◌-◌, ◌*◌, ◌≤◌, ◌<◌, ◌≡◌, arith, ◌&&◌, ltb, leb, if◌then◌else◌}
use nans_os.Console.{
  num_rows, Cell, Console, put, clear_cells, empty, clear_row, copy_row, scroll, print_newline,
}

pub clear_cells_lem :
    (k col row : ℕ) (e : Cell) (b : ℕ → Cell) (i : ℕ)
    → clear_cells k col row e b i
      ≡ (if leb (col + 80 * row) i && ltb i (col + 80 * row + k) then e else b i)
unfolding clear_cells
clear_cells_lem zero col row e b i = ground arith
clear_cells_lem (suc k) col row e b i =
    ground (arith, clear_cells_lem k (col + 1) row e (put b (col + 80 * row) e) i)

copy_row_lem :
    (k col row : ℕ) (b : ℕ → Cell) (i : ℕ)
    → 1 ≤ row
    → copy_row k col row b i ≡ (
        if leb (col + 80 * (row - 1)) i && ltb i (col + 80 * (row - 1) + k)
        then b (i + 80)
        else b i)
unfolding copy_row
copy_row_lem zero col row b i h = ground arith
copy_row_lem (suc k) col row b i h =
    ground
      (arith, copy_row_lem k (col + 1) row (put b (col + 80 * (row - 1)) (b (col + 80 * row))) i)

scroll_lem :
    (k row : ℕ) (b : ℕ → Cell) (i : ℕ)
    → 1 ≤ row
    → scroll k row b i
      ≡ (if leb (80 * (row - 1)) i && ltb i (80 * (row - 1) + 80 * k) then b (i + 80) else b i)
unfolding scroll
scroll_lem zero row b i h = ground arith
scroll_lem (suc k) row b i h = ground (
  arith,
  scroll_lem k (row + 1) (copy_row 80 0 row b) i,
  copy_row_lem 80 0 row b i,
  copy_row_lem 80 0 row b (i + 80),
)

-- The screen moved up by a row, with a blank last row; the cells behind the screen are as they were.
abbrev pub scrolled : Console → ℕ → Cell
scrolled s i = if ltb i 1920 then s.buffer (i + 80) else if ltb i 2000 then empty s else s.buffer i

-- From a row of the screen, `print_newline` returns the cursor to column 0 and keeps the color.
-- Above the last row it moves down and changes no cell; on the last row it stays and the screen
-- scrolls: each row shows what the row below showed, and the last row is blank in the current
-- color.
pub newline-scrolled :
    (s : Console) (i : ℕ)
    → s.row < num_rows
    → let t = print_newline s in
      (t.col ≡ 0)
      × (t.color ≡ s.color)
      × (s.row < 24 → (t.row ≡ s.row + 1) × (t.buffer i ≡ s.buffer i))
      × (s.row ≡ 24 → (t.row ≡ 24) × (t.buffer i ≡ scrolled s i))
unfolding print_newline clear_row
newline-scrolled s i h = (
  ground arith,
  ground arith,
  λ above. ground arith,
  λ last. ground (
    arith,
    scroll_lem 24 1 s.buffer i,
    clear_cells_lem 80 0 24 (empty s) (scroll 24 1 s.buffer) i,
  ),
)
