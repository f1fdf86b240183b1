-- ===== src/Console/Cursor.antt =====
-- Where the console writes, and how its cursor moves.
use nans_os.Base.{
  ℕ, ◌+◌, ◌-◌, ◌*◌, ◌≤◌, ◌<◌, ◌≡◌, arith, ◌&&◌, List, [], ◌∷◌, ltb, leb, ◌==◌, if◌then◌else◌, refl,
  length, get_or, Bool, true, false, ◌∙◌, get_or-cons,
}
use nans_os.Console.{
  num_cols, num_rows, Cell, Console, put, print_newline, write_char, print_char, print_str,
}
use nans_os.Console.Scroll.{newline-scrolled}

-- A cursor as the console keeps it: column 81 follows a character in column 80.
pub record IsValid (s : Console) : Type 0 where
  pub col : s.col ≤ num_cols + 1
  pub row : s.row < num_rows

newline-IsValid : (s : Console) → IsValid s → IsValid (print_newline s)
newline-IsValid s v =
    let (c, _, up, last) = newline-scrolled s 0 v.row in
    record { col = omega (arith, c); row = ground (arith, up, last, v.row) }

newline-beyond :
    (s : Console) (i : ℕ) → IsValid s → 2000 < i → (print_newline s).buffer i ≡ s.buffer i
newline-beyond s i v h =
    let (_, _, up, last) = newline-scrolled s i v.row in ground (arith, up, last, v.row)

print_char-IsValid : (c : ℕ) (s : Console) → IsValid s → IsValid (print_char c s)
unfolding print_char write_char
print_char-IsValid c s v =
    let (z, _, _, _) = newline-scrolled s 0 v.row in
    let n : IsValid (print_newline s) = newline-IsValid s v in
    record { col = ground (arith, z, v.col, n.col); row = ground (arith, v.row, n.row) }

print_char-beyond :
    (c : ℕ) (s : Console) (i : ℕ) → IsValid s → 2000 < i → (print_char c s).buffer i ≡ s.buffer i
unfolding print_char write_char
print_char-beyond c s i v h =
    let (z, _, _, _) = newline-scrolled s 0 v.row in
    let n : IsValid (print_newline s) = newline-IsValid s v in
    ground (arith, z, v.col, v.row, n.row, newline-beyond s i v h)

-- From a row below 25 and a column of at most 81, whatever text is printed, the row stays below 25
-- and the column at most 81, and no cell beyond number 2000 is written: at most the one cell behind
-- the 2000 of the screen.
pub print_str-bounded :
    (text : List ℕ) (s : Console)
    → IsValid s
    → IsValid (print_str text s) × ((i : ℕ) → 2000 < i → (print_str text s).buffer i ≡ s.buffer i)
unfolding print_str
print_str-bounded [] s v = (v, λ i h. refl)
print_str-bounded (c ∷ cs) s v =
    let (w, same) = print_str-bounded cs (print_char c s) (print_char-IsValid c s v) in
    (w, λ i h. same i h ∙ print_char-beyond c s i v h)

abbrev has_newline : List ℕ → Bool
has_newline [] = false
has_newline (c ∷ cs) = let rest = has_newline cs in if c == 10 then true else rest

print_char-plain :
    (c : ℕ) (s : Console) → (c == 10) ≡ false → s.col ≤ 80 → print_char c s ≡ write_char c s
unfolding print_char
print_char-plain c s p h = ground arith

-- The cells of a text written from cell `at` on, in one color.
abbrev pub written : ℕ → List ℕ → ℕ → (ℕ → Cell) → ℕ → Cell
written at text color b i =
    if leb at i && ltb i (at + length text)
    then record { character = get_or text (i - at) 0; color = color }
    else b i

written-cons :
    (c : ℕ) (cs : List ℕ) (at next color : ℕ) (b : ℕ → Cell) (i : ℕ)
    → next ≡ at + 1
    → written next cs color (put b at (record { character = c; color = color })) i
      ≡ written at (c ∷ cs) color b i
written-cons c cs at next color b i h = ground (arith, get_or-cons c cs (i - at) 0)

-- A text without a line end that fits in 81 columns from the cursor on is written there, in the
-- current color; no other cell changes, and the cursor ends behind it in the same row.
pub print_str-written :
    (text : List ℕ) (s : Console)
    → has_newline text ≡ false
    → s.col + length text ≤ num_cols + 1
    → let t = print_str text s in
      (t.col ≡ s.col + length text)
      × (t.row ≡ s.row)
      × (t.color ≡ s.color)
      × ((i : ℕ) → t.buffer i ≡ written (s.col + num_cols * s.row) text s.color s.buffer i)
unfolding print_str write_char
print_str-written [] s p h = (omega arith, refl, refl, λ i. ground arith)
print_str-written (c ∷ cs) s p h =
    let e : print_char c s ≡ write_char c s = print_char-plain c s (ground arith) (omega arith) in
    let (co, r, k, b) = print_str-written cs (write_char c s) (ground arith) (omega arith) in
    rw (e, print_str)
      (
        omega (arith, co),
        r,
        k,
        λ i.
            b i
            ∙ written-cons c cs (s.col + num_cols * s.row) (s.col + 1 + num_cols * s.row) s.color
                s.buffer i (omega arith),
      )
