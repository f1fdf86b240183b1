-- ===== src/Vga/Scene.antt =====
-- What src/impl/drivers/video/vga.c draws of rectangles and lines: text, windows, buttons, the
-- desktop and the cursor. A text is the list of its characters, each of which is drawn as a bar.
pub mod Frame
use nans_os.Base.{
  ℕ, ◌+◌, ◌-◌, ◌*◌, ◌/◌, ◌%◌, ◌^◌, Option, none, some, List, [], ◌∷◌, leb, if◌then◌else◌, length,
}
use nans_os.Pic.{Ports}
use nans_os.Vga.{
  Vga, u16, less, vga_draw_rect, vga_draw_line, vga_set_mode, vga_clear_screen, vga_swap_buffers,
}

infixl 5 ◌>>=◌
abbrev pub ◌>>=◌ : {A B : Type 0} → Option A → (A → Option B) → Option B
none >>= f = none
some a >>= f = f a

-- The loop of `vga_draw_text`, at the counter `i`.
unfoldable pub draw_chars : List ℕ → ℕ → ℕ → ℕ → ℕ → Vga → Vga
draw_chars [] i x y color v = v
draw_chars (c ∷ text) i x y color v =
    draw_chars text (i + 1) x y color (vga_draw_rect (u16 (x + i * 8)) y 7 16 color v)

unfoldable pub vga_draw_text : ℕ → ℕ → List ℕ → ℕ → Vga → Vga
vga_draw_text x y text color v = draw_chars text 0 x y color v

-- The colors 7, 1, 15 and 4 are light gray, blue, white and red.
unfoldable pub vga_draw_window : ℕ → ℕ → ℕ → ℕ → List ℕ → Vga → Vga
vga_draw_window x y width height title v =
    let v1 = vga_draw_rect x y width height 7 v in
    let v2 = vga_draw_rect (u16 (x + 1)) (u16 (y + 1)) (less width 2) 20 1 v1 in
    let v3 = vga_draw_text (u16 (x + 5)) (u16 (y + 5)) title 15 v2 in
    let v4 = vga_draw_rect (u16 (x + 1)) (u16 (y + 21)) (less width 2) (less height 22) 15 v3 in
    let v5 = vga_draw_rect (less (x + width) 18) (u16 (y + 4)) 14 14 4 v4 in
    vga_draw_text (less (x + width) 16) (u16 (y + 6)) (b'X' ∷ []) 15 v5

-- `x + (width - strlen(text) * 8) / 2`, computed in a `size_t`.
abbrev pub text_x : ℕ → ℕ → List ℕ → ℕ
text_x x width text = u16 (x + (width + 2 ^ 64 - length text * 8 % 2 ^ 64) % 2 ^ 64 / 2)

-- `y + (height - 16) / 2`, computed in an `int`, where the quotient is rounded towards 0.
abbrev pub text_y : ℕ → ℕ → ℕ
text_y y height = if leb 16 height then u16 (y + (height - 16) / 2) else less y ((16 - height) / 2)

unfoldable pub vga_draw_button : ℕ → ℕ → ℕ → ℕ → List ℕ → Vga → Option Vga
vga_draw_button x y width height text v =
    let right = less (x + width) 1 in
    let bottom = less (y + height) 1 in
    do
      v1 ← vga_draw_line x y right y 15 (vga_draw_rect x y width height 7 v)
      v2 ← vga_draw_line x y x bottom 15 v1
      v3 ← vga_draw_line x bottom right bottom 8 v2
      v4 ← vga_draw_line right y right bottom 8 v3
      some (vga_draw_text (text_x x width text) (text_y y height) text 0 v4)

abbrev pub start : List ℕ
start = b'S' ∷ b't' ∷ b'a' ∷ b'r' ∷ b't' ∷ []

abbrev pub noon : List ℕ
noon = b'1' ∷ b'2' ∷ b':' ∷ b'0' ∷ b'0' ∷ []

unfoldable pub vga_draw_taskbar : Vga → Option Vga
vga_draw_taskbar v =
    let width = v.current_mode.width in
    let height = v.current_mode.height in
    do
      v1 ←
          vga_draw_button 5 (less height 25) 60 20 start
            (vga_draw_rect 0 (less height 30) width 30 8 v)
      some (vga_draw_text (less width 50) (less height 20) noon 15 v1)

abbrev pub my_computer : List ℕ
my_computer = b'M' ∷ b'y' ∷ b' ' ∷ b'C' ∷ b'o' ∷ b'm' ∷ b'p' ∷ b'u' ∷ b't' ∷ b'e' ∷ b'r' ∷ []

abbrev pub documents : List ℕ
documents = b'D' ∷ b'o' ∷ b'c' ∷ b'u' ∷ b'm' ∷ b'e' ∷ b'n' ∷ b't' ∷ b's' ∷ []

abbrev pub terminal : List ℕ
terminal = b'T' ∷ b'e' ∷ b'r' ∷ b'm' ∷ b'i' ∷ b'n' ∷ b'a' ∷ b'l' ∷ []

unfoldable pub vga_draw_desktop_icons : Vga → Vga
vga_draw_desktop_icons v =
    let v1 = vga_draw_text 10 60 my_computer 0 (vga_draw_rect 20 20 32 32 14 v) in
    let v2 = vga_draw_text 10 140 documents 0 (vga_draw_rect 20 100 32 32 1 v1) in
    vga_draw_text 10 220 terminal 0 (vga_draw_rect 20 180 32 32 0 v2)

unfoldable pub vga_update_cursor : ℕ → ℕ → Vga → Option Vga
vga_update_cursor x y v = do
  v1 ← vga_draw_line x y (u16 (x + 8)) (u16 (y + 8)) 0 v
  v2 ← vga_draw_line x y (u16 (x + 2)) (u16 (y + 8)) 0 v1
  vga_draw_line (u16 (x + 2)) (u16 (y + 8)) (u16 (x + 8)) (u16 (y + 8)) 0 v2

-- The drawing of `vga_init_desktop` behind the change of the mode.
unfoldable pub draw_desktop : Vga → Option Vga
draw_desktop v = do
  v1 ← vga_draw_taskbar (vga_clear_screen 3 v)
  some (vga_swap_buffers (vga_draw_desktop_icons v1))

unfoldable pub vga_init_desktop : {M : Type 0} → Ports M → M → Vga → Option (M × Vga)
vga_init_desktop p m v =
    let (r, m', v') = vga_set_mode p 0x12 m v in do v1 ← draw_desktop v'; some (m', v1)
