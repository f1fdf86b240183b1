-- ===== src/Vga/Tests.antt =====
-- Drawings on which the theorems are run.
use nans_os.Base.{
  ℕ, ◌+◌, ◌*◌, ◌<◌, ◌≤◌, ◌≡◌, ◌≢◌, ◌⊎◌, refl, arith, true, false, some, List, [], ◌∷◌,
}
use nans_os.Vga.{Vga, VgaMode, sized, vga_set_pixel, vga_draw_line, memory_size, mode_info}
use nans_os.Vga.Pixels.{IsFlat, pixel_in, set_pixel-buffer}
use nans_os.Vga.Line.{IsDrawn, draw_line-IsDrawn}
use nans_os.Vga.Scene.{vga_draw_window}
use nans_os.Vga.Scene.Frame.{draw_window-framed}

abbrev colors : VgaMode
colors = sized 320 200 8 320 0x13

abbrev large : VgaMode
large = sized 640 480 4 320 0x12

abbrev dark : VgaMode → Vga
dark info = record { current_mode = info; back_buffer = λ i. 0; front_buffer = λ i. 0 }

colors-IsFlat : IsFlat colors
colors-IsFlat = record { wide = omega arith; small = omega arith }

large_info : mode_info 0x12 ≡ some large
unfolding mode_info
large_info = refl

set_pixel-buffer_example :
    ((cell : ℕ)
      → memory_size ≤ cell
      → (◌≢◌ {A = ℕ} 0x12 0x12) ⊎ (300 * 320 + 10 < memory_size)
      → (vga_set_pixel 10 300 4 (dark large)).back_buffer cell ≡ 0)
    × (◌≡◌ {A = ℕ} 0x12 0x12
        → 10 < 640
        → 300 < 480
        → memory_size ≤ 300 * 320 + 10
        → (vga_set_pixel 10 300 4 (dark large)).back_buffer (300 * 320 + 10) ≡ 4)
    × (205 ≤ 300 → memory_size ≤ 300 * 320 + 10)
set_pixel-buffer_example = set_pixel-buffer 0x12 10 300 4 large (dark large) large_info refl

draw_line-IsDrawn_example :
    (v' : Vga) × (vga_draw_line 30 7 3 19 2 (dark colors) ≡ some v')
    × IsDrawn colors 30 7 3 19 2 (dark colors) v'
draw_line-IsDrawn_example =
    draw_line-IsDrawn colors 30 7 3 19 2 (dark colors) colors-IsFlat refl (omega arith)
      (omega arith) (omega arith) (omega arith)

abbrev title : List ℕ
title = b'A' ∷ b'B' ∷ []

draw_window-framed_example :
    let after = pixel_in colors 20 70 (vga_draw_window 10 40 60 50 title (dark colors)) in
    (◌≡◌ true false → after ≡ 0)
    × (◌≡◌ true true → after ≡ 15)
    × (◌≡◌ true true → ◌≡◌ false true → after ≡ 7)
draw_window-framed_example =
    draw_window-framed colors 10 40 60 50 title 20 70 (dark colors) colors-IsFlat refl (omega arith)
      (omega arith) (omega arith) (omega arith) (omega arith) refl
