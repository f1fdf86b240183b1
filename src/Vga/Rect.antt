-- ===== src/Vga/Rect.antt =====
-- Which pixels `vga_draw_rect` of src/impl/drivers/video/vga.c paints.
use nans_os.Base.{
  ℕ, zero, suc, ◌+◌, ◌*◌, ◌≤◌, ◌≡◌, refl, ◌∙◌, arith, Bool, true, ◌&&◌, ltb, leb, ◌==◌,
  if◌then◌else◌,
}
use nans_os.Vga.{Vga, VgaMode, on_screen, vga_set_pixel, draw_row, draw_rows, vga_draw_rect, u16}
use nans_os.Vga.Pixels.{IsFlat, pixel_in, pixel-set_pixel, mode-set_pixel, set_pixel-beyond}

-- `from` to `from + count`, without its end.
abbrev pub spans : ℕ → ℕ → ℕ → Bool
spans from count n = leb from n && ltb n (from + count)

pub mode-draw_row :
    (k j x y color : ℕ) (v : Vga) → (draw_row k j x y color v).current_mode ≡ v.current_mode
unfolding draw_row
mode-draw_row zero j x y color v = refl
mode-draw_row (suc k) j x y color v =
    mode-draw_row k (j + 1) x y color (vga_set_pixel (u16 (x + j)) y color v)
    ∙ mode-set_pixel (u16 (x + j)) y color v

pub mode-draw_rows :
    (k i x y width color : ℕ) (v : Vga)
    → (draw_rows k i x y width color v).current_mode ≡ v.current_mode
unfolding draw_rows
mode-draw_rows zero i x y width color v = refl
mode-draw_rows (suc k) i x y width color v =
    mode-draw_rows k (i + 1) x y width color (draw_row width 0 x (u16 (y + i)) color v)
    ∙ mode-draw_row width 0 x (u16 (y + i)) color v

module _ (info : VgaMode) (f : IsFlat info) where
  pixel-draw_row :
      (k j x y color px py : ℕ) (v : Vga)
      → v.current_mode ≡ info
      → on_screen info px py ≡ true
      → x + j + k ≤ 65536
      → pixel_in info px py (draw_row k j x y color v)
        ≡ (if spans (x + j) k px && py == y then color else pixel_in info px py v)
  unfolding draw_row
  pixel-draw_row zero j x y color px py v m on fits = ground arith
  pixel-draw_row (suc k) j x y color px py v m on fits =
      let v' : Vga = vga_set_pixel (u16 (x + j)) y color v in
      ground (
        arith,
        pixel-draw_row k (j + 1) x y color px py v' (mode-set_pixel (u16 (x + j)) y color v ∙ m) on
            (omega arith),
        pixel-set_pixel info (u16 (x + j)) y color px py v f m on,
      )

  pixel-draw_rows :
      (k i x y width color px py : ℕ) (v : Vga)
      → v.current_mode ≡ info
      → on_screen info px py ≡ true
      → x + width ≤ 65536
      → y + i + k ≤ 65536
      → pixel_in info px py (draw_rows k i x y width color v)
        ≡ (if spans x width px && spans (y + i) k py then color else pixel_in info px py v)
  unfolding draw_rows
  pixel-draw_rows zero i x y width color px py v m on fx fy = ground arith
  pixel-draw_rows (suc k) i x y width color px py v m on fx fy =
      let v' : Vga = draw_row width 0 x (u16 (y + i)) color v in
      ground (
        arith,
        pixel-draw_rows k (i + 1) x y width color px py v'
            (mode-draw_row width 0 x (u16 (y + i)) color v ∙ m) on fx (omega arith),
        pixel-draw_row width 0 x (u16 (y + i)) color px py v m on (omega arith),
      )

  row-beyond :
      (k j x y color cell : ℕ) (v : Vga)
      → v.current_mode ≡ info
      → info.height * info.pitch ≤ cell
      → (draw_row k j x y color v).back_buffer cell ≡ v.back_buffer cell
  unfolding draw_row
  row-beyond zero j x y color cell v m far = refl
  row-beyond (suc k) j x y color cell v m far =
      row-beyond k (j + 1) x y color cell (vga_set_pixel (u16 (x + j)) y color v)
        (mode-set_pixel (u16 (x + j)) y color v ∙ m) far
      ∙ set_pixel-beyond info (u16 (x + j)) y color cell v f m far

  pub rows-beyond :
      (k i x y width color cell : ℕ) (v : Vga)
      → v.current_mode ≡ info
      → info.height * info.pitch ≤ cell
      → (draw_rows k i x y width color v).back_buffer cell ≡ v.back_buffer cell
  unfolding draw_rows
  rows-beyond zero i x y width color cell v m far = refl
  rows-beyond (suc k) i x y width color cell v m far =
      rows-beyond k (i + 1) x y width color cell (draw_row width 0 x (u16 (y + i)) color v)
        (mode-draw_row width 0 x (u16 (y + i)) color v ∙ m) far
      ∙ row-beyond width 0 x (u16 (y + i)) color cell v m far

  pub draw_rect-pixel :
      (x y width height color px py : ℕ) (v : Vga)
      → v.current_mode ≡ info
      → on_screen info px py ≡ true
      → x + width ≤ 65536
      → y + height ≤ 65536
      → pixel_in info px py (vga_draw_rect x y width height color v)
        ≡ (if spans x width px && spans y height py then color else pixel_in info px py v)
  unfolding vga_draw_rect
  draw_rect-pixel x y width height color px py v m on fx fy =
      ground (arith, pixel-draw_rows height 0 x y width color px py v m on fx (omega arith))

-- In a mode whose rows do not overlap, a rectangle whose edges pass no 16-bit coordinate paints its
-- part of the screen: those pixels have the color, every other keeps its own, the mode stays, and
-- no cell behind the screen changes.
pub draw_rect-painted :
    (info : VgaMode) (x y width height color px py cell : ℕ) (v : Vga)
    → IsFlat info
    → v.current_mode ≡ info
    → x + width ≤ 65536
    → y + height ≤ 65536
    → on_screen info px py ≡ true
    → info.height * info.pitch ≤ cell
    → (pixel_in info px py (vga_draw_rect x y width height color v)
        ≡ (if spans x width px && spans y height py then color else pixel_in info px py v))
      × ((vga_draw_rect x y width height color v).current_mode ≡ info)
      × ((vga_draw_rect x y width height color v).back_buffer cell ≡ v.back_buffer cell)
unfolding vga_draw_rect
draw_rect-painted info x y width height color px py cell v f m fx fy on far = (
  draw_rect-pixel info f x y width height color px py v m on fx fy,
  mode-draw_rows height 0 x y width color v ∙ m,
  rows-beyond info f height 0 x y width color cell v m far,
)
