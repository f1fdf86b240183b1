-- ===== src/Vga/Pixels.antt =====
-- The places of the pixels in the back buffer.
use nans_os.Base.{
  ℕ, zero, suc, ◌+◌, ◌*◌, ◌^◌, ◌≤◌, ◌<◌, ◌≡◌, ◌≢◌, ◌⊎◌, ap, arith, true, ◌&&◌, inl, inr, some, ltb,
  ◌==◌, if◌then◌else◌, Bool-cases, ltb→lt,
}
use nans_os.Vga.{Vga, VgaMode, mode_info, offset_of, on_screen, vga_set_pixel, memory_size}

-- A mode whose rows do not overlap and whose last pixel has a 32-bit offset.
pub record IsFlat (info : VgaMode) : Type 0 where
  pub wide : info.width ≤ info.pitch
  pub small : info.height * info.pitch ≤ 2 ^ 32

abbrev pub pixel : ℕ → ℕ → Vga → ℕ
pixel x y v = v.back_buffer (offset_of v.current_mode x y)

-- The pixels of one mode, read in another state of it.
abbrev pub pixel_in : VgaMode → ℕ → ℕ → Vga → ℕ
pixel_in info x y v = v.back_buffer (offset_of info x y)

below_row : (y y' p x : ℕ) → y < y' → x < p → y * p + x < y' * p
below_row y zero p x h hx = absurd (omega arith)
below_row zero (suc y') p x h hx = ground arith
below_row (suc y) (suc y') p x h hx = grind (arith, below_row y y' p x (omega arith) hx)

pub offset-lt :
    (info : VgaMode) (x y : ℕ)
    → IsFlat info
    → on_screen info x y ≡ true
    → y * info.pitch + x < info.height * info.pitch
offset-lt info x y f on =
    let hx : x < info.width = ground arith in
    let hy : y < info.height = ground arith in
    below_row y info.height info.pitch x hy (omega (arith, f.wide))

pub offset_lem :
    (info : VgaMode) (x y : ℕ)
    → IsFlat info
    → on_screen info x y ≡ true
    → offset_of info x y ≡ y * info.pitch + x
offset_lem info x y f on = omega (arith, offset-lt info x y f on, f.small)

-- Two pixels of the screen have different places.
pub offset-ne :
    (info : VgaMode) (x y x' y' : ℕ)
    → IsFlat info
    → on_screen info x y ≡ true
    → on_screen info x' y' ≡ true
    → (offset_of info x' y' == offset_of info x y) ≡ (x' == x && y' == y)
offset-ne info x y x' y' f on on' =
    let a = offset_lem info x y f on in
    let a' = offset_lem info x' y' f on' in
    let hx : x < info.pitch = ground (arith, f.wide) in
    let hx' : x' < info.pitch = ground (arith, f.wide) in
    elim (Bool-cases (y' == y)) [
      | inl e ↦
          let q : y' * info.pitch ≡ y * info.pitch =
            ap (λ (n : ℕ). n * info.pitch) (ground arith) in
          ground (arith, q)
      | inr e ↦ elim (Bool-cases (ltb y y')) [
        | inl l ↦ ground (arith, below_row y y' info.pitch x (ltb→lt y y' l) hx)
        | inr g ↦ ground (arith, below_row y' y info.pitch x' (ground arith) hx')
      ]
    ]

pub mode-set_pixel :
    (x y color : ℕ) (v : Vga) → (vga_set_pixel x y color v).current_mode ≡ v.current_mode
unfolding vga_set_pixel
mode-set_pixel x y color v = ground arith

-- A pixel after one is set.
pub pixel-set_pixel :
    (info : VgaMode) (x y color px py : ℕ) (v : Vga)
    → IsFlat info
    → v.current_mode ≡ info
    → on_screen info px py ≡ true
    → pixel_in info px py (vga_set_pixel x y color v)
      ≡ (if px == x && py == y then color else pixel_in info px py v)
unfolding vga_set_pixel
pixel-set_pixel info x y color px py v f m on = elim (Bool-cases (on_screen info x y)) [
  | inl o ↦ rw m (ground (arith, offset-ne info x y px py f o on))
  | inr o ↦ rw m (ground arith)
]

-- A write at a place changes no cell from `bound` on if the place lies below it.
pub set_pixel-beyond :
    (info : VgaMode) (x y color cell : ℕ) (v : Vga)
    → IsFlat info
    → v.current_mode ≡ info
    → info.height * info.pitch ≤ cell
    → (vga_set_pixel x y color v).back_buffer cell ≡ v.back_buffer cell
unfolding vga_set_pixel
set_pixel-beyond info x y color cell v f m far = elim (Bool-cases (on_screen info x y)) [
  | inl o ↦ rw m (ground (arith, offset-lt info x y f o, offset_lem info x y f o))
  | inr o ↦ rw m (ground arith)
]

pub mode_info-IsFlat :
    (mode : ℕ) (info : VgaMode) → mode_info mode ≡ some info → mode ≢ 0x12 → IsFlat info
unfolding mode_info
mode_info-IsFlat mode info h ne = ground arith

-- In a mode that `vga_set_mode` sets, text and 256 colors write no byte behind the back buffer of
-- 65536 bytes. In 640 by 480 a pixel is written behind it exactly if 320 times its row and its
-- column make 65536 or more, which holds from row 205 on.
pub set_pixel-buffer :
    (mode x y color : ℕ) (info : VgaMode) (v : Vga)
    → mode_info mode ≡ some info
    → v.current_mode ≡ info
    → ((cell : ℕ)
        → memory_size ≤ cell
        → (mode ≢ 0x12) ⊎ (y * 320 + x < memory_size)
        → (vga_set_pixel x y color v).back_buffer cell ≡ v.back_buffer cell)
      × (mode ≡ 0x12
          → x < 640
          → y < 480
          → memory_size ≤ y * 320 + x
          → (vga_set_pixel x y color v).back_buffer (y * 320 + x) ≡ color)
      × (205 ≤ y → memory_size ≤ y * 320 + x)
unfolding mode_info vga_set_pixel
set_pixel-buffer mode x y color info v h m =
    (λ cell far near. rw m (ground arith), λ e hx hy far. rw m (ground arith), λ late. omega arith)
