-- ===== src/Vga/Scene/Frame.antt =====
-- The frame that `vga_draw_window` of src/impl/drivers/video/vga.c draws, and that the drawing of
-- the desktop ends.
use nans_os.Base.{
  ℕ, ◌+◌, ◌-◌, ◌*◌, ◌≤◌, ◌<◌, ◌≡◌, ◌⊎◌, inl, inr, refl, ◌∙◌, arith, Bool, true, false, ◌&&◌, ◌||◌,
  List, [], ◌∷◌, length, ◌==◌, if◌then◌else◌,
}
use nans_os.Vga.{Vga, VgaMode, on_screen, u16, less, vga_draw_rect}
use nans_os.Vga.Pixels.{IsFlat, pixel_in}
use nans_os.Vga.Rect.{spans, mode-draw_rows, draw_rect-pixel}
use nans_os.Vga.Scene.{draw_chars, vga_draw_text, vga_draw_window}

pub mode-draw_rect :
    (x y width height color : ℕ) (v : Vga)
    → (vga_draw_rect x y width height color v).current_mode ≡ v.current_mode
unfolding vga_draw_rect
mode-draw_rect x y width height color v = mode-draw_rows height 0 x y width color v

pub mode-draw_chars :
    (text : List ℕ) (i x y color : ℕ) (v : Vga)
    → (draw_chars text i x y color v).current_mode ≡ v.current_mode
unfolding draw_chars
mode-draw_chars [] i x y color v = refl
mode-draw_chars (c ∷ text) i x y color v =
    mode-draw_chars text (i + 1) x y color (vga_draw_rect (u16 (x + i * 8)) y 7 16 color v)
    ∙ mode-draw_rect (u16 (x + i * 8)) y 7 16 color v

module _ (info : VgaMode) (f : IsFlat info) where
  -- A text changes pixels of its own band only, and those to its color.
  pixel-draw_chars :
      (text : List ℕ) (i x y color px py : ℕ) (v : Vga)
      → v.current_mode ≡ info
      → on_screen info px py ≡ true
      → x + (i + length text) * 8 ≤ 65536
      → y + 16 ≤ 65536
      → (pixel_in info px py (draw_chars text i x y color v) ≡ pixel_in info px py v)
        ⊎ ((pixel_in info px py (draw_chars text i x y color v) ≡ color)
            × ((spans (x + i * 8) (length text * 8) px && spans y 16 py) ≡ true))
  unfolding draw_chars
  pixel-draw_chars [] i x y color px py v m on fx fy = inl refl
  pixel-draw_chars (c ∷ text) i x y color px py v m on fx fy =
      let here : Vga = vga_draw_rect (u16 (x + i * 8)) y 7 16 color v in
      let r = draw_rect-pixel info f (u16 (x + i * 8)) y 7 16 color px py v m on (omega arith) fy in
      elim (pixel-draw_chars text (i + 1) x y color px py here
        (mode-draw_rect (u16 (x + i * 8)) y 7 16 color v ∙ m) on (omega arith) fy) [
          | inl e ↦ ground arith
          | inr (e, w) ↦ inr (e, ground arith)
        ]

-- A pixel under the six layers of a window: the frame, the title bar, the title, the client area,
-- the close button and its cross, of which the texts may leave it.
abbrev Layered : (old after : ℕ) (frame bar title client button cross : Bool) → Type 0
Layered old after frame bar title client button cross =
    (under : ℕ) × ((under ≡ (if bar then 1 else if frame then 7 else old))
      ⊎ ((under ≡ 15) × (title ≡ true)))
    × ((after ≡ (if button then 4 else if client then 15 else under))
        ⊎ ((after ≡ 15) × (cross ≡ true)))

abbrev pub in_rect : ℕ → ℕ → ℕ → ℕ → ℕ → ℕ → Bool
in_rect x y width height px py = spans x width px && spans y height py

-- `vga_draw_window` where no coordinate wraps around.
plain_window : ℕ → ℕ → ℕ → ℕ → List ℕ → Vga → Vga
plain_window x y width height title v =
    let v1 = vga_draw_rect x y width height 7 v in
    let v2 = vga_draw_rect (x + 1) (y + 1) (width - 2) 20 1 v1 in
    let v3 = vga_draw_text (x + 5) (y + 5) title 15 v2 in
    let v4 = vga_draw_rect (x + 1) (y + 21) (width - 2) (height - 22) 15 v3 in
    let v5 = vga_draw_rect (x + width - 18) (y + 4) 14 14 4 v4 in
    vga_draw_text (x + width - 16) (y + 6) (b'X' ∷ []) 15 v5

draw_window-plain :
    (x y width height : ℕ) (title : List ℕ) (v : Vga)
    → x + width ≤ 65535
    → y + height ≤ 65535
    → 19 ≤ width
    → 23 ≤ height
    → vga_draw_window x y width height title v ≡ plain_window x y width height title v
unfolding vga_draw_window plain_window
draw_window-plain x y width height title v fx fy w h =
    let ex1 : u16 (x + 1) ≡ x + 1 = omega arith in
    let ex5 : u16 (x + 5) ≡ x + 5 = omega arith in
    let ey1 : u16 (y + 1) ≡ y + 1 = omega arith in
    let ey4 : u16 (y + 4) ≡ y + 4 = omega arith in
    let ey5 : u16 (y + 5) ≡ y + 5 = omega arith in
    let ey6 : u16 (y + 6) ≡ y + 6 = omega arith in
    let ey21 : u16 (y + 21) ≡ y + 21 = omega arith in
    let ew : less width 2 ≡ width - 2 = omega arith in
    let eh : less height 22 ≡ height - 22 = omega arith in
    let e18 : less (x + width) 18 ≡ x + width - 18 = omega arith in
    let e16 : less (x + width) 16 ≡ x + width - 16 = omega arith in
    rw (ex1, ex5, ey1, ey4, ey5, ey6, ey21, ew, eh, e18, e16) refl

module _ (info : VgaMode) (f : IsFlat info) where
  pub pixel-draw_text :
      (x y : ℕ) (text : List ℕ) (color px py : ℕ) (v : Vga)
      → v.current_mode ≡ info
      → on_screen info px py ≡ true
      → x + length text * 8 ≤ 65536
      → y + 16 ≤ 65536
      → (pixel_in info px py (vga_draw_text x y text color v) ≡ pixel_in info px py v)
        ⊎ ((pixel_in info px py (vga_draw_text x y text color v) ≡ color)
            × (in_rect x y (length text * 8) 16 px py ≡ true))
  unfolding vga_draw_text
  pixel-draw_text x y text color px py v m on fx fy =
      elim (pixel-draw_chars info f text 0 x y color px py v m on (omega arith) fy) [
        | inl e ↦ inl e
        | inr (e, w) ↦ inr (e, ground arith)
      ]

  pub mode-draw_text :
      (x y : ℕ) (text : List ℕ) (color : ℕ) (v : Vga)
      → (vga_draw_text x y text color v).current_mode ≡ v.current_mode
  unfolding vga_draw_text
  mode-draw_text x y text color v = mode-draw_chars text 0 x y color v

  plain_window-layers :
      (x y width height : ℕ) (title : List ℕ) (px py : ℕ) (v : Vga)
      → v.current_mode ≡ info
      → x + width ≤ 65535
      → y + height ≤ 65535
      → 19 ≤ width
      → 23 ≤ height
      → 5 + length title * 8 ≤ width
      → on_screen info px py ≡ true
      → Layered
          (pixel_in info px py v)
          (pixel_in info px py (plain_window x y width height title v))
          (in_rect x y width height px py)
          (in_rect (x + 1) (y + 1) (width - 2) 20 px py)
          (in_rect (x + 5) (y + 5) (length title * 8) 16 px py)
          (in_rect (x + 1) (y + 21) (width - 2) (height - 22) px py)
          (in_rect (x + width - 18) (y + 4) 14 14 px py)
          (in_rect (x + width - 16) (y + 6) 8 16 px py)
  unfolding plain_window
  plain_window-layers x y width height title px py v m fx fy w h t on =
      let v1 : Vga = vga_draw_rect x y width height 7 v in
      let v2 : Vga = vga_draw_rect (x + 1) (y + 1) (width - 2) 20 1 v1 in
      let v3 : Vga = vga_draw_text (x + 5) (y + 5) title 15 v2 in
      let v4 : Vga = vga_draw_rect (x + 1) (y + 21) (width - 2) (height - 22) 15 v3 in
      let v5 : Vga = vga_draw_rect (x + width - 18) (y + 4) 14 14 4 v4 in
      let m1 : v1.current_mode ≡ info = mode-draw_rect x y width height 7 v ∙ m in
      let m2 : v2.current_mode ≡ info = mode-draw_rect (x + 1) (y + 1) (width - 2) 20 1 v1 ∙ m1 in
      let m3 : v3.current_mode ≡ info = mode-draw_text (x + 5) (y + 5) title 15 v2 ∙ m2 in
      let m4 : v4.current_mode ≡ info =
        mode-draw_rect (x + 1) (y + 21) (width - 2) (height - 22) 15 v3 ∙ m3 in
      let m5 : v5.current_mode ≡ info = mode-draw_rect (x + width - 18) (y + 4) 14 14 4 v4 ∙ m4 in
      let p1 = draw_rect-pixel info f x y width height 7 px py v m on (omega arith) (omega arith) in
      let p2 =
        draw_rect-pixel info f (x + 1) (y + 1) (width - 2) 20 1 px py v1 m1 on (omega arith)
          (omega arith) in
      let p3 =
        pixel-draw_text (x + 5) (y + 5) title 15 px py v2 m2 on (omega arith) (omega arith) in
      let p4 =
        draw_rect-pixel info f (x + 1) (y + 21) (width - 2) (height - 22) 15 px py v3 m3 on
          (omega arith) (omega arith) in
      let p5 =
        draw_rect-pixel info f (x + width - 18) (y + 4) 14 14 4 px py v4 m4 on (omega arith)
          (omega arith) in
      let p6 =
        pixel-draw_text (x + width - 16) (y + 6) (b'X' ∷ []) 15 px py v5 m5 on (omega arith)
          (omega arith) in
      (
        pixel_in info px py v3,
        elim p3 [ inl e ↦ inl (e ∙ p2 ∙ rw p1 refl) | inr q ↦ inr q ],
        elim p6 [ inl e ↦ inl (e ∙ p5 ∙ rw p4 refl) | inr q ↦ inr q ],
      )

-- A rectangle within another has no point outside it.
pub outside_part :
    (x y width height x' y' width' height' px py : ℕ)
    → in_rect x y width height px py ≡ false
    → x ≤ x'
    → x' + width' ≤ x + width
    → y ≤ y'
    → y' + height' ≤ y + height
    → in_rect x' y' width' height' px py ≡ false
outside_part x y width height x' y' width' height' px py out a b c d = ground arith

-- Where the layers of a pixel are known, so is its color.
untouched :
    (old after : ℕ) (frame bar title client button cross : Bool)
    → Layered old after frame bar title client button cross
    → bar ≡ false
    → title ≡ false
    → client ≡ false
    → button ≡ false
    → cross ≡ false
    → after ≡ (if frame then 7 else old)
untouched old after frame bar title client button cross l a b c d e = ground arith

painted :
    (old after : ℕ) (frame bar title client button cross : Bool)
    → Layered old after frame bar title client button cross
    → client ≡ true
    → button ≡ false
    → after ≡ 15
painted old after frame bar title client button cross l a b = ground arith

above_client :
    (x y width height x' width' px py : ℕ)
    → in_rect x (y + 21) width height px py ≡ true
    → in_rect x' (y + 4) width' 14 px py ≡ false
above_client x y width height x' width' px py h = ground arith

-- The left column and the bottom row of a rectangle lie in no part that keeps off them.
edge_part :
    (x y width height x' y' width' height' px py : ℕ)
    → (px == x || py == y + height - 1) ≡ true
    → x < x'
    → y' + height' < y + height
    → in_rect x' y' width' height' px py ≡ false
edge_part x y width height x' y' width' height' px py e a b = ground arith

-- In a mode whose rows do not overlap, with the window within the 16-bit coordinates, at least 19
-- wide and 23 high and wide enough for the title: no pixel outside the window's rectangle changes,
-- every pixel of its client area (inside the border, below the 21 rows at the top) is white, and
-- its left border and its bottom border are light gray.
pub draw_window-framed :
    (info : VgaMode) (x y width height : ℕ) (title : List ℕ) (px py : ℕ) (v : Vga)
    → IsFlat info
    → v.current_mode ≡ info
    → x + width ≤ 65535
    → y + height ≤ 65535
    → 19 ≤ width
    → 23 ≤ height
    → 5 + length title * 8 ≤ width
    → on_screen info px py ≡ true
    → let after = pixel_in info px py (vga_draw_window x y width height title v) in
      (in_rect x y width height px py ≡ false → after ≡ pixel_in info px py v)
      × (in_rect (x + 1) (y + 21) (width - 2) (height - 22) px py ≡ true → after ≡ 15)
      × (in_rect x y width height px py ≡ true
          → (px == x || py == y + height - 1) ≡ true
          → after ≡ 7)
draw_window-framed info x y width height title px py v f m fx fy w h t on =
    let old : ℕ = pixel_in info px py v in
    let after : ℕ = pixel_in info px py (plain_window x y width height title v) in
    let l = plain_window-layers info f x y width height title px py v m fx fy w h t on in
    let part =
      λ (x' y' width' height' : ℕ). outside_part x y width height x' y' width' height' px py in
    rw (draw_window-plain x y width height title v fx fy w h) (
      λ out.
          untouched old after _ _ _ _ _ _ l
            (part (x + 1) (y + 1) (width - 2) 20 out (omega arith) (omega arith) (omega arith)
              (omega arith))
            (part (x + 5) (y + 5) (length title * 8) 16 out (omega arith) (omega arith)
              (omega arith) (omega arith))
            (part (x + 1) (y + 21) (width - 2) (height - 22) out (omega arith) (omega arith)
              (omega arith) (omega arith))
            (part (x + width - 18) (y + 4) 14 14 out (omega arith) (omega arith) (omega arith)
              (omega arith))
            (part (x + width - 16) (y + 6) 8 16 out (omega arith) (omega arith) (omega arith)
              (omega arith))
          ∙ rw out refl,
      λ in_client.
          painted old after _ _ _ _ _ _ l in_client
            (above_client (x + 1) y (width - 2) (height - 22) (x + width - 18) 14 px py in_client),
      λ in_frame edge.
          let part' = λ (x' y' width' height' : ℕ).
            edge_part x y width height x' y' width' height' px py edge in
          untouched old after _ _ _ _ _ _ l
            (part' (x + 1) (y + 1) (width - 2) 20 (omega arith) (omega arith))
            (part' (x + 5) (y + 5) (length title * 8) 16 (omega arith) (omega arith))
            (part' (x + 1) (y + 21) (width - 2) (height - 22) (omega arith) (omega arith))
            (part' (x + width - 18) (y + 4) 14 14 (omega arith) (omega arith))
            (part' (x + width - 16) (y + 6) 8 16 (omega arith) (omega arith))
          ∙ rw in_frame refl,
    )
