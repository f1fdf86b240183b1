-- ===== src/Vga/Line.antt =====
-- The loop of `vga_draw_line` of src/impl/drivers/video/vga.c ends at the second point.
use nans_os.Base.{
  ℕ, zero, suc, ◌+◌, ◌-◌, ◌*◌, ◌/◌, ◌≤◌, ◌<◌, ◌≡◌, ◌⊎◌, inl, inr, refl, ap, ◌∙◌, arith, Bool, true,
  false, ◌&&◌, Option, some, ltb, ◌==◌, if◌then◌else◌, Bool-cases, ltb→lt,
}
use nans_os.Base.Int.{ℤ, pos, sub_ℕ}
use nans_os.Vga.{
  Vga, VgaMode, Slope, on_screen, vga_set_pixel, line_loop, line_fuel, vga_draw_line, slope,
  first_err, steps_x, steps_y, next_err, toward,
}
use nans_os.Vga.Pixels.{IsFlat, pixel_in, pixel-set_pixel, mode-set_pixel}
use nans_os.Vga.Rounds.{
  Towards, between, toward-Towards, short_step, short_stays, short_done, flat_next, steep_next,
  and_of_right, out_of_nearer, distance-Towards,
}

-- What a line from a point leaves of the pixels: both ends have the color, no pixel outside the
-- rectangle of the two changes, and any that changes gets the color.
pub record IsDrawn (info : VgaMode) (x1 y1 x2 y2 color : ℕ) (v v' : Vga) : Type 0 where
  pub mode : v'.current_mode ≡ info
  pub first : on_screen info x1 y1 ≡ true → pixel_in info x1 y1 v' ≡ color
  pub last : on_screen info x2 y2 ≡ true → pixel_in info x2 y2 v' ≡ color
  pub outside :
      (px py : ℕ)
      → on_screen info px py ≡ true
      → (between x1 x2 px && between y1 y2 py) ≡ false
      → pixel_in info px py v' ≡ pixel_in info px py v
  pub either :
      (px py : ℕ)
      → on_screen info px py ≡ true
      → (pixel_in info px py v' ≡ color) ⊎ (pixel_in info px py v' ≡ pixel_in info px py v)

module _ (info : VgaMode) (f : IsFlat info) (x2 y2 color : ℕ) where
  -- The last round.
  done-IsDrawn :
      (x y : ℕ) (v : Vga)
      → v.current_mode ≡ info
      → x ≡ x2
      → y ≡ y2
      → IsDrawn info x y x2 y2 color v (vga_set_pixel x y color v)
  done-IsDrawn x y v m ex ey = record {
    mode = mode-set_pixel x y color v ∙ m;
    first = λ on. ground (arith, pixel-set_pixel info x y color x y v f m on);
    last = λ on. ground (arith, pixel-set_pixel info x y color x2 y2 v f m on);
    outside = λ px py on out. ground (arith, pixel-set_pixel info x y color px py v f m on);
    either = λ px py on. ground (arith, pixel-set_pixel info x y color px py v f m on);
  }

  -- A round before a line from a point that lies nearer.
  step-IsDrawn :
      (x y x' y' : ℕ) (v v' : Vga)
      → v.current_mode ≡ info
      → between x x2 x' ≡ true
      → between y y2 y' ≡ true
      → IsDrawn info x' y' x2 y2 color (vga_set_pixel x y color v) v'
      → IsDrawn info x y x2 y2 color v v'
  step-IsDrawn x y x' y' v v' m bx by d = record {
    mode = d.mode;
    first = λ on. ground (arith, pixel-set_pixel info x y color x y v f m on, d.either x y on);
    last = d.last;
    outside = λ px py on out.
        let (far, ne) = out_of_nearer x x' x2 y y' y2 px py bx by out in
        d.outside px py on far ∙ pixel-set_pixel info x y color px py v f m on ∙ rw ne refl;
    either = λ px py on.
        ground (arith, pixel-set_pixel info x y color px py v f m on, d.either px py on);
  }

  -- The loop has a result, which draws the line.
  abbrev Ends : ℕ → Slope → ℕ → ℕ → ℤ → Vga → Type 0
  Ends fuel s x y err v =
      (v' : Vga) × (line_loop fuel s x y x2 y2 err color v ≡ some v')
      × IsDrawn info x y x2 y2 color v v'

  last_round :
      (fuel : ℕ) (s : Slope) (x y : ℕ) (err : ℤ) (v : Vga)
      → v.current_mode ≡ info
      → x ≡ x2
      → y ≡ y2
      → Ends (suc fuel) s x y err v
  unfolding line_loop
  last_round fuel s x y err v m ex ey =
      (vga_set_pixel x y color v, ground arith, done-IsDrawn x y v m ex ey)

  one_round :
      (fuel : ℕ) (s : Slope) (x y x' y' : ℕ) (err err' : ℤ) (v : Vga)
      → v.current_mode ≡ info
      → (x == x2 && y == y2) ≡ false
      → (if steps_x s err then toward s.sx x else x) ≡ x'
      → (if steps_y s err then toward s.sy y else y) ≡ y'
      → next_err s err ≡ err'
      → between x x2 x' ≡ true
      → between y y2 y' ≡ true
      → Ends fuel s x' y' err' (vga_set_pixel x y color v)
      → Ends (suc fuel) s x y err v
  unfolding line_loop
  one_round fuel s x y x' y' err err' v m more ex ey ee bx by (v', run, d) =
      (v', rw (more, ex, ey, ee, line_loop) run, step-IsDrawn x y x' y' v v' m bx by d)

  apart : (up : Bool) (x y r : ℕ) → Towards up x x2 (suc r) → (x == x2 && y == y2) ≡ false
  apart up x y r t = ground arith

  apart_y : (up : Bool) (x y r : ℕ) → Towards up y y2 (suc r) → (x == x2 && y == y2) ≡ false
  apart_y up x y r t = and_of_right (x == x2) (y == y2) (ground arith)

  stays : (y : ℕ) → between y y2 y ≡ true
  stays y = ground arith

  stays_x : (x : ℕ) → between x x2 x ≡ true
  stays_x x = ground arith

  module _ (s : Slope) (hx : x2 < 65536) (hy : y2 < 65536) where
    flat_loop :
        (long fuel short e x y : ℕ) (v : Vga)
        → s.dy < s.dx
        → e < s.dx
        → e + s.dx * short ≡ s.dx / 2 + s.dy * long
        → Towards s.sx x x2 long
        → Towards s.sy y y2 short
        → x < 65536
        → y < 65536
        → v.current_mode ≡ info
        → long < fuel
        → Ends fuel s x y (pos e) v
    flat_loop long zero short e x y v h he q tx ty ux uy m more = absurd (omega arith)
    flat_loop zero (suc fuel) short e x y v h he q tx ty ux uy m more =
        let z = short_done s.dx s.dy e short (omega arith) q in
        last_round fuel s x y (pos e) v m (ground arith) (ground arith)
    flat_loop (suc long) (suc fuel) short e x y v h he q tx ty ux uy m more =
        let (tx', ux', bx) = toward-Towards s.sx x x2 long tx ux hx in
        let (sx, sy, se) = flat_next s e h he in
        elim (Bool-cases (ltb e s.dy)) [
          | inl up ↦
              let (short', r, q') =
                short_step s.dx s.dy e long short (omega arith) he q (ltb→lt e s.dy up) in
              let (ty', uy', by) = toward-Towards s.sy y y2 short' (ground arith) uy hy in
              one_round fuel s x y (toward s.sx x) (toward s.sy y) (pos e) (pos (e + s.dx - s.dy)) v
                m (apart s.sx x y long tx) (rw sx refl) (rw (sy, up) refl) (se ∙ rw up refl) bx by
                (flat_loop long fuel short' (e + s.dx - s.dy) (toward s.sx x) (toward s.sy y)
                  (vga_set_pixel x y color v) h (ground arith) q' tx' ty' ux' uy'
                  (mode-set_pixel x y color v ∙ m) (omega arith))
          | inr no_step ↦
              one_round fuel s x y (toward s.sx x) y (pos e) (pos (e - s.dy)) v m
                (apart s.sx x y long tx) (rw sx refl) (rw (sy, no_step) refl) (se ∙ rw no_step refl)
                bx (stays y)
                (flat_loop long fuel short (e - s.dy) (toward s.sx x) y (vga_set_pixel x y color v)
                  h (omega arith) (short_stays s.dx s.dy e long short q (ground arith)) tx' ty ux'
                  uy (mode-set_pixel x y color v ∙ m) (omega arith))
        ]

    steep_loop :
        (long fuel short e x y : ℕ) (v : Vga)
        → s.dx ≤ s.dy
        → e < s.dy
        → e + s.dy * short ≡ s.dy / 2 + s.dx * long
        → Towards s.sy y y2 long
        → Towards s.sx x x2 short
        → x < 65536
        → y < 65536
        → v.current_mode ≡ info
        → long < fuel
        → Ends fuel s x y (sub_ℕ 0 e) v
    steep_loop long zero short e x y v h he q ty tx ux uy m more = absurd (omega arith)
    steep_loop zero (suc fuel) short e x y v h he q ty tx ux uy m more =
        let z = short_done s.dy s.dx e short (omega arith) q in
        last_round fuel s x y (sub_ℕ 0 e) v m (ground arith) (ground arith)
    steep_loop (suc long) (suc fuel) short e x y v h he q ty tx ux uy m more =
        let (ty', uy', by) = toward-Towards s.sy y y2 long ty uy hy in
        let (sy, sx, se) = steep_next s e h he in
        elim (Bool-cases (ltb e s.dx)) [
          | inl up ↦
              let (short', r, q') = short_step s.dy s.dx e long short h he q (ltb→lt e s.dx up) in
              let (tx', ux', bx) = toward-Towards s.sx x x2 short' (ground arith) ux hx in
              one_round fuel s x y (toward s.sx x) (toward s.sy y) (sub_ℕ 0 e)
                (sub_ℕ 0 (e + s.dy - s.dx)) v m (apart_y s.sy x y long ty) (rw (sx, up) refl)
                (rw sy refl) (se ∙ rw up refl) bx by
                (steep_loop long fuel short' (e + s.dy - s.dx) (toward s.sx x) (toward s.sy y)
                  (vga_set_pixel x y color v) h (ground arith) q' ty' tx' ux' uy'
                  (mode-set_pixel x y color v ∙ m) (omega arith))
          | inr no_step ↦
              one_round fuel s x y x (toward s.sy y) (sub_ℕ 0 e) (sub_ℕ 0 (e - s.dx)) v m
                (apart_y s.sy x y long ty) (rw (sx, no_step) refl) (rw sy refl)
                (se ∙ rw no_step refl) (stays_x x) by
                (steep_loop long fuel short (e - s.dx) x (toward s.sy y) (vga_set_pixel x y color v)
                  h (omega arith) (short_stays s.dy s.dx e long short q (ground arith)) ty' tx ux
                  uy' (mode-set_pixel x y color v ∙ m) (omega arith))
        ]

-- In a mode whose rows do not overlap, `vga_draw_line` ends within 65536 rounds between any two
-- points of 16-bit coordinates: both ends that lie on the screen have the color, no pixel outside
-- the rectangle of the two points changes, any pixel that changes gets the color, and the mode
-- stays.
pub draw_line-IsDrawn :
    (info : VgaMode) (x1 y1 x2 y2 color : ℕ) (v : Vga)
    → IsFlat info
    → v.current_mode ≡ info
    → x1 < 65536
    → y1 < 65536
    → x2 < 65536
    → y2 < 65536
    → (v' : Vga) × (vga_draw_line x1 y1 x2 y2 color v ≡ some v')
      × IsDrawn info x1 y1 x2 y2 color v v'
unfolding vga_draw_line
draw_line-IsDrawn info x1 y1 x2 y2 color v f m ux1 uy1 ux2 uy2 =
    let s : Slope = slope x1 y1 x2 y2 in
    let tx = distance-Towards x1 x2 in
    let ty = distance-Towards y1 y2 in
    let run : ℤ → Option Vga = λ err. line_loop line_fuel s x1 y1 x2 y2 err color v in
    elim (Bool-cases (ltb s.dy s.dx)) [
      | inl flat ↦
          let (v', r, d) =
            flat_loop info f x2 y2 color s ux2 uy2 s.dx line_fuel s.dy (s.dx / 2) x1 y1 v
              (ltb→lt s.dy s.dx flat) (ground arith) (grind arith) tx ty ux1 uy1 m (ground arith) in
          (v', ap run (rw flat refl) ∙ r, d)
      | inr steep ↦ elim (Bool-cases (ltb 0 s.dy)) [
        | inl tall ↦
            let (v', r, d) =
              steep_loop info f x2 y2 color s ux2 uy2 s.dy line_fuel s.dx (s.dy / 2) x1 y1 v
                (ground arith) (ground arith) (grind arith) ty tx ux1 uy1 m (ground arith) in
            (v', ap run (rw steep refl) ∙ r, d)
        | inr point ↦
            last_round info f x2 y2 color 65535 s x1 y1 (first_err s) v m (ground arith)
              (ground arith)
      ]
    ]
