-- ===== src/Window/Desktop/Front.antt =====
-- What `window_update` of src/impl/drivers/video/window.c brings to the screen.
use nans_os.Base.{
  ℕ, ◌+◌, ◌<◌, ◌≡◌, ◌≢◌, inl, inr, refl, sym, ap, ◌∙◌, arith, true, false, Option, some, List, [],
  ◌∷◌, ◌++◌, ltb, Bool-cases, eq_of_some,
}
use mathlib.Core.Path.{subst}
use nans_os.Vga.{
  Vga, VgaMode, on_screen, offset_of, memory_size, less, vga_draw_rect, vga_draw_line,
  vga_clear_screen, vga_swap_buffers,
}
use nans_os.Vga.Pixels.{IsFlat, pixel_in}
use nans_os.Vga.Line.{draw_line-IsDrawn}
use nans_os.Vga.Scene.{
  vga_draw_text, vga_draw_button, vga_draw_taskbar, text_x, text_y, start, noon,
}
use nans_os.Vga.Scene.Frame.{mode-draw_rect, mode-draw_text}
use nans_os.Window.{Ptr, Window}
use nans_os.Window.Desktop.{TerminalBuffer, Desktop, show_window, show_windows, window_update}
use nans_os.Window.Desktop.Painters.{
  plan, layer, Shown, Fits, window_rect, client_of, show_window-layer, layer-pixel,
}

-- A window that can be drawn: it is in memory, and if it is visible, its painter works and it fits.
abbrev pub Ready : (Ptr → Option TerminalBuffer) → (Ptr → Option Window) → Ptr → Type 0
Ready contents store p =
    (p ≢ 0)
    × (w : Window) × (store p ≡ some w)
    × (w.flags.visible ≡ true
        → (painting : Option (ℕ × List ℕ)) × (plan contents w ≡ some painting) × Fits w painting)

abbrev pub AllReady : (Ptr → Option TerminalBuffer) → (Ptr → Option Window) → List Ptr → Type 0
AllReady contents store [] = Unit
AllReady contents store (p ∷ ps) = Ready contents store p × AllReady contents store ps

-- No visible window of the list has the pixel in its rectangle.
abbrev pub Clear : (Ptr → Option Window) → ℕ → ℕ → List Ptr → Type 0
Clear store px py [] = Unit
Clear store px py (p ∷ ps) =
    ((w : Window) → store p ≡ some w → w.flags.visible ≡ true → window_rect w px py ≡ false)
    × Clear store px py ps

module _ (info : VgaMode) (f : IsFlat info) where
  line_total :
      (x1 y1 x2 y2 color : ℕ) (v : Vga)
      → v.current_mode ≡ info
      → x1 < 65536
      → y1 < 65536
      → x2 < 65536
      → y2 < 65536
      → (v' : Vga) × (vga_draw_line x1 y1 x2 y2 color v ≡ some v') × (v'.current_mode ≡ info)
  line_total x1 y1 x2 y2 color v m a b c e =
      let (v', r, d) = draw_line-IsDrawn info x1 y1 x2 y2 color v f m a b c e in (v', r, d.mode)

  button_total :
      (x y width height : ℕ) (text : List ℕ) (v : Vga)
      → v.current_mode ≡ info
      → x < 65536
      → y < 65536
      → (v' : Vga) × (vga_draw_button x y width height text v ≡ some v') × (v'.current_mode ≡ info)
  unfolding vga_draw_button
  button_total x y width height text v m hx hy =
      let right : ℕ = less (x + width) 1 in
      let bottom : ℕ = less (y + height) 1 in
      let hr : right < 65536 = omega arith in
      let hb : bottom < 65536 = omega arith in
      let v0 : Vga = vga_draw_rect x y width height 7 v in
      let m0 : v0.current_mode ≡ info = mode-draw_rect x y width height 7 v ∙ m in
      let (v1, r1, m1) = line_total x y right y 15 v0 m0 hx hy hr hy in
      let (v2, r2, m2) = line_total x y x bottom 15 v1 m1 hx hy hx hb in
      let (v3, r3, m3) = line_total x bottom right bottom 8 v2 m2 hx hb hr hb in
      let (v4, r4, m4) = line_total right y right bottom 8 v3 m3 hr hy hr hb in
      (
        vga_draw_text (text_x x width text) (text_y y height) text 0 v4,
        rw r1 (rw r2 (rw r3 (rw r4 refl))),
        mode-draw_text info f _ _ _ _ _ ∙ m4,
      )

  taskbar_total :
      (v : Vga)
      → v.current_mode ≡ info
      → (v' : Vga) × (vga_draw_taskbar v ≡ some v') × (v'.current_mode ≡ info)
  unfolding vga_draw_taskbar
  taskbar_total v m =
      let width : ℕ = v.current_mode.width in
      let height : ℕ = v.current_mode.height in
      let v0 : Vga = vga_draw_rect 0 (less height 30) width 30 8 v in
      let (v1, r1, m1) =
        button_total 5 (less height 25) 60 20 start v0
          (mode-draw_rect 0 (less height 30) width 30 8 v ∙ m) (omega arith) (omega arith) in
      (
        vga_draw_text (less width 50) (less height 20) noon 15 v1,
        rw r1 refl,
        mode-draw_text info f _ _ _ _ _ ∙ m1,
      )

module _ (info : VgaMode) (f : IsFlat info) (px py : ℕ) (on : on_screen info px py ≡ true) where
  -- One window is drawn, and a pixel off its rectangle is kept.
  window_drawn :
      (p : Ptr) (d : Desktop)
      → d.vga.current_mode ≡ info
      → Ready d.contents d.wm.store p
      → (v : Vga) × (show_window p d ≡ some (record d { vga = v }))
        × (v.current_mode ≡ info)
        × (((w : Window)
              → d.wm.store p ≡ some w
              → w.flags.visible ≡ true
              → window_rect w px py ≡ false)
            → pixel_in info px py v ≡ pixel_in info px py d.vga)
  unfolding show_window
  window_drawn p d m (nz, w, st, ready) = elim (Bool-cases w.flags.visible) [
    | inr hidden ↦ (d.vga, rw (show_window, st, hidden) refl, m, λ c. refl)
    | inl vis ↦
        let (painting, pl, fits) = ready vis in
        let (out, shown, m') = layer-pixel info f w px py painting d.vga m on fits in
        (
          layer w painting d.vga,
          show_window-layer p w painting d nz st pl vis,
          m',
          λ c. out (c w st vis),
        )
  ]

  windows_drawn :
      (ps : List Ptr) (d : Desktop)
      → d.vga.current_mode ≡ info
      → AllReady d.contents d.wm.store ps
      → Clear d.wm.store px py ps
      → (v : Vga) × (show_windows ps d ≡ some (record d { vga = v }))
        × (v.current_mode ≡ info)
        × (pixel_in info px py v ≡ pixel_in info px py d.vga)
  unfolding show_windows
  windows_drawn [] d m r c = (d.vga, refl, m, refl)
  windows_drawn (p ∷ ps) d m (r, rs) (c, cs) =
      let (v1, e1, m1, k1) = window_drawn p d m r in
      let (v2, e2, m2, k2) = windows_drawn ps (record d { vga = v1 }) m1 rs cs in
      (v2, rw (show_windows, e1) e2, m2, k2 ∙ k1 c)

  -- The same for a window `p` with windows below and above it.
  front_drawn :
      (below above : List Ptr) (p : Ptr) (w : Window) (painting : Option (ℕ × List ℕ)) (d : Desktop)
      → d.vga.current_mode ≡ info
      → AllReady d.contents d.wm.store (below ++ (p ∷ above))
      → d.wm.store p ≡ some w
      → w.flags.visible ≡ true
      → plan d.contents w ≡ some painting
      → Clear d.wm.store px py above
      → client_of w px py ≡ true
      → (v : Vga) × (show_windows (below ++ (p ∷ above)) d ≡ some (record d { vga = v }))
        × Shown painting (pixel_in info px py v)
  unfolding show_windows
  front_drawn (q ∷ below) above p w painting d m (r, rs) st vis pl c at =
      let (v1, e1, m1, k1) = window_drawn q d m r in
      let (v, e, s) =
        front_drawn below above p w painting (record d { vga = v1 }) m1 rs st vis pl c at in
      (v, rw (show_windows, e1) e, s)
  front_drawn [] above p w painting d m ((nz, w', st', ready), rs) st vis pl c at =
      let same : w' ≡ w = eq_of_some (sym st' ∙ st) in
      let (painting', pl', fits') = ready (ap (λ u. u.flags.visible) same ∙ vis) in
      let plans : painting' ≡ painting =
        eq_of_some (sym pl' ∙ ap (λ u. plan d.contents u) same ∙ pl) in
      let fits : Fits w painting =
        subst (λ u. Fits u painting) same (subst (λ a. Fits w' a) plans fits') in
      let (out, shown, m1) = layer-pixel info f w px py painting d.vga m on fits in
      let v1 : Vga = layer w painting d.vga in
      let (v, e, m2, k) = windows_drawn above (record d { vga = v1 }) m1 rs c in
      (
        v,
        rw (show_windows, show_window-layer p w painting d nz st pl vis) e,
        subst (Shown painting) (sym k) (shown at),
      )

-- In a mode whose rows do not overlap, at a pixel that the 65536 bytes of the screen hold: let each
-- listed window be in memory and, if visible, have a painter that works, and fit (within the 16-bit
-- coordinates, at least 19 wide and 38 high, wide enough for its title and its painter's text). Then
-- `window_update` ends and changes the screen alone, and of the visible windows the last in the
-- list with the pixel in its rectangle shows there: a pixel of its client area has on the screen
-- the color its painter fills with, or the black of its text; white where it has no painter. A
-- terminal fills with black, so that its text cannot be seen.
pub window_update-Shown :
    (info : VgaMode) (px py : ℕ) (below above : List Ptr) (p : Ptr) (w : Window)
    (painting : Option (ℕ × List ℕ)) (d : Desktop)
    → IsFlat info
    → d.vga.current_mode ≡ info
    → on_screen info px py ≡ true
    → offset_of info px py < memory_size
    → d.wm.windows ≡ below ++ (p ∷ above)
    → AllReady d.contents d.wm.store (below ++ (p ∷ above))
    → d.wm.store p ≡ some w
    → w.flags.visible ≡ true
    → plan d.contents w ≡ some painting
    → Clear d.wm.store px py above
    → client_of w px py ≡ true
    → (v : Vga) × (window_update d ≡ some (record d { vga = v }))
      × Shown painting (v.front_buffer (offset_of info px py))
unfolding window_update vga_swap_buffers vga_clear_screen
window_update-Shown info px py below above p w painting d f m on small ws rs st vis pl c at =
    let (v1, e1, m1) = taskbar_total info f (vga_clear_screen 3 d.vga) m in
    let (v, e, s) =
      front_drawn info f px py on below above p w painting (record d { vga = v1 }) m1 rs st vis pl c
        at in
    let lt : ltb (offset_of info px py) memory_size ≡ true = ground arith in
    let e' = ap (λ ps. show_windows ps (record d { vga = v1 })) ws ∙ e in
    (vga_swap_buffers v, rw e1 (rw e' refl), rw lt s)
