-- ===== src/Window/Desktop/Painters.antt =====
-- What the painters of src/impl/drivers/video/window.c and the frame of a window do to a pixel.
use nans_os.Base.{
  ℕ, ◌+◌, ◌-◌, ◌*◌, ◌≤◌, ◌≡◌, ◌≢◌, ◌⊎◌, inl, inr, refl, ap, ◌∙◌, arith, Bool, true, false, Option,
  none, some, List, length, ◌==◌, if◌then◌else◌, eq_of_some, Bool-cases, Option-cases,
}
use nans_os.Vga.{Vga, VgaMode, on_screen, u16, less, vga_draw_rect}
use nans_os.Vga.Pixels.{IsFlat, pixel_in}
use nans_os.Vga.Rect.{draw_rect-pixel}
use nans_os.Vga.Scene.{◌>>=◌, vga_draw_text, vga_draw_window}
use nans_os.Vga.Scene.Frame.{
  in_rect, mode-draw_rect, mode-draw_text, pixel-draw_text, outside_part, draw_window-framed,
}
use nans_os.Window.{Ptr, Window}
use nans_os.Window.Desktop.{
  TerminalBuffer, Desktop, text_of, window_draw_text, window_clear, terminal_paint,
  file_browser_paint, text_editor_paint, call_paint, show_window, browser_text, editor_text,
}

-- What a window's painter does: nothing, or a fill of the client area with a text on it; `none` is
-- a painter that does not exist or reads freed memory.
abbrev pub plan : (Ptr → Option TerminalBuffer) → Window → Option (Option (ℕ × List ℕ))
plan contents w =
    if w.on_paint == 0
    then some none
    else if w.on_paint == 1
    then (if w.content == 0 then some none else elim (contents w.content) [
      | none ↦ none
      | some b ↦ some (some (0, text_of b.data_bytes))
    ])
    else if w.on_paint == 2
    then some (some (15, browser_text))
    else if w.on_paint == 3
    then some (some (15, editor_text))
    else none

abbrev pub filled_window : Window → ℕ → List ℕ → Vga → Vga
filled_window w color text v =
    vga_draw_text (u16 (w.x + 2)) (u16 (w.y + 2 + 20)) text 0
      (vga_draw_rect (u16 (w.x + 1)) (u16 (w.y + 21)) (less w.width 2) (less w.height 22) color v)

-- A visible window and what its painter adds.
abbrev pub layer : Window → Option (ℕ × List ℕ) → Vga → Vga
layer w painting v =
    let v1 = vga_draw_window w.x w.y w.width w.height w.title v in
    elim painting [ none ↦ v1 | some (color, text) ↦ filled_window w color text v1 ]

clear_then_text :
    (p color : ℕ) (text : List ℕ) (w : Window) (d : Desktop)
    → p ≢ 0
    → d.wm.store p ≡ some w
    → (do d' ← window_clear p color d; window_draw_text p 2 2 text d')
      ≡ some (record d { vga = filled_window w color text d.vga })
unfolding window_clear window_draw_text
clear_then_text p color text w d nz st =
    let e : (p == 0) ≡ false = ground arith in rw (e, st) (rw st refl)

abbrev carried : Window → Option (ℕ × List ℕ) → Desktop → Desktop
carried w painting d = elim painting [
  | none ↦ d
  | some (color, text) ↦ record d { vga = filled_window w color text d.vga }
]

painted_as :
    (w : Window) (d : Desktop) (a b : Option (ℕ × List ℕ)) (r : Option Desktop)
    → some a ≡ some b
    → r ≡ some (carried w a d)
    → r ≡ some (carried w b d)
painted_as w d a b r e h = h ∙ ap (λ x. some (carried w x d)) (eq_of_some e)

terminal_paint-content :
    (p : Ptr) (w : Window) (d : Desktop)
    → d.wm.store p ≡ some w
    → terminal_paint p d ≡ (
        if w.content == 0 then some d else elim (d.contents w.content) [
          | none ↦ none
          | some b ↦ do d' ← window_clear p 0 d; window_draw_text p 2 2 (text_of b.data_bytes) d'
        ])
unfolding terminal_paint
terminal_paint-content p w d st = rw (terminal_paint, st) refl

terminal_paint-plan :
    (p : Ptr) (w : Window) (painting : Option (ℕ × List ℕ)) (d : Desktop)
    → p ≢ 0
    → d.wm.store p ≡ some w
    → (if w.content == 0 then some none else elim (d.contents w.content) [
      | none ↦ none
      | some b ↦ some (some (0, text_of b.data_bytes))
    ])
      ≡ some painting
    → terminal_paint p d ≡ some (carried w painting d)
terminal_paint-plan p w painting d nz st =
    rw (terminal_paint-content p w d st) elim (Bool-cases (w.content == 0)) [
      | inl z ↦ rw z λ pl. painted_as w d none painting _ pl refl
      | inr nz' ↦ rw nz' elim (Option-cases (d.contents w.content)) [
        | inl gone ↦ rw gone λ pl. ground arith
        | inr (b, e) ↦ rw e λ pl.
            painted_as w d (some (0, text_of b.data_bytes)) painting _ pl
              (clear_then_text p 0 (text_of b.data_bytes) w d nz st)
      ]
    ]

call_paint-plan :
    (p : Ptr) (w : Window) (painting : Option (ℕ × List ℕ)) (d : Desktop)
    → p ≢ 0
    → d.wm.store p ≡ some w
    → plan d.contents w ≡ some painting
    → call_paint w.on_paint p d ≡ some (carried w painting d)
unfolding call_paint file_browser_paint text_editor_paint
call_paint-plan p w painting d nz st = elim (Bool-cases (w.on_paint == 0)) [
  | inl a ↦ rw a λ pl. painted_as w d none painting _ pl refl
  | inr a ↦ elim (Bool-cases (w.on_paint == 1)) [
    | inl b ↦ rw (a, b) (terminal_paint-plan p w painting d nz st)
    | inr b ↦ elim (Bool-cases (w.on_paint == 2)) [
      | inl c ↦
          rw (a, b, c)
            λ pl.
              painted_as w d (some (15, browser_text)) painting _ pl
                (clear_then_text p 15 browser_text w d nz st)
      | inr c ↦ elim (Bool-cases (w.on_paint == 3)) [
        | inl e ↦
            rw (a, b, c, e)
              λ pl.
                painted_as w d (some (15, editor_text)) painting _ pl
                  (clear_then_text p 15 editor_text w d nz st)
        | inr e ↦ rw (a, b, c, e) λ pl. ground arith
      ]
    ]
  ]
]

-- What a pixel shows after a visible window: `show_window` makes the layer of its plan.
pub show_window-layer :
    (p : Ptr) (w : Window) (painting : Option (ℕ × List ℕ)) (d : Desktop)
    → p ≢ 0
    → d.wm.store p ≡ some w
    → plan d.contents w ≡ some painting
    → w.flags.visible ≡ true
    → show_window p d ≡ some (record d { vga = layer w painting d.vga })
unfolding show_window
show_window-layer p w painting d nz st pl vis =
    let d' : Desktop = record d { vga = vga_draw_window w.x w.y w.width w.height w.title d.vga } in
    rw (show_window, st, vis)
      (call_paint-plan p w painting d' nz st pl
        ∙ ap some (elim painting as (λ a. carried w a d' ≡ record d { vga = layer w a d.vga }) [
          | none ↦ refl
          | some (color, text) ↦ refl
        ]))

-- What a pixel of the client area shows of a painting, whose texts are black.
abbrev pub Shown : Option (ℕ × List ℕ) → ℕ → Type 0
Shown painting c = elim painting [ none ↦ c ≡ 15 | some (color, text) ↦ (c ≡ color) ⊎ (c ≡ 0) ]

-- Within the coordinates, with room for the title and for the painter's text.
pub record Fits (w : Window) (painting : Option (ℕ × List ℕ)) : Type 0 where
  pub right : w.x + w.width ≤ 65535
  pub bottom : w.y + w.height ≤ 65535
  pub wide : 19 ≤ w.width
  pub high : 38 ≤ w.height
  pub title : 5 + length w.title * 8 ≤ w.width
  pub text : (color : ℕ) (s : List ℕ) → painting ≡ some (color, s) → 2 + length s * 8 ≤ w.width

abbrev pub window_rect : Window → ℕ → ℕ → Bool
window_rect w px py = in_rect w.x w.y w.width w.height px py

abbrev pub client_of : Window → ℕ → ℕ → Bool
client_of w px py = in_rect (w.x + 1) (w.y + 21) (w.width - 2) (w.height - 22) px py

-- A pixel under a filled part and a black text.
uncovered :
    (old mid after color : ℕ) (part text : Bool)
    → mid ≡ (if part then color else old)
    → (after ≡ mid) ⊎ ((after ≡ 0) × (text ≡ true))
    → part ≡ false
    → text ≡ false
    → after ≡ old
uncovered old mid after color part text m a p t = ground arith

covered :
    (old mid after color : ℕ) (part text : Bool)
    → mid ≡ (if part then color else old)
    → (after ≡ mid) ⊎ ((after ≡ 0) × (text ≡ true))
    → part ≡ true
    → (after ≡ color) ⊎ (after ≡ 0)
covered old mid after color part text m a p = ground arith

module _ (info : VgaMode) (f : IsFlat info) (w : Window) (px py : ℕ) where
  mode-draw_window :
      (v : Vga) → (vga_draw_window w.x w.y w.width w.height w.title v).current_mode ≡ v.current_mode
  unfolding vga_draw_window
  mode-draw_window v =
      mode-draw_text info f _ _ _ _ _
      ∙ mode-draw_rect _ _ _ _ _ _
      ∙ mode-draw_rect _ _ _ _ _ _
      ∙ mode-draw_text info f _ _ _ _ _
      ∙ mode-draw_rect _ _ _ _ _ _
      ∙ mode-draw_rect _ _ _ _ _ _

  pixel-filled :
      (color : ℕ) (text : List ℕ) (v : Vga)
      → v.current_mode ≡ info
      → on_screen info px py ≡ true
      → w.x + w.width ≤ 65535
      → w.y + w.height ≤ 65535
      → 38 ≤ w.height
      → 19 ≤ w.width
      → 2 + length text * 8 ≤ w.width
      → (window_rect w px py ≡ false
          → pixel_in info px py (filled_window w color text v) ≡ pixel_in info px py v)
        × (client_of w px py ≡ true
            → (pixel_in info px py (filled_window w color text v) ≡ color)
              ⊎ (pixel_in info px py (filled_window w color text v) ≡ 0))
        × ((filled_window w color text v).current_mode ≡ info)
  pixel-filled color text v m on fx fy h wd t =
      let v1 : Vga =
        vga_draw_rect (u16 (w.x + 1)) (u16 (w.y + 21)) (less w.width 2) (less w.height 22) color
          v in
      let m1 : v1.current_mode ≡ info =
        mode-draw_rect (u16 (w.x + 1)) (u16 (w.y + 21)) (less w.width 2) (less w.height 22) color v
        ∙ m in
      let r =
        draw_rect-pixel info f (u16 (w.x + 1)) (u16 (w.y + 21)) (less w.width 2) (less w.height 22)
          color px py v m on (omega arith) (omega arith) in
      let s =
        pixel-draw_text info f (u16 (w.x + 2)) (u16 (w.y + 2 + 20)) text 0 px py v1 m1 on
          (omega arith) (omega arith) in
      let ex : u16 (w.x + 1) ≡ w.x + 1 = omega arith in
      let ey : u16 (w.y + 21) ≡ w.y + 21 = omega arith in
      let ew : less w.width 2 ≡ w.width - 2 = omega arith in
      let eh : less w.height 22 ≡ w.height - 22 = omega arith in
      let ex2 : u16 (w.x + 2) ≡ w.x + 2 = omega arith in
      let ey2 : u16 (w.y + 2 + 20) ≡ w.y + 22 = omega arith in
      let part = λ (x' y' width' height' : ℕ).
        outside_part w.x w.y w.width w.height x' y' width' height' px py in
      let old : ℕ = pixel_in info px py v in
      let after : ℕ = pixel_in info px py (filled_window w color text v) in
      let mid : ℕ = pixel_in info px py v1 in
      let a : Bool =
        in_rect (u16 (w.x + 1)) (u16 (w.y + 21)) (less w.width 2) (less w.height 22) px py in
      let b : Bool = in_rect (u16 (w.x + 2)) (u16 (w.y + 2 + 20)) (length text * 8) 16 px py in
      (
        λ out.
            uncovered old mid after color a b r s
              (rw (ex, ey, ew, eh)
                (part (w.x + 1) (w.y + 21) (w.width - 2) (w.height - 22) out (omega arith)
                  (omega arith) (omega arith) (omega arith)))
              (rw (ex2, ey2)
                (part (w.x + 2) (w.y + 22) (length text * 8) 16 out (omega arith) (omega arith)
                  (omega arith) (omega arith))),
        λ inside. covered old mid after color a b r s (rw (ex, ey, ew, eh) inside),
        mode-draw_text info f _ _ _ _ _ ∙ m1,
      )

  -- A layer changes no pixel outside its window, and in the client area leaves what the painter puts there.
  pub layer-pixel :
      (painting : Option (ℕ × List ℕ)) (v : Vga)
      → v.current_mode ≡ info
      → on_screen info px py ≡ true
      → Fits w painting
      → (window_rect w px py ≡ false
          → pixel_in info px py (layer w painting v) ≡ pixel_in info px py v)
        × (client_of w px py ≡ true → Shown painting (pixel_in info px py (layer w painting v)))
        × ((layer w painting v).current_mode ≡ info)
  layer-pixel painting v m on t =
      let v1 : Vga = vga_draw_window w.x w.y w.width w.height w.title v in
      let m1 : v1.current_mode ≡ info = mode-draw_window v ∙ m in
      let (out, white, edge) =
        draw_window-framed info w.x w.y w.width w.height w.title px py v f m t.right t.bottom t.wide
          (omega (arith, t.high)) t.title on in
      elim (Option-cases painting) [
        | inl n ↦ rw n (out, white, m1)
        | inr ((color, s), e) ↦
            let (out', in', m') =
              pixel-filled color s v1 m1 on t.right t.bottom t.high t.wide (t.text color s e) in
            rw e (λ o. out' o ∙ out o, in', m')
      ]
