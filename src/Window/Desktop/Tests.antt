-- ===== src/Window/Desktop/Tests.antt =====
-- A screen with a terminal below a plain window, and keys typed into it.
use mathlib.Core.Path.{subst}
use nans_os.Base.{
  ℕ, ◌+◌, ◌*◌, ◌≤◌, length, ◌≡◌, refl, sym, ap, arith, true, false, Option, none, some, List, [],
  ◌∷◌, ◌==◌, if◌then◌else◌, eq_of_some,
}
use nans_os.Vga.{Vga, VgaMode, sized, offset_of}
use nans_os.Vga.Pixels.{IsFlat}
use nans_os.Window.{Ptr, Window, WindowFlags, take}
use nans_os.Window.Desktop.{
  TerminalBuffer, Desktop, text_of, desktop_keys, window_update, empty_buffer,
}
use nans_os.Window.Desktop.Painters.{Fits, Shown, window_rect}
use nans_os.Window.Desktop.Front.{window_update-Shown}
use nans_os.Window.Desktop.Typed.{desktop_keys-typed}

abbrev colors : VgaMode
colors = sized 320 200 8 320 0x13

colors-IsFlat : IsFlat colors
colors-IsFlat = record { wide = omega arith; small = omega arith }

abbrev shown : WindowFlags
shown = record {
  visible = true;
  movable = true;
  resizable = false;
  minimized = false;
  maximized = false;
}

abbrev titled : ℕ → ℕ → ℕ → ℕ → ℕ → ℕ → Window
titled x y content on_paint on_click on_key = record {
  title = b'A' ∷ b'B' ∷ [];
  x = x;
  y = y;
  width = 100;
  height = 60;
  flags = shown;
  content = content;
  on_paint = on_paint;
  on_click = on_click;
  on_key = on_key;
}

abbrev terminal : Window
terminal = titled 10 40 7 1 0 1

abbrev plain : Window
plain = titled 150 20 0 0 0 0

abbrev desk : Desktop
desk = record {
  wm = record {
    windows = 1 ∷ 2 ∷ [];
    active_window = 1;
    dragging_window = 0;
    drag_offset_x = 0;
    drag_offset_y = 0;
    store = λ p. if p == 1 then some terminal else if p == 2 then some plain else none;
  };
  contents = λ p. if p == 7 then some empty_buffer else none;
  vga = record { current_mode = colors; back_buffer = λ i. 0; front_buffer = λ i. 0 };
}

terminal-Fits : Fits terminal (some (0, text_of empty_buffer.data_bytes))
unfolding text_of
terminal-Fits = record {
  right = omega arith;
  bottom = omega arith;
  wide = omega arith;
  high = omega arith;
  title = omega arith;
  text = λ color s e.
      subst (λ r. 2 + length r * 8 ≤ 100) (ap (λ (z : ℕ × List ℕ). z.1) (eq_of_some e))
        (omega arith);
}

plain-Fits : Fits plain none
plain-Fits = record {
  right = omega arith;
  bottom = omega arith;
  wide = omega arith;
  high = omega arith;
  title = omega arith;
  text = λ color s e. ground arith;
}

window_update-Shown_example :
    (v : Vga) × (window_update desk ≡ some (record desk { vga = v }))
    × Shown (some (0, text_of empty_buffer.data_bytes)) (v.front_buffer (offset_of colors 20 70))
window_update-Shown_example =
    window_update-Shown colors 20 70 [] (2 ∷ []) 1 terminal
      (some (0, text_of empty_buffer.data_bytes)) desk colors-IsFlat refl refl (omega arith) refl
      (
        (
          λ z. ground arith,
          terminal,
          refl,
          λ vis. (some (0, text_of empty_buffer.data_bytes), refl, terminal-Fits),
        ),
        ((λ z. ground arith, plain, refl, λ vis. (none, refl, plain-Fits)), tt),
      )
      refl refl refl (λ w e vis. ap (λ u. window_rect u 20 70) (sym (eq_of_some e)), tt) refl

desktop_keys-typed_example :
    (contents : Ptr → Option TerminalBuffer) × (b : TerminalBuffer) × (desktop_keys
        (b'l' ∷ b's' ∷ [])
        desk
      ≡ some (record desk { contents = contents }))
    × (contents 7 ≡ some b)
    × (text_of b.data_bytes ≡ take 1023 (b'l' ∷ b's' ∷ []))
desktop_keys-typed_example =
    desktop_keys-typed (b'l' ∷ b's' ∷ []) terminal desk
      (record {
        nonzero = λ z. ground arith;
        stored = refl;
        handler = refl;
        allocated = λ z. ground arith;
        buffer = refl;
      })
      (refl, (refl, tt))
