-- ===== src/Window/Desktop.antt =====
-- The drawing of src/impl/drivers/video/window.c on the screen of vga.c, the terminal, browser and
-- editor windows, and the start of the graphical interface.
pub mod Painters
pub mod Front
pub mod Typed
mod Tests
use nans_os.Base.{
  ℕ, zero, suc, ◌+◌, ◌-◌, ◌%◌, Bool, true, false, not, ◌&&◌, Option, none, some, List, [], ◌∷◌, ltb,
  leb, ◌==◌, if◌then◌else◌, set, replicate, is_some,
}
use nans_os.Pic.{Ports}
use nans_os.Vga.{Vga, u16, less, vga_draw_rect, vga_clear_screen, vga_swap_buffers, vga_set_mode}
use nans_os.Vga.Scene.{
  ◌>>=◌, vga_draw_text, vga_draw_window, vga_draw_button, vga_draw_taskbar, vga_init_desktop,
  vga_update_cursor,
}
use nans_os.Window.{
  Ptr, Window, Wm, write, update_window, window_create, window_destroy, window_show, window_move,
  window_handle_key, window_handle_mouse, Click, remove_entry,
}

abbrev pub terminal_buffer_size : ℕ
terminal_buffer_size = 1024

-- `data` has `terminal_buffer_size` bytes.
pub record TerminalBuffer : Type 0 where
  pub data_bytes : List ℕ
  pub cursor : ℕ

-- The windows, the memory of their contents and the screen.
pub record Desktop : Type 0 where
  pub wm : Wm
  pub contents : Ptr → Option TerminalBuffer
  pub vga : Vga

-- The string at the start of an array.
unfoldable pub text_of : List ℕ → List ℕ
text_of [] = []
text_of (c ∷ cs) = let rest = text_of cs in if c == 0 then [] else c ∷ rest

-- A drawing in the window at `p`: nothing for NULL, `none` where `p` holds no window.
abbrev pub on_window : Ptr → (Window → Vga → Option Vga) → Desktop → Option Desktop
on_window p draw d = if p == 0 then some d else elim (d.wm.store p) [
  | none ↦ none
  | some w ↦ do v ← draw w d.vga; some (record d { vga = v })
]

unfoldable pub window_draw_text : Ptr → ℕ → ℕ → List ℕ → Desktop → Option Desktop
window_draw_text p x y text d =
    on_window p (λ w v. some (vga_draw_text (u16 (w.x + x)) (u16 (w.y + y + 20)) text 0 v)) d

unfoldable pub window_draw_button : Ptr → ℕ → ℕ → ℕ → ℕ → List ℕ → Desktop → Option Desktop
window_draw_button p x y width height text d =
    on_window p (λ w v. vga_draw_button (u16 (w.x + x)) (u16 (w.y + y + 20)) width height text v) d

unfoldable pub window_clear : Ptr → ℕ → Desktop → Option Desktop
window_clear p color d =
    on_window p
      (λ w v. some (
        vga_draw_rect (u16 (w.x + 1)) (u16 (w.y + 21)) (less w.width 2) (less w.height 22) color v))
      d

unfoldable pub terminal_paint : Ptr → Desktop → Option Desktop
terminal_paint p d = elim (d.wm.store p) [
  | none ↦ none
  | some w ↦ if w.content == 0 then some d else elim (d.contents w.content) [
    | none ↦ none
    | some buffer ↦ do
      d' ← window_clear p 0 d
      window_draw_text p 2 2 (text_of buffer.data_bytes) d'
  ]
]

-- A byte is appended if there is room for it and the zero behind it.
unfoldable pub type_byte : ℕ → TerminalBuffer → TerminalBuffer
type_byte key b =
    if ltb b.cursor (terminal_buffer_size - 1)
    then record {
      data_bytes = set (set b.data_bytes b.cursor key) (b.cursor + 1) 0;
      cursor = b.cursor + 1;
    }
    else b

unfoldable pub terminal_key : Ptr → ℕ → Desktop → Option Desktop
terminal_key p key d = elim (d.wm.store p) [
  | none ↦ none
  | some w ↦ if w.content == 0 then some d else elim (d.contents w.content) [
    | none ↦ none
    | some buffer ↦ some (record d {
      contents = λ q. if q == w.content then some (type_byte key buffer) else d.contents q;
    })
  ]
]

abbrev pub browser_text : List ℕ
browser_text =
    b'F' ∷ b'i' ∷ b'l' ∷ b'e' ∷ b' ' ∷ b'B' ∷ b'r' ∷ b'o' ∷ b'w' ∷ b's' ∷ b'e' ∷ b'r' ∷ b' ' ∷ b'-'
    ∷ b' ' ∷ b'C' ∷ b'o' ∷ b'm' ∷ b'i' ∷ b'n' ∷ b'g' ∷ b' ' ∷ b'S' ∷ b'o' ∷ b'o' ∷ b'n' ∷ b'!' ∷ []

abbrev pub editor_text : List ℕ
editor_text =
    b'T' ∷ b'e' ∷ b'x' ∷ b't' ∷ b' ' ∷ b'E' ∷ b'd' ∷ b'i' ∷ b't' ∷ b'o' ∷ b'r' ∷ b' ' ∷ b'-' ∷ b' '
    ∷ b'C' ∷ b'o' ∷ b'm' ∷ b'i' ∷ b'n' ∷ b'g' ∷ b' ' ∷ b'S' ∷ b'o' ∷ b'o' ∷ b'n' ∷ b'!' ∷ []

unfoldable pub file_browser_paint : Ptr → Desktop → Option Desktop
file_browser_paint p d = do d' ← window_clear p 15 d; window_draw_text p 2 2 browser_text d'

unfoldable pub text_editor_paint : Ptr → Desktop → Option Desktop
text_editor_paint p d = do d' ← window_clear p 15 d; window_draw_text p 2 2 editor_text d'

-- The call of `on_paint`: 1, 2 and 3 name the three painters; another number but 0 names none.
unfoldable pub call_paint : ℕ → Ptr → Desktop → Option Desktop
call_paint n p d =
    if n == 0
    then some d
    else if n == 1
    then terminal_paint p d
    else if n == 2
    then file_browser_paint p d
    else if n == 3
    then text_editor_paint p d
    else none

-- The whole of `window_handle_mouse`: the cursor is drawn, and the click handler that is called is
-- told.
unfoldable pub desktop_mouse : ℕ → ℕ → Bool → Desktop → Option (Desktop × Option Click)
desktop_mouse x y left d = do
  v ← vga_update_cursor x y d.vga
  (s, click) ← window_handle_mouse x y left d.wm
  some (record d { wm = s; vga = v }, click)

-- A key to the active window, with 1 for the handler `terminal_key`.
unfoldable pub desktop_key : ℕ → Desktop → Option Desktop
desktop_key key d = elim (window_handle_key d.wm) [
  | none ↦ none
  | some none ↦ some d
  | some (some (handler, p)) ↦ if handler == 1 then terminal_key p key d else none
]

-- Keys one after the other.
unfoldable pub desktop_keys : List ℕ → Desktop → Option Desktop
desktop_keys [] d = some d
desktop_keys (key ∷ keys) d = elim (desktop_key key d) [
  | none ↦ none
  | some d' ↦ desktop_keys keys d'
]

-- One round of the loop of `window_update`.
unfoldable pub show_window : Ptr → Desktop → Option Desktop
show_window p d = elim (d.wm.store p) [
  | none ↦ none
  | some w ↦
      if w.flags.visible
      then call_paint w.on_paint p
          (record d { vga = vga_draw_window w.x w.y w.width w.height w.title d.vga })
      else some d
]

unfoldable pub show_windows : List Ptr → Desktop → Option Desktop
show_windows [] d = some d
show_windows (p ∷ ps) d = elim (show_window p d) [ none ↦ none | some d' ↦ show_windows ps d' ]

unfoldable pub window_update : Desktop → Option Desktop
window_update d = do
  v ← vga_draw_taskbar (vga_clear_screen 3 d.vga)
  d' ← show_windows d.wm.windows (record d { vga = v })
  some (record d' { vga = vga_swap_buffers d'.vga })

abbrev pub with_wm : Option Wm → Desktop → Option Desktop
with_wm s d = do s' ← s; some (record d { wm = s' })

-- `window_destroy` with the release of the contents: `none` where a listed window is not in memory.
unfoldable pub desktop_destroy : Ptr → Desktop → Option Desktop
desktop_destroy p d =
    let listed = not (p == 0) && is_some (remove_entry p d.wm.windows) in
    if not listed then some d else elim (d.wm.store p) [
      | none ↦ none
      | some w ↦ some (record d {
        wm = window_destroy p d.wm;
        contents = λ q. if q == w.content && not (q == 0) then none else d.contents q;
      })
    ]

abbrev pub terminal_title : List ℕ
terminal_title = b'T' ∷ b'e' ∷ b'r' ∷ b'm' ∷ b'i' ∷ b'n' ∷ b'a' ∷ b'l' ∷ []

abbrev pub browser_title : List ℕ
browser_title =
    b'F' ∷ b'i' ∷ b'l' ∷ b'e' ∷ b' ' ∷ b'B' ∷ b'r' ∷ b'o' ∷ b'w' ∷ b's' ∷ b'e' ∷ b'r' ∷ []

abbrev pub editor_title : List ℕ
editor_title = b'T' ∷ b'e' ∷ b'x' ∷ b't' ∷ b' ' ∷ b'E' ∷ b'd' ∷ b'i' ∷ b't' ∷ b'o' ∷ b'r' ∷ []

abbrev pub empty_buffer : TerminalBuffer
empty_buffer = record { data_bytes = replicate terminal_buffer_size 0; cursor = 0 }

-- `fresh` and `buffer` are what the two calls of `malloc` return.
unfoldable pub window_create_terminal : Ptr → Ptr → Desktop → Option (Ptr × Desktop)
window_create_terminal fresh buffer d =
    let (p, s) = window_create fresh terminal_title 100 100 400 300 d.wm in
    if p == 0
    then some (0, d)
    else if buffer == 0
    then some (0, record d { wm = window_destroy p s })
    else do
      s' ← update_window p (λ w. record w { content = buffer; on_paint = 1; on_key = 1 }) s
      some (
        p,
        record d {
          wm = s';
          contents = λ q. if q == buffer then some empty_buffer else d.contents q;
        },
      )

-- A window whose only handler is the painter of a number.
abbrev pub create_painted : Ptr → List ℕ → ℕ → ℕ → ℕ → ℕ → Desktop → Option (Ptr × Desktop)
create_painted fresh title at width height painter d =
    let (p, s) = window_create fresh title at at width height d.wm in
    if p == 0 then some (0, d) else do
      s' ← update_window p (λ w. record w { on_paint = painter }) s
      some (p, record d { wm = s' })

unfoldable pub window_create_file_browser : Ptr → Desktop → Option (Ptr × Desktop)
window_create_file_browser fresh d = create_painted fresh browser_title 150 500 400 2 d

unfoldable pub window_create_text_editor : Ptr → Desktop → Option (Ptr × Desktop)
window_create_text_editor fresh d = create_painted fresh editor_title 200 600 450 3 d

-- A new window is shown and put in its place, if there is one.
abbrev pub placed : Ptr → ℕ → ℕ → Desktop → Option Desktop
placed p x y d =
    if p == 0 then some d else do s ← window_show p d.wm; with_wm (window_move p x y s) d

-- The pointers are what `malloc` returns, in the order of its calls.
unfoldable pub window_init_gui :
    {M : Type 0} → Ports M → Ptr → Ptr → Ptr → M → Desktop → Option (M × Desktop)
window_init_gui ports terminal buffer browser m d =
    let (r, m1, v1) = vga_set_mode ports 0x12 m d.vga in
    do
      (m2, v2) ← vga_init_desktop ports m1 v1
      (t, d1) ← window_create_terminal terminal buffer (record d { vga = v2 })
      d2 ← placed t 50 50 d1
      (b, d3) ← window_create_file_browser browser d2
      d4 ← placed b 200 100 d3
      some (m2, record d4 { vga = vga_swap_buffers d4.vga })
